-- ===== src/Service.antt =====
-- packages/baresync/src/server/service.ts, by its parts: the order of the changes of a push, cursors,
-- the rows of a pull, the limits of a push, and the codes of errors.
pub mod Changes
pub mod Cursor
pub mod Rows
pub mod Latest
pub mod Envelope
pub mod Errors
mod Examples
