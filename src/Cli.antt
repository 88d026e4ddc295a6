-- ===== src/Cli.antt =====
-- packages/baresync/src/cli/generator.ts: the command line of the generator.
pub mod Arguments
pub mod Entries
pub mod Commands
pub mod Doctor
pub mod Generate
