-- ===== src/Idempotency/Table.antt =====
-- schema/server-schema.ts, `sync_batch_requests`, and what the server relies on of the database that
-- holds it. The database and Drizzle's query builder are not part of the repository: they are the
-- parameter `BatchTable`, whose laws are what SQL says of these statements.
use baresync.Prelude.{
  ℕ, String, Bool, false, not, ◌&&◌, Option, none, some, List, [], ◌∷◌, ◌++◌, map, ◌≡◌, ◌≢◌, ◌==◌,
  keep, any, if◌then◌else◌,
}

pub data Status : Type 0 where
  pending completed failed : Status

pub record BatchRequest : Type 0 where
  pub id : ℕ
  pub client_id : String
  pub idempotency_key : String
  pub request_hash : String
  pub status : Status
  pub response_body : Option String
  pub created_at : ℕ
  pub completed_at : Option ℕ

-- `insert(…).values(…)`: the columns that the code gives; the database chooses the id.
pub record Values : Type 0 where
  pub client_id : String
  pub idempotency_key : String
  pub request_hash : String
  pub status : Status
  pub response_body : Option String
  pub created_at : ℕ

abbrev pub new_row : ℕ → Values → BatchRequest
new_row id v = record {
  id = id;
  client_id = v.client_id;
  idempotency_key = v.idempotency_key;
  request_hash = v.request_hash;
  status = v.status;
  response_body = v.response_body;
  created_at = v.created_at;
  completed_at = none;
}

-- `update(…).set(…)`: the columns that the code sets. `none` leaves a column alone.
pub record Patch : Type 0 where
  pub status : Status
  pub response_body : String
  pub created_at : Option ℕ
  pub completed_at : Option ℕ

abbrev set_time : Option ℕ → ℕ → ℕ
set_time none old = old
set_time (some new) old = new

abbrev set_time? : Option ℕ → Option ℕ → Option ℕ
set_time? none old = old
set_time? (some new) old = some new

abbrev pub patched : Patch → BatchRequest → BatchRequest
patched p r = record r {
  status = p.status;
  response_body = some p.response_body;
  created_at = set_time p.created_at r.created_at;
  completed_at = set_time? p.completed_at r.completed_at;
}

-- The unique index `sync_batch_requests_client_idemp_idx`.
abbrev pub conflicts : Values → BatchRequest → Bool
conflicts v r = r.client_id == v.client_id && r.idempotency_key == v.idempotency_key

pub record BatchTable : Type 1 where
  pub Db : Type 0
  -- The rows, in the order in which a select without ORDER BY gives them.
  pub rows : Db → List BatchRequest
  pub select : (BatchRequest → Bool) → Db → List BatchRequest
  -- `none` is a failed insert.
  pub insert : Values → Db → Option Db
  pub update : Patch → (BatchRequest → Bool) → Db → Db
  pub delete : (BatchRequest → Bool) → Db → Db
  pub select_lem : (p : BatchRequest → Bool) (db : Db) → select p db ≡ keep p (rows db)
  pub update_lem :
      (f : Patch) (p : BatchRequest → Bool) (db : Db)
      → rows (update f p db) ≡ map (λ r. if p r then patched f r else r) (rows db)
  pub delete_lem :
      (p : BatchRequest → Bool) (db : Db) → rows (delete p db) ≡ keep (λ r. not (p r)) (rows db)
  -- An insert adds one row, behind the others here, and only where the unique index allows it.
  pub insert_lem :
      (v : Values) (db db' : Db)
      → insert v db ≡ some db'
      → (id : ℕ) × (rows db' ≡ rows db ++ new_row id v ∷ []) × (any (conflicts v) (rows db) ≡ false)
  -- Where the unique index allows it, an insert succeeds.
  pub insert_room :
      (v : Values) (db : Db) → any (conflicts v) (rows db) ≡ false → insert v db ≢ none
