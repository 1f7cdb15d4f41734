-- ===== src/Cloud/Sync.antt =====
-- `sync_readings` of src/cloud/client.py over the buffer: the rows that it takes, and what it does with
-- the server's answer. Other threads may use the buffer between the two.
use wqm.Prelude.{
  ℕ, Bool, true, false, not, ◌&&◌, ◌||◌, ◌==◌, Option, none, some, List, [], ◌∷◌, ◌++◌, length,
  get_elem?, contains, if◌then◌else◌,
}
use wqm.Prelude.Int.{ℤ, pos, negsuc}
use wqm.Storage.{
  Row, Database, ids, insert_reading, get_unsynced, mark_synced, mark_failed_permanent,
  bump_sync_attempts, rotate,
}

-- An entry of the server's results: its index, whether its status is "stored", whether it has an error.
pub record Entry : Type 0 where
  pub index : ℤ
  pub is_stored : Bool
  pub has_error : Bool

-- The answer to a batch: a status other than 200, or one of 200 with the results, which are none where
-- they are no list of dicts with an index each, or an empty one.
pub data Reply : Type 0 where
  declined : Reply
  accepted : Option (List Entry) → Reply

module _ {ℓ} {V : Type ℓ} where
  unfoldable pub row_at : ℤ → List (Row V) → Option (Row V)
  row_at (pos i) rows = get_elem? rows i
  row_at (negsuc i) rows = none

  abbrev pub id_if : Bool → Option (Row V) → List ℕ
  id_if b none = []
  id_if false (some r) = []
  id_if true (some r) = r.id ∷ []

  -- The ids that the entries say are stored, and those that they refuse.
  unfoldable pub stored_ids : List Entry → List (Row V) → List ℕ
  stored_ids [] rows = []
  stored_ids (e ∷ es) rows = id_if e.is_stored (row_at e.index rows) ++ stored_ids es rows

  unfoldable pub failed_ids : List Entry → List (Row V) → List ℕ
  failed_ids [] rows = []
  failed_ids (e ∷ es) rows =
      id_if (not e.is_stored && e.has_error) (row_at e.index rows) ++ failed_ids es rows

  -- The number of readings that are confirmed, with the buffer.
  unfoldable pub settle : Reply → List (Row V) → Database V → ℕ × Database V
  settle declined rows db = (0, bump_sync_attempts (ids rows) db)
  settle (accepted none) rows db = (length rows, mark_synced (ids rows) db)
  settle (accepted (some es)) rows db = (
    length (stored_ids es rows),
    mark_failed_permanent (failed_ids es rows) (mark_synced (stored_ids es rows) db),
  )

  abbrev is_empty : List (Row V) → Bool
  is_empty [] = true
  is_empty (r ∷ rs) = false

  unfoldable pub sync_readings : ℕ → Reply → Database V → ℕ × Database V
  sync_readings batch_size reply db =
      let rows = get_unsynced batch_size db in
      if is_empty rows then (0, db) else settle reply rows db

-- What the threads do with the buffer. The client sends a batch, and later has the answer to it.
pub data Event {ℓ} (V : Type ℓ) : Type ℓ where
  inserts : ℕ → V → Event V
  rotates : ℕ → Event V
  sends : ℕ → Event V
  hears : Reply → Event V

-- The buffer, with the batch that is under way.
pub record Uplink {ℓ} (V : Type ℓ) : Type ℓ where
  pub db : Database V
  pub batch : List (Row V)

module _ {ℓ} {V : Type ℓ} where
  unfoldable pub happen : Event V → Uplink V → Uplink V
  happen (inserts timestamp reading) u = record u { db = (insert_reading timestamp reading u.db).1 }
  happen (rotates max_rows) u = record u { db = (rotate max_rows u.db).1 }
  happen (sends batch_size) u = record u { batch = get_unsynced batch_size u.db }
  happen (hears reply) u = record { db = (settle reply u.batch u.db).1; batch = [] }

  unfoldable pub happen_all : List (Event V) → Uplink V → Uplink V
  happen_all [] u = u
  happen_all (event ∷ events) u = happen_all events (happen event u)

  abbrev pub is_of : ℕ → Option (Row V) → Bool
  is_of n none = false
  is_of n (some r) = r.id == n

  -- The entry stands for the row with the id, and says that it is stored or has an error.
  abbrev pub speaks_of : ℕ → List (Row V) → Entry → Bool
  speaks_of n rows e = (e.is_stored || e.has_error) && is_of n (row_at e.index rows)

  unfoldable pub some_speaks_of : ℕ → List (Row V) → List Entry → Bool
  some_speaks_of n rows [] = false
  some_speaks_of n rows (e ∷ es) = speaks_of n rows e || some_speaks_of n rows es

  -- Whether a reply to a batch decides on the reading with the id.
  unfoldable pub decides : ℕ → Reply → List (Row V) → Bool
  decides n declined rows = false
  decides n (accepted none) rows = contains n (ids rows)
  decides n (accepted (some es)) rows = some_speaks_of n rows es

  unfoldable pub decided_in : ℕ → Event V → Uplink V → Bool
  decided_in n (inserts timestamp reading) u = false
  decided_in n (rotates max_rows) u = false
  decided_in n (sends batch_size) u = false
  decided_in n (hears reply) u = decides n reply u.batch

  -- Some answer of the events decides on it, about the batch that is then under way.
  unfoldable pub decided_by : ℕ → List (Event V) → Uplink V → Bool
  decided_by n [] u = false
  decided_by n (event ∷ events) u = decided_in n event u || decided_by n events (happen event u)
