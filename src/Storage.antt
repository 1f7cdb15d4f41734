-- ===== src/Storage.antt =====
-- The buffer of readings in src/storage/database.py: the rows in the order of their ids, and the
-- operations of WQM1Database on them. A time is known by its place in the order of its texts.
mod Ids
pub mod Sound
pub mod Pending
mod Rotate
mod Bound
mod Tests
use wqm.Prelude.{
  ℕ, suc, ◌+◌, ◌-◌, ltb, leb, ◌==◌, Bool, true, false, not, ◌&&◌, List, [], ◌∷◌, ◌++◌, keep,
  contains, length, take, map, if◌then◌else◌,
}

pub data SyncState : Type 0 where
  pending synced failed_permanent : SyncState

-- `synced_column` is the flag `synced` of the first schema.
pub record Row {ℓ} (V : Type ℓ) : Type ℓ where
  pub id : ℕ
  pub timestamp : ℕ
  pub reading : V
  pub synced_column : Bool
  pub sync_state : SyncState
  pub sync_attempts : ℕ

-- `next_id` is the counter of AUTOINCREMENT.
pub record Database {ℓ} (V : Type ℓ) : Type ℓ where
  pub rows : List (Row V)
  pub next_id : ℕ
  pub rotate_pending : Bool

abbrev pub is_pending : SyncState → Bool
is_pending pending = true
is_pending _ = false

abbrev pub same_state : SyncState → SyncState → Bool
same_state pending pending = true
same_state synced synced = true
same_state failed_permanent failed_permanent = true
same_state _ _ = false

-- An id that is listed twice is counted twice.
unfoldable pub occurrences : ℕ → List ℕ → ℕ
occurrences n [] = 0
occurrences n (m ∷ ms) = let rest = occurrences n ms in if m == n then suc rest else rest

module _ {ℓ} {V : Type ℓ} where
  abbrev pub waits : Row V → Bool
  waits r = is_pending r.sync_state

  abbrev pub is_resolved : Row V → Bool
  is_resolved r = not (waits r)

  abbrev pub ids : List (Row V) → List ℕ
  ids [] = []
  ids (r ∷ rs) = r.id ∷ ids rs

  abbrev pub empty : Database V
  empty = record { rows = []; next_id = 1; rotate_pending = false }

  -- The id of the row, with the database.
  unfoldable pub insert_reading : ℕ → V → Database V → ℕ × Database V
  insert_reading timestamp reading db = (
    db.next_id,
    record db {
      rows =
          db.rows
          ++ record {
            id = db.next_id;
            timestamp = timestamp;
            reading = reading;
            synced_column = false;
            sync_state = pending;
            sync_attempts = 0;
          }
            ∷ [];
      next_id = suc db.next_id;
    },
  )

  -- `ORDER BY timestamp ASC`: rows of one time stay in the order of their ids.
  unfoldable pub insert : Row V → List (Row V) → List (Row V)
  insert r [] = r ∷ []
  insert r (x ∷ xs) =
      let rest = insert r xs in if leb r.timestamp x.timestamp then r ∷ x ∷ xs else x ∷ rest

  unfoldable pub by_time : List (Row V) → List (Row V)
  by_time [] = []
  by_time (r ∷ rs) = insert r (by_time rs)

  unfoldable pub get_unsynced : ℕ → Database V → List (Row V)
  get_unsynced limit db = take limit (by_time (keep waits db.rows))

  -- `UPDATE readings SET synced = 1, sync_state = … WHERE id = ?`, for every id
  unfoldable pub mark : SyncState → List ℕ → Row V → Row V
  mark state marked r =
      if contains r.id marked then record r { synced_column = true; sync_state = state } else r

  unfoldable pub mark_synced : List ℕ → Database V → Database V
  mark_synced marked db = record db { rows = map (mark synced marked) db.rows }

  unfoldable pub mark_failed_permanent : List ℕ → Database V → Database V
  mark_failed_permanent marked db = record db { rows = map (mark failed_permanent marked) db.rows }

  unfoldable pub bump : List ℕ → Row V → Row V
  bump bumped r = record r { sync_attempts = r.sync_attempts + occurrences r.id bumped }

  unfoldable pub bump_sync_attempts : List ℕ → Database V → Database V
  bump_sync_attempts bumped db = record db { rows = map (bump bumped) db.rows }

  unfoldable pub get_count : Database V → ℕ
  get_count db = length db.rows

  unfoldable pub get_state_count : SyncState → Database V → ℕ
  get_state_count state db = length (keep (λ r. same_state r.sync_state state) db.rows)

  -- `DELETE FROM readings WHERE id IN (SELECT id … ORDER BY timestamp ASC LIMIT ?)`
  unfoldable pub delete_oldest : (Row V → Bool) → ℕ → List (Row V) → List (Row V)
  delete_oldest selects limit rows =
      let chosen = ids (take limit (by_time (keep selects rows))) in
      keep (λ r. not (contains r.id chosen)) rows

  -- The row count of that statement.
  unfoldable pub rowcount : (Row V → Bool) → ℕ → List (Row V) → ℕ
  rowcount selects limit rows =
      let chosen = ids (take limit (by_time (keep selects rows))) in
      length (keep (λ r. contains r.id chosen) rows)

  unfoldable pub rotate_resolved : ℕ → Database V → Database V
  rotate_resolved max_rows db = record db {
    rows = delete_oldest is_resolved (length db.rows - max_rows) db.rows;
  }

  -- Where nothing is over, nothing is asked of the database.
  unfoldable pub rotate_waiting : ℕ → Database V → Database V
  rotate_waiting max_rows db =
      if db.rotate_pending && ltb max_rows (length db.rows)
      then record db { rows = delete_oldest waits (length db.rows - max_rows) db.rows }
      else db

  -- The row count of its statement, where there is one.
  unfoldable pub dropped : ℕ → Database V → ℕ
  dropped max_rows db =
      if db.rotate_pending && ltb max_rows (length db.rows)
      then rowcount waits (length db.rows - max_rows) db.rows
      else 0

  -- The sum of the row counts, with the database.
  unfoldable pub rotate : ℕ → Database V → ℕ × Database V
  rotate max_rows db =
      let resolved = rotate_resolved max_rows db in
      if leb (length db.rows) max_rows then (0, db) else (
        rowcount is_resolved (length db.rows - max_rows) db.rows + dropped max_rows resolved,
        rotate_waiting max_rows resolved,
      )

  unfoldable pub last_of : List (Row V) → List (Row V)
  last_of [] = []
  last_of (r ∷ []) = r ∷ []
  last_of (r ∷ s ∷ rs) = last_of (s ∷ rs)

  -- `get_latest`, a list of at most one row.
  abbrev pub get_latest : Database V → List (Row V)
  get_latest db = last_of db.rows
