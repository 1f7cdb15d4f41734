-- ===== src/Storage/Tests.antt =====
-- The buffer at concrete inputs: five readings, two of them resolved.
use wqm.Prelude.{ℕ, ◌+◌, ◌≤◌, ◌≡◌, refl, max, true, false, [], ◌∷◌, arith, keep}
use wqm.Storage.{
  Database, pending, synced, failed_permanent, rotate, get_count, get_state_count, ids,
  get_unsynced, by_time, insert,
}
use wqm.Storage.Sound.{IsSound}
use wqm.Storage.Bound.{rotate_bound}

abbrev buffer : Database ℕ
buffer = record {
  rows =
      record {
        id = 1;
        timestamp = 20;
        reading = 7;
        synced_column = true;
        sync_state = synced;
        sync_attempts = 0;
      }
      ∷ record {
        id = 2;
        timestamp = 30;
        reading = 8;
        synced_column = false;
        sync_state = pending;
        sync_attempts = 1;
      }
      ∷ record {
        id = 3;
        timestamp = 10;
        reading = 9;
        synced_column = false;
        sync_state = pending;
        sync_attempts = 0;
      }
      ∷ record {
        id = 5;
        timestamp = 40;
        reading = 6;
        synced_column = true;
        sync_state = failed_permanent;
        sync_attempts = 0;
      }
      ∷ [];
  next_id = 6;
  rotate_pending = false;
}

buffer-IsSound : IsSound buffer
buffer-IsSound = record {
  agrees = (refl, (refl, (refl, (refl, tt))));
  ascending = (omega arith, (omega arith, (omega arith, (omega arith, omega arith))));
}

rotate_bound_example :
    (get_count (rotate 1 buffer).1 ≤ max 1 (get_state_count pending buffer))
    × ((rotate 1 buffer).0 + get_count (rotate 1 buffer).1 ≡ get_count buffer)
rotate_bound_example = rotate_bound 1 buffer buffer-IsSound

-- The older of the two readings that wait goes first.
oldest_first : ids (get_unsynced 1 buffer) ≡ 3 ∷ []
unfolding get_unsynced by_time insert keep
oldest_first = refl
