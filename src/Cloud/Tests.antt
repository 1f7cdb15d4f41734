-- ===== src/Cloud/Tests.antt =====
-- The cloud client at concrete inputs.
use wqm.Prelude.{ℕ, zero, suc, ◌≡◌, ◌⊎◌, refl, true, false, some, List, [], ◌∷◌, String}
use wqm.Prelude.Int.{pos}
use wqm.Storage.{empty, insert_reading}
use wqm.Storage.Sound.{IsSound, empty-IsSound, insert_reading-IsSound}
use wqm.Storage.Pending.{has_pending}
use wqm.Cloud.Sync.{
  Event, inserts, rotates, sends, hears, declined, accepted, Uplink, happen_all, decided_by,
}
use wqm.Cloud.Kept.{no_reading_lost}
use wqm.Cloud.Request.{
  Attempt, answered, http_error, broken, request, IsTried, Posted, retry, recorded, request_tries,
}

abbrev one_reading : Uplink ℕ
one_reading = record { db = (insert_reading 10 700 empty).1; batch = [] }

one_reading-IsSound : IsSound one_reading.db
one_reading-IsSound = insert_reading-IsSound 10 700 empty empty-IsSound

-- A batch is declined, the buffer is rotated while the next one is under way, and that is stored.
abbrev events : List (Event ℕ)
events =
    sends 50
    ∷ hears declined
    ∷ inserts 20 710
    ∷ sends 50
    ∷ rotates 1
    ∷ hears (accepted (some (record { index = pos 0; is_stored = true; has_error = false } ∷ [])))
    ∷ []

no_reading_lost_example :
    (has_pending 1 (happen_all events one_reading).db.rows ≡ true)
    ⊎ (decided_by 1 events one_reading ≡ true)
unfolding insert_reading
no_reading_lost_example = no_reading_lost events one_reading 1 one_reading-IsSound refl refl

-- The server fails twice and then answers.
abbrev line : ℕ → Attempt
line zero = http_error 503
line (suc zero) = broken
line (suc (suc n)) = answered 200

request_tries_example :
    IsTried line 3 0 (request true true (5 ∷ 15 ∷ 30 ∷ []) 3 line)
    × ((request false true (5 ∷ 15 ∷ 30 ∷ []) 3 line).attempts ≡ 0)
request_tries_example = request_tries true (5 ∷ 15 ∷ 30 ∷ []) 3 line

abbrev no_answer : String → ℕ → Posted
no_answer id r = retry

abbrev takes : String → ℕ → Posted
takes id r = recorded
