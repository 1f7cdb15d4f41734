-- ===== src/Supervisor/Cadence.antt =====
-- Whether the loop of src/app/workers.py beats often enough for the supervisor of src/app/supervisor.py.
use wqm.Prelude.{
  ℕ, zero, suc, ◌+◌, ◌-◌, ◌*◌, ◌≤◌, ◌<◌, ◌≡◌, refl, ap, max, Bool, true, false, not, some, arith,
  ltb, get_or,
}
use wqm.Supervisor.{
  Worker, deadline_for, is_fresh, backoff, wait_for, wait_of, run_turn, streak_after,
}

backoff-bound : (errors : ℕ) → errors < 4 → backoff errors ≤ 30000
unfolding backoff
backoff-bound zero h = omega arith
backoff-bound (suc zero) h = omega arith
backoff-bound (suc (suc zero)) h = omega arith
backoff-bound (suc (suc (suc zero))) h = omega arith
backoff-bound (suc (suc (suc (suc n)))) h = absurd (omega arith)

backoff-full : (errors : ℕ) → 4 ≤ errors → backoff errors ≡ 60000
unfolding backoff
backoff-full zero h = absurd (omega arith)
backoff-full (suc zero) h = absurd (omega arith)
backoff-full (suc (suc zero)) h = absurd (omega arith)
backoff-full (suc (suc (suc zero))) h = absurd (omega arith)
backoff-full (suc (suc (suc (suc n)))) h = refl

in_time :
    (d i wait elapsed b ended took now : ℕ)
    → d ≡ i
    → wait ≡ max (i - elapsed) b
    → b ≤ 30000
    → took ≤ 30000
    → now ≤ ended + wait + took
    → not (ltb (max (d * 3) 60000) (now - ended)) ≡ true
in_time d i wait elapsed b ended took now ed ew hb ht h = ground arith

too_late :
    (d i wait elapsed b ended now : ℕ)
    → d ≡ i
    → wait ≡ max (i - elapsed) b
    → b ≡ 60000
    → i ≤ 20000
    → ended + wait < now
    → not (ltb (max (d * 3) 60000) (now - ended)) ≡ false
too_late d i wait elapsed b ended now ed ew hb quick h = ground arith

-- A worker whose streak is below four errors and whose next step takes at most half a minute stays
-- within its deadline from one beat to the next.
pub beats_in_time :
    (started ended took now interval : ℕ) (ok : Bool) (w : Worker)
    → w.interval ≡ some interval
    → (run_turn started ended ok w).worker.consecutive_errors < 4
    → took ≤ 30000
    → now ≤ ended + get_or (run_turn started ended ok w).wait 0 + took
    → is_fresh (some ended) (deadline_for (run_turn started ended ok w).worker) now ≡ true
unfolding deadline_for wait_for
beats_in_time started ended took now interval ok w e few short h =
    let errors = streak_after ok w.consecutive_errors in
    let elapsed = ended - started in
    in_time (get_or w.interval 60000) interval (get_or (wait_of w.interval elapsed errors) 0)
      elapsed (backoff errors) ended took now (ap (λ o. get_or o 60000) e)
      (ap (λ o. get_or (wait_of o elapsed errors) 0) e) (backoff-bound errors few) short h

-- A worker with an interval of twenty seconds or less and a streak of four errors or more waits a whole
-- minute, so it is overdue for as long as its next step takes.
pub backing_off_overdue :
    (started ended now interval : ℕ) (ok : Bool) (w : Worker)
    → w.interval ≡ some interval
    → interval ≤ 20000
    → 4 ≤ (run_turn started ended ok w).worker.consecutive_errors
    → ended + get_or (run_turn started ended ok w).wait 0 < now
    → is_fresh (some ended) (deadline_for (run_turn started ended ok w).worker) now ≡ false
unfolding deadline_for wait_for
backing_off_overdue started ended now interval ok w e quick many h =
    let errors = streak_after ok w.consecutive_errors in
    let elapsed = ended - started in
    too_late (get_or w.interval 60000) interval (get_or (wait_of w.interval elapsed errors) 0)
      elapsed (backoff errors) ended now (ap (λ o. get_or o 60000) e)
      (ap (λ o. get_or (wait_of o elapsed errors) 0) e) (backoff-full errors many) quick h
