-- ===== src/Ota/Reboot.antt =====
-- `_claim_reboot_request`, `poll_reboot_request` and `watch_reboot_requests` of src/ota/agent.py. The
-- flag is known by the time at which it was written; times are in seconds.
use wqm.Prelude.{
  ℕ, suc, ◌+◌, ◌≤◌, Bool, true, false, not, ◌||◌, Option, none, some, List, [], ◌∷◌, arith, leb,
  ltb, if◌then◌else◌, Bool-cases, inl, inr,
}

abbrev pub reboot_request_max_age : ℕ
reboot_request_max_age = 300

-- What a poll meets: the wall clock, whether the flag can be removed, and whether the command raises.
pub record Look : Type 0 where
  pub now : ℕ
  pub unlinks : Bool
  pub orders : Bool

-- The flag that is left, and whether the request is claimed. A flag from the future has no age.
unfoldable pub claim_reboot_request : Look → Option ℕ → Bool × Option ℕ
claim_reboot_request look none = (false, none)
claim_reboot_request look (some mtime) =
    if not look.unlinks
    then (false, some mtime)
    else if ltb (mtime + reboot_request_max_age) look.now
    then (false, none)
    else (true, none)

-- What happens to a unit: someone writes the flag, or the agent polls it.
pub data Turn : Type 0 where
  requested : ℕ → Turn
  looked : Look → Turn

-- `asked` are the requests and `ordered` the calls of `systemctl reboot`.
pub record Tally : Type 0 where
  pub flag : Option ℕ
  pub asked : ℕ
  pub ordered : ℕ

-- `poll_reboot_request`: whether a reboot was ordered, the call counted if it is made at all.
unfoldable pub poll_reboot_request : Look → Tally → Bool × Tally
poll_reboot_request look t =
    let claim = claim_reboot_request look t.flag in
    if claim.0
    then (look.orders, record t { flag = claim.1; ordered = suc t.ordered })
    else (false, record t { flag = claim.1 })

-- `watch_reboot_requests`: the polls until the deadline, each with whether the stop event is set and
-- the monotonic clock before it; none where these looks do not last until then.
unfoldable pub watch : ℕ → List (Bool × ℕ × Look) → Tally → Option (Bool × Tally)
watch deadline [] t = none
watch deadline ((stop, clock, look) ∷ looks) t =
    let polled = poll_reboot_request look t in
    let rest = watch deadline looks polled.1 in
    if stop || leb deadline clock
    then some (false, t)
    else if polled.0
    then some (true, polled.1)
    else rest

unfoldable pub take_turn : Turn → Tally → Tally
take_turn (requested now) t = record t { flag = some now; asked = suc t.asked }
take_turn (looked look) t = (poll_reboot_request look t).1

unfoldable pub take_turns : List Turn → Tally → Tally
take_turns [] t = t
take_turns (turn ∷ turns) t = take_turns turns (take_turn turn t)

pending : Option ℕ → ℕ
pending none = 0
pending (some mtime) = 1

-- A flag that waits has not been answered.
Answered : Tally → Type 0
Answered t = pending t.flag + t.ordered ≤ t.asked

claimed :
    (look : Look) (flag : Option ℕ) (ordered asked : ℕ)
    → pending flag + ordered ≤ asked
    → let t =
        (poll_reboot_request look (record { flag = flag; asked = asked; ordered = ordered })).1 in
      pending t.flag + t.ordered ≤ t.asked
unfolding pending poll_reboot_request claim_reboot_request
claimed look none ordered asked h = h
claimed look (some mtime) ordered asked h = elim (Bool-cases look.unlinks) [
  | inr e ↦ rw e h
  | inl e ↦ elim (Bool-cases (ltb (mtime + reboot_request_max_age) look.now)) [
    | inl stale ↦ rw (e, stale) (omega (arith, h))
    | inr fresh ↦ rw (e, fresh) (omega (arith, h))
  ]
]

ordered-asked : (flag : Option ℕ) (n m : ℕ) → pending flag + n ≤ m → n ≤ m
ordered-asked flag n m h = omega (arith, h)

take_turn-Answered : (turn : Turn) (t : Tally) → Answered t → Answered (take_turn turn t)
unfolding Answered take_turn pending
take_turn-Answered (requested now) t h = omega (arith, ordered-asked t.flag t.ordered t.asked h)
take_turn-Answered (looked look) t h = claimed look t.flag t.ordered t.asked h

take_turns-Answered : (turns : List Turn) (t : Tally) → Answered t → Answered (take_turns turns t)
unfolding take_turns
take_turns-Answered [] t h = h
take_turns-Answered (turn ∷ turns) t h =
    take_turns-Answered turns (take_turn turn t) (take_turn-Answered turn t h)

-- The host is not ordered to reboot more often than it was asked to, however often the agent polls,
-- whether or not a reboot that was ordered comes: a flag is gone before the command is given.
pub reboots_at_most_requests :
    (turns : List Turn)
    → let t = take_turns turns (record { flag = none; asked = 0; ordered = 0 }) in
      t.ordered ≤ t.asked
unfolding Answered pending
reboots_at_most_requests turns =
    let t = take_turns turns (record { flag = none; asked = 0; ordered = 0 }) in
    ordered-asked t.flag t.ordered t.asked
      (take_turns-Answered turns (record { flag = none; asked = 0; ordered = 0 }) (omega arith))
