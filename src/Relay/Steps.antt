-- ===== src/Relay/Steps.antt =====
-- The relay controller in its process: calls from any thread and firing timer threads, interleaved.
-- Every GPIO write succeeds here; `Relay.Faults` is about the ones that raise.
pub mod Request
pub mod Timers
pub mod Dark
pub mod Reach
use wqm.Prelude.{
  ℕ, ◌+◌, ◌≤◌, ◌<◌, ◌≡◌, refl, Bool, true, false, not, ◌&&◌, Option, some, arith, ltb, ◌==◌,
  if◌then◌else◌,
}
use wqm.Prelude.Dict.{get, get-remove}
use wqm.Relay.{
  Timer, Relays, pin_of, check_channel, is_on, set, arm_auto_off, auto_off, all_off, cleanup,
  cancel_timer, note_set,
}
use wqm.Relay.Methods.{is_on-note_set, state-note_set, timers-note_set, timers-arm, timer_after_set}

-- The controller, the clock, and the channels whose last request was unbounded.
pub record World : Type 0 where
  pub relays : Relays
  pub now : ℕ
  pub exempt : ℕ → Bool

abbrev pub mark : ℕ → Bool → (ℕ → Bool) → ℕ → Bool
mark c v f d = if c == d then v else f d

infix 40 ◌⟶◌ ◌⟶*◌
pub data ◌⟶◌ : World → World → Type 0 where
  request :
      (w : World) (c : ℕ) (on unbounded : Bool)
      → w ⟶ record w {
        relays = (set w.now c on unbounded w.relays).1;
        exempt = mark c (on && unbounded) w.exempt;
      }
  bound : (w : World) (c d : ℕ) → w ⟶ record w { relays = (arm_auto_off w.now c d w.relays).1 }
  fire : (w : World) (c id : ℕ) → w ⟶ record w { relays = (auto_off c id w.relays).1 }
  off : (w : World) → w ⟶ record w { relays = (all_off w.relays).1 }
  clean : (w : World) → w ⟶ record w { relays = cleanup w.relays }
  wait : (w : World) (d : ℕ) → w ⟶ record w { now = w.now + d }

pub data ◌⟶*◌ (s : World) : World → Type 0 where
  here : s ⟶* s
  next : {t u : World} → s ⟶* t → t ⟶ u → s ⟶* u

-- The GPIO accepts every write.
abbrev pub Works : Relays → Type 0
Works r = (k : ℕ) → r.io.answers k ≡ true

-- An energised channel that is not exempt has a timer due within the ceiling.
abbrev pub Covered : World → ℕ → Type 0
Covered w c =
    w.exempt c ≡ false
    → is_on c w.relays ≡ true
    → (t : Timer) × (get c w.relays.timers ≡ some t) × (t.due ≤ w.now + w.relays.max_on)

pub record IsValid (w : World) : Type 0 where
  pub works : Works w.relays
  pub small : w.relays.state < 16
  pub ceiling : 0 < w.relays.max_on
  pub level : (c : ℕ) → check_channel c ≡ true → w.relays.io.level (pin_of c) ≡ is_on c w.relays
  pub pending :
      (c : ℕ) (t : Timer)
      → get c w.relays.timers ≡ some t
      → (check_channel c ≡ true) × (is_on c w.relays ≡ true) × (t.id < w.relays.next_id)
  pub covered : (c : ℕ) → check_channel c ≡ true → Covered w c
