-- ===== src/Hold/Owned.antt =====
-- The coil that the irrigation hold drives, through calls of its own: on, and with no timer.
use mathlib.Core.Path.{subst}
use wqm.Prelude.{
  ℕ, ◌≡◌, ◌<◌, refl, sym, ap, ◌∙◌, Bool, true, false, inl, inr, none, some, arith, if◌then◌else◌,
  Bool-cases, ◌==◌,
}
use wqm.Prelude.Dict.{get}
use wqm.Relay
use wqm.Relay.{Relays, check_channel, is_on, note_set}
use wqm.Relay.Methods.{
  set-valid, driven, is_on-set, state-note_set, timers-note_set, timer_after_set,
}
use wqm.Relay.Steps.{Works}
use wqm.Hold.Config.{armed}
use wqm.Hold.{Hold, drive, drive_with, note_drive, drive_channel}
use wqm.Hold.Drive.{works-note_set, set-returns, armed-check}

-- The channel is on, and nothing will drop it.
pub record Stands (c : ℕ) (r : Relays) : Type 0 where
  pub lit : is_on c r ≡ true
  pub untimed : get c r.timers ≡ none

-- The controller works, and the coil that the hold drives is its own channel's and stands.
pub record Owned (h : Hold) : Type 0 where
  pub wired : Relays
  pub attached : h.relays ≡ some wired
  pub works : Works wired
  pub small : wired.state < 16
  pub mine : h.driven ≡ true → (armed h.cfg ≡ true) × (h.driven_channel ≡ h.cfg.relay)
  pub stands : h.driven ≡ true → Stands h.driven_channel wired

kept_off :
    (c now : ℕ) (r : Relays)
    → (if c == c then timer_after_set now true true r else get c r.timers) ≡ none
kept_off c now r = ground arith

set-Stands :
    (r : Relays) (now c : ℕ)
    → check_channel c ≡ true
    → Works r
    → r.state < 16
    → Stands c (Relay.set now c true true r).1
set-Stands r now c valid w small = record {
  lit = is_on-set r now c true true valid small (w r.io.writes);
  untimed =
      rw (set-valid r now c true true valid (w r.io.writes))
        (timers-note_set (driven c true r) now c true true c ∙ kept_off c now (driven c true r));
}

set-small :
    (r : Relays) (now c : ℕ) (on unbounded : Bool)
    → check_channel c ≡ true
    → Works r
    → r.state < 16
    → (Relay.set now c on unbounded r).1.state < 16
set-small r now c on unbounded valid w small =
    rw (set-valid r now c on unbounded valid (w r.io.writes))
      (state-note_set (driven c on r) c small valid now on unbounded)

module _ (now : ℕ) (on : Bool) (h : Hold) (r : Relays) (attached : h.relays ≡ some r) where
  drive-idle : check_channel (drive_channel on h) ≡ false → drive now on h ≡ h
  unfolding drive
  drive-idle bad = ap (drive_with now on h) attached ∙ rw bad refl

  drive-works :
      check_channel (drive_channel on h) ≡ true
      → Works r
      → drive now on h ≡ record h {
        relays = some (Relay.set now (drive_channel on h) on on r).1;
        driven = on;
        driven_channel = if on then drive_channel on h else 0;
      }
  unfolding drive
  drive-works valid w =
      ap (drive_with now on h) attached
      ∙ rw valid (
          ap
            (λ out.
              note_drive on (drive_channel on h) out
                (record h { relays = some (Relay.set now (drive_channel on h) on on r).1 }))
            (set-returns r now (drive_channel on h) on on valid w))

false-true : false ≡ true → ⊥
false-true h = cc

pub drive_on-Owned : (now : ℕ) (h : Hold) → armed h.cfg ≡ true → Owned h → Owned (drive now true h)
drive_on-Owned now h a o =
    let valid = armed-check h.cfg a in
    subst Owned (sym (drive-works now true h o.wired o.attached valid o.works)) (record {
      wired = (Relay.set now h.cfg.relay true true o.wired).1;
      attached = refl;
      works = works-note_set o.wired now h.cfg.relay true true o.works;
      small = set-small o.wired now h.cfg.relay true true valid o.works o.small;
      mine = λ _. (a, refl);
      stands = λ _. set-Stands o.wired now h.cfg.relay valid o.works o.small;
    })

-- A coil that is dropped is owned by no one.
pub dropped-Owned :
    (now : ℕ) (h : Hold) (r : Relays)
    → h.relays ≡ some r
    → Works r
    → r.state < 16
    → check_channel (drive_channel false h) ≡ true
    → Owned (drive now false h)
dropped-Owned now h r attached works small valid =
    let c = drive_channel false h in
    subst Owned (sym (drive-works now false h r attached valid works)) (record {
      wired = (Relay.set now c false false r).1;
      attached = refl;
      works = works-note_set r now c false false works;
      small = set-small r now c false false valid works small;
      mine = λ e. absurd (false-true e);
      stands = λ e. absurd (false-true e);
    })

pub drive_off-Owned : (now : ℕ) (h : Hold) → Owned h → Owned (drive now false h)
drive_off-Owned now h o = elim (Bool-cases (check_channel (drive_channel false h))) [
  | inr bad ↦ subst Owned (sym (drive-idle now false h o.wired o.attached bad)) o
  | inl valid ↦ dropped-Owned now h o.wired o.attached o.works o.small valid
]
