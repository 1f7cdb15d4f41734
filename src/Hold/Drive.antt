-- ===== src/Hold/Drive.antt =====
-- What one attempt to switch the coil leaves behind.
use wqm.Prelude.{
  ℕ, ◌≡◌, Bool, true, ◌⊎◌, inl, inr, some, arith, if◌then◌else◌, returned, Bool-cases,
}
use wqm.Relay
use wqm.Relay.{Relays, check_channel}
use wqm.Relay.Methods.{set-valid, set-invalid, io-note_set, driven}
use wqm.Relay.Steps.{Works}
use wqm.Hold.Config.{HoldConfig, armed}
use wqm.Hold.{Hold, drive, drive_channel}

pub armed-check : (c : HoldConfig) → armed c ≡ true → check_channel c.relay ≡ true
unfolding armed
armed-check c h = ground arith

module _ (now : ℕ) (on : Bool) (h : Hold) where
  -- Only the relays and what is known of the coil change.
  pub drive-keeps : drive now on h ≡ record h {
    relays = (drive now on h).relays;
    driven = (drive now on h).driven;
    driven_channel = (drive now on h).driven_channel;
  }
  unfolding drive
  drive-keeps = ground arith

  -- Either the coil was switched, or what is known of it stays.
  pub drive-cases :
      (((drive now on h).driven ≡ on)
        × ((drive now on h).driven_channel ≡ (if on then drive_channel on h else 0))
        × (check_channel (drive_channel on h) ≡ true))
      ⊎ (((drive now on h).driven ≡ h.driven)
          × ((drive now on h).driven_channel ≡ h.driven_channel))
  unfolding drive
  drive-cases = ground arith

pub works-note_set :
    (r : Relays) (now c : ℕ) (on unbounded : Bool)
    → Works r
    → Works (Relay.set now c on unbounded r).1
works-note_set r now c on unbounded w = elim (Bool-cases (check_channel c)) [
  | inl valid ↦
      rw (set-valid r now c on unbounded valid (w r.io.writes))
        (λ k. rw (io-note_set (driven c on r) now c on unbounded) (w k))
  | inr bad ↦ rw (set-invalid r now c on unbounded bad) w
]

pub set-returns :
    (r : Relays) (now c : ℕ) (on unbounded : Bool)
    → check_channel c ≡ true
    → Works r
    → (Relay.set now c on unbounded r).0 ≡ returned tt
set-returns r now c on unbounded valid w = rw (set-valid r now c on unbounded valid (w r.io.writes))

-- The engine has relays whose every write succeeds.
abbrev pub HasRelays : Hold → Type 0
HasRelays h = (r : Relays) × (h.relays ≡ some r) × Works r

module _ (now : ℕ) (on : Bool) (h : Hold) (w : HasRelays h) where
  pub drive-HasRelays : HasRelays (drive now on h)
  unfolding drive
  drive-HasRelays =
      let (r, e, works) = w in
      elim (Bool-cases (check_channel (drive_channel on h))) [
        | inl valid ↦ (
          (Relay.set now (drive_channel on h) on on r).1,
          ground (arith, set-returns r now (drive_channel on h) on on valid works),
          works-note_set r now (drive_channel on h) on on works,
        )
        | inr bad ↦ (r, ground arith, works)
      ]

  pub drive-settles : check_channel (drive_channel on h) ≡ true → (drive now on h).driven ≡ on
  unfolding drive
  drive-settles valid =
      let (r, e, works) = w in
      ground (arith, set-returns r now (drive_channel on h) on on valid works)
