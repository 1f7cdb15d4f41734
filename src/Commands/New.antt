-- ===== src/Commands/New.antt =====
-- What `apply` of src/cloud/device_commands.py does with a command that is not in its records.
use mathlib.Core.Path.{subst}
use wqm.Prelude.{
  ℕ, ◌≤◌, ◌≡◌, refl, sym, Bool, true, false, Option, none, some, arith, leb, if◌then◌else◌,
}
use wqm.Prelude.Texts.{String}
use wqm.Commands.{CommandOutcome, Hardware}
use wqm.Commands.Dispatch.{
  Dispatcher, Readings, Command, Expiry, at, no_expiry, bad_expiry, Kind, ph_kind, rs485_kind,
  other_kind, Payload, Applied, store, carry_out, with_payload, with_expiry, with_kind, with_fields,
}

-- Whatever holds of each outcome that `store` keeps holds of what a new command leaves.
module _ {World Sensors : Type 0} (hardware : Hardware World Sensors)
    (P : CommandOutcome Sensors → Dispatcher World Sensors → Type 0) (t : Readings) (id : String)
    (until : ℕ) (d : Dispatcher World Sensors)
    (step : (out : CommandOutcome Sensors) (d' : Dispatcher World Sensors)
      → d'.handled ≡ d.handled
      → P out (store hardware t true id until out d')) where
  if-Applied :
      (b : Bool) (a a' : Applied World Sensors)
      → P a.outcome a.after
      → P a'.outcome a'.after
      → P (if b then a else a').outcome (if b then a else a').after
  if-Applied true a a' h k = h
  if-Applied false a a' h k = k

  payload-step :
      (is_ph : Bool) (p : Option Payload)
      → P
          (with_payload hardware t true id until is_ph p d).outcome
          (with_payload hardware t true id until is_ph p d).after
  unfolding with_payload carry_out
  payload-step is_ph none = step _ d refl
  payload-step is_ph (some p) = step _ _ refl

  expiry-step :
      (is_ph : Bool) (c : Command) (e : Expiry)
      → P
          (with_expiry hardware t true id until is_ph c e d).outcome
          (with_expiry hardware t true id until is_ph c e d).after
  unfolding with_expiry
  expiry-step is_ph c no_expiry = step _ d refl
  expiry-step is_ph c bad_expiry = step _ d refl
  expiry-step is_ph c (at ms) =
      if-Applied (leb ms t.checks) _ _ (step _ d refl) (payload-step is_ph c.payload)

  kind-step :
      (k : Option Kind) (c : Command)
      → P
          (with_kind hardware t true id until k c d).outcome
          (with_kind hardware t true id until k c d).after
  unfolding with_kind
  kind-step none c = step _ d refl
  kind-step (some other_kind) c = step _ d refl
  kind-step (some ph_kind) c = expiry-step true c c.expires
  kind-step (some rs485_kind) c = expiry-step false c c.expires

  pub fields-step :
      (f : Option String) (c : Command)
      → P
          (with_fields hardware t true id until f c d).outcome
          (with_fields hardware t true id until f c d).after
  unfolding with_fields
  fields-step (some field) c = step _ d refl
  fields-step none c = kind-step c.kind c

-- A command that has expired is not carried out.
module _ {World Sensors : Type 0} (hardware : Hardware World Sensors) (t : Readings) (saved : Bool)
    (id : String) (until limit : ℕ) (c : Command) (d : Dispatcher World Sensors)
    (late : limit ≤ t.checks) where
  expired-idle :
      (is_ph : Bool) (e : Expiry)
      → e ≡ at limit
      → (with_expiry hardware t saved id until is_ph c e d).carried_out ≡ false
  unfolding with_expiry
  expired-idle is_ph e same =
      subst (λ e. (with_expiry hardware t saved id until is_ph c e d).carried_out ≡ false)
        (sym same) idle
    where
      over : leb limit t.checks ≡ true
      over = ground arith

      idle : (with_expiry hardware t saved id until is_ph c (at limit) d).carried_out ≡ false
      idle = rw over refl

  kind-idle :
      (k : Option Kind)
      → c.expires ≡ at limit
      → (with_kind hardware t saved id until k c d).carried_out ≡ false
  unfolding with_kind
  kind-idle none same = refl
  kind-idle (some other_kind) same = refl
  kind-idle (some ph_kind) same = expired-idle true c.expires same
  kind-idle (some rs485_kind) same = expired-idle false c.expires same

  pub fields-idle :
      (f : Option String)
      → c.expires ≡ at limit
      → (with_fields hardware t saved id until f c d).carried_out ≡ false
  unfolding with_fields
  fields-idle (some field) same = refl
  fields-idle none same = kind-idle c.kind same
