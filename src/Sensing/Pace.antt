-- ===== src/Sensing/Pace.antt =====
-- When src/sensing/adaptive.py samples fast.
use mathlib.Core.Path.{subst}
use wqm.Prelude.{
  ℕ, ◌+◌, ◌<◌, ◌≡◌, ◌⊎◌, inl, inr, refl, sym, ap, ◌∙◌, true, false, not, ◌||◌, Option, none, some,
  List, [], ◌∷◌, String, arith, get_or, Bool-cases,
}
use wqm.Prelude.Int.{ℤ}
use wqm.Prelude.Texts.{find}
use wqm.Sensing.Cause.{
  Call, observed, paced, shown, serve, serve_all, status-decays, Seen, Cause, Known, all-Known,
}
use wqm.Sensing.Adaptive.{
  Settings, Sampler, init, normal, held_long_enough, decay_from, maybe_decay, is_fast, trigger,
  take_value, observe_fields, observe, is_normal, current_interval_s, sensor_ranges,
}

Both : Option ℕ → Option ℕ → Type 0
Both none none = Unit
Both (some t) (some u) = Unit
Both _ _ = ⊥

-- Fast mode and its last trigger come and go together.
Triggered : Sampler → Type 0
Triggered a = Both a.fast_since a.last_trigger

normal-Triggered : (a : Sampler) → Triggered (normal a)
unfolding Triggered Both
normal-Triggered a = tt

decay_from-Triggered :
    (o : Option ℕ) (cfg : Settings) (now : ℕ) (a : Sampler)
    → Triggered a
    → Triggered (decay_from o cfg now a)
unfolding decay_from
decay_from-Triggered none cfg now a h = h
decay_from-Triggered (some since) cfg now a h =
    elim (Bool-cases (not cfg.enabled || held_long_enough cfg now a.last_trigger)) [
      | inl e ↦ rw e (normal-Triggered a)
      | inr e ↦ rw e h
    ]

maybe_decay-Triggered :
    (cfg : Settings) (now : ℕ) (a : Sampler) → Triggered a → Triggered (maybe_decay cfg now a)
unfolding maybe_decay
maybe_decay-Triggered cfg now a h = decay_from-Triggered a.fast_since cfg now a h

take_value-Triggered :
    (cfg : Settings) (now : ℕ) (field : String) (range : ℕ) (value : Option ℤ) (a : Sampler)
    → Triggered a
    → Triggered (take_value cfg now field range value a)
unfolding take_value trigger Triggered Both
take_value-Triggered cfg now field range none a h = h
take_value-Triggered cfg now field range (some v) a h =
    elim (Bool-cases (is_fast cfg range now v (find field a.last))) [
      | inl e ↦ rw e tt
      | inr e ↦ rw e h
    ]

observe_fields-Triggered :
    (cfg : Settings) (now : ℕ) (reading : List (String × Option ℤ)) (fields : List (String × ℕ))
    → (a : Sampler) → Triggered a
    → Triggered (observe_fields cfg now reading fields a)
unfolding observe_fields
observe_fields-Triggered cfg now reading [] a h = h
observe_fields-Triggered cfg now reading ((field, range) ∷ fields) a h =
    observe_fields-Triggered cfg now reading fields
      (take_value cfg now field range (get_or (find field reading) none) a)
      (take_value-Triggered cfg now field range (get_or (find field reading) none) a h)

serve-Triggered : (call : Call) (a : Sampler) → Triggered a → Triggered (serve call a)
unfolding serve observe current_interval_s
serve-Triggered (observed cfg now reading) a h =
    maybe_decay-Triggered cfg now (observe_fields cfg now reading sensor_ranges a)
      (observe_fields-Triggered cfg now reading sensor_ranges a h)
serve-Triggered (paced cfg now) a h = maybe_decay-Triggered cfg now a h
serve-Triggered (shown cfg now) a h =
    subst Triggered (sym (status-decays cfg now a)) (maybe_decay-Triggered cfg now a h)

serve_all-Triggered :
    (calls : List Call) (a : Sampler) → Triggered a → Triggered (serve_all calls a)
unfolding serve_all
serve_all-Triggered [] a h = h
serve_all-Triggered (call ∷ calls) a h =
    serve_all-Triggered calls (serve call a) (serve-Triggered call a h)

init-Triggered : Triggered init
unfolding Triggered Both
init-Triggered = tt

-- Why the pace is fast: sampling by change is on, and two of the values that were observed changed fast
-- within the hold.
pub record IsHeld (calls : List Call) (cfg : Settings) (now : ℕ) (a : Sampler) : Type 0 where
  pub enabled : cfg.enabled ≡ true
  pub at : ℕ
  pub triggered : a.last_trigger ≡ some at
  pub within : now < at + cfg.hold
  pub cause : Cause (Seen calls) at

held_by :
    (cfg : Settings) (now since : ℕ) (o : Option ℕ)
    → Both (some since) o
    → held_long_enough cfg now o ≡ false
    → ((t : ℕ) × (o ≡ some t) × (now < t + cfg.hold))
unfolding Both
held_by cfg now since none h e = absurd h
held_by cfg now since (some t) h e = (t, refl, ground (arith, e))

decay_from-IsHeld :
    (calls : List Call) (o : Option ℕ) (cfg : Settings) (now : ℕ) (a : Sampler)
    → o ≡ a.fast_since
    → Triggered a
    → Known (Seen calls) a
    → (is_normal (decay_from o cfg now a).fast_since ≡ false)
    → IsHeld calls cfg now (decay_from o cfg now a)
unfolding decay_from Triggered
decay_from-IsHeld calls none cfg now a same h k fast =
    absurd (let over : true ≡ false = ap is_normal same ∙ fast in cc)
decay_from-IsHeld calls (some since) cfg now a same h k fast =
    elim (Bool-cases (not cfg.enabled || held_long_enough cfg now a.last_trigger)) [
      | inl e ↦ absurd (let over : true ≡ false = rw e at fast in cc)
      | inr e ↦
          let both = subst (λ o. Both o a.last_trigger) (sym same) h in
          let (t, triggered, within) =
            held_by cfg now since a.last_trigger both (ground (arith, e)) in
          rw e (record {
            enabled = ground (arith, e);
            at = t;
            triggered = triggered;
            within = within;
            cause = k.cause t triggered;
          })
    ]

-- After any calls from the start: the interval is the fast one only where sampling by change is on and
-- less than the hold before, at an observation with it on, the value of a sensor had changed by the
-- threshold or more, in its range's percent a minute, since a value that was observed before; and where
-- it is not the fast one it is the normal one.
pub fast_only_when-IsHeld :
    (calls : List Call) (cfg : Settings) (now : ℕ)
    → let out = current_interval_s cfg now (serve_all calls init) in
      ((out.0 ≡ cfg.sensor_read_fast_s) × IsHeld calls cfg now out.1) ⊎ (out.0 ≡ cfg.sensor_read_s)
unfolding current_interval_s maybe_decay
fast_only_when-IsHeld calls cfg now =
    let a = serve_all calls init in
    let b = decay_from a.fast_since cfg now a in
    elim (Bool-cases (not cfg.enabled || is_normal b.fast_since)) [
      | inl e ↦ inr (rw e refl)
      | inr e ↦ inl (
        rw e refl,
        decay_from-IsHeld calls a.fast_since cfg now a refl
            (serve_all-Triggered calls init init-Triggered) (all-Known calls) (ground (arith, e)),
      )
    ]
