-- ===== src/Rules/Coils.antt =====
-- What an evaluation of src/control/rules.py leaves of the coils of the relays that it releases.
use mathlib.Core.List.{Memᴰ}
use wqm.Prelude.{
  ℕ, ◌≡◌, ◌⊎◌, ◌∙◌, refl, ap, Bool, true, false, not, ◌&&◌, ◌||◌, some, List, [], ◌∷◌, ltb, ◌==◌,
  Bool-cases, inl, inr, Outcome, returned, raised, get_or, ==_iff, contains,
}
use wqm.Prelude.Dict
use wqm.Prelude.Dict.{Dict}
use wqm.Prelude.Int.{ℤ}
use wqm.Prelude.Texts.{String, has_name}
use wqm.Relay
use wqm.Relay.{Relays, check_channel, is_on}
use wqm.Relay.Methods.{is_on-set}
use wqm.Relay.Others.{set-Untouched, arm_auto_off-Untouched}
use wqm.Rules.{Moment, Action, Engine, is_in_schedule, columns_of, set_suspended_sensors}
use wqm.Rules.Rule.{Rule}
use wqm.Rules.Evaluate.{
  ticks, arm_after, apply_one, apply_all, apply, evaluate, release_first, run_rules,
}
use wqm.Rules.Later.{Later-release_first}
use wqm.Rules.Grants.{run_pass, start_pass}
use wqm.Rules.Release.{suspension_acts}
use wqm.Rules.Wired.{Steady, set-Steady, apply_one-Steady}

module _ (c : ℕ) (real : check_channel c ≡ true) (now : ℕ) (durations : Dict ℕ) where
  after_off :
      (k : ℕ) (out : Outcome (Unit {0})) (r : Relays) → arm_after now (k, false) durations out r ≡ r
  after_off k (raised e) r = refl
  after_off k (returned _) r = refl

  apply_off : (r : Relays) → Steady r → is_on c (apply_one now durations (c, false) r) ≡ false
  unfolding apply_one
  apply_off r s =
      ap (is_on c) (after_off c _ (Relay.set now c false false r).1)
      ∙ is_on-set r now c false false real s.small (s.works r.io.writes)

  after_other :
      (k : ℕ) (on : Bool) (out : Outcome (Unit {0})) (r : Relays)
      → (k == c) ≡ false
      → Steady r
      → is_on c (arm_after now (k, on) durations out r) ≡ is_on c r
  after_other k on (raised e) r ne s = refl
  after_other k on (returned _) r ne s =
      let seconds = get_or (Dict.get k durations) 0 in
      elim (Bool-cases (on && ltb 0 seconds)) [
        | inl arms ↦ rw arms (arm_auto_off-Untouched c real r now k (ticks seconds) s.small ne).coil
        | inr idle ↦ rw idle refl
      ]

  apply_other :
      (k : ℕ) (on : Bool) (r : Relays)
      → (k == c) ≡ false
      → Steady r
      → is_on c (apply_one now durations (k, on) r) ≡ is_on c r
  unfolding apply_one
  apply_other k on r ne s =
      after_other k on _ _ ne (set-Steady r now k on false s)
      ∙ (set-Untouched c real r now k on false s.small ne).coil

  -- A coil that is off stays off, unless an action switches it on.
  stays_off :
      (a : Action) (r : Relays)
      → Steady r
      → is_on c r ≡ false
      → (is_on c (apply_one now durations a r) ≡ false) ⊎ ((c, true) ≡ a)
  stays_off (k, on) r s off = elim (Bool-cases (k == c)) [
    | inr ne ↦ inl (apply_other k on r ne s ∙ off)
    | inl same ↦
        let e : k ≡ c = (==_iff k c).0 same in
        elim (Bool-cases on) [
          | inl lit ↦ inr (rw (e, lit) refl)
          | inr dark ↦ inl (rw (e, dark) (apply_off r s))
        ]
  ]

  stay_off :
      (as' : List Action) (r : Relays)
      → Steady r
      → is_on c r ≡ false
      → (is_on c (apply_all now durations as' r) ≡ false) ⊎ Memᴰ (c, true) as'
  unfolding apply_all
  stay_off [] r s off = inl off
  stay_off (a ∷ as') r s off = elim (stays_off a r s off) [
    | inr e ↦ inr (Memᴰ.head e)
    | inl e ↦
        elim (stay_off as' (apply_one now durations a r) (apply_one-Steady now durations a r s) e) [
          | inl h ↦ inl h
          | inr m ↦ inr (Memᴰ.tail m)
        ]
  ]

  -- Once an action switches a coil off, it is off at the end, unless a later one switches it on.
  ends_off :
      (as' : List Action) (r : Relays)
      → Steady r
      → Memᴰ (c, false) as'
      → (is_on c (apply_all now durations as' r) ≡ false) ⊎ Memᴰ (c, true) as'
  unfolding apply_all
  ends_off [] r s m = elim m [ ]
  ends_off (a ∷ as') r s (Memᴰ.head e) =
      let off : is_on c (apply_one now durations a r) ≡ false = rw (← e) (apply_off r s) in
      elim (stay_off as' (apply_one now durations a r) (apply_one-Steady now durations a r s) off) [
        | inl h ↦ inl h
        | inr m ↦ inr (Memᴰ.tail m)
      ]
  ends_off (a ∷ as') r s (Memᴰ.tail m) =
      elim (ends_off as' (apply_one now durations a r) (apply_one-Steady now durations a r s) m) [
        | inl h ↦ inl h
        | inr n ↦ inr (Memᴰ.tail n)
      ]

evaluate-applies :
    (reserved : List ℕ) (reading : List (String × ℤ)) (t : Moment) (e : Engine) (r : Relays)
    → e.relay ≡ some r
    → (durations : Dict ℕ) × ((evaluate reserved reading t e).1.relay
        ≡ some (apply_all t.mono durations (evaluate reserved reading t e).0 r))
unfolding evaluate apply
evaluate-applies reserved reading t e r held =
    let e1 = (release_first reserved t e).1 in
    let later = Later-release_first t reserved e in
    elim (Bool-cases (not (is_in_schedule t e1) || e1.manual_override)) [
      | inl shut ↦ ([], rw (shut, later.same_relay ∙ held) refl)
      | inr open_ ↦
          let p = run_rules reserved reading t e1.rules (start_pass reserved reading t e) in
          let good = run_pass reserved reading t e in
          (p.durations, rw (open_, good.0.same_relay ∙ held) refl)
    ]

-- When a sensor is newly suspended, on a controller whose every write succeeds, the next evaluation
-- switches off the relay of every rule that the sensor drives, unless the relay is reserved, also outside
-- the schedule and under manual override: its coil is off at the end, unless the evaluation itself has
-- another rule that switches it on.
pub suspension_releases :
    (reserved : List ℕ) (reading : List (String × ℤ)) (t : Moment) (e : Engine)
    (sensors : List String) (rule : Rule) (r : Relays)
    → Memᴰ rule e.rules
    → has_name rule.sensor (columns_of sensors) ≡ true
    → has_name rule.sensor e.suspended ≡ false
    → contains rule.relay reserved ≡ false
    → check_channel rule.relay ≡ true
    → e.relay ≡ some r
    → Steady r
    → let out = evaluate reserved reading t (set_suspended_sensors sensors e) in
      Memᴰ (rule.relay, false) out.0
      × ((r' : Relays) × (out.1.relay ≡ some r')
          × ((is_on rule.relay r' ≡ false) ⊎ Memᴰ (rule.relay, true) out.0))
suspension_releases reserved reading t e sensors rule r m now before free real held s =
    let acts = suspension_acts reserved reading t e sensors rule m now before free in
    let e' = set_suspended_sensors sensors e in
    let held' : e'.relay ≡ some r = unfold set_suspended_sensors in held in
    let (durations, applied) = evaluate-applies reserved reading t e' r held' in
    (
      acts,
      (
        apply_all t.mono durations (evaluate reserved reading t e').0 r,
        applied,
        ends_off rule.relay real t.mono durations (evaluate reserved reading t e').0 r s acts,
      ),
    )
