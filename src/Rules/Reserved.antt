-- ===== src/Rules/Reserved.antt =====
-- The channels that another engine owns, during an evaluation and under a downlink.
use wqm.Prelude.{
  ℕ, ◌≡◌, ◌<◌, ◌∙◌, refl, Bool, true, false, not, ◌&&◌, ◌||◌, some, List, [], ◌∷◌, arith, ltb, ◌==◌,
  contains, All, All-imp, Bool-cases, inl, inr, Outcome, returned, raised, get_or,
}
use wqm.Prelude.Dict
use wqm.Prelude.Dict.{Dict}
use wqm.Prelude.Int.{ℤ}
use wqm.Prelude.Texts.{String}
use wqm.Relay
use wqm.Relay.{Relays, check_channel}
use wqm.Relay.Others.{Untouched, Untouched-trans, set-Untouched, arm_auto_off-Untouched}
use wqm.Rules.{Moment, Action, Engine, is_in_schedule}
use wqm.Rules.Evaluate.{
  ticks, arm_after, apply_one, apply_all, apply, evaluate, release_first, run_rules,
}
use wqm.Rules.Safety.{Free, Releases, release_first-Releases}
use wqm.Rules.Later.{Later-release_first}
use wqm.Rules.Grants.{Granted, run_pass, start_pass}

pub free-ne :
    (reserved : List ℕ) (c d : ℕ)
    → contains c reserved ≡ false
    → contains d reserved ≡ true
    → (c == d) ≡ false
unfolding contains
free-ne [] c d h k = cc
free-ne (x ∷ xs) c d h k = ground (arith, free-ne xs c d)

module _ (reserved : List ℕ) (d : ℕ) (own : contains d reserved ≡ true)
    (real : check_channel d ≡ true) (now : ℕ) (durations : Dict ℕ) where
  arm_after-Untouched :
      (c : ℕ) (on : Bool) (out : Outcome (Unit {0})) (r : Relays)
      → (c == d) ≡ false
      → r.state < 16
      → Untouched d r (arm_after now (c, on) durations out r)
  arm_after-Untouched c on (raised e) r ne small = record {
    small = small;
    coil = refl;
    timer = refl;
    line = refl;
  }
  arm_after-Untouched c on (returned _) r ne small =
      let seconds = get_or (Dict.get c durations) 0 in
      elim (Bool-cases (on && ltb 0 seconds)) [
        | inl arms ↦ rw arms (arm_auto_off-Untouched d real r now c (ticks seconds) small ne)
        | inr idle ↦ rw idle (record { small = small; coil = refl; timer = refl; line = refl })
      ]

  apply_one-Untouched :
      (a : Action) (r : Relays)
      → Free reserved a
      → r.state < 16
      → Untouched d r (apply_one now durations a r)
  unfolding apply_one
  apply_one-Untouched (c, on) r free small =
      let (out, r') = Relay.set now c on false r in
      let ne = free-ne reserved c d free own in
      let first = set-Untouched d real r now c on false small ne in
      Untouched-trans d real r r' _ first (arm_after-Untouched c on out r' ne first.small)

  apply_all-Untouched :
      (as' : List Action) (r : Relays)
      → All (Free reserved) as'
      → r.state < 16
      → Untouched d r (apply_all now durations as' r)
  unfolding apply_all
  apply_all-Untouched [] r free small = record {
    small = small;
    coil = refl;
    timer = refl;
    line = refl;
  }
  apply_all-Untouched (a ∷ as') r free small =
      let one = apply_one-Untouched a r free.0 small in
      Untouched-trans d real r _ _ one
        (apply_all-Untouched as' (apply_one now durations a r) free.1 one.small)

  apply-Untouched :
      (actions : List Action) (e : Engine) (r : Relays)
      → All (Free reserved) actions
      → e.relay ≡ some r
      → r.state < 16
      → (r' : Relays) × ((apply now durations actions e).1.relay ≡ some r') × Untouched d r r'
  unfolding apply
  apply-Untouched actions e r free held small =
      (apply_all now durations actions r, rw held, apply_all-Untouched actions r free small)

-- An evaluation leaves the coil, the timer and the line of every reserved channel as they were,
-- whatever the rules, the reading, the pending timers and the suspended sensors.
pub evaluate_spares :
    (reserved : List ℕ) (reading : List (String × ℤ)) (t : Moment) (e : Engine) (r : Relays) (d : ℕ)
    → contains d reserved ≡ true
    → check_channel d ≡ true
    → e.relay ≡ some r
    → r.state < 16
    → (r' : Relays) × ((evaluate reserved reading t e).1.relay ≡ some r') × Untouched d r r'
unfolding evaluate
evaluate_spares reserved reading t e r d own real held small =
    let e1 = (release_first reserved t e).1 in
    let first = (release_first reserved t e).0 in
    let later = Later-release_first t reserved e in
    elim (Bool-cases (not (is_in_schedule t e1) || e1.manual_override)) [
      | inl shut ↦ rw shut (
          apply-Untouched reserved d own real t.mono [] first e1 r
            (All-imp (Releases reserved) (Free reserved) first (λ a h. h.1)
              (release_first-Releases reserved t e))
            (later.same_relay ∙ held) small)
      | inr open_ ↦
          let p = run_rules reserved reading t e1.rules (start_pass reserved reading t e) in
          let good = run_pass reserved reading t e in
          rw open_ (
            apply-Untouched reserved d own real t.mono p.durations p.actions p.engine r
              (All-imp (Granted reserved reading t e) (Free reserved) p.actions (λ a h. h.0) good.1)
              (good.0.same_relay ∙ held) small)
    ]
