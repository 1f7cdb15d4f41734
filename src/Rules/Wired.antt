-- ===== src/Rules/Wired.antt =====
-- What the rules engine leaves of a controller that works.
use wqm.Prelude.{
  ℕ, ◌≡◌, ◌<◌, ◌∙◌, Bool, false, not, ◌&&◌, ◌||◌, some, List, [], ◌∷◌, ltb, ◌==◌, Bool-cases, inl,
  inr, Outcome, returned, raised, get_or,
}
use wqm.Prelude.Dict
use wqm.Prelude.Dict.{Dict}
use wqm.Prelude.Int.{ℤ}
use wqm.Prelude.Texts.{String}
use wqm.Relay
use wqm.Relay.{Relays, check_channel, is_on, arm}
use wqm.Relay.Methods.{
  set-valid, set-invalid, io-note_set, driven, state-note_set, arm_auto_off-arms, arm_auto_off-idle,
}
use wqm.Relay.Steps.{Works}
use wqm.Rules.{Moment, Action, Engine, is_in_schedule}
use wqm.Rules.Evaluate.{
  ticks, arm_after, apply_one, apply_all, apply, evaluate, release_first, run_rules,
}
use wqm.Rules.Later.{Later-release_first}
use wqm.Rules.Grants.{run_pass, start_pass}

-- Every write succeeds, and the mask has four bits.
pub record Steady (r : Relays) : Type 0 where
  pub works : Works r
  pub small : r.state < 16

pub set-Steady :
    (r : Relays) (now c : ℕ) (on unbounded : Bool)
    → Steady r
    → Steady (Relay.set now c on unbounded r).1
set-Steady r now c on unbounded s = elim (Bool-cases (check_channel c)) [
  | inr bad ↦ rw (set-invalid r now c on unbounded bad) s
  | inl valid ↦ rw (set-valid r now c on unbounded valid (s.works r.io.writes)) (record {
    works = λ k. rw (io-note_set (driven c on r) now c on unbounded) (s.works k);
    small = state-note_set (driven c on r) c s.small valid now on unbounded;
  })
]

arm-Steady : (r : Relays) (now c n : ℕ) → Steady r → Steady (arm now c n r)
unfolding arm
arm-Steady r now c n s = record { works = s.works; small = s.small }

pub arm_auto_off-Steady :
    (r : Relays) (now c n : ℕ) → Steady r → Steady (Relay.arm_auto_off now c n r).1
arm_auto_off-Steady r now c n s = elim (Bool-cases (check_channel c && not (n == 0) && is_on c r)) [
  | inl arms ↦
      rw (arm_auto_off-arms r now c n arms)
        (arm-Steady r now c (Relay.bounded_seconds r.max_on n) s)
  | inr idle ↦ rw (arm_auto_off-idle r now c n idle) s
]

module _ (now : ℕ) (durations : Dict ℕ) where
  arm_after-Steady :
      (c : ℕ) (on : Bool) (out : Outcome (Unit {0})) (r : Relays)
      → Steady r
      → Steady (arm_after now (c, on) durations out r)
  arm_after-Steady c on (raised e) r s = s
  arm_after-Steady c on (returned _) r s =
      let seconds = get_or (Dict.get c durations) 0 in
      elim (Bool-cases (on && ltb 0 seconds)) [
        | inl arms ↦ rw arms (arm_auto_off-Steady r now c (ticks seconds) s)
        | inr idle ↦ rw idle s
      ]

  pub apply_one-Steady : (a : Action) (r : Relays) → Steady r → Steady (apply_one now durations a r)
  unfolding apply_one
  apply_one-Steady (c, on) r s = arm_after-Steady c on _ _ (set-Steady r now c on false s)

  pub apply_all-Steady :
      (as' : List Action) (r : Relays) → Steady r → Steady (apply_all now durations as' r)
  unfolding apply_all
  apply_all-Steady [] r s = s
  apply_all-Steady (a ∷ as') r s =
      apply_all-Steady as' (apply_one now durations a r) (apply_one-Steady a r s)

  apply-Steady :
      (actions : List Action) (e : Engine) (r : Relays)
      → e.relay ≡ some r
      → Steady r
      → (r' : Relays) × ((apply now durations actions e).1.relay ≡ some r') × Steady r'
  unfolding apply
  apply-Steady actions e r held s =
      (apply_all now durations actions r, rw held, apply_all-Steady actions r s)

pub evaluate-Steady :
    (reserved : List ℕ) (reading : List (String × ℤ)) (t : Moment) (e : Engine) (r : Relays)
    → e.relay ≡ some r
    → Steady r
    → (r' : Relays) × ((evaluate reserved reading t e).1.relay ≡ some r') × Steady r'
unfolding evaluate
evaluate-Steady reserved reading t e r held s =
    let e1 = (release_first reserved t e).1 in
    let first = (release_first reserved t e).0 in
    let later = Later-release_first t reserved e in
    elim (Bool-cases (not (is_in_schedule t e1) || e1.manual_override)) [
      | inl shut ↦ rw shut (apply-Steady t.mono [] first e1 r (later.same_relay ∙ held) s)
      | inr open_ ↦
          let p = run_rules reserved reading t e1.rules (start_pass reserved reading t e) in
          let good = run_pass reserved reading t e in
          rw open_
            (apply-Steady t.mono p.durations p.actions p.engine r (good.0.same_relay ∙ held) s)
    ]
