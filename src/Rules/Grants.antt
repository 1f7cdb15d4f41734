-- ===== src/Rules/Grants.antt =====
-- Why `evaluate` switches a relay on.
use wqm.Prelude.{
  ℕ, ◌+◌, ◌≡◌, refl, true, false, not, ◌||◌, List, [], ◌∷◌, ◌++◌, arith, ltb, contains, All,
  All-append, All-imp, Bool-cases, inl, inr, ◌⊎◌,
}
use mathlib.Core.List.{Memᴰ}
use wqm.Prelude.Dict
use wqm.Prelude.Int.{ℤ}
use wqm.Prelude.Texts.{String, has_name}
use wqm.Rules.{
  Moment, Action, Engine, is_in_cooldown, is_in_schedule, check_on_time_budget, accumulate_all,
}
use wqm.Rules.Rule.{Rule, fires}
use wqm.Rules.Evaluate.{
  Pass, ticks, track_on, switch_on, switch_off, run_rule, run_rules, release_first, evaluate, apply,
}
use wqm.Rules.Later.{
  Later, Later-trans, Later-same, Later-note_off, Later-release_first, Later-accumulate_all,
  Later-budget, Later-track_on,
}
use wqm.Rules.Safety.{Free, Releases, release_first-Releases}

-- A rule of the engine asks for this switch-on now.
abbrev pub AsksFor : List (String × ℤ) → Moment → Engine → ℕ → Rule → Type 0
AsksFor reading t e c r =
    (r.relay ≡ c)
    × (r.action_on ≡ true)
    × (has_name r.sensor e.suspended ≡ false)
    × (fires e.baselines t.utc_hour reading r ≡ true)

-- An action of `evaluate`: its channel is free, and if it switches on, a rule of the engine asks for
-- it and no cooldown runs on its channel.
abbrev pub Granted : List ℕ → List (String × ℤ) → Moment → Engine → Action → Type 0
Granted reserved reading t e a =
    Free reserved a
    × (a.1 ≡ true
        → (is_in_cooldown t a.0 e ≡ false)
          × ((r : Rule) × Memᴰ r e.rules × AsksFor reading t e a.0 r))

-- One turn of the loop leaves the pass, switches on, or switches off.
pub run_rule-cases :
    (P : Pass → Type 0) (reserved : List ℕ) (reading : List (String × ℤ)) (t : Moment) (r : Rule)
    (p : Pass)
    → P p
    → P (switch_on t r p)
    → P (switch_off t r p)
    → P (run_rule reserved reading t r p)
unfolding run_rule
run_rule-cases P reserved reading t r p h on off = elim (Bool-cases (contains r.relay reserved)) [
  | inl own ↦ rw own h
  | inr free ↦ elim (Bool-cases (has_name r.sensor p.engine.suspended)) [
    | inl out ↦ rw (free, out) h
    | inr heard ↦ elim (Bool-cases (fires p.engine.baselines t.utc_hour reading r)) [
      | inr quiet ↦ rw (free, heard, quiet) h
      | inl fired ↦ elim (Bool-cases r.action_on) [
        | inr off' ↦ rw (free, heard, fired) (simp off' off)
        | inl on' ↦ rw (free, heard, fired) (simp on' on)
      ]
    ]
  ]
]

schedule-Later :
    (t : Moment) (e e' : Engine) → Later t e e' → is_in_schedule t e' ≡ is_in_schedule t e
unfolding is_in_schedule
schedule-Later t e e' h = ground arith

guarded :
    (reserved : List ℕ) (t : Moment) (e : Engine)
    → (is_in_schedule t e ≡ false) ⊎ (e.manual_override ≡ true)
    → let e1 = (release_first reserved t e).1 in
      (not (is_in_schedule t e1) || e1.manual_override) ≡ true
guarded reserved t e guard =
    let later = Later-release_first t reserved e in
    ground (arith, schedule-Later t e (release_first reserved t e).1 later, later.same_override)

module _ (reserved : List ℕ) (reading : List (String × ℤ)) (t : Moment) (e : Engine) where
  abbrev pub Good : Pass → Type 0
  Good p = Later t e p.engine × All (Granted reserved reading t e) p.actions

  push-Granted :
      (p : Pass) (a : Action)
      → All (Granted reserved reading t e) p.actions
      → Granted reserved reading t e a
      → All (Granted reserved reading t e) (p.actions ++ a ∷ [])
  push-Granted p a h g = All-append (Granted reserved reading t e) p.actions (a ∷ []) h (g, tt)

  switch_on-Good :
      (r : Rule) (p : Pass)
      → Memᴰ r e.rules
      → contains r.relay reserved ≡ false
      → AsksFor reading t e r.relay r
      → Good p
      → Good (switch_on t r p)
  unfolding switch_on
  switch_on-Good r p m free asks g =
      let e1 = (check_on_time_budget t r.relay p.engine).1 in
      let e2 = track_on t.mono r.relay e1 in
      let later1 = Later-trans t e p.engine e1 g.0 (Later-budget t r.relay p.engine) in
      let later2 = Later-trans t e e1 e2 later1 (Later-track_on t r.relay e1) in
      elim (Bool-cases (is_in_cooldown t r.relay p.engine)) [
        | inl cooling ↦ rw cooling g
        | inr ready ↦
            let cold : is_in_cooldown t r.relay e ≡ false = ground (arith, g.0.cools r.relay) in
            let pushed = push-Granted p (r.relay, true) g.1 (free, λ _. (cold, (r, m, asks))) in
            elim (Bool-cases (check_on_time_budget t r.relay p.engine).0) [
              | inr spent ↦ rw (ready, spent) (later1, g.1)
              | inl budget ↦ elim (Bool-cases (ltb 0 r.duration_s)) [
                | inr forever ↦ rw (ready, budget, forever) (later2, pushed)
                | inl bounded ↦
                    rw (ready, budget, bounded)
                      (
                        Later-trans t e e2 _ later2 (
                            Later-same t e2
                              (Dict.put r.relay (t.mono + ticks r.duration_s) e2.timers) e2.on_time
                              e2.on_since e2.pending_failsafe),
                        pushed,
                      )
              ]
            ]
      ]

  switch_off-Good :
      (r : Rule) (p : Pass) → contains r.relay reserved ≡ false → Good p → Good (switch_off t r p)
  unfolding switch_off
  switch_off-Good r p free g = (
    Later-trans t e p.engine _ g.0 (Later-note_off t r.relay p.engine),
    push-Granted p (r.relay, false) g.1 (free, λ h. cc),
  )

  run_rule-Good :
      (r : Rule) (p : Pass) → Memᴰ r e.rules → Good p → Good (run_rule reserved reading t r p)
  unfolding run_rule
  run_rule-Good r p m g = elim (Bool-cases (contains r.relay reserved)) [
    | inl own ↦ rw own g
    | inr free ↦ elim (Bool-cases (has_name r.sensor p.engine.suspended)) [
      | inl out ↦ rw (free, out) g
      | inr heard ↦ elim (Bool-cases (fires p.engine.baselines t.utc_hour reading r)) [
        | inr quiet ↦ rw (free, heard, quiet) g
        | inl fired ↦ elim (Bool-cases r.action_on) [
          | inr off ↦ rw (free, heard, fired) (simp off (switch_off-Good r p free g))
          | inl on ↦
              rw (free, heard, fired)
                (simp on (
                  switch_on-Good r p m free
                    (refl, on, rw (← g.0.same_suspended) heard, rw (← g.0.same_baselines) fired) g))
        ]
      ]
    ]
  ]

  run_rules-Good :
      (rs : List Rule) (p : Pass)
      → ((r : Rule) → Memᴰ r rs → Memᴰ r e.rules)
      → Good p
      → Good (run_rules reserved reading t rs p)
  unfolding run_rules
  run_rules-Good [] p within g = g
  run_rules-Good (r ∷ rs) p within g =
      run_rules-Good rs (run_rule reserved reading t r p) (λ q m. within q (Memᴰ.tail m))
        (run_rule-Good r p (within r (Memᴰ.head refl)) g)

  first-Granted : All (Granted reserved reading t e) (release_first reserved t e).0
  first-Granted =
      All-imp (Releases reserved) (Granted reserved reading t e) (release_first reserved t e).0
        (λ a h. (h.1, λ on. cc (h.0))) (release_first-Releases reserved t e)

  -- The engine and the first actions with which the loop over the rules begins.
  abbrev pub start_pass : Pass
  start_pass =
      let e1 = (release_first reserved t e).1 in
      record {
        engine = accumulate_all t e1.on_since e1;
        actions = (release_first reserved t e).0;
        durations = [];
      }

  pub run_pass : Good (run_rules reserved reading t (release_first reserved t e).1.rules start_pass)
  run_pass =
      let e1 = (release_first reserved t e).1 in
      run_rules-Good e1.rules start_pass
        (λ r m. rw (← (Later-release_first t reserved e).same_rules) m)
        (
          Later-trans t e e1 start_pass.engine (Later-release_first t reserved e)
              (Later-accumulate_all t e1.on_since e1),
          first-Granted,
        )

  -- Every action that an evaluation returns is on a channel that is not reserved, and an action
  -- that switches a relay on is asked for by a rule of the engine whose sensor is not suspended and
  -- whose test holds on the reading, on a channel whose cooldown is not running.
  pub evaluate_grants : All (Granted reserved reading t e) (evaluate reserved reading t e).0
  unfolding evaluate apply
  evaluate_grants =
      let e1 = (release_first reserved t e).1 in
      elim (Bool-cases (not (is_in_schedule t e1) || e1.manual_override)) [
        | inl shut ↦ rw shut first-Granted
        | inr open_ ↦ rw open_ run_pass.1
      ]

  -- Outside the schedule window, and under manual override, an evaluation switches nothing on.
  pub guards_hold :
      (is_in_schedule t e ≡ false) ⊎ (e.manual_override ≡ true)
      → All (λ a. a.1 ≡ false) (evaluate reserved reading t e).0
  unfolding evaluate apply
  guards_hold guard = rw (guarded reserved t e guard) (
      All-imp (Releases reserved) (λ a. a.1 ≡ false) (release_first reserved t e).0 (λ a h. h.0)
        (release_first-Releases reserved t e))
