-- ===== src/Rules/Later.antt =====
-- What stays of the engine while an evaluation goes on: its settings, and every cooldown that runs.
use mathlib.Core.Path.{subst}
use wqm.Prelude.{
  sym, ℕ, ◌+◌, ◌-◌, ◌≡◌, ◌∙◌, inl, inr, refl, true, not, List, [], ◌∷◌, arith, leb, ◌==◌, get_or,
  contains, keep, Bool-cases,
}
use wqm.Prelude.Dict
use wqm.Prelude.Dict.{Dict, get-put}
use wqm.Rules.{
  Moment, Engine, is_in_cooldown, check_on_time_budget, accumulate_all, accumulate_on_time,
  spent_this_hour, note_off, drop_timer, sweep, forget_reserved, expire_timers, revert,
  revert_suspended_to_failsafe,
}
use wqm.Rules.Evaluate.{track_on, release_first}

pub record Later (t : Moment) (e e' : Engine) : Type 0 where
  pub same_rules : e'.rules ≡ e.rules
  pub same_suspended : e'.suspended ≡ e.suspended
  pub same_baselines : e'.baselines ≡ e.baselines
  pub same_relay : e'.relay ≡ e.relay
  pub same_schedule :
      (e'.schedule_enabled ≡ e.schedule_enabled)
      × (e'.schedule_start ≡ e.schedule_start)
      × (e'.schedule_end ≡ e.schedule_end)
  pub same_override : e'.manual_override ≡ e.manual_override
  pub cools : (c : ℕ) → is_in_cooldown t c e ≡ true → is_in_cooldown t c e' ≡ true

module _ (t : Moment) where
  pub Later-refl : (e : Engine) → Later t e e
  Later-refl e = record {
    same_rules = refl;
    same_suspended = refl;
    same_baselines = refl;
    same_relay = refl;
    same_schedule = (refl, refl, refl);
    same_override = refl;
    cools = λ c h. h;
  }

  pub Later-trans : (a b c : Engine) → Later t a b → Later t b c → Later t a c
  Later-trans a b c h k = record {
    same_rules = k.same_rules ∙ h.same_rules;
    same_suspended = k.same_suspended ∙ h.same_suspended;
    same_baselines = k.same_baselines ∙ h.same_baselines;
    same_relay = k.same_relay ∙ h.same_relay;
    same_schedule = (
      k.same_schedule.0 ∙ h.same_schedule.0,
      k.same_schedule.1 ∙ h.same_schedule.1,
      k.same_schedule.2 ∙ h.same_schedule.2,
    );
    same_override = k.same_override ∙ h.same_override;
    cools = λ d x. k.cools d (h.cools d x);
  }

  -- A step that leaves all but the timers, the on-times and the queue as they were.
  pub Later-same :
      (e : Engine) (timers : Dict ℕ) (on_time : Dict (ℕ × ℕ)) (on_since : Dict ℕ) (pending : List ℕ)
      → Later t e (record e {
        timers = timers;
        on_time = on_time;
        on_since = on_since;
        pending_failsafe = pending;
      })
  unfolding is_in_cooldown
  Later-same e timers on_time on_since pending = record {
    same_rules = refl;
    same_suspended = refl;
    same_baselines = refl;
    same_relay = refl;
    same_schedule = (refl, refl, refl);
    same_override = refl;
    cools = λ c h. h;
  }

  pub Later-note_off : (c : ℕ) (e : Engine) → Later t e (note_off t.mono c e)
  unfolding note_off is_in_cooldown
  Later-note_off c e = record {
    same_rules = refl;
    same_suspended = refl;
    same_baselines = refl;
    same_relay = refl;
    same_schedule = (refl, refl, refl);
    same_override = refl;
    cools = λ d h. ground (arith, get-put d c t.mono e.last_off);
  }

  Later-drop : (c : ℕ) (e : Engine) → Later t e (drop_timer c (note_off t.mono c e))
  unfolding drop_timer
  Later-drop c e = Later-trans e (note_off t.mono c e) _ (Later-note_off c e) (
      Later-same (note_off t.mono c e) (Dict.remove c (note_off t.mono c e).timers)
        (note_off t.mono c e).on_time (note_off t.mono c e).on_since
        (note_off t.mono c e).pending_failsafe)

  Later-sweep : (d : Dict ℕ) (e : Engine) → Later t e (sweep t.mono d e).1
  unfolding sweep
  Later-sweep [] e = Later-refl e
  Later-sweep ((c, due) ∷ d) e = elim (Bool-cases (leb due t.mono)) [
    | inl now ↦
        rw now
          (Later-trans e _ _ (Later-drop c e) (Later-sweep d (drop_timer c (note_off t.mono c e))))
    | inr not_yet ↦ rw not_yet (Later-sweep d e)
  ]

  Later-revert : (cs : List ℕ) (e : Engine) → Later t e (revert t.mono cs e).1
  unfolding revert
  Later-revert [] e = Later-refl e
  Later-revert (c ∷ cs) e =
      Later-trans e _ _ (Later-drop c e) (Later-revert cs (drop_timer c (note_off t.mono c e)))

  pub Later-release_first :
      (reserved : List ℕ) (e : Engine) → Later t e (release_first reserved t e).1
  unfolding release_first revert_suspended_to_failsafe expire_timers
  Later-release_first reserved e =
      let channels = keep (λ c. not (contains c reserved)) e.pending_failsafe in
      let e0 : Engine = record e { pending_failsafe = [] } in
      let e1 = (revert t.mono channels e0).1 in
      let timers = forget_reserved reserved e1.timers in
      let e2 : Engine = record e1 { timers = timers } in
      Later-trans e e1 _
        (Later-trans e e0 e1 (Later-same e e.timers e.on_time e.on_since [])
          (Later-revert channels e0))
        (Later-trans e1 e2 _ (Later-same e1 timers e1.on_time e1.on_since e1.pending_failsafe)
          (Later-sweep timers e2))

  Later-accumulate_on_time : (relay n : ℕ) (e : Engine) → Later t e (accumulate_on_time t relay n e)
  unfolding accumulate_on_time
  Later-accumulate_on_time relay n e = elim (Bool-cases (e.max_on_per_hour == 0)) [
    | inl off ↦ rw off (Later-refl e)
    | inr on ↦ rw on (
        Later-same e e.timers
          (Dict.put relay (t.hour, get_or (spent_this_hour t.hour (Dict.get relay e.on_time)) 0 + n)
            e.on_time)
          e.on_since e.pending_failsafe)
  ]

  pub Later-accumulate_all : (d : Dict ℕ) (e : Engine) → Later t e (accumulate_all t d e)
  unfolding accumulate_all
  Later-accumulate_all [] e = Later-refl e
  Later-accumulate_all ((relay, since) ∷ d) e =
      let e1 = accumulate_on_time t relay (t.mono - since) e in
      let e2 : Engine = record e1 { on_since = Dict.put relay t.mono e1.on_since } in
      Later-trans e e2 _
        (Later-trans e e1 e2 (Later-accumulate_on_time relay (t.mono - since) e) (
          Later-same e1 e1.timers e1.on_time (Dict.put relay t.mono e1.on_since)
            e1.pending_failsafe))
        (Later-accumulate_all d e2)

  budget-eq :
      (relay : ℕ) (e : Engine)
      → (check_on_time_budget t relay e).1
        ≡ record e { on_time = (check_on_time_budget t relay e).1.on_time }
  unfolding check_on_time_budget
  budget-eq relay e = ground arith

  pub Later-budget : (relay : ℕ) (e : Engine) → Later t e (check_on_time_budget t relay e).1
  Later-budget relay e = subst (Later t e) (sym (budget-eq relay e)) (
      Later-same e e.timers (check_on_time_budget t relay e).1.on_time e.on_since
        e.pending_failsafe)

  track-eq :
      (relay : ℕ) (e : Engine)
      → track_on t.mono relay e ≡ record e { on_since = (track_on t.mono relay e).on_since }
  unfolding track_on
  track-eq relay e = ground arith

  pub Later-track_on : (relay : ℕ) (e : Engine) → Later t e (track_on t.mono relay e)
  Later-track_on relay e =
      subst (Later t e) (sym (track-eq relay e))
        (Later-same e e.timers e.on_time (track_on t.mono relay e).on_since e.pending_failsafe)
