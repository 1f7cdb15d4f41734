-- ===== src/Rules/Safety.antt =====
-- What `evaluate` never does.
use wqm.Prelude.{
  ℕ, ◌≡◌, inl, inr, refl, true, false, not, List, [], ◌∷◌, arith, leb, contains, keep, All,
  All-append, All-keep, Bool-cases,
}
use wqm.Prelude.Dict.{Dict}
use wqm.Rules.{
  Moment, Action, Engine, note_off, drop_timer, sweep, forget_reserved, expire_timers, revert,
  revert_suspended_to_failsafe,
}
use wqm.Rules.Evaluate.{release_first}

-- An action that may stand in an answer: on a channel that nothing else owns.
abbrev pub Free : List ℕ → Action → Type 0
Free reserved a = contains a.0 reserved ≡ false

abbrev pub IsOff : Action → Type 0
IsOff a = a.1 ≡ false

-- The two sweeps switch off, and leave the reserved channels alone.
abbrev pub Releases : List ℕ → Action → Type 0
Releases reserved a = IsOff a × Free reserved a

sweep-Releases :
    (reserved : List ℕ) (now : ℕ) (d : Dict ℕ) (e : Engine)
    → All (λ (x : ℕ × ℕ). contains x.0 reserved ≡ false) d
    → All (Releases reserved) (sweep now d e).0
unfolding sweep
sweep-Releases reserved now [] e h = tt
sweep-Releases reserved now ((c, t) ∷ d) e h = elim (Bool-cases (leb t now)) [
  | inl due ↦
      rw due ((refl, h.0), sweep-Releases reserved now d (drop_timer c (note_off now c e)) h.1)
  | inr not_yet ↦ rw not_yet (sweep-Releases reserved now d e h.1)
]

forget_reserved-free :
    (reserved : List ℕ) (d : Dict ℕ)
    → All (λ (x : ℕ × ℕ). contains x.0 reserved ≡ false) (forget_reserved reserved d)
unfolding forget_reserved
forget_reserved-free reserved [] = tt
forget_reserved-free reserved ((c, t) ∷ d) = elim (Bool-cases (contains c reserved)) [
  | inl own ↦ rw own (forget_reserved-free reserved d)
  | inr free ↦ rw free (free, forget_reserved-free reserved d)
]

revert-Releases :
    (reserved : List ℕ) (now : ℕ) (cs : List ℕ) (e : Engine)
    → All (λ c. not (contains c reserved) ≡ true) cs
    → All (Releases reserved) (revert now cs e).0
unfolding revert
revert-Releases reserved now [] e h = tt
revert-Releases reserved now (c ∷ cs) e h =
    ((refl, ground arith), revert-Releases reserved now cs (drop_timer c (note_off now c e)) h.1)

pub release_first-Releases :
    (reserved : List ℕ) (t : Moment) (e : Engine)
    → All (Releases reserved) (release_first reserved t e).0
unfolding release_first revert_suspended_to_failsafe expire_timers
release_first-Releases reserved t e =
    let channels = keep (λ c. not (contains c reserved)) e.pending_failsafe in
    let e1 = (revert t.mono channels (record e { pending_failsafe = [] })).1 in
    let timers = forget_reserved reserved e1.timers in
    All-append (Releases reserved) (revert t.mono channels (record e { pending_failsafe = [] })).0
      (sweep t.mono timers (record e1 { timers = timers })).0
      (revert-Releases reserved t.mono channels _
        (All-keep (λ c. not (contains c reserved)) e.pending_failsafe))
      (sweep-Releases reserved t.mono timers _ (forget_reserved-free reserved e1.timers))
