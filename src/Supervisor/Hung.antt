-- ===== src/Supervisor/Hung.antt =====
-- A worker of src/app/supervisor.py that no longer beats.
use wqm.Prelude.{
  ℕ, ◌+◌, ◌*◌, ◌≤◌, ◌<◌, ◌≡◌, inl, inr, refl, sym, ap, ◌∙◌, Bool, true, false, ◌&&◌, ◌||◌, Option,
  some, List, [], ◌∷◌, arith, leb, max, get_or, if◌then◌else◌, All, Bool-cases,
}
use wqm.Prelude.Texts.{String, str_eq, str_eq_iff, find, put_name, find-put_name}
use wqm.Supervisor.{
  Worker, StateStore, Supervisor, deadline_for, all_alive, all_workers_alive, rotate, tick,
  on_fault, incr_error, beat, finish_turn, run_turn, count_failure, reinterval,
}
use wqm.Supervisor.Liveness.{counted-beats, if-Supervisor, rotate-Keeps}

-- What happens while the supervisor runs: a worker's turn ends, the supervisor ticks, or a worker's
-- interval becomes another.
pub data Event : Type 0 where
  turns : ℕ → ℕ → Bool → Worker → Event
  ticks : ℕ → ℕ → Bool → Event
  paces : String → Option ℕ → Event

unfoldable pub happen : Event → Supervisor → Supervisor
happen (turns started ended ok w) s = finish_turn started ended ok w s
happen (ticks now checked ok) s = tick now checked ok s
happen (paces name answer) s = record s { workers = reinterval name answer s.workers }

unfoldable pub live : List Event → Supervisor → Supervisor
live [] s = s
live (e ∷ es) s = live es (happen e s)

-- One of the workers has the name, and an interval of at most the longest, where one that raises
-- counts as a minute.
unfoldable pub has_worker : String → ℕ → List Worker → Bool
has_worker name longest [] = false
has_worker name longest (w ∷ workers) =
    (str_eq w.name name && leb (get_or w.interval 60000) longest) || has_worker name longest workers

-- The deadline of an interval.
abbrev pub longest_wait : ℕ → ℕ
longest_wait longest = max (longest * 3) 60000

-- No beat of the worker with the name; a check after the deadline of the longest interval, which the
-- worker's interval stays within.
unfoldable pub IsSilent : String → ℕ → ℕ → Event → Type 0
IsSilent name longest last (turns started ended ok w) = str_eq w.name name ≡ false
IsSilent name longest last (ticks now checked ok) = last + longest_wait longest < checked
IsSilent name longest last (paces other answer) =
    str_eq other name ≡ true → get_or answer 60000 ≤ longest

module _ (name : String) (longest last : ℕ) where
  -- What stays of the state of a hung worker.
  record Hung (pets : List ℕ) (s : Supervisor) : Type 0 where
    there : has_worker name longest s.workers ≡ true
    stale : find name s.state.beats ≡ some last
    unpetted : s.pets ≡ pets

  failure-beats :
      (ok : Bool) (bucket : String) (s : StateStore) → (count_failure ok bucket s).beats ≡ s.beats
  unfolding incr_error
  failure-beats true bucket s = refl
  failure-beats false bucket s = counted-beats bucket (find bucket s.error_counts) s

  turn-Hung :
      (started ended : ℕ) (ok : Bool) (w : Worker) (pets : List ℕ) (s : Supervisor)
      → str_eq w.name name ≡ false
      → Hung pets s
      → Hung pets (finish_turn started ended ok w s)
  unfolding finish_turn on_fault beat
  turn-Hung started ended ok w pets s other h =
      let beats = (count_failure ok w.error_bucket s.state).beats in
      let stale : find name (put_name w.name ended beats) ≡ some last =
        find-put_name name w.name ended beats
        ∙ (ap (λ b. if b then some ended else find name beats) other
            ∙ (ap (find name) (failure-beats ok w.error_bucket s.state) ∙ h.stale)) in
      if-Supervisor (Hung pets) (run_turn started ended ok w).faults _ _
        (record { there = h.there; stale = stale; unpetted = h.unpetted })
        (record { there = h.there; stale = stale; unpetted = h.unpetted })

  reinterval-there :
      (other : String) (answer : Option ℕ) (workers : List Worker)
      → (str_eq other name ≡ true → get_or answer 60000 ≤ longest)
      → has_worker name longest workers ≡ true
      → has_worker name longest (reinterval other answer workers) ≡ true
  unfolding has_worker reinterval
  reinterval-there other answer [] within h = h
  reinterval-there other answer (w ∷ workers) within h =
      elim (Bool-cases (str_eq w.name name && leb (get_or w.interval 60000) longest)) [
        | inr e ↦
            let later = reinterval-there other answer workers within (ground (arith, e, h)) in
            ground (arith, later)
        | inl e ↦ elim (Bool-cases (str_eq w.name other)) [
          | inr f ↦ rw f (ground (arith, e))
          | inl f ↦
              let same = (str_eq_iff w.name other).0 f in
              let mine : str_eq w.name name ≡ true = ground (arith, e) in
              let short = within (ap (λ n. str_eq n name) (sym same) ∙ mine) in
              rw f (ground (arith, mine, short))
        ]
      ]

  overdue :
      (workers : List Worker) (beats : List (String × ℕ)) (now : ℕ)
      → find name beats ≡ some last
      → last + longest_wait longest < now
      → has_worker name longest workers ≡ true
      → all_alive workers beats now ≡ false
  unfolding has_worker all_alive deadline_for
  overdue [] beats now stale late h = absurd cc
  overdue (w ∷ workers) beats now stale late h =
      elim (Bool-cases (str_eq w.name name && leb (get_or w.interval 60000) longest)) [
        | inr e ↦
            let later = overdue workers beats now stale late (ground (arith, e, h)) in
            ground (arith, later)
        | inl e ↦
            let mine : str_eq w.name name ≡ true = ground (arith, e) in
            let found : find w.name beats ≡ some last =
              ap (λ n. find n beats) ((str_eq_iff w.name name).0 mine) ∙ stale in
            rw found (ground (arith, e, late))
      ]

  tick-Hung :
      (now checked : ℕ) (ok : Bool) (pets : List ℕ) (s : Supervisor)
      → last + longest_wait longest < checked
      → Hung pets s
      → Hung pets (tick now checked ok s)
  unfolding tick all_workers_alive
  tick-Hung now checked ok pets s late h =
      let k = rotate-Keeps now ok s in
      let there = ap (has_worker name longest) k.workers ∙ h.there in
      let stale = ap (find name) k.beats ∙ h.stale in
      rw (overdue (rotate now ok s).workers (rotate now ok s).state.beats checked stale late there)
        (record { there = there; stale = stale; unpetted = k.pets ∙ h.unpetted })

  live-Hung :
      (es : List Event) (pets : List ℕ) (s : Supervisor)
      → All (IsSilent name longest last) es
      → Hung pets s
      → Hung pets (live es s)
  unfolding live happen IsSilent
  live-Hung [] pets s silent h = h
  live-Hung (turns started ended ok v ∷ es) pets s silent h =
      live-Hung es pets (finish_turn started ended ok v s) silent.1
        (turn-Hung started ended ok v pets s silent.0 h)
  live-Hung (ticks now checked ok ∷ es) pets s silent h =
      live-Hung es pets (tick now checked ok s) silent.1
        (tick-Hung now checked ok pets s silent.0 h)
  live-Hung (paces other answer ∷ es) pets s silent h = live-Hung es pets _ silent.1 (record {
    there = reinterval-there other answer s.workers silent.0 h.there;
    stale = h.stale;
    unpetted = h.unpetted;
  })

  -- No more beats come from a worker, and its interval, which may change between any two checks, stays
  -- within a longest one: from when its last beat is older than the deadline of that longest interval,
  -- the watchdogs are never petted again, whatever the other workers do and however often the
  -- supervisor ticks.
  pub hung_starves :
      (es : List Event) (s : Supervisor)
      → has_worker name longest s.workers ≡ true
      → find name s.state.beats ≡ some last
      → All (IsSilent name longest last) es
      → (live es s).pets ≡ s.pets
  hung_starves es s there stale silent =
      (live-Hung es s.pets s silent
        (record { there = there; stale = stale; unpetted = refl })).unpetted
