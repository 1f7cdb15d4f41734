-- ===== src/Supervisor/Liveness.antt =====
-- What the pets of the watchdogs say of the workers, in src/app/supervisor.py.
use wqm.Prelude.{
  ℕ, suc, ◌+◌, ◌-◌, ◌≤◌, ◌≡◌, ◌↔◌, inl, inr, refl, sym, ap, ◌∙◌, Bool, true, false, not, Option,
  none, some, List, [], ◌∷◌, arith, ltb, leb, if◌then◌else◌, get_or, length, All, Bool-cases,
}
use wqm.Prelude.Texts.{String, find}
use wqm.Supervisor.{
  Worker, StateStore, Supervisor, deadline_for, is_fresh, all_alive, all_workers_alive, rotate, pet,
  tick, incr_error, beat, counted, db_rotate_every,
}

-- A worker has beaten, and not longer ago than its deadline.
unfoldable pub IsAlive : List (String × ℕ) → ℕ → Worker → Type 0
IsAlive beats now w = (last : ℕ) × (find w.name beats ≡ some last) × (now ≤ last + deadline_for w)

pub some_same : (x y : ℕ) → some x ≡ some y → x ≡ y
some_same x y h = ap (λ o. get_or o x) h

fresh-IsAlive :
    (beat : Option ℕ) (deadline now : ℕ)
    → (is_fresh beat deadline now ≡ true)
      ↔ ((last : ℕ) × (beat ≡ some last) × (now ≤ last + deadline))
fresh-IsAlive none deadline now = (λ h. absurd (no h), λ h. absurd (nothing h.0 h.1))
  where
    no : false ≡ true → ⊥
    no h = cc

    nothing : (last : ℕ) → none ≡ some last → ⊥
    nothing last h = cc
fresh-IsAlive (some beat) deadline now =
    (λ h. (beat, refl, ground arith), λ h. late h.0 (some_same beat h.0 h.1) h.2)
  where
    late : (last : ℕ) → beat ≡ last → now ≤ last + deadline → not (ltb deadline (now - beat)) ≡ true
    late last e h = ground arith

pub all_alive-All :
    (workers : List Worker) (beats : List (String × ℕ)) (now : ℕ)
    → (all_alive workers beats now ≡ true) ↔ All (IsAlive beats now) workers
unfolding all_alive IsAlive
all_alive-All [] beats now = (λ h. tt, λ h. refl)
all_alive-All (w ∷ workers) beats now =
    let one = fresh-IsAlive (find w.name beats) (deadline_for w) now in
    let rest = all_alive-All workers beats now in
    (
      λ h. (
        one.0 (first (is_fresh (find w.name beats) (deadline_for w) now) _ h),
        rest.0 (second (is_fresh (find w.name beats) (deadline_for w) now) _ h),
      ),
      λ h. both _ _ (one.1 h.0) (rest.1 h.1),
    )
  where
    first : (a b : Bool) → (if not a then false else b) ≡ true → a ≡ true
    first a b h = ground arith

    second : (a b : Bool) → (if not a then false else b) ≡ true → b ≡ true
    second a b h = ground arith

    both : (a b : Bool) → a ≡ true → b ≡ true → (if not a then false else b) ≡ true
    both a b h k = ground arith

pub counted-beats :
    (bucket : String) (n : Option ℕ) (s : StateStore) → (counted bucket n s).beats ≡ s.beats
counted-beats bucket none s = refl
counted-beats bucket (some n) s = refl

-- What the watchdogs read, and the pets, are those of another moment.
pub record Keeps (s s' : Supervisor) : Type 0 where
  pub workers : s'.workers ≡ s.workers
  pub beats : s'.state.beats ≡ s.state.beats
  pub pets : s'.pets ≡ s.pets

-- A conditional has what both its branches have.
pub if-Supervisor :
    (P : Supervisor → Type 0) (b : Bool) (x y : Supervisor) → P x → P y → P (if b then x else y)
if-Supervisor P true x y h k = h
if-Supervisor P false x y h k = k

error-beats : (ok : Bool) (s : StateStore) → (if ok then s else incr_error "db" s).beats ≡ s.beats
unfolding incr_error
error-beats true s = refl
error-beats false s = counted-beats "db" (find "db" s.error_counts) s

pub rotate-Keeps : (now : ℕ) (ok : Bool) (s : Supervisor) → Keeps s (rotate now ok s)
unfolding rotate
rotate-Keeps now ok s =
    if-Supervisor (Keeps s) (leb db_rotate_every (now - s.last_rotate)) _ s
      (record { workers = refl; beats = error-beats ok s.state; pets = refl })
      (record { workers = refl; beats = refl; pets = refl })

rotate-alive :
    (now checked : ℕ) (ok : Bool) (s : Supervisor)
    → all_workers_alive checked (rotate now ok s) ≡ all_workers_alive checked s
unfolding all_workers_alive
rotate-alive now checked ok s =
    let k = rotate-Keeps now ok s in
    ap (λ ws. all_alive ws (rotate now ok s).state.beats checked) k.workers
    ∙ ap (λ bs. all_alive s.workers bs checked) k.beats

-- The pets after a tick.
tick-pets :
    (now checked : ℕ) (ok : Bool) (s : Supervisor)
    → (tick now checked ok s).pets ≡ (if all_workers_alive checked s then now ∷ s.pets else s.pets)
unfolding tick pet
tick-pets now checked ok s =
    rw (rotate-alive now checked ok s) (elim (Bool-cases (all_workers_alive checked s)) [
      | inl e ↦ rw e (ap (λ l. now ∷ l) (rotate-Keeps now ok s).pets)
      | inr e ↦ rw e (rotate-Keeps now ok s).pets
    ])

longer : (n : ℕ) (l : List ℕ) → l ≡ n ∷ l → ⊥
longer n l h = lengths (length l) (ap length h)
  where
    lengths : (k : ℕ) → k ≡ suc k → ⊥
    lengths k h = omega arith

-- A tick pets the watchdogs if every worker's last beat is no older than its deadline, three times its
-- interval and at least a minute, and only then.
pub pets_iff_IsAlive :
    (now checked : ℕ) (ok : Bool) (s : Supervisor)
    → ((tick now checked ok s).pets ≡ now ∷ s.pets) ↔ All (IsAlive s.state.beats checked) s.workers
unfolding all_workers_alive
pets_iff_IsAlive now checked ok s =
    let alive = all_alive-All s.workers s.state.beats checked in
    let pets = tick-pets now checked ok s in
    (
      λ h. alive.0 (must (all_alive s.workers s.state.beats checked) (sym pets ∙ h)),
      λ h. pets ∙ ap (λ b. if b then now ∷ s.pets else s.pets) (alive.1 h),
    )
  where
    must : (b : Bool) → (if b then now ∷ s.pets else s.pets) ≡ now ∷ s.pets → b ≡ true
    must true h = refl
    must false h = absurd (longer now s.pets h)
