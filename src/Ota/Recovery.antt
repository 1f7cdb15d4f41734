-- ===== src/Ota/Recovery.antt =====
-- The release that a unit comes back to, and which effects of src/ota/agent.py change it.
use mathlib.Core.Path.{subst}
use wqm.Prelude.{
  ℕ, suc, ◌≡◌, ◌⊎◌, inl, inr, refl, sym, ap, ◌∙◌, Bool, true, false, Option, none, some, List, [],
  ◌∷◌, ◌++◌, String, All, All-imp, ◌≢◌, if◌then◌else◌, Bool-cases,
}
use wqm.Prelude.Texts.{str_eq, str_eq_refl}
use wqm.Ota.{
  Phase, StateFile, Disk, Effect, reports, downloads, unlinks_bundle, removes, extracts, renames,
  compiles, writes, flips, restarts, prunes, carry, Answer, done, fails, dies, Answers, Ending,
  going, raised, died, Run, raises, answered, play, play_on, play_all,
}
use wqm.Ota.Apply.{record_of, is_incomplete, way_back}

abbrev pub or_stay : Option String → Option String → Option String
or_stay none current = current
or_stay (some previous) current = some previous

unfoldable pub home_of : Option String → Option StateFile → Option String
home_of current none = current
home_of current (some s) =
    if is_incomplete s.phase then or_stay (way_back current s) current else current

-- Where the unit will be once the agent has started again: what an update that was cut short replaced,
-- and else where it is.
abbrev pub home : Disk → Option String
home d = home_of d.current d.state_file

abbrev pub is_harmless : Effect → Bool
is_harmless (writes s) = false
is_harmless (flips name) = false
is_harmless _ = true

-- The link and the state file are as they were.
pub record Same (d e : Disk) : Type 0 where
  pub current : e.current ≡ d.current
  pub state_file : e.state_file ≡ d.state_file

pub Same-refl : (d : Disk) → Same d d
Same-refl d = record { current = refl; state_file = refl }

pub Same-trans : (d e f : Disk) → Same d e → Same e f → Same d f
Same-trans d e f s t = record {
  current = t.current ∙ s.current;
  state_file = t.state_file ∙ s.state_file;
}

pub home-Same : (d e : Disk) → Same d e → home e ≡ home d
home-Same d e s = ap (λ c. home_of c e.state_file) s.current ∙ ap (home_of d.current) s.state_file

pub carry-Same : (e : Effect) (d f : Disk) → is_harmless e ≡ true → Same d f → Same d (carry e f)
unfolding carry
carry-Same (reports phase version) d f h s = s
carry-Same downloads d f h s = record { current = s.current; state_file = s.state_file }
carry-Same unlinks_bundle d f h s = record { current = s.current; state_file = s.state_file }
carry-Same (removes name) d f h s = record { current = s.current; state_file = s.state_file }
carry-Same (extracts r) d f h s = record { current = s.current; state_file = s.state_file }
carry-Same (renames from to) d f h s = record { current = s.current; state_file = s.state_file }
carry-Same (compiles name) d f h s = s
carry-Same (writes t) d f h s = absurd cc
carry-Same (flips name) d f h s = absurd cc
carry-Same restarts d f h s = s
carry-Same (prunes name) d f h s = record { current = s.current; state_file = s.state_file }

-- What every effect of a list keeps, if it is done, is kept wherever the run stops.
module _ (Good : Disk → Type 0) where
  answered-keeps :
      (a : Answer) (e : Effect) (r : Run)
      → ((d : Disk) → Good d → Good (carry e d))
      → Good r.disk
      → Good (answered a e r).disk
  unfolding answered
  answered-keeps done e r k h = k r.disk h
  answered-keeps fails e r k h = h
  answered-keeps dies e r k h = h

  pub play-keeps :
      (g : Ending) (answers : Answers) (e : Effect) (r : Run)
      → ((d : Disk) → Good d → Good (carry e d))
      → Good r.disk
      → Good (play_on g answers e r).disk
  unfolding play_on
  play-keeps going answers e r k h = answered-keeps (answers r.count e) e r k h
  play-keeps raised answers e r k h = h
  play-keeps died answers e r k h = h

  pub play_all-keeps :
      (answers : Answers) (es : List Effect) (r : Run)
      → All (λ e. (d : Disk) → Good d → Good (carry e d)) es
      → Good r.disk
      → Good (play_all answers es r).disk
  unfolding play_all
  play_all-keeps answers [] r k h = h
  play_all-keeps answers (e ∷ es) r k h =
      play_all-keeps answers es (play answers e r) k.1 (play-keeps r.ending answers e r k.0 h)

pub play_all-Same :
    (answers : Answers) (es : List Effect) (r : Run)
    → All (λ e. is_harmless e ≡ true) es
    → Same r.disk (play_all answers es r).disk
play_all-Same answers es r h =
    play_all-keeps (Same r.disk) answers es r
      (All-imp (λ e. is_harmless e ≡ true)
        (λ e. (f : Disk) → Same r.disk f → Same r.disk (carry e f)) es
        (λ e k f s. carry-Same e r.disk f k s) h)
      (Same-refl r.disk)

abbrev pub is_over : Ending → Bool
is_over going = false
is_over _ = true

play_on-over :
    (g : Ending) (answers : Answers) (e : Effect) (r : Run)
    → is_over g ≡ true
    → play_on g answers e r ≡ r
unfolding play_on
play_on-over going answers e r h = absurd cc
play_on-over raised answers e r h = refl
play_on-over died answers e r h = refl

-- A run that has stopped does nothing more.
pub play_all-over :
    (answers : Answers) (es : List Effect) (r : Run)
    → is_over r.ending ≡ true
    → play_all answers es r ≡ r
unfolding play_all
play_all-over answers [] r h = refl
play_all-over answers (e ∷ es) r h =
    ap (play_all answers es) (play_on-over r.ending answers e r h) ∙ play_all-over answers es r h

pub play_all-append :
    (answers : Answers) (es fs : List Effect) (r : Run)
    → play_all answers (es ++ fs) r ≡ play_all answers fs (play_all answers es r)
unfolding play_all
play_all-append answers [] fs r = refl
play_all-append answers (e ∷ es) fs r = play_all-append answers es fs (play answers e r)

-- The update of `previous` to `version` is noted, and the link is at one of them.
pub record Midway (previous version : String) (d : Disk) : Type 0 where
  pub phase : Phase
  pub incomplete : is_incomplete phase ≡ true
  pub noted : d.state_file ≡ some (record_of phase version (some previous))
  pub linked : (d.current ≡ some previous) ⊎ (d.current ≡ some version)

pub home_of-previous :
    (previous version : String) (phase : Phase)
    → str_eq previous version ≡ false
    → home_of (some previous) (some (record_of phase version (some previous))) ≡ some previous
unfolding home_of record_of way_back
home_of-previous previous version phase apart = elim (Bool-cases (is_incomplete phase)) [
  | inl e ↦ rw (e, apart) refl
  | inr e ↦ rw e refl
]

home_of-version :
    (previous version : String) (phase : Phase)
    → is_incomplete phase ≡ true
    → home_of (some version) (some (record_of phase version (some previous))) ≡ some previous
unfolding home_of record_of way_back
home_of-version previous version phase e = rw (e, str_eq_refl version) refl

pub home-Midway :
    (previous version : String) (d : Disk)
    → str_eq previous version ≡ false
    → Midway previous version d
    → home d ≡ some previous
home-Midway previous version d apart m = ap (home_of d.current) m.noted ∙ elim m.linked [
  | inl e ↦
      ap (λ c. home_of c (some (record_of m.phase version (some previous)))) e
      ∙ home_of-previous previous version m.phase apart
  | inr e ↦
      ap (λ c. home_of c (some (record_of m.phase version (some previous)))) e
      ∙ home_of-version previous version m.phase m.incomplete
]

pub Midway-Same :
    (previous version : String) (d e : Disk)
    → Same d e
    → Midway previous version d
    → Midway previous version e
Midway-Same previous version d e s m = record {
  phase = m.phase;
  incomplete = m.incomplete;
  noted = s.state_file ∙ m.noted;
  linked = elim m.linked [ inl h ↦ inl (s.current ∙ h) | inr h ↦ inr (s.current ∙ h) ];
}

-- The first of some effects: it stops the run where it raises, and is done where it may not fail.
module _ (Good : Run → Type 0) (answers : Answers) (e : Effect) (es : List Effect) where
  stopped : (r : Run) → is_over r.ending ≡ true → Good r → Good (play_all answers es r)
  stopped r h good = subst Good (sym (play_all-over answers es r h)) good

  -- A run that has stopped before the effect, and one that goes on after it.
  Stays : Disk → Type 0
  Stays d =
      (n : ℕ) (g : Ending) → is_over g ≡ true → Good (record { disk = d; count = n; ending = g })

  Next : Disk → Type 0
  Next d = (n : ℕ) → Good (play_all answers es (record { disk = d; count = n; ending = going }))

  answered-first :
      (a : Answer) (r : Run)
      → (raises e ≡ true) ⊎ (a ≢ fails)
      → Stays r.disk
      → Next (carry e r.disk)
      → Good (play_all answers es (answered a e r))
  unfolding answered Next Stays
  answered-first done r h stay next = next (suc r.count)
  answered-first fails r (inl h) stay next = rw h (stopped _ refl (stay _ raised refl))
  answered-first fails r (inr h) stay next = absurd (h refl)
  answered-first dies r h stay next = stopped _ refl (stay _ died refl)

  play_on-first :
      (g : Ending) (r : Run)
      → g ≡ r.ending
      → (raises e ≡ true) ⊎ (answers r.count e ≢ fails)
      → Stays r.disk
      → Next (carry e r.disk)
      → Good (play_all answers es (play_on g answers e r))
  unfolding play_on Stays
  play_on-first going r same h stay next = answered-first (answers r.count e) r h stay next
  play_on-first raised r same h stay next =
      stopped r (ap is_over (sym same)) (stay r.count r.ending (ap is_over (sym same)))
  play_on-first died r same h stay next =
      stopped r (ap is_over (sym same)) (stay r.count r.ending (ap is_over (sym same)))

  pub play_all-first :
      (r : Run)
      → (raises e ≡ true) ⊎ (answers r.count e ≢ fails)
      → ((n : ℕ) (g : Ending)
          → is_over g ≡ true
          → Good (record { disk = r.disk; count = n; ending = g }))
      → ((n : ℕ)
          → Good
              (play_all answers es (record { disk = carry e r.disk; count = n; ending = going })))
      → Good (play_all answers (e ∷ es) r)
  unfolding play_all Next Stays
  play_all-first r h stay next = play_on-first r.ending r refl h stay next
