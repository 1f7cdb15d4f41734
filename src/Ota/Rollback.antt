-- ===== src/Ota/Rollback.antt =====
-- The moves of src/ota/agent.py between two releases that keep the way back, and the roll-back.
use wqm.Prelude.{
  ℕ, ◌≡◌, ◌≢◌, inl, inr, refl, ap, ◌∙◌, true, false, some, List, [], ◌∷◌, ◌||◌, String, All,
  All-append, Bool-cases,
}
use wqm.Prelude.Texts.{str_eq, has_name}
use wqm.Ota.{
  rolled_back, StateFile, Disk, Effect, reports, writes, flips, restarts, carry, fails, Answers,
  going, Run, play_all,
}
use wqm.Ota.Apply.{names, if_there, unpack, rollback, record_of, is_incomplete, prune_old}
use wqm.Ota.Recovery.{
  home_of, home, is_harmless, Same-refl, carry-Same, home-Same, play_all-keeps, play_all-first,
  Midway, home-Midway, home_of-previous,
}

-- The state file can be written, unless the agent dies first.
abbrev pub Writable : Answers → Type 0
Writable answers = (n : ℕ) (s : StateFile) → answers n (writes s) ≢ fails

abbrev pub Harmless : List Effect → Type 0
Harmless es = All (λ e. is_harmless e ≡ true) es

module _ (name : String) (d : Disk) where
  if_there-Harmless : Harmless (if_there name d)
  if_there-Harmless = elim (Bool-cases (has_name name (names d.releases))) [
    | inl e ↦ rw e (refl, tt)
    | inr e ↦ rw e tt
  ]

pub unpack-Harmless : (version : String) (mtime : ℕ) (d : Disk) → Harmless (unpack version mtime d)
unfolding unpack
unpack-Harmless version mtime d =
    All-append (λ e. is_harmless e ≡ true) (if_there _ d) _ (if_there-Harmless _ d)
      (
        refl,
        All-append (λ e. is_harmless e ≡ true) (if_there version d) _ (if_there-Harmless version d)
            (refl, (refl, tt)),
      )

pub prune_old-Harmless :
    (kept protect : List String) (rs : List _) → Harmless (prune_old kept protect rs)
unfolding prune_old
prune_old-Harmless kept protect [] = tt
prune_old-Harmless kept protect (r ∷ rs) =
    elim (Bool-cases (has_name r.name kept || has_name r.name protect)) [
      | inl e ↦ rw e (prune_old-Harmless kept protect rs)
      | inr e ↦ rw e (refl, prune_old-Harmless kept protect rs)
    ]

-- The unit is at a release, and would stay there.
pub record IsAt (name : String) (d : Disk) : Type 0 where
  pub current : d.current ≡ some name
  pub stays : home d ≡ some name

pub harmless-IsAt :
    (e : Effect) (previous : String) (d : Disk)
    → is_harmless e ≡ true
    → IsAt previous d
    → IsAt previous (carry e d)
harmless-IsAt e previous d h a =
    let s = carry-Same e d d h (Same-refl d) in
    record { current = s.current ∙ a.current; stays = home-Same d (carry e d) s ∙ a.stays }

rolled_back-IsAt :
    (previous version : String) (d : Disk)
    → IsAt previous d
    → IsAt previous (carry (writes (record_of rolled_back version (some previous))) d)
unfolding carry home_of record_of is_incomplete
rolled_back-IsAt previous version d a = record { current = a.current; stays = a.current }

flipped-IsAt :
    (previous version : String) (d : Disk)
    → str_eq previous version ≡ false
    → Midway previous version d
    → IsAt previous (carry (flips previous) d)
unfolding carry
flipped-IsAt previous version d apart m = record {
  current = refl;
  stays = ap (home_of (some previous)) m.noted ∙ home_of-previous previous version m.phase apart;
}

-- A roll-back that is cut short anywhere leaves a unit that comes back to the release before.
pub rollback-home :
    (answers : Answers) (previous version : String) (r : Run)
    → str_eq previous version ≡ false
    → Midway previous version r.disk
    → home (play_all answers (rollback previous version) r).disk ≡ some previous
unfolding rollback
rollback-home answers previous version r apart m =
    play_all-first (λ s. home s.disk ≡ some previous) answers (flips previous) _ r (inl refl)
      (λ n g h. home-Midway previous version r.disk apart m)
      λ n.
        (play_all-keeps (IsAt previous) answers
          (restarts
            ∷ writes (record_of rolled_back version (some previous))
            ∷ reports rolled_back version
            ∷ [])
          (record { disk = carry (flips previous) r.disk; count = n; ending = going })
          (
            (λ d a. harmless-IsAt restarts previous d refl a),
            (
              rolled_back-IsAt previous version,
              ((λ d a. harmless-IsAt (reports rolled_back version) previous d refl a), tt),
            ),
          )
          (flipped-IsAt previous version r.disk apart m)).stays
