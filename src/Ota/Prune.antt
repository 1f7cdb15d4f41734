-- ===== src/Ota/Prune.antt =====
-- `_prune_releases` of src/ota/agent.py.
use wqm.Prelude.{
  ℕ, ◌≡◌, inl, inr, refl, ap, ◌∙◌, true, false, not, ◌||◌, List, [], ◌∷◌, String, arith, keep,
  Bool-cases, All,
}
use wqm.Prelude.Texts.{str_eq, has_name, same_test, str_eq_iff}
use wqm.Ota.{Release, Disk, prunes, carry, Answers, Run, play_all, is_named}
use wqm.Ota.Apply.{names, prune_old, prune_releases}
use wqm.Ota.Recovery.{play_all-keeps}

module _ (name : String) where
  has_name-keep :
      (gone : String) (rs : List Release)
      → str_eq gone name ≡ false
      → has_name name (names (keep (λ r. not (is_named gone r)) rs)) ≡ has_name name (names rs)
  unfolding keep has_name
  has_name-keep gone [] h = refl
  has_name-keep gone (r ∷ rs) h = elim (Bool-cases (str_eq r.name gone)) [
    | inl e ↦ rw (e, same_test name r.name gone e, h) (has_name-keep gone rs h)
    | inr e ↦ rw (e, has_name-keep gone rs h) refl
  ]

  -- A release of that name is there.
  There : Disk → Type 0
  There d = has_name name (names d.releases) ≡ true

  prunes-There :
      (gone : String) (d : Disk)
      → str_eq gone name ≡ false
      → There d
      → There (carry (prunes gone) d)
  unfolding There carry
  prunes-There gone d h there = has_name-keep gone d.releases h ∙ there

  apart-has_name :
      (gone : String) (protect : List String)
      → has_name gone protect ≡ false
      → has_name name protect ≡ true
      → str_eq gone name ≡ false
  apart-has_name gone protect out within = elim (Bool-cases (str_eq gone name)) [
    | inl e ↦
        let same : has_name gone protect ≡ has_name name protect =
          ap (λ s. has_name s protect) ((str_eq_iff gone name).0 e) in
        absurd cc
    | inr e ↦ e
  ]

  prune_old-There :
      (kept protect : List String) (rs : List Release)
      → has_name name protect ≡ true
      → All (λ e. (d : Disk) → There d → There (carry e d)) (prune_old kept protect rs)
  unfolding prune_old
  prune_old-There kept protect [] h = tt
  prune_old-There kept protect (r ∷ rs) h =
      elim (Bool-cases (has_name r.name kept || has_name r.name protect)) [
        | inl e ↦ rw e (prune_old-There kept protect rs h)
        | inr e ↦ rw e (
          (λ d there.
              prunes-There r.name d (apart-has_name r.name protect (ground (arith, e)) h) there),
          prune_old-There kept protect rs h,
        )
      ]

  -- A release that is protected is there after the pruning if it was before, whatever fails in it.
  pub protected_stays :
      (answers : Answers) (keep_releases : ℕ) (protect : List String) (r : Run)
      → has_name name protect ≡ true
      → has_name name (names r.disk.releases) ≡ true
      → has_name name
          (names (play_all answers (prune_releases keep_releases protect r.disk) r).disk.releases)
        ≡ true
  unfolding There prune_releases
  protected_stays answers keep_releases protect r h there =
      play_all-keeps There answers _ r (prune_old-There _ protect _ h) there
