-- ===== src/Storage/Rotate.antt =====
-- How many rows `rotate` of src/storage/database.py leaves.
use wqm.Prelude.{
  ℕ, zero, suc, ◌+◌, ◌≤◌, ◌≡◌, inl, inr, refl, ap, ◌∙◌, leb, ◌==◌, min, true, false, not, List, [],
  ◌∷◌, arith, keep, contains, length, take, Bool-cases, All,
}
use wqm.Storage.{Row, ids, insert, by_time, occurrences}
use wqm.Storage.Ids.{Ascending, absent_below}

contains-occurrences : (n : ℕ) (ms : List ℕ) → contains n ms ≡ false → occurrences n ms ≡ 0
unfolding contains occurrences
contains-occurrences n [] h = refl
contains-occurrences n (m ∷ ms) h = ground (arith, contains-occurrences n ms)

occurrences-contains : (n : ℕ) (ms : List ℕ) → contains n ms ≡ true → 1 ≤ occurrences n ms
unfolding contains occurrences
occurrences-contains n [] h = absurd cc
occurrences-contains n (m ∷ ms) h = ground (arith, occurrences-contains n ms)

module _ {ℓ} {V : Type ℓ} where
  length-insert : (r : Row V) (rs : List (Row V)) → length (insert r rs) ≡ suc (length rs)
  unfolding insert
  length-insert r [] = refl
  length-insert r (x ∷ xs) = elim (Bool-cases (leb r.timestamp x.timestamp)) [
    | inl e ↦ rw e refl
    | inr e ↦ rw e (omega (arith, length-insert r xs))
  ]

  pub length-by_time : (rs : List (Row V)) → length (by_time rs) ≡ length rs
  unfolding by_time
  length-by_time [] = refl
  length-by_time (r ∷ rs) = length-insert r (by_time rs) ∙ ap suc (length-by_time rs)

  pub length-ids-take : (k : ℕ) (rs : List (Row V)) → length (ids (take k rs)) ≡ min k (length rs)
  length-ids-take zero rs = omega arith
  length-ids-take (suc k) [] = omega arith
  length-ids-take (suc k) (r ∷ rs) = omega (arith, length-ids-take k rs)

  occurrences-insert :
      (n : ℕ) (r : Row V) (rs : List (Row V))
      → occurrences n (ids (insert r rs)) ≡ occurrences n (r.id ∷ ids rs)
  unfolding insert occurrences
  occurrences-insert n r [] = refl
  occurrences-insert n r (x ∷ xs) = elim (Bool-cases (leb r.timestamp x.timestamp)) [
    | inl e ↦ rw e refl
    | inr e ↦ rw e (ground (arith, occurrences-insert n r xs))
  ]

  pub occurrences-by_time :
      (n : ℕ) (rs : List (Row V)) → occurrences n (ids (by_time rs)) ≡ occurrences n (ids rs)
  unfolding by_time occurrences
  occurrences-by_time n [] = refl
  occurrences-by_time n (r ∷ rs) =
      occurrences-insert n r (by_time rs) ∙ ground (arith, occurrences-by_time n rs)

  pub occurrences-take :
      (n k : ℕ) (rs : List (Row V)) → occurrences n (ids (take k rs)) ≤ occurrences n (ids rs)
  unfolding occurrences
  occurrences-take n zero rs = omega arith
  occurrences-take n (suc k) [] = omega arith
  occurrences-take n (suc k) (r ∷ rs) = ground (arith, occurrences-take n k rs)

  -- Along growing ids no id comes twice.
  pub occurrences-Ascending :
      (n low high : ℕ) (rs : List (Row V)) → Ascending low high rs → occurrences n (ids rs) ≤ 1
  unfolding occurrences
  occurrences-Ascending n low high [] a = omega arith
  occurrences-Ascending n low high (r ∷ rs) (first, rest) = elim (Bool-cases (r.id == n)) [
    | inl e ↦ rw e (
        omega (
          arith,
          contains-occurrences n (ids rs)
              (absent_below n (suc r.id) high rs (ground (arith, e)) rest),
        ))
    | inr e ↦ rw e (occurrences-Ascending n (suc r.id) high rs rest)
  ]

  -- The rows whose ids are chosen, each counted as often as it is chosen.
  pub hits : List ℕ → List (Row V) → ℕ
  hits chosen [] = 0
  hits chosen (r ∷ rs) = occurrences r.id chosen + hits chosen rs

  pub length-keep_apart :
      (chosen : List ℕ) (rs : List (Row V))
      → ((n : ℕ) → occurrences n chosen ≤ 1)
      → length (keep (λ r. not (contains r.id chosen)) rs) + hits chosen rs ≡ length rs
  unfolding keep hits
  length-keep_apart chosen [] once = omega arith
  length-keep_apart chosen (r ∷ rs) once = elim (Bool-cases (contains r.id chosen)) [
    | inl e ↦ rw e (
        omega
          (arith, occurrences-contains r.id chosen e, once r.id, length-keep_apart chosen rs once))
    | inr e ↦
        rw e (omega (arith, contains-occurrences r.id chosen e, length-keep_apart chosen rs once))
  ]

  hits-cons :
      (c : ℕ) (cs : List ℕ) (rs : List (Row V))
      → hits (c ∷ cs) rs ≡ occurrences c (ids rs) + hits cs rs
  unfolding hits occurrences
  hits-cons c cs [] = omega arith
  hits-cons c cs (r ∷ rs) = ground (arith, hits-cons c cs rs)

  hits-nil : (rs : List (Row V)) → hits [] rs ≡ 0
  unfolding hits occurrences
  hits-nil [] = refl
  hits-nil (r ∷ rs) = omega (arith, hits-nil rs)

  pub hits-All :
      (chosen : List ℕ) (rs : List (Row V))
      → All (λ c. 1 ≤ occurrences c (ids rs)) chosen
      → length chosen ≤ hits chosen rs
  hits-All [] rs h = omega arith
  hits-All (c ∷ cs) rs h = omega (arith, hits-cons c cs rs, h.0, hits-All cs rs h.1)
