-- ===== src/Storage/Ids.antt =====
-- The ids of the rows, and what the statements of src/storage/database.py that choose rows do to them.
use mathlib.Core.Path.{subst}
use wqm.Prelude.{
  ℕ, zero, suc, ◌≤◌, ◌<◌, ◌≡◌, inl, inr, refl, ap, ◌∙◌, leb, ◌==◌, Bool, false, ◌||◌, List, [], ◌∷◌,
  ◌++◌, arith, keep, contains, take, map, Bool-cases,
}
use wqm.Storage.{Row, ids, insert, by_time}

module _ {ℓ} {V : Type ℓ} where
  -- The ids grow along the rows, from `low` on, below `high`.
  abbrev pub Ascending : ℕ → ℕ → List (Row V) → Type 0
  Ascending low high [] = low ≤ high
  Ascending low high (r ∷ rs) = (low ≤ r.id) × Ascending (suc r.id) high rs

  pub Ascending-low :
      (low low' high : ℕ) (rs : List (Row V))
      → low' ≤ low
      → Ascending low high rs
      → Ascending low' high rs
  Ascending-low low low' high [] h a = omega arith
  Ascending-low low low' high (r ∷ rs) h (first, rest) = (omega arith, rest)

  pub Ascending-keep :
      (p : Row V → Bool) (low high : ℕ) (rs : List (Row V))
      → Ascending low high rs
      → Ascending low high (keep p rs)
  unfolding keep
  Ascending-keep p low high [] a = a
  Ascending-keep p low high (r ∷ rs) (first, rest) = elim (Bool-cases (p r)) [
    | inl e ↦ rw e (first, Ascending-keep p (suc r.id) high rs rest)
    | inr e ↦ rw e (
        Ascending-low (suc r.id) low high (keep p rs) (omega arith)
          (Ascending-keep p (suc r.id) high rs rest))
  ]

  pub absent_below :
      (n low high : ℕ) (rs : List (Row V))
      → n < low
      → Ascending low high rs
      → contains n (ids rs) ≡ false
  unfolding contains
  absent_below n low high [] h a = refl
  absent_below n low high (r ∷ rs) h (first, rest) =
      ground (arith, absent_below n (suc r.id) high rs (omega arith) rest)

  contains-insert :
      (n : ℕ) (r : Row V) (rs : List (Row V))
      → contains n (ids (insert r rs)) ≡ contains n (r.id ∷ ids rs)
  unfolding contains insert
  contains-insert n r [] = refl
  contains-insert n r (x ∷ xs) = elim (Bool-cases (leb r.timestamp x.timestamp)) [
    | inl e ↦ rw e refl
    | inr e ↦ rw e (ground (arith, contains-insert n r xs))
  ]

  pub contains-by_time :
      (n : ℕ) (rs : List (Row V)) → contains n (ids (by_time rs)) ≡ contains n (ids rs)
  unfolding contains by_time
  contains-by_time n [] = refl
  contains-by_time n (r ∷ rs) =
      contains-insert n r (by_time rs) ∙ ap (λ b. (r.id == n) || b) (contains-by_time n rs)

  pub contains-take :
      (n k : ℕ) (rs : List (Row V))
      → contains n (ids rs) ≡ false
      → contains n (ids (take k rs)) ≡ false
  unfolding contains
  contains-take n zero rs h = refl
  contains-take n (suc k) [] h = refl
  contains-take n (suc k) (r ∷ rs) h = ground (arith, contains-take n k rs)

  pub contains-keep :
      (n : ℕ) (p : Row V → Bool) (rs : List (Row V))
      → contains n (ids rs) ≡ false
      → contains n (ids (keep p rs)) ≡ false
  unfolding contains keep
  contains-keep n p [] h = refl
  contains-keep n p (r ∷ rs) h = elim (Bool-cases (p r)) [
    | inl e ↦ rw e (ground (arith, contains-keep n p rs))
    | inr e ↦ rw e (contains-keep n p rs (ground arith))
  ]

  pub Ascending-map :
      (f : Row V → Row V) (low high : ℕ) (rs : List (Row V))
      → ((r : Row V) → (f r).id ≡ r.id)
      → Ascending low high rs
      → Ascending low high (map f rs)
  Ascending-map f low high [] same a = a
  Ascending-map f low high (r ∷ rs) same (first, rest) = (
    omega (arith, same r),
    subst (λ n. Ascending n high (map f rs)) (omega (arith, same r))
        (Ascending-map f (suc r.id) high rs same rest),
  )

  pub Ascending-append :
      (low high : ℕ) (rs : List (Row V)) (r : Row V)
      → r.id ≡ high
      → Ascending low high rs
      → Ascending low (suc high) (rs ++ r ∷ [])
  Ascending-append low high [] r e a = (omega arith, omega arith)
  Ascending-append low high (x ∷ xs) r e (first, rest) =
      (first, Ascending-append (suc x.id) high xs r e rest)
