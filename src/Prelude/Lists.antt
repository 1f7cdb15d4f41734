-- ===== src/Prelude/Lists.antt =====
-- Lists measured by native numbers, lists of numbers as Python's sets, and predicates on lists.
use Prim.Native.Nat.{ℕ, zero, suc, ◌+◌}
use mathlib.Core.Path.{◌≡◌}
use mathlib.Core.Bool.{Bool, true, false, ◌||◌}
use mathlib.Core.List.{List, [], ◌∷◌, ◌++◌}
use mathlib.Core.Option.{Option, none, some}
use native.Mathlib.Omega.{arith}
use wqm.Prelude.Tests.{◌==◌, if◌then◌else◌}

module _ {ℓ} {A : Type ℓ} where
  abbrev pub length : List A → ℕ
  length [] = 0
  length (x ∷ xs) = suc (length xs)

  abbrev pub get_elem? : List A → ℕ → Option A
  get_elem? [] i = none
  get_elem? (x ∷ xs) zero = some x
  get_elem? (x ∷ xs) (suc i) = get_elem? xs i

  abbrev pub take : ℕ → List A → List A
  take zero xs = []
  take (suc n) [] = []
  take (suc n) (x ∷ xs) = x ∷ take n xs

  abbrev pub drop : ℕ → List A → List A
  drop zero xs = xs
  drop (suc n) [] = []
  drop (suc n) (x ∷ xs) = drop n xs

  pub length-append : (xs ys : List A) → length (xs ++ ys) ≡ length xs + length ys
  length-append [] ys = omega arith
  length-append (x ∷ xs) ys = omega (arith, length-append xs ys)

-- The items that pass a test, in order.
unfoldable pub keep {ℓ} : {A : Type ℓ} → (A → Bool) → List A → List A
keep p [] = []
keep p (x ∷ xs) = let rest = keep p xs in if p x then x ∷ rest else rest

-- Every item satisfies a predicate.
module _ {ℓ κ} {A : Type ℓ} (Good : A → Type κ) where
  abbrev pub All : List A → Type κ
  All [] = Unit
  All (item ∷ items) = Good item × All items

  pub All-append : (first second : List A) → All first → All second → All (first ++ second)
  All-append [] second good good' = good'
  All-append (item ∷ items) second good good' = (good.0, All-append items second good.1 good')

pub All-imp {ℓ κ μ} :
    {A : Type ℓ} (From : A → Type κ) (To : A → Type μ) (items : List A)
    → ((item : A) → From item → To item)
    → All From items
    → All To items
All-imp From To [] step good = tt
All-imp From To (item ∷ items) step good = (step item good.0, All-imp From To items step good.1)

pub All-keep {ℓ} : {A : Type ℓ} (p : A → Bool) (xs : List A) → All (λ a. p a ≡ true) (keep p xs)
unfolding keep
All-keep p [] = tt
All-keep p (x ∷ xs) = ground (arith, All-keep p xs)

-- `n in s`, for a set of channel numbers.
unfoldable pub contains : ℕ → List ℕ → Bool
contains n [] = false
contains n (x ∷ xs) = (x == n) || contains n xs
