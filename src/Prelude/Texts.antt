-- ===== src/Prelude/Texts.antt =====
-- Texts as names: sensor names, reading columns, setting keys, and lists of them as Python's sets.
use mathlib.Core.Path.{◌≡◌, refl, sym, ap, ◌∙◌}
use mathlib.Core.Logic.{inl, inr}
use mathlib.Core.Bool.{Bool, true, false, ◌||◌}
use mathlib.Core.List.{List, [], ◌∷◌}
use mathlib.Core.Option.{Option, none, some}
use wqm.Prelude.Tests.{if◌then◌else◌, Bool-cases}
pub use Prim.Native.String.{String}
pub use text.Mathlib.Text.{◌==◌ as str_eq}
pub use text.Mathlib.TextEquality.{eq_iff as str_eq_iff}

-- `name in names`
unfoldable pub has_name : String → List String → Bool
has_name n [] = false
has_name n (x ∷ xs) = str_eq x n || has_name n xs

-- A dict whose keys are names, read by `get`.
unfoldable pub find {ℓ} : {V : Type ℓ} → String → List (String × V) → Option V
find k [] = none
find k ((j, v) ∷ d) = if str_eq j k then some v else find k d

-- d[k] = v keeps the place of a key that is there
unfoldable pub put_name {ℓ} : {V : Type ℓ} → String → V → List (String × V) → List (String × V)
put_name k v [] = (k, v) ∷ []
put_name k v ((j, w) ∷ d) =
    let rest = put_name k v d in if str_eq j k then (k, v) ∷ d else (j, w) ∷ rest

pub str_eq_refl : (s : String) → str_eq s s ≡ true
str_eq_refl s = (str_eq_iff s s).1 refl

pub same_test : (i j k : String) → str_eq j k ≡ true → str_eq j i ≡ str_eq k i
same_test i j k e = ap (λ s. str_eq s i) ((str_eq_iff j k).0 e)

-- One name is not two others.
pub apart : (i j k : String) → str_eq j k ≡ false → str_eq k i ≡ true → str_eq j i ≡ false
apart i j k e h = sym (ap (str_eq j) ((str_eq_iff k i).0 h)) ∙ e

pub if_same {ℓ} :
    {A : Type ℓ} (b c : Bool) (x y z : A)
    → c ≡ b
    → (if b then x else y) ≡ (if b then x else if c then z else y)
if_same true c x y z e = refl
if_same false c x y z e = rw e refl

pub if_swap {ℓ} :
    {A : Type ℓ} (b c : Bool) (x y z : A)
    → (c ≡ true → b ≡ false)
    → (if b then x else if c then y else z) ≡ (if c then y else if b then x else z)
if_swap b true x y z h = rw (h refl) refl
if_swap b false x y z h = refl

pub find-put_name {ℓ} :
    {V : Type ℓ} (i k : String) (v : V) (d : List (String × V))
    → find i (put_name k v d) ≡ (if str_eq k i then some v else find i d)
unfolding find put_name
find-put_name i k v [] = refl
find-put_name i k v ((j, w) ∷ d) = elim (Bool-cases (str_eq j k)) [
  | inl e ↦
      rw e (if_same (str_eq k i) (str_eq j i) (some v) (find i d) (some w) (same_test i j k e))
  | inr e ↦
      rw (e, find-put_name i k v d)
        (if_swap (str_eq j i) (str_eq k i) (some w) (some v) (find i d) (apart i j k e))
]
