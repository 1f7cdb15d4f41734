-- ===== src/Commands/Kept.antt =====
-- The records that src/cloud/device_commands.py keeps of handled commands: what is found in them.
use wqm.Prelude.{
  ℕ, ◌<◌, ◌≡◌, inl, inr, refl, sym, ap, ◌∙◌, Bool, true, false, not, Option, none, some, List, [],
  ◌∷◌, ◌++◌, arith, leb, if◌then◌else◌, keep, get_or, Bool-cases,
}
use wqm.Prelude.Texts.{String, str_eq, find, same_test, apart, if_same, if_swap}
use wqm.Commands.Dispatch.{Row, Handled, without, last_put, evict_expired}

same_both {ℓ} : {A : Type ℓ} (b : Bool) (x : A) → (if b then x else x) ≡ x
same_both true x = refl
same_both false x = refl

find-without {ℓ} :
    {V : Type ℓ} (i k : String) (d : List (String × V))
    → find i (without k d) ≡ (if str_eq k i then none else find i d)
unfolding find without
find-without i k [] = sym (same_both (str_eq k i) none)
find-without i k ((j, v) ∷ d) = elim (Bool-cases (str_eq j k)) [
  | inl e ↦ rw e (
      find-without i k d
      ∙ if_same (str_eq k i) (str_eq j i) none (find i d) (some v) (same_test i j k e))
  | inr e ↦
      rw (e, find-without i k d)
        (if_swap (str_eq j i) (str_eq k i) (some v) none (find i d) (apart i j k e))
]

abbrev or_else {ℓ} : {V : Type ℓ} → Option V → Option V → Option V
or_else none other = other
or_else (some v) other = some v

find-last {ℓ} :
    {V : Type ℓ} (i k : String) (v : V) (d : List (String × V))
    → find i (d ++ (k, v) ∷ []) ≡ or_else (find i d) (if str_eq k i then some v else none)
unfolding find
find-last i k v [] = refl
find-last i k v ((j, w) ∷ d) = elim (Bool-cases (str_eq j i)) [
  | inl e ↦ rw e refl
  | inr e ↦ rw e (find-last i k v d)
]

none-last {ℓ} : {V : Type ℓ} (o : Option V) → or_else o none ≡ o
none-last none = refl
none-last (some v) = refl

put_or {ℓ} :
    {V : Type ℓ} (b : Bool) (v : V) (o : Option V)
    → or_else (if b then none else o) (if b then some v else none) ≡ (if b then some v else o)
put_or true v o = refl
put_or false v o = none-last o

pub find-last_put {ℓ} :
    {V : Type ℓ} (i k : String) (v : V) (d : List (String × V))
    → find i (last_put k v d) ≡ (if str_eq k i then some v else find i d)
unfolding last_put
find-last_put i k v d =
    find-last i k v (without k d)
    ∙ (ap (λ o. or_else o (if str_eq k i then some v else none)) (find-without i k d)
        ∙ put_or (str_eq k i) v (find i d))

not_late : (e now : ℕ) → now < e → not (leb e now) ≡ true
not_late e now h = ground arith

same_row {ℓ} : {A : Type ℓ} (a b : A) → some a ≡ some b → a ≡ b
same_row a b h = ap (λ o. get_or o a) h

-- A row that has not expired stays.
pub find-evict :
    {Sensors : Type 0} (i : String) (now : ℕ) (row : Row Sensors) (rows : Handled Sensors)
    → now < row.expires_at
    → find i rows ≡ some row
    → find i (evict_expired now rows) ≡ some row
unfolding find evict_expired keep
find-evict i now row [] early h = h
find-evict {Sensors = Sensors} i now row ((j, r) ∷ rows) early h = elim (Bool-cases (str_eq j i)) [
  | inl e ↦
      let same = same_row r row (sym (ap (λ b. if b then some r else find i rows) e) ∙ h) in
      let stays : not (leb r.expires_at now) ≡ true =
        ap (λ (x : Row Sensors). not (leb x.expires_at now)) same
        ∙ not_late row.expires_at now early in
      rw stays (rw e (ap some same))
  | inr e ↦
      let ih =
        find-evict i now row rows early (sym (ap (λ b. if b then some r else find i rows) e) ∙ h) in
      elim (Bool-cases (not (leb r.expires_at now))) [
        | inl stays ↦ rw stays (rw e ih)
        | inr goes ↦ rw goes ih
      ]
]
