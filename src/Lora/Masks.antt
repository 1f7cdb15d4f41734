-- ===== src/Lora/Masks.antt =====
-- The channel mask under the LinkADRReq of src/radio/lorawan.py: how long it stays.
use mathlib.Core.Path.{subst}
use wqm.Prelude.{
  ℕ, zero, suc, ◌+◌, ◌*◌, ◌/◌, ◌%◌, ◌^◌, ◌≡◌, refl, ap, Bool, true, false, ◌||◌, Option, none, some,
  List, [], ◌∷◌, leb, ◌==◌, if◌then◌else◌, length,
}
use wqm.Lora.Commands.{set_mask, then_mask, set_bits, new_mask}

-- The mask, if there is one, has as many channels as before.
abbrev pub KeepsLength : ℕ → Option (List Bool) → Type 0
KeepsLength n none = Unit
KeepsLength n (some mask) = length mask ≡ n

cons_length :
    (n : ℕ) (x : Bool) (r : Option (List Bool))
    → KeepsLength n r
    → KeepsLength (suc n) (elim r [ none ↦ none | some ys ↦ some (x ∷ ys) ])
cons_length n x none h = tt
cons_length n x (some ys) h = ap suc h

pub length-set_mask :
    (i : ℕ) (v : Bool) (mask : List Bool) → KeepsLength (length mask) (set_mask i v mask)
unfolding set_mask
length-set_mask i v [] = tt
length-set_mask zero v (x ∷ xs) = refl
length-set_mask (suc i) v (x ∷ xs) =
    cons_length (length xs) x (set_mask i v xs) (length-set_mask i v xs)

then_length :
    (n : ℕ) (r : Option (List Bool)) (f : List Bool → Option (List Bool))
    → KeepsLength n r
    → ((mask : List Bool) → KeepsLength (length mask) (f mask))
    → KeepsLength n (then_mask r f)
then_length n none f h k = tt
then_length n (some mask) f h k = subst (λ i. KeepsLength i (f mask)) h (k mask)

length-set_bits :
    (test : ℕ → Bool) (base bit count : ℕ) (mask : List Bool)
    → KeepsLength (length mask) (set_bits test base bit count mask)
unfolding set_bits
length-set_bits test base bit zero mask = refl
length-set_bits test base bit (suc count) mask =
    then_length (length mask) (set_mask (base + bit) (test bit) mask)
      (set_bits test base (suc bit) count) (length-set_mask (base + bit) (test bit) mask)
      (length-set_bits test base (suc bit) count)

-- As for a mask and its verdict.
abbrev pub KeepsMask : ℕ → Option (List Bool × Bool) → Type 0
KeepsMask n none = Unit
KeepsMask n (some found) = length found.0 ≡ n

with_verdict_length :
    (n : ℕ) (r : Option (List Bool))
    → KeepsLength n r
    → KeepsMask n (elim r [ none ↦ none | some m ↦ some (m, true) ])
with_verdict_length n none h = tt
with_verdict_length n (some mask) h = h

if_keeps :
    (n : ℕ) (b : Bool) (x y : Option (List Bool × Bool))
    → KeepsMask n x
    → KeepsMask n y
    → KeepsMask n (if b then x else y)
if_keeps n true x y h k = h
if_keeps n false x y h k = k

abbrev group_of : ℕ → ℕ → List Bool → Option (List Bool)
group_of cntl bits mask = set_bits (λ bit. bits / 2 ^ bit % 2 == 1) (cntl * 16) 0 16 mask

abbrev all_and_group : ℕ → ℕ → List Bool → Option (List Bool)
all_and_group cntl bits mask =
    then_mask (set_bits (λ _. cntl == 6) 0 0 64 mask)
      (set_bits (λ bit. bits / 2 ^ bit % 2 == 1) 64 0 8)

pub length-new_mask :
    (cntl bits : ℕ) (mask : List Bool) → KeepsMask (length mask) (new_mask cntl bits mask)
unfolding new_mask
length-new_mask cntl bits mask =
    if_keeps (length mask) (leb cntl 4) _ _
      (with_verdict_length (length mask) (group_of cntl bits mask)
        (length-set_bits (λ bit. bits / 2 ^ bit % 2 == 1) (cntl * 16) 0 16 mask))
      (if_keeps (length mask) (cntl == 6 || cntl == 7) _ (some (mask, false))
        (with_verdict_length (length mask) (all_and_group cntl bits mask) (
          then_length (length mask) (set_bits (λ _. cntl == 6) 0 0 64 mask)
            (set_bits (λ bit. bits / 2 ^ bit % 2 == 1) 64 0 8)
            (length-set_bits (λ _. cntl == 6) 0 0 64 mask)
            (length-set_bits (λ bit. bits / 2 ^ bit % 2 == 1) 64 0 8)))
        refl)
