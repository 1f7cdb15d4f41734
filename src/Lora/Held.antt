-- ===== src/Lora/Held.antt =====
-- The list of recent AppNonces in src/radio/lorawan.py: how long one stays in it.
use mathlib.Core.Path.{subst}
use wqm.Prelude.{
  ℕ, zero, suc, ◌+◌, ◌-◌, ◌≤◌, ◌<◌, ◌≡◌, refl, sym, ap, ◌∙◌, true, List, [], ◌∷◌, ◌++◌, arith,
  length, length-append, drop, contains,
}
use wqm.Lora.Join.{last_nonces}

-- A nonce stands in a list with at most `k` later ones.
pub record Held (n k : ℕ) (nonces : List ℕ) : Type 0 where
  pub before : List ℕ
  pub after : List ℕ
  pub split : nonces ≡ before ++ n ∷ after
  pub late : length after ≤ k

contains-middle : (n : ℕ) (before after : List ℕ) → contains n (before ++ n ∷ after) ≡ true
unfolding contains
contains-middle n [] after = ground arith
contains-middle n (x ∷ before) after = ground (arith, contains-middle n before after)

pub Held-contains : (n k : ℕ) (nonces : List ℕ) → Held n k nonces → contains n nonces ≡ true
Held-contains n k nonces h =
    subst (λ l. contains n l ≡ true) (sym h.split) (contains-middle n h.before h.after)

drop-append :
    (d : ℕ) (before rest : List ℕ)
    → d ≤ length before
    → drop d (before ++ rest) ≡ drop d before ++ rest
drop-append zero before rest h = refl
drop-append (suc d) [] rest h = absurd (omega arith)
drop-append (suc d) (x ∷ before) rest h = drop-append d before rest (omega arith)

append_middle :
    (n x : ℕ) (before after : List ℕ)
    → (before ++ n ∷ after) ++ x ∷ [] ≡ before ++ n ∷ (after ++ x ∷ [])
append_middle n x [] after = refl
append_middle n x (y ∷ before) after = ap (λ l. y ∷ l) (append_middle n x before after)

over : (b a : ℕ) → a ≤ 6 → b + suc (a + 1) - 8 ≤ b
over b a h = omega arith

-- One more AppNonce.
pub Held-next :
    (n k x : ℕ) (nonces : List ℕ)
    → k < 7
    → Held n k nonces
    → Held n (suc k) (last_nonces (nonces ++ x ∷ []))
unfolding last_nonces
Held-next n k x nonces few h =
    let tail = h.after ++ x ∷ [] in
    let total = h.before ++ n ∷ tail in
    let whole : nonces ++ x ∷ [] ≡ total =
      ap (λ l. l ++ x ∷ []) h.split ∙ append_middle n x h.before h.after in
    let cut = length total - 8 in
    let len : length total ≡ length h.before + suc (length h.after + 1) =
      omega (arith, length-append h.before (n ∷ tail), length-append h.after (x ∷ [])) in
    let fits : cut ≤ length h.before = omega (arith, len, h.late, few) in
    record {
      before = drop cut h.before;
      after = tail;
      split = ap (λ l. drop (length l - 8) l) whole ∙ drop-append cut h.before (n ∷ tail) fits;
      late = omega (arith, length-append h.after (x ∷ []), h.late);
    }

pub Held-first : (n : ℕ) (nonces : List ℕ) → Held n 0 (last_nonces (nonces ++ n ∷ []))
unfolding last_nonces
Held-first n nonces =
    let cut = length (nonces ++ n ∷ []) - 8 in
    record {
      before = drop cut nonces;
      after = [];
      split = drop-append cut nonces (n ∷ []) (omega (arith, length-append nonces (n ∷ [])));
      late = omega arith;
    }

pub Held-later : (n k : ℕ) (nonces : List ℕ) → Held n k nonces → Held n (suc k) nonces
Held-later n k nonces h = record {
  before = h.before;
  after = h.after;
  split = h.split;
  late = omega (arith, h.late);
}
