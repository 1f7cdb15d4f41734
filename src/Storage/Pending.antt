-- ===== src/Storage/Pending.antt =====
-- A reading that waits to be sent, through the operations of src/storage/database.py.
use wqm.Prelude.{
  ℕ, suc, ◌≡◌, ◌≤◌, inl, inr, refl, sym, ap, ◌∙◌, leb, ltb, ◌==◌, Bool, true, false, not, ◌&&◌,
  ◌||◌, List, [], ◌∷◌, ◌++◌, arith, keep, contains, length, map, Bool-cases, ==_iff,
}
use wqm.Storage.{
  SyncState, Row, Database, waits, is_resolved, ids, mark, bump, delete_oldest, rotate_resolved,
  rotate_waiting, rotate, by_time,
}
use wqm.Storage.Ids.{Ascending, absent_below, contains-by_time, contains-take, contains-keep}
use wqm.Storage.Sound.{IsSound}

-- A listed number is not one that is not listed.
unlisted : (m n : ℕ) (ms : List ℕ) → contains m ms ≡ true → contains n ms ≡ false → (m == n) ≡ false
unlisted m n ms h k = elim (Bool-cases (m == n)) [
  | inl e ↦
      absurd
        (let same : true ≡ false = sym h ∙ (ap (λ i. contains i ms) ((==_iff m n).0 e) ∙ k) in cc)
  | inr e ↦ e
]

module _ {ℓ} {V : Type ℓ} where
  -- A row with that id waits.
  abbrev pub has_pending : ℕ → List (Row V) → Bool
  has_pending n [] = false
  has_pending n (r ∷ rs) = (r.id == n && waits r) || has_pending n rs

  pub has_pending-append :
      (n : ℕ) (rs ss : List (Row V))
      → has_pending n (rs ++ ss) ≡ has_pending n rs || has_pending n ss
  has_pending-append n [] ss = refl
  has_pending-append n (r ∷ rs) ss = ground (arith, has_pending-append n rs ss)

  pub has_pending-mark :
      (n : ℕ) (state : SyncState) (marked : List ℕ) (rs : List (Row V))
      → contains n marked ≡ false
      → has_pending n (map (mark state marked) rs) ≡ has_pending n rs
  unfolding mark
  has_pending-mark n state marked [] h = refl
  has_pending-mark n state marked (r ∷ rs) h = elim (Bool-cases (contains r.id marked)) [
    | inl e ↦ rw (e, unlisted r.id n marked e h) (has_pending-mark n state marked rs h)
    | inr e ↦ rw (e, has_pending-mark n state marked rs h) refl
  ]

  has_pending-contains :
      (n : ℕ) (rs : List (Row V)) → contains n (ids rs) ≡ false → has_pending n rs ≡ false
  unfolding contains
  has_pending-contains n [] h = refl
  has_pending-contains n (r ∷ rs) h = ground (arith, has_pending-contains n rs)

  later_apart :
      (n low high : ℕ) (rs : List (Row V))
      → Ascending low high rs
      → has_pending n rs ≡ true
      → low ≤ n
  later_apart n low high rs a h = elim (Bool-cases (ltb n low)) [
    | inl e ↦ absurd (
        let none_waits =
          has_pending-contains n rs (absent_below n low high rs (ground (arith, e)) a) in
        cc)
    | inr e ↦ ground (arith, e)
  ]

  -- No resolved row has the id of a row that waits.
  unresolved :
      (n low high : ℕ) (rs : List (Row V))
      → Ascending low high rs
      → has_pending n rs ≡ true
      → contains n (ids (keep is_resolved rs)) ≡ false
  unfolding keep contains
  unresolved n low high [] a h = refl
  unresolved n low high (r ∷ rs) (first, rest) h = elim (Bool-cases (waits r)) [
    | inr e ↦
        let there : has_pending n rs ≡ true = ground (arith, h, e) in
        let above = later_apart n (suc r.id) high rs rest there in
        rw e (ground (arith, above, unresolved n (suc r.id) high rs rest there))
    | inl e ↦ rw e (elim (Bool-cases (r.id == n)) [
      | inl f ↦
          contains-keep n is_resolved rs
            (absent_below n (suc r.id) high rs (ground (arith, f)) rest)
      | inr f ↦ unresolved n (suc r.id) high rs rest (ground (arith, h, f))
    ])
  ]

  has_pending-keep :
      (n : ℕ) (chosen : List ℕ) (rs : List (Row V))
      → contains n chosen ≡ false
      → has_pending n (keep (λ r. not (contains r.id chosen)) rs) ≡ has_pending n rs
  unfolding keep
  has_pending-keep n chosen [] h = refl
  has_pending-keep n chosen (r ∷ rs) h = elim (Bool-cases (contains r.id chosen)) [
    | inl e ↦ rw (e, unlisted r.id n chosen e h) (has_pending-keep n chosen rs h)
    | inr e ↦ rw (e, has_pending-keep n chosen rs h) refl
  ]

  pub has_pending-bump :
      (n : ℕ) (bumped : List ℕ) (rs : List (Row V))
      → has_pending n (map (bump bumped) rs) ≡ has_pending n rs
  unfolding bump
  has_pending-bump n bumped [] = refl
  has_pending-bump n bumped (r ∷ rs) = rw (has_pending-bump n bumped rs) refl

  rotate_resolved-keeps :
      (n max_rows : ℕ) (db : Database V)
      → IsSound db
      → has_pending n db.rows ≡ true
      → has_pending n (rotate_resolved max_rows db).rows ≡ true
  unfolding rotate_resolved delete_oldest
  rotate_resolved-keeps n max_rows db s h =
      has_pending-keep n _ db.rows (
        contains-take n _ (by_time (keep is_resolved db.rows)) (
          contains-by_time n (keep is_resolved db.rows)
          ∙ unresolved n 1 db.next_id db.rows s.ascending h))
      ∙ h

  -- Rotation drops no reading that waits, unless the cloud is off.
  pub rotate-keeps :
      (n max_rows : ℕ) (db : Database V)
      → IsSound db
      → db.rotate_pending ≡ false
      → has_pending n db.rows ≡ true
      → has_pending n (rotate max_rows db).1.rows ≡ true
  unfolding rotate rotate_waiting rotate_resolved
  rotate-keeps n max_rows db s on h = elim (Bool-cases (leb (length db.rows) max_rows)) [
    | inl e ↦ rw e h
    | inr e ↦ rw (e, on) (rotate_resolved-keeps n max_rows db s h)
  ]
