-- ===== src/Storage/Bound.antt =====
-- The size of the buffer after `rotate` of src/storage/database.py.
use wqm.Prelude.{
  ℕ, zero, suc, ◌+◌, ◌-◌, ◌≤◌, ◌≡◌, inl, inr, refl, leb, ltb, min, max, Bool, not, ◌&&◌, List, [],
  ◌∷◌, arith, keep, length, take, Bool-cases, All, All-imp,
}
use wqm.Storage.{
  Row, Database, pending, synced, failed_permanent, is_pending, same_state, SyncState, waits,
  is_resolved, ids, insert, by_time, occurrences, delete_oldest, rowcount, dropped, rotate_resolved,
  rotate_waiting, rotate, get_count, get_state_count,
}
use wqm.Storage.Ids.{Ascending, Ascending-keep}
use wqm.Storage.Sound.{IsSound}
use wqm.Storage.Rotate.{
  hits-All, length-keep_apart, length-by_time, length-ids-take, occurrences-Ascending,
  occurrences-take, occurrences-by_time,
}

counts_itself : (ms : List ℕ) → All (λ c. 1 ≤ occurrences c ms) ms
unfolding occurrences
counts_itself [] = tt
counts_itself (m ∷ ms) = (
  ground arith,
  All-imp (λ c. 1 ≤ occurrences c ms) (λ c. 1 ≤ occurrences c (m ∷ ms)) ms
      (λ c h. ground (arith, h)) (counts_itself ms),
)

same_state_pending : (state : SyncState) → same_state state pending ≡ is_pending state
same_state_pending pending = refl
same_state_pending synced = refl
same_state_pending failed_permanent = refl

length-keep {ℓ} : {A : Type ℓ} (p : A → Bool) (xs : List A) → length (keep p xs) ≤ length xs
unfolding keep
length-keep p [] = omega arith
length-keep p (x ∷ xs) = ground (arith, length-keep p xs)

module _ {ℓ} {V : Type ℓ} (Good : ℕ → Type 0) where
  All-insert :
      (r : Row V) (rs : List (Row V)) → Good r.id → All Good (ids rs) → All Good (ids (insert r rs))
  unfolding insert
  All-insert r [] h k = (h, k)
  All-insert r (x ∷ xs) h k = elim (Bool-cases (leb r.timestamp x.timestamp)) [
    | inl e ↦ rw e (h, k)
    | inr e ↦ rw e (k.0, All-insert r xs h k.1)
  ]

  All-by_time : (rs : List (Row V)) → All Good (ids rs) → All Good (ids (by_time rs))
  unfolding by_time
  All-by_time [] k = k
  All-by_time (r ∷ rs) k = All-insert r (by_time rs) k.0 (All-by_time rs k.1)

  All-take : (n : ℕ) (rs : List (Row V)) → All Good (ids rs) → All Good (ids (take n rs))
  All-take zero rs k = tt
  All-take (suc n) [] k = tt
  All-take (suc n) (r ∷ rs) k = (k.0, All-take n rs k.1)

  All-ids-keep :
      (p : Row V → Bool) (rs : List (Row V)) → All Good (ids rs) → All Good (ids (keep p rs))
  unfolding keep
  All-ids-keep p [] k = k
  All-ids-keep p (r ∷ rs) k = elim (Bool-cases (p r)) [
    | inl e ↦ rw e (k.0, All-ids-keep p rs k.1)
    | inr e ↦ rw e (All-ids-keep p rs k.1)
  ]

module _ {ℓ} {V : Type ℓ} where
  -- As many rows go as were to go, or as there are to choose from.
  length-delete_oldest :
      (selects : Row V → Bool) (limit low high : ℕ) (rs : List (Row V))
      → Ascending low high rs
      → length (delete_oldest selects limit rs) + min limit (length (keep selects rs)) ≤ length rs
  unfolding delete_oldest
  length-delete_oldest selects limit low high rs a =
      let sorted = by_time (keep selects rs) in
      let chosen = ids (take limit sorted) in
      let once : (n : ℕ) → occurrences n chosen ≤ 1 = λ n. omega (
        arith,
        occurrences-take n limit sorted,
        occurrences-by_time n (keep selects rs),
        occurrences-Ascending n low high (keep selects rs) (Ascending-keep selects low high rs a),
      ) in
      let there =
        All-take (λ c. 1 ≤ occurrences c (ids rs)) limit sorted
          (All-by_time (λ c. 1 ≤ occurrences c (ids rs)) (keep selects rs)
            (All-ids-keep (λ c. 1 ≤ occurrences c (ids rs)) selects rs (counts_itself (ids rs)))) in
      omega (
        arith,
        length-keep_apart chosen rs once,
        hits-All chosen rs there,
        length-ids-take limit sorted,
        length-by_time (keep selects rs),
      )

  length-resolved :
      (rs : List (Row V))
      → length (keep is_resolved rs) + length (keep (λ r. same_state r.sync_state pending) rs)
        ≡ length rs
  unfolding keep
  length-resolved [] = omega arith
  length-resolved (r ∷ rs) = elim (Bool-cases (waits r)) [
    | inl e ↦ rw (same_state_pending r.sync_state, e) (omega (arith, length-resolved rs))
    | inr e ↦ rw (same_state_pending r.sync_state, e) (omega (arith, length-resolved rs))
  ]

  rotate_resolved-bound :
      (max_rows : ℕ) (db : Database V)
      → IsSound db
      → get_count (rotate_resolved max_rows db) ≤ max max_rows (get_state_count pending db)
  unfolding rotate_resolved get_count get_state_count
  rotate_resolved-bound max_rows db s = omega (
    arith,
    length-delete_oldest is_resolved (length db.rows - max_rows) 1 db.next_id db.rows s.ascending,
    length-resolved db.rows,
  )

  rotate_waiting-bound :
      (max_rows : ℕ) (db : Database V) → get_count (rotate_waiting max_rows db) ≤ get_count db
  unfolding rotate_waiting delete_oldest get_count
  rotate_waiting-bound max_rows db =
      elim (Bool-cases (db.rotate_pending && ltb max_rows (length db.rows))) [
        | inl e ↦ rw e (length-keep _ db.rows)
        | inr e ↦ rw e (omega arith)
      ]

  length-split :
      (p : Row V → Bool) (rs : List (Row V))
      → length (keep p rs) + length (keep (λ r. not (p r)) rs) ≡ length rs
  unfolding keep
  length-split p [] = omega arith
  length-split p (r ∷ rs) = elim (Bool-cases (p r)) [
    | inl e ↦ rw e (omega (arith, length-split p rs))
    | inr e ↦ rw e (omega (arith, length-split p rs))
  ]

  -- The row count of a deletion is the number of rows that it takes away.
  rowcount-gone :
      (selects : Row V → Bool) (limit : ℕ) (rs : List (Row V))
      → rowcount selects limit rs + length (delete_oldest selects limit rs) ≡ length rs
  unfolding rowcount delete_oldest
  rowcount-gone selects limit rs = length-split _ rs

  resolved-gone :
      (max_rows : ℕ) (db : Database V)
      → rowcount is_resolved (length db.rows - max_rows) db.rows
          + get_count (rotate_resolved max_rows db)
        ≡ get_count db
  unfolding rotate_resolved get_count
  resolved-gone max_rows db = rowcount-gone is_resolved (length db.rows - max_rows) db.rows

  dropped-gone :
      (max_rows : ℕ) (db : Database V)
      → dropped max_rows db + get_count (rotate_waiting max_rows db) ≡ get_count db
  unfolding dropped rotate_waiting get_count
  dropped-gone max_rows db =
      elim (Bool-cases (db.rotate_pending && ltb max_rows (length db.rows))) [
        | inl e ↦ rw e (rowcount-gone waits (length db.rows - max_rows) db.rows)
        | inr e ↦ rw e (omega arith)
      ]

  -- Rotation leaves at most the limit, or the rows that wait where they are more, and returns the
  -- number of rows that are gone.
  pub rotate_bound :
      (max_rows : ℕ) (db : Database V)
      → IsSound db
      → (get_count (rotate max_rows db).1 ≤ max max_rows (get_state_count pending db))
        × ((rotate max_rows db).0 + get_count (rotate max_rows db).1 ≡ get_count db)
  unfolding rotate get_count
  rotate_bound max_rows db s = elim (Bool-cases (leb (length db.rows) max_rows)) [
    | inl e ↦ rw e (ground (arith, e), omega arith)
    | inr e ↦
        let resolved = rotate_resolved-bound max_rows db s in
        let waiting = rotate_waiting-bound max_rows (rotate_resolved max_rows db) in
        let first = resolved-gone max_rows db in
        let second = dropped-gone max_rows (rotate_resolved max_rows db) in
        rw e (omega (arith, resolved, waiting), omega (arith, first, second))
  ]
