-- ===== src/Storage/Sound.antt =====
-- What every operation of src/storage/database.py keeps of the rows.
use wqm.Prelude.{
  ℕ, ◌≡◌, inl, inr, refl, leb, ltb, Bool, false, ◌&&◌, List, [], ◌∷◌, arith, keep, contains, length,
  map, Bool-cases, All, All-append,
}
use wqm.Storage.{
  SyncState, synced, failed_permanent, Row, Database, is_pending, is_resolved, empty,
  insert_reading, mark, mark_synced, mark_failed_permanent, bump, bump_sync_attempts, delete_oldest,
  rotate_resolved, rotate_waiting, rotate,
}
use wqm.Storage.Ids.{Ascending, Ascending-keep, Ascending-map, Ascending-append}

module _ {ℓ} {V : Type ℓ} where
  -- The flag of the first schema says whether the row is resolved.
  abbrev pub Agrees : Row V → Type 0
  Agrees r = r.synced_column ≡ is_resolved r

  -- The flags agree, and the ids grow along the rows, below the next one.
  pub record IsSound (db : Database V) : Type ℓ where
    pub agrees : All Agrees db.rows
    pub ascending : Ascending 1 db.next_id db.rows

  All-map :
      (f : Row V → Row V) (rs : List (Row V))
      → ((r : Row V) → Agrees r → Agrees (f r))
      → All Agrees rs
      → All Agrees (map f rs)
  All-map f [] step h = tt
  All-map f (r ∷ rs) step h = (step r h.0, All-map f rs step h.1)

  All-kept : (p : Row V → Bool) (rs : List (Row V)) → All Agrees rs → All Agrees (keep p rs)
  unfolding keep
  All-kept p [] h = tt
  All-kept p (r ∷ rs) h = elim (Bool-cases (p r)) [
    | inl e ↦ rw e (h.0, All-kept p rs h.1)
    | inr e ↦ rw e (All-kept p rs h.1)
  ]

  pub id-mark : (state : SyncState) (marked : List ℕ) (r : Row V) → (mark state marked r).id ≡ r.id
  unfolding mark
  id-mark state marked r = elim (Bool-cases (contains r.id marked)) [
    | inl e ↦ rw e refl
    | inr e ↦ rw e refl
  ]

  mark-Agrees :
      (state : SyncState) (marked : List ℕ)
      → is_pending state ≡ false
      → (r : Row V) → Agrees r
      → Agrees (mark state marked r)
  unfolding mark
  mark-Agrees state marked over r h = elim (Bool-cases (contains r.id marked)) [
    | inl e ↦ rw (e, over) refl
    | inr e ↦ rw e h
  ]

  mark-IsSound :
      (state : SyncState) (marked : List ℕ) (db : Database V)
      → is_pending state ≡ false
      → IsSound db
      → IsSound (record db { rows = map (mark state marked) db.rows })
  mark-IsSound state marked db over s = record {
    agrees = All-map (mark state marked) db.rows (mark-Agrees state marked over) s.agrees;
    ascending =
        Ascending-map (mark state marked) 1 db.next_id db.rows (id-mark state marked) s.ascending;
  }

  pub mark_synced-IsSound :
      (marked : List ℕ) (db : Database V) → IsSound db → IsSound (mark_synced marked db)
  unfolding mark_synced
  mark_synced-IsSound marked db s = mark-IsSound synced marked db refl s

  pub mark_failed-IsSound :
      (marked : List ℕ) (db : Database V) → IsSound db → IsSound (mark_failed_permanent marked db)
  unfolding mark_failed_permanent
  mark_failed-IsSound marked db s = mark-IsSound failed_permanent marked db refl s

  pub bump-IsSound :
      (bumped : List ℕ) (db : Database V) → IsSound db → IsSound (bump_sync_attempts bumped db)
  unfolding bump_sync_attempts bump
  bump-IsSound bumped db s = record {
    agrees = All-map (bump bumped) db.rows (λ r h. h) s.agrees;
    ascending = Ascending-map (bump bumped) 1 db.next_id db.rows (λ r. refl) s.ascending;
  }

  pub insert_reading-IsSound :
      (timestamp : ℕ) (reading : V) (db : Database V)
      → IsSound db
      → IsSound (insert_reading timestamp reading db).1
  unfolding insert_reading
  insert_reading-IsSound timestamp reading db s = record {
    agrees = All-append Agrees db.rows _ s.agrees (refl, tt);
    ascending = Ascending-append 1 db.next_id db.rows _ refl s.ascending;
  }

  kept-IsSound :
      (p : Row V → Bool) (db : Database V)
      → IsSound db
      → IsSound (record db { rows = keep p db.rows })
  kept-IsSound p db s = record {
    agrees = All-kept p db.rows s.agrees;
    ascending = Ascending-keep p 1 db.next_id db.rows s.ascending;
  }

  rotate_resolved-IsSound :
      (max_rows : ℕ) (db : Database V) → IsSound db → IsSound (rotate_resolved max_rows db)
  unfolding rotate_resolved delete_oldest
  rotate_resolved-IsSound max_rows db s = kept-IsSound _ db s

  rotate_waiting-IsSound :
      (max_rows : ℕ) (db : Database V) → IsSound db → IsSound (rotate_waiting max_rows db)
  unfolding rotate_waiting delete_oldest
  rotate_waiting-IsSound max_rows db s =
      elim (Bool-cases (db.rotate_pending && ltb max_rows (length db.rows))) [
        | inl e ↦ rw e (kept-IsSound _ db s)
        | inr e ↦ rw e s
      ]

  pub rotate-IsSound :
      (max_rows : ℕ) (db : Database V) → IsSound db → IsSound (rotate max_rows db).1
  unfolding rotate
  rotate-IsSound max_rows db s = elim (Bool-cases (leb (length db.rows) max_rows)) [
    | inl e ↦ rw e s
    | inr e ↦ rw e (
        rotate_waiting-IsSound max_rows (rotate_resolved max_rows db)
          (rotate_resolved-IsSound max_rows db s))
  ]

  pub empty-IsSound : IsSound (empty {V = V})
  empty-IsSound = record { agrees = tt; ascending = omega arith }
