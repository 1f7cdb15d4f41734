-- ===== src/Cloud/Kept.antt =====
-- No reading is lost between src/storage/database.py and src/cloud/client.py.
use wqm.Prelude.{
  ℕ, ◌≡◌, ◌⊎◌, inl, inr, refl, ◌∙◌, Bool, not, Option, true, false, ◌==◌, ◌&&◌, none, some, List,
  [], ◌∷◌, ◌++◌, arith, contains, length, Bool-cases, leb, ltb,
}
use wqm.Storage.{
  Row, Database, ids, insert_reading, mark_synced, mark_failed_permanent, bump_sync_attempts,
  rotate, rotate_resolved, rotate_waiting,
}
use wqm.Storage.Sound.{
  IsSound, insert_reading-IsSound, mark_synced-IsSound, mark_failed-IsSound, bump-IsSound,
  rotate-IsSound,
}
use wqm.Storage.Pending.{
  has_pending, has_pending-append, has_pending-mark, has_pending-bump, rotate-keeps,
}
use wqm.Cloud.Sync.{
  Reply, declined, accepted, stored_ids, failed_ids, settle, Event, inserts, rotates, sends, hears,
  Uplink, happen, happen_all, Entry, row_at, id_if, is_of, speaks_of, some_speaks_of, decides,
  decided_in, decided_by,
}

module _ {ℓ} {V : Type ℓ} where
  settle-IsSound :
      (reply : Reply) (rows : List (Row V)) (db : Database V)
      → IsSound db
      → IsSound (settle reply rows db).1
  unfolding settle
  settle-IsSound declined rows db s = bump-IsSound (ids rows) db s
  settle-IsSound (accepted none) rows db s = mark_synced-IsSound (ids rows) db s
  settle-IsSound (accepted (some es)) rows db s =
      mark_failed-IsSound (failed_ids es rows) (mark_synced (stored_ids es rows) db)
        (mark_synced-IsSound (stored_ids es rows) db s)

  happen-IsSound : (event : Event V) (u : Uplink V) → IsSound u.db → IsSound (happen event u).db
  unfolding happen
  happen-IsSound (inserts timestamp reading) u s = insert_reading-IsSound timestamp reading u.db s
  happen-IsSound (rotates max_rows) u s = rotate-IsSound max_rows u.db s
  happen-IsSound (sends batch_size) u s = s
  happen-IsSound (hears reply) u s = settle-IsSound reply u.batch u.db s

  -- The flags agree with the states and the ids stay apart, whatever the threads do with the buffer.
  pub happen_all-IsSound :
      (events : List (Event V)) (u : Uplink V) → IsSound u.db → IsSound (happen_all events u).db
  unfolding happen_all
  happen_all-IsSound [] u s = s
  happen_all-IsSound (event ∷ events) u s =
      happen_all-IsSound events (happen event u) (happen-IsSound event u s)

  rotates-on :
      (max_rows : ℕ) (db : Database V) → (rotate max_rows db).1.rotate_pending ≡ db.rotate_pending
  unfolding rotate rotate_waiting rotate_resolved
  rotates-on max_rows db = elim (Bool-cases (leb (length db.rows) max_rows)) [
    | inl e ↦ rw e refl
    | inr e ↦
        rw e
          (elim (Bool-cases
            (db.rotate_pending && ltb max_rows (length (rotate_resolved max_rows db).rows))) [
              | inl f ↦ rw f refl
              | inr f ↦ rw f refl
            ])
  ]

  happen-on :
      (event : Event V) (u : Uplink V) → (happen event u).db.rotate_pending ≡ u.db.rotate_pending
  unfolding happen settle insert_reading bump_sync_attempts mark_synced mark_failed_permanent
  happen-on (inserts timestamp reading) u = refl
  happen-on (rotates max_rows) u = rotates-on max_rows u.db
  happen-on (sends batch_size) u = refl
  happen-on (hears declined) u = refl
  happen-on (hears (accepted none)) u = refl
  happen-on (hears (accepted (some es))) u = refl

  unnamed :
      (n : ℕ) (b : Bool) (o : Option (Row V)) (ns : List ℕ)
      → (b ≡ true → is_of n o ≡ false)
      → contains n ns ≡ false
      → contains n (id_if b o ++ ns) ≡ false
  unfolding contains
  unnamed n b none ns other h = h
  unnamed n false (some r) ns other h = h
  unnamed n true (some r) ns other h =
      let e : (r.id == n) ≡ false = other refl in ground (arith, e, h)

  unspoken :
      (n : ℕ) (es : List Entry) (rows : List (Row V))
      → some_speaks_of n rows es ≡ false
      → (contains n (stored_ids es rows) ≡ false) × (contains n (failed_ids es rows) ≡ false)
  unfolding some_speaks_of stored_ids failed_ids contains
  unspoken n [] rows free = (refl, refl)
  unspoken n (e ∷ es) rows free =
      let later = unspoken n es rows (ground (arith, free)) in
      let here : speaks_of n rows e ≡ false = ground (arith, free) in
      (
        unnamed n e.is_stored (row_at e.index rows) (stored_ids es rows)
            (λ h. ground (arith, here, h)) later.0,
        unnamed n (not e.is_stored && e.has_error) (row_at e.index rows) (failed_ids es rows)
            (λ h. ground (arith, here, h)) later.1,
      )

  settle-keeps :
      (n : ℕ) (reply : Reply) (rows : List (Row V)) (db : Database V)
      → decides n reply rows ≡ false
      → has_pending n db.rows ≡ true
      → has_pending n (settle reply rows db).1.rows ≡ true
  unfolding settle decides bump_sync_attempts mark_synced mark_failed_permanent
  settle-keeps n declined rows db free h = has_pending-bump n (ids rows) db.rows ∙ h
  settle-keeps n (accepted none) rows db free h = has_pending-mark n _ (ids rows) db.rows free ∙ h
  settle-keeps n (accepted (some es)) rows db free h =
      let (stored, failed) = unspoken n es rows free in
      has_pending-mark n _ (failed_ids es rows) _ failed
      ∙ (has_pending-mark n _ (stored_ids es rows) db.rows stored ∙ h)

  happen-keeps :
      (n : ℕ) (event : Event V) (u : Uplink V)
      → IsSound u.db
      → u.db.rotate_pending ≡ false
      → decided_in n event u ≡ false
      → has_pending n u.db.rows ≡ true
      → has_pending n (happen event u).db.rows ≡ true
  unfolding happen decided_in insert_reading
  happen-keeps n (inserts timestamp reading) u s on free h =
      has_pending-append n u.db.rows _ ∙ ground (arith, h)
  happen-keeps n (rotates max_rows) u s on free h = rotate-keeps n max_rows u.db s on h
  happen-keeps n (sends batch_size) u s on free h = h
  happen-keeps n (hears reply) u s on free h = settle-keeps n reply u.batch u.db free h

  -- While the cloud is on, a reading that waits keeps waiting, through insertions, rotations and uploads
  -- in any order, until an answer of the server decides on it: an entry of the results at the place of
  -- its row in the batch says that it is stored or has an error, or the whole batch, in which it is, is
  -- accepted with no results for the rows.
  pub no_reading_lost :
      (events : List (Event V)) (u : Uplink V) (n : ℕ)
      → IsSound u.db
      → u.db.rotate_pending ≡ false
      → has_pending n u.db.rows ≡ true
      → (has_pending n (happen_all events u).db.rows ≡ true) ⊎ (decided_by n events u ≡ true)
  unfolding happen_all decided_by
  no_reading_lost [] u n s on h = inl h
  no_reading_lost (event ∷ events) u n s on h = elim (Bool-cases (decided_in n event u)) [
    | inl e ↦ inr (rw e refl)
    | inr e ↦
        elim (no_reading_lost events (happen event u) n (happen-IsSound event u s)
          (happen-on event u ∙ on) (happen-keeps n event u s on e h)) [
            | inl kept ↦ inl kept
            | inr d ↦ inr (rw (e, d) refl)
          ]
  ]
