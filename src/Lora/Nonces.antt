-- ===== src/Lora/Nonces.antt =====
-- The two nonces of the join in src/radio/lorawan.py: an AppNonce is accepted once, and a DevNonce is
-- sent once.
use mathlib.Core.Path.{subst}
use wqm.Prelude.{
  get_or, ℕ, suc, ◌+◌, ◌%◌, ◌<◌, ◌≡◌, ◌≢◌, ◌⊎◌, refl, sym, ap, ◌∙◌, Bool, true, false, Option, none,
  some, List, [], ◌∷◌, ◌++◌, arith, length, inl, inr, Bool-cases, contains,
}
use wqm.Lora.{Bytes, Mac, reset_mac_params}
use wqm.Lora.Link.{body_of}
use wqm.Lora.Join.{
  Device, next_counter, next_dev_nonce, last_nonces, app_nonce_of, accept_text, is_accept,
  apply_settings, apply_cf_list, apply_accept, process_join_accept, after_request, join,
}
use wqm.Lora.Held.{Held, Held-contains, Held-next, Held-first, Held-later}

-- One call of `join`: the random bytes, whether the request was sent, and what came back.
pub record Attempt : Type 0 where
  pub entropy : ℕ
  pub sent : Bool
  pub accept : Option Bytes

false-true : false ≡ true → ⊥
false-true h = cc

-- What a JoinAccept that is applied leaves of the two lists of nonces.
apply_accept-nonces :
    (cmac aes : Bytes → Bytes → Bytes) (device : Device) (body : Bytes) (m : Mac)
    → ((apply_accept cmac aes device body m).recent_app_nonces
        ≡ last_nonces (m.recent_app_nonces ++ app_nonce_of body ∷ []))
      × ((apply_accept cmac aes device body m).dev_nonce_counter ≡ m.dev_nonce_counter)
unfolding apply_accept apply_cf_list apply_settings reset_mac_params
apply_accept-nonces cmac aes device body m = (ground arith, ground arith)

some_same : (x y : ℕ) → some x ≡ some y → x ≡ y
some_same x y h = ap (λ o. get_or o x) h

moved_on : (c n : ℕ) → c < 65536 → n < 65535 → ((c + n) % 65536 + 1) % 65536 ≢ c
moved_on c n small few = λ same. omega arith

module _ (cmac aes : Bytes → Bytes → Bytes) (device : Device) where
  unfoldable pub join_all : List Attempt → Mac → Mac
  join_all [] m = m
  join_all (a ∷ attempts) m =
      join_all attempts (join cmac aes device a.entropy a.sent a.accept m).mac

  -- A frame is refused, or its AppNonce is the last one then.
  accept-cases :
      (frame : Bytes) (m : Mac)
      → (process_join_accept cmac aes device frame m ≡ (false, m))
        ⊎ ((is_accept cmac aes device frame ≡ true)
            × (process_join_accept cmac aes device frame m ≡ (
              true,
              apply_accept cmac aes device (body_of (accept_text cmac aes device frame)) m,
            )))
  unfolding process_join_accept
  accept-cases frame m = elim (Bool-cases (is_accept cmac aes device frame)) [
    | inr bad ↦ inl (rw bad)
    | inl good ↦
        elim (Bool-cases (
          contains (app_nonce_of (body_of (accept_text cmac aes device frame)))
            m.recent_app_nonces)) [
              | inl seen ↦ inl (rw (good, seen))
              | inr new ↦ inr (good, rw (good, new))
            ]
  ]

  -- What a join does to the nonces: the counter moves, and the AppNonces stay or gain one.
  request-nonces :
      (sent : Bool) (accept : Option Bytes) (m : Mac)
      → let m' = (after_request cmac aes device sent accept m).1 in
        ((m'.recent_app_nonces ≡ m.recent_app_nonces)
          ⊎ ((x : ℕ) × (m'.recent_app_nonces ≡ last_nonces (m.recent_app_nonces ++ x ∷ []))))
        × (m'.dev_nonce_counter ≡ m.dev_nonce_counter)
  request-nonces false accept m = (inl refl, refl)
  request-nonces true none m = (inl refl, refl)
  request-nonces true (some frame) m = elim (accept-cases frame m) [
    | inl refused ↦ (
      inl (ap (λ (r : Bool × Mac). r.1.recent_app_nonces) refused),
      ap (λ (r : Bool × Mac). r.1.dev_nonce_counter) refused,
    )
    | inr (good, taken) ↦
        let body = body_of (accept_text cmac aes device frame) in
        let nonces = apply_accept-nonces cmac aes device body m in
        (
          inr (app_nonce_of body, ap (λ (r : Bool × Mac). r.1.recent_app_nonces) taken ∙ nonces.0),
          ap (λ (r : Bool × Mac). r.1.dev_nonce_counter) taken ∙ nonces.1,
        )
  ]

  join-nonces :
      (a : Attempt) (m : Mac)
      → let m' = (join cmac aes device a.entropy a.sent a.accept m).mac in
        ((m'.recent_app_nonces ≡ m.recent_app_nonces)
          ⊎ ((x : ℕ) × (m'.recent_app_nonces ≡ last_nonces (m.recent_app_nonces ++ x ∷ []))))
        × (m'.dev_nonce_counter ≡ some (next_counter a.entropy m.dev_nonce_counter))
  unfolding join next_dev_nonce
  join-nonces a m = request-nonces a.sent a.accept (next_dev_nonce a.entropy m)

  join_all-Held :
      (n k : ℕ) (attempts : List Attempt) (m : Mac)
      → k + length attempts < 8
      → Held n k m.recent_app_nonces
      → contains n (join_all attempts m).recent_app_nonces ≡ true
  unfolding join_all
  join_all-Held n k [] m few h = Held-contains n k m.recent_app_nonces h
  join_all-Held n k (a ∷ attempts) m few h = elim (join-nonces a m).0 [
    | inl same ↦
        join_all-Held n (suc k) attempts _ (omega arith)
          (subst (Held n (suc k)) (sym same) (Held-later n k _ h))
    | inr (x, more) ↦
        join_all-Held n (suc k) attempts _ (omega arith)
          (subst (Held n (suc k)) (sym more) (Held-next n k x _ (omega arith) h))
  ]

  seen_refused :
      (frame : Bytes) (m : Mac)
      → contains (app_nonce_of (body_of (accept_text cmac aes device frame))) m.recent_app_nonces
        ≡ true
      → process_join_accept cmac aes device frame m ≡ (false, m)
  unfolding process_join_accept
  seen_refused frame m seen = elim (Bool-cases (is_accept cmac aes device frame)) [
    | inr bad ↦ rw bad
    | inl good ↦ rw (good, seen)
  ]

  -- A JoinAccept that was accepted is refused when it comes again, and changes nothing, after any
  -- seven or fewer further joins, whatever came back in them.
  pub replay_refused :
      (frame : Bytes) (attempts : List Attempt) (m : Mac)
      → (process_join_accept cmac aes device frame m).0 ≡ true
      → length attempts < 8
      → let m' = join_all attempts (process_join_accept cmac aes device frame m).1 in
        process_join_accept cmac aes device frame m' ≡ (false, m')
  replay_refused frame attempts m ok few = elim (accept-cases frame m) [
    | inl refused ↦ absurd (false-true (sym (ap (λ (r : Bool × Mac). r.0) refused) ∙ ok))
    | inr (good, taken) ↦
        let body = body_of (accept_text cmac aes device frame) in
        let m1 = (process_join_accept cmac aes device frame m).1 in
        let nonces : m1.recent_app_nonces
            ≡ last_nonces (m.recent_app_nonces ++ app_nonce_of body ∷ []) =
          ap (λ (r : Bool × Mac). r.1.recent_app_nonces) taken
          ∙ (apply_accept-nonces cmac aes device body m).0 in
        seen_refused frame (join_all attempts m1) (
          join_all-Held (app_nonce_of body) 0 attempts m1 (omega arith) (
            subst (Held (app_nonce_of body) 0) (sym nonces)
              (Held-first (app_nonce_of body) m.recent_app_nonces)))
  ]

  counter-join_all :
      (attempts : List Attempt) (m : Mac) (c : ℕ)
      → m.dev_nonce_counter ≡ some c
      → c < 65536
      → (join_all attempts m).dev_nonce_counter ≡ some ((c + length attempts) % 65536)
  unfolding join_all
  counter-join_all [] m c e h = e ∙ ap some (omega arith)
  counter-join_all (a ∷ attempts) m c e h =
      counter-join_all attempts _ ((c + 1) % 65536)
        ((join-nonces a m).1 ∙ ap (λ o. some (next_counter a.entropy o)) e) (omega arith)
      ∙ ap some (omega arith)

  -- No DevNonce is sent twice within 65536 joins: the counters that two joins save before they send
  -- differ, if fewer than 65535 joins lie between them and the random bytes have 16 bits.
  pub nonces_differ :
      (first later : Attempt) (attempts : List Attempt) (m : Mac) (c : ℕ)
      → c < 65536
      → next_counter first.entropy m.dev_nonce_counter ≡ c
      → length attempts < 65535
      → let m1 = (join cmac aes device first.entropy first.sent first.accept m).mac in
        let m2 = join_all attempts m1 in
        (join cmac aes device later.entropy later.sent later.accept m2).saved
        ≢ (join cmac aes device first.entropy first.sent first.accept m).saved
  unfolding join next_dev_nonce
  nonces_differ first later attempts m c small e few =
      let m1 = (join cmac aes device first.entropy first.sent first.accept m).mac in
      let saved = join_all attempts m1 in
      let after : saved.dev_nonce_counter ≡ some ((c + length attempts) % 65536) =
        counter-join_all attempts m1 c ((join-nonces first m).1 ∙ ap some e) small in
      λ same. moved_on c (length attempts) small few (
        some_same _ _
          (sym (ap (λ o. some (next_counter later.entropy o)) after) ∙ same ∙ ap some e))
