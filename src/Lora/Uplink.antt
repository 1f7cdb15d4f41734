-- ===== src/Lora/Uplink.antt =====
-- What `send_uplink` of src/radio/lorawan.py gives to the radio, and what it has saved before.
use wqm.Prelude.{
  ℕ, suc, ◌+◌, ◌≤◌, ◌≡◌, refl, ap, ◌∙◌, ◌⊎◌, Bool, true, false, not, Option, none, some, List, [],
  ◌∷◌, ◌++◌, arith, inl, inr, Bool-cases, ltb, length, if◌then◌else◌,
}
use wqm.Lora.{Bytes, Session, Mac, no_session, forget_session, reset_mac_params}
use wqm.Lora.Commands.{handle_mac_commands}
use wqm.Lora.Sound.{IsSoundAt, commands-IsSoundAt}
use wqm.Lora.Replay.{if-same, queue_answer-same, commands-same, process_downlink-keeps}
use wqm.Lora.Link.{
  Hook, unset, set, Effect, hooked, aired, persist, Uplink, probe, count_uplink, is_dead,
  max_payload, consume_counter, after_tx, transmit, send_checked, send_uplink, build_frame,
  process_downlink, accept_frame,
}

probe-same : (m : Mac) → (probe m).session ≡ m.session
unfolding probe
probe-same m = if-same _ m _ m.session refl (queue_answer-same _ _ m.session refl)

abbrev pub up_to : Session → Session
up_to s = record s { fcnt_up = suc s.fcnt_up }

forgotten : (m : Mac) → (forget_session m).session ≡ no_session
unfolding forget_session reset_mac_params
forgotten m = refl

counted : (m : Mac) → (count_uplink m).session ≡ m.session
unfolding count_uplink
counted m = refl

pub if-Uplink : (P : Uplink → Type 0) (b : Bool) (x y : Uplink) → P x → P y → P (if b then x else y)
if-Uplink P true x y h k = h
if-Uplink P false x y h k = k

-- The frames that the radio was given.
unfoldable pub frames : List Effect → List Bytes
frames [] = []
frames (hooked s saves ∷ es) = frames es
frames (aired frame ∷ es) = frame ∷ frames es

-- The session goes to the hook, if there is one, before the frame goes to the radio.
unfoldable pub saved_first : Hook → Session → Bytes → List Effect
saved_first unset s frame = aired frame ∷ []
saved_first (set true) s frame = hooked s true ∷ aired frame ∷ []
saved_first (set false) s frame = hooked s false ∷ aired frame ∷ []

persist-saved_first :
    (hook : Hook) (s : Session) (frame : Bytes)
    → persist hook s ++ aired frame ∷ [] ≡ saved_first hook s frame
unfolding persist saved_first
persist-saved_first unset s frame = refl
persist-saved_first (set true) s frame = refl
persist-saved_first (set false) s frame = refl

no_frames : (hook : Hook) (s : Session) → frames (persist hook s) ≡ []
unfolding frames persist
no_frames unset s = refl
no_frames (set saves) s = refl

silence : frames [] ≡ []
unfolding frames
silence = refl

module _ (cmac aes : Bytes → Bytes → Bytes) where
  -- A downlink leaves the uplink counter as it is.
  up-same :
      (n : ℕ) (bytes : Bytes) (m : Mac)
      → m.session.fcnt_up ≡ n
      → (handle_mac_commands bytes m).session.fcnt_up ≡ n
  up-same n bytes m h = ap (λ s. s.fcnt_up) (commands-same bytes m) ∙ h

  process_downlink-up :
      (frame : Bytes) (m : Mac)
      → (process_downlink cmac aes frame m).1.session.fcnt_up ≡ m.session.fcnt_up
  unfolding accept_frame
  process_downlink-up frame m =
      process_downlink-keeps cmac aes (λ m'. m'.session.fcnt_up ≡ m.session.fcnt_up)
        (up-same m.session.fcnt_up) frame m (λ _. refl) (λ _. refl)

  after_tx-up :
      (sent : Bool) (received : Option Bytes) (m : Mac)
      → (after_tx cmac aes sent received m).1.session.fcnt_up ≡ m.session.fcnt_up
  unfolding after_tx
  after_tx-up false received m = refl
  after_tx-up true none m = refl
  after_tx-up true (some frame) m = process_downlink-up frame m

  -- No frame goes out, and nothing comes back; the session is kept, or it is forgotten.
  abbrev pub IsSilent : Mac → Uplink → Type 0
  IsSilent m u =
      (frames u.trace ≡ [])
      × (u.answer ≡ none)
      × ((u.mac.session ≡ m.session) ⊎ (u.mac.session ≡ no_session))

  -- One frame goes out, on the counter of `m`, after the hook had the session with the next counter.
  abbrev pub Airs : Hook → Bytes → ℕ → Bool → Mac → Uplink → Type 0
  Airs hook payload fport confirmed m u =
      (u.trace
        ≡ saved_first hook (up_to m.session)
            (build_frame cmac aes payload fport confirmed (probe (count_uplink m))))
      × (u.mac.session.fcnt_up ≡ suc m.session.fcnt_up)
      × (length payload + length (probe (count_uplink m)).pending_fopts
          ≤ max_payload (probe (count_uplink m)).sf)

  consume-up : (m : Mac) → (consume_counter m).session ≡ up_to m.session
  unfolding consume_counter
  consume-up m = refl

  checked-cases :
      (hook : Hook) (payload : Bytes) (fport : ℕ) (confirmed sent : Bool) (received : Option Bytes)
      (m : Mac)
      → (probe (count_uplink m)).session ≡ m.session
      → IsSilent m (
          send_checked cmac aes hook payload fport confirmed sent received (probe (count_uplink m)))
        ⊎ Airs hook payload fport confirmed m (
            send_checked cmac aes hook payload fport confirmed sent received
              (probe (count_uplink m)))
  unfolding send_checked transmit
  checked-cases hook payload fport confirmed sent received m e =
      elim (Bool-cases (
        ltb (max_payload (probe (count_uplink m)).sf)
          (length payload + length (probe (count_uplink m)).pending_fopts))) [
            | inl long ↦ simp long (inl (silence, refl, inl e))
            | inr fits ↦ simp fits (
                inr (
                  persist-saved_first hook _ _
                      ∙ ap
                          (λ s.
                            saved_first hook s (
                              build_frame cmac aes payload fport confirmed
                                (probe (count_uplink m))))
                          (consume-up (probe (count_uplink m)) ∙ ap up_to e),
                  after_tx-up sent received (consume_counter (probe (count_uplink m)))
                      ∙ ap (λ s. s.fcnt_up) (consume-up (probe (count_uplink m)) ∙ ap up_to e),
                  ground arith,
                ))
          ]

  -- Every uplink either is silent, with no frame on the air and the session kept or forgotten, or gives
  -- the radio one frame that fits the data rate, built on the present counter. Then the hook that saves
  -- the session, where there is one, is called at the session with the next counter before the radio
  -- has the frame; if it raises, the frame goes out all the same. Whatever the hook and the radio did
  -- and brought back, the counter is then one more.
  pub counter_saved :
      (hook : Hook) (payload : Bytes) (fport : ℕ) (confirmed sent : Bool) (received : Option Bytes)
      (m : Mac)
      → IsSilent m (send_uplink cmac aes hook payload fport confirmed sent received m)
        ⊎ Airs hook payload fport confirmed m
            (send_uplink cmac aes hook payload fport confirmed sent received m)
  unfolding send_uplink
  counter_saved hook payload fport confirmed sent received m =
      if-Uplink (λ u. IsSilent m u ⊎ Airs hook payload fport confirmed m u) (not m.session.joined) _
        _ (inl (silence, refl, inl refl))
        (if-Uplink (λ u. IsSilent m u ⊎ Airs hook payload fport confirmed m u)
          (is_dead (count_uplink m)) _ _
          (inl (no_frames hook _, refl, inr (forgotten (count_uplink m))))
          (checked-cases hook payload fport confirmed sent received m
            (probe-same (count_uplink m) ∙ counted m)))

  -- A downlink, accepted or not, keeps the parameters in their ranges.
  pub downlink-IsSoundAt :
      (top : ℕ)
      → 3 ≤ top
      → (frame : Bytes) (m : Mac) → IsSoundAt top m
      → IsSoundAt top (process_downlink cmac aes frame m).1
  unfolding accept_frame
  downlink-IsSoundAt top wide frame m h =
      process_downlink-keeps cmac aes (IsSoundAt top) (commands-IsSoundAt top wide) frame m (λ _. h)
        (λ _. h)
