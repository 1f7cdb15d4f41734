-- ===== src/Lora/Replay.antt =====
-- The frame counters of src/radio/lorawan.py: no downlink is accepted twice, and no uplink goes out
-- on a counter that was not saved before.
use mathlib.Core.Path.{subst}
use wqm.Prelude.{
  ℕ, suc, ◌%◌, ◌≤◌, ◌<◌, ◌≡◌, refl, Bool, true, false, Option, none, some, List, [], ◌∷◌, arith,
  inl, inr, Bool-cases, ◌==◌, if◌then◌else◌, get_or, ◌/◌, sym,
}
use wqm.Lora.{Bytes, Session, Mac, queue_answer}
use wqm.Lora.Commands.{
  byte, handle_link_adr, handle_rx_param, handle_rx_timing, handle_mac_command, try_command,
  handle_mac_commands, apply_link_adr,
}
use wqm.Lora.Sound.{commands_keep}
use wqm.Lora.Link.{
  Received, reconstruct_fcnt_down, frame_fcnt, is_verified, accept_frame, open_payload,
  process_downlink,
}

pub if-same :
    (b : Bool) (m m' : Mac) (s : Session)
    → m.session ≡ s
    → m'.session ≡ s
    → (if b then m' else m).session ≡ s
if-same true m m' s h k = k
if-same false m m' s h k = h

pub queue_answer-same :
    (answer : Bytes) (m : Mac) (s : Session) → m.session ≡ s → (queue_answer answer m).session ≡ s
unfolding queue_answer
queue_answer-same answer m s h = if-same _ m _ s h h

or_same :
    (dr power : ℕ) (r : Option (List Bool × Bool)) (m : Mac) (s : Session)
    → m.session ≡ s
    → (get_or
        (elim r [ none ↦ none | some found ↦ some (apply_link_adr dr power found m) ])
        m).session
      ≡ s
or_same dr power none m s h = h
or_same dr power (some found) m s h = queue_answer-same _ _ s (if-same _ m _ s h h)

if_some-same :
    (b : Bool) (x y : Option Mac) (m : Mac) (s : Session)
    → (get_or x m).session ≡ s
    → (get_or y m).session ≡ s
    → (get_or (if b then x else y) m).session ≡ s
if_some-same true x y m s h k = h
if_some-same false x y m s h k = k

-- No command touches the session.
try_command-same :
    (s : Session) (cid : ℕ) (args : Bytes) (m : Mac)
    → m.session ≡ s
    → (try_command cid args m).session ≡ s
unfolding try_command handle_mac_command handle_link_adr handle_rx_param handle_rx_timing
try_command-same s cid args m h = if_some-same (cid == 2) _ _ m s h (
    if_some-same (cid == 3) _ _ m s (or_same (byte args 0 / 16) (byte args 0 % 16) _ m s h) (
      if_some-same (cid == 4) _ _ m s (queue_answer-same _ m s h) (
        if_some-same (cid == 5) _ _ m s (queue_answer-same _ _ s (if-same _ m _ s h h)) (
          if_some-same (cid == 6) _ _ m s (queue_answer-same _ m s h)
            (if_some-same (cid == 8) _ _ m s (queue_answer-same _ _ s h) h)))))

pub commands-same : (bytes : Bytes) (m : Mac) → (handle_mac_commands bytes m).session ≡ m.session
unfolding handle_mac_commands
commands-same bytes m =
    commands_keep (λ m'. m'.session ≡ m.session) (try_command-same m.session) 0 bytes m refl

if-answer :
    (P : Mac → Type 0) (b : Bool) (x y : Received) → P x.1 → P y.1 → P (if b then x else y).1
if-answer P true x y h k = h
if-answer P false x y h k = k

if-mac : (P : Mac → Type 0) (b : Bool) (x y : Mac) → P x → P y → P (if b then x else y)
if-mac P true x y h k = h
if-mac P false x y h k = k

reconstruct-above :
    (expected fcnt16 : ℕ) → expected < 4294967296 → expected ≤ reconstruct_fcnt_down expected fcnt16
unfolding reconstruct_fcnt_down
reconstruct-above expected fcnt16 h = ground arith

frame_fcnt-above :
    (frame : Bytes) (m : Mac)
    → m.session.fcnt_down < 4294967296
    → m.session.fcnt_down ≤ frame_fcnt frame m
unfolding frame_fcnt
frame_fcnt-above frame m h = reconstruct-above m.session.fcnt_down _ h

accept_frame-above :
    (n : ℕ) (frame : Bytes) (m : Mac)
    → m.session.fcnt_down < 4294967296
    → n ≤ m.session.fcnt_down
    → n ≤ (accept_frame (byte frame 0) (frame_fcnt frame m) m).session.fcnt_down
unfolding accept_frame
accept_frame-above n frame m h k = omega (arith, frame_fcnt-above frame m h, k)

module _ (cmac aes : Bytes → Bytes → Bytes) where
  open_payload-keeps :
      (P : Mac → Type 0)
      → ((bytes : Bytes) (m : Mac) → P m → P (handle_mac_commands bytes m))
      → (frame : Bytes) (fcnt : ℕ) (m : Mac) → P m
      → P (open_payload cmac aes frame fcnt m).1
  unfolding open_payload
  open_payload-keeps P h frame fcnt m p = if-answer P _ _ _ p (if-mac P _ _ m (h _ m p) p)

  -- What the commands and the acceptance keep, a downlink keeps.
  pub process_downlink-keeps :
      (P : Mac → Type 0)
      → ((bytes : Bytes) (m : Mac) → P m → P (handle_mac_commands bytes m))
      → (frame : Bytes) (m : Mac)
      → (is_verified cmac aes frame m ≡ true
          → P (accept_frame (byte frame 0) (frame_fcnt frame m) m))
      → (is_verified cmac aes frame m ≡ false → P m)
      → P (process_downlink cmac aes frame m).1
  unfolding process_downlink
  process_downlink-keeps P h frame m yes_p no_p = elim (Bool-cases (is_verified cmac aes frame m)) [
    | inl e ↦ rw e (open_payload-keeps P h frame (frame_fcnt frame m) _ (h _ _ (yes_p e)))
    | inr e ↦ rw e (no_p e)
  ]

  -- The downlinks of a session, one after the other.
  unfoldable pub receive_all : List Bytes → Mac → Mac
  receive_all [] m = m
  receive_all (frame ∷ frames) m = receive_all frames (process_downlink cmac aes frame m).1

  -- The counter has 32 bits all the way.
  unfoldable pub StaysBelow : List Bytes → Mac → Type 0
  StaysBelow [] m = m.session.fcnt_down < 4294967296
  StaysBelow (frame ∷ frames) m =
      (m.session.fcnt_down < 4294967296) × StaysBelow frames (process_downlink cmac aes frame m).1

  down-same :
      (n : ℕ) (bytes : Bytes) (m : Mac)
      → n ≤ m.session.fcnt_down
      → n ≤ (handle_mac_commands bytes m).session.fcnt_down
  down-same n bytes m h = subst (λ s. n ≤ s.fcnt_down) (sym (commands-same bytes m)) h

  process_downlink-above :
      (n : ℕ) (frame : Bytes) (m : Mac)
      → m.session.fcnt_down < 4294967296
      → n ≤ m.session.fcnt_down
      → n ≤ (process_downlink cmac aes frame m).1.session.fcnt_down
  process_downlink-above n frame m h k =
      process_downlink-keeps (λ m'. n ≤ m'.session.fcnt_down) (down-same n) frame m
        (λ _. accept_frame-above n frame m h k) (λ _. k)

  process_downlink-past :
      (frame : Bytes) (m : Mac)
      → is_verified cmac aes frame m ≡ true
      → suc (frame_fcnt frame m) ≤ (process_downlink cmac aes frame m).1.session.fcnt_down
  unfolding accept_frame
  process_downlink-past frame m e =
      process_downlink-keeps (λ m'. suc (frame_fcnt frame m) ≤ m'.session.fcnt_down)
        (down-same (suc (frame_fcnt frame m))) frame m (λ _. omega arith)
        (λ wrong. absurd (ground (arith, e, wrong)))

  receive_all-above :
      (n : ℕ) (frames : List Bytes) (later : Bytes) (m : Mac)
      → StaysBelow frames m
      → n ≤ m.session.fcnt_down
      → n ≤ frame_fcnt later (receive_all frames m)
  unfolding receive_all StaysBelow
  receive_all-above n [] later m h k = omega (arith, frame_fcnt-above later m h, k)
  receive_all-above n (frame ∷ frames) later m h k =
      receive_all-above n frames later (process_downlink cmac aes frame m).1 h.1
        (process_downlink-above n frame m h.0 k)

  -- No replay: once a downlink is accepted, then after any further frames any later frame is read at a
  -- greater counter, so that its MIC is never compared at a counter that was accepted before. The
  -- counter is to stay below 2^32.
  pub no_replay :
      (first later : Bytes) (between : List Bytes) (m : Mac)
      → is_verified cmac aes first m ≡ true
      → StaysBelow (first ∷ between) m
      → frame_fcnt first m < frame_fcnt later (receive_all (first ∷ between) m)
  unfolding receive_all StaysBelow
  no_replay first later between m e h =
      receive_all-above (suc (frame_fcnt first m)) between later
        (process_downlink cmac aes first m).1 h.1 (process_downlink-past first m e)
