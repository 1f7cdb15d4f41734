-- ===== src/Lora/Link.antt =====
-- Uplinks and downlinks of src/radio/lorawan.py. The cryptography is a parameter, and so is what the
-- radio does: whether it sent the frame and the frame that its receive windows brought. The choice of
-- a channel, which is random, and the log are left out.
use wqm.Prelude.{
  ℕ, suc, ◌+◌, ◌-◌, ◌*◌, ◌/◌, ◌%◌, ◌≤◌, ◌<◌, ◌≡◌, Bool, true, false, ◌&&◌, ◌||◌, not, Option, none,
  some, List, [], ◌∷◌, ◌++◌, arith, leb, ltb, ◌==◌, if◌then◌else◌, length, take, drop,
}
use wqm.Lora.{Bytes, Session, Mac, forget_session, queue_answer, max_fopts_len}
use wqm.Lora.Commands.{byte, handle_mac_commands}
use wqm.Lora.Frames.{uplink_mic, downlink_mic, encrypt_payload, pack16}

unfoldable pub same_bytes : Bytes → Bytes → Bool
same_bytes [] [] = true
same_bytes (x ∷ xs) (y ∷ ys) = (x == y) && same_bytes xs ys
same_bytes xs ys = false

-- `_reconstruct_fcnt_down`, at the counter that is expected
unfoldable pub reconstruct_fcnt_down : ℕ → ℕ → ℕ
reconstruct_fcnt_down expected fcnt16 =
    let candidate = expected % 4294967296 / 65536 * 65536 + fcnt16 in
    if ltb candidate expected then candidate + 65536 else candidate

-- While the counter has 32 bits: the number that is found is not below the expected one, has the 16
-- bits that were on the air, and is the only such number within 65536 of it.
pub reconstruct_nearest :
    (expected fcnt16 : ℕ)
    → expected < 4294967296
    → fcnt16 < 65536
    → (expected ≤ reconstruct_fcnt_down expected fcnt16)
      × (reconstruct_fcnt_down expected fcnt16 % 65536 ≡ fcnt16)
      × ((n : ℕ)
          → expected ≤ n
          → n < expected + 65536
          → n % 65536 ≡ fcnt16
          → n ≡ reconstruct_fcnt_down expected fcnt16)
unfolding reconstruct_fcnt_down
reconstruct_nearest expected fcnt16 h k = (ground arith, ground arith, λ n low high e. ground arith)

-- `data[:-4]` and `data[-4:]`
abbrev pub body_of : Bytes → Bytes
body_of frame = take (length frame - 4) frame

abbrev pub mic_of : Bytes → Bytes
mic_of frame = drop (length frame - 4) frame

-- What is returned, and the MAC after it.
abbrev pub Received : Type 0
Received = Option Bytes × Mac

unfoldable pub accept_frame : ℕ → ℕ → Mac → Mac
accept_frame mhdr fcnt m = record m {
  session = record (m.session) { fcnt_down = fcnt + 1 };
  uplinks_since_downlink = 0;
  unanswered_link_checks = 0;
  ack_pending = if mhdr == 160 then true else m.ack_pending;
}

unfoldable pub frame_fcnt : Bytes → Mac → ℕ
frame_fcnt frame m = reconstruct_fcnt_down m.session.fcnt_down (byte frame 6 + byte frame 7 * 256)

abbrev header_len : Bytes → ℕ
header_len frame = 8 + byte frame 5 % 16

module _ (cmac aes : Bytes → Bytes → Bytes) where
  -- The checks before the counter advances.
  unfoldable pub is_verified : Bytes → Mac → Bool
  is_verified frame m =
      not (ltb (length frame) 12)
      && (byte frame 0 == 96 || byte frame 0 == 160)
      && same_bytes (take 4 (drop 1 frame)) m.session.dev_addr
      && same_bytes
          (downlink_mic cmac m.session.nwk_skey (take 4 (drop 1 frame)) (frame_fcnt frame m)
            (body_of frame))
          (mic_of frame)

  -- After the MAC commands of the header.
  unfoldable pub open_payload : Bytes → ℕ → Mac → Received
  open_payload frame fcnt m =
      if leb (length (body_of frame)) (header_len frame)
      then (none, m)
      else (let fport = byte frame (header_len frame) in
          let key = if fport == 0 then m.session.nwk_skey else m.session.app_skey in
          let payload =
            encrypt_payload aes key (take 4 (drop 1 frame)) fcnt
              (drop (header_len frame + 1) (body_of frame)) 1 in
          (some (fport ∷ payload), if fport == 0 then handle_mac_commands payload m else m))

  -- `_process_downlink`
  unfoldable pub process_downlink : Bytes → Mac → Received
  process_downlink frame m =
      if is_verified frame m
      then open_payload frame (frame_fcnt frame m) (
          handle_mac_commands (take (byte frame 5 % 16) (drop 8 frame))
            (accept_frame (byte frame 0) (frame_fcnt frame m) m))
      else (none, m)

-- The hook that saves the session: there is none, or it saves or raises.
pub data Hook : Type 0 where
  unset : Hook
  set : Bool → Hook

-- What others see of a call: the hook was called at a session, and whether it saved that; the radio
-- was given a frame.
pub data Effect : Type 0 where
  hooked : Session → Bool → Effect
  aired : Bytes → Effect

-- `_persist`: an exception of the hook is swallowed.
unfoldable pub persist : Hook → Session → List Effect
persist unset s = []
persist (set saves) s = hooked s saves ∷ []

-- What one call of `send_uplink` does: its answer, the MAC after it, and what it did on the way, in
-- order.
pub record Uplink : Type 0 where
  pub answer : Option Bytes
  pub mac : Mac
  pub trace : List Effect

-- MAX_PAYLOAD_BY_DR at `uplink_dr`, by the spreading factor
unfoldable pub max_payload : ℕ → ℕ
max_payload sf = if sf == 10 then 11 else if sf == 9 then 53 else if sf == 8 then 125 else 242

-- After the counter went up: whether the session is to be forgotten.
unfoldable pub is_dead : Mac → Bool
is_dead m = m.uplinks_since_downlink % 24 == 0 && leb 3 m.unanswered_link_checks

unfoldable pub probe : Mac → Mac
probe m =
    if m.uplinks_since_downlink % 24 == 0
    then queue_answer (2 ∷ []) (record m { unanswered_link_checks = suc m.unanswered_link_checks })
    else m

unfoldable pub count_uplink : Mac → Mac
count_uplink m = record m { uplinks_since_downlink = suc m.uplinks_since_downlink }

unfoldable pub consume_counter : Mac → Mac
consume_counter m = record m {
  session = record (m.session) { fcnt_up = suc m.session.fcnt_up };
  pending_fopts = [];
  ack_pending = false;
}

module _ (cmac aes : Bytes → Bytes → Bytes) where
  -- MHDR, DevAddr, FCtrl, FCnt, FOpts, FPort and the payload.
  unfoldable pub frame_body : Bytes → ℕ → Bool → Mac → Bytes
  frame_body payload fport confirmed m =
      let fopts = take max_fopts_len m.pending_fopts in
      let key = if fport == 0 then m.session.nwk_skey else m.session.app_skey in
      (if confirmed then 128 else 64)
      ∷ (m.session.dev_addr
          ++ (((if m.ack_pending then 32 else 0) + length fopts)
              ∷ (pack16 m.session.fcnt_up
                  ++ (fopts
                      ++ (fport
                          ∷ encrypt_payload aes key m.session.dev_addr m.session.fcnt_up payload
                              0)))))

  unfoldable pub build_frame : Bytes → ℕ → Bool → Mac → Bytes
  build_frame payload fport confirmed m =
      frame_body payload fport confirmed m
      ++ uplink_mic cmac m.session.nwk_skey m.session.dev_addr m.session.fcnt_up
          (frame_body payload fport confirmed m)

  -- The two windows: nothing after a failed transmission.
  unfoldable pub after_tx : Bool → Option Bytes → Mac → Received
  after_tx sent received m =
      if sent
      then elim received [ none ↦ (none, m) | some frame ↦ process_downlink cmac aes frame m ]
      else (none, m)

  unfoldable pub transmit : Hook → Bytes → ℕ → Bool → Bool → Option Bytes → Mac → Uplink
  transmit hook payload fport confirmed sent received m = record {
    answer = (after_tx sent received (consume_counter m)).0;
    mac = (after_tx sent received (consume_counter m)).1;
    trace =
        persist hook (consume_counter m).session
        ++ aired (build_frame payload fport confirmed m) ∷ [];
  }

  unfoldable pub send_checked : Hook → Bytes → ℕ → Bool → Bool → Option Bytes → Mac → Uplink
  send_checked hook payload fport confirmed sent received m =
      if ltb (max_payload m.sf) (length payload + length m.pending_fopts)
      then record { answer = none; mac = m; trace = [] }
      else transmit hook payload fport confirmed sent received m

  unfoldable pub send_uplink : Hook → Bytes → ℕ → Bool → Bool → Option Bytes → Mac → Uplink
  send_uplink hook payload fport confirmed sent received m =
      if not m.session.joined
      then record { answer = none; mac = m; trace = [] }
      else if is_dead (count_uplink m)
      then record {
        answer = none;
        mac = forget_session (count_uplink m);
        trace = persist hook (forget_session (count_uplink m)).session;
      }
      else send_checked hook payload fport confirmed sent received (probe (count_uplink m))
