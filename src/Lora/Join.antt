-- ===== src/Lora/Join.antt =====
-- The OTAA join of src/radio/lorawan.py. The cryptography is a parameter, and so are the two random
-- bytes that seed the nonce counter, whether the radio sent the request, and the frame, if any, that
-- the receive windows brought.
use mathlib.Core.List.{reverse}
use wqm.Prelude.{
  ℕ, zero, suc, ◌+◌, ◌-◌, ◌*◌, ◌/◌, ◌%◌, ◌^◌, min, max, Bool, true, false, ◌&&◌, not, Option, none,
  some, List, [], ◌∷◌, ◌++◌, leb, ◌==◌, if◌then◌else◌, length, take, drop, contains,
}
use wqm.Lora.{Bytes, Session, Mac, reset_mac_params}
use wqm.Lora.Commands.{byte, any_of}
use wqm.Lora.Region.{mask_from}
use wqm.Lora.Frames.{pack16}
use wqm.Lora.Link.{same_bytes, body_of, mic_of}

-- The identity that the constructor is given, EUIs most significant byte first.
pub record Device : Type 0 where
  pub dev_eui : Bytes
  pub app_eui : Bytes
  pub app_key : Bytes

abbrev pub next_counter : ℕ → Option ℕ → ℕ
next_counter entropy none = entropy
next_counter entropy (some n) = (n + 1) % 65536

-- `_next_dev_nonce`, kept as `_dev_nonce` too
unfoldable pub next_dev_nonce : ℕ → Mac → Mac
next_dev_nonce entropy m = record m {
  dev_nonce = next_counter entropy m.dev_nonce_counter;
  dev_nonce_counter = some (next_counter entropy m.dev_nonce_counter);
}

unfoldable pub zeros : ℕ → Bytes
zeros zero = []
zeros (suc n) = 0 ∷ zeros n

-- The blocks of 16 bytes, each put through the cipher.
unfoldable pub encrypt_blocks : (Bytes → Bytes) → ℕ → Bytes → Bytes
encrypt_blocks encrypt zero bytes = []
encrypt_blocks encrypt (suc n) bytes =
    encrypt (take 16 bytes) ++ encrypt_blocks encrypt n (drop 16 bytes)

-- `(len(encrypted) + 15) // 16`
abbrev block_count : Bytes → ℕ
block_count encrypted = (length encrypted + 15) / 16

unfoldable pub decrypt_accept : (Bytes → Bytes) → Bytes → Bytes
unfolding encrypt_blocks zeros
decrypt_accept encrypt encrypted = take (length encrypted) (
    encrypt_blocks encrypt (block_count encrypted)
      (encrypted ++ zeros (block_count encrypted * 16 - length encrypted)))

-- Bit `i` of the channel mask of a CFList.
abbrev cf_bit : Bytes → ℕ → Bool
cf_bit cf_list i = byte cf_list (i / 8) / 2 ^ (i % 8) % 2 == 1

unfoldable pub cf_mask : Bytes → List Bool
cf_mask cf_list = mask_from (cf_bit cf_list) 0 72

-- `body[12:28]` of a body that has it
abbrev pub cf_list_of : Bytes → Bytes
cf_list_of body = if leb 28 (length body) then take 16 (drop 12 body) else []

unfoldable pub apply_cf_list : Bytes → Mac → Mac
apply_cf_list cf_list m =
    if length cf_list == 16 && byte cf_list 15 == 1 && any_of (take 64 (cf_mask cf_list))
    then record m { channel_mask = cf_mask cf_list }
    else m

-- RECENT_APP_NONCES_KEPT, and the last of them
abbrev pub nonces_kept : ℕ
nonces_kept = 8

unfoldable pub last_nonces : List ℕ → List ℕ
last_nonces nonces = drop (length nonces - nonces_kept) nonces

abbrev pub app_nonce_of : Bytes → ℕ
app_nonce_of body = byte body 0 + byte body 1 * 256 + byte body 2 * 65536

-- DLSettings and RxDelay
unfoldable pub apply_settings : Bytes → Mac → Mac
unfolding reset_mac_params
apply_settings body m = record (reset_mac_params m) {
  rx1_dr_offset = byte body 10 / 16 % 8;
  rx2_dr = if byte body 10 % 16 == 0 then 8 else max 8 (min 13 (byte body 10 % 16));
  rx1_delay_s = if byte body 11 % 16 == 0 then 1 else byte body 11 % 16;
}

module _ (cmac aes : Bytes → Bytes → Bytes) (device : Device) where
  -- `_derive_key`: the type, AppNonce, NetID, DevNonce and seven zeros
  unfoldable pub derive_key : ℕ → Bytes → Bytes → ℕ → Bytes
  derive_key key_type app_nonce net_id dev_nonce =
      aes device.app_key (key_type ∷ (app_nonce ++ (net_id ++ (pack16 dev_nonce ++ zeros 7))))

  unfoldable pub join_request : Mac → Bytes
  join_request m =
      let request =
        0 ∷ (reverse device.app_eui ++ (reverse device.dev_eui ++ pack16 m.dev_nonce)) in
      request ++ take 4 (cmac device.app_key request)

  -- The session that a JoinAccept's body gives.
  unfoldable pub new_session : Bytes → Mac → Session
  new_session body m = record {
    dev_addr = take 4 (drop 6 body);
    nwk_skey = derive_key 1 (take 3 body) (take 3 (drop 3 body)) m.dev_nonce;
    app_skey = derive_key 2 (take 3 body) (take 3 (drop 3 body)) m.dev_nonce;
    fcnt_up = 0;
    fcnt_down = 0;
    joined = true;
  }

  unfoldable pub apply_accept : Bytes → Mac → Mac
  apply_accept body m = apply_cf_list (cf_list_of body) (
      apply_settings body (record m {
        recent_app_nonces = last_nonces (m.recent_app_nonces ++ app_nonce_of body ∷ []);
        session = new_session body m;
      }))

  -- The decrypted frame after its MHDR.
  abbrev pub accept_text : Bytes → Bytes
  accept_text frame = decrypt_accept (aes device.app_key) (drop 1 frame)

  -- Every check but the last: the lengths, the type and the MIC.
  unfoldable pub is_accept : Bytes → Bool
  is_accept frame =
      leb 17 (length frame)
      && byte frame 0 == 32
      && leb 16 (length (accept_text frame))
      && same_bytes (take 4 (cmac device.app_key (32 ∷ body_of (accept_text frame))))
          (mic_of (accept_text frame))

  -- `_process_join_accept`
  unfoldable pub process_join_accept : Bytes → Mac → Bool × Mac
  process_join_accept frame m =
      let body = body_of (accept_text frame) in
      if not (is_accept frame)
      then (false, m)
      else if contains (app_nonce_of body) m.recent_app_nonces
      then (false, m)
      else (true, apply_accept body m)

  -- What one call of `join` does: its answer, the MAC after it, the nonce counter that was saved
  -- before the radio ran, and the request.
  pub record Joined : Type 0 where
    pub answer : Bool
    pub mac : Mac
    pub saved : Option ℕ
    pub aired : Bytes

  abbrev pub after_request : Bool → Option Bytes → Mac → Bool × Mac
  after_request false accept m = (false, m)
  after_request true none m = (false, m)
  after_request true (some frame) m = process_join_accept frame m

  unfoldable pub join : ℕ → Bool → Option Bytes → Mac → Joined
  unfolding next_dev_nonce
  join entropy sent accept m =
      let m' = next_dev_nonce entropy m in
      let out = after_request sent accept m' in
      record { answer = out.0; mac = out.1; saved = m'.dev_nonce_counter; aired = join_request m' }
