-- ===== src/Lora.antt =====
-- The LoRaWAN MAC of src/radio/lorawan.py. A byte is a number below 256, and bytes are a list of
-- them. The AES block cipher and CMAC are libraries: `Lora.Frames` takes them as parameters. The
-- receive windows are the frame that they bring, if any, and the delay of RX1 is in seconds.
pub mod Region
pub mod Commands
pub mod Frames
pub mod Link
pub mod Masks
pub mod Sound
pub mod Replay
pub mod Groups
pub mod Uplink
pub mod Join
pub mod Params
pub mod Ranges
pub mod Life
pub mod Held
pub mod Nonces
mod Tests
use wqm.Prelude.{
  ℕ, ◌+◌, Bool, true, false, ◌&&◌, Option, none, some, List, [], ◌∷◌, ◌++◌, leb, length,
  if◌then◌else◌,
}
use wqm.Prelude.Int.{ℤ}
use Region.{sub_band_channel_mask}

abbrev pub Bytes : Type 0
Bytes = List ℕ

-- LoRaWANSession
pub record Session : Type 0 where
  pub dev_addr : Bytes
  pub nwk_skey : Bytes
  pub app_skey : Bytes
  pub fcnt_up : ℕ
  pub fcnt_down : ℕ
  pub joined : Bool

abbrev pub zero_key : Bytes
zero_key = 0 ∷ 0 ∷ 0 ∷ 0 ∷ 0 ∷ 0 ∷ 0 ∷ 0 ∷ 0 ∷ 0 ∷ 0 ∷ 0 ∷ 0 ∷ 0 ∷ 0 ∷ 0 ∷ []

abbrev pub no_session : Session
no_session = record {
  dev_addr = 0 ∷ 0 ∷ 0 ∷ 0 ∷ [];
  nwk_skey = zero_key;
  app_skey = zero_key;
  fcnt_up = 0;
  fcnt_down = 0;
  joined = false;
}

-- The fields of LoRaWANMAC that its methods change. `dev_nonce_counter` is none for the source's -1.
pub record Mac : Type 0 where
  pub session : Session
  pub sub_band : ℕ
  pub sf : ℕ
  pub channel_mask : List Bool
  pub rx1_dr_offset : ℕ
  pub rx2_dr : ℕ
  pub rx2_frequency : ℕ
  pub rx1_delay_s : ℕ
  pub pending_fopts : Bytes
  pub ack_pending : Bool
  pub last_link_check : Option (ℕ × ℕ)
  pub uplinks_since_downlink : ℕ
  pub unanswered_link_checks : ℕ
  pub last_snr : Option ℤ
  pub dev_nonce : ℕ
  pub dev_nonce_counter : Option ℕ
  pub recent_app_nonces : List ℕ

abbrev pub rx2_default_frequency : ℕ
rx2_default_frequency = 923300000

-- `__init__` at a sub-band and a spreading factor
abbrev pub init : ℕ → ℕ → Mac
init sub_band sf = record {
  session = no_session;
  sub_band = sub_band;
  sf = if leb 7 sf && leb sf 10 then sf else 9;
  channel_mask = sub_band_channel_mask sub_band;
  rx1_dr_offset = 0;
  rx2_dr = 8;
  rx2_frequency = rx2_default_frequency;
  rx1_delay_s = 1;
  pending_fopts = [];
  ack_pending = false;
  last_link_check = none;
  uplinks_since_downlink = 0;
  unanswered_link_checks = 0;
  last_snr = none;
  dev_nonce = 0;
  dev_nonce_counter = none;
  recent_app_nonces = [];
}

-- `_reset_mac_params`
unfoldable pub reset_mac_params : Mac → Mac
reset_mac_params m = record m {
  channel_mask = sub_band_channel_mask m.sub_band;
  rx1_dr_offset = 0;
  rx2_dr = 8;
  rx2_frequency = rx2_default_frequency;
  rx1_delay_s = 1;
  pending_fopts = [];
  ack_pending = false;
}

unfoldable pub forget_session : Mac → Mac
unfolding reset_mac_params
forget_session m = record (reset_mac_params (record m { session = no_session })) {
  uplinks_since_downlink = 0;
  unanswered_link_checks = 0;
}

abbrev pub max_fopts_len : ℕ
max_fopts_len = 15

-- `_queue_answer`: an answer that does not fit is dropped.
unfoldable pub queue_answer : Bytes → Mac → Mac
queue_answer answer m =
    if leb (length m.pending_fopts + length answer) max_fopts_len
    then record m { pending_fopts = m.pending_fopts ++ answer }
    else m
