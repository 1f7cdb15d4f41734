-- ===== src/Lora/Tests.antt =====
-- The LoRaWAN MAC at concrete inputs, under a toy cipher that only serves to run the code.
mod Joins
use wqm.Prelude.{
  ℕ, ◌+◌, ◌%◌, ◌≤◌, ◌<◌, ◌≡◌, ◌⊎◌, refl, true, false, none, some, [], ◌∷◌, arith, length,
}
use wqm.Lora.{Bytes, Session, Mac, no_session, init}
use wqm.Lora.Region.{rx1_data_rate, downlink_sf, rx1_frequency_hz, sub_band_channel_mask, mask_from}
use wqm.Lora.Commands.{handle_link_adr, try_command, handle_mac_commands, commands_from, any_of}
use wqm.Lora.Frames.{frame_block, pack32, downlink_mic, frame_mic}
use wqm.Lora.Link.{
  reconstruct_fcnt_down, reconstruct_nearest, process_downlink, is_verified, frame_fcnt, same_bytes,
  send_uplink, set, open_payload, accept_frame,
}
use wqm.Lora.Sound.{IsSoundAt, commands-IsSoundAt}
use wqm.Lora.Groups.{wide_request_lost}
use wqm.Lora.Replay.{receive_all, StaysBelow, no_replay}
use wqm.Lora.Uplink.{IsSilent, Airs, counter_saved}

-- The tag of a message is its length, and a block is its own ciphertext.
abbrev pub cmac : Bytes → Bytes → Bytes
cmac key message = length message ∷ 0 ∷ 0 ∷ 0 ∷ []

abbrev pub aes : Bytes → Bytes → Bytes
aes key block = block

abbrev joined : Session
joined = record no_session { dev_addr = 1 ∷ 2 ∷ 3 ∷ 4 ∷ []; joined = true; fcnt_down = 5 }

abbrev pub mac : Mac
mac = record (init 2 9) { session = joined }

pub mac-IsSoundAt : IsSoundAt 3 mac
unfolding sub_band_channel_mask mask_from any_of
mac-IsSoundAt = (
  (refl, refl),
  (omega arith, omega arith),
  omega arith,
  (omega arith, omega arith),
  (omega arith, omega arith),
  (omega arith, omega arith),
  omega arith,
)

mask_length : length mac.channel_mask ≡ 72
unfolding sub_band_channel_mask mask_from
mask_length = refl

wide_request_lost_example :
    (handle_link_adr (48 ∷ 255 ∷ 0 ∷ 64 ∷ []) mac ≡ none)
    × (try_command 3 (48 ∷ 255 ∷ 0 ∷ 64 ∷ []) mac ≡ mac)
wide_request_lost_example = wide_request_lost (48 ∷ 255 ∷ 0 ∷ 64 ∷ []) mac mask_length refl

-- A frame with counter 6, and the tag of its eight bytes and the block before them.
abbrev pub frame : Bytes
frame = 96 ∷ 1 ∷ 2 ∷ 3 ∷ 4 ∷ 0 ∷ 6 ∷ 0 ∷ 24 ∷ 0 ∷ 0 ∷ 0 ∷ []

frame-verified : is_verified cmac aes frame mac ≡ true
unfolding is_verified same_bytes downlink_mic frame_mic frame_block pack32
frame-verified = refl

below : StaysBelow cmac aes (frame ∷ []) mac
unfolding StaysBelow process_downlink is_verified same_bytes downlink_mic frame_mic frame_block
    pack32 open_payload handle_mac_commands commands_from reconstruct_fcnt_down frame_fcnt
    accept_frame
below = (omega arith, omega arith)

no_replay_example : frame_fcnt frame mac < frame_fcnt frame (receive_all cmac aes (frame ∷ []) mac)
no_replay_example = no_replay cmac aes frame frame [] mac frame-verified below

counter_saved_example :
    IsSilent cmac aes mac
      (send_uplink cmac aes (set true) (1 ∷ 2 ∷ []) 1 false true (some frame) mac)
    ⊎ Airs cmac aes
        (set true)
        (1 ∷ 2 ∷ [])
        1
        false
        mac
        (send_uplink cmac aes (set true) (1 ∷ 2 ∷ []) 1 false true (some frame) mac)
counter_saved_example = counter_saved cmac aes (set true) (1 ∷ 2 ∷ []) 1 false true (some frame) mac
