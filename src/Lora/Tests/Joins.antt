-- ===== src/Lora/Tests/Joins.antt =====
-- The joins, the saved parameters and the life of the LoRaWAN MAC at concrete inputs.
use wqm.Prelude.{◌≡◌, refl, true, false, none, some, [], ◌∷◌, arith, contains}
use wqm.Lora.{Bytes, Mac, init}
use wqm.Lora.Sound.{IsSoundAt}
use wqm.Lora.Link.{same_bytes}
use wqm.Lora.Join.{Device, process_join_accept, is_accept, decrypt_accept, encrypt_blocks, zeros}
use wqm.Lora.Params.{mac_params, apply_mac_params, save-restore}
use wqm.Lora.Link.{set}
use wqm.Lora.Life.{joins, sends, reboots, live, live-IsSoundAt}
use wqm.Lora.Nonces.{Attempt, join_all, replay_refused}
use wqm.Lora.Tests.{cmac, aes, mac, frame, mac-IsSoundAt}

abbrev device : Device
device = record { dev_eui = 1 ∷ 2 ∷ []; app_eui = 3 ∷ []; app_key = 4 ∷ [] }

-- A JoinAccept with AppNonce 5, in clear, and the tag of its thirteen bytes.
abbrev accept : Bytes
accept = 32 ∷ 5 ∷ 0 ∷ 0 ∷ 1 ∷ 0 ∷ 0 ∷ 9 ∷ 9 ∷ 9 ∷ 9 ∷ 48 ∷ 1 ∷ 13 ∷ 0 ∷ 0 ∷ 0 ∷ []

accept-taken : (process_join_accept cmac aes device accept mac).0 ≡ true
unfolding process_join_accept is_accept decrypt_accept encrypt_blocks zeros same_bytes contains
accept-taken = refl

abbrev retry : Attempt
retry = record { entropy = 7; sent = true; accept = none }

replay_refused_example :
    process_join_accept cmac aes device accept
      (join_all cmac aes device (retry ∷ []) (process_join_accept cmac aes device accept mac).1)
    ≡ (
      false,
      join_all cmac aes device (retry ∷ []) (process_join_accept cmac aes device accept mac).1,
    )
replay_refused_example =
    replay_refused cmac aes device accept (retry ∷ []) mac accept-taken (omega arith)

live-IsSoundAt_example : IsSoundAt 7 (
    live cmac aes
      (joins device 7 true (some accept)
        ∷ sends (set false) (1 ∷ []) 1 true true (some frame)
        ∷ reboots 2 9
        ∷ [])
      (init 2 9))
live-IsSoundAt_example = live-IsSoundAt cmac aes 2 9 (
    joins device 7 true (some accept)
    ∷ sends (set false) (1 ∷ []) 1 true true (some frame)
    ∷ reboots 2 9
    ∷ [])

abbrev saved_mac : Mac
saved_mac = record mac { dev_nonce_counter = some 700; recent_app_nonces = 5 ∷ 6 ∷ []; sf = 8 }

saved_mac-IsSoundAt : IsSoundAt 3 saved_mac
saved_mac-IsSoundAt = (
  mac-IsSoundAt.0,
  (omega arith, omega arith),
  omega arith,
  mac-IsSoundAt.3,
  mac-IsSoundAt.4,
  mac-IsSoundAt.5,
  mac-IsSoundAt.6,
)

save-restore_example :
    mac_params (apply_mac_params (mac_params saved_mac) (init 1 7)) ≡ mac_params saved_mac
save-restore_example =
    save-restore saved_mac (init 1 7) 700 saved_mac-IsSoundAt refl (omega arith) (omega arith)
      (omega arith, (omega arith, tt))
