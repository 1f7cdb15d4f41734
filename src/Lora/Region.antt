-- ===== src/Lora/Region.antt =====
-- The US915 channel plan of src/radio/lorawan.py.
use wqm.Prelude.{
  ℕ, zero, suc, ◌+◌, ◌-◌, ◌*◌, ◌%◌, ◌≡◌, refl, min, max, Bool, ◌&&◌, List, [], ◌∷◌, arith, ltb, leb,
  ◌==◌, if◌then◌else◌, length,
}

abbrev base_dr : ℕ → ℕ
base_dr dr =
    if dr == 0
    then 10
    else if dr == 1
    then 11
    else if dr == 2
    then 12
    else if dr == 3
    then 13
    else if dr == 4
    then 14
    else 11

-- RX1 downlink data rate, for an offset that is not negative.
unfoldable pub rx1_data_rate : ℕ → ℕ → ℕ
rx1_data_rate uplink_dr offset = min 13 (max 8 (base_dr uplink_dr - max 0 (min 3 offset)))

unfoldable pub downlink_sf : ℕ → ℕ
downlink_sf dr = 20 - max 8 (min 13 dr)

unfoldable pub uplink_frequency_hz : ℕ → ℕ
uplink_frequency_hz channel =
    if ltb channel 64 then 902300000 + channel * 200000 else 903000000 + (channel - 64) * 1600000

unfoldable pub rx1_frequency_hz : ℕ → ℕ
rx1_frequency_hz channel = 923300000 + channel % 8 * 600000

-- `count` bits from `first` on, each by a test on its number.
unfoldable pub mask_from : (ℕ → Bool) → ℕ → ℕ → List Bool
mask_from test first zero = []
mask_from test first (suc count) = test first ∷ mask_from test (suc first) count

abbrev pub in_sub_band : ℕ → ℕ → Bool
in_sub_band band channel =
    if ltb channel 64
    then leb ((band - 1) * 8) channel && ltb channel ((band - 1) * 8 + 8)
    else channel == 64 + band - 1

unfoldable pub sub_band_channel_mask : ℕ → List Bool
sub_band_channel_mask sub_band = mask_from (in_sub_band (max 1 (min 8 sub_band))) 0 72

pub length-mask_from : (test : ℕ → Bool) (first n : ℕ) → length (mask_from test first n) ≡ n
unfolding mask_from
length-mask_from test first zero = refl
length-mask_from test first (suc n) = ground (arith, length-mask_from test (suc first) n)
