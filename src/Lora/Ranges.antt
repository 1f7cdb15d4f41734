-- ===== src/Lora/Ranges.antt =====
-- The calls of src/radio/lorawan.py that change the radio parameters, one by one.
use wqm.Prelude.{
  ℕ, zero, suc, ◌/◌, ◌%◌, ◌≤◌, ◌≡◌, refl, ap, min, max, Bool, true, false, ◌&&◌, ◌||◌, List, [],
  ◌∷◌, arith, ◌==◌, if◌then◌else◌, length, take, inl, inr, Bool-cases, holds_under, holds_under_lem,
}
use wqm.Lora.{Bytes, Mac, init, reset_mac_params, forget_session, queue_answer}
use wqm.Lora.Region.{sub_band_channel_mask, mask_from, length-mask_from, in_sub_band}
use wqm.Lora.Commands.{byte, any_of}
use wqm.Lora.Sound.{MaskIsSound, IsSoundAt, queue_answer-IsSound, if-IsSound}
use wqm.Lora.Link.{consume_counter, probe, count_uplink}
use wqm.Lora.Join.{apply_settings, apply_cf_list, cf_mask}
use wqm.Lora.Params.{Params, apply_mac_params, bits_mask}

sub_band_table :
    holds_under 9 (λ k. k == 0 || any_of (take 64 (mask_from (in_sub_band k) 0 72))) ≡ true
unfolding holds_under any_of mask_from
sub_band_table = refl

clamped : (b : ℕ) (f : Bool) → ((max 1 (min 8 b) == 0) || f) ≡ true → f ≡ true
clamped b f h = ground arith

-- Every sub-band's mask, for any number.
sub_band-MaskIsSound : (b : ℕ) → MaskIsSound (sub_band_channel_mask b)
unfolding sub_band_channel_mask
sub_band-MaskIsSound b = (
  length-mask_from (in_sub_band (max 1 (min 8 b))) 0 72,
  clamped b _ (
      holds_under_lem 9 (λ k. k == 0 || any_of (take 64 (mask_from (in_sub_band k) 0 72)))
        (max 1 (min 8 b)) sub_band_table (omega arith)),
)

pub init-IsSoundAt : (sub_band sf : ℕ) → IsSoundAt 7 (init sub_band sf)
init-IsSoundAt sub_band sf = (
  sub_band-MaskIsSound sub_band,
  (ground arith, ground arith),
  omega arith,
  (omega arith, omega arith),
  (omega arith, omega arith),
  (omega arith, omega arith),
  omega arith,
)

pub forget-IsSoundAt : (m : Mac) → IsSoundAt 7 m → IsSoundAt 7 (forget_session m)
unfolding forget_session reset_mac_params
forget-IsSoundAt m h = (
  sub_band-MaskIsSound m.sub_band,
  h.1,
  omega arith,
  (omega arith, omega arith),
  (omega arith, omega arith),
  (omega arith, omega arith),
  omega arith,
)

pub settings-IsSoundAt :
    (body : Bytes) (m : Mac) → IsSoundAt 7 m → IsSoundAt 7 (apply_settings body m)
unfolding apply_settings reset_mac_params
settings-IsSoundAt body m h = (
  sub_band-MaskIsSound m.sub_band,
  h.1,
  omega arith,
  (ground arith, ground arith),
  (omega arith, omega arith),
  (ground arith, ground arith),
  omega arith,
)

pub wide : 3 ≤ 7
wide = omega arith

last_of_three : (a b c : Bool) → (a && b && c) ≡ true → c ≡ true
last_of_three a b c h = ground arith

pub cf_list-IsSoundAt :
    (cf_list : Bytes) (m : Mac) → IsSoundAt 7 m → IsSoundAt 7 (apply_cf_list cf_list m)
unfolding apply_cf_list cf_mask
cf_list-IsSoundAt cf_list m h =
    if-IsSound 7 wide _ m (record m { channel_mask = cf_mask cf_list })
      (λ ok. (
        (
          length-mask_from _ 0 72,
          last_of_three (length cf_list == 16) (byte cf_list 15 == 1)
              (any_of (take 64 (cf_mask cf_list))) ok,
        ),
        h.1,
        h.2,
        h.3,
        h.4,
        h.5,
        h.6,
      ))
      h

length-bits_mask : (bits n : ℕ) → length (bits_mask bits n) ≡ n
unfolding bits_mask
length-bits_mask bits zero = refl
length-bits_mask bits (suc n) = ap suc (length-bits_mask (bits / 2) n)

restored_mask :
    (bits : ℕ) (old : List Bool)
    → MaskIsSound old
    → MaskIsSound (if any_of (take 64 (bits_mask bits 72)) then bits_mask bits 72 else old)
restored_mask bits old h = elim (Bool-cases (any_of (take 64 (bits_mask bits 72)))) [
  | inl e ↦ rw e (length-bits_mask bits 72, e)
  | inr e ↦ rw e h
]

-- After a reboot the parameters come from what was saved.
pub restored-IsSoundAt :
    (p : Params) (m : Mac)
    → 923300000 ≤ p.rx2_frequency
    → p.rx2_frequency ≤ 927500000
    → IsSoundAt 7 m
    → IsSoundAt 7 (apply_mac_params p m)
unfolding apply_mac_params
restored-IsSoundAt p m low high h = (
  restored_mask p.channel_mask m.channel_mask h.0,
  (ground arith, ground arith),
  omega arith,
  (omega arith, omega arith),
  (ground arith, ground arith),
  (ground arith, ground arith),
  h.6,
)

pub count-IsSoundAt : (m : Mac) → IsSoundAt 7 m → IsSoundAt 7 (count_uplink m)
unfolding count_uplink
count-IsSoundAt m h = h

pub probe-IsSoundAt : (m : Mac) → IsSoundAt 7 m → IsSoundAt 7 (probe m)
unfolding probe
probe-IsSoundAt m h =
    if-IsSound 7 wide (m.uplinks_since_downlink % 24 == 0) m
      (queue_answer (2 ∷ []) (record m { unanswered_link_checks = suc m.unanswered_link_checks }))
      (λ _.
        queue_answer-IsSound 7 wide (2 ∷ [])
          (record m { unanswered_link_checks = suc m.unanswered_link_checks }) h)
      h

pub consume-IsSoundAt : (m : Mac) → IsSoundAt 7 m → IsSoundAt 7 (consume_counter m)
unfolding consume_counter
consume-IsSoundAt m h = (h.0, h.1, h.2, h.3, h.4, h.5, omega arith)

pub if-pair :
    (P : Mac → Type 0) (b : Bool) (x y : Bool × Mac) → P x.1 → P y.1 → P (if b then x else y).1
if-pair P true x y h k = h
if-pair P false x y h k = k
