-- ===== src/Lora/Params.antt =====
-- The MAC parameters that src/radio/lorawan.py saves beside the session and restores after a reboot.
-- The hexadecimal text of the channel mask stands as the number that it writes, and the parameters
-- are those that the firmware wrote itself: a value of another type is not modelled.
use mathlib.Core.Path.{subst}
use wqm.Prelude.{
  ℕ, zero, suc, ◌+◌, ◌-◌, ◌*◌, ◌/◌, ◌%◌, ◌≤◌, ◌<◌, ◌≡◌, refl, ap, sym, ◌∙◌, min, max, Bool, true,
  false, ◌&&◌, Option, none, some, List, [], ◌∷◌, arith, leb, ◌==◌, if◌then◌else◌, length, take,
  drop, keep, All,
}
use wqm.Lora.{Session, Mac, rx2_default_frequency}
use wqm.Lora.Commands.{any_of}
use wqm.Lora.Sound.{IsSoundAt}
use wqm.Lora.Join.{last_nonces, nonces_kept}

pub record Params : Type 0 where
  pub sf : ℕ
  pub dev_nonce : Option ℕ
  pub app_nonces : List ℕ
  pub rx1_dr_offset : ℕ
  pub rx2_dr : ℕ
  pub rx2_frequency : ℕ
  pub rx1_delay_s : ℕ
  pub channel_mask : ℕ

-- `bits |= 1 << i` for each enabled channel
unfoldable pub mask_bits : List Bool → ℕ
mask_bits [] = 0
mask_bits (true ∷ mask) = 1 + 2 * mask_bits mask
mask_bits (false ∷ mask) = 2 * mask_bits mask

-- `bool(bits >> i & 1)` for each i below a count
unfoldable pub bits_mask : ℕ → ℕ → List Bool
bits_mask bits zero = []
bits_mask bits (suc count) = (bits % 2 == 1) ∷ bits_mask (bits / 2) count

unfoldable pub mac_params : Mac → Params
unfolding mask_bits
mac_params m = record {
  sf = m.sf;
  dev_nonce = m.dev_nonce_counter;
  app_nonces = m.recent_app_nonces;
  rx1_dr_offset = m.rx1_dr_offset;
  rx2_dr = m.rx2_dr;
  rx2_frequency = m.rx2_frequency;
  rx1_delay_s = m.rx1_delay_s;
  channel_mask = mask_bits m.channel_mask;
}

abbrev pub restored_nonce : Option ℕ → Option ℕ → Option ℕ
restored_nonce none old = old
restored_nonce (some n) old = if leb n 65535 then some n else old

abbrev fits_24 : ℕ → Bool
fits_24 n = leb n 16777215

-- `_apply_mac_params`
unfoldable pub apply_mac_params : Params → Mac → Mac
unfolding bits_mask
apply_mac_params p m = record m {
  dev_nonce_counter = restored_nonce p.dev_nonce m.dev_nonce_counter;
  recent_app_nonces = last_nonces (keep fits_24 p.app_nonces);
  sf = if leb 7 p.sf && leb p.sf 10 then p.sf else m.sf;
  rx1_dr_offset = min 3 p.rx1_dr_offset;
  rx2_dr = max 8 (min 13 p.rx2_dr);
  rx2_frequency = if p.rx2_frequency == 0 then rx2_default_frequency else p.rx2_frequency;
  rx1_delay_s = if leb 1 p.rx1_delay_s && leb p.rx1_delay_s 15 then p.rx1_delay_s else 1;
  channel_mask =
      if any_of (take 64 (bits_mask p.channel_mask 72))
      then bits_mask p.channel_mask 72
      else m.channel_mask;
}

-- `restore_session` with its parameters
unfoldable pub restore_session : Session → Params → Mac → Mac
restore_session session p m = apply_mac_params p (record m { session = session })

odd_bit : (n : ℕ) → (((1 + 2 * n) % 2 == 1) ≡ true) × ((1 + 2 * n) / 2 ≡ n)
odd_bit n = (ground arith, omega arith)

even_bit : (n : ℕ) → ((2 * n % 2 == 1) ≡ false) × (2 * n / 2 ≡ n)
even_bit n = (ground arith, omega arith)

bits_mask-mask_bits : (mask : List Bool) → bits_mask (mask_bits mask) (length mask) ≡ mask
unfolding bits_mask mask_bits
bits_mask-mask_bits [] = refl
bits_mask-mask_bits (true ∷ mask) =
    rw ((odd_bit (mask_bits mask)).0, (odd_bit (mask_bits mask)).1, bits_mask-mask_bits mask)
bits_mask-mask_bits (false ∷ mask) =
    rw ((even_bit (mask_bits mask)).0, (even_bit (mask_bits mask)).1, bits_mask-mask_bits mask)

keep-All : (nonces : List ℕ) → All (λ n. n < 16777216) nonces → keep fits_24 nonces ≡ nonces
unfolding keep
keep-All [] h = refl
keep-All (n ∷ nonces) h = ground (arith, keep-All nonces h.1)

last_nonces-short : (nonces : List ℕ) → length nonces ≤ nonces_kept → last_nonces nonces ≡ nonces
unfolding last_nonces
last_nonces-short nonces h = ap (λ k. drop k nonces) (none_over (length nonces) h)
  where
    none_over : (n : ℕ) → n ≤ 8 → n - 8 ≡ 0
    none_over n h = omega arith

-- The mask that is restored from a saved one.
restored-mask :
    (mask old : List Bool)
    → length mask ≡ 72
    → any_of (take 64 mask) ≡ true
    → (if any_of (take 64 (bits_mask (mask_bits mask) 72))
        then bits_mask (mask_bits mask) 72
        else old)
      ≡ mask
restored-mask mask old e some_channel =
    rw (subst (λ n. bits_mask (mask_bits mask) n ≡ mask) e (bits_mask-mask_bits mask), some_channel)

same_params :
    (p q : Params)
    → p.sf ≡ q.sf
    → p.dev_nonce ≡ q.dev_nonce
    → p.app_nonces ≡ q.app_nonces
    → p.rx1_dr_offset ≡ q.rx1_dr_offset
    → p.rx2_dr ≡ q.rx2_dr
    → p.rx2_frequency ≡ q.rx2_frequency
    → p.rx1_delay_s ≡ q.rx1_delay_s
    → p.channel_mask ≡ q.channel_mask
    → p ≡ q
same_params p q a b c d e f g h = λ i. record {
  sf = a i;
  dev_nonce = b i;
  app_nonces = c i;
  rx1_dr_offset = d i;
  rx2_dr = e i;
  rx2_frequency = f i;
  rx1_delay_s = g i;
  channel_mask = h i;
}

sf_kept : (sf old : ℕ) → 7 ≤ sf → sf ≤ 10 → (if leb 7 sf && leb sf 10 then sf else old) ≡ sf
sf_kept sf old low high = ground arith

delay_kept : (d : ℕ) → 1 ≤ d → d ≤ 15 → (if leb 1 d && leb d 15 then d else 1) ≡ d
delay_kept d low high = ground arith

frequency_kept : (f : ℕ) → 923300000 ≤ f → (if f == 0 then rx2_default_frequency else f) ≡ f
frequency_kept f low = ground arith

nonce_kept : (n : ℕ) (old : Option ℕ) → n < 65536 → restored_nonce (some n) old ≡ some n
nonce_kept n old h = ground arith

-- Saving the parameters, restoring them on any unit and saving them again gives the same ones, if
-- they are in their ranges, the receive offset at most 3, and a join was made, with a counter of 16
-- bits and at most eight AppNonces of 24 bits.
pub save-restore :
    (m old : Mac) (nonce : ℕ)
    → IsSoundAt 3 m
    → m.dev_nonce_counter ≡ some nonce
    → nonce < 65536
    → length m.recent_app_nonces ≤ nonces_kept
    → All (λ n. n < 16777216) m.recent_app_nonces
    → mac_params (apply_mac_params (mac_params m) old) ≡ mac_params m
unfolding mac_params apply_mac_params
save-restore m old nonce h counter small few fit =
    same_params _ _ (sf_kept m.sf old.sf h.1.0 h.1.1)
      (ap (λ c. restored_nonce c old.dev_nonce_counter) counter
        ∙ nonce_kept nonce old.dev_nonce_counter small
        ∙ sym counter)
      (ap last_nonces (keep-All m.recent_app_nonces fit)
        ∙ last_nonces-short m.recent_app_nonces few)
      (omega (arith, h.2)) (omega (arith, h.3)) (frequency_kept m.rx2_frequency h.4.0)
      (delay_kept m.rx1_delay_s h.5.0 h.5.1)
      (ap mask_bits (restored-mask m.channel_mask old.channel_mask h.0.0 h.0.1))
