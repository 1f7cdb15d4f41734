-- ===== src/Lora/Groups.antt =====
-- The LinkADRReq of the 500 kHz channels in src/radio/lorawan.py.
use mathlib.Core.Path.{subst}
use wqm.Prelude.{
  ℕ, zero, suc, ◌+◌, ◌*◌, ◌/◌, ◌%◌, ◌^◌, ◌≤◌, ◌<◌, ◌≡◌, refl, ap, get_or, Bool, none, some, List,
  [], ◌∷◌, arith, ◌==◌, length, inl, inr, Bool-cases, Option-cases, ◌∙◌, sym,
}
use wqm.Lora.{Bytes, Mac}
use wqm.Lora.Commands.{
  byte, set_mask, set_bits, new_mask, apply_link_adr, handle_link_adr, handle_mac_command,
  try_command,
}
use wqm.Lora.Masks.{KeepsLength, length-set_mask}

set_mask-outside :
    (i : ℕ) (v : Bool) (mask : List Bool) → length mask ≤ i → set_mask i v mask ≡ none
unfolding set_mask
set_mask-outside i v [] h = refl
set_mask-outside zero v (x ∷ xs) h = absurd (omega arith)
set_mask-outside (suc i) v (x ∷ xs) h = rw (set_mask-outside i v xs (omega arith)) refl

some-none : (mask : List Bool) → some mask ≡ none → ⊥
some-none mask h = ground (arith, h)

set_bits-outside :
    (test : ℕ → Bool) (bit count : ℕ) (mask : List Bool)
    → length mask ≡ 72
    → bit < 9
    → 8 < bit + count
    → set_bits test 64 bit count mask ≡ none
unfolding set_bits
set_bits-outside test bit zero mask e h k = absurd (omega arith)
set_bits-outside test bit (suc count) mask e h k =
    elim (Option-cases (set_mask (64 + bit) (test bit) mask)) [
      | inl gone ↦ rw gone refl
      | inr (mask', found) ↦ rw found (elim (Bool-cases (bit == 8)) [
        | inl last ↦ absurd (
            some-none mask'
              (sym found ∙ set_mask-outside (64 + bit) (test bit) mask (ground arith)))
        | inr more ↦
            set_bits-outside test (suc bit) count mask'
              (subst (KeepsLength (length mask)) found (length-set_mask (64 + bit) (test bit) mask)
                ∙ e)
              (ground arith) (omega arith)
      ])
    ]

new_mask-wide : (bits : ℕ) (mask : List Bool) → length mask ≡ 72 → new_mask 4 bits mask ≡ none
unfolding new_mask
new_mask-wide bits mask e =
    rw (set_bits-outside (λ bit. bits / 2 ^ bit % 2 == 1) 0 16 mask e (omega arith) (omega arith))
      refl

wide_raises :
    (args : Bytes) (m : Mac)
    → length m.channel_mask ≡ 72
    → byte args 3 / 16 % 8 ≡ 4
    → handle_link_adr args m ≡ none
unfolding handle_link_adr
wide_raises args m e h =
    ap
      (λ r. elim r [
        | none ↦ none
        | some found ↦ some (apply_link_adr (byte args 0 / 16) (byte args 0 % 16) found m)
      ])
      (subst (λ cntl. new_mask cntl (byte args 1 + byte args 2 * 256) m.channel_mask ≡ none) (sym h)
        (new_mask-wide (byte args 1 + byte args 2 * 256) m.channel_mask e))

-- A LinkADRReq with ChMaskCntl 4, which sets the 500 kHz channels, is lost: with a mask of 72
-- channels the call raises, so that nothing of the request is applied and no LinkADRAns is queued.
pub wide_request_lost :
    (args : Bytes) (m : Mac)
    → length m.channel_mask ≡ 72
    → byte args 3 / 16 % 8 ≡ 4
    → (handle_link_adr args m ≡ none) × (try_command 3 args m ≡ m)
unfolding try_command handle_mac_command
wide_request_lost args m e h =
    (wide_raises args m e h, ap (λ r. get_or r m) (wide_raises args m e h))
