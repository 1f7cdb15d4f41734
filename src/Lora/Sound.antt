-- ===== src/Lora/Sound.antt =====
-- What the MAC commands of src/radio/lorawan.py can do to the MAC, whatever bytes the network sends.
use wqm.Prelude.{
  ℕ, zero, suc, ◌+◌, ◌-◌, ◌*◌, ◌/◌, ◌%◌, ◌≤◌, ◌≡◌, refl, ◌∙◌, Bool, true, false, ◌&&◌, ◌||◌, Option,
  none, some, List, [], ◌∷◌, arith, leb, ◌==◌, if◌then◌else◌, length, length-append, take, inl, inr,
  Bool-cases, Option-cases, get_or,
}
use wqm.Lora.{Bytes, Mac, max_fopts_len, queue_answer}
use wqm.Lora.Masks.{KeepsMask, length-new_mask}
use wqm.Lora.Commands.{
  byte, fetch, any_of, apply_link_adr, handle_link_adr, handle_rx_param, handle_rx_timing,
  handle_mac_command, try_command, commands_from, handle_mac_commands,
}

-- A predicate that every command keeps holds after any bytes.
pub commands_keep :
    (P : Mac → Type 0)
    → ((cid : ℕ) (args : Bytes) (m : Mac) → P m → P (try_command cid args m))
    → (skip : ℕ) (bytes : Bytes) (m : Mac) → P m
    → P (commands_from skip bytes m)
unfolding commands_from
commands_keep P h skip [] m p = p
commands_keep P h (suc skip) (b ∷ bytes) m p = commands_keep P h skip bytes m p
commands_keep P h zero (cid ∷ bytes) m p = elim (Option-cases (fetch cid bytes)) [
  | inl e ↦ rw (commands_from, e) p
  | inr (args, e) ↦
      rw (commands_from, e)
        (commands_keep P h (length args) bytes (try_command cid args m) (h cid args m p))
]

-- The ranges that the source relies on: 72 channels, one of the first 64 enabled, SF7 to SF10, a
-- receive offset up to 3, DR8 to DR13 and a frequency of the band in RX2, a delay of 1 to 15 seconds,
-- and answers that fit in FOpts.
abbrev pub MaskIsSound : List Bool → Type 0
MaskIsSound mask = (length mask ≡ 72) × (any_of (take 64 mask) ≡ true)

-- The offset is up to `top`: the commands leave it at 3 at most.
abbrev pub IsSoundAt : ℕ → Mac → Type 0
IsSoundAt top m =
    MaskIsSound m.channel_mask
    × ((7 ≤ m.sf) × (m.sf ≤ 10))
    × (m.rx1_dr_offset ≤ top)
    × ((8 ≤ m.rx2_dr) × (m.rx2_dr ≤ 13))
    × ((923300000 ≤ m.rx2_frequency) × (m.rx2_frequency ≤ 927500000))
    × ((1 ≤ m.rx1_delay_s) × (m.rx1_delay_s ≤ 15))
    × (length m.pending_fopts ≤ max_fopts_len)

sf_of_dr-bounds :
    (dr sf : ℕ)
    → (dr == 1 || dr == 2 || dr == 3 || dr == 15) ≡ true
    → 7 ≤ sf
    → sf ≤ 10
    → (7 ≤ (if dr == 15 then sf else 10 - dr)) × ((if dr == 15 then sf else 10 - dr) ≤ 10)
sf_of_dr-bounds dr sf h low high = (ground arith, ground arith)

all_three : (a b c : Bool) → (a && b && c) ≡ true → (a ≡ true) × (b ≡ true) × (c ≡ true)
all_three a b c h = ground arith

second : (a b : Bool) → (a && b) ≡ true → b ≡ true
second a b h = ground arith

abbrev adr_ok : ℕ → ℕ → List Bool × Bool → Bool
adr_ok dr power found =
    (found.1 && any_of (take 64 found.0))
    && (dr == 1 || dr == 2 || dr == 3 || dr == 15)
    && (leb power 10 || power == 15)

delay-bounds :
    (d : ℕ) → (1 ≤ (if d % 16 == 0 then 1 else d % 16)) × ((if d % 16 == 0 then 1 else d % 16) ≤ 15)
delay-bounds d = (ground arith, ground arith)

module _ (top : ℕ) (wide : 3 ≤ top) where
  abbrev pub IsSound : Mac → Type 0
  IsSound = IsSoundAt top

  pub queue_answer-IsSound :
      (answer : Bytes) (m : Mac) → IsSound m → IsSound (queue_answer answer m)
  unfolding queue_answer
  queue_answer-IsSound answer m h =
      elim (Bool-cases (leb (length m.pending_fopts + length answer) max_fopts_len)) [
        | inl e ↦
            rw e (
              h.0,
              h.1,
              h.2,
              h.3,
              h.4,
              h.5,
              rw (length-append m.pending_fopts answer) (ground arith),
            )
        | inr e ↦ rw e h
      ]

  pub if-IsSound :
      (b : Bool) (m m' : Mac) → (b ≡ true → IsSound m') → IsSound m → IsSound (if b then m' else m)
  if-IsSound true m m' f h = f refl
  if-IsSound false m m' f h = h

  apply_link_adr-IsSound :
      (dr power : ℕ) (found : List Bool × Bool) (m : Mac)
      → length found.0 ≡ 72
      → IsSound m
      → IsSound (apply_link_adr dr power found m)
  apply_link_adr-IsSound dr power (mask, wanted) m e h = queue_answer-IsSound _ _ (
      if-IsSound (adr_ok dr power (mask, wanted)) m
        (record m { channel_mask = mask; sf = if dr == 15 then m.sf else 10 - dr })
        (λ ok.
          let each =
            all_three (wanted && any_of (take 64 mask)) (dr == 1 || dr == 2 || dr == 3 || dr == 15)
              (leb power 10 || power == 15) ok in
          (
            (e, second wanted (any_of (take 64 mask)) each.0),
            sf_of_dr-bounds dr m.sf each.1 h.1.0 h.1.1,
            h.2,
            h.3,
            h.4,
            h.5,
            h.6,
          ))
        h)

  or_same-IsSound :
      (dr power : ℕ) (r : Option (List Bool × Bool)) (m : Mac)
      → KeepsMask (length m.channel_mask) r
      → IsSound m
      → IsSound
          (get_or (elim r [ none ↦ none | some found ↦ some (apply_link_adr dr power found m) ]) m)
  or_same-IsSound dr power none m k h = h
  or_same-IsSound dr power (some found) m k h =
      apply_link_adr-IsSound dr power found m (k ∙ h.0.0) h

  handle_rx_param-IsSound : (args : Bytes) (m : Mac) → IsSound m → IsSound (handle_rx_param args m)
  unfolding handle_rx_param
  handle_rx_param-IsSound args m h = queue_answer-IsSound _ _ (
      if-IsSound _ m _
        (λ ok. (
          h.0,
          h.1,
          ground arith,
          (ground arith, ground arith),
          (ground arith, ground arith),
          h.5,
          h.6,
        ))
        h)

  handle_rx_timing-IsSound :
      (args : Bytes) (m : Mac) → IsSound m → IsSound (handle_rx_timing args m)
  unfolding handle_rx_timing
  handle_rx_timing-IsSound args m h =
      queue_answer-IsSound _ _ (h.0, h.1, h.2, h.3, h.4, delay-bounds (byte args 0), h.6)

  -- What a command does, from the answer to "is it this one".
  if_some-IsSound :
      (b : Bool) (x y : Option Mac) (m : Mac)
      → IsSound (get_or x m)
      → IsSound (get_or y m)
      → IsSound (get_or (if b then x else y) m)
  if_some-IsSound true x y m h k = h
  if_some-IsSound false x y m h k = k

  try_command-IsSound :
      (cid : ℕ) (args : Bytes) (m : Mac) → IsSound m → IsSound (try_command cid args m)
  unfolding try_command handle_mac_command handle_link_adr
  try_command-IsSound cid args m h = if_some-IsSound (cid == 2) _ _ m h (
      if_some-IsSound (cid == 3) _ _ m
        (or_same-IsSound (byte args 0 / 16) (byte args 0 % 16) _ m
          (length-new_mask (byte args 3 / 16 % 8) (byte args 1 + byte args 2 * 256) m.channel_mask)
          h)
        (if_some-IsSound (cid == 4) _ _ m (queue_answer-IsSound _ m h) (
          if_some-IsSound (cid == 5) _ _ m (handle_rx_param-IsSound args m h) (
            if_some-IsSound (cid == 6) _ _ m (queue_answer-IsSound _ m h)
              (if_some-IsSound (cid == 8) _ _ m (handle_rx_timing-IsSound args m h) h)))))

-- Whatever bytes a downlink carries as MAC commands, the parameters stay in their ranges: the mask
-- has 72 channels with one of the first 64 enabled, the spreading factor is one of SF7 to SF10, the
-- receive offset is at most `top`, for any `top` of 3 or more, the RX2 data rate and frequency and the
-- delay are those of the band, and the answers fit in FOpts.
pub commands-IsSoundAt :
    (top : ℕ)
    → 3 ≤ top
    → (bytes : Bytes) (m : Mac) → IsSoundAt top m
    → IsSoundAt top (handle_mac_commands bytes m)
unfolding handle_mac_commands
commands-IsSoundAt top wide bytes m h =
    commands_keep (IsSoundAt top) (try_command-IsSound top wide) 0 bytes m h
