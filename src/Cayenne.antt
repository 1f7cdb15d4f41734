-- ===== src/Cayenne.antt =====
-- The Cayenne LPP codec of src/radio/cayenne.py. A number of a reading is a whole number of millionths
-- of its unit, so that scaling and rounding are exact; floating-point error is left out.
pub mod Fields
pub mod Trip
mod Tests
use wqm.Prelude.{
  ℕ, zero, suc, ◌*◌, Bool, true, false, ◌&&◌, Option, none, some, List, [], ◌∷◌, ◌++◌, ◌==◌, get_or,
  if◌then◌else◌,
}
use wqm.Prelude.Int.{ℤ, pos, ◌*ℤ◌}
use wqm.Prelude.Texts.{String, str_eq}
use Fields.{clamp16, round_div, pack16, unpack16, int24, from_int24, byte_at}

pub record Reading : Type 0 where
  pub temp_c : Option ℤ
  pub ph : Option ℤ
  pub tds_ppm : Option ℤ
  pub turbidity_ntu : Option ℤ
  pub orp_mv : Option ℤ
  pub chlorine_mgl : Option ℤ
  pub conductivity_uscm : Option ℤ
  pub salinity_ppt : Option ℤ
  pub flow_rate_gpm : Option ℤ
  pub flow_total_gal : Option ℤ
  pub lat : Option ℤ
  pub lon : Option ℤ
  pub alt_m : Option ℤ

-- One field of two bytes: its channel, its type, the millionths of one step, and its value. The value
-- times ten is rounded at a step of 100000, times a hundred at one of 10000, and divided by a thousand
-- first at one of 10000000.
unfoldable pub field : ℕ → ℕ → ℕ → Option ℤ → List ℕ
field channel lpp_type step none = []
field channel lpp_type step (some v) = channel ∷ lpp_type ∷ pack16 (clamp16 (round_div v step))

-- `alt or 0`
unfoldable pub gps_field : Option ℤ → Option ℤ → Option ℤ → List ℕ
gps_field (some lat) (some lon) alt =
    6
    ∷ 136
    ∷ (int24 (round_div lat 100)
        ++ (int24 (round_div lon 100) ++ int24 (round_div (get_or alt (pos 0)) 10000)))
gps_field _ _ alt = []

unfoldable pub encode : Reading → List ℕ
encode r =
    field 1 103 100000 r.temp_c
    ++ (field 2 2 10000 r.ph
        ++ (field 3 2 10000 r.tds_ppm
            ++ (field 4 2 10000 r.turbidity_ntu
                ++ (field 5 2 10000 r.orp_mv
                    ++ (field 10 2 10000 r.chlorine_mgl
                        ++ (field 11 2 10000000 r.conductivity_uscm
                            ++ (field 12 2 10000 r.salinity_ppt
                                ++ (field 13 2 10000 r.flow_rate_gpm
                                    ++ (field 14 2 10000000 r.flow_total_gal
                                        ++ gps_field r.lat r.lon r.alt_m)))))))))

-- A key of the dict that `decode` builds; `ch` is that of a channel with no key of its own.
pub data Key : Type 0 where
  named : String → Key
  ch : ℕ → Key

abbrev pub same_key : Key → Key → Bool
same_key (named a) (named b) = str_eq a b
same_key (ch m) (ch n) = m == n
same_key _ _ = false

-- `_CHANNEL_TO_KEY.get(channel, f"ch{channel}")`
unfoldable pub key_of : ℕ → Key
key_of channel =
    if channel == 1
    then named "temp_c"
    else if channel == 2
    then named "ph"
    else if channel == 3
    then named "tds_ppm"
    else if channel == 4
    then named "turbidity_ntu"
    else if channel == 5
    then named "orp_mv"
    else if channel == 10
    then named "chlorine_mgl"
    else if channel == 11
    then named "conductivity_uscm"
    else if channel == 12
    then named "salinity_ppt"
    else if channel == 13
    then named "flow_rate_gpm"
    else if channel == 14
    then named "flow_total_gal"
    else ch channel

-- The values by their keys, in millionths.
abbrev pub Decoded : Type 0
Decoded = List (Key × ℤ)

unfoldable pub put_key : Key → ℤ → Decoded → Decoded
put_key key v [] = (key, v) ∷ []
put_key key v ((k, w) ∷ d) =
    let rest = put_key key v d in if same_key k key then (k, v) ∷ d else (k, w) ∷ rest

-- `i + n <= len(payload)`, at the bytes from `i` on
unfoldable pub has_bytes : ℕ → List ℕ → Bool
has_bytes zero bytes = true
has_bytes (suc n) [] = false
has_bytes (suc n) (b ∷ bytes) = has_bytes n bytes

-- The bytes of a value of a type that is known, if that many are left.
unfoldable pub value_size : ℕ → List ℕ → Option ℕ
value_size lpp_type rest =
    if (lpp_type == 103) && has_bytes 2 rest
    then some 2
    else if (lpp_type == 2) && has_bytes 2 rest
    then some 2
    else if (lpp_type == 136) && has_bytes 9 rest
    then some 9
    else none

-- `_US_PER_MS` and `_GAL_PER_KGAL`, on the channels that carry thousands
unfoldable pub scale_of : ℕ → ℕ
scale_of channel = if channel == 11 then 1000 else if channel == 14 then 1000 else 1

unfoldable pub store : ℕ → ℕ → List ℕ → Decoded → Decoded
store channel lpp_type rest d =
    if lpp_type == 103
    then put_key (key_of channel) (unpack16 (byte_at 0 rest) (byte_at 1 rest) *ℤ pos 100000) d
    else if lpp_type == 2
    then put_key (key_of channel)
        (unpack16 (byte_at 0 rest) (byte_at 1 rest) *ℤ pos (10000 * scale_of channel)) d
    else put_key (named "alt_m")
        (from_int24 (byte_at 6 rest) (byte_at 7 rest) (byte_at 8 rest) *ℤ pos 10000)
        (put_key (named "lon")
          (from_int24 (byte_at 3 rest) (byte_at 4 rest) (byte_at 5 rest) *ℤ pos 100)
          (put_key (named "lat")
            (from_int24 (byte_at 0 rest) (byte_at 1 rest) (byte_at 2 rest) *ℤ pos 100) d))

-- The loop of `decode`; the number counts the bytes that are still to pass.
unfoldable pub decode_from : ℕ → List ℕ → Decoded → Decoded
decode_from skip [] d = d
decode_from (suc skip) (b ∷ bytes) d = decode_from skip bytes d
decode_from zero (channel ∷ []) d = d
decode_from zero (channel ∷ lpp_type ∷ rest) d = elim (value_size lpp_type rest) [
  | none ↦ d
  | some size ↦ decode_from size rest (store channel lpp_type rest d)
]

unfoldable pub decode : List ℕ → Decoded
decode payload = decode_from 0 payload []
