-- ===== src/Cayenne/Trip.antt =====
-- Decoding what src/radio/cayenne.py encoded.
use wqm.Prelude.{
  ℕ, ◌+◌, ◌*◌, ◌≤◌, ◌≡◌, ◌∙◌, refl, ap, Option, none, some, List, [], ◌++◌, arith, length,
  length-append, get_or,
}
use wqm.Prelude.Int.{ℤ, pos, ◌*ℤ◌}
use wqm.Cayenne.{
  Reading, named, Decoded, put_key, key_of, scale_of, field, gps_field, encode, value_size,
  has_bytes, store, decode_from, decode,
}
use wqm.Cayenne.Fields.{
  clamp16, round_div, pack16, int24, Fits24, unpack16-pack16, from_int24-int24,
}
use wqm.Prelude.Texts.{String}

-- The value in millionths that a number of steps stands for, of those that fit 16 bits.
abbrev pub in_steps : ℕ → ℤ → ℤ
in_steps step v = clamp16 (round_div v step) *ℤ pos step

-- What a value says, if it is there, at the resolution of its field.
abbrev pub say : String → ℕ → Option ℤ → Decoded → Decoded
say key step none d = d
say key step (some v) d = put_key (named key) (in_steps step v) d

abbrev pub say_position : Option ℤ → Option ℤ → Option ℤ → Decoded → Decoded
say_position (some lat) (some lon) alt d =
    put_key (named "alt_m") (round_div (get_or alt (pos 0)) 10000 *ℤ pos 10000) (
      put_key (named "lon") (round_div lon 100 *ℤ pos 100)
        (put_key (named "lat") (round_div lat 100 *ℤ pos 100) d))
say_position _ _ alt d = d

-- The position, if it is whole, fits 24 bits with the sign.
abbrev pub FitsPosition : Option ℤ → Option ℤ → Option ℤ → Type 0
FitsPosition (some lat) (some lon) alt =
    Fits24 (round_div lat 100)
    × Fits24 (round_div lon 100)
    × Fits24 (round_div (get_or alt (pos 0)) 10000)
FitsPosition _ _ alt = Unit

abbrev keep_tenths : ℕ → Option ℤ → Decoded → Decoded
keep_tenths channel none d = d
keep_tenths channel (some v) d =
    put_key (key_of channel) (clamp16 (round_div v 100000) *ℤ pos 100000) d

abbrev keep_analog : ℕ → ℕ → Option ℤ → Decoded → Decoded
keep_analog channel step none d = d
keep_analog channel step (some v) d =
    put_key (key_of channel) (clamp16 (round_div v step) *ℤ pos (10000 * scale_of channel)) d

decode-tenths :
    (channel : ℕ) (o : Option ℤ) (rest : List ℕ) (d : Decoded)
    → decode_from 0 (field channel 103 100000 o ++ rest) d
      ≡ decode_from 0 rest (keep_tenths channel o d)
unfolding decode_from field value_size has_bytes store pack16
decode-tenths channel none rest d = refl
decode-tenths channel (some v) rest d =
    ap (λ w. decode_from 0 rest (put_key (key_of channel) (w *ℤ pos 100000) d))
      (unpack16-pack16 (round_div v 100000))

decode-analog :
    (channel step : ℕ) (o : Option ℤ) (rest : List ℕ) (d : Decoded)
    → decode_from 0 (field channel 2 step o ++ rest) d
      ≡ decode_from 0 rest (keep_analog channel step o d)
unfolding decode_from field value_size has_bytes store pack16
decode-analog channel step none rest d = refl
decode-analog channel step (some v) rest d =
    ap (λ w. decode_from 0 rest (put_key (key_of channel) (w *ℤ pos (10000 * scale_of channel)) d))
      (unpack16-pack16 (round_div v step))

decode-position :
    (lat lon alt : Option ℤ) (d : Decoded)
    → FitsPosition lat lon alt
    → decode_from 0 (gps_field lat lon alt) d ≡ say_position lat lon alt d
unfolding decode_from gps_field value_size has_bytes store int24
decode-position none lon alt d h = refl
decode-position (some lat) none alt d h = refl
decode-position (some lat) (some lon) alt d h =
    rw (from_int24-int24 _ h.0, from_int24-int24 _ h.1, from_int24-int24 _ h.2) refl

-- What a reading says, key by key, each at its resolution.
unfoldable pub meaning : Reading → Decoded
meaning r = say_position r.lat r.lon r.alt_m (
    say "flow_total_gal" 10000000 r.flow_total_gal (
      say "flow_rate_gpm" 10000 r.flow_rate_gpm (
        say "salinity_ppt" 10000 r.salinity_ppt (
          say "conductivity_uscm" 10000000 r.conductivity_uscm (
            say "chlorine_mgl" 10000 r.chlorine_mgl (
              say "orp_mv" 10000 r.orp_mv (
                say "turbidity_ntu" 10000 r.turbidity_ntu (
                  say "tds_ppm" 10000 r.tds_ppm
                    (say "ph" 10000 r.ph (say "temp_c" 100000 r.temp_c []))))))))))

tenths-say : (o : Option ℤ) (d : Decoded) → keep_tenths 1 o d ≡ say "temp_c" 100000 o d
unfolding key_of
tenths-say none d = refl
tenths-say (some v) d = refl

-- A channel is of the key, and its steps are what decoding makes of them.
IsOf : ℕ → ℕ → String → Type 0
IsOf channel step key = (key_of channel ≡ named key) × (10000 * scale_of channel ≡ step)

analog-say :
    (channel step : ℕ) (key : String) (o : Option ℤ) (d : Decoded)
    → IsOf channel step key
    → keep_analog channel step o d ≡ say key step o d
unfolding IsOf
analog-say channel step key none d h = refl
analog-say channel step key (some v) d h = rw (h.0, h.1) refl

-- One field of the payload, and what it says.
analog_field :
    (channel step : ℕ) (key : String) (o : Option ℤ) (rest : List ℕ) (d : Decoded)
    → IsOf channel step key
    → decode_from 0 (field channel 2 step o ++ rest) d ≡ decode_from 0 rest (say key step o d)
analog_field channel step key o rest d h =
    decode-analog channel step o rest d
    ∙ ap (decode_from 0 rest) (analog-say channel step key o d h)

-- Decoding an encoded reading gives back each value that is there under its own key, rounded to the
-- resolution of its field and clamped to 16 bits of it: a tenth of a degree, ten of the conductivity and
-- of the total, a hundredth of the others; and the position, if there are a latitude and a longitude,
-- rounded to ten-thousandths of a degree, with a height in hundredths, zero if there is none, if these
-- fit 24 bits with the sign.
pub decode-encode : (r : Reading) → FitsPosition r.lat r.lon r.alt_m → decode (encode r) ≡ meaning r
unfolding decode encode meaning key_of scale_of IsOf
decode-encode r h =
    decode-tenths 1 r.temp_c _ []
    ∙ ap (decode_from 0 _) (tenths-say r.temp_c [])
    ∙ analog_field 2 10000 "ph" r.ph _ _ (refl, refl)
    ∙ analog_field 3 10000 "tds_ppm" r.tds_ppm _ _ (refl, refl)
    ∙ analog_field 4 10000 "turbidity_ntu" r.turbidity_ntu _ _ (refl, refl)
    ∙ analog_field 5 10000 "orp_mv" r.orp_mv _ _ (refl, refl)
    ∙ analog_field 10 10000 "chlorine_mgl" r.chlorine_mgl _ _ (refl, refl)
    ∙ analog_field 11 10000000 "conductivity_uscm" r.conductivity_uscm _ _ (refl, refl)
    ∙ analog_field 12 10000 "salinity_ppt" r.salinity_ppt _ _ (refl, refl)
    ∙ analog_field 13 10000 "flow_rate_gpm" r.flow_rate_gpm _ _ (refl, refl)
    ∙ analog_field 14 10000000 "flow_total_gal" r.flow_total_gal _ _ (refl, refl)
    ∙ decode-position r.lat r.lon r.alt_m _ h

length-field :
    (channel lpp_type step : ℕ) (o : Option ℤ) → length (field channel lpp_type step o) ≤ 4
unfolding field pack16
length-field channel lpp_type step none = omega arith
length-field channel lpp_type step (some v) = omega arith

length-gps_field : (lat lon alt : Option ℤ) → length (gps_field lat lon alt) ≤ 11
unfolding gps_field int24
length-gps_field none lon alt = omega arith
length-gps_field (some lat) none alt = omega arith
length-gps_field (some lat) (some lon) alt = omega arith

then_field :
    (channel lpp_type step : ℕ) (o : Option ℤ) (rest : List ℕ) (n : ℕ)
    → length rest ≤ n
    → length (field channel lpp_type step o ++ rest) ≤ 4 + n
then_field channel lpp_type step o rest n h = omega (
  arith,
  length-append (field channel lpp_type step o) rest,
  length-field channel lpp_type step o,
  h,
)

-- Whatever the reading, it is encoded in 51 bytes at most.
pub encode-small : (r : Reading) → length (encode r) ≤ 51
unfolding encode
encode-small r = then_field 1 103 100000 r.temp_c _ 47 (
    then_field 2 2 10000 r.ph _ 43 (
      then_field 3 2 10000 r.tds_ppm _ 39 (
        then_field 4 2 10000 r.turbidity_ntu _ 35 (
          then_field 5 2 10000 r.orp_mv _ 31 (
            then_field 10 2 10000 r.chlorine_mgl _ 27 (
              then_field 11 2 10000000 r.conductivity_uscm _ 23 (
                then_field 12 2 10000 r.salinity_ppt _ 19 (
                  then_field 13 2 10000 r.flow_rate_gpm _ 15 (
                    then_field 14 2 10000000 r.flow_total_gal _ 11
                      (length-gps_field r.lat r.lon r.alt_m))))))))))
