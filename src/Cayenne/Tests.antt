-- ===== src/Cayenne/Tests.antt =====
-- The codec at a concrete reading: 21.46 degrees, a pH of 7.124, and a place south of the equator.
use wqm.Prelude.{◌≡◌, refl, none, some, [], ◌∷◌, arith}
use wqm.Prelude.Int.{pos, negsuc}
use wqm.Cayenne.{Reading, encode, decode, field}
use wqm.Cayenne.Fields.{pack16, clamp16, round_div}
use wqm.Cayenne.Trip.{FitsPosition, meaning, decode-encode}

abbrev pond : Reading
pond = record {
  temp_c = some (pos 21460000);
  ph = some (pos 7124000);
  tds_ppm = none;
  turbidity_ntu = none;
  orp_mv = some (negsuc 14999999);
  chlorine_mgl = none;
  conductivity_uscm = some (pos 1413000000);
  salinity_ppt = none;
  flow_rate_gpm = none;
  flow_total_gal = none;
  lat = some (negsuc 33868799);
  lon = some (pos 151209300);
  alt_m = some (pos 58000000);
}

pond-FitsPosition : FitsPosition pond.lat pond.lon pond.alt_m
unfolding round_div
pond-FitsPosition = (omega arith, omega arith, omega arith)

decode-encode_example : decode (encode pond) ≡ meaning pond
decode-encode_example = decode-encode pond pond-FitsPosition

-- A value beyond 16 bits is clamped.
clamped : field 3 2 10000 (some (pos 999990000)) ≡ 3 ∷ 2 ∷ 127 ∷ 255 ∷ []
unfolding field pack16 clamp16 round_div
clamped = refl
