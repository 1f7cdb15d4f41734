-- ===== src/Cayenne/Fields.antt =====
-- The numbers of two and three bytes of src/radio/cayenne.py, big-endian and signed.
use wqm.Prelude.{
  ℕ, ◌+◌, ◌-◌, ◌*◌, ◌/◌, ◌%◌, ◌<◌, ◌≡◌, min, List, [], ◌∷◌, arith, leb, ltb, ◌==◌, if◌then◌else◌,
  suc, get_elem?, get_or,
}
use wqm.Prelude.Int.{ℤ, pos, negsuc, sub_ℕ}

-- `max(-32768, min(32767, v))`
unfoldable pub clamp16 : ℤ → ℤ
clamp16 (pos n) = pos (min 32767 n)
clamp16 (negsuc n) = negsuc (min 32767 n)

-- `int(round(v / step))`: to the nearest, and a half to the even one.
abbrev pub round_half_even : ℕ → ℕ → ℕ
round_half_even n step =
    let q = n / step in
    let twice = n % step + n % step in
    if ltb twice step then q else if ltb step twice then q + 1 else if q % 2 == 0 then q else q + 1

unfoldable pub round_div : ℤ → ℕ → ℤ
round_div (pos n) step = pos (round_half_even n step)
round_div (negsuc n) step = sub_ℕ 0 (round_half_even (suc n) step)

-- The two's complement of `width` values, `width` a power of two.
abbrev pub wrap : ℕ → ℤ → ℕ
wrap width (pos n) = n
wrap width (negsuc n) = width - suc n

abbrev pub unwrap : ℕ → ℕ → ℤ
unwrap width n = if leb width (n + n) then negsuc (width - n - 1) else pos n

-- `struct.pack(">h", v)` of a value that fits
unfoldable pub pack16 : ℤ → List ℕ
pack16 v = wrap 65536 v / 256 % 256 ∷ wrap 65536 v % 256 ∷ []

unfoldable pub unpack16 : ℕ → ℕ → ℤ
unpack16 high low = unwrap 65536 (high * 256 + low)

-- `_int24`
unfoldable pub int24 : ℤ → List ℕ
int24 v = wrap 16777216 v / 65536 % 256 ∷ wrap 16777216 v / 256 % 256 ∷ wrap 16777216 v % 256 ∷ []

-- `_from_int24`
unfoldable pub from_int24 : ℕ → ℕ → ℕ → ℤ
from_int24 high mid low = unwrap 16777216 (high * 65536 + mid * 256 + low)

abbrev pub byte_at : ℕ → List ℕ → ℕ
byte_at i bytes = get_or (get_elem? bytes i) 0

pub unpack16-pack16 :
    (v : ℤ)
    → unpack16 (wrap 65536 (clamp16 v) / 256 % 256) (wrap 65536 (clamp16 v) % 256) ≡ clamp16 v
unfolding unpack16 clamp16
unpack16-pack16 (pos n) = ground arith
unpack16-pack16 (negsuc n) = ground arith

-- 24 bits with the sign.
abbrev pub Fits24 : ℤ → Type 0
Fits24 (pos n) = n < 8388608
Fits24 (negsuc n) = n < 8388608

pub from_int24-int24 :
    (v : ℤ)
    → Fits24 v
    → from_int24
        (wrap 16777216 v / 65536 % 256)
        (wrap 16777216 v / 256 % 256)
        (wrap 16777216 v % 256)
      ≡ v
unfolding from_int24
from_int24-int24 (pos n) h = ground arith
from_int24-int24 (negsuc n) h = ground arith
