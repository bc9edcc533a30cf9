-- ===== src/Gtfs/Bounds.antt =====
-- internal/gtfs/bounds.go. A float64 is its 64 bits (IEEE 754, binary64), as a number.
use go_gedung_peristiwa.Prelude.{
  ℕ, ◌+◌, ◌%◌, ◌^◌, Bool, true, false, ◌&&◌, ◌||◌, leb, ltb, ◌==◌, if◌then◌else◌,
}

abbrev pub Float64 : Type 0
Float64 = ℕ

-- The bits without the sign.
abbrev magnitude : Float64 → ℕ
magnitude x = x % 2 ^ 63

abbrev is_negative : Float64 → Bool
is_negative x = leb (2 ^ 63) x

-- All exponent bits set and a fraction other than 0.
abbrev is_nan : Float64 → Bool
is_nan x = ltb 0x7ff0_0000_0000_0000 (magnitude x)

-- `x <= y` of IEEE 754: false where either is not a number; the two zeros are equal.
unfoldable pub float_le : Float64 → Float64 → Bool
float_le x y =
    if is_nan x || is_nan y
    then false
    else if is_negative x
    then (if is_negative y then leb (magnitude y) (magnitude x) else true)
    else (if is_negative y then magnitude x + magnitude y == 0 else leb (magnitude x) (magnitude y))

-- 1.0, 7.0, 100.0 and 119.0
abbrev pub min_lat : Float64
min_lat = 0x3ff0_0000_0000_0000

abbrev pub max_lat : Float64
max_lat = 0x401c_0000_0000_0000

abbrev pub min_lng : Float64
min_lng = 0x4059_0000_0000_0000

abbrev pub max_lng : Float64
max_lng = 0x405d_c000_0000_0000

unfoldable pub valid_malaysia_bounds : Float64 → Float64 → Bool
valid_malaysia_bounds lat lng =
    float_le min_lat lat && float_le lat max_lat && float_le min_lng lng && float_le lng max_lng
