-- ===== src/Gtfs/Position.antt =====
-- internal/gtfs/types.go: one reading of a vehicle, and the key under which it is stored.
pub mod Keys
use go_gedung_peristiwa.Prelude.{
  ℕ, zero, suc, ◌+◌, ◌-◌, ◌^◌, List, [], ◌∷◌, ◌++◌, Option, none, some, ltb, leb, ◌==◌,
  if◌then◌else◌, reverse,
}
use go_gedung_peristiwa.Prelude.Int.{ℤ, pos, negsuc}
use go_gedung_peristiwa.Text.{Text, codes, cut, split_n, decimal, parse_digits}
use go_gedung_peristiwa.Time.{Time, unix_nano}
use go_gedung_peristiwa.Gtfs.Bounds.{Float64}

pub record VehiclePosition : Type 0 where
  pub agency : Text
  pub vehicle_id : Text
  pub lat : Float64
  pub lng : Float64
  pub bearing : Float64
  pub speed : Float64
  pub route : Text
  pub trip : Text
  pub timestamp : Time

-- %d of an int64
unfoldable pub print_int : ℤ → Text
print_int (pos n) = decimal n
print_int (negsuc n) = b'-' ∷ decimal (n + 1)

-- `{agency}:{vehicle_id}:{timestamp_ns}`
unfoldable pub key : VehiclePosition → Text
unfolding print_int
key v = v.agency ++ b':' ∷ (v.vehicle_id ++ b':' ∷ print_int (unix_nano v.timestamp))

unfoldable pub agency_prefix : Text → Text
agency_prefix agency = agency ++ b':' ∷ []

-- The loop of `prefixUpperBound`, over the bytes from the last one: the bytes up to the first
-- that can be raised, raised, still reversed.
unfoldable pub raise_last : Text → Option Text
raise_last [] = none
raise_last (b ∷ bs) = if ltb b 0xff then some ((b + 1) ∷ bs) else raise_last bs

unfoldable pub prefix_upper_bound : Text → Text
unfolding raise_last
prefix_upper_bound prefix = elim (raise_last (reverse prefix)) [
  | none ↦ prefix ++ 0 ∷ []
  | some bs ↦ reverse bs
]

unfoldable pub agency_upper_bound : Text → Text
unfolding prefix_upper_bound
agency_upper_bound agency = prefix_upper_bound (agency ++ b':' ∷ [])

unfoldable pub second_part : List Text → Text
second_part (a ∷ b ∷ rest) = b
second_part (a ∷ []) = []
second_part [] = []

unfoldable pub vehicle_id_from_key : Text → Text
unfolding second_part
vehicle_id_from_key k = second_part (split_n 2 b':' k)

-- strconv.ParseInt(s, 10, 64) where the error is dropped: 0 for a malformed text, the nearest
-- int64 for a number out of range.
unfoldable pub signed : Text → ℤ
signed s = elim (parse_digits 0 s) [
  | none ↦ pos 0
  | some n ↦ if ltb n (2 ^ 63) then pos n else pos (2 ^ 63 - 1)
]

unfoldable pub negated : Text → ℤ
negated s = elim (parse_digits 0 s) [
  | none ↦ pos 0
  | some zero ↦ pos 0
  | some (suc n) ↦ if ltb n (2 ^ 63) then negsuc n else negsuc (2 ^ 63 - 1)
]

unfoldable pub parse_int : Text → ℤ
unfolding signed negated
parse_int [] = pos 0
parse_int (c ∷ []) = signed (c ∷ [])
parse_int (c ∷ d ∷ cs) =
    if c == b'-'
    then negated (d ∷ cs)
    else if c == b'+'
    then signed (d ∷ cs)
    else signed (c ∷ d ∷ cs)

unfoldable pub third_part : List Text → ℤ
unfolding parse_int
third_part (a ∷ b ∷ c ∷ rest) = parse_int c
third_part rest = pos 0

unfoldable pub timestamp_ns_from_key : Text → ℤ
unfolding third_part
timestamp_ns_from_key k = third_part (split_n 2 b':' k)
