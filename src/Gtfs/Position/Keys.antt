-- ===== src/Gtfs/Position/Keys.antt =====
-- What the keys of internal/gtfs/types.go give back.
use go_gedung_peristiwa.Prelude.{
  ℕ, suc, ◌<◌, ◌≤◌, ◌^◌, ◌≡◌, refl, ap, ◌∙◌, [], ◌∷◌, ◌++◌, some, arith,
}
use go_gedung_peristiwa.Prelude.Int.{pos}
use go_gedung_peristiwa.Text.{
  Text, Lacks, cut, split_n, decimal, cut-append, decimal-StartsWithDigit, parse_digits-decimal,
}
use go_gedung_peristiwa.Time.{Time, unix_nano}
use go_gedung_peristiwa.Gtfs.Position.{
  VehiclePosition, key, print_int, vehicle_id_from_key, timestamp_ns_from_key, parse_int, signed,
}

split_n_step :
    (n b : ℕ) (s before after : Text)
    → cut b s ≡ some (before, after)
    → split_n (suc n) b s ≡ before ∷ split_n n b after
unfolding split_n
split_n_step n b s before after h = ground arith

-- A key splits into its three parts if neither name holds a colon.
split_n-key :
    (v : VehiclePosition)
    → Lacks b':' v.agency
    → Lacks b':' v.vehicle_id
    → split_n 2 b':' (key v) ≡ v.agency ∷ v.vehicle_id ∷ print_int (unix_nano v.timestamp) ∷ []
unfolding split_n key
split_n-key v ha hv =
    let stamp = print_int (unix_nano v.timestamp) in
    split_n_step 1 b':' _ v.agency _ (cut-append b':' v.agency (v.vehicle_id ++ b':' ∷ stamp) ha)
    ∙ ap (◌∷◌ v.agency)
        (split_n_step 0 b':' _ v.vehicle_id stamp (cut-append b':' v.vehicle_id stamp hv))

-- The vehicle's identifier comes back from the key of a position whose names hold no colon.
pub vehicle_id_from_key-key :
    (v : VehiclePosition)
    → Lacks b':' v.agency
    → Lacks b':' v.vehicle_id
    → vehicle_id_from_key (key v) ≡ v.vehicle_id
unfolding vehicle_id_from_key
vehicle_id_from_key-key v ha hv = rw (split_n-key v ha hv)

unix_nano-range : (t : Time) (n : ℕ) → unix_nano t ≡ pos n → n < 2 ^ 63
unfolding unix_nano
unix_nano-range t n h = ground arith

parse_int_digit : (c : ℕ) (cs : Text) → 48 ≤ c → parse_int (c ∷ cs) ≡ signed (c ∷ cs)
unfolding parse_int
parse_int_digit c [] h = refl
parse_int_digit c (d ∷ cs) h = ground arith

parse_int-decimal : (n : ℕ) → n < 2 ^ 63 → parse_int (decimal n) ≡ pos n
unfolding signed
parse_int-decimal n h =
    let d = decimal-StartsWithDigit n in
    rw d.split (
      parse_int_digit d.first d.rest d.digit
      ∙ rw (← d.split) (ground (arith, parse_digits-decimal n)))

-- Where moreover the time is not before 1970, its nanoseconds come back, too.
pub timestamp_ns_from_key-key :
    (v : VehiclePosition) (n : ℕ)
    → Lacks b':' v.agency
    → Lacks b':' v.vehicle_id
    → unix_nano v.timestamp ≡ pos n
    → timestamp_ns_from_key (key v) ≡ pos n
unfolding timestamp_ns_from_key print_int
timestamp_ns_from_key-key v n ha hv e =
    rw (split_n-key v ha hv, e) (parse_int-decimal n (unix_nano-range v.timestamp n e))
