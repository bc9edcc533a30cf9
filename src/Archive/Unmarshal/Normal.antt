-- ===== src/Archive/Unmarshal/Normal.antt =====
-- The normal form in which the server of the archive has the values that its client sent.
use go_gedung_peristiwa.Prelude.{Option, none, if◌then◌else◌}
use go_gedung_peristiwa.Prelude.Int.{ℤ}
use go_gedung_peristiwa.Text.{Text}
use go_gedung_peristiwa.Gtfs.Bounds.{Float64}
use go_gedung_peristiwa.Archive.Metric.{
  Value, value, Values, nil, cons, is_int, is_float, is_string, is_list,
}

-- A value without the parts that do not belong to its type, at every depth.
unfoldable pub normal_payload : ℤ → Option ℤ → Option Float64 → Option Text → Values → Value
normal_payload t i f s list =
    if is_int t
    then value t i none none nil
    else if is_float t
    then value t none f none nil
    else if is_string t
    then value t none none s nil
    else if is_list t
    then value t none none none list
    else value t none none none nil

unfoldable mutual
  unfolding normal_payload

  pub normal_value : Value → Value
  normal_value (value t i f s l) = normal_payload t i f s (normal_values l)

  pub normal_values : Values → Values
  normal_values nil = nil
  normal_values (cons v vs) = cons (normal_value v) (normal_values vs)
