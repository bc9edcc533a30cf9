-- ===== src/Archive/Metric.antt =====
-- ARCHIVE/Jul252026/internal/shared/types.go: the points that the client sends and the server reads.
use go_gedung_peristiwa.Prelude.{List, Option, Bool}
use go_gedung_peristiwa.Prelude.Int.{ℤ, is_pos}
use go_gedung_peristiwa.Text.{Text}
use go_gedung_peristiwa.Assoc.{Assoc}
use go_gedung_peristiwa.Gtfs.Bounds.{Float64}

-- The type, the pointers to an int64, a float64 and a string, and the list.
mutual
  pub data Value : Type 0 where
    value : ℤ → Option ℤ → Option Float64 → Option Text → Values → Value

  pub data Values : Type 0 where
    nil : Values
    cons : Value → Values → Values

pub record Label : Type 0 where
  pub name : Text
  pub value : Text

-- `properties` is `none` for the nil pointer.
pub record MetricPoint : Type 0 where
  pub timestamp : ℤ
  pub value : Float64
  pub is_null : Bool
  pub labels : List Label
  pub properties : Option (Assoc Value)

abbrev pub is_int : ℤ → Bool
is_int t = is_pos t 1

abbrev pub is_float : ℤ → Bool
is_float t = is_pos t 2

abbrev pub is_string : ℤ → Bool
is_string t = is_pos t 3

abbrev pub is_list : ℤ → Bool
is_list t = is_pos t 4
