-- ===== src/Archive/Marshal.antt =====
-- marshalMetricPoint and marshalValue of ARCHIVE/Jul252026/internal/client/main.go, by the calls that
-- they make on the marshaler. The items of a map come in the order of its list.
use go_gedung_peristiwa.Prelude.{List, [], ◌∷◌, Option, none, some, if◌then◌else◌}
use go_gedung_peristiwa.Prelude.Int.{ℤ}
use go_gedung_peristiwa.Text.{Text}
use go_gedung_peristiwa.Gtfs.Bounds.{Float64}
use go_gedung_peristiwa.Assoc.{Assoc}
use go_gedung_peristiwa.Archive.Metric.{
  Value, value, Values, nil, cons, Label, MetricPoint, is_int, is_float, is_string, is_list,
}
use go_gedung_peristiwa.Archive.Wire.{
  Items, end, append, int64, int32, double, boolean, string, message, EasyProto,
}

-- The switch of marshalValue on the type, with what the loop over the list appends.
unfoldable pub marshal_payload : ℤ → Option ℤ → Option Float64 → Option Text → Items → Items
marshal_payload t i f s list =
    if is_int t
    then elim i [ none ↦ end | some n ↦ append 2 (int64 n) end ]
    else if is_float t
    then elim f [ none ↦ end | some x ↦ append 3 (double x) end ]
    else if is_string t
    then elim s [ none ↦ end | some a ↦ append 4 (string a) end ]
    else if is_list t
    then list
    else end

unfoldable mutual
  unfolding marshal_payload

  pub marshal_value : Value → Items
  marshal_value (value t i f s l) = append 1 (int32 t) (marshal_payload t i f s (marshal_values l))

  pub marshal_values : Values → Items
  marshal_values nil = end
  marshal_values (cons v vs) = append 5 (message (marshal_value v)) (marshal_values vs)

unfoldable pub marshal_item : Text → Value → Items
unfolding marshal_value
marshal_item k v = append 1 (string k) (append 2 (message (marshal_value v)) end)

unfoldable pub marshal_items : Assoc Value → Items
unfolding marshal_item
marshal_items [] = end
marshal_items ((k, v) ∷ m) = append 1 (message (marshal_item k v)) (marshal_items m)

unfoldable pub marshal_properties : Option (Assoc Value) → Items
unfolding marshal_items
marshal_properties none = end
marshal_properties (some m) = append 5 (message (marshal_items m)) end

unfoldable pub marshal_label : Label → Items
marshal_label l = append 1 (string l.name) (append 2 (string l.value) end)

unfoldable pub marshal_labels : List Label → Items → Items
unfolding marshal_label
marshal_labels [] rest = rest
marshal_labels (l ∷ ls) rest = append 4 (message (marshal_label l)) (marshal_labels ls rest)

unfoldable pub metric_items : MetricPoint → Items
unfolding marshal_labels marshal_properties
metric_items mp = append 1 (int64 mp.timestamp) (
    append 2 (double mp.value)
      (append 3 (boolean mp.is_null) (marshal_labels mp.labels (marshal_properties mp.properties))))

unfoldable pub marshal_metric_point : {Bytes : Type 0} → EasyProto Bytes → MetricPoint → Bytes
unfolding metric_items
marshal_metric_point wire mp = wire.marshal (metric_items mp)
