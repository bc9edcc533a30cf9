-- ===== src/Archive/Unmarshal/RoundTrip.antt =====
-- What the server of the archive reads of a point that the client sent.
use go_gedung_peristiwa.Prelude.{
  ℕ, zero, suc, ◌<◌, ◌≡◌, sym, subst, ◌∙◌, List, [], ◌∷◌, ◌++◌, append_assoc, append-nil, Option,
  none, some, ok, err, Bool, if◌then◌else◌, Bool-cases, inl, inr, arith,
}
use go_gedung_peristiwa.Assoc.{Assoc, Distinct}
use go_gedung_peristiwa.Gtfs.Bounds.{Float64}
use go_gedung_peristiwa.Prelude.Int.{ℤ}
use go_gedung_peristiwa.Archive.Metric.{Value, Label, MetricPoint}
use go_gedung_peristiwa.Archive.Wire.{
  Items, end, append, int64, double, boolean, message, EasyProto, Reads, size,
}
use go_gedung_peristiwa.Archive.Marshal.{
  marshal_items, marshal_properties, marshal_label, marshal_labels, metric_items,
  marshal_metric_point,
}
use go_gedung_peristiwa.Archive.Unmarshal.{
  Decoded, missing_key, then_decode, each_field, point_step, unmarshal_metric_point, zero_point,
}
use go_gedung_peristiwa.Archive.Unmarshal.Entries.{
  each_field-end, each_field-step, each_field-err, unmarshal_label-marshal_label,
}
use go_gedung_peristiwa.Archive.Unmarshal.Properties.{
  normal_items, normal_properties, has_empty_key, names_nothing, HasDistinctKeys,
  unmarshal_key_value-marshal_items,
}

-- The values without what does not belong to their types, and no properties as an empty map.
abbrev pub normal_point : MetricPoint → MetricPoint
normal_point mp = record mp { properties = some (normal_properties mp.properties) }

module _ {Bytes : Type 0} (wire : EasyProto Bytes) (reads : Reads wire) where
  point_step-label :
      (f : ℕ) (l : Label) (rest : Items) (mp : MetricPoint) (m : Assoc Value)
      → size (marshal_label l) < f
      → point_step wire f (reads.field 4 (message (marshal_label l)) rest) (mp, m)
        ≡ some (ok (record mp { labels = mp.labels ++ l ∷ [] }, m))
  unfolding point_step then_decode
  point_step-label f l rest mp m h =
      let i = message (marshal_label l) in
      ground (
        arith,
        reads.number 4 i rest,
        reads.holds 4 i rest,
        unmarshal_label-marshal_label wire reads l f h,
      )

  -- The labels are read in their order, before the rest.
  read-labels :
      (ls : List Label) (rest : Items) (mp : MetricPoint) (m : Assoc Value) (f : ℕ)
      (r : Decoded (MetricPoint × Assoc Value))
      → size (marshal_labels ls rest) < f
      → ((g : ℕ)
          → size rest < g
          → each_field wire
              (point_step wire)
              g
              (wire.marshal rest)
              (record mp { labels = mp.labels ++ ls }, m)
            ≡ r)
      → each_field wire (point_step wire) f (wire.marshal (marshal_labels ls rest)) (mp, m) ≡ r
  unfolding marshal_labels size
  read-labels [] rest mp m f r h go =
      subst
        (λ ls.
          each_field wire (point_step wire) f (wire.marshal rest) (record mp { labels = ls }, m)
          ≡ r)
        (append-nil mp.labels) (go f h)
  read-labels (l ∷ ls) rest mp m zero r h go = absurd (omega arith)
  read-labels (l ∷ ls) rest mp m (suc f) r h go =
      each_field-step wire reads (point_step wire) f 4 (message (marshal_label l))
        (marshal_labels ls rest) (mp, m) _
        (point_step-label f l (marshal_labels ls rest) mp m (omega arith))
      ∙ read-labels ls rest (record mp { labels = mp.labels ++ l ∷ [] }) m f r (omega arith)
          (λ g k.
            subst
              (λ ls'.
                each_field wire (point_step wire) g (wire.marshal rest)
                  (record mp { labels = ls' }, m)
                ≡ r)
              (sym (append_assoc mp.labels (l ∷ []) ls)) (go g k))

  point_step-properties :
      (f : ℕ) (n : Assoc Value) (rest : Items) (mp : MetricPoint)
      → size (marshal_items n) < f
      → Distinct n
      → point_step wire f (reads.field 5 (message (marshal_items n)) rest) (mp, [])
        ≡ (if has_empty_key n then some (err missing_key) else some (ok (mp, normal_items n)))
  unfolding point_step then_decode
  point_step-properties f n rest mp h d =
      let i = message (marshal_items n) in
      ground (
        arith,
        reads.number 5 i rest,
        reads.holds 5 i rest,
        unmarshal_key_value-marshal_items wire reads n [] f h d,
      )

  read-properties :
      (p : Option (Assoc Value)) (mp : MetricPoint) (f : ℕ)
      → size (marshal_properties p) < f
      → HasDistinctKeys p
      → each_field wire (point_step wire) f (wire.marshal (marshal_properties p)) (mp, [])
        ≡ (if names_nothing p then some (err missing_key) else some (ok (mp, normal_properties p)))
  unfolding marshal_properties size
  read-properties none mp f h d = each_field-end wire reads (point_step wire) f (mp, []) h
  read-properties (some n) mp zero h d = absurd (omega arith)
  read-properties (some n) mp (suc f) h d =
      let i = message (marshal_items n) in
      let set = point_step-properties f n end mp (omega arith) d in
      elim (Bool-cases (has_empty_key n)) [
        | inl e ↦ rw e (
            each_field-err wire reads (point_step wire) f 5 i end (mp, []) missing_key
              (ground (arith, set, e)))
        | inr ne ↦ rw ne (
            each_field-step wire reads (point_step wire) f 5 i end (mp, []) _
              (ground (arith, set, ne))
            ∙ each_field-end wire reads (point_step wire) f (mp, normal_items n) (omega arith))
      ]

  point_step-timestamp :
      (f : ℕ) (t : ℤ) (rest : Items) (mp : MetricPoint)
      → point_step wire f (reads.field 1 (int64 t) rest) (mp, [])
        ≡ some (ok (record mp { timestamp = t }, []))
  unfolding point_step then_decode
  point_step-timestamp f t rest mp =
      ground (arith, reads.number 1 (int64 t) rest, reads.holds 1 (int64 t) rest)

  point_step-value :
      (f : ℕ) (x : Float64) (rest : Items) (mp : MetricPoint)
      → point_step wire f (reads.field 2 (double x) rest) (mp, [])
        ≡ some (ok (record mp { value = x }, []))
  unfolding point_step then_decode
  point_step-value f x rest mp =
      ground (arith, reads.number 2 (double x) rest, reads.holds 2 (double x) rest)

  point_step-is_null :
      (f : ℕ) (b : Bool) (rest : Items) (mp : MetricPoint)
      → point_step wire f (reads.field 3 (boolean b) rest) (mp, [])
        ≡ some (ok (record mp { is_null = b }, []))
  unfolding point_step then_decode
  point_step-is_null f b rest mp =
      ground (arith, reads.number 3 (boolean b) rest, reads.holds 3 (boolean b) rest)

  read-metric :
      (mp : MetricPoint) (f : ℕ)
      → HasDistinctKeys mp.properties
      → size (metric_items mp) < f
      → each_field wire (point_step wire) f (wire.marshal (metric_items mp)) (zero_point, []) ≡ (
          if names_nothing mp.properties
          then some (err missing_key)
          else some (ok (record mp { properties = none }, normal_properties mp.properties)))
  unfolding metric_items size
  read-metric mp zero d h = absurd (omega arith)
  read-metric mp (suc zero) d h = absurd (omega arith)
  read-metric mp (suc (suc zero)) d h = absurd (omega arith)
  read-metric mp (suc (suc (suc f))) d h =
      let rest = marshal_labels mp.labels (marshal_properties mp.properties) in
      let t = mp.timestamp in
      let x = mp.value in
      let b = mp.is_null in
      each_field-step wire reads (point_step wire) (suc (suc f)) 1 (int64 t)
        (append 2 (double x) (append 3 (boolean b) rest)) _ _
        (point_step-timestamp (suc (suc f)) t _ zero_point)
      ∙ each_field-step wire reads (point_step wire) (suc f) 2 (double x)
          (append 3 (boolean b) rest) _ _ (point_step-value (suc f) x _ _)
      ∙ each_field-step wire reads (point_step wire) f 3 (boolean b) rest _ _
          (point_step-is_null f b rest _)
      ∙ read-labels mp.labels (marshal_properties mp.properties) _ [] f _ (omega arith)
          (λ g k. read-properties mp.properties _ g k d)

  -- Under the laws of the wire format, and for a point whose properties have each key once: with
  -- more fuel than the point has calls on the marshaler, the server reads what the client has sent
  -- as the point with its values in their normal form and nil properties as empty ones, unless a
  -- property has the empty key, for which it refuses the point.
  pub unmarshal_metric_point-marshal_metric_point :
      (mp : MetricPoint) (f : ℕ)
      → HasDistinctKeys mp.properties
      → size (metric_items mp) < f
      → unmarshal_metric_point wire f (marshal_metric_point wire mp) ≡ (
          if names_nothing mp.properties
          then some (err missing_key)
          else some (ok (normal_point mp)))
  unfolding unmarshal_metric_point marshal_metric_point then_decode
  unmarshal_metric_point-marshal_metric_point mp f d h = ground (arith, read-metric mp f d h)
