-- ===== src/Archive/Unmarshal.antt =====
-- unmarshalMetricPoint and its helpers of ARCHIVE/Jul252026/internal/server/main.go. A loop over the
-- fields of a message takes fuel, a unit for each field, those of nested messages included; `none`
-- is fuel that ran out.
pub mod Normal
pub mod Trees
pub mod Entries
pub mod Properties
pub mod RoundTrip
pub mod Ends
use go_gedung_peristiwa.Prelude.{
  ℕ, zero, suc, List, [], ◌∷◌, ◌++◌, Option, none, some, Result, ok, err, Bool, true, false, ◌==◌,
  if◌then◌else◌, ℕ_discrete,
}
use go_gedung_peristiwa.Prelude.Int.{ℤ, pos}
use go_gedung_peristiwa.Text.{Text, is_empty}
use go_gedung_peristiwa.Assoc.{Assoc, insert}
use go_gedung_peristiwa.Archive.Metric.{
  Value, value, Values, nil, cons, Label, MetricPoint, is_int, is_float, is_string, is_list,
}
use go_gedung_peristiwa.Archive.Wire.{Field, EasyProto}

pub data DecodeError : Type 0 where
  no_next_field invalid_timestamp invalid_value invalid_is_null invalid_label invalid_properties :
      DecodeError
  invalid_label_name invalid_label_value invalid_item invalid_key invalid_value_message :
      DecodeError
  missing_key missing_value invalid_type invalid_int invalid_float invalid_string
        invalid_list_item :
      DecodeError

-- `none` is fuel that ran out.
abbrev pub Decoded : Type 0 → Type 0
Decoded A = Option (Result DecodeError A)

unfoldable pub then_decode : {A B : Type 0} → Decoded A → (A → Decoded B) → Decoded B
then_decode none k = none
then_decode (some (err e)) k = some (err e)
then_decode (some (ok a)) k = k a

-- A getter that says no is an error.
abbrev pub getting : {A : Type 0} → DecodeError → Option A → Decoded A
getting e none = some (err e)
getting e (some a) = some (ok a)

unfoldable pub push : Value → Values → Values
push v nil = cons v nil
push v (cons w ws) = cons w (push v ws)

-- `&shared.Value{}`
abbrev pub empty_value : Value
empty_value = value (pos 0) none none none nil

abbrev pub with_item : Value → Value → Value
with_item (value t i f s l) item = value t i f s (push item l)

abbrev pub zero_point : MetricPoint
zero_point = record {
  timestamp = pos 0;
  value = 0;
  is_null = false;
  labels = [];
  properties = none;
}

module _ {Bytes : Type 0} (wire : EasyProto Bytes) where
  -- The loop that the functions share, on a step for a field and with what the loop keeps.
  unfoldable pub each_field :
      {S : Type 0} → (ℕ → Field Bytes → S → Decoded S) → ℕ → Bytes → S → Decoded S
  unfolding then_decode
  each_field step zero bytes s = none
  each_field step (suc f) bytes s =
      if wire.is_done bytes then some (ok s) else elim (wire.next_field bytes) [
        | none ↦ some (err no_next_field)
        | some (fd, rest) ↦ then_decode (step f fd s) (λ s'. each_field step f rest s')
      ]

  -- The fields of a value but for its list.
  unfoldable pub set_scalar : Field Bytes → Value → Decoded Value
  unfolding then_decode
  set_scalar fd (value t i f s l) =
      if fd.number == 1
      then then_decode (getting invalid_type fd.as_int32) (λ n. some (ok (value n i f s l)))
      else if fd.number == 2
      then then_decode (getting invalid_int fd.as_int64) (λ n. some (ok (value t (some n) f s l)))
      else if fd.number == 3
      then then_decode (getting invalid_float fd.as_double)
          (λ x. some (ok (value t i (some x) s l)))
      else if fd.number == 4
      then then_decode (getting invalid_string fd.as_string)
          (λ a. some (ok (value t i f (some a) l)))
      else some (ok (value t i f s l))

  unfoldable pub unmarshal_value : ℕ → Bytes → Value → Decoded Value
  unfolding set_scalar then_decode
  unmarshal_value zero bytes v = none
  unmarshal_value (suc f) bytes v = elim (wire.is_done bytes) [
    | true ↦ some (ok v)
    | false ↦ elim (wire.next_field bytes) [
      | none ↦ some (err no_next_field)
      | some (fd, rest) ↦ elim (ℕ_discrete fd.number 5) [
        | no _ ↦ then_decode (set_scalar fd v) (λ v'. unmarshal_value f rest v')
        | yes _ ↦ then_decode (getting invalid_list_item fd.as_message) (λ item.
            then_decode (unmarshal_value f item empty_value)
              (λ w. unmarshal_value f rest (with_item v w)))
      ]
    ]
  ]

  -- A step of unmarshalMapEntry: the key and the value so far.
  unfoldable pub entry_step : ℕ → Field Bytes → Text × Option Value → Decoded (Text × Option Value)
  unfolding then_decode
  entry_step f fd (key, v) =
      if fd.number == 1
      then then_decode (getting invalid_key fd.as_string) (λ k. some (ok (k, v)))
      else if fd.number == 2
      then then_decode (getting invalid_value_message fd.as_message) (λ bytes.
        then_decode (unmarshal_value f bytes empty_value) (λ w. some (ok (key, some w))))
      else some (ok (key, v))

  unfoldable pub unmarshal_map_entry : ℕ → Bytes → Decoded (Text × Value)
  unfolding then_decode each_field entry_step
  unmarshal_map_entry f bytes = then_decode (each_field entry_step f bytes ([], none)) (λ entry.
      if is_empty entry.0
      then some (err missing_key)
      else elim entry.1 [ none ↦ some (err missing_value) | some v ↦ some (ok (entry.0, v)) ])

  unfoldable pub items_step : ℕ → Field Bytes → Assoc Value → Decoded (Assoc Value)
  unfolding then_decode unmarshal_map_entry
  items_step f fd m =
      if fd.number == 1
      then then_decode (getting invalid_item fd.as_message) (λ bytes.
        then_decode (unmarshal_map_entry f bytes) (λ entry. some (ok (insert entry.0 entry.1 m))))
      else some (ok m)

  unfoldable pub unmarshal_key_value : ℕ → Bytes → Assoc Value → Decoded (Assoc Value)
  unfolding each_field items_step
  unmarshal_key_value = each_field items_step

  unfoldable pub label_step : ℕ → Field Bytes → Label → Decoded Label
  unfolding then_decode
  label_step f fd l =
      if fd.number == 1
      then then_decode (getting invalid_label_name fd.as_string)
          (λ a. some (ok (record l { name = a })))
      else if fd.number == 2
      then then_decode (getting invalid_label_value fd.as_string)
          (λ a. some (ok (record l { value = a })))
      else some (ok l)

  unfoldable pub unmarshal_label : ℕ → Bytes → Decoded Label
  unfolding each_field label_step
  unmarshal_label f bytes = each_field label_step f bytes (record { name = []; value = [] })

  -- The point so far, with the items of its properties, which are never nil on the server.
  unfoldable pub point_step :
      ℕ → Field Bytes → MetricPoint × Assoc Value → Decoded (MetricPoint × Assoc Value)
  unfolding then_decode unmarshal_label unmarshal_key_value
  point_step f fd (mp, m) =
      if fd.number == 1
      then then_decode (getting invalid_timestamp fd.as_int64)
          (λ n. some (ok (record mp { timestamp = n }, m)))
      else if fd.number == 2
      then then_decode (getting invalid_value fd.as_double)
          (λ x. some (ok (record mp { value = x }, m)))
      else if fd.number == 3
      then then_decode (getting invalid_is_null fd.as_bool)
          (λ b. some (ok (record mp { is_null = b }, m)))
      else if fd.number == 4
      then then_decode (getting invalid_label fd.as_message) (λ bytes.
        then_decode (unmarshal_label f bytes)
          (λ l. some (ok (record mp { labels = mp.labels ++ l ∷ [] }, m))))
      else if fd.number == 5
      then then_decode (getting invalid_properties fd.as_message)
          (λ bytes. then_decode (unmarshal_key_value f bytes m) (λ m'. some (ok (mp, m'))))
      else some (ok (mp, m))

  unfoldable pub unmarshal_metric_point : ℕ → Bytes → Decoded MetricPoint
  unfolding each_field point_step then_decode
  unmarshal_metric_point f bytes =
      then_decode (each_field point_step f bytes (zero_point, []))
        (λ r. some (ok (record r.0 { properties = some r.1 })))
