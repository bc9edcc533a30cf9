-- ===== src/Examples/Archived.antt =====
-- Points with a property of each type, on a wire that hands the calls over as they are, and a batch
-- on a codec that does the same.
use go_gedung_peristiwa.Prelude.{
  ℕ, ◌≡◌, ◌≤◌, ◌≢◌, ◌+◌, refl, List, [], ◌∷◌, none, some, ok, true, false, arith, ℕ_discrete, ◌<◌,
  length, subst, suc, ap, sym, ◌⊎◌, inl, inr,
}
use go_gedung_peristiwa.Prelude.Int.{pos}
use go_gedung_peristiwa.Text.{codes, text_dec}
use go_gedung_peristiwa.Archive.Metric.{value, nil, cons, MetricPoint}
use go_gedung_peristiwa.Archive.Wire.{
  Item, int64, int32, double, boolean, string, message, Items, end, append, Field, EasyProto, Reads,
  Holds, size, size_item,
}
use go_gedung_peristiwa.Archive.Marshal.{
  marshal_metric_point, metric_items, marshal_labels, marshal_label, marshal_properties,
  marshal_items, marshal_item, marshal_value, marshal_payload,
}
use go_gedung_peristiwa.Assoc.{lookup, insert}
use go_gedung_peristiwa.Archive.Unmarshal.{
  unmarshal_metric_point, point_step, each_field, unmarshal_label, unmarshal_key_value, items_step,
  unmarshal_map_entry, entry_step, unmarshal_value, set_scalar, label_step, then_decode, push,
}
use go_gedung_peristiwa.Archive.Unmarshal.Properties.{HasDistinctKeys}
use go_gedung_peristiwa.Archive.Unmarshal.RoundTrip.{
  normal_point, unmarshal_metric_point-marshal_metric_point,
}
use go_gedung_peristiwa.Archive.Unmarshal.Ends.{Shrinks, unmarshal_metric_point-ends}
use go_gedung_peristiwa.Archive.Server.{
  Event, arrived, timed_out, sent, serving, new_stream, accepted, panicked, handle_metric,
  process_metrics, iteration, send_answer, after_sending, log_properties, derefs_nil,
}
use go_gedung_peristiwa.Archive.Server.Answered.{
  handle_metric-marshal_metric_point, process_metrics-messages,
}
use go_gedung_peristiwa.Archive.Client.{Draws, generate_random_metric}
use go_gedung_peristiwa.Archive.Client.Accepted.{handle_metric-generate_random_metric}
use go_gedung_peristiwa.Archive.Http.{Json, MetricResponse}
use go_gedung_peristiwa.Archive.Http.Laws.{ReadsBack}

abbrev field_of : ℕ → Item → Field Items
field_of n i = record {
  number = n;
  as_int64 = elim i [ int64 k ↦ some k | _ ↦ none ];
  as_int32 = elim i [ int32 k ↦ some k | _ ↦ none ];
  as_double = elim i [ double x ↦ some x | _ ↦ none ];
  as_bool = elim i [ boolean b ↦ some b | _ ↦ none ];
  as_string = elim i [ string a ↦ some a | _ ↦ none ];
  as_message = elim i [ message is ↦ some is | _ ↦ none ];
}

abbrev wire : EasyProto Items
wire = record {
  marshal = λ is. is;
  is_done = λ is. elim is [ end ↦ true | append n i rest ↦ false ];
  next_field = λ is. elim is [ end ↦ none | append n i rest ↦ some (field_of n i, rest) ];
}

field_of-Holds : (n : ℕ) (i : Item) → Holds wire i (field_of n i)
field_of-Holds n (int64 k) = refl
field_of-Holds n (int32 k) = refl
field_of-Holds n (double x) = refl
field_of-Holds n (boolean b) = refl
field_of-Holds n (string a) = refl
field_of-Holds n (message is) = refl

abbrev wire_reads : Reads wire
wire_reads = record {
  done = refl;
  more = λ n i rest. refl;
  field = λ n i rest. field_of n i;
  next = λ n i rest. refl;
  number = λ n i rest. refl;
  holds = λ n i rest. field_of-Holds n i;
}

-- The first property has a pointer that is not of its type, the second is a list.
abbrev point : MetricPoint
point = record {
  timestamp = pos 17;
  value = 3;
  is_null = false;
  labels = record { name = codes "env"; value = codes "dev" } ∷ [];
  properties = some (
      (codes "count", value (pos 1) (some (pos 4)) none (some (codes "four")) nil)
      ∷ (
        codes "tags",
        value (pos 4) none none none (cons (value (pos 3) none none (some (codes "a")) nil) nil),
      )
      ∷ []);
}

-- An integer without its value.
abbrev hollow_point : MetricPoint
hollow_point = record point {
  properties = some ((codes "count", value (pos 1) none none none nil) ∷ []);
}

point-HasDistinctKeys : HasDistinctKeys point.properties
unfolding lookup text_dec ℕ_discrete
point-HasDistinctKeys = (refl, (refl, tt))

size-point : size (metric_items point) < 100
unfolding size metric_items marshal_labels marshal_label marshal_properties marshal_value
    marshal_items marshal_payload
size-point = omega arith

size-hollow_point : size (metric_items hollow_point) < 100
unfolding size metric_items marshal_labels marshal_label marshal_properties marshal_value
    marshal_items marshal_payload
size-hollow_point = omega arith

unmarshal_metric_point-marshal_metric_point_example :
    unmarshal_metric_point wire 100 (marshal_metric_point wire point)
    ≡ some (ok (normal_point point))
unmarshal_metric_point-marshal_metric_point_example =
    unmarshal_metric_point-marshal_metric_point wire wire_reads point 100 point-HasDistinctKeys
      size-point

hollow_point-HasDistinctKeys : HasDistinctKeys hollow_point.properties
unfolding lookup
hollow_point-HasDistinctKeys = (refl, tt)

handle_metric-marshal_metric_point_example :
    handle_metric wire 100 (marshal_metric_point wire hollow_point) ≡ some panicked
unfolding log_properties derefs_nil
handle_metric-marshal_metric_point_example =
    handle_metric-marshal_metric_point wire wire_reads hollow_point 100 hollow_point-HasDistinctKeys
      size-hollow_point

abbrev draws : Draws
draws = record {
  int_val = pos 4;
  float_val = 3;
  str_index = 1;
  is_complex = true;
  now = pos 17;
  metric_value = 5;
  is_null = false;
  host_index = 2;
  env_index = 0;
  keeps = λ name. true;
}

size-draws : size (metric_items (generate_random_metric draws)) < 200
unfolding size metric_items marshal_labels marshal_label marshal_properties marshal_value
    marshal_items marshal_payload generate_random_metric insert text_dec ℕ_discrete
size-draws = omega arith

handle_metric-generate_random_metric_example :
    (unmarshal_metric_point wire 200 (marshal_metric_point wire (generate_random_metric draws))
      ≡ some (ok (generate_random_metric draws)))
    × (handle_metric wire 200 (marshal_metric_point wire (generate_random_metric draws))
        ≡ some accepted)
handle_metric-generate_random_metric_example =
    handle_metric-generate_random_metric wire wire_reads draws 200 size-draws

-- The second message goes to the receiver that the timeout has left behind.
abbrev events : List (Event Items)
events =
    arrived (marshal_metric_point wire point) false sent
    ∷ timed_out
    ∷ arrived (marshal_metric_point wire point) true sent
    ∷ arrived (marshal_metric_point wire point) true sent
    ∷ []

events-serving : (process_metrics wire 100 events new_stream).1 ≡ serving
unfolding process_metrics iteration send_answer after_sending handle_metric unmarshal_metric_point
    point_step each_field unmarshal_label unmarshal_key_value items_step unmarshal_map_entry
    entry_step unmarshal_value set_scalar label_step then_decode metric_items marshal_metric_point
    marshal_labels marshal_label marshal_properties marshal_value marshal_items marshal_item
    marshal_payload push insert text_dec ℕ_discrete log_properties derefs_nil
events-serving = refl

process_metrics-messages_example :
    (length (process_metrics wire 100 events new_stream).0.answers
        + (process_metrics wire 100 events new_stream).0.lost
      ≡ 3)
    × ((process_metrics wire 100 events new_stream).0.lost ≤ 1)
process_metrics-messages_example = process_metrics-messages wire 100 events events-serving

-- The body is the batch itself.
abbrev json : Json (List MetricPoint ⊎ MetricResponse)
json = record {
  marshal_request = λ ms. some (inl ms);
  decode_request = λ body. elim body [ inl ms ↦ some ms | inr r ↦ none ];
  encode_response = λ r. inr r;
  decode_response = λ body. elim body [ inl ms ↦ none | inr r ↦ some r ];
}

json-ReadsBack : ReadsBack json
json-ReadsBack = (
  (λ ms body e.
      (ms, ap (λ o. elim o [ none ↦ none | some b ↦ json.decode_request b ]) (sym e), refl)),
  (λ r h. refl),
)

-- Every item is counted with the messages in it.
message-size :
    (n : ℕ) (i : Item) (is : Items)
    → (field_of n i).as_message ≡ some is
    → size is < suc (size_item i)
unfolding size_item
message-size n (message js) is e =
    subst (λ o. elim o [ none ↦ Unit {0} | some is ↦ size is < suc (1 + size js) ]) e (omega arith)
message-size n (int64 k) is e = absurd cc
message-size n (int32 k) is e = absurd cc
message-size n (double x) is e = absurd cc
message-size n (boolean b) is e = absurd cc
message-size n (string a) is e = absurd cc

wire-Shrinks : Shrinks wire size
unfolding size
wire-Shrinks end rest fd e = absurd cc
wire-Shrinks (append n i rs) rest fd e =
    subst
      (λ o. elim o [
        | none ↦ Unit {0}
        | some (fd, rest) ↦
            (size rest < 1 + size_item i + size rs)
            × ((is : Items) → fd.as_message ≡ some is → size is < 1 + size_item i + size rs)
      ])
      e (omega arith, λ is q. let b = message-size n i is q in omega (arith, b))

-- The timestamp is a string, which the server refuses.
abbrev malformed : Items
malformed = append 1 (string (codes "now")) end

size-malformed : size malformed < 5
unfolding size
size-malformed = omega arith

unmarshal_metric_point-ends_example : unmarshal_metric_point wire 5 malformed ≢ none
unmarshal_metric_point-ends_example =
    unmarshal_metric_point-ends wire size wire-Shrinks 5 malformed size-malformed
