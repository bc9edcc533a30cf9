-- ===== src/Archive/Server/Answered.antt =====
-- What the server of the archive answers to the points of its client.
use go_gedung_peristiwa.Prelude.{
  ℕ, zero, suc, ◌+◌, ◌-◌, ◌<◌, ◌≤◌, ◌≡◌, refl, List, [], ◌∷◌, Option, none, some, Bool, true,
  if◌then◌else◌, Bool-cases, inl, inr, arith, length, length-append,
}
use go_gedung_peristiwa.Assoc.{Assoc}
use go_gedung_peristiwa.Archive.Metric.{Value, value, MetricPoint}
use go_gedung_peristiwa.Archive.Wire.{EasyProto, Reads, size}
use go_gedung_peristiwa.Archive.Marshal.{metric_items, marshal_metric_point}
use go_gedung_peristiwa.Archive.Unmarshal.{missing_key}
use go_gedung_peristiwa.Archive.Unmarshal.Normal.{normal_value, normal_payload}
use go_gedung_peristiwa.Archive.Unmarshal.Properties.{
  names_nothing, HasDistinctKeys, normal_properties, normal_items,
}
use go_gedung_peristiwa.Archive.Unmarshal.RoundTrip.{unmarshal_metric_point-marshal_metric_point}
use go_gedung_peristiwa.Archive.Server.{
  Answer, accepted, panicked, refused, Sending, Event, arrived, timed_out, stream_closed,
  receive_canceled, receive_failed, disconnected, Outcome, serving, returned_nil, returned_error,
  crashed, out_of_fuel, Stream, new_stream, derefs_nil, log_properties, log_metric, handle_metric,
  after_sending, is_taken, send_answer, iteration, process_metrics,
}

derefs_nil-normal_value : (v : Value) → derefs_nil (normal_value v) ≡ derefs_nil v
unfolding derefs_nil normal_value normal_payload
derefs_nil-normal_value (value t i f s l) = ground arith

log_properties-normal_items : (m : Assoc Value) → log_properties (normal_items m) ≡ log_properties m
unfolding log_properties
log_properties-normal_items [] = refl
log_properties-normal_items ((k, v) ∷ m) =
    ground (arith, derefs_nil-normal_value v, log_properties-normal_items m)

log_metric-normal_properties :
    (mp : MetricPoint) (p : Option (Assoc Value))
    → log_metric (record mp { properties = some (normal_properties p) })
      ≡ log_metric (record mp { properties = p })
unfolding log_properties
log_metric-normal_properties mp none = refl
log_metric-normal_properties mp (some m) = log_properties-normal_items m

-- Under the laws of the wire format, for a point whose properties have each key once and more fuel
-- than the point has calls on the marshaler: the server refuses a point of the client that has a
-- property with the empty key, panics on the log line of a property whose type is that of an
-- integer, a float or a string and whose pointer for it is nil, and accepts every other point.
pub handle_metric-marshal_metric_point :
    {Bytes : Type 0} (wire : EasyProto Bytes) (reads : Reads wire) (mp : MetricPoint) (f : ℕ)
    → HasDistinctKeys mp.properties
    → size (metric_items mp) < f
    → handle_metric wire f (marshal_metric_point wire mp)
      ≡ some (if names_nothing mp.properties then refused missing_key else log_metric mp)
unfolding handle_metric
handle_metric-marshal_metric_point wire reads mp f d h = ground (
  arith,
  unmarshal_metric_point-marshal_metric_point wire reads mp f d h,
  log_metric-normal_properties mp mp.properties,
)

send_answer-one :
    (r : Option Answer) (sending : Sending) (s : Stream)
    → (send_answer r sending s).1 ≡ serving
    → (length (send_answer r sending s).0.answers ≡ suc (length s.answers))
      × ((send_answer r sending s).0.lost ≡ s.lost)
      × ((send_answer r sending s).0.abandoned ≡ s.abandoned)
unfolding send_answer after_sending
send_answer-one none sending s h = ground arith
send_answer-one (some accepted) sending s h =
    ground (arith, length-append s.answers (accepted ∷ []))
send_answer-one (some (refused e)) sending s h =
    ground (arith, length-append s.answers (refused e ∷ []))
send_answer-one (some panicked) sending s h = ground arith

is_taken-abandoned : (late : Bool) (n : ℕ) → is_taken late n ≡ true → suc (n - 1) ≡ n
is_taken-abandoned late zero h = ground arith
is_taken-abandoned late (suc n) h = omega arith

module _ {Bytes : Type 0} (wire : EasyProto Bytes) (fuel : ℕ) where
  abbrev pub messages : List (Event Bytes) → ℕ
  messages [] = 0
  messages (e ∷ es) = elim e [ arrived bytes late sending ↦ 1 | _ ↦ 0 ] + messages es

  abbrev pub timeouts : List (Event Bytes) → ℕ
  timeouts [] = 0
  timeouts (e ∷ es) = elim e [ timed_out ↦ 1 | _ ↦ 0 ] + timeouts es

  -- What a run that goes on has done with its messages and its receivers.
  abbrev Accounted : List (Event Bytes) → Stream → Stream → Type 0
  Accounted es s s' =
      (length s'.answers + s'.lost ≡ length s.answers + s.lost + messages es)
      × (s'.abandoned + s'.lost ≡ s.abandoned + s.lost + timeouts es)

  iteration-Accounted :
      (e : Event Bytes) (s : Stream)
      → (iteration wire fuel e s).1 ≡ serving
      → Accounted (e ∷ []) s (iteration wire fuel e s).0
  unfolding iteration
  iteration-Accounted (arrived bytes late sending) s h =
      elim (Bool-cases (is_taken late s.abandoned)) [
        | inl t ↦ rw t (omega arith, omega (arith, is_taken-abandoned late s.abandoned t))
        | inr n ↦
            let (a, l, w) =
              send_answer-one (handle_metric wire fuel bytes) sending s (ground (arith, n, h)) in
            rw n (omega (arith, a, l), omega (arith, l, w))
      ]
  iteration-Accounted timed_out s h = (omega arith, omega arith)
  iteration-Accounted stream_closed s h = ground arith
  iteration-Accounted receive_canceled s h = ground arith
  iteration-Accounted receive_failed s h = ground arith
  iteration-Accounted disconnected s h = ground arith

  go_on :
      (o : Outcome) (r : Stream × Outcome) (s' : Stream)
      → (elim o as (λ _. Stream × Outcome) [ serving ↦ r | o' ↦ (s', o') ]).1 ≡ serving
      → (o ≡ serving) × ((elim o as (λ _. Stream × Outcome) [ serving ↦ r | o' ↦ (s', o') ]) ≡ r)
  go_on serving r s' h = (refl, refl)
  go_on returned_nil r s' h = ground arith
  go_on returned_error r s' h = ground arith
  go_on crashed r s' h = ground arith
  go_on out_of_fuel r s' h = ground arith

  process_metrics-Accounted :
      (es : List (Event Bytes)) (s : Stream)
      → (process_metrics wire fuel es s).1 ≡ serving
      → Accounted es s (process_metrics wire fuel es s).0
  unfolding process_metrics
  process_metrics-Accounted [] s h = (omega arith, omega arith)
  process_metrics-Accounted (e ∷ es) s h =
      let (s1, o) = iteration wire fuel e s in
      let (g, eq) = go_on o (process_metrics wire fuel es s1) s1 h in
      let (m, t) = iteration-Accounted e s g in
      rw eq (
        let (ms, ts) = process_metrics-Accounted es s1 (ground (arith, h, eq)) in
        (omega (arith, m, ms), omega (arith, t, ts)))

  -- On a new stream that is still served after some events, the answers and the lost messages are
  -- together as many as the messages that arrived, and at most as many messages are lost as there
  -- were timeouts.
  pub process_metrics-messages :
      (es : List (Event Bytes))
      → (process_metrics wire fuel es new_stream).1 ≡ serving
      → (length (process_metrics wire fuel es new_stream).0.answers
            + (process_metrics wire fuel es new_stream).0.lost
          ≡ messages es)
        × ((process_metrics wire fuel es new_stream).0.lost ≤ timeouts es)
  process_metrics-messages es h =
      let (m, t) = process_metrics-Accounted es new_stream h in (omega (arith, m), omega (arith, t))
