-- ===== src/Archive/Server.antt =====
-- ProcessMetrics of ARCHIVE/Jul252026/internal/server/main.go. The receiver that an iteration starts
-- goes on when the iteration times out, and may take a later message; which receiver takes a
-- message is said by the event. Log output is left out but for the pointers that it follows.
pub mod Answered
use go_gedung_peristiwa.Prelude.{
  ℕ, zero, suc, ◌+◌, ◌-◌, List, [], ◌∷◌, ◌++◌, Option, none, some, Result, ok, err, Bool, true,
  false, if◌then◌else◌,
}
use go_gedung_peristiwa.Assoc.{Assoc}
use go_gedung_peristiwa.Archive.Metric.{
  Value, value, MetricPoint, is_int, is_float, is_string, is_list,
}
use go_gedung_peristiwa.Archive.Wire.{EasyProto}
use go_gedung_peristiwa.Archive.Unmarshal.{Decoded, DecodeError, unmarshal_metric_point}

-- `panicked` is the nil pointer that a line of the log follows.
pub data Answer : Type 0 where
  accepted panicked : Answer
  refused : DecodeError → Answer

-- What SendMsg returns.
pub data Sending : Type 0 where
  sent send_canceled send_failed : Sending

-- What happens on a stream: a message, whether a late receiver gets it if one waits, and what SendMsg
-- returns for its answer; the end of the five seconds; the errors of RecvMsg; the end of the
-- stream's context.
pub data Event (Bytes : Type 0) : Type 0 where
  arrived : Bytes → Bool → Sending → Event Bytes
  timed_out stream_closed receive_canceled receive_failed disconnected : Event Bytes

pub data Outcome : Type 0 where
  serving returned_nil returned_error crashed out_of_fuel : Outcome

-- The receivers that wait although their iteration has ended, the answers, the newest last, and the
-- messages that went to a late receiver.
pub record Stream : Type 0 where
  pub abandoned : ℕ
  pub answers : List Answer
  pub lost : ℕ

abbrev pub new_stream : Stream
new_stream = record { abandoned = 0; answers = []; lost = 0 }

-- Whether the log line of a property follows a nil pointer.
unfoldable pub derefs_nil : Value → Bool
derefs_nil (value t i f s l) =
    if is_int t
    then elim i [ none ↦ true | some n ↦ false ]
    else if is_float t
    then elim f [ none ↦ true | some x ↦ false ]
    else if is_string t
    then elim s [ none ↦ true | some a ↦ false ]
    else false

unfoldable pub log_properties : Assoc Value → Answer
unfolding derefs_nil
log_properties [] = accepted
log_properties ((k, v) ∷ m) = if derefs_nil v then panicked else log_properties m

abbrev pub log_metric : MetricPoint → Answer
log_metric mp = elim mp.properties [ none ↦ accepted | some m ↦ log_properties m ]

-- What becomes of a message; `none` is fuel that ran out.
unfoldable pub handle_metric : {Bytes : Type 0} → EasyProto Bytes → ℕ → Bytes → Option Answer
unfolding unmarshal_metric_point log_properties
handle_metric wire f bytes = elim (unmarshal_metric_point wire f bytes) [
  | none ↦ none
  | some (err e) ↦ some (refused e)
  | some (ok mp) ↦ some (log_metric mp)
]

-- After the answer has been sent: whether the loop goes on.
unfoldable pub after_sending : Answer → Sending → Outcome
after_sending panicked s = crashed
after_sending a sent = serving
after_sending accepted send_canceled = returned_nil
after_sending a s = returned_error

abbrev pub answered : Answer → Stream → Stream
answered panicked s = s
answered a s = record s { answers = s.answers ++ a ∷ [] }

unfoldable pub send_answer : Option Answer → Sending → Stream → Stream × Outcome
unfolding after_sending
send_answer none sending s = (s, out_of_fuel)
send_answer (some a) sending s = (answered a s, after_sending a sending)

-- Whether a late receiver takes the next message.
abbrev pub is_taken : Bool → ℕ → Bool
is_taken late zero = false
is_taken late (suc n) = late

module _ {Bytes : Type 0} (wire : EasyProto Bytes) (fuel : ℕ) where
  unfoldable pub iteration : Event Bytes → Stream → Stream × Outcome
  unfolding handle_metric send_answer
  iteration (arrived bytes late sending) s =
      if is_taken late s.abandoned
      then (record s { abandoned = s.abandoned - 1; lost = suc s.lost }, serving)
      else send_answer (handle_metric wire fuel bytes) sending s
  iteration timed_out s = (record s { abandoned = suc s.abandoned }, serving)
  iteration stream_closed s = (s, returned_nil)
  iteration receive_canceled s = (s, returned_nil)
  iteration receive_failed s = (s, returned_error)
  iteration disconnected s = (s, returned_nil)

  unfoldable pub process_metrics : List (Event Bytes) → Stream → Stream × Outcome
  unfolding iteration
  process_metrics [] s = (s, serving)
  process_metrics (e ∷ es) s =
      let (s', o) = iteration e s in elim o [ serving ↦ process_metrics es s' | o' ↦ (s', o') ]
