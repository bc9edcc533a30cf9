-- ===== src/Archive/Http.antt =====
-- HandleBatchMetrics and SendMetrics of ARCHIVE/Jul252026/internal/httpapi. The codec for JSON and
-- the transport are parameters; log output is left out.
pub mod Laws
use go_gedung_peristiwa.Prelude.{
  ℕ, List, [], ◌∷◌, Option, none, some, Result, ok, err, Bool, true, false, if◌then◌else◌, not,
}
use go_gedung_peristiwa.Text.{Text, codes}
use go_gedung_peristiwa.Archive.Metric.{MetricPoint}

pub record MetricResponse : Type 0 where
  pub success : Bool
  pub error : Text

-- encoding/json: what Marshal gives of a request, and what Decode reads, each `none` for an error.
pub record Json (Body : Type 0) : Type 0 where
  pub marshal_request : List MetricPoint → Option Body
  pub decode_request : Body → Option (List MetricPoint)
  pub encode_response : MetricResponse → Body
  pub decode_response : Body → Option MetricResponse

pub data SendError : Type 0 where
  not_marshalled not_sent not_decoded : SendError
  server_error : Text → SendError

abbrev pub status_ok : ℕ
status_ok = 200

abbrev pub bad_request : ℕ
bad_request = 400

abbrev pub method_not_allowed : ℕ
method_not_allowed = 405

abbrev json_error : Text → MetricResponse
json_error message = record { success = false; error = message }

module _ {Body : Type 0} (json : Json Body) where
  -- The status and the response, on whether the method is POST.
  unfoldable pub handle_batch_metrics : Bool → Body → ℕ × MetricResponse
  handle_batch_metrics is_post body =
      if not is_post
      then (method_not_allowed, json_error (codes "method not allowed"))
      else elim (json.decode_request body) [
        | none ↦ (bad_request, json_error (codes "invalid request format"))
        | some [] ↦ (bad_request, json_error (codes "no metrics provided"))
        | some (m ∷ ms) ↦ (status_ok, record { success = true; error = [] })
      ]

  -- `do` sends a POST with the body and gives the body of the response, `none` for an error.
  unfoldable pub send_metrics : (Body → Option Body) → List MetricPoint → Option SendError
  send_metrics do_post metrics = elim (json.marshal_request metrics) [
    | none ↦ some not_marshalled
    | some body ↦ elim (do_post body) [
      | none ↦ some not_sent
      | some answer ↦ elim (json.decode_response answer) [
        | none ↦ some not_decoded
        | some r ↦ if not r.success then some (server_error r.error) else none
      ]
    ]
  ]
