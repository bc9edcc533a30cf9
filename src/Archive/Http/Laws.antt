-- ===== src/Archive/Http/Laws.antt =====
-- What the archive's HTTP client learns of its batch from the archive's HTTP server.
use go_gedung_peristiwa.Prelude.{
  ◌≡◌, refl, List, [], ◌∷◌, none, some, true, false, every, ltb, length, Option-cases, inl, inr,
  arith,
}
use go_gedung_peristiwa.Text.{codes}
use go_gedung_peristiwa.Archive.Metric.{MetricPoint}
use go_gedung_peristiwa.Archive.Http.{
  MetricResponse, Json, not_marshalled, server_error, handle_batch_metrics, send_metrics,
}

-- encoding/json reads as many points as it wrote, and a response whose words are ASCII as it was.
abbrev pub ReadsBack : {Body : Type 0} → Json Body → Type 0
ReadsBack {Body = Body} json =
    ((metrics : List MetricPoint) (body : Body)
      → json.marshal_request metrics ≡ some body
      → (read : List MetricPoint) × (json.decode_request body ≡ some read)
        × (length read ≡ length metrics))
    × ((r : MetricResponse)
        → every (λ b. ltb b 128) r.error ≡ true
        → json.decode_response (json.encode_response r) ≡ some r)

-- The response depends on how many points were read alone.
handle_batch_metrics-length :
    {Body : Type 0} (json : Json Body) (body : Body) (metrics read : List MetricPoint)
    → json.decode_request body ≡ some read
    → length read ≡ length metrics
    → (handle_batch_metrics json true body).1 ≡ elim metrics [
      | [] ↦ record { success = false; error = codes "no metrics provided" }
      | m ∷ ms ↦ record { success = true; error = [] }
    ]
unfolding handle_batch_metrics
handle_batch_metrics-length json body [] [] d n = ground (arith, d)
handle_batch_metrics-length json body [] (r ∷ rs) d n = absurd (omega arith)
handle_batch_metrics-length json body (m ∷ ms) [] d n = absurd (omega arith)
handle_batch_metrics-length json body (m ∷ ms) (r ∷ rs) d n = ground (arith, d)

-- With a codec that reads back as many points as it wrote and every ASCII response, and with a transport that loses nothing: SendMetrics fails
-- for a batch that cannot be written as JSON, and for the empty batch with the server's words, and
-- succeeds for every other batch.
pub send_metrics-handle_batch_metrics :
    {Body : Type 0} (json : Json Body) (metrics : List MetricPoint)
    → ReadsBack json
    → send_metrics json
        (λ body. some (json.encode_response (handle_batch_metrics json true body).1))
        metrics
      ≡ elim (json.marshal_request metrics) [
        | none ↦ some not_marshalled
        | some body ↦ elim metrics [
          | [] ↦ some (server_error (codes "no metrics provided"))
          | m ∷ ms ↦ none
        ]
      ]
unfolding send_metrics
send_metrics-handle_batch_metrics json [] reads = elim (Option-cases (json.marshal_request [])) [
  | inl e ↦ ground (arith, e)
  | inr (body, e) ↦
      let (read, d, n) = reads.0 [] body e in
      let refusal : MetricResponse = record {
        success = false;
        error = codes "no metrics provided";
      } in
      ground (arith, e, handle_batch_metrics-length json body [] read d n, reads.1 refusal refl)
]
send_metrics-handle_batch_metrics json (m ∷ ms) reads =
    elim (Option-cases (json.marshal_request (m ∷ ms))) [
      | inl e ↦ ground (arith, e)
      | inr (body, e) ↦
          let (read, d, n) = reads.0 (m ∷ ms) body e in
          let success : MetricResponse = record { success = true; error = [] } in
          ground (
            arith,
            e,
            handle_batch_metrics-length json body (m ∷ ms) read d n,
            reads.1 success refl,
          )
    ]
