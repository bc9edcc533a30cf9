-- ===== src/Archive/Client.antt =====
-- The rest of ARCHIVE/Jul252026/internal/client/main.go: the random points, their batches and what
-- sendMetricsBatch does on the stream. What math/rand and time.Now give is a parameter, and so is
-- what SendMsg and RecvMsg return.
pub mod Accepted
use go_gedung_peristiwa.Prelude.{
  ℕ, zero, suc, ◌+◌, List, [], ◌∷◌, ◌++◌, none, some, Bool, if◌then◌else◌, ltb, keep, take,
}
use go_gedung_peristiwa.Prelude.Int.{ℤ, pos}
use go_gedung_peristiwa.Text.{Text, codes}
use go_gedung_peristiwa.Gtfs.Bounds.{Float64}
use go_gedung_peristiwa.Assoc.{Assoc, insert}
use go_gedung_peristiwa.Archive.Metric.{Value, value, nil, cons, Label, MetricPoint}
use go_gedung_peristiwa.Archive.Wire.{EasyProto}
use go_gedung_peristiwa.Archive.Marshal.{marshal_metric_point}

-- The draws of one point: the three indices, and for each of the extra labels whether it is kept.
pub record Draws : Type 0 where
  pub int_val : ℤ
  pub float_val : Float64
  pub str_index : ℕ
  pub is_complex : Bool
  pub now : ℤ
  pub metric_value : Float64
  pub is_null : Bool
  pub host_index : ℕ
  pub env_index : ℕ
  pub keeps : Text → Bool

abbrev str_vals : List Text
str_vals = codes "test" ∷ codes "prod" ∷ codes "dev" ∷ codes "staging" ∷ []

abbrev envs : List Text
envs = codes "prod" ∷ codes "staging" ∷ codes "dev" ∷ codes "test" ∷ []

abbrev hosts : List Text
hosts = codes "server1" ∷ codes "server2" ∷ codes "server3" ∷ codes "server4" ∷ codes "server5" ∷ []

-- rand.Intn keeps the index below the length.
unfoldable pub at : ℕ → List Text → Text
at n [] = []
at zero (a ∷ rest) = a
at (suc n) (a ∷ rest) = at n rest

abbrev extra_labels : List Label
extra_labels =
    record { name = codes "region"; value = codes "us-west" }
    ∷ record { name = codes "datacenter"; value = codes "dc1" }
    ∷ record { name = codes "service"; value = codes "api" }
    ∷ record { name = codes "version"; value = codes "v1.2.3" }
    ∷ []

abbrev pub random_labels : Draws → List Label
random_labels d =
    let base =
      record { name = codes "host"; value = at d.host_index hosts }
      ∷ record { name = codes "env"; value = at d.env_index envs }
      ∷ [] in
    if d.is_complex then base ++ keep (λ l. d.keeps l.name) extra_labels else base

abbrev pub random_properties : Draws → Assoc Value
random_properties d =
    let count = (codes "count", value (pos 1) (some d.int_val) none none nil) ∷ [] in
    let ratio = value (pos 2) none (some d.float_val) none nil in
    let tag = value (pos 3) none none (some (at d.str_index str_vals)) nil in
    let tags = value (pos 4) none none none (cons tag nil) in
    if d.is_complex then insert (codes "tags") tags (insert (codes "ratio") ratio count) else count

unfoldable pub generate_random_metric : Draws → MetricPoint
unfolding at insert
generate_random_metric d = record {
  timestamp = d.now;
  value = d.metric_value;
  is_null = d.is_null;
  labels = random_labels d;
  properties = some (random_properties d);
}

abbrev batch_size : ℕ
batch_size = 5

abbrev pub drop : {A : Type 0} → ℕ → List A → List A
drop zero xs = xs
drop (suc n) [] = []
drop (suc n) (x ∷ xs) = drop n xs

-- The slices of the loop of main that are given to goroutines, with the rest of the metrics from
-- the index on. A unit of fuel is an iteration.
unfoldable pub batches : {A : Type 0} → ℕ → List A → List (List A)
batches zero metrics = []
batches (suc f) [] = []
batches (suc f) (m ∷ ms) = take batch_size (m ∷ ms) ∷ batches f (drop batch_size (m ∷ ms))

-- What SendMsg or RecvMsg returns.
pub data Transfer : Type 0 where
  done closed failed : Transfer

-- The messages that were sent. The k-th point of the batch meets `send k` and `receive k`.
unfoldable pub send_metrics_batch :
    {Bytes : Type 0}
    → EasyProto Bytes
    → (ℕ → Transfer)
    → (ℕ → Transfer)
    → ℕ
    → List MetricPoint
    → List Bytes
unfolding marshal_metric_point
send_metrics_batch wire send receive k [] = []
send_metrics_batch wire send receive k (m ∷ ms) =
    let rest = send_metrics_batch wire send receive (suc k) ms in
    elim (send k) [
      | closed ↦ []
      | failed ↦ rest
      | done ↦ elim (receive k) [
        | closed ↦ marshal_metric_point wire m ∷ []
        | failed ↦ marshal_metric_point wire m ∷ rest
        | done ↦ marshal_metric_point wire m ∷ rest
      ]
    ]
