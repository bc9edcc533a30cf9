-- ===== src/Archive/Client/Accepted.antt =====
-- What the server of the archive makes of the points that the client makes up.
use go_gedung_peristiwa.Prelude.{
  ℕ, zero, suc, ℕ_discrete, length-take-le, ◌<◌, ◌≤◌, ◌≡◌, refl, ap, ◌∙◌, List, [], ◌∷◌, ◌++◌, some,
  ok, false, Bool-cases, inl, inr, arith, All, length, take,
}
use go_gedung_peristiwa.Text.{text_dec}
use go_gedung_peristiwa.Assoc.{insert, lookup}
use go_gedung_peristiwa.Archive.Wire.{EasyProto, Reads, size}
use go_gedung_peristiwa.Archive.Marshal.{metric_items, marshal_metric_point}
use go_gedung_peristiwa.Archive.Unmarshal.{unmarshal_metric_point}
use go_gedung_peristiwa.Archive.Unmarshal.Normal.{normal_value, normal_values, normal_payload}
use go_gedung_peristiwa.Archive.Unmarshal.Properties.{names_nothing, HasDistinctKeys}
use go_gedung_peristiwa.Archive.Unmarshal.RoundTrip.{
  normal_point, unmarshal_metric_point-marshal_metric_point,
}
use go_gedung_peristiwa.Archive.Server.{
  handle_metric, accepted, log_metric, log_properties, derefs_nil,
}
use go_gedung_peristiwa.Archive.Server.Answered.{handle_metric-marshal_metric_point}
use go_gedung_peristiwa.Archive.Client.{Draws, generate_random_metric, batches, drop, batch_size}

generate_random_metric-fits :
    (d : Draws)
    → HasDistinctKeys (generate_random_metric d).properties
      × (names_nothing (generate_random_metric d).properties ≡ false)
      × (log_metric (generate_random_metric d) ≡ accepted)
      × (normal_point (generate_random_metric d) ≡ generate_random_metric d)
unfolding generate_random_metric insert lookup log_properties derefs_nil normal_value normal_values
    normal_payload text_dec ℕ_discrete
generate_random_metric-fits d = elim (Bool-cases d.is_complex) [
  | inl c ↦ rw c ((refl, (refl, (refl, tt))), refl, refl, refl)
  | inr s ↦ rw s ((refl, tt), refl, refl, refl)
]

-- Under the laws of the wire format and with more fuel than the point has calls on the marshaler:
-- the server accepts every point that the client makes up, whatever the draws are, and reads it as
-- it was.
pub handle_metric-generate_random_metric :
    {Bytes : Type 0} (wire : EasyProto Bytes) (reads : Reads wire) (d : Draws) (f : ℕ)
    → size (metric_items (generate_random_metric d)) < f
    → (unmarshal_metric_point wire f (marshal_metric_point wire (generate_random_metric d))
        ≡ some (ok (generate_random_metric d)))
      × (handle_metric wire f (marshal_metric_point wire (generate_random_metric d))
          ≡ some accepted)
handle_metric-generate_random_metric wire reads d f h =
    let (distinct, named, logged, normal) = generate_random_metric-fits d in
    let point = generate_random_metric d in
    (
      unmarshal_metric_point-marshal_metric_point wire reads point f distinct h
          ∙ rw (named, normal) refl,
      handle_metric-marshal_metric_point wire reads point f distinct h ∙ rw (named, logged) refl,
    )

take-drop : {A : Type 0} (n : ℕ) (xs : List A) → take n xs ++ drop n xs ≡ xs
take-drop zero xs = refl
take-drop (suc n) [] = refl
take-drop (suc n) (x ∷ xs) = ap (λ ys. x ∷ ys) (take-drop n xs)

length-drop : {A : Type 0} (n : ℕ) (xs : List A) → length (drop n xs) ≤ length xs
length-drop zero xs = omega arith
length-drop (suc n) [] = omega arith
length-drop (suc n) (x ∷ xs) = omega (arith, length-drop n xs)

abbrev pub concat : {A : Type 0} → List (List A) → List A
concat [] = []
concat (xs ∷ xss) = xs ++ concat xss

-- With as much fuel as there are metrics: the batches are the metrics in their order, each of them
-- in one batch, and a batch has one to five metrics.
pub concat-batches :
    {A : Type 0} (f : ℕ) (metrics : List A)
    → length metrics ≤ f
    → (concat (batches f metrics) ≡ metrics)
      × All (λ batch. (1 ≤ length batch) × (length batch ≤ 5)) (batches f metrics)
unfolding batches
concat-batches zero [] h = (refl, tt)
concat-batches zero (m ∷ ms) h = absurd (omega arith)
concat-batches (suc f) [] h = (refl, tt)
concat-batches (suc f) (m ∷ ms) h =
    let (all, sizes) =
      concat-batches f (drop batch_size (m ∷ ms)) (omega (arith, length-drop 4 ms)) in
    (
      rw all (take-drop batch_size (m ∷ ms)),
      ((omega arith, length-take-le batch_size (m ∷ ms)), sizes),
    )
