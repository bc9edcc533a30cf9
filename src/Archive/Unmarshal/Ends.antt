-- ===== src/Archive/Unmarshal/Ends.antt =====
-- The server of the archive comes to an end on every message.
use go_gedung_peristiwa.Prelude.{
  ℕ, zero, suc, ◌<◌, ◌≡◌, refl, ◌≢◌, Option, none, some, Result, ok, err, Bool, true, false, ◌==◌,
  if◌then◌else◌, ℕ_discrete, [], arith, Bool-cases, inl, inr, Option-cases,
}
use go_gedung_peristiwa.Text.{Text, is_empty}
use go_gedung_peristiwa.Assoc.{Assoc}
use go_gedung_peristiwa.Archive.Metric.{Value, value, Label, MetricPoint}
use go_gedung_peristiwa.Archive.Wire.{EasyProto, Field}
use go_gedung_peristiwa.Archive.Unmarshal.{
  Decoded, DecodeError, then_decode, getting, each_field, set_scalar, unmarshal_value, entry_step,
  unmarshal_map_entry, items_step, unmarshal_key_value, label_step, unmarshal_label, point_step,
  unmarshal_metric_point, empty_value, with_item, missing_value, zero_point,
}

then_decode-ends :
    {A B : Type 0} (r : Decoded A) (k : A → Decoded B)
    → r ≢ none
    → ((a : A) → k a ≢ none)
    → then_decode r k ≢ none
unfolding then_decode
then_decode-ends none k h g = λ e. h refl
then_decode-ends (some (err e)) k h g = λ e. cc
then_decode-ends (some (ok a)) k h g = g a

getting-ends :
    {A B : Type 0} (e : DecodeError) (o : Option A) (k : A → Decoded B)
    → ((a : A) → k a ≢ none)
    → then_decode (getting e o) k ≢ none
unfolding then_decode
getting-ends e none k h = λ p. cc
getting-ends e (some a) k h = h a

if-ends :
    {A : Type 0} (b : Bool) {r s : Decoded A} → r ≢ none → s ≢ none → (if b then r else s) ≢ none
if-ends true h g = h
if-ends false h g = g

dec-ends :
    {P A : Type 0} (d : Dec P) {r s : Decoded A}
    → r ≢ none
    → s ≢ none
    → (elim d as (λ _. Decoded A) [ no _ ↦ r | yes _ ↦ s ]) ≢ none
dec-ends (yes p) h g = g
dec-ends (no n) h g = h

decoded-ends : {A : Type 0} (r : Result DecodeError A) → some r ≢ none
decoded-ends r = λ p. cc

module _ {Bytes : Type 0} (wire : EasyProto Bytes) (length : Bytes → ℕ) where
  abbrev Below : ℕ → Field Bytes → Type 0
  Below n fd = (bytes : Bytes) → fd.as_message ≡ some bytes → length bytes < n

  -- NextField takes something off the bytes, of which the messages in the field are a part.
  abbrev pub Shrinks : Type 0
  Shrinks =
      (bytes rest : Bytes) (fd : Field Bytes)
      → wire.next_field bytes ≡ some (fd, rest)
      → (length rest < length bytes) × Below (length bytes) fd

  module _ (shrinks : Shrinks) where
    getting_message-ends :
        {B : Type 0} (e : DecodeError) (fd : Field Bytes) (f : ℕ) (k : Bytes → Decoded B)
        → Below f fd
        → ((bytes : Bytes) → length bytes < f → k bytes ≢ none)
        → then_decode (getting e fd.as_message) k ≢ none
    unfolding then_decode
    getting_message-ends e fd f k below h = elim (Option-cases fd.as_message) [
      | inl n ↦ rw n (λ p. cc)
      | inr (bytes, s) ↦ rw s (h bytes (below bytes s))
    ]

    each_field-ends :
        {S : Type 0} (step : ℕ → Field Bytes → S → Decoded S) (f : ℕ) (bytes : Bytes) (s : S)
        → ((g : ℕ) (fd : Field Bytes) (s : S) → Below g fd → step g fd s ≢ none)
        → length bytes < f
        → each_field wire step f bytes s ≢ none
    unfolding each_field
    each_field-ends step zero bytes s ends h = absurd (omega arith)
    each_field-ends step (suc f) bytes s ends h = elim (Bool-cases (wire.is_done bytes)) [
      | inl d ↦ rw d (λ p. cc)
      | inr d ↦ elim (Option-cases (wire.next_field bytes)) [
        | inl n ↦ rw (d, n) (λ p. cc)
        | inr ((fd, rest), n) ↦
            let (shorter, below) = shrinks bytes rest fd n in
            rw (d, n)
              (then_decode-ends (step f fd s) (λ s'. each_field wire step f rest s')
                (ends f fd s (λ m e. let b = below m e in omega (arith, b, h)))
                (λ s'. each_field-ends step f rest s' ends (omega (arith, shorter, h))))
      ]
    ]

    set_scalar-ends : (fd : Field Bytes) (v : Value) → set_scalar wire fd v ≢ none
    unfolding set_scalar
    set_scalar-ends fd (value t i x s l) =
        if-ends (fd.number == 1) (getting-ends _ fd.as_int32 _ (λ n. decoded-ends _)) (
          if-ends (fd.number == 2) (getting-ends _ fd.as_int64 _ (λ n. decoded-ends _)) (
            if-ends (fd.number == 3) (getting-ends _ fd.as_double _ (λ n. decoded-ends _)) (
              if-ends (fd.number == 4) (getting-ends _ fd.as_string _ (λ n. decoded-ends _))
                (decoded-ends _))))

    unmarshal_value-ends :
        (f : ℕ) (bytes : Bytes) (v : Value)
        → length bytes < f
        → unmarshal_value wire f bytes v ≢ none
    unfolding unmarshal_value
    unmarshal_value-ends zero bytes v h = absurd (omega arith)
    unmarshal_value-ends (suc f) bytes v h = elim (Bool-cases (wire.is_done bytes)) [
      | inl d ↦ rw (unmarshal_value, d) (decoded-ends _)
      | inr d ↦ elim (Option-cases (wire.next_field bytes)) [
        | inl n ↦ rw (unmarshal_value, d, n) (decoded-ends _)
        | inr ((fd, rest), n) ↦
            let (shorter, below) = shrinks bytes rest fd n in
            let next : (w : Value) → unmarshal_value wire f rest w ≢ none =
              λ w. unmarshal_value-ends f rest w (omega (arith, shorter, h)) in
            rw (unmarshal_value, d, n)
              (dec-ends (ℕ_discrete fd.number 5)
                (then_decode-ends (set_scalar wire fd v) _ (set_scalar-ends fd v) next)
                (getting_message-ends _ fd f _ (λ m e. let b = below m e in omega (arith, b, h))
                  (λ item k.
                    then_decode-ends (unmarshal_value wire f item empty_value) _
                      (unmarshal_value-ends f item empty_value k) (λ w. next (with_item v w)))))
      ]
    ]

    entry_step-ends :
        (f : ℕ) (fd : Field Bytes) (entry : Text × Option Value)
        → Below f fd
        → entry_step wire f fd entry ≢ none
    unfolding entry_step
    entry_step-ends f fd (key, v) below =
        if-ends (fd.number == 1) (getting-ends _ fd.as_string _ (λ k. decoded-ends _)) (
          if-ends (fd.number == 2)
            (getting_message-ends _ fd f _ below (λ bytes h.
              then_decode-ends (unmarshal_value wire f bytes empty_value) _
                (unmarshal_value-ends f bytes empty_value h) (λ w. decoded-ends _)))
            (decoded-ends _))

    unmarshal_map_entry-ends :
        (f : ℕ) (bytes : Bytes) → length bytes < f → unmarshal_map_entry wire f bytes ≢ none
    unfolding unmarshal_map_entry
    unmarshal_map_entry-ends f bytes h =
        then_decode-ends (each_field wire (entry_step wire) f bytes ([], none)) _
          (each_field-ends (entry_step wire) f bytes ([], none) entry_step-ends h)
          (λ entry. if-ends (is_empty entry.0) (decoded-ends _) (value-ends entry.0 entry.1))
      where
        value-ends :
            (k : Text) (v : Option Value)
            → (elim v as (λ _. Decoded (Text × Value)) [
              | none ↦ some (err missing_value)
              | some w ↦ some (ok (k, w))
            ])
              ≢ none
        value-ends k none = decoded-ends _
        value-ends k (some w) = decoded-ends _

    items_step-ends :
        (f : ℕ) (fd : Field Bytes) (m : Assoc Value) → Below f fd → items_step wire f fd m ≢ none
    unfolding items_step
    items_step-ends f fd m below =
        if-ends (fd.number == 1)
          (getting_message-ends _ fd f _ below (λ bytes h.
            then_decode-ends (unmarshal_map_entry wire f bytes) _
              (unmarshal_map_entry-ends f bytes h) (λ entry. decoded-ends _)))
          (decoded-ends _)

    unmarshal_key_value-ends :
        (f : ℕ) (bytes : Bytes) (m : Assoc Value)
        → length bytes < f
        → unmarshal_key_value wire f bytes m ≢ none
    unfolding unmarshal_key_value
    unmarshal_key_value-ends f bytes m h =
        each_field-ends (items_step wire) f bytes m items_step-ends h

    label_step-ends :
        (f : ℕ) (fd : Field Bytes) (l : Label) → Below f fd → label_step wire f fd l ≢ none
    unfolding label_step
    label_step-ends f fd l below =
        if-ends (fd.number == 1) (getting-ends _ fd.as_string _ (λ a. decoded-ends _)) (
          if-ends (fd.number == 2) (getting-ends _ fd.as_string _ (λ a. decoded-ends _))
            (decoded-ends _))

    point_step-ends :
        (f : ℕ) (fd : Field Bytes) (r : MetricPoint × Assoc Value)
        → Below f fd
        → point_step wire f fd r ≢ none
    unfolding point_step unmarshal_label
    point_step-ends f fd (mp, m) below =
        if-ends (fd.number == 1) (getting-ends _ fd.as_int64 _ (λ n. decoded-ends _)) (
          if-ends (fd.number == 2) (getting-ends _ fd.as_double _ (λ x. decoded-ends _)) (
            if-ends (fd.number == 3) (getting-ends _ fd.as_bool _ (λ b. decoded-ends _)) (
              if-ends (fd.number == 4)
                (getting_message-ends _ fd f _ below (λ bytes h.
                  then_decode-ends (unmarshal_label wire f bytes) _
                    (each_field-ends (label_step wire) f bytes _ label_step-ends h)
                    (λ l. decoded-ends _)))
                (if-ends (fd.number == 5)
                  (getting_message-ends _ fd f _ below (λ bytes h.
                    then_decode-ends (unmarshal_key_value wire f bytes m) _
                      (unmarshal_key_value-ends f bytes m h) (λ m'. decoded-ends _)))
                  (decoded-ends _)))))

    -- Where NextField takes something off the bytes, and where what MessageData gives is shorter
    -- than they were: the server decodes or refuses every message, with a unit of fuel for each of
    -- its bytes and one more.
    pub unmarshal_metric_point-ends :
        (f : ℕ) (bytes : Bytes) → length bytes < f → unmarshal_metric_point wire f bytes ≢ none
    unfolding unmarshal_metric_point
    unmarshal_metric_point-ends f bytes h =
        then_decode-ends (each_field wire (point_step wire) f bytes (zero_point, [])) _
          (each_field-ends (point_step wire) f bytes (zero_point, []) point_step-ends h)
          (λ r. decoded-ends _)
