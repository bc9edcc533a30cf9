-- ===== src/Archive/Unmarshal/Entries.antt =====
-- What the server of the archive reads of a label and of an entry of the properties that the client
-- sent.
use go_gedung_peristiwa.Prelude.{
  ℕ, zero, suc, ◌<◌, ◌≡◌, ◌∙◌, [], Option, none, some, ok, err, if◌then◌else◌, arith,
}
use go_gedung_peristiwa.Text.{Text, is_empty}
use go_gedung_peristiwa.Archive.Metric.{Value, Label}
use go_gedung_peristiwa.Archive.Wire.{
  Item, Items, end, append, string, message, EasyProto, Field, Reads, size,
}
use go_gedung_peristiwa.Archive.Marshal.{marshal_value, marshal_item, marshal_label}
use go_gedung_peristiwa.Archive.Unmarshal.{
  Decoded, DecodeError, missing_key, then_decode, each_field, entry_step, unmarshal_map_entry,
  label_step, unmarshal_label,
}
use go_gedung_peristiwa.Archive.Unmarshal.Normal.{normal_value}
use go_gedung_peristiwa.Archive.Unmarshal.Trees.{unmarshal_value-marshal_value}

module _ {Bytes : Type 0} (wire : EasyProto Bytes) (reads : Reads wire) where
  module _ {S : Type 0} (step : ℕ → Field Bytes → S → Decoded S) where
    pub each_field-end :
        (f : ℕ) (s : S) → 0 < f → each_field wire step f (wire.marshal end) s ≡ some (ok s)
    unfolding each_field
    each_field-end zero s h = absurd (omega arith)
    each_field-end (suc f) s h = ground (arith, reads.done)

    each_field-append :
        (f n : ℕ) (i : Item) (rest : Items) (s : S)
        → each_field wire step (suc f) (wire.marshal (append n i rest)) s
          ≡ then_decode
              (step f (reads.field n i rest) s)
              (λ s'. each_field wire step f (wire.marshal rest) s')
    unfolding each_field
    each_field-append f n i rest s = ground (arith, reads.more n i rest, reads.next n i rest)

    -- A step that succeeds goes on with the rest.
    pub each_field-step :
        (f n : ℕ) (i : Item) (rest : Items) (s s' : S)
        → step f (reads.field n i rest) s ≡ some (ok s')
        → each_field wire step (suc f) (wire.marshal (append n i rest)) s
          ≡ each_field wire step f (wire.marshal rest) s'
    unfolding then_decode
    each_field-step f n i rest s s' e = ground (arith, each_field-append f n i rest s, e)

    -- A step that fails ends the loop.
    pub each_field-err :
        (f n : ℕ) (i : Item) (rest : Items) (s : S) (e : DecodeError)
        → step f (reads.field n i rest) s ≡ some (err e)
        → each_field wire step (suc f) (wire.marshal (append n i rest)) s ≡ some (err e)
    unfolding then_decode
    each_field-err f n i rest s e h = ground (arith, each_field-append f n i rest s, h)

  label_step-name :
      (f : ℕ) (a : Text) (rest : Items) (l : Label)
      → label_step wire f (reads.field 1 (string a) rest) l ≡ some (ok (record l { name = a }))
  unfolding label_step then_decode
  label_step-name f a rest l =
      ground (arith, reads.number 1 (string a) rest, reads.holds 1 (string a) rest)

  label_step-value :
      (f : ℕ) (a : Text) (rest : Items) (l : Label)
      → label_step wire f (reads.field 2 (string a) rest) l ≡ some (ok (record l { value = a }))
  unfolding label_step then_decode
  label_step-value f a rest l =
      ground (arith, reads.number 2 (string a) rest, reads.holds 2 (string a) rest)

  pub unmarshal_label-marshal_label :
      (l : Label) (f : ℕ)
      → size (marshal_label l) < f
      → unmarshal_label wire f (wire.marshal (marshal_label l)) ≡ some (ok l)
  unfolding unmarshal_label marshal_label size
  unmarshal_label-marshal_label l zero h = absurd (omega arith)
  unmarshal_label-marshal_label l (suc zero) h = absurd (omega arith)
  unmarshal_label-marshal_label l (suc (suc f)) h =
      each_field-step (label_step wire) (suc f) 1 (string l.name) _ _ _
        (label_step-name (suc f) l.name _ _)
      ∙ each_field-step (label_step wire) f 2 (string l.value) end _ _
          (label_step-value f l.value end _)
      ∙ each_field-end (label_step wire) f l (omega arith)

  entry_step-key :
      (f : ℕ) (a k : Text) (v : Option Value) (rest : Items)
      → entry_step wire f (reads.field 1 (string a) rest) (k, v) ≡ some (ok (a, v))
  unfolding entry_step then_decode
  entry_step-key f a k v rest =
      ground (arith, reads.number 1 (string a) rest, reads.holds 1 (string a) rest)

  entry_step-value :
      (f : ℕ) (w : Value) (k : Text) (v : Option Value) (rest : Items)
      → size (marshal_value w) < f
      → entry_step wire f (reads.field 2 (message (marshal_value w)) rest) (k, v)
        ≡ some (ok (k, some (normal_value w)))
  unfolding entry_step then_decode
  entry_step-value f w k v rest h =
      let i = message (marshal_value w) in
      ground (
        arith,
        reads.number 2 i rest,
        reads.holds 2 i rest,
        unmarshal_value-marshal_value wire reads w f h,
      )

  read-entry :
      (k : Text) (v : Value) (f : ℕ)
      → size (marshal_item k v) < f
      → each_field wire (entry_step wire) f (wire.marshal (marshal_item k v)) ([], none)
        ≡ some (ok (k, some (normal_value v)))
  unfolding marshal_item size
  read-entry k v zero h = absurd (omega arith)
  read-entry k v (suc zero) h = absurd (omega arith)
  read-entry k v (suc (suc f)) h =
      each_field-step (entry_step wire) (suc f) 1 (string k) _ _ _
        (entry_step-key (suc f) k [] none _)
      ∙ each_field-step (entry_step wire) f 2 (message (marshal_value v)) end _ _
          (entry_step-value f v k none end (omega arith))
      ∙ each_field-end (entry_step wire) f _ (omega arith)

  pub unmarshal_map_entry-marshal_item :
      (k : Text) (v : Value) (f : ℕ)
      → size (marshal_item k v) < f
      → unmarshal_map_entry wire f (wire.marshal (marshal_item k v))
        ≡ (if is_empty k then some (err missing_key) else some (ok (k, normal_value v)))
  unfolding unmarshal_map_entry then_decode
  unmarshal_map_entry-marshal_item k v f h = ground (arith, read-entry k v f h)
