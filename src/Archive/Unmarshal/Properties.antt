-- ===== src/Archive/Unmarshal/Properties.antt =====
-- What the server of the archive reads of the properties of a point that the client sent.
use go_gedung_peristiwa.Prelude.{
  ℕ, zero, suc, ◌<◌, ◌≡◌, refl, ap, sym, subst, ◌∙◌, [], ◌∷◌, ◌++◌, append_assoc, append-nil,
  Option, none, some, ok, err, Bool, true, false, if◌then◌else◌, Bool-cases, inl, inr, map, arith,
}
use go_gedung_peristiwa.Text.{Text, is_empty}
use go_gedung_peristiwa.Assoc.{Assoc, insert, Distinct, insert_fresh, Distinct-replace}
use go_gedung_peristiwa.Archive.Metric.{Value}
use go_gedung_peristiwa.Archive.Wire.{Items, message, EasyProto, Reads, size}
use go_gedung_peristiwa.Archive.Marshal.{marshal_item, marshal_items}
use go_gedung_peristiwa.Archive.Unmarshal.{
  missing_key, then_decode, items_step, unmarshal_key_value,
}
use go_gedung_peristiwa.Archive.Unmarshal.Normal.{normal_value}
use go_gedung_peristiwa.Archive.Unmarshal.Entries.{
  each_field-end, each_field-step, each_field-err, unmarshal_map_entry-marshal_item,
}

abbrev pub normal_items : Assoc Value → Assoc Value
normal_items = map (λ e. (e.0, normal_value e.1))

abbrev pub normal_properties : Option (Assoc Value) → Assoc Value
normal_properties none = []
normal_properties (some m) = normal_items m

abbrev pub has_empty_key : Assoc Value → Bool
has_empty_key [] = false
has_empty_key ((k, v) ∷ m) = if is_empty k then true else has_empty_key m

abbrev pub names_nothing : Option (Assoc Value) → Bool
names_nothing none = false
names_nothing (some m) = has_empty_key m

-- A Go map has each key once.
abbrev pub HasDistinctKeys : Option (Assoc Value) → Type 0
HasDistinctKeys none = Unit {0}
HasDistinctKeys (some m) = Distinct m

module _ {Bytes : Type 0} (wire : EasyProto Bytes) (reads : Reads wire) where
  items_step-item :
      (f : ℕ) (k : Text) (v : Value) (rest : Items) (acc : Assoc Value)
      → size (marshal_item k v) < f
      → items_step wire f (reads.field 1 (message (marshal_item k v)) rest) acc
        ≡ (if is_empty k then some (err missing_key) else some (ok (insert k (normal_value v) acc)))
  unfolding items_step then_decode
  items_step-item f k v rest acc h =
      let i = message (marshal_item k v) in
      ground (
        arith,
        reads.number 1 i rest,
        reads.holds 1 i rest,
        unmarshal_map_entry-marshal_item wire reads k v f h,
      )

  pub unmarshal_key_value-marshal_items :
      (m acc : Assoc Value) (f : ℕ)
      → size (marshal_items m) < f
      → Distinct (acc ++ m)
      → unmarshal_key_value wire f (wire.marshal (marshal_items m)) acc
        ≡ (if has_empty_key m then some (err missing_key) else some (ok (acc ++ normal_items m)))
  unfolding unmarshal_key_value marshal_items size
  unmarshal_key_value-marshal_items [] acc f h d =
      each_field-end wire reads (items_step wire) f acc h
      ∙ ap (λ m. some (ok m)) (sym (append-nil acc))
  unmarshal_key_value-marshal_items ((k, v) ∷ m) acc zero h d = absurd (omega arith)
  unmarshal_key_value-marshal_items ((k, v) ∷ m) acc (suc f) h d =
      let item = message (marshal_item k v) in
      let set = items_step-item f k v (marshal_items m) acc (omega arith) in
      elim (Bool-cases (is_empty k)) [
        | inl e ↦
            each_field-err wire reads (items_step wire) f 1 item (marshal_items m) acc missing_key
              (ground (arith, set, e))
            ∙ rw e refl
        | inr ne ↦
            let acc' : Assoc Value = (k, normal_value v) ∷ [] in
            each_field-step wire reads (items_step wire) f 1 item (marshal_items m) acc
              (insert k (normal_value v) acc) (ground (arith, set, ne))
            ∙ rw
                (
                  insert_fresh k v (normal_value v) acc m d,
                  ne,
                  sym (append_assoc acc acc' (normal_items m)),
                )
                (unmarshal_key_value-marshal_items m (acc ++ acc') f (omega arith) (
                  subst Distinct (sym (append_assoc acc acc' m))
                    (Distinct-replace k v (normal_value v) acc m d)))
      ]
