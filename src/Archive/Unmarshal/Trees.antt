-- ===== src/Archive/Unmarshal/Trees.antt =====
-- What the server of the archive reads of a value that the client sent.
use go_gedung_peristiwa.Prelude.{
  ℕ, zero, suc, ◌<◌, ◌≡◌, refl, ap, sym, ◌∙◌, ◌≢◌, Option, none, some, ok, arith,
}
use go_gedung_peristiwa.Prelude.Int.{ℤ}
use go_gedung_peristiwa.Text.{Text}
use go_gedung_peristiwa.Gtfs.Bounds.{Float64}
use go_gedung_peristiwa.Archive.Metric.{Value, value, Values, nil, cons}
use go_gedung_peristiwa.Archive.Wire.{
  Item, Items, end, append, int64, int32, double, string, message, EasyProto, Reads, size,
}
use go_gedung_peristiwa.Archive.Marshal.{marshal_value, marshal_payload, marshal_values}
use go_gedung_peristiwa.Archive.Unmarshal.{
  then_decode, push, empty_value, with_item, set_scalar, unmarshal_value,
}
use go_gedung_peristiwa.Archive.Unmarshal.Normal.{normal_payload, normal_value, normal_values}

unfoldable join : Values → Values → Values
join nil ws = ws
join (cons v vs) ws = cons v (join vs ws)

join-push : (vs : Values) (w : Value) (ws : Values) → join (push w vs) ws ≡ join vs (cons w ws)
unfolding join push
join-push nil w ws = refl
join-push (cons v vs) w ws = ap (cons v) (join-push vs w ws)

abbrev with_items : Value → Values → Value
with_items (value t i f s l) ws = value t i f s (join l ws)

with_item-items :
    (v w : Value) (ws : Values) → with_items (with_item v w) ws ≡ with_items v (cons w ws)
with_item-items (value t i f s l) w ws = ap (value t i f s) (join-push l w ws)

with_items-nil : (v : Value) → with_items v nil ≡ v
unfolding join
with_items-nil (value t i f s l) = ap (value t i f s) (join-nil l)
  where
    join-nil : (l : Values) → join l nil ≡ l
    join-nil nil = refl
    join-nil (cons v vs) = ap (cons v) (join-nil vs)

module _ {Bytes : Type 0} (wire : EasyProto Bytes) (reads : Reads wire) where
  read-end : (f : ℕ) (v : Value) → unmarshal_value wire (suc f) (wire.marshal end) v ≡ some (ok v)
  unfolding unmarshal_value
  read-end f v = ground (arith, reads.done)

  read-scalar :
      (f n : ℕ) (i : Item) (rest : Items) (v v' : Value)
      → n ≢ 5
      → set_scalar wire (reads.field n i rest) v ≡ some (ok v')
      → unmarshal_value wire (suc f) (wire.marshal (append n i rest)) v
        ≡ unmarshal_value wire f (wire.marshal rest) v'
  unfolding unmarshal_value then_decode
  read-scalar f n i rest v v' ne e =
      ground (arith, reads.more n i rest, reads.next n i rest, reads.number n i rest, e)

  read-item :
      (f : ℕ) (is rest : Items) (v w : Value)
      → unmarshal_value wire f (wire.marshal is) empty_value ≡ some (ok w)
      → unmarshal_value wire (suc f) (wire.marshal (append 5 (message is) rest)) v
        ≡ unmarshal_value wire f (wire.marshal rest) (with_item v w)
  unfolding unmarshal_value then_decode
  read-item f is rest v w e = ground (
    arith,
    reads.more 5 (message is) rest,
    reads.next 5 (message is) rest,
    reads.number 5 (message is) rest,
    reads.holds 5 (message is) rest,
    e,
  )

  read-none :
      (f : ℕ) (v : Value) → 0 < f → unmarshal_value wire f (wire.marshal end) v ≡ some (ok v)
  read-none zero v h = absurd (omega arith)
  read-none (suc f) v h = read-end f v

  -- The only field, after which the message ends.
  read-one :
      (f n : ℕ) (i : Item) (v v' : Value)
      → 1 < f
      → n ≢ 5
      → set_scalar wire (reads.field n i end) v ≡ some (ok v')
      → unmarshal_value wire f (wire.marshal (append n i end)) v ≡ some (ok v')
  read-one zero n i v v' h ne e = absurd (omega arith)
  read-one (suc zero) n i v v' h ne e = absurd (omega arith)
  read-one (suc (suc f)) n i v v' h ne e = read-scalar (suc f) n i end v v' ne e ∙ read-end f v'

  -- What is set by a scalar that the client appended.
  set_int :
      (t n : ℤ)
      → set_scalar wire (reads.field 2 (int64 n) end) (value t none none none nil)
        ≡ some (ok (value t (some n) none none nil))
  unfolding set_scalar then_decode
  set_int t n = ground (arith, reads.number 2 (int64 n) end, reads.holds 2 (int64 n) end)

  set_float :
      (t : ℤ) (x : Float64)
      → set_scalar wire (reads.field 3 (double x) end) (value t none none none nil)
        ≡ some (ok (value t none (some x) none nil))
  unfolding set_scalar then_decode
  set_float t x = ground (arith, reads.number 3 (double x) end, reads.holds 3 (double x) end)

  set_string :
      (t : ℤ) (a : Text)
      → set_scalar wire (reads.field 4 (string a) end) (value t none none none nil)
        ≡ some (ok (value t none none (some a) nil))
  unfolding set_scalar then_decode
  set_string t a = ground (arith, reads.number 4 (string a) end, reads.holds 4 (string a) end)

  set_type :
      (t : ℤ) (rest : Items)
      → set_scalar wire (reads.field 1 (int32 t) rest) empty_value
        ≡ some (ok (value t none none none nil))
  unfolding set_scalar then_decode
  set_type t rest = ground (arith, reads.number 1 (int32 t) rest, reads.holds 1 (int32 t) rest)

  read-int :
      (t n : ℤ) (f : ℕ)
      → size (append 2 (int64 n) end) < f
      → unmarshal_value wire f (wire.marshal (append 2 (int64 n) end)) (value t none none none nil)
        ≡ some (ok (value t (some n) none none nil))
  unfolding size
  read-int t n f h = read-one f 2 (int64 n) _ _ h (λ e. omega arith) (set_int t n)

  read-float :
      (t : ℤ) (x : Float64) (f : ℕ)
      → size (append 3 (double x) end) < f
      → unmarshal_value wire f (wire.marshal (append 3 (double x) end)) (value t none none none nil)
        ≡ some (ok (value t none (some x) none nil))
  unfolding size
  read-float t x f h = read-one f 3 (double x) _ _ h (λ e. omega arith) (set_float t x)

  read-string :
      (t : ℤ) (a : Text) (f : ℕ)
      → size (append 4 (string a) end) < f
      → unmarshal_value wire f (wire.marshal (append 4 (string a) end)) (value t none none none nil)
        ≡ some (ok (value t none none (some a) nil))
  unfolding size
  read-string t a f h = read-one f 4 (string a) _ _ h (λ e. omega arith) (set_string t a)

  -- After the type: what belongs to it, where the list is read as `ws`.
  read-payload :
      (t : ℤ) (i : Option ℤ) (x : Option Float64) (s : Option Text) (is : Items) (ws : Values)
      (f : ℕ)
      → (size is < f
          → unmarshal_value wire f (wire.marshal is) (value t none none none nil)
            ≡ some (ok (value t none none none ws)))
      → size (marshal_payload t i x s is) < f
      → unmarshal_value wire f
          (wire.marshal (marshal_payload t i x s is))
          (value t none none none nil)
        ≡ some (ok (normal_payload t i x s ws))
  unfolding marshal_payload normal_payload
  read-payload t none none none is ws f list h =
      ground (arith, list, read-none f (value t none none none nil))
  read-payload t (some n) none none is ws f list h =
      ground (arith, list, read-none f (value t none none none nil), read-int t n f)
  read-payload t none (some y) none is ws f list h =
      ground (arith, list, read-none f (value t none none none nil), read-float t y f)
  read-payload t (some n) (some y) none is ws f list h =
      ground
        (arith, list, read-none f (value t none none none nil), read-int t n f, read-float t y f)
  read-payload t none none (some c) is ws f list h =
      ground (arith, list, read-none f (value t none none none nil), read-string t c f)
  read-payload t (some n) none (some c) is ws f list h =
      ground
        (arith, list, read-none f (value t none none none nil), read-int t n f, read-string t c f)
  read-payload t none (some y) (some c) is ws f list h =
      ground
        (arith, list, read-none f (value t none none none nil), read-float t y f, read-string t c f)
  read-payload t (some n) (some y) (some c) is ws f list h = ground (
    arith,
    list,
    read-none f (value t none none none nil),
    read-int t n f,
    read-float t y f,
    read-string t c f,
  )

  mutual
    unfolding marshal_value normal_value join size

    pub unmarshal_value-marshal_value :
        (v : Value) (f : ℕ)
        → size (marshal_value v) < f
        → unmarshal_value wire f (wire.marshal (marshal_value v)) empty_value
          ≡ some (ok (normal_value v))
    unmarshal_value-marshal_value (value t i x s l) zero h = absurd (omega arith)
    unmarshal_value-marshal_value (value t i x s l) (suc f) h =
        read-scalar f 1 (int32 t) (marshal_payload t i x s (marshal_values l)) empty_value
          (value t none none none nil) (λ e. omega arith)
          (set_type t (marshal_payload t i x s (marshal_values l)))
        ∙ read-payload t i x s (marshal_values l) (normal_values l) f
            (λ k. read-values l f (value t none none none nil) k) (omega arith)

    read-values :
        (vs : Values) (f : ℕ) (v : Value)
        → size (marshal_values vs) < f
        → unmarshal_value wire f (wire.marshal (marshal_values vs)) v
          ≡ some (ok (with_items v (normal_values vs)))
    read-values nil f v h = read-none f v h ∙ ap (λ w. some (ok w)) (sym (with_items-nil v))
    read-values (cons w ws) zero v h = absurd (omega arith)
    read-values (cons w ws) (suc f) v h =
        read-item f (marshal_value w) (marshal_values ws) v (normal_value w)
          (unmarshal_value-marshal_value w f (omega arith))
        ∙ read-values ws f (with_item v (normal_value w)) (omega arith)
        ∙ ap (λ u. some (ok u)) (with_item-items v (normal_value w) (normal_values ws))
