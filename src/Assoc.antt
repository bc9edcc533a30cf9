-- ===== src/Assoc.antt =====
-- Go maps keyed by strings, as association lists. The order of the list is the order in which a
-- `range` loop meets the entries, which Go leaves open: what holds for every list holds for every
-- such order.
use go_gedung_peristiwa.Prelude.{
  ◌≡◌, refl, List, [], ◌∷◌, Bool, if◌then◌else◌, ◌++◌, Elem, All, keep, arith, inl, inr, ◌≢◌,
  Option, none, some, ite, if_pos, if_neg, Bool-cases,
}
use go_gedung_peristiwa.Text.{Text, text_dec}

abbrev pub Assoc {ℓ} : Type ℓ → Type ℓ
Assoc V = List (Text × V)

module _ {V : Type 0} where
  -- `v, ok := m[k]`
  unfoldable pub lookup : Text → Assoc V → Option V
  lookup k [] = none
  lookup k ((j, v) ∷ m) = ite (text_dec j k) (some v) (lookup k m)

  -- `m[k] = v`
  unfoldable pub insert : Text → V → Assoc V → Assoc V
  insert k v [] = (k, v) ∷ []
  insert k v ((j, w) ∷ m) = ite (text_dec j k) ((k, v) ∷ m) ((j, w) ∷ insert k v m)

  -- `delete(m, k)`
  unfoldable pub erase : Text → Assoc V → Assoc V
  erase k [] = []
  erase k ((j, w) ∷ m) = ite (text_dec j k) (erase k m) ((j, w) ∷ erase k m)

  -- A map has each key once.
  abbrev pub Distinct : Assoc V → Type 0
  Distinct [] = Unit {0}
  Distinct ((k, v) ∷ m) = (lookup k m ≡ none) × Distinct m

  pub lookup-insert :
      (k j : Text) (v : V) (m : Assoc V)
      → lookup j (insert k v m) ≡ ite (text_dec k j) (some v) (lookup j m)
  unfolding lookup insert
  lookup-insert k j v [] = refl
  lookup-insert k j v ((i, w) ∷ m) = ground (arith, lookup-insert k j v m)

  pub lookup-insert_self : (k : Text) (v : V) (m : Assoc V) → lookup k (insert k v m) ≡ some v
  lookup-insert_self k v m = ground (arith, lookup-insert k k v m)

  pub lookup-insert_ne :
      (k j : Text) (v : V) (m : Assoc V) → k ≢ j → lookup j (insert k v m) ≡ lookup j m
  lookup-insert_ne k j v m h = ground (arith, lookup-insert k j v m)

  pub lookup-erase :
      (k j : Text) (m : Assoc V) → lookup j (erase k m) ≡ ite (text_dec k j) none (lookup j m)
  unfolding lookup erase
  lookup-erase k j [] = ground arith
  lookup-erase k j ((i, w) ∷ m) = ground (arith, lookup-erase k j m)

  pub insert-Distinct : (k : Text) (v : V) (m : Assoc V) → Distinct m → Distinct (insert k v m)
  unfolding insert lookup
  insert-Distinct k v [] d = ground arith
  insert-Distinct k v ((j, w) ∷ m) d =
      ground (arith, insert-Distinct k v m d.1, lookup-insert k j v m)

  pub erase-Distinct : (k : Text) (m : Assoc V) → Distinct m → Distinct (erase k m)
  unfolding erase lookup
  erase-Distinct k [] d = tt
  erase-Distinct k ((j, w) ∷ m) d = ground (arith, erase-Distinct k m d.1, lookup-erase k j m)

  pub lookup-keep-none :
      (p : Text × V → Bool) (k : Text) (m : Assoc V)
      → lookup k m ≡ none
      → lookup k (keep p m) ≡ none
  unfolding lookup
  lookup-keep-none p k [] h = refl
  lookup-keep-none p k ((j, w) ∷ m) h = ground (arith, lookup-keep-none p k m)

  pub keep-Distinct : (p : Text × V → Bool) (m : Assoc V) → Distinct m → Distinct (keep p m)
  unfolding lookup
  keep-Distinct p [] d = tt
  keep-Distinct p ((j, w) ∷ m) d = ground (arith, keep-Distinct p m d.1, lookup-keep-none p j m d.0)

  -- Where the keys are distinct, a filtered map gives an entry exactly when it passes the test.
  pub lookup-keep :
      (p : Text × V → Bool) (k : Text) (m : Assoc V)
      → Distinct m
      → lookup k (keep p m)
        ≡ elim (lookup k m) [ none ↦ none | some v ↦ if p (k, v) then some v else none ]
  unfolding lookup
  lookup-keep p k [] d = refl
  lookup-keep p k ((j, w) ∷ m) d = ground (arith, lookup-keep p k m d.1, lookup-keep-none p j m d.0)

  pub Elem-of_lookup : (k : Text) (v : V) (m : Assoc V) → lookup k m ≡ some v → Elem (k, v) m
  unfolding lookup
  Elem-of_lookup k v [] h = cc
  Elem-of_lookup k v ((j, w) ∷ m) h = ground (arith, Elem-of_lookup k v m)

  pub lookup_of_Elem :
      (k : Text) (v : V) (m : Assoc V) → Distinct m → Elem (k, v) m → lookup k m ≡ some v
  unfolding lookup
  lookup_of_Elem k v [] d h = elim h [ ]
  lookup_of_Elem k v ((j, w) ∷ m) d h = ground (arith, lookup_of_Elem k v m d.1)

  pub All-insert :
      (P : Text × V → Type 0) (k : Text) (v : V) (m : Assoc V)
      → P (k, v)
      → All P m
      → All P (insert k v m)
  unfolding insert
  All-insert P k v [] h a = (h, tt)
  All-insert P k v ((j, w) ∷ m) h a = elim (text_dec j k) [
    | yes e ↦ rw (if_pos _ e) (h, a.1)
    | no n ↦ rw (if_neg _ n) (a.0, All-insert P k v m h a.1)
  ]

  pub All-erase : (P : Text × V → Type 0) (k : Text) (m : Assoc V) → All P m → All P (erase k m)
  unfolding erase
  All-erase P k [] a = tt
  All-erase P k ((j, w) ∷ m) a = elim (text_dec j k) [
    | yes e ↦ rw (if_pos _ e) (All-erase P k m a.1)
    | no n ↦ rw (if_neg _ n) (a.0, All-erase P k m a.1)
  ]

  pub All-keep_of :
      (P : Text × V → Type 0) (p : Text × V → Bool) (m : Assoc V) → All P m → All P (keep p m)
  All-keep_of P p [] a = tt
  All-keep_of P p (e ∷ m) a = elim (Bool-cases (p e)) [
    | inl h ↦ rw h (a.0, All-keep_of P p m a.1)
    | inr h ↦ rw h (All-keep_of P p m a.1)
  ]

  pub lookup-append_none :
      (k : Text) (acc m : Assoc V)
      → lookup k (acc ++ m) ≡ none
      → (lookup k acc ≡ none) × (lookup k m ≡ none)
  unfolding lookup
  lookup-append_none k [] m h = (refl, h)
  lookup-append_none k ((j, v) ∷ acc) m h = ground (arith, lookup-append_none k acc m)

  pub none-append :
      (k : Text) (acc m : Assoc V)
      → lookup k acc ≡ none
      → lookup k m ≡ none
      → lookup k (acc ++ m) ≡ none
  unfolding lookup
  none-append k [] m h g = g
  none-append k ((j, v) ∷ acc) m h g = ground (arith, none-append k acc m)

  -- A new key goes to the end.
  pub insert_fresh :
      (k : Text) (v w : V) (acc m : Assoc V)
      → Distinct (acc ++ (k, v) ∷ m)
      → insert k w acc ≡ acc ++ (k, w) ∷ []
  unfolding insert lookup
  insert_fresh k v w [] m d = refl
  insert_fresh k v w ((j, u) ∷ acc) m d =
      ground (arith, insert_fresh k v w acc m d.1, lookup-append_none j acc ((k, v) ∷ m) d.0)

  -- The values do not matter for the keys to be distinct.
  pub Distinct-replace :
      (k : Text) (v w : V) (acc m : Assoc V)
      → Distinct (acc ++ (k, v) ∷ m)
      → Distinct (acc ++ (k, w) ∷ m)
  unfolding lookup
  Distinct-replace k v w [] m d = d
  Distinct-replace k v w ((j, u) ∷ acc) m d =
      let (a, b) = lookup-append_none j acc ((k, v) ∷ m) d.0 in
      (none-append j acc ((k, w) ∷ m) a (ground arith), Distinct-replace k v w acc m d.1)
