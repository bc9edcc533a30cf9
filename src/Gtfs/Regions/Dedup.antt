-- ===== src/Gtfs/Regions/Dedup.antt =====
-- The loop that several functions write out: a list of identifiers, each taken over the first
-- time that it is met, with the set `seen` beside the result.
use go_gedung_peristiwa.Prelude.{
  sym, ◌∙◌, List, [], ◌∷◌, ◌++◌, true, false, Elem, Unique, Unique-append_one, ◌⊎◌, inl, inr,
  Bool-cases, Elem-append_left, Elem-append_right, Elem-append_cases, ◌↔◌,
}
use go_gedung_peristiwa.Text.{Text}
use go_gedung_peristiwa.Gtfs.Regions.{contains}
use go_gedung_peristiwa.Gtfs.Regions.Laws.{contains-Elem, Elem-contains}

unfoldable pub dedup : List Text → List Text → List Text → List Text
dedup [] seen ids = ids
dedup (x ∷ xs) seen ids = elim (contains x seen) [
  | true ↦ dedup xs seen ids
  | false ↦ dedup xs (x ∷ seen) (ids ++ x ∷ [])
]

dedup_sound :
    (xs seen ids : List Text) (r : Text) → Elem r (dedup xs seen ids) → Elem r ids ⊎ Elem r xs
unfolding dedup
dedup_sound [] seen ids r h = inl h
dedup_sound (x ∷ xs) seen ids r h = elim (Bool-cases (contains x seen)) [
  | inl dup ↦ elim (dedup_sound xs seen ids r (rw (dup, dedup) at h)) [
    | inl a ↦ inl a
    | inr b ↦ inr (inr b)
  ]
  | inr new ↦ elim (dedup_sound xs (x ∷ seen) (ids ++ x ∷ []) r (rw (new, dedup) at h)) [
    | inr b ↦ inr (inr b)
    | inl a ↦ elim (Elem-append_cases r ids (x ∷ []) a) [
      | inl old ↦ inl old
      | inr (inl e) ↦ inr (inl e)
      | inr (inr z) ↦ absurd z
    ]
  ]
]

dedup-keeps : (xs seen ids : List Text) (r : Text) → Elem r ids → Elem r (dedup xs seen ids)
unfolding dedup
dedup-keeps [] seen ids r h = h
dedup-keeps (x ∷ xs) seen ids r h = elim (Bool-cases (contains x seen)) [
  | inl dup ↦ rw (dup, dedup) (dedup-keeps xs seen ids r h)
  | inr new ↦
      rw (new, dedup)
        (dedup-keeps xs (x ∷ seen) (ids ++ x ∷ []) r (Elem-append_left r ids (x ∷ []) h))
]

-- The set has the members of the result.
abbrev Same : List Text → List Text → Type 0
Same seen ids = (x : Text) → Elem x seen ↔ Elem x ids

Same-add : (x : Text) (seen ids : List Text) → Same seen ids → Same (x ∷ seen) (ids ++ x ∷ [])
Same-add x seen ids s y = (
  λ h. elim h [
    | inl e ↦ Elem-append_right y ids (x ∷ []) (inl e)
    | inr m ↦ Elem-append_left y ids (x ∷ []) ((s y).0 m)
  ],
  λ h. elim (Elem-append_cases y ids (x ∷ []) h) [
    | inl m ↦ inr ((s y).1 m)
    | inr (inl e) ↦ inl e
    | inr (inr z) ↦ absurd z
  ],
)

dedup_complete :
    (xs seen ids : List Text) (r : Text) → Same seen ids → Elem r xs → Elem r (dedup xs seen ids)
unfolding dedup
dedup_complete [] seen ids r s h = elim h [ ]
dedup_complete (x ∷ xs) seen ids r s (inl e) = elim (Bool-cases (contains x seen)) [
  | inl dup ↦
      rw (dup, dedup) (dedup-keeps xs seen ids r (rw e ((s x).0 (contains-Elem x seen dup))))
  | inr new ↦
      rw (new, dedup)
        (dedup-keeps xs (x ∷ seen) (ids ++ x ∷ []) r (Elem-append_right r ids (x ∷ []) (inl e)))
]
dedup_complete (x ∷ xs) seen ids r s (inr m) = elim (Bool-cases (contains x seen)) [
  | inl dup ↦ rw (dup, dedup) (dedup_complete xs seen ids r s m)
  | inr new ↦
      rw (new, dedup) (dedup_complete xs (x ∷ seen) (ids ++ x ∷ []) r (Same-add x seen ids s) m)
]

dedup-Unique_from :
    (xs seen ids : List Text) → Same seen ids → Unique ids → Unique (dedup xs seen ids)
unfolding dedup
dedup-Unique_from [] seen ids s u = u
dedup-Unique_from (x ∷ xs) seen ids s u = elim (Bool-cases (contains x seen)) [
  | inl dup ↦ rw (dup, dedup) (dedup-Unique_from xs seen ids s u)
  | inr new ↦
      let fresh : ¬ Elem x ids = λ m. cc (sym new ∙ Elem-contains x seen ((s x).1 m)) in
      rw (new, dedup)
        (dedup-Unique_from xs (x ∷ seen) (ids ++ x ∷ []) (Same-add x seen ids s)
          (Unique-append_one x ids u fresh))
]

-- The loop keeps the members of the list, each once.
pub dedup-Elem : (xs : List Text) (r : Text) → Elem r (dedup xs [] []) ↔ Elem r xs
dedup-Elem xs r = (
  λ h. elim (dedup_sound xs [] [] r h) [ inl z ↦ absurd z | inr m ↦ m ],
  dedup_complete xs [] [] r (λ x. (λ e. e, λ e. e)),
)

pub dedup-Unique : (xs : List Text) → Unique (dedup xs [] [])
dedup-Unique xs = dedup-Unique_from xs [] [] (λ x. (λ e. e, λ e. e)) tt
