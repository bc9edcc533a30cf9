-- ===== src/Sort.antt =====
-- sort.Strings and sort.Slice of the standard library, as insertion by a test `lt`. (The library
-- leaves the order of equal entries open; insertion keeps theirs.)
use mathlib.Core.List.{Perm}
use mathlib.Core.List.Perm
use go_gedung_peristiwa.Prelude.{
  ◌≡◌, List, [], ◌∷◌, Bool, true, false, if◌then◌else◌, arith, inl, inr, Bool-cases,
}

module _ {A : Type 0} (lt : A → A → Bool) where
  unfoldable pub insert_sorted : A → List A → List A
  insert_sorted a [] = a ∷ []
  insert_sorted a (b ∷ bs) = if lt b a then b ∷ insert_sorted a bs else a ∷ b ∷ bs

  unfoldable pub sort : List A → List A
  unfolding insert_sorted
  sort [] = []
  sort (a ∷ as') = insert_sorted a (sort as')

  -- No entry is below the one before it.
  abbrev pub IsSorted : List A → Type 0
  IsSorted [] = Unit {0}
  IsSorted (a ∷ []) = Unit {0}
  IsSorted (a ∷ b ∷ bs) = (lt b a ≡ false) × IsSorted (b ∷ bs)

  insert_sorted-perm : (a : A) (bs : List A) → Perm (a ∷ bs) (insert_sorted a bs)
  unfolding insert_sorted
  insert_sorted-perm a [] = Perm.refl (a ∷ [])
  insert_sorted-perm a (b ∷ bs) = elim (Bool-cases (lt b a)) [
    | inl e ↦ rw e (Perm.trans (Perm.swap b a bs) (Perm.cons b (insert_sorted-perm a bs)))
    | inr e ↦ rw e (Perm.refl (a ∷ b ∷ bs))
  ]

  pub sort-perm : (as' : List A) → Perm as' (sort as')
  unfolding sort
  sort-perm [] = Perm.refl []
  sort-perm (a ∷ as') = Perm.trans (Perm.cons a (sort-perm as')) (insert_sorted-perm a (sort as'))

  module _ (asym : (a b : A) → lt a b ≡ true → lt b a ≡ false) where
    insert_sorted-IsSorted : (a : A) (bs : List A) → IsSorted bs → IsSorted (insert_sorted a bs)
    unfolding insert_sorted
    insert_sorted-IsSorted a [] s = tt
    insert_sorted-IsSorted a (b ∷ []) s = ground (arith, asym b a)
    insert_sorted-IsSorted a (b ∷ c ∷ bs) s =
        ground (arith, asym b a, insert_sorted-IsSorted a (c ∷ bs) s.1)

    pub sort-IsSorted : (as' : List A) → IsSorted (sort as')
    unfolding sort
    sort-IsSorted [] = tt
    sort-IsSorted (a ∷ as') = insert_sorted-IsSorted a (sort as') (sort-IsSorted as')
