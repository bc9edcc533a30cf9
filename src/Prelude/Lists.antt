-- ===== src/Prelude/Lists.antt =====
-- Lists measured by native numbers, predicates on lists by recursion, and keeping by a test.
use Prim.Native.Nat.{ℕ, zero, suc, ◌+◌, ◌≤◌}
use mathlib.Core.Path.{◌≡◌, refl, sym}
use mathlib.Core.Logic.{◌⊎◌, inl, inr, ◌↔◌}
use mathlib.Core.Bool.{Bool, true, ◌&&◌}
use mathlib.Core.List.{List, [], ◌∷◌, ◌++◌}
use native.Mathlib.Omega.{arith}
use go_gedung_peristiwa.Prelude.Tests.{if◌then◌else◌}

module _ {ℓ} {A : Type ℓ} where
  abbrev pub length : List A → ℕ
  length [] = 0
  length (x ∷ xs) = suc (length xs)

  abbrev pub take : ℕ → List A → List A
  take zero xs = []
  take (suc n) [] = []
  take (suc n) (x ∷ xs) = x ∷ take n xs

  -- The entries that pass a test, in order.
  abbrev pub keep : (A → Bool) → List A → List A
  keep p [] = []
  keep p (x ∷ xs) = if p x then x ∷ keep p xs else keep p xs

module _ {A : Type 0} where
  -- A test of every entry.
  abbrev pub every : (A → Bool) → List A → Bool
  every p [] = true
  every p (x ∷ xs) = p x && every p xs

  -- Membership, with the place kept.
  abbrev pub Elem : A → List A → Type 0
  Elem x [] = ⊥
  Elem x (y ∷ ys) = (x ≡ y) ⊎ Elem x ys

module _ {ℓ κ} {A : Type ℓ} where
  abbrev pub All : (A → Type κ) → List A → Type κ
  All P [] = Unit
  All P (x ∷ xs) = P x × All P xs

module _ {ℓ} {A : Type ℓ} where
  pub length-append : (xs ys : List A) → length (xs ++ ys) ≡ length xs + length ys
  length-append [] ys = omega arith
  length-append (x ∷ xs) ys = omega (arith, length-append xs ys)

  pub length-take-le : (n : ℕ) (xs : List A) → length (take n xs) ≤ n
  length-take-le zero xs = omega arith
  length-take-le (suc n) [] = omega arith
  length-take-le (suc n) (x ∷ xs) = omega (arith, length-take-le n xs)

  pub take_of_length-le : (n : ℕ) (xs : List A) → length xs ≤ n → take n xs ≡ xs
  take_of_length-le zero [] h = refl
  take_of_length-le (suc m) [] h = refl
  take_of_length-le zero (x ∷ xs) h = absurd (omega arith)
  take_of_length-le (suc m) (x ∷ xs) h = ground (arith, take_of_length-le m xs)

  pub length-keep-le : (p : A → Bool) (xs : List A) → length (keep p xs) ≤ length xs
  length-keep-le p [] = omega arith
  length-keep-le p (x ∷ xs) = ground (arith, length-keep-le p xs)

  pub keep-All : (p : A → Bool) (xs : List A) → All (λ x. p x ≡ true) xs → keep p xs ≡ xs
  keep-All p [] h = refl
  keep-All p (x ∷ xs) h = ground (arith, keep-All p xs h.1)

  pub All-keep : (p : A → Bool) (xs : List A) → All (λ x. p x ≡ true) (keep p xs)
  All-keep p [] = tt
  All-keep p (x ∷ xs) = ground (arith, All-keep p xs)

  pub keep-append : (p : A → Bool) (xs ys : List A) → keep p (xs ++ ys) ≡ keep p xs ++ keep p ys
  keep-append p [] ys = refl
  keep-append p (x ∷ xs) ys = ground (arith, keep-append p xs ys)

  pub All-map {κ μ} :
      {P : A → Type κ} {Q : A → Type μ}
      → ((x : A) → P x → Q x)
      → (xs : List A) → All P xs
      → All Q xs
  All-map f [] h = tt
  All-map f (x ∷ xs) h = (f x h.0, All-map f xs h.1)

  pub All-append {κ} : (P : A → Type κ) (xs ys : List A) → All P xs → All P ys → All P (xs ++ ys)
  All-append P [] ys hx hy = hy
  All-append P (x ∷ xs) ys hx hy = (hx.0, All-append P xs ys hx.1 hy)

module _ {A : Type 0} where
  pub Elem-append_left : (x : A) (xs ys : List A) → Elem x xs → Elem x (xs ++ ys)
  Elem-append_left x (y ∷ xs) ys (inl e) = inl e
  Elem-append_left x (y ∷ xs) ys (inr m) = inr (Elem-append_left x xs ys m)
  Elem-append_left x [] ys h = elim h [ ]

  pub Elem-append_right : (x : A) (xs ys : List A) → Elem x ys → Elem x (xs ++ ys)
  Elem-append_right x [] ys m = m
  Elem-append_right x (y ∷ xs) ys m = inr (Elem-append_right x xs ys m)

  pub Elem-append_cases : (x : A) (xs ys : List A) → Elem x (xs ++ ys) → Elem x xs ⊎ Elem x ys
  Elem-append_cases x [] ys m = inr m
  Elem-append_cases x (y ∷ xs) ys (inl e) = inl (inl e)
  Elem-append_cases x (y ∷ xs) ys (inr m) = ground (arith, Elem-append_cases x xs ys m)

  Elem-of_keep :
      (p : A → Bool) (x : A) (xs : List A) → Elem x (keep p xs) → Elem x xs × (p x ≡ true)
  Elem-of_keep p x (y ∷ ys) m = ground (arith, Elem-of_keep p x ys)
  Elem-of_keep p x [] h = elim h [ ]

  keep_of_Elem : (p : A → Bool) (x : A) (xs : List A) → Elem x xs → p x ≡ true → Elem x (keep p xs)
  keep_of_Elem p x (y ∷ ys) m h = ground (arith, keep_of_Elem p x ys)
  keep_of_Elem p x [] m h = elim m [ ]

  pub Elem-keep :
      (p : A → Bool) (x : A) (xs : List A) → Elem x (keep p xs) ↔ (Elem x xs × (p x ≡ true))
  Elem-keep p x xs = (Elem-of_keep p x xs, λ h. keep_of_Elem p x xs h.0 h.1)

  pub every_at : (p : A → Bool) (x : A) (xs : List A) → every p xs ≡ true → Elem x xs → p x ≡ true
  every_at p x (y ∷ ys) h m = ground (arith, every_at p x ys)
  every_at p x [] h m = elim m [ ]

  pub All_at {κ} : (P : A → Type κ) (x : A) (xs : List A) → All P xs → Elem x xs → P x
  All_at P x (y ∷ ys) h (inl e) = rw e h.0
  All_at P x (y ∷ ys) h (inr m) = All_at P x ys h.1 m
  All_at P x [] h m = elim m [ ]

  -- No entry stands twice.
  abbrev pub Unique : List A → Type 0
  Unique [] = Unit
  Unique (x ∷ xs) = (¬ Elem x xs) × Unique xs

  pub Unique-append_one : (x : A) (xs : List A) → Unique xs → ¬ Elem x xs → Unique (xs ++ x ∷ [])
  Unique-append_one x [] u h = (λ e. e, tt)
  Unique-append_one x (y ∷ xs) u h = (
    λ m. elim (Elem-append_cases y xs (x ∷ []) m) [
      | inl old ↦ u.0 old
      | inr (inl e) ↦ h (inl (sym e))
      | inr (inr z) ↦ z
    ],
    Unique-append_one x xs u.1 (λ m. h (inr m)),
  )
