-- ===== src/Text.antt =====
-- Go strings as lists of bytes: equality, the byte order of `<`, the search for a separator, and
-- the decimal digits of a number (fmt's %d and strconv.ParseInt).
use Prim.Native.Char.{code}
use Prim.Native.String.{String}
use go_gedung_peristiwa.Prelude.{
  ℕ, zero, suc, ◌+◌, ◌-◌, ◌*◌, ◌/◌, ◌%◌, ◌<◌, ◌≡◌, refl, List, [], ◌∷◌, ◌++◌, ℕ_discrete, Bool,
  true, false, ltb, leb, ◌==◌, ◌&&◌, if◌then◌else◌, arith, ◌⊎◌, inl, inr, ◌≢◌, ◌≤◌, Option, none,
  some, Bool-cases,
}

abbrev pub Text : Type 0
Text = List ℕ

-- The bytes of an ASCII literal.
abbrev pub codes : String → Text
codes String.[] = []
codes (String.◌∷◌ c s) = code c ∷ codes s

unfoldable pub text_dec : Discrete Text
text_dec [] [] = yes refl
text_dec [] (y ∷ ys) = no (λ e. cc)
text_dec (x ∷ xs) [] = no (λ e. cc)
text_dec (x ∷ xs) (y ∷ ys) = elim (ℕ_discrete x y) [
  | yes p ↦ elim (text_dec xs ys) [ yes q ↦ yes (cc) | no q ↦ no (λ e. q (cc)) ]
  | no p ↦ no (λ e. p (cc))
]

-- `a < b` on Go strings.
unfoldable pub text_lt : Text → Text → Bool
text_lt xs [] = false
text_lt [] (y ∷ ys) = true
text_lt (x ∷ xs) (y ∷ ys) = if x == y then text_lt xs ys else ltb x y

pub text_lt_irrefl : (a : Text) → text_lt a a ≡ false
unfolding text_lt
text_lt_irrefl [] = refl
text_lt_irrefl (x ∷ xs) = ground (arith, text_lt_irrefl xs)

pub text_lt_trans : (a b c : Text) → text_lt a b ≡ true → text_lt b c ≡ true → text_lt a c ≡ true
unfolding text_lt
text_lt_trans [] [] c h k = cc
text_lt_trans [] (y ∷ ys) [] h k = cc
text_lt_trans [] (y ∷ ys) (z ∷ zs) h k = refl
text_lt_trans (x ∷ xs) [] c h k = cc
text_lt_trans (x ∷ xs) (y ∷ ys) [] h k = cc
text_lt_trans (x ∷ xs) (y ∷ ys) (z ∷ zs) h k = ground (arith, text_lt_trans xs ys zs)

pub text_lt_negtrans :
    (a b c : Text) → text_lt a b ≡ false → text_lt b c ≡ false → text_lt a c ≡ false
unfolding text_lt
text_lt_negtrans [] [] c h k = k
text_lt_negtrans [] (y ∷ ys) c h k = cc
text_lt_negtrans (x ∷ xs) [] [] h k = refl
text_lt_negtrans (x ∷ xs) [] (z ∷ zs) h k = cc
text_lt_negtrans (x ∷ xs) (y ∷ ys) [] h k = refl
text_lt_negtrans (x ∷ xs) (y ∷ ys) (z ∷ zs) h k = ground (arith, text_lt_negtrans xs ys zs)

-- The order is total: texts neither of which is below the other are equal.
pub text_lt_total : (a b : Text) → a ≢ b → (text_lt a b ≡ true) ⊎ (text_lt b a ≡ true)
unfolding text_lt
text_lt_total [] [] h = absurd (h refl)
text_lt_total [] (y ∷ ys) h = inl refl
text_lt_total (x ∷ xs) [] h = inr refl
text_lt_total (x ∷ xs) (y ∷ ys) h = ground (arith, text_lt_total xs ys)

test_lt : text_lt (codes "johor") (codes "klang-valley") ≡ true
unfolding text_lt
test_lt = refl

-- `s == ""`
abbrev pub is_empty : Text → Bool
is_empty [] = true
is_empty (x ∷ xs) = false

pub is_empty_ne : (t : Text) → t ≢ [] → is_empty t ≡ false
is_empty_ne [] h = absurd (h refl)
is_empty_ne (x ∷ xs) h = refl

-- `strings.IndexByte` with the two parts: what stands before and after the first `b`.
unfoldable pub cut : ℕ → Text → Option (Text × Text)
cut b [] = none
cut b (x ∷ xs) =
    if x == b
    then some ([], xs)
    else elim (cut b xs) [ none ↦ none | some (before, after) ↦ some (x ∷ before, after) ]

-- `strings.SplitN(s, b, n)` for n above 0.
unfoldable pub split_n : ℕ → ℕ → Text → List Text
split_n zero b s = s ∷ []
split_n (suc n) b s = elim (cut b s) [
  | none ↦ s ∷ []
  | some (before, after) ↦ before ∷ split_n n b after
]

-- The decimal digits of n in front of `acc`, with fuel.
unfoldable pub digits_of : ℕ → ℕ → Text → Text
digits_of zero n acc = acc
digits_of (suc f) n acc =
    let rest = digits_of f (n / 10) ((48 + n % 10) ∷ acc) in
    if ltb n 10 then (48 + n % 10) ∷ acc else rest

-- %d for a number that is not negative.
unfoldable pub decimal : ℕ → Text
unfolding digits_of
decimal n = digits_of (suc n) n []

-- The digits of strconv.ParseInt, base 10.
unfoldable pub parse_digits : ℕ → Text → Option ℕ
parse_digits acc [] = some acc
parse_digits acc (c ∷ cs) =
    if leb 48 c && leb c 57 then parse_digits (acc * 10 + (c - 48)) cs else none

-- No byte of the text is `b`.
abbrev pub Lacks : ℕ → Text → Type 0
Lacks b [] = Unit {0}
Lacks b (x ∷ xs) = (x ≢ b) × Lacks b xs

pub cut-append : (b : ℕ) (s t : Text) → Lacks b s → cut b (s ++ b ∷ t) ≡ some (s, t)
unfolding cut
cut-append b [] t h = ground arith
cut-append b (x ∷ s) t h = ground (arith, cut-append b s t h.1)

pub cut-Lacks : (b : ℕ) (s : Text) → Lacks b s → cut b s ≡ none
unfolding cut
cut-Lacks b [] h = refl
cut-Lacks b (x ∷ s) h = ground (arith, cut-Lacks b s h.1)

digits_of-parse : (f n : ℕ) (s : Text) → n < f → parse_digits 0 (digits_of f n s) ≡ parse_digits n s
unfolding digits_of parse_digits
digits_of-parse zero n s h = elim h [ ]
digits_of-parse (suc f) n s h = ground (arith, digits_of-parse f (n / 10) ((48 + n % 10) ∷ s))

-- Printing and parsing a number gives it back.
pub parse_digits-decimal : (n : ℕ) → parse_digits 0 (decimal n) ≡ some n
unfolding decimal parse_digits
parse_digits-decimal n = digits_of-parse (suc n) n [] (omega arith)

-- The first byte of a text that starts with a digit.
pub record StartsWithDigit (s : Text) : Type 0 where
  pub first : ℕ
  pub rest : Text
  pub split : s ≡ first ∷ rest
  pub digit : 48 ≤ first

digits_of_start :
    (f n : ℕ) (c : ℕ) (acc : Text) → 48 ≤ c → StartsWithDigit (digits_of f n (c ∷ acc))
unfolding digits_of
digits_of_start zero n c acc h = record { first = c; rest = acc; split = refl; digit = h }
digits_of_start (suc f) n c acc h = elim (Bool-cases (ltb n 10)) [
  | inl e ↦ rw e (record { first = 48 + n % 10; rest = c ∷ acc; split = refl; digit = omega arith })
  | inr e ↦ rw e (digits_of_start f (n / 10) (48 + n % 10) (c ∷ acc) (omega arith))
]

pub decimal-StartsWithDigit : (n : ℕ) → StartsWithDigit (decimal n)
unfolding decimal
decimal-StartsWithDigit n = elim (Bool-cases (ltb n 10)) [
  | inl e ↦ rw e (record { first = 48 + n % 10; rest = []; split = refl; digit = omega arith })
  | inr e ↦ rw e (digits_of_start n (n / 10) (48 + n % 10) [] (omega arith))
]
