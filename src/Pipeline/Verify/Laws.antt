-- ===== src/Pipeline/Verify/Laws.antt =====
-- What a successful check of internal/pipeline/verify.go shows.
use mathlib.Core.List.{Perm, Permᴰ}
use mathlib.Core.List.Perm
use mathlib.Core.Logic.{∥∥₁_elim}
use go_gedung_peristiwa.Prelude.{
  ℕ, suc, ◌≤◌, ◌≡◌, refl, ap, sym, ◌∙◌, List, [], ◌∷◌, none, some, true, false, length, arith, ◌↔◌,
  inl, inr, Option-cases, Elem, subst,
}
use go_gedung_peristiwa.Text.{
  Text, text_lt, text_dec, text_lt_irrefl, text_lt_trans, text_lt_total, text_lt_negtrans,
}
use go_gedung_peristiwa.Assoc.{Assoc}
use go_gedung_peristiwa.Model.{Emission, expected_keys}
use go_gedung_peristiwa.Sort.{sort, insert_sorted, IsSorted, sort-perm}
use go_gedung_peristiwa.Pipeline.Verify.{
  Tenants, verify_key_order, compare_keys, verify_key_set, verify_tenant, verify_tenants, verify,
  group_keys_by_tenant,
}

-- The check of the order passes exactly on lists that do not fall.
pub verify_key_order-IsSorted :
    (ks : List Text) → (verify_key_order ks ≡ none) ↔ IsSorted text_lt ks
unfolding verify_key_order
verify_key_order-IsSorted [] = (λ e. tt, λ s. refl)
verify_key_order-IsSorted (a ∷ []) = (λ e. tt, λ s. refl)
verify_key_order-IsSorted (a ∷ b ∷ ks) =
    let ih = verify_key_order-IsSorted (b ∷ ks) in
    (λ e. (ground arith, ih.0 (ground arith)), λ s. ground (arith, ih.1 s.1, s.0))

text_lt_asym : (a b : Text) → text_lt a b ≡ true → text_lt b a ≡ false
text_lt_asym a b h = ground (arith, text_lt_trans a b a, text_lt_irrefl a)

-- Texts neither of which is below the other are equal.
text_lt_eq : (a b : Text) → text_lt a b ≡ false → text_lt b a ≡ false → a ≡ b
text_lt_eq a b h k = elim (text_dec a b) [
  | yes e ↦ e
  | no n ↦ elim (text_lt_total a b n) [ inl x ↦ cc | inr x ↦ cc ]
]

insert_sorted_comm :
    (a b : Text) (l : List Text)
    → insert_sorted text_lt a (insert_sorted text_lt b l)
      ≡ insert_sorted text_lt b (insert_sorted text_lt a l)
unfolding insert_sorted
insert_sorted_comm a b [] = ground (arith, text_lt_asym a b, text_lt_eq a b)
insert_sorted_comm a b (c ∷ l) = ground (
  arith,
  insert_sorted_comm a b l,
  text_lt_asym a b,
  text_lt_eq a b,
  text_lt_trans a b c,
  text_lt_trans b a c,
  text_lt_negtrans c a b,
  text_lt_negtrans c b a,
)

sort_step :
    (a : Text) (l : List Text) → sort text_lt (a ∷ l) ≡ insert_sorted text_lt a (sort text_lt l)
unfolding sort
sort_step a l = refl

sort-eq_of_permᴰ : {xs ys : List Text} → Permᴰ xs ys → sort text_lt xs ≡ sort text_lt ys
sort-eq_of_permᴰ Permᴰ.nil = refl
sort-eq_of_permᴰ (Permᴰ.cons {a = a} {b = b} {l₁ = l} {l₂ = m} e p) =
    cc (sort_step a l, sort_step b m, e, sort-eq_of_permᴰ p)
sort-eq_of_permᴰ (Permᴰ.swap {a = a} {b = b} {a' = c} {b' = d} {l = l} e f) = cc (
  e,
  f,
  sort_step a (b ∷ l),
  sort_step b l,
  sort_step c (d ∷ l),
  sort_step d l,
  insert_sorted_comm a b (sort text_lt l),
)
sort-eq_of_permᴰ (Permᴰ.trans p q) = sort-eq_of_permᴰ p ∙ sort-eq_of_permᴰ q

keys_set : IsSet (List Text)
keys_set = hlevel

sort-eq_of_perm : (xs ys : List Text) → Perm xs ys → sort text_lt xs ≡ sort text_lt ys
sort-eq_of_perm xs ys p = ∥∥₁_elim p (keys_set _ _) sort-eq_of_permᴰ

length-insert_sorted :
    (a : Text) (l : List Text) → length (insert_sorted text_lt a l) ≡ suc (length l)
unfolding insert_sorted
length-insert_sorted a [] = refl
length-insert_sorted a (b ∷ l) = ground (arith, length-insert_sorted a l)

length-sort : (l : List Text) → length (sort text_lt l) ≡ length l
unfolding sort
length-sort [] = refl
length-sort (a ∷ l) = omega (arith, length-insert_sorted a (sort text_lt l), length-sort l)

compare_keys-eq :
    (ws gs : List Text) → length ws ≡ length gs → (compare_keys ws gs ≡ none) ↔ (ws ≡ gs)
unfolding compare_keys
compare_keys-eq [] [] h = (λ e. refl, λ e. refl)
compare_keys-eq [] (g ∷ gs) h = absurd (omega arith)
compare_keys-eq (w ∷ ws) [] h = absurd (omega arith)
compare_keys-eq (w ∷ ws) (g ∷ gs) h =
    let ih = compare_keys-eq ws gs (omega arith) in
    (λ e. ground (arith, ih.0), λ e. ground (arith, ih.1))

verify_key_set-sorts :
    (want got : List Text)
    → (verify_key_set want got ≡ none)
      ↔ ((length want ≡ length got) × (sort text_lt want ≡ sort text_lt got))
unfolding verify_key_set
verify_key_set-sorts want got = (
  λ e. let same : length want ≡ length got = ground arith in (same, (sorted same).0 (ground arith)),
  λ h. ground (arith, (sorted h.0).1 h.1),
)
  where
    sorted :
        length want ≡ length got
        → (compare_keys (sort text_lt want) (sort text_lt got) ≡ none)
          ↔ (sort text_lt want ≡ sort text_lt got)
    sorted same =
        compare_keys-eq (sort text_lt want) (sort text_lt got)
          (omega (arith, length-sort want, length-sort got))

-- The check of the keys passes exactly if the scanned keys are the expected ones, each as often,
-- in any order.
pub verify_key_set-perm : (want got : List Text) → (verify_key_set want got ≡ none) ↔ Perm want got
verify_key_set-perm want got = (
  λ e.
      let same = ((verify_key_set-sorts want got).0 e).1 in
      Perm.trans (sort-perm text_lt want)
        (subst (λ l. Perm l got) (sym same) (Perm.symm (sort-perm text_lt got))),
  λ p.
      let same = sort-eq_of_perm want got p in
      (verify_key_set-sorts want got).1
        (omega (arith, length-sort want, length-sort got, ap length same), same),
)

-- What `Verify` has found of one tenant.
pub record Checked (ts : Tenants) (id : Text) (want : List Text) : Type 0 where
  pub known : ts.known id ≡ true
  pub got : List Text
  pub scanned : ts.scan_keys id ≡ some got
  pub sorted : IsSorted text_lt got
  pub same_keys : Perm want got
  pub changes : ℕ
  pub counted : ts.change_feed_count id ≡ some changes
  pub enough : length want ≤ changes

verify_tenant-Checked :
    (ts : Tenants) (id : Text) (want : List Text)
    → verify_tenant ts id want ≡ none
    → Checked ts id want
unfolding verify_tenant
verify_tenant-Checked ts id want h = elim (Option-cases (ts.scan_keys id)) [
  | inl e ↦ absurd (ground arith)
  | inr (got, e) ↦ elim (Option-cases (ts.change_feed_count id)) [
    | inl f ↦ absurd (ground arith)
    | inr (n, f) ↦ record {
      known = ground arith;
      got = got;
      scanned = e;
      sorted = (verify_key_order-IsSorted got).0 (ground arith);
      same_keys = (verify_key_set-perm want got).0 (ground arith);
      changes = n;
      counted = f;
      enough = ground arith;
    }
  ]
]

verify_tenants-Checked :
    (ts : Tenants) (groups : Assoc (List Text)) (id : Text) (want : List Text)
    → verify_tenants ts groups ≡ none
    → Elem (id, want) groups
    → Checked ts id want
unfolding verify_tenants
verify_tenants-Checked ts [] id want h m = absurd m
verify_tenants-Checked ts ((j, w) ∷ rest) id want h m =
    let first : verify_tenant ts j w ≡ none = ground arith in
    let later : verify_tenants ts rest ≡ none = ground arith in
    elim m [
      | inl e ↦
          let here = verify_tenant-Checked ts j w first in
          subst (λ (q : Text × List Text). Checked ts q.0 q.1) (sym e) here
      | inr m' ↦ verify_tenants-Checked ts rest id want later m'
    ]

-- Where `Verify` gives no error, every group of expected keys belongs to a known tenant whose
-- scan is in order and holds exactly the keys of the group, and whose feed has at least as many
-- changes; and there are no fewer emissions than expected keys.
pub verify-Checked :
    (ts : Tenants) (emissions : List Emission) (id : Text) (want : List Text)
    → verify ts emissions ≡ none
    → Elem (id, want) (group_keys_by_tenant (expected_keys emissions))
    → Checked ts id want × (length (expected_keys emissions) ≤ length emissions)
unfolding verify
verify-Checked ts emissions id want h m = (
  verify_tenants-Checked ts (group_keys_by_tenant (expected_keys emissions)) id want (ground arith)
      m,
  ground arith,
)
