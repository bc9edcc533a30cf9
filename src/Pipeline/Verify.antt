-- ===== src/Pipeline/Verify.antt =====
-- internal/pipeline/verify.go: the check of what a simulation has written. What a tenant's scan
-- and change feed give is a parameter.
pub mod Groups
pub mod Laws
use go_gedung_peristiwa.Prelude.{
  ℕ, suc, ◌==◌, ◌&&◌, List, [], ◌∷◌, ◌++◌, Option, none, some, Bool, true, false, not,
  if◌then◌else◌, ltb, leb, length, ite,
}
use go_gedung_peristiwa.Text.{Text, text_lt, text_dec}
use go_gedung_peristiwa.Assoc.{Assoc, lookup, insert}
use go_gedung_peristiwa.Sort.{sort}
use go_gedung_peristiwa.Model.{Emission, expected_keys, tenant_from_key}

pub data VerifyError : Type 0 where
  tenant_not_found scan_failed key_order key_count key_set feed_failed feed_short : VerifyError
  puts_below_unique puts_not_above_unique : VerifyError

-- What `tenant`, `ScanKeys` and `ChangeFeedCount` give for a tenant.
pub record Tenants : Type 0 where
  pub known : Text → Bool
  pub scan_keys : Text → Option (List Text)
  pub change_feed_count : Text → Option ℕ

-- `out[k]` for a map to lists.
unfoldable pub keys_of : Text → Assoc (List Text) → List Text
keys_of k m = elim (lookup k m) [ none ↦ [] | some ks ↦ ks ]

-- The first loop of `groupKeysByTenant`.
unfoldable pub group_keys : List Text → Assoc (List Text) → Assoc (List Text)
unfolding keys_of
group_keys [] out = out
group_keys (k ∷ ks) out =
    let tenant = tenant_from_key k in
    group_keys ks (insert tenant (keys_of tenant out ++ k ∷ []) out)

-- The second one.
unfoldable pub sort_groups : Assoc (List Text) → Assoc (List Text)
sort_groups [] = []
sort_groups ((t, ks) ∷ m) = (t, sort text_lt ks) ∷ sort_groups m

unfoldable pub group_keys_by_tenant : List Text → Assoc (List Text)
unfolding group_keys sort_groups
group_keys_by_tenant keys = sort_groups (group_keys keys [])

-- `none` is no error.
unfoldable pub verify_key_order : List Text → Option VerifyError
verify_key_order [] = none
verify_key_order (a ∷ []) = none
verify_key_order (a ∷ b ∷ ks) = if text_lt b a then some key_order else verify_key_order (b ∷ ks)

-- The loop over two sorted lists of one length.
unfoldable pub compare_keys : List Text → List Text → Option VerifyError
compare_keys [] gs = none
compare_keys (w ∷ ws) [] = none
compare_keys (w ∷ ws) (g ∷ gs) = ite (text_dec w g) (compare_keys ws gs) (some key_set)

unfoldable pub verify_key_set : List Text → List Text → Option VerifyError
unfolding compare_keys
verify_key_set want got =
    if not (length want == length got)
    then some key_count
    else compare_keys (sort text_lt want) (sort text_lt got)

-- One round of the loop of `Verify`.
unfoldable pub verify_tenant : Tenants → Text → List Text → Option VerifyError
verify_tenant ts id want =
    if not (ts.known id) then some tenant_not_found else elim (ts.scan_keys id) [
      | none ↦ some scan_failed
      | some got ↦ elim (verify_key_order got) [
        | some e ↦ some e
        | none ↦ elim (verify_key_set want got) [
          | some e ↦ some e
          | none ↦ elim (ts.change_feed_count id) [
            | none ↦ some feed_failed
            | some n ↦ if ltb n (length want) then some feed_short else none
          ]
        ]
      ]
    ]

unfoldable pub verify_tenants : Tenants → Assoc (List Text) → Option VerifyError
verify_tenants ts [] = none
verify_tenants ts ((id, want) ∷ rest) = elim (verify_tenant ts id want) [
  | some e ↦ some e
  | none ↦ verify_tenants ts rest
]

unfoldable pub has_retry : List Emission → Bool
has_retry [] = false
has_retry (e ∷ es) = if e.retry then true else has_retry es

unfoldable pub verify : Tenants → List Emission → Option VerifyError
unfolding has_retry
verify ts emissions =
    let expected = expected_keys emissions in
    elim (verify_tenants ts (group_keys_by_tenant expected)) [
      | some e ↦ some e
      | none ↦
          if ltb (length emissions) (length expected)
          then some puts_below_unique
          else if has_retry emissions && leb (length emissions) (length expected)
          then some puts_not_above_unique
          else none
    ]
