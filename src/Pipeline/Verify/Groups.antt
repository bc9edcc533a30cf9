-- ===== src/Pipeline/Verify/Groups.antt =====
-- The groups of keys by tenant in internal/pipeline/verify.go.
use go_gedung_peristiwa.Prelude.{
  ◌≡◌, refl, ap, sym, ◌∙◌, List, [], ◌∷◌, ◌++◌, Bool, arith, ite, holds, keep, append-nil,
  append_assoc,
}
use go_gedung_peristiwa.Text.{Text, text_lt, text_dec}
use go_gedung_peristiwa.Assoc.{Assoc, insert, lookup, lookup-insert}
use go_gedung_peristiwa.Model.{tenant_from_key}
use go_gedung_peristiwa.Sort.{sort}
use go_gedung_peristiwa.Pipeline.Verify.{group_keys_by_tenant, keys_of, group_keys, sort_groups}

keys_of-insert :
    (k t : Text) (ks : List Text) (m : Assoc (List Text))
    → keys_of t (insert k ks m) ≡ ite (text_dec k t) ks (keys_of t m)
unfolding keys_of
keys_of-insert k t ks m = ground (arith, lookup-insert k t ks m)

abbrev pub of_tenant : Text → Text → Bool
of_tenant t k = holds (text_dec (tenant_from_key k) t)

group_keys-keys_of :
    (t : Text) (ks : List Text) (m : Assoc (List Text))
    → keys_of t (group_keys ks m) ≡ keys_of t m ++ keep (of_tenant t) ks
unfolding group_keys
group_keys-keys_of t [] m = sym (append-nil _)
group_keys-keys_of t (k ∷ ks) m =
    let u = tenant_from_key k in
    let more = keys_of u m ++ k ∷ [] in
    group_keys-keys_of t ks (insert u more m)
    ∙ ground (
      arith,
      keys_of-insert u t more m,
      append_assoc (keys_of t m) (k ∷ []) (keep (of_tenant t) ks),
    )

sort_groups-keys_of :
    (t : Text) (m : Assoc (List Text)) → keys_of t (sort_groups m) ≡ sort text_lt (keys_of t m)
unfolding sort_groups keys_of lookup sort
sort_groups-keys_of t [] = refl
sort_groups-keys_of t ((j, ks) ∷ m) = ground (arith, sort_groups-keys_of t m)

-- The group of a tenant holds the keys of the tenant, in order.
pub group_keys_by_tenant-keys_of :
    (t : Text) (keys : List Text)
    → keys_of t (group_keys_by_tenant keys) ≡ sort text_lt (keep (of_tenant t) keys)
unfolding group_keys_by_tenant keys_of lookup
group_keys_by_tenant-keys_of t keys =
    sort_groups-keys_of t (group_keys keys []) ∙ ap (sort text_lt) (group_keys-keys_of t keys [])
