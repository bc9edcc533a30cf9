-- ===== src/Pipeline/Tenant.antt =====
-- internal/pipeline/tenant.go, tenants.go and status.go: the pipeline of a simulation, a prefix for
-- each tenant, and the probe of the status page. The calls of the store library are parameters.
pub mod Wrote
use go_gedung_peristiwa.Prelude.{
  ℕ, ◌+◌, List, [], ◌∷◌, ◌++◌, Option, none, some, Bool, true, false, Result, ok, err, map, length,
  if◌then◌else◌,
}
use go_gedung_peristiwa.Text.{Text, codes}
use go_gedung_peristiwa.Assoc.{Assoc, lookup, insert}
use go_gedung_peristiwa.Model
use go_gedung_peristiwa.Model.{Emission}

abbrev pub all_tenant_ids : List Text
all_tenant_ids =
    codes "tenant-alpha"
    ∷ codes "tenant-beta"
    ∷ codes "tenant-gamma"
    ∷ codes "tenant-delta"
    ∷ codes "tenant-epsilon"
    ∷ []

-- What the calls of one tenant's handle return, and the handle after them. A scan is of the keys
-- with the prefix of the tenant.
pub record TenantStore (Handle Value Failure : Type 0) : Type 0 where
  pub value_bytes : Model.Event → Option Value
  pub put : Text → Value → Handle → Handle × Option Failure
  pub flush : Handle → Handle × Option Failure
  pub refresh : Handle → Handle × Option Failure
  pub compact : Handle → Handle × Option Failure
  pub scan_keys : Handle → Result Failure (List Text)
  pub close : Handle → Option Failure

pub data TenantError (Failure : Type 0) : Type 0 where
  unknown_tenant : Text → TenantError Failure
  encode_failed : TenantError Failure
  store_failed : Failure → TenantError Failure

module _ {Handle Value Failure : Type 0} (db : TenantStore Handle Value Failure) where
  -- `Put` of a tenant.
  unfoldable pub put_event : Model.Event → Handle → Handle × Option (TenantError Failure)
  put_event ev h = elim (db.value_bytes ev) [
    | none ↦ (h, some encode_failed)
    | some val ↦
        let (h', failed) = db.put (Model.key ev) val h in
        (h', elim failed [ none ↦ none | some e ↦ some (store_failed e) ])
  ]

  -- The loop of `WriteEmissions`, with the number of puts so far.
  unfoldable pub write_emissions_from :
      List Emission → ℕ → Assoc Handle → Assoc Handle × ℕ × Option (TenantError Failure)
  unfolding put_event
  write_emissions_from [] puts ts = (ts, puts, none)
  write_emissions_from (em ∷ rest) puts ts = elim (lookup em.event.tenant_id ts) [
    | none ↦ (ts, puts, some (unknown_tenant em.event.tenant_id))
    | some h ↦
        let (h', failed) = put_event em.event h in
        let ts' = insert em.event.tenant_id h' ts in
        elim failed [
          | some e ↦ (ts', puts, some e)
          | none ↦ write_emissions_from rest (puts + 1) ts'
        ]
  ]

  unfoldable pub write_emissions :
      List Emission → Assoc Handle → Assoc Handle × ℕ × Option (TenantError Failure)
  write_emissions emissions ts = write_emissions_from emissions 0 ts

  -- `Flush` of a tenant.
  unfoldable pub flush_tenant : Handle → Handle × Option Failure
  flush_tenant h =
      let (h1, flushed) = db.flush h in
      elim flushed [ some e ↦ (h1, some e) | none ↦ db.refresh h1 ]

  -- A loop that calls each tenant and returns at the first error; `done` are those before.
  unfoldable pub each_tenant :
      (Handle → Handle × Option Failure)
      → Assoc Handle
      → Assoc Handle
      → Assoc Handle × Option Failure
  each_tenant call done [] = (done, none)
  each_tenant call done ((id, h) ∷ rest) =
      let (h', failed) = call h in
      elim failed [
        | some e ↦ (done ++ (id, h') ∷ rest, some e)
        | none ↦ each_tenant call (done ++ (id, h') ∷ []) rest
      ]

  unfoldable pub flush_all_tenants : Assoc Handle → Assoc Handle × Option Failure
  unfolding each_tenant flush_tenant
  flush_all_tenants ts = each_tenant flush_tenant [] ts

  unfoldable pub compact_all : Assoc Handle → Assoc Handle × Option Failure
  unfolding each_tenant
  compact_all ts = each_tenant db.compact [] ts

  -- The loop of `CountKeys`, with the total so far: it looks each tenant up again.
  unfoldable pub count_keys_from : Assoc Handle → List Text → ℕ → ℕ × Option (TenantError Failure)
  count_keys_from ts [] total = (total, none)
  count_keys_from ts (id ∷ ids) total = elim (lookup id ts) [
    | none ↦ (total, some (unknown_tenant id))
    | some h ↦ elim (db.scan_keys h) [
      | err e ↦ (total, some (store_failed e))
      | ok keys ↦ count_keys_from ts ids (total + length keys)
    ]
  ]

  unfoldable pub tenant_ids : Assoc Handle → List Text
  tenant_ids = map (λ e. e.0)

  unfoldable pub count_keys : Assoc Handle → ℕ × Option (TenantError Failure)
  unfolding count_keys_from tenant_ids
  count_keys ts = count_keys_from ts (tenant_ids ts) 0

  unfoldable pub close_tenants : Assoc Handle → Option Failure → Option Failure
  close_tenants [] first = first
  close_tenants ((id, h) ∷ rest) first =
      close_tenants rest (elim first [ some e ↦ some e | none ↦ db.close h ])

  -- The loop of `New`: an error comes with the tenants that were open, which are closed.
  unfoldable pub open_tenants :
      (Text → Result Failure Handle)
      → List Text
      → Assoc Handle
      → Result (Failure × List Text) (Assoc Handle)
  unfolding tenant_ids
  open_tenants open_tenant [] ts = ok ts
  open_tenants open_tenant (id ∷ ids) ts = elim (open_tenant id) [
    | err e ↦ err (e, tenant_ids ts)
    | ok h ↦ open_tenants open_tenant ids (insert id h ts)
  ]

-- `Probe` from the tenants on: the counts, the total, and the tenant that failed.
pub record BackendStatus (Failure : Type 0) : Type 0 where
  pub failed : Option (Text × Failure)
  pub total_keys : ℕ
  pub keys_by_tenant : Assoc ℕ

unfoldable pub probe_tenants :
    {Failure : Type 0}
    → (Text → Result Failure (List Text))
    → List Text
    → Assoc ℕ
    → ℕ
    → BackendStatus Failure
probe_tenants scan [] counts total = record {
  failed = none;
  total_keys = total;
  keys_by_tenant = counts;
}
probe_tenants scan (id ∷ ids) counts total = elim (scan id) [
  | err e ↦ record { failed = some (id, e); total_keys = total; keys_by_tenant = counts }
  | ok keys ↦ probe_tenants scan ids (insert id (length keys) counts) (total + length keys)
]

unfoldable pub probe :
    {Failure : Type 0} → (Text → Result Failure (List Text)) → BackendStatus Failure
unfolding probe_tenants
probe scan = probe_tenants scan all_tenant_ids [] 0
