-- ===== src/Pipeline/Tenant/Wrote.antt =====
-- What the pipeline of internal/pipeline/tenant.go has written and counted.
use go_gedung_peristiwa.Prelude.{
  ℕ, ◌+◌, ◌≡◌, refl, sym, ◌∙◌, subst, List, [], ◌∷◌, ◌++◌, append_assoc, append-nil, Option, none,
  some, length, arith, Option-cases, inl, inr,
}
use go_gedung_peristiwa.Assoc.{Assoc, lookup, insert}
use go_gedung_peristiwa.Text.{Text}
use go_gedung_peristiwa.Model
use go_gedung_peristiwa.Model.{Emission}
use go_gedung_peristiwa.Pipeline.Tenant.{
  TenantStore, put_event, write_emissions_from, write_emissions, flush_tenant, each_tenant,
  flush_all_tenants, compact_all,
}

module _ {Handle Value Failure : Type 0} (db : TenantStore Handle Value Failure) where
  write_emissions_from-length :
      (ems : List Emission) (puts : ℕ) (ts : Assoc Handle)
      → (write_emissions_from db ems puts ts).2 ≡ none
      → (write_emissions_from db ems puts ts).1 ≡ puts + length ems
  unfolding write_emissions_from
  write_emissions_from-length [] puts ts h = omega arith
  write_emissions_from-length (em ∷ rest) puts ts h =
      elim (Option-cases (lookup em.event.tenant_id ts)) [
        | inl e ↦ absurd (ground arith)
        | inr (hd, e) ↦ elim (Option-cases (put_event db em.event hd).1) [
          | inr (x, f) ↦ absurd (ground arith)
          | inl f ↦
              let ts' = insert em.event.tenant_id (put_event db em.event hd).0 ts in
              ground (arith, e, f, write_emissions_from-length rest (puts + 1) ts')
        ]
      ]

  -- Where WriteEmissions gives no error, the puts that it counts are as many as the emissions.
  pub write_emissions-length :
      (ems : List Emission) (ts : Assoc Handle)
      → (write_emissions db ems ts).2 ≡ none
      → (write_emissions db ems ts).1 ≡ length ems
  unfolding write_emissions
  write_emissions-length ems ts h = omega (arith, write_emissions_from-length ems 0 ts h)

  -- An emission is put to the handle of its tenant without an error, and the handles after it.
  pub record EmissionPut (em : Emission) (ts ts' : Assoc Handle) : Type 0 where
    pub handle : Handle
    pub value : Value
    pub found : lookup em.event.tenant_id ts ≡ some handle
    pub encoded : db.value_bytes em.event ≡ some value
    pub outcome : (db.put (Model.key em.event) value handle).1 ≡ none
    pub kept : ts' ≡ insert em.event.tenant_id (db.put (Model.key em.event) value handle).0 ts

  -- From these handles, the emissions are put one after the other.
  pub data EmissionPuts : List Emission → Assoc Handle → Assoc Handle → Type 0 where
    nothing : (ts : Assoc Handle) → EmissionPuts [] ts ts
    first :
        (em : Emission) (ems : List Emission) (ts ts1 ts2 : Assoc Handle)
        → EmissionPut em ts ts1
        → EmissionPuts ems ts1 ts2
        → EmissionPuts (em ∷ ems) ts ts2

  -- Every tenant keeps its place, and its handles are related.
  pub data EachTenant (R : Handle → Handle → Type 0) : Assoc Handle → Assoc Handle → Type 0 where
    no_tenant : EachTenant R [] []
    tenant :
        (id : Text) (h h' : Handle) (ts ts' : Assoc Handle)
        → R h h'
        → EachTenant R ts ts'
        → EachTenant R ((id, h) ∷ ts) ((id, h') ∷ ts')

  abbrev pub Flushed : Handle → Handle → Type 0
  Flushed h h' =
      ((db.flush h).1 ≡ none)
      × ((db.refresh (db.flush h).0).1 ≡ none)
      × (h' ≡ (db.refresh (db.flush h).0).0)

  abbrev pub Compacted : Handle → Handle → Type 0
  Compacted h h' = ((db.compact h).1 ≡ none) × (h' ≡ (db.compact h).0)

  put_event-EmissionPut :
      (em : Emission) (ts : Assoc Handle) (h : Handle)
      → lookup em.event.tenant_id ts ≡ some h
      → (put_event db em.event h).1 ≡ none
      → EmissionPut em ts (insert em.event.tenant_id (put_event db em.event h).0 ts)
  unfolding put_event
  put_event-EmissionPut em ts h e f = elim (Option-cases (db.value_bytes em.event)) [
    | inl v ↦ absurd (ground (arith, v))
    | inr (val, v) ↦ elim (Option-cases (db.put (Model.key em.event) val h).1) [
      | inr (x, g) ↦ absurd (ground (arith, v, g))
      | inl g ↦ record {
        handle = h;
        value = val;
        found = e;
        encoded = v;
        outcome = g;
        kept = rw (put_event, v) refl;
      }
    ]
  ]

  write_emissions_from-EmissionPuts :
      (ems : List Emission) (puts : ℕ) (ts : Assoc Handle)
      → (write_emissions_from db ems puts ts).2 ≡ none
      → EmissionPuts ems ts (write_emissions_from db ems puts ts).0
  unfolding write_emissions_from
  write_emissions_from-EmissionPuts [] puts ts h = nothing ts
  write_emissions_from-EmissionPuts (em ∷ rest) puts ts h =
      elim (Option-cases (lookup em.event.tenant_id ts)) [
        | inl e ↦ absurd (ground arith)
        | inr (hd, e) ↦ elim (Option-cases (put_event db em.event hd).1) [
          | inr (x, f) ↦ absurd (ground arith)
          | inl f ↦
              let ts1 = insert em.event.tenant_id (put_event db em.event hd).0 ts in
              rw (write_emissions_from, e, f)
                (first em rest ts ts1 _ (put_event-EmissionPut em ts hd e f)
                  (write_emissions_from-EmissionPuts rest (puts + 1) ts1 (ground (arith, h, e, f))))
        ]
      ]

  pub write_emissions-EmissionPuts :
      (ems : List Emission) (ts : Assoc Handle)
      → (write_emissions db ems ts).2 ≡ none
      → EmissionPuts ems ts (write_emissions db ems ts).0
  unfolding write_emissions
  write_emissions-EmissionPuts ems ts h = write_emissions_from-EmissionPuts ems 0 ts h

  each_tenant-EachTenant :
      (R : Handle → Handle → Type 0) (call : Handle → Handle × Option Failure)
      → ((h : Handle) → (call h).1 ≡ none → R h (call h).0)
      → (done ts : Assoc Handle) → (each_tenant db call done ts).1 ≡ none
      → (ts' : Assoc Handle) × ((each_tenant db call done ts).0 ≡ done ++ ts') × EachTenant R ts ts'
  unfolding each_tenant
  each_tenant-EachTenant R call r done [] h = ([], sym (append-nil done), no_tenant)
  each_tenant-EachTenant R call r done ((id, hd) ∷ rest) h = elim (Option-cases (call hd).1) [
    | inr (x, f) ↦ absurd (ground arith)
    | inl f ↦
        let (ts', e, each) =
          each_tenant-EachTenant R call r (done ++ (id, (call hd).0) ∷ []) rest
            (ground (arith, h, f)) in
        (
          (id, (call hd).0) ∷ ts',
          rw (each_tenant, f) (e ∙ append_assoc done ((id, (call hd).0) ∷ []) ts'),
          tenant id hd (call hd).0 rest ts' (r hd f) each,
        )
  ]

  -- A loop over all tenants that gives no error has called each of them once.
  each_tenant-all :
      (R : Handle → Handle → Type 0) (call : Handle → Handle × Option Failure) (ts : Assoc Handle)
      → ((h : Handle) → (call h).1 ≡ none → R h (call h).0)
      → (each_tenant db call [] ts).1 ≡ none
      → EachTenant R ts (each_tenant db call [] ts).0
  each_tenant-all R call ts r h =
      let (ts', e, each) = each_tenant-EachTenant R call r [] ts h in
      subst (EachTenant R ts) (sym e) each

  flush_tenant-Flushed :
      (h : Handle) → (flush_tenant db h).1 ≡ none → Flushed h (flush_tenant db h).0
  unfolding flush_tenant
  flush_tenant-Flushed h e = elim (Option-cases (db.flush h).1) [
    | inr (x, f) ↦ absurd (ground (arith, e, f))
    | inl f ↦ (f, ground (arith, e, f), rw (flush_tenant, f) refl)
  ]

  pub flush_all_tenants-EachTenant :
      (ts : Assoc Handle)
      → (flush_all_tenants db ts).1 ≡ none
      → EachTenant Flushed ts (flush_all_tenants db ts).0
  unfolding flush_all_tenants
  flush_all_tenants-EachTenant ts h =
      each_tenant-all Flushed (flush_tenant db) ts flush_tenant-Flushed h

  pub compact_all-EachTenant :
      (ts : Assoc Handle)
      → (compact_all db ts).1 ≡ none
      → EachTenant Compacted ts (compact_all db ts).0
  unfolding compact_all
  compact_all-EachTenant ts h = each_tenant-all Compacted db.compact ts (λ h e. (e, refl)) h
