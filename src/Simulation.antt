-- ===== src/Simulation.antt =====
-- internal/simulation/run.go: a run of the simulation, from the emissions to their verification.
-- The times of the report, its texts and the counts of the feeds are left out.
pub mod Sound
use go_gedung_peristiwa.Prelude.{
  ℕ, ◌≡◌, refl, List, [], ◌∷◌, Option, none, some, Bool, true, false, Result, ok, err, length,
  arith, Option-cases, Result-cases, inl, inr, ◌⊎◌,
}
use go_gedung_peristiwa.Text.{Text}
use go_gedung_peristiwa.Assoc.{Assoc, lookup}
use go_gedung_peristiwa.Model.{Emission, expected_keys}
use go_gedung_peristiwa.Eventgen.{GenError}
use go_gedung_peristiwa.Pipeline.Tenant.{
  TenantStore, TenantError, all_tenant_ids, open_tenants, write_emissions, flush_all_tenants,
  count_keys, compact_all,
}
use go_gedung_peristiwa.Pipeline.Tenant.Wrote.{write_emissions-length}
use go_gedung_peristiwa.Pipeline.Verify.{Tenants, VerifyError, verify}

pub data SimError (Failure : Type 0) : Type 0 where
  generator_failed : GenError → SimError Failure
  init_failed flush_failed compact_failed : Failure → SimError Failure
  write_failed pre_scan_failed post_scan_failed : TenantError Failure → SimError Failure
  verify_failed : VerifyError → SimError Failure

-- `OK` is that there is no error.
pub record SimResult (Failure : Type 0) : Type 0 where
  pub error : Option (SimError Failure)
  pub put_count : ℕ
  pub unique_expected : ℕ
  pub pre_compact_keys : ℕ
  pub post_compact_keys : ℕ

unfoldable pub no_result : {Failure : Type 0} → SimResult Failure
no_result = record {
  error = none;
  put_count = 0;
  unique_expected = 0;
  pre_compact_keys = 0;
  post_compact_keys = 0;
}

-- What `verify` reads of the tenants: a lookup, a scan and the length of the change feed.
unfoldable pub tenants_of :
    {Handle Value Failure : Type 0}
    → TenantStore Handle Value Failure
    → (Handle → Option ℕ)
    → Assoc Handle
    → Tenants
tenants_of db feed_count ts = record {
  known = λ id. elim (lookup id ts) [ none ↦ false | some h ↦ true ];
  scan_keys = λ id. elim (lookup id ts) [
    | none ↦ none
    | some h ↦ elim (db.scan_keys h) [ err e ↦ none | ok keys ↦ some keys ]
  ];
  change_feed_count = λ id. elim (lookup id ts) [ none ↦ none | some h ↦ feed_count h ];
}

module _ {Handle Value Failure : Type 0} (db : TenantStore Handle Value Failure)
    (feed_count : Handle → Option ℕ) (emissions : List Emission) where
  -- From the counts before compaction on.
  unfoldable pub check : Assoc Handle → SimResult Failure → SimResult Failure
  unfolding tenants_of
  check ts res =
      let (pre, pre_failed) = count_keys db ts in
      elim pre_failed [
        | some e ↦ record res { error = some (pre_scan_failed e) }
        | none ↦
            let res1 = record res { pre_compact_keys = pre } in
            let (ts1, compacted) = compact_all db ts in
            elim compacted [
              | some e ↦ record res1 { error = some (compact_failed e) }
              | none ↦
                  let (post, post_failed) = count_keys db ts1 in
                  elim post_failed [
                    | some e ↦ record res1 { error = some (post_scan_failed e) }
                    | none ↦
                        let res2 = record res1 {
                          post_compact_keys = post;
                          unique_expected = length (expected_keys emissions);
                        } in
                        elim (verify (tenants_of db feed_count ts1) emissions) [
                          | some e ↦ record res2 { error = some (verify_failed e) }
                          | none ↦ res2
                        ]
                  ]
            ]
      ]

  -- From the open pipeline on.
  unfoldable pub write_and_check : Assoc Handle → SimResult Failure
  unfolding check no_result
  write_and_check ts =
      let (ts1, puts, written) = write_emissions db emissions ts in
      elim written [
        | some e ↦ record no_result { error = some (write_failed e) }
        | none ↦
            let res = record no_result { put_count = puts } in
            let (ts2, flushed) = flush_all_tenants db ts1 in
            elim flushed [
              | some e ↦ record res { error = some (flush_failed e) }
              | none ↦ check ts2 res
            ]
      ]

-- `Run` on what the generator gave.
unfoldable pub run_simulation :
    {Handle Value Failure : Type 0}
    → TenantStore Handle Value Failure
    → (Handle → Option ℕ)
    → (Text → Result Failure Handle)
    → List Emission × Option GenError
    → SimResult Failure
unfolding write_and_check no_result
run_simulation db feed_count open_tenant (emissions, generated) = elim generated [
  | some e ↦ record no_result { error = some (generator_failed e) }
  | none ↦ elim (open_tenants db open_tenant all_tenant_ids []) [
    | err (e, closed) ↦ record no_result { error = some (init_failed e) }
    | ok ts ↦ write_and_check db feed_count emissions ts
  ]
]
