-- ===== src/Simulation/Sound.antt =====
-- What a run of internal/simulation/run.go that reports no error has done.
use go_gedung_peristiwa.Prelude.{
  ap, sym, ◌∙◌, subst, ℕ, ◌≡◌, refl, List, [], Option, none, some, Result, length, arith, Elem, ok,
  Option-cases, Result-cases, inl, inr,
}
use go_gedung_peristiwa.Text.{Text}
use go_gedung_peristiwa.Assoc.{Assoc}
use go_gedung_peristiwa.Model.{Emission, expected_keys}
use go_gedung_peristiwa.Eventgen.{GenError}
use go_gedung_peristiwa.Pipeline.Tenant.{
  TenantStore, all_tenant_ids, open_tenants, write_emissions, flush_all_tenants, count_keys,
  compact_all,
}
use go_gedung_peristiwa.Pipeline.Tenant.Wrote.{
  write_emissions-length, EmissionPuts, EachTenant, Flushed, Compacted,
  write_emissions-EmissionPuts, flush_all_tenants-EachTenant, compact_all-EachTenant,
}
use go_gedung_peristiwa.Pipeline.Verify.Laws.{Checked, verify-Checked}
use go_gedung_peristiwa.Pipeline.Verify.{verify, group_keys_by_tenant}
use go_gedung_peristiwa.Simulation.{
  SimResult, no_result, tenants_of, check, write_and_check, run_simulation,
}

module _ {Handle Value Failure : Type 0} (db : TenantStore Handle Value Failure)
    (feed_count : Handle → Option ℕ) (emissions : List Emission) where
  check-verify :
      (ts : Assoc Handle) (res : SimResult Failure)
      → (check db feed_count emissions ts res).error ≡ none
      → ((check db feed_count emissions ts res).put_count ≡ res.put_count)
        × ((check db feed_count emissions ts res).unique_expected
            ≡ length (expected_keys emissions))
        × ((compact_all db ts).1 ≡ none)
        × ((count_keys db (compact_all db ts).0).1 ≡ none)
        × ((check db feed_count emissions ts res).post_compact_keys
            ≡ (count_keys db (compact_all db ts).0).0)
        × (verify (tenants_of db feed_count (compact_all db ts).0) emissions ≡ none)
  unfolding check
  check-verify ts res h = ground arith

  -- From the opened tenants, the emissions were put, each tenant was flushed and compacted, and
  -- what that left holds the expected keys.
  pub record Verified (opened : Assoc Handle) (res : SimResult Failure) : Type 0 where
    pub written : Assoc Handle
    pub flushed : Assoc Handle
    pub compacted : Assoc Handle
    pub put : EmissionPuts db emissions opened written
    pub flush : EachTenant db (Flushed db) written flushed
    pub compact : EachTenant db (Compacted db) flushed compacted
    pub all_put : res.put_count ≡ length emissions
    pub unique : res.unique_expected ≡ length (expected_keys emissions)
    pub scanned : (count_keys db compacted).1 ≡ none
    pub counted : res.post_compact_keys ≡ (count_keys db compacted).0
    pub checked :
        (id : Text) (want : List Text)
        → Elem (id, want) (group_keys_by_tenant (expected_keys emissions))
        → Checked (tenants_of db feed_count compacted) id want

  write_and_check-Verified :
      (ts : Assoc Handle)
      → (write_and_check db feed_count emissions ts).error ≡ none
      → Verified ts (write_and_check db feed_count emissions ts)
  unfolding write_and_check no_result
  write_and_check-Verified ts h =
      let w1 = (write_emissions db emissions ts).0 in
      let f = (flush_all_tenants db w1).0 in
      let res : SimResult Failure = record no_result {
        put_count = (write_emissions db emissions ts).1;
      } in
      elim (Option-cases (write_emissions db emissions ts).2) [
        | inr (e, w) ↦ absurd (ground (arith, w))
        | inl w ↦ elim (Option-cases (flush_all_tenants db w1).1) [
          | inr (e, g) ↦ absurd (ground (arith, w, g))
          | inl g ↦
              let (puts, uniques, compacts, scans, counts, verifies) =
                check-verify f res (ground (arith, w, g)) in
              let run : write_and_check db feed_count emissions ts
                  ≡ check db feed_count emissions f res =
                rw (write_and_check, w, g) refl in
              rw run (record {
                written = w1;
                flushed = f;
                compacted = (compact_all db f).0;
                put = write_emissions-EmissionPuts db emissions ts w;
                flush = flush_all_tenants-EachTenant db w1 g;
                compact = compact_all-EachTenant db f compacts;
                all_put = puts ∙ write_emissions-length db emissions ts w;
                unique = uniques;
                scanned = scans;
                counted = counts;
                checked = λ id want m. (verify-Checked _ emissions id want verifies m).0;
              })
        ]
      ]

  -- A run that reports no error was given emissions by a generator without error. It opened the
  -- tenants, put every emission to its tenant in order, flushed and refreshed each tenant once and
  -- then compacted each once, all without an error. It reports as many puts as there are emissions,
  -- and the keys that the compacted tenants have; and for each tenant with expected keys, these are
  -- the keys that the compacted tenant scans, in order, with at least as many changes in its feed.
  pub run_simulation-Verified :
      (open_tenant : Text → Result Failure Handle) (generated : Option GenError)
      → (run_simulation db feed_count open_tenant (emissions, generated)).error ≡ none
      → (generated ≡ none)
        × ((opened : Assoc Handle) × (open_tenants db open_tenant all_tenant_ids [] ≡ ok opened)
            × Verified opened (run_simulation db feed_count open_tenant (emissions, generated)))
  unfolding run_simulation no_result
  run_simulation-Verified open_tenant none h =
      elim (Result-cases (open_tenants db open_tenant all_tenant_ids [])) [
        | inr (e, o) ↦ absurd (ground (arith, o))
        | inl (ts, o) ↦
            let out : run_simulation db feed_count open_tenant (emissions, none)
                ≡ write_and_check db feed_count emissions ts =
              rw (run_simulation, o) refl in
            let v = write_and_check-Verified ts (ap (λ r. r.error) (sym out) ∙ h) in
            (refl, (ts, o, subst (Verified ts) (sym out) v))
      ]
  run_simulation-Verified open_tenant (some e) h = absurd (ground arith)
