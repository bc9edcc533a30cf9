-- ===== src/Eventgen/Emitted.antt =====
-- The emissions of internal/eventgen/generator.go against the checks of internal/pipeline/verify.go.
use go_gedung_peristiwa.Prelude.{
  ℕ, zero, suc, ◌+◌, ◌≤◌, ◌<◌, ◌≡◌, refl, List, [], ◌∷◌, true, false, ltb, length, All, All-map,
  Elem, arith, Bool-cases, Option-cases, inl, inr,
}
use go_gedung_peristiwa.Prelude.Int.{ℤ, to_nat}
use go_gedung_peristiwa.Time.{Time}
use go_gedung_peristiwa.Model.{Emission, expected_keys}
use go_gedung_peristiwa.Model
use go_gedung_peristiwa.Pipeline.Verify.{
  Tenants, verify, verify_tenants, group_keys_by_tenant, has_retry,
}
use go_gedung_peristiwa.Eventgen.{Draw, event_of, generate, run}

-- Each emission is of an expected key; retries make more emissions than keys; the keys are at most
-- as many as was asked for.
pub record IsEmitted (total : ℕ) (l : List Emission) : Type 0 where
  pub known : All (λ e. Elem (Model.key e.event) (expected_keys l)) l
  pub fewer : length (expected_keys l) ≤ length l
  pub retried : has_retry l ≡ true → length (expected_keys l) < length l
  pub at_most : length (expected_keys l) ≤ total

same_key :
    (ev : Model.Event) (at : Time)
    → Model.key (record ev { timestamp = at; retry = true }) ≡ Model.key ev
unfolding Model.key
same_key ev at = refl

first-IsEmitted :
    (n : ℕ) (ev : Model.Event) (l : List Emission)
    → IsEmitted n l
    → IsEmitted (suc n) (record { event = ev; retry = false; unique = true } ∷ l)
unfolding expected_keys has_retry
first-IsEmitted n ev l g = record {
  known = (inl refl, All-map (λ e m. inr m) l g.known);
  fewer = omega (arith, g.fewer);
  retried = λ e. omega (arith, g.retried e);
  at_most = omega (arith, g.at_most);
}

both-IsEmitted :
    (n : ℕ) (ev again : Model.Event) (l : List Emission)
    → Model.key again ≡ Model.key ev
    → IsEmitted n l
    → IsEmitted (suc n) (
        record { event = ev; retry = false; unique = true }
        ∷ record { event = again; retry = true; unique = false }
        ∷ l)
unfolding expected_keys has_retry
both-IsEmitted n ev again l same g = record {
  known = (inl refl, (inl same, All-map (λ e m. inr m) l g.known));
  fewer = omega (arith, g.fewer);
  retried = λ e. omega (arith, g.fewer);
  at_most = omega (arith, g.at_most);
}

module _ (deadline : Time) (draws : ℕ → Draw) where
  nothing-IsEmitted : (n : ℕ) → IsEmitted n []
  unfolding expected_keys has_retry
  nothing-IsEmitted n = record {
    known = tt;
    fewer = omega arith;
    retried = λ e. absurd (ground arith);
    at_most = omega arith;
  }

  generate-IsEmitted : (left i : ℕ) → IsEmitted left (generate deadline draws left i).0
  unfolding generate
  generate-IsEmitted zero i = nothing-IsEmitted 0
  generate-IsEmitted (suc left) i = elim (Bool-cases (ltb deadline (draws i).now)) [
    | inl late ↦ rw (generate, late) (nothing-IsEmitted (suc left))
    | inr early ↦ elim (Bool-cases (draws i).done) [
      | inl done ↦ rw (generate, early, done) (nothing-IsEmitted (suc left))
      | inr going ↦ elim (Bool-cases (draws i).interrupted) [
        | inl stopped ↦ rw (generate, early, going, stopped) (nothing-IsEmitted (suc left))
        | inr waited ↦ elim (Option-cases (draws i).uuid) [
          | inl missing ↦
              rw (generate, early, going, waited, missing) (nothing-IsEmitted (suc left))
          | inr (id, found) ↦ elim (Bool-cases (draws i).duplicate) [
            | inl twice ↦
                rw (generate, early, going, waited, found, twice)
                  (both-IsEmitted left _ _ _
                    (same_key (event_of (draws i) id) (draws i).retry_stamp)
                    (generate-IsEmitted left (i + 1)))
            | inr once ↦
                rw (generate, early, going, waited, found, once)
                  (first-IsEmitted left _ _ (generate-IsEmitted left (i + 1)))
          ]
        ]
      ]
    ]
  ]

  -- Whatever is drawn, on the run of `Run` for a number of events, also one that is cut short, the
  -- last two checks of Verify pass: it fails only where the check of a tenant fails.
  pub verify-run :
      (total : ℤ) (ts : Tenants)
      → let l = (run deadline draws total).0 in
        verify ts l ≡ verify_tenants ts (group_keys_by_tenant (expected_keys l))
  unfolding run verify
  verify-run total ts =
      let g = generate-IsEmitted (to_nat total) 0 in ground (arith, g.fewer, g.retried)
