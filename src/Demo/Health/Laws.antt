-- ===== src/Demo/Health/Laws.antt =====
-- The health of internal/demo/health.go against the history of writes.
use go_gedung_peristiwa.Prelude.{
  ℕ, ◌+◌, ◌≤◌, ◌≡◌, refl, ap, List, [], ◌∷◌, ◌++◌, length, All, arith, ◌⊎◌, inl, inr, ◌↔◌,
}
use go_gedung_peristiwa.Prelude.Int.{ℤ}
use go_gedung_peristiwa.Demo.Health.{
  WriteHealth, Outcome, success, failure, record_success, record_failure, healthy, healthz,
  report_all, new_write_health,
}

module _ {E : Type 0} where
  abbrev pub IsFailure : Outcome E → Type 0
  IsFailure success = ⊥
  IsFailure (failure e) = Unit {0}

  -- The last outcomes are at least n failures.
  pub record EndsFailing (n : ℕ) (os : List (Outcome E)) : Type 0 where
    pub before : List (Outcome E)
    pub failures : List (Outcome E)
    pub split : os ≡ before ++ failures
    pub all_fail : All IsFailure failures
    pub enough : n ≤ length failures

  report_all-threshold :
      (os : List (Outcome E)) (h : WriteHealth E) → (report_all os h).threshold ≡ h.threshold
  unfolding report_all record_success record_failure
  report_all-threshold [] h = refl
  report_all-threshold (success ∷ os) h = report_all-threshold os (record_success h)
  report_all-threshold (failure e ∷ os) h = report_all-threshold os (record_failure e h)

  EndsFailing-later :
      (n : ℕ) (o : Outcome E) (os : List (Outcome E)) → EndsFailing n os → EndsFailing n (o ∷ os)
  EndsFailing-later n o os f = record {
    before = o ∷ f.before;
    failures = f.failures;
    split = ap (◌∷◌ o) f.split;
    all_fail = f.all_fail;
    enough = f.enough;
  }

  -- With `n` as bound: a long run at the end, or nothing but failures on top of the count so far.
  count-EndsFailing :
      (n : ℕ) (os : List (Outcome E)) (h : WriteHealth E)
      → n ≤ (report_all os h).consecutive_failures
      → EndsFailing n os ⊎ (All IsFailure os × (n ≤ h.consecutive_failures + length os))
  unfolding report_all record_success record_failure
  count-EndsFailing n [] h le = inr (tt, omega arith)
  count-EndsFailing n (success ∷ os) h le = elim (count-EndsFailing n os (record_success h) le) [
    | inl f ↦ inl (EndsFailing-later n success os f)
    | inr (a, b) ↦ inl (record {
      before = success ∷ [];
      failures = os;
      split = refl;
      all_fail = a;
      enough = omega arith;
    })
  ]
  count-EndsFailing n (failure e ∷ os) h le =
      elim (count-EndsFailing n os (record_failure e h) le) [
        | inl f ↦ inl (EndsFailing-later n (failure e) os f)
        | inr (a, b) ↦ inr ((tt, a), omega arith)
      ]

  count_failures :
      (os : List (Outcome E)) (h : WriteHealth E)
      → All IsFailure os
      → (report_all os h).consecutive_failures ≡ h.consecutive_failures + length os
  unfolding report_all record_failure
  count_failures [] h a = omega arith
  count_failures (success ∷ os) h a = absurd a.0
  count_failures (failure e ∷ os) h a = omega (arith, count_failures os (record_failure e h) a.1)

  report_all-append :
      (os ps : List (Outcome E)) (h : WriteHealth E)
      → report_all (os ++ ps) h ≡ report_all ps (report_all os h)
  unfolding report_all
  report_all-append [] ps h = refl
  report_all-append (o ∷ os) ps h = report_all-append os ps _

  healthz_code :
      (h : WriteHealth E) → ((healthz h).0 ≡ 503) ↔ (h.threshold ≤ h.consecutive_failures)
  unfolding healthz healthy
  healthz_code h = (λ e. ground arith, λ e. ground arith)

  fresh_count-EndsFailing :
      (m : ℕ) (os : List (Outcome E)) (h : WriteHealth E)
      → h.consecutive_failures ≡ 0
      → m ≤ (report_all os h).consecutive_failures
      → EndsFailing m os
  fresh_count-EndsFailing m os h z le = elim (count-EndsFailing m os h le) [
    | inl f ↦ f
    | inr (a, b) ↦ record {
      before = [];
      failures = os;
      split = refl;
      all_fail = a;
      enough = omega arith;
    }
  ]

  EndsFailing-count :
      (m : ℕ) (os : List (Outcome E)) (h : WriteHealth E)
      → EndsFailing m os
      → m ≤ (report_all os h).consecutive_failures
  EndsFailing-count m os h f =
      rw (f.split, report_all-append f.before f.failures h)
        (omega (arith, count_failures f.failures (report_all f.before h) f.all_fail, f.enough))

  -- A new tracker that was told of the outcomes answers the probe with 503 exactly if the last of
  -- them are failures, as many as its threshold.
  pub healthz-EndsFailing :
      (n : ℤ) (os : List (Outcome E))
      → ((healthz (report_all os (new_write_health n))).0 ≡ 503)
        ↔ EndsFailing (new_write_health {E = E} n).threshold os
  unfolding new_write_health
  healthz-EndsFailing n os =
      let h = new_write_health {E = E} n in
      let code = healthz_code (report_all os h) in
      (
        λ e.
            fresh_count-EndsFailing h.threshold os h refl
              (rw (report_all-threshold os h) at (code.0 e)),
        λ f. code.1 (rw (report_all-threshold os h) (EndsFailing-count h.threshold os h f)),
      )
