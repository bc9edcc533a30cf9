-- ===== src/Web/Dashboard/Single.antt =====
-- At most one simulation is under way.
use go_gedung_peristiwa.Prelude.{
  ℕ, ◌≤◌, ◌≡◌, refl, List, [], ◌∷◌, ◌++◌, length, length-append, Bool, true, false, if◌then◌else◌,
  arith, Bool-cases, inl, inr, ap, not,
}
use go_gedung_peristiwa.Pipeline.Db.{Backend, minio, tigris}
use go_gedung_peristiwa.Web.Dashboard.{
  Job, simulating, stored, conflict, method_not_allowed, started, redirected, simulate_minio,
  simulate_tigris, Server, handle_simulate, run_simulation, store_result, clear_running, Reach,
  here, posted, finished, cleared,
}

abbrev pub count : Bool → ℕ
count true = 1
count false = 0

count-le : (b : Bool) → count b ≤ 1
count-le true = omega arith
count-le false = omega arith

module _ {Report Status : Type 0} where
  -- There is a job exactly while the flag is set, and then there is one.
  abbrev pub IsSingle : Server Report Status → Type 0
  IsSingle s = length s.jobs ≡ count s.running

  run_simulation-IsSingle :
      (is_post accepts_json : Bool) (b : Backend) (s : Server Report Status)
      → IsSingle s
      → IsSingle (run_simulation is_post accepts_json b s).0
  unfolding run_simulation
  run_simulation-IsSingle false accepts_json b s h = h
  run_simulation-IsSingle true accepts_json b s h = elim (Bool-cases s.running) [
    | inl r ↦ rw r (omega (arith, h, ap count r))
    | inr r ↦ rw r (omega (arith, length-append s.jobs (simulating b ∷ []), ap count r, h))
  ]

  store_result-IsSingle :
      (b : Backend) (res : Report) (before after : List Job) (s : Server Report Status)
      → s.jobs ≡ before ++ simulating b ∷ after
      → IsSingle s
      → IsSingle (store_result b res before after s)
  unfolding store_result
  store_result-IsSingle b res before after s e h = ground (
    arith,
    ap length e,
    length-append before (simulating b ∷ after),
    length-append before (stored ∷ after),
  )

  clear_running-IsSingle :
      (before after : List Job) (s : Server Report Status)
      → s.jobs ≡ before ++ stored ∷ after
      → IsSingle s
      → IsSingle (clear_running before after s)
  unfolding clear_running
  clear_running-IsSingle before after s e h = elim (Bool-cases s.running) [
    | inl r ↦ omega (
      arith,
      ap length e,
      length-append before (stored ∷ after),
      length-append before after,
      h,
      ap count r,
    )
    | inr r ↦
        absurd (omega (arith, ap length e, length-append before (stored ∷ after), h, ap count r))
  ]

  pub Reach-IsSingle :
      (s : Server Report Status) (log : List (Backend × Report)) → Reach s log → IsSingle s
  unfolding handle_simulate
  Reach-IsSingle _ _ here = refl
  Reach-IsSingle _ _ (posted simulate_minio is_post accepts_json s log r) =
      run_simulation-IsSingle is_post accepts_json minio s (Reach-IsSingle s log r)
  Reach-IsSingle _ _ (posted simulate_tigris is_post accepts_json s log r) =
      run_simulation-IsSingle is_post accepts_json tigris s (Reach-IsSingle s log r)
  Reach-IsSingle _ _ (finished b res before after s log e r) =
      store_result-IsSingle b res before after s e (Reach-IsSingle s log r)
  Reach-IsSingle _ _ (cleared before after s log e r) =
      clear_running-IsSingle before after s e (Reach-IsSingle s log r)

  run_simulation-jobs :
      (js : List Job) (s : Server Report Status) (is_post accepts_json : Bool) (b : Backend)
      → s.jobs ≡ js
      → IsSingle s
      → run_simulation is_post accepts_json b s ≡ (
          if not is_post then (s, method_not_allowed) else elim js [
            | [] ↦ (
              record s { running = true; jobs = simulating b ∷ [] },
              if accepts_json then started else redirected,
            )
            | j ∷ js ↦ (s, conflict)
          ])
  unfolding run_simulation
  run_simulation-jobs [] s is_post accepts_json b e h = elim (Bool-cases s.running) [
    | inl r ↦ absurd (omega (arith, ap length e, h, ap count r))
    | inr r ↦ rw (run_simulation, r, e) refl
  ]
  run_simulation-jobs (j ∷ js) s is_post accepts_json b e h = elim (Bool-cases s.running) [
    | inl r ↦ rw (run_simulation, r) refl
    | inr r ↦ absurd (omega (arith, ap length e, h, ap count r))
  ]

  -- In every state that the server can reach, at most one simulation is under way. A POST is
  -- answered with a conflict and changes nothing while there is one, and otherwise starts the
  -- simulation of its backend; a request with another method is refused and changes nothing.
  pub run_simulation-single :
      (s : Server Report Status) (log : List (Backend × Report)) (is_post accepts_json : Bool)
      (b : Backend)
      → Reach s log
      → (length s.jobs ≤ 1)
        × (run_simulation is_post accepts_json b s ≡ (
            if not is_post then (s, method_not_allowed) else elim s.jobs [
              | [] ↦ (
                record s { running = true; jobs = simulating b ∷ [] },
                if accepts_json then started else redirected,
              )
              | j ∷ js ↦ (s, conflict)
            ]))
  run_simulation-single s log is_post accepts_json b r =
      let h = Reach-IsSingle s log r in
      (
        omega (arith, h, count-le s.running),
        run_simulation-jobs s.jobs s is_post accepts_json b refl h,
      )
