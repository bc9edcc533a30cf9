-- ===== src/Web/Dashboard/Latest.antt =====
-- What the dashboard shows of the simulations that have ended.
use go_gedung_peristiwa.Prelude.{
  ◌≡◌, refl, List, [], ◌∷◌, ◌++◌, Option, none, some, Bool, true, false, if◌then◌else◌, Bool-cases,
  inl, inr, All, ◌⊎◌, subst,
}
use go_gedung_peristiwa.Pipeline.Db.{Backend, minio, tigris}
use go_gedung_peristiwa.Web.Dashboard.{
  Job, simulating, stored, simulate_minio, simulate_tigris, is_minio, Server, handle_simulate,
  run_simulation, store_result, clear_running, build_view, Reach, here, posted, finished, cleared,
}

abbrev is_tigris : Backend → Bool
is_tigris tigris = true
is_tigris _ = false

-- The newest result of the backends that pass a test.
abbrev pub latest : {Report : Type 0} → (Backend → Bool) → List (Backend × Report) → Option Report
latest p [] = none
latest p ((b, res) ∷ log) = if p b then some res else latest p log

abbrev IsOffered : Job → Type 0
IsOffered (simulating b) = (b ≡ minio) ⊎ (b ≡ tigris)
IsOffered stored = Unit {0}

All-append : (xs ys : List Job) → All IsOffered xs → All IsOffered ys → All IsOffered (xs ++ ys)
All-append [] ys h g = g
All-append (x ∷ xs) ys h g = (h.0, All-append xs ys h.1 g)

All-split : (xs ys : List Job) → All IsOffered (xs ++ ys) → All IsOffered xs × All IsOffered ys
All-split [] ys h = (tt, h)
All-split (x ∷ xs) ys h = let (a, b) = All-split xs ys h.1 in ((h.0, a), b)

module _ {Report Status : Type 0} where
  pub record IsShown (s : Server Report Status) (log : List (Backend × Report)) : Type 0 where
    pub offered : All IsOffered s.jobs
    pub minio_shown : s.last_minio ≡ latest is_minio log
    pub tigris_shown : s.last_tigris ≡ latest is_tigris log

  run_simulation-IsShown :
      (is_post accepts_json : Bool) (b : Backend) (s : Server Report Status)
      (log : List (Backend × Report))
      → IsOffered (simulating b)
      → IsShown s log
      → IsShown (run_simulation is_post accepts_json b s).0 log
  unfolding run_simulation
  run_simulation-IsShown false accepts_json b s log o h = h
  run_simulation-IsShown true accepts_json b s log o h = elim (Bool-cases s.running) [
    | inl r ↦
        rw (run_simulation, r)
          (record {
            offered = h.offered;
            minio_shown = h.minio_shown;
            tigris_shown = h.tigris_shown;
          })
    | inr r ↦
        rw (run_simulation, r)
          (record {
            offered = All-append s.jobs (simulating b ∷ []) h.offered (o, tt);
            minio_shown = h.minio_shown;
            tigris_shown = h.tigris_shown;
          })
  ]

  store_result-IsShown :
      (b : Backend) (res : Report) (before after : List Job) (s : Server Report Status)
      (log : List (Backend × Report))
      → s.jobs ≡ before ++ simulating b ∷ after
      → IsShown s log
      → IsShown (store_result b res before after s) ((b, res) ∷ log)
  unfolding store_result
  store_result-IsShown b res before after s log e h =
      let (xs, rest) =
        All-split before (simulating b ∷ after) (subst (All IsOffered) e h.offered) in
      let jobs = All-append before (stored ∷ after) xs (tt, rest.1) in
      elim rest.0 [
        | inl m ↦
            rw m (record { offered = jobs; minio_shown = refl; tigris_shown = h.tigris_shown })
        | inr t ↦ rw t (record { offered = jobs; minio_shown = h.minio_shown; tigris_shown = refl })
      ]

  Reach-IsShown :
      (s : Server Report Status) (log : List (Backend × Report)) → Reach s log → IsShown s log
  unfolding handle_simulate clear_running
  Reach-IsShown _ _ here = record { offered = tt; minio_shown = refl; tigris_shown = refl }
  Reach-IsShown _ _ (posted simulate_minio is_post accepts_json s log r) =
      run_simulation-IsShown is_post accepts_json minio s log (inl refl) (Reach-IsShown s log r)
  Reach-IsShown _ _ (posted simulate_tigris is_post accepts_json s log r) =
      run_simulation-IsShown is_post accepts_json tigris s log (inr refl) (Reach-IsShown s log r)
  Reach-IsShown _ _ (finished b res before after s log e r) =
      store_result-IsShown b res before after s log e (Reach-IsShown s log r)
  Reach-IsShown _ _ (cleared before after s log e r) =
      let h = Reach-IsShown s log r in
      let (xs, rest) = All-split before (stored ∷ after) (subst (All IsOffered) e h.offered) in
      record {
        offered = All-append before after xs rest.1;
        minio_shown = h.minio_shown;
        tigris_shown = h.tigris_shown;
      }

  -- In every state that the server can reach, the dashboard shows for MinIO and for Tigris the
  -- result of the simulation of that backend that ended last, if there was one.
  pub build_view-latest :
      (probe : Backend → Status) (s : Server Report Status) (log : List (Backend × Report))
      → Reach s log
      → ((build_view probe s).minio.last_run ≡ latest is_minio log)
        × ((build_view probe s).tigris.last_run ≡ latest is_tigris log)
  unfolding build_view
  build_view-latest probe s log r = let h = Reach-IsShown s log r in (h.minio_shown, h.tigris_shown)
