-- ===== src/Examples/Simulating.antt =====
-- A POST for MinIO, whose simulation returns 7, on the dashboard.
use go_gedung_peristiwa.Prelude.{ℕ, ◌≤◌, ◌≡◌, refl, [], ◌∷◌, some, none, true, false, length}
use go_gedung_peristiwa.Pipeline.Db.{minio, tigris}
use go_gedung_peristiwa.Web.Dashboard.{
  Server, simulate_minio, new_server, conflict, handle_simulate, run_simulation, store_result,
  build_view, Reach, here, posted, finished,
}
use go_gedung_peristiwa.Web.Dashboard.Single.{run_simulation-single}
use go_gedung_peristiwa.Web.Dashboard.Latest.{build_view-latest}

abbrev busy : Server ℕ ℕ
busy = (handle_simulate simulate_minio true true new_server).0

busy-Reach : Reach busy []
busy-Reach = posted simulate_minio true true new_server [] here

run_simulation-single_example :
    (length busy.jobs ≤ 1) × (run_simulation true false tigris busy ≡ (busy, conflict))
unfolding handle_simulate
run_simulation-single_example = run_simulation-single busy [] true false tigris busy-Reach

abbrev shown : Server ℕ ℕ
shown = store_result minio 7 [] [] busy

shown-Reach : Reach shown ((minio, 7) ∷ [])
unfolding handle_simulate
shown-Reach = finished minio 7 [] [] busy [] refl busy-Reach

build_view-latest_example :
    ((build_view (λ b. 0) shown).minio.last_run ≡ some 7)
    × ((build_view (λ b. 0) shown).tigris.last_run ≡ none)
build_view-latest_example = build_view-latest (λ b. 0) shown ((minio, 7) ∷ []) shown-Reach
