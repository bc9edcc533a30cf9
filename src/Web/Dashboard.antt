-- ===== src/Web/Dashboard.antt =====
-- internal/web/server.go: the dashboard, which starts one simulation at a time. A simulation runs in
-- a goroutine of its own, which takes the lock twice at its end: to store the result, and to
-- clear the flag. What a simulation returns and what the probe says of a backend are parameters.
pub mod Single
pub mod Latest
use go_gedung_peristiwa.Prelude.{
  ◌≡◌, List, [], ◌∷◌, ◌++◌, Option, none, some, Bool, true, false, if◌then◌else◌, not,
}
use go_gedung_peristiwa.Pipeline.Db.{Backend, memory, minio, tigris, unknown}

-- A goroutine of runSimulation: before its result is stored, and after.
pub data Job : Type 0 where
  simulating : Backend → Job
  stored : Job

pub data Answer : Type 0 where
  method_not_allowed conflict started redirected : Answer

pub data Endpoint : Type 0 where
  simulate_minio simulate_tigris : Endpoint

abbrev pub is_minio : Backend → Bool
is_minio minio = true
is_minio _ = false

module _ (Report Status : Type 0) where
  pub record Server : Type 0 where
    pub running : Bool
    pub last_minio : Option Report
    pub last_tigris : Option Report
    pub jobs : List Job

  pub record BackendView : Type 0 where
    pub status : Status
    pub last_run : Option Report

  pub record DashboardView : Type 0 where
    pub running : Bool
    pub minio : BackendView
    pub tigris : BackendView

module _ {Report Status : Type 0} where
  abbrev pub new_server : Server Report Status
  new_server = record { running = false; last_minio = none; last_tigris = none; jobs = [] }

  -- Whether the method is POST, and whether the client accepts JSON.
  unfoldable pub run_simulation :
      Bool → Bool → Backend → Server Report Status → Server Report Status × Answer
  run_simulation is_post accepts_json backend s =
      if not is_post then (s, method_not_allowed) else if s.running then (s, conflict) else (
        record s { running = true; jobs = s.jobs ++ simulating backend ∷ [] },
        (if accepts_json then started else redirected),
      )

  unfoldable pub handle_simulate :
      Endpoint → Bool → Bool → Server Report Status → Server Report Status × Answer
  unfolding run_simulation
  handle_simulate simulate_minio is_post accepts_json = run_simulation is_post accepts_json minio
  handle_simulate simulate_tigris is_post accepts_json = run_simulation is_post accepts_json tigris

  -- The goroutine between `before` and `after` stores its result.
  unfoldable pub store_result :
      Backend → Report → List Job → List Job → Server Report Status → Server Report Status
  store_result backend res before after s =
      if is_minio backend
      then record s { last_minio = some res; jobs = before ++ stored ∷ after }
      else record s { last_tigris = some res; jobs = before ++ stored ∷ after }

  -- Its deferred function clears the flag, and it is gone.
  unfoldable pub clear_running : List Job → List Job → Server Report Status → Server Report Status
  clear_running before after s = record s { running = false; jobs = before ++ after }

  unfoldable pub build_view :
      (Backend → Status) → Server Report Status → DashboardView Report Status
  build_view probe s = record {
    running = s.running;
    minio = record { status = probe minio; last_run = s.last_minio };
    tigris = record { status = probe tigris; last_run = s.last_tigris };
  }

  -- The states of the server, with the results of its simulations, the newest first.
  pub data Reach : Server Report Status → List (Backend × Report) → Type 0 where
    here : Reach new_server []
    posted :
        (e : Endpoint) (is_post accepts_json : Bool) (s : Server Report Status)
        (log : List (Backend × Report))
        → Reach s log
        → Reach (handle_simulate e is_post accepts_json s).0 log
    finished :
        (backend : Backend) (res : Report) (before after : List Job) (s : Server Report Status)
        (log : List (Backend × Report))
        → s.jobs ≡ before ++ simulating backend ∷ after
        → Reach s log
        → Reach (store_result backend res before after s) ((backend, res) ∷ log)
    cleared :
        (before after : List Job) (s : Server Report Status) (log : List (Backend × Report))
        → s.jobs ≡ before ++ stored ∷ after
        → Reach s log
        → Reach (clear_running before after s) log
