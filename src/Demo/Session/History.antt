-- ===== src/Demo/Session/History.antt =====
-- A history of calls on one `SessionStore`: each is one step under the lock, at a time of its own
-- and with system calls that may fail.
use go_gedung_peristiwa.Prelude.{◌≡◌, List, [], ◌∷◌, ok}
use go_gedung_peristiwa.Prelude.Int.{ℤ}
use go_gedung_peristiwa.Text.{Text}
use go_gedung_peristiwa.Time.{Time}
use go_gedung_peristiwa.Demo.Session.Store.{
  Json, SessionStore, Faults, FileState, open_session_store,
}
use go_gedung_peristiwa.Demo.Session.Methods.{
  acquire_live, release_live, touch, live_region_ids, region, set_region, poll_seconds,
  set_poll_seconds, min_poll_interval_for_region, active_region_ids, region_viewer_counts,
}
use go_gedung_peristiwa.Demo.Session.Invariant.{
  IsValid, prune_and_persist-IsValid, acquire_live-IsValid, release_live-IsValid,
}
use go_gedung_peristiwa.Demo.Session.Preserve.{
  touch-IsValid, set_region-IsValid, set_poll_seconds-IsValid, open_session_store-IsValid,
}

pub data Call : Type 0 where
  touches acquires releases reads_region reads_seconds reads_interval : Text → Call
  sets_region : Text → Text → Call
  sets_seconds : Text → ℤ → Call
  reads_live reads_active reads_counts : Call

pub record Event : Type 0 where
  pub io : Faults
  pub now : Time
  pub call : Call

module _ {Raw : Type 0} (json : Json Raw) where
  unfoldable pub step : Faults → Time → Call → SessionStore Raw → SessionStore Raw
  step io now (touches sid) s = touch json io now sid s
  step io now (acquires sid) s = acquire_live sid s
  step io now (releases sid) s = release_live sid s
  step io now (reads_region sid) s = (region json io now sid s).0
  step io now (reads_seconds sid) s = (poll_seconds json io now sid s).0
  step io now (reads_interval id) s = (min_poll_interval_for_region json io now id s).0
  step io now (sets_region sid id) s = (set_region json io now sid id s).0
  step io now (sets_seconds sid n) s = (set_poll_seconds json io now sid n s).0
  step io now reads_live s = (live_region_ids json io now s).0
  step io now reads_active s = (active_region_ids json io now s).0
  step io now reads_counts s = (region_viewer_counts json io now s).0

  unfoldable pub run : List Event → SessionStore Raw → SessionStore Raw
  unfolding step
  run [] s = s
  run (e ∷ es) s = run es (step e.io e.now e.call s)

  pub step-IsValid :
      (io : Faults) (now : Time) (c : Call) (s : SessionStore Raw)
      → IsValid s
      → IsValid (step io now c s)
  unfolding step region poll_seconds min_poll_interval_for_region live_region_ids active_region_ids
      region_viewer_counts
  step-IsValid io now (touches sid) s v = touch-IsValid json io now sid s v
  step-IsValid io now (acquires sid) s v = acquire_live-IsValid sid s v
  step-IsValid io now (releases sid) s v = release_live-IsValid sid s v
  step-IsValid io now (sets_region sid id) s v = set_region-IsValid json io now sid id s v
  step-IsValid io now (sets_seconds sid n) s v = set_poll_seconds-IsValid json io now sid n s v
  step-IsValid io now c s v = prune_and_persist-IsValid json io now s v

  run-IsValid : (es : List Event) (s : SessionStore Raw) → IsValid s → IsValid (run es s)
  unfolding run
  run-IsValid [] s v = v
  run-IsValid (e ∷ es) s v = run-IsValid es _ (step-IsValid e.io e.now e.call s v)

  -- A store that opens, from whatever its file holds, stays well formed through every history of
  -- calls: each session names a region of the catalogue and an interval of 10, 20 or 30 seconds,
  -- no key stands twice, and every live entry counts at least one viewer.
  pub run-IsValid_opened :
      (now : Time) (path : Text) (file : FileState Raw) (s : SessionStore Raw) (es : List Event)
      → open_session_store json now path file ≡ ok s
      → IsValid (run es s)
  run-IsValid_opened now path file s es h =
      run-IsValid es s (open_session_store-IsValid json now path file s h)
