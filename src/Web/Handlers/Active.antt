-- ===== src/Web/Handlers/Active.antt =====
-- The active region of a session, as the handlers of internal/web/demo ask for it.
use go_gedung_peristiwa.Prelude.{◌≡◌, ◌≢◌, ok, err, arith}
use go_gedung_peristiwa.Text.{Text}
use go_gedung_peristiwa.Time.{Time}
use go_gedung_peristiwa.Gtfs.Regions.{
  MapRegion, RegionError, region_by_id, feeds_for_region, agencies_for_region,
}
use go_gedung_peristiwa.Demo.Session.Store.{Json, SessionStore, Faults, prune_and_persist}
use go_gedung_peristiwa.Demo.Session.Methods.{
  region, poll_seconds, active_region, active_feeds, active_agencies,
}
use go_gedung_peristiwa.Demo.Session.Invariant.{
  IsValid, state_of-IsKnown, prune_and_persist-IsValid,
}

module _ {Raw : Type 0} (json : Json Raw) (io : Faults) (now : Time) (sid : Text)
    (s : SessionStore Raw) (v : IsValid s) where
  -- The region of a session of a well-formed store is in the catalogue.
  pub region-IsValid :
      IsValid (region json io now sid s).0
      × ((m : MapRegion) × (region_by_id (region json io now sid s).1 ≡ ok m))
  unfolding region
  region-IsValid =
      let v' = prune_and_persist-IsValid json io now s v in
      let k = state_of-IsKnown (prune_and_persist json io now s) sid now v' in
      (v', (k.found, k.region))

  pub active_region-IsValid : IsValid (active_region json io now sid s).0
  unfolding active_region
  active_region-IsValid = region-IsValid.0

  pub active_feeds-IsValid :
      IsValid (active_feeds json io now sid s).0
      × ((e : RegionError) → (active_feeds json io now sid s).1 ≢ err e)
  unfolding active_feeds feeds_for_region
  active_feeds-IsValid =
      let (m, found) = region-IsValid.1 in (region-IsValid.0, λ e h. ground (arith, found))

  pub active_agencies-IsValid :
      IsValid (active_agencies json io now sid s).0
      × ((e : RegionError) → (active_agencies json io now sid s).1 ≢ err e)
  unfolding active_agencies agencies_for_region
  active_agencies-IsValid =
      let (m, found) = region-IsValid.1 in (region-IsValid.0, λ e h. ground (arith, found))

  pub poll_seconds-IsValid : IsValid (poll_seconds json io now sid s).0
  unfolding poll_seconds
  poll_seconds-IsValid = prune_and_persist-IsValid json io now s v
