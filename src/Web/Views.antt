-- ===== src/Web/Views.antt =====
-- The rows that internal/web/demo/server.go gives to the browser.
use go_gedung_peristiwa.Prelude.{
  ◌≡◌, refl, List, Bool, false, not, if◌then◌else◌, map, holds, All, All_at, Elem, ℕ, ℕ_discrete,
}
use go_gedung_peristiwa.Text.{Text, codes, text_dec}
use go_gedung_peristiwa.Time.{Time, sub_le}
use go_gedung_peristiwa.Gtfs.Bounds.{Float64}
use go_gedung_peristiwa.Gtfs.Feeds.{Feed, all_feeds}
use go_gedung_peristiwa.Gtfs.Position.{VehiclePosition}
use go_gedung_peristiwa.Gtfs.Regions.{MapRegion}
use go_gedung_peristiwa.Demo.Pipeline.{vehicle_key, live_map_fresh_window}
use go_gedung_peristiwa.Pipeline.Store.{has_prefix}

pub record VehicleView : Type 0 where
  pub id : Text
  pub vehicle_id : Text
  pub lat : Float64
  pub lng : Float64
  pub agency : Text
  pub group : Text
  pub route : Text
  pub speed : Float64
  pub bearing : Float64
  pub stale : Bool

pub record RegionView : Type 0 where
  pub id : Text
  pub label : Text
  pub center : ℕ × ℕ
  pub zoom : ℕ
  pub agencies : List Text
  pub active : Bool

pub record FeedView : Type 0 where
  pub agency : Text
  pub region : Text

abbrev pub region_view : Bool → MapRegion → RegionView
region_view active r = record {
  id = r.id;
  label = r.label;
  center = r.center;
  zoom = r.zoom;
  agencies = r.agencies;
  active = active;
}

unfoldable pub region_views : List MapRegion → Text → List RegionView
region_views regions active_id = map (λ r. region_view (holds (text_dec r.id active_id)) r) regions

unfoldable pub feed_views : List Feed → List FeedView
feed_views = map (λ f. record { agency = f.agency; region = f.region })

unfoldable pub agency_group : Text → Text
agency_group agency =
    if holds (text_dec agency (codes "ktmb"))
    then codes "ktmb"
    else if has_prefix agency (codes "prasarana")
    then codes "prasarana"
    else codes "mybas"

unfoldable pub to_view : VehiclePosition → VehicleView
to_view pos = record {
  id = vehicle_key pos;
  vehicle_id = pos.vehicle_id;
  lat = pos.lat;
  lng = pos.lng;
  agency = pos.agency;
  group = agency_group pos.agency;
  route = pos.route;
  speed = pos.speed;
  bearing = pos.bearing;
  stale = false;
}

unfoldable pub live_view : Time → VehiclePosition → VehicleView
unfolding to_view
live_view now pos = record (to_view pos) {
  stale = not (sub_le now pos.timestamp live_map_fresh_window);
}

unfoldable pub live_views : List VehiclePosition → Time → List VehicleView
live_views positions now = map (live_view now) positions

unfoldable pub replay_views : List VehiclePosition → List VehicleView
replay_views = map to_view

all_feeds-agency_group : All (λ f. agency_group f.agency ≡ f.group) all_feeds
unfolding all_feeds agency_group has_prefix text_dec ℕ_discrete
all_feeds-agency_group = (
  refl,
  (
    refl,
    (
      refl,
      (
        refl,
        (refl, (refl, (refl, (refl, (refl, (refl, (refl, (refl, (refl, (refl, (refl, tt))))))))))),
      ),
    ),
  ),
)

-- The group that the map shows for an agency of the catalogue is the group of its feed.
pub agency_group-group : (f : Feed) → Elem f all_feeds → agency_group f.agency ≡ f.group
agency_group-group f m =
    All_at (λ f. agency_group f.agency ≡ f.group) f all_feeds all_feeds-agency_group m
