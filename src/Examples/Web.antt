-- ===== src/Examples/Web.antt =====
-- The browser "a", in Penang, switches to Johor and follows the live map.
use go_gedung_peristiwa.Prelude.{
  ℕ, ◌+◌, ◌≡◌, refl, List, [], ◌∷◌, Option, none, some, true, false, arith, ℕ_discrete, keep,
}
use go_gedung_peristiwa.Text.{Text, codes, text_dec, is_empty}
use go_gedung_peristiwa.Gtfs.Feeds.{all_feeds}
use go_gedung_peristiwa.Gtfs.Regions.{
  MapRegion, region_by_id, find_region, map_regions, contains, feeds_for_region,
}
use go_gedung_peristiwa.Demo.Session.Store.{
  SessionState, Faults, write_failed, persist, encode_sessions, prune_expired, prune_entries,
  session_expired, state_of, fill_seconds,
}
use go_gedung_peristiwa.Demo.Session.Methods.{set_region, region, count_of}
use go_gedung_peristiwa.Demo.Session.Invariant.{IsValid}
use go_gedung_peristiwa.Assoc.{lookup, insert}
use go_gedung_peristiwa.Web.Views.{region_view, feed_views}
use go_gedung_peristiwa.Web.Handlers.{
  Request, post, one_region, Server, status, region_payload, post_region, with_session,
}
use go_gedung_peristiwa.Web.Handlers.Answered.{with_session-IsValid}
use go_gedung_peristiwa.Web.Handlers.Switched.{post_region-payload, post_region_unsaved}
use go_gedung_peristiwa.Web.Stream.{Push, Signal, heartbeat, polled, ended, handle_vehicle_stream}
use go_gedung_peristiwa.Web.Stream.Balanced.{handle_vehicle_stream-count_of}
use go_gedung_peristiwa.Examples.Sessions.{json, no_faults, now, johor, watched, watched-IsValid}
use go_gedung_peristiwa.Examples.Storage.{running}

abbrev browser : Text
browser = b'a' ∷ []

-- The clock goes on by a nanosecond from call to call.
abbrev request : Request
request = record {
  method = post;
  endpoint = one_region;
  is_root = true;
  region_body = some johor;
  seconds_body = none;
  query_region = [];
  clock = λ k. now + k;
  io = λ k. no_faults;
}

abbrev server : Server SessionState ℕ
server = record { sessions = watched; poll_now = none; pipeline = running; replay = none }

abbrev no_id : Option Text
no_id = none

with_session-IsValid_example :
    let (s', answer, set) = with_session json request browser no_id no_faults now server in
    IsValid s'.sessions × (status answer ≡ 500 → (is_empty browser ≡ true) × (no_id ≡ none))
with_session-IsValid_example =
    with_session-IsValid json request browser no_id no_faults now server watched-IsValid

abbrev johor_region : MapRegion
johor_region = record {
  id = johor;
  label = codes "Johor";
  center = (1490, 103740);
  zoom = 11;
  agencies = codes "mybas-johor" ∷ [];
}

post_region-payload_example :
    let (s', answer) = post_region json request browser server in
    ((n : ℕ) × (answer
        ≡ region_payload
            (region_view false johor_region)
            (feed_views (keep (λ f. contains f.agency johor_region.agencies) all_feeds))
            n))
    × (s'.poll_now ≡ some johor)
unfolding region_by_id find_region map_regions text_dec ℕ_discrete feeds_for_region set_region
    persist encode_sessions prune_expired prune_entries session_expired state_of fill_seconds lookup
    insert
post_region-payload_example =
    post_region-payload json request browser johor johor_region server
      (keep (λ f. contains f.agency johor_region.agencies) all_feeds) watched-IsValid refl refl refl
      refl (omega arith, omega arith) (omega arith, omega arith)

abbrev full_disk : Faults
full_disk = record { mkdir_fails = false; write_fails = true; rename_fails = false }

abbrev unlucky : Request
unlucky = record request { io = λ k. full_disk }

post_region_unsaved_example :
    let (s', answer) = post_region json unlucky browser server in
    (status answer ≡ 400)
    × (s'.poll_now ≡ none)
    × ((region json no_faults (now + 1) browser s'.sessions).1 ≡ johor)
unfolding region_by_id find_region map_regions text_dec ℕ_discrete set_region persist
    encode_sessions prune_expired prune_entries session_expired state_of fill_seconds lookup insert
post_region_unsaved_example =
    post_region_unsaved json unlucky browser johor johor_region server write_failed no_faults
      (now + 1) watched-IsValid refl refl refl (omega arith, omega arith)

abbrev push : Push
push = record { clock = λ k. now; io = λ k. no_faults; write_fails = λ k. false }

abbrev undisturbed : Server SessionState ℕ → Server SessionState ℕ
undisturbed s = s

abbrev signals : List ((Server SessionState ℕ → Server SessionState ℕ) × Signal)
signals =
    (undisturbed, heartbeat now no_faults)
    ∷ (undisturbed, polled now no_faults push)
    ∷ (undisturbed, ended)
    ∷ []

handle_vehicle_stream-count_of_example :
    count_of browser
      (handle_vehicle_stream json browser push no_faults now signals server).0.sessions.live
    ≡ count_of browser server.sessions.live
handle_vehicle_stream-count_of_example =
    handle_vehicle_stream-count_of json browser push no_faults now signals server
      (λ e. ground arith) (λ s. refl, (λ s. refl, (λ s. refl, tt)))
