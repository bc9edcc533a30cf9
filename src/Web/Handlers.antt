-- ===== src/Web/Handlers.antt =====
-- The handlers of internal/web/demo/server.go and replay.go that answer at once. The mux of
-- net/http picks the handler, the JSON of a body is decoded by a parameter, and a page is the data
-- that its template is given. A handler calls the store several times, call k at `clock k` and with
-- the faults `io k`; here nothing comes between its calls.
pub mod Active
pub mod Answered
pub mod Switched
use go_gedung_peristiwa.Prelude.{
  ℕ, ◌+◌, List, [], ◌∷◌, Option, none, some, Result, ok, err, Bool, true, false, if◌then◌else◌, not,
}
use go_gedung_peristiwa.Prelude.Int.{ℤ}
use go_gedung_peristiwa.Text.{Text, is_empty}
use go_gedung_peristiwa.Time.{Time}
use go_gedung_peristiwa.Gtfs.Feeds.{Feed}
use go_gedung_peristiwa.Gtfs.Regions.{MapRegion, RegionError, map_regions}
use go_gedung_peristiwa.Demo.PollSeconds.{allowed_poll_seconds}
use go_gedung_peristiwa.Demo.Session.Store.{Json, SessionStore, Faults, StoreError}
use go_gedung_peristiwa.Demo.Session.Methods.{
  touch, region, set_region, poll_seconds, set_poll_seconds, active_region, active_feeds,
  active_agencies,
}
use go_gedung_peristiwa.Demo.Pipeline.{Pipeline, live_positions_for}
use go_gedung_peristiwa.Demo.Snapshots.{RegionCatalog}
use go_gedung_peristiwa.Web.Views.{
  VehicleView, RegionView, FeedView, region_view, region_views, feed_views, live_views,
}

pub data Method : Type 0 where
  get post other_method : Method

-- The handler that the mux picked.
pub data Endpoint : Type 0 where
  index regions one_region poll_interval vehicles replay_index replay_catalog : Endpoint

-- What a handler reads of a request: `is_root` is that the path is the page's own, a body that does
-- not decode is `none`, a query without a region has the empty text.
pub record Request : Type 0 where
  pub method : Method
  pub endpoint : Endpoint
  pub is_root : Bool
  pub region_body : Option Text
  pub seconds_body : Option ℤ
  pub query_region : Text
  pub clock : ℕ → Time
  pub io : ℕ → Faults

pub record Page : Type 0 where
  pub active_region : Option MapRegion
  pub feeds : List Feed
  pub poll_seconds : ℕ

pub data Answer : Type 0 where
  failure : ℕ → Answer
  page : Page → Answer
  region_list : Text → List RegionView → Answer
  region_payload : RegionView → List FeedView → ℕ → Answer
  interval : ℕ → List ℕ → Answer
  vehicle_list : List VehicleView → Answer
  catalog : RegionCatalog → Answer

-- The zero value of a region.
abbrev no_region : MapRegion
no_region = record { id = []; label = []; center = (0, 0); zoom = 0; agencies = [] }

-- Status 200 unless `http.Error` or `http.NotFound` set another.
abbrev pub status : Answer → ℕ
status (failure code) = code
status other = 200

-- The store and the channel `pollNow` of cmd/demo/main.go, which holds one region; `replay` is
-- `none` where the server has no source of replays.
pub record Server (Raw Handle : Type 0) : Type 0 where
  pub sessions : SessionStore Raw
  pub poll_now : Option Text
  pub pipeline : Pipeline Handle
  pub replay : Option (Text → Option RegionCatalog)

module _ {Raw Handle : Type 0} (json : Json Raw) where
  -- The callback that cmd/demo/main.go passes to `NewServer`.
  unfoldable pub on_region_change : Text → Server Raw Handle → Server Raw Handle
  on_region_change id s = record s {
    poll_now = elim s.poll_now [ none ↦ some id | some waiting ↦ some waiting ];
  }

  module _ (r : Request) (sid : Text) where
    -- From call k on: two calls.
    unfoldable pub active_region_payload :
        ℕ → Server Raw Handle → Server Raw Handle × Result RegionError (RegionView × List Feed)
    active_region_payload k s =
        let (s1, rgn) = active_region json (r.io k) (r.clock k) sid s.sessions in
        let (s2, feeds) = active_feeds json (r.io (k + 1)) (r.clock (k + 1)) sid s1 in
        (
          record s { sessions = s2 },
          elim feeds [
            | err e ↦ err e
            | ok fs ↦ ok (region_view false (elim rgn [ some m ↦ m | none ↦ no_region ]), fs)
          ],
        )

    unfoldable pub write_region_payload :
        ℕ → RegionView → List Feed → Server Raw Handle → Server Raw Handle × Answer
    write_region_payload k view feeds s =
        let (s1, n) = poll_seconds json (r.io k) (r.clock k) sid s.sessions in
        (record s { sessions = s1 }, region_payload view (feed_views feeds) n)

    unfoldable pub get_region : ℕ → Server Raw Handle → Server Raw Handle × Answer
    unfolding active_region_payload write_region_payload
    get_region k s =
        let (s1, payload) = active_region_payload k s in
        elim payload [
          | err e ↦ (s1, failure 500)
          | ok (view, feeds) ↦ write_region_payload (k + 2) view feeds s1
        ]

    unfoldable pub post_region : Server Raw Handle → Server Raw Handle × Answer
    unfolding get_region on_region_change
    post_region s = elim r.region_body [
      | none ↦ (s, failure 400)
      | some id ↦
          let (s1, refused) = set_region json (r.io 0) (r.clock 0) sid id s.sessions in
          elim refused [
            | some e ↦ (record s { sessions = s1 }, failure 400)
            | none ↦ get_region 1 (on_region_change id (record s { sessions = s1 }))
          ]
    ]

    unfoldable pub handle_region : Server Raw Handle → Server Raw Handle × Answer
    unfolding post_region get_region
    handle_region s = elim r.method [
      | post ↦ post_region s
      | get ↦ get_region 0 s
      | other_method ↦ (s, failure 405)
    ]

    unfoldable pub write_poll_interval : ℕ → Server Raw Handle → Server Raw Handle × Answer
    write_poll_interval k s =
        let (s1, n) = poll_seconds json (r.io k) (r.clock k) sid s.sessions in
        (record s { sessions = s1 }, interval n allowed_poll_seconds)

    unfoldable pub post_poll_interval : Server Raw Handle → Server Raw Handle × Answer
    unfolding write_poll_interval on_region_change
    post_poll_interval s = elim r.seconds_body [
      | none ↦ (s, failure 400)
      | some seconds ↦
          let (s1, refused) = set_poll_seconds json (r.io 0) (r.clock 0) sid seconds s.sessions in
          elim refused [
            | some e ↦ (record s { sessions = s1 }, failure 400)
            | none ↦
                let (s2, id) = region json (r.io 1) (r.clock 1) sid s1 in
                write_poll_interval 2 (on_region_change id (record s { sessions = s2 }))
          ]
    ]

    unfoldable pub handle_poll_interval : Server Raw Handle → Server Raw Handle × Answer
    unfolding post_poll_interval write_poll_interval
    handle_poll_interval s = elim r.method [
      | get ↦ write_poll_interval 0 s
      | post ↦ post_poll_interval s
      | other_method ↦ (s, failure 405)
    ]

    -- The time of the positions is a further reading of the clock.
    unfoldable pub handle_vehicles : Server Raw Handle → Server Raw Handle × Answer
    handle_vehicles s = elim r.method [
      | get ↦
          let (s1, agencies) = active_agencies json (r.io 0) (r.clock 0) sid s.sessions in
          (
            record s { sessions = s1 },
            elim agencies [
              | err e ↦ failure 500
              | ok ids ↦
                  let now = r.clock 1 in
                  vehicle_list (live_views (live_positions_for ids now s.pipeline) now)
            ],
          )
      | post ↦ (s, failure 405)
      | other_method ↦ (s, failure 405)
    ]

    unfoldable pub handle_regions : Server Raw Handle → Server Raw Handle × Answer
    handle_regions s = elim r.method [
      | get ↦
          let (s1, active) = region json (r.io 0) (r.clock 0) sid s.sessions in
          let (s2, current) = region json (r.io 1) (r.clock 1) sid s1 in
          (record s { sessions = s2 }, region_list active (region_views map_regions current))
      | post ↦ (s, failure 405)
      | other_method ↦ (s, failure 405)
    ]

    unfoldable pub handle_index : Server Raw Handle → Server Raw Handle × Answer
    handle_index s =
        if not r.is_root
        then (s, failure 404)
        else let (s1, active) = active_region json (r.io 0) (r.clock 0) sid s.sessions in
          let (s2, feeds) = active_feeds json (r.io 1) (r.clock 1) sid s1 in
          let (s3, n) = poll_seconds json (r.io 2) (r.clock 2) sid s2 in
          (
            record s { sessions = s3 },
            page (record {
              active_region = active;
              feeds = elim feeds [ ok fs ↦ fs | err e ↦ [] ];
              poll_seconds = n;
            }),
          )

    unfoldable pub handle_replay_index : Server Raw Handle → Server Raw Handle × Answer
    handle_replay_index s =
        if not r.is_root
        then (s, failure 404)
        else let (s1, active) = active_region json (r.io 0) (r.clock 0) sid s.sessions in
          (
            record s { sessions = s1 },
            page (record { active_region = active; feeds = []; poll_seconds = 0 }),
          )

    unfoldable pub show_catalog :
        (Text → Option RegionCatalog) → Text → Server Raw Handle → Server Raw Handle × Answer
    show_catalog source id s = (s, elim (source id) [ none ↦ failure 400 | some cat ↦ catalog cat ])

    unfoldable pub handle_replay_catalog : Server Raw Handle → Server Raw Handle × Answer
    unfolding show_catalog
    handle_replay_catalog s = elim r.method [
      | post ↦ (s, failure 405)
      | other_method ↦ (s, failure 405)
      | get ↦ elim s.replay [
        | none ↦ (s, failure 503)
        | some source ↦
            if is_empty r.query_region
            then (let (s1, id) = region json (r.io 0) (r.clock 0) sid s.sessions in
                show_catalog source id (record s { sessions = s1 }))
            else show_catalog source r.query_region s
      ]
    ]

    unfoldable pub serve : Server Raw Handle → Server Raw Handle × Answer
    unfolding handle_index handle_regions handle_region handle_poll_interval handle_vehicles
        handle_replay_index handle_replay_catalog
    serve s = elim r.endpoint [
      | index ↦ handle_index s
      | regions ↦ handle_regions s
      | one_region ↦ handle_region s
      | poll_interval ↦ handle_poll_interval s
      | vehicles ↦ handle_vehicles s
      | replay_index ↦ handle_replay_index s
      | replay_catalog ↦ handle_replay_catalog s
    ]

  -- The cookie's value (empty for none), and the identifier that is drawn where there is none
  -- (`none` is an error of the random source). The third part is the cookie that is set.
  unfoldable pub with_session :
      Request
      → Text
      → Option Text
      → Faults
      → Time
      → Server Raw Handle
      → Server Raw Handle × Answer × Option Text
  unfolding serve
  with_session r cookie fresh io now s =
      let enter : Text → Option Text → Server Raw Handle × Answer × Option Text = λ sid set.
        let (s', a) = serve r sid (record s { sessions = touch json io now sid s.sessions }) in
        (s', a, set) in
      if not (is_empty cookie)
      then enter cookie none
      else elim fresh [ none ↦ (s, failure 500, none) | some sid ↦ enter sid (some sid) ]
