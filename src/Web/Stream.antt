-- ===== src/Web/Stream.antt =====
-- handleVehicleStream of internal/web/demo/server.go: the server-sent events of the live map. What a
-- push meets (its clocks, the faults of its calls of the store, which writes fail) and the signals
-- of the loop's select are parameters; before each signal others may have changed the server. The
-- times of an event are instants, where the code prints a clock time.
pub mod Balanced
use go_gedung_peristiwa.Prelude.{
  ℕ, List, [], ◌∷◌, ◌++◌, Option, none, some, Result, ok, err, Bool, true, false, if◌then◌else◌,
  keep, map,
}
use go_gedung_peristiwa.Text.{Text}
use go_gedung_peristiwa.Time.{Time}
use go_gedung_peristiwa.Gtfs.Bounds.{Float64}
use go_gedung_peristiwa.Gtfs.Regions.{MapRegion, contains}
use go_gedung_peristiwa.Demo.Session.Store.{Json, Faults}
use go_gedung_peristiwa.Demo.Session.Methods.{
  acquire_live, release_live, touch, region, active_region, active_agencies,
}
use go_gedung_peristiwa.Demo.Pipeline.{
  IngestRecord, live_positions_for, stats_for, recent_ingest_for_region, last_polled_agencies,
}
use go_gedung_peristiwa.Web.Views.{VehicleView, live_views}
use go_gedung_peristiwa.Web.Handlers.{Server}

pub record IngestRow : Type 0 where
  pub agency : Text
  pub vehicle : Text
  pub lat : Float64
  pub lng : Float64
  pub at : Time

pub data StreamEvent : Type 0 where
  vehicles_event : List VehicleView → StreamEvent
  stats_event : ℕ → Time → ℕ → Text → StreamEvent
  ingest_event : Text → Text → List Text → List IngestRow → StreamEvent

pub record Push : Type 0 where
  pub clock : ℕ → Time
  pub io : ℕ → Faults
  pub write_fails : ℕ → Bool

unfoldable pub ingest_row : IngestRecord → IngestRow
ingest_row rec = record {
  agency = rec.agency;
  vehicle = rec.vehicle_id;
  lat = rec.lat;
  lng = rec.lng;
  at = rec.at;
}

-- The server after a push, the events that were written, and whether all were.
abbrev pub Pushed : Type 0 → Type 0 → Type 0
Pushed Raw Handle = Server Raw Handle × List StreamEvent × Bool

-- What the loop's select takes: the end of the request, a heartbeat, a signal of the pipeline, or
-- the closing of its channel.
pub data Signal : Type 0 where
  ended unsubscribed : Signal
  heartbeat : Time → Faults → Signal
  polled : Time → Faults → Push → Signal

module _ {Raw Handle : Type 0} (json : Json Raw) (sid : Text) where
  unfoldable pub push_ingest_event : Push → Server Raw Handle → Pushed Raw Handle
  unfolding ingest_row
  push_ingest_event p s =
      let (s1, id) = region json (p.io 3) (p.clock 3) sid s.sessions in
      let (s2, active) = active_region json (p.io 4) (p.clock 4) sid s1 in
      let (s3, agencies) = active_agencies json (p.io 5) (p.clock 5) sid s2 in
      let s' : Server Raw Handle = record s { sessions = s3 } in
      elim agencies [
        | err e ↦ (s', [], false)
        | ok ids ↦ if p.write_fails 2 then (s', [], false) else (
          s',
          ingest_event id (elim active [ some r ↦ r.label | none ↦ [] ])
                (keep (λ agency. contains agency ids) (last_polled_agencies s.pipeline))
                (map ingest_row (recent_ingest_for_region id s.pipeline))
              ∷ [],
          true,
        )
      ]

  unfoldable pub push_stats : Push → List Text → Server Raw Handle → Pushed Raw Handle
  push_stats p agencies s =
      let (count, last_poll, events) = stats_for agencies (p.clock 1) s.pipeline in
      let (s1, id) = region json (p.io 2) (p.clock 2) sid s.sessions in
      let s' : Server Raw Handle = record s { sessions = s1 } in
      if p.write_fails 1
      then (s', [], false)
      else (s', stats_event count last_poll events id ∷ [], true)

  unfoldable pub push_snapshot : Push → List Text → Server Raw Handle → Pushed Raw Handle
  unfolding push_stats push_ingest_event
  push_snapshot p agencies s =
      let now = p.clock 0 in
      let views = vehicles_event (live_views (live_positions_for agencies now s.pipeline) now) in
      if p.write_fails 0
      then (s, [], false)
      else let (s1, stats, told) = push_stats p agencies s in
        if told
        then (let (s2, ingest, done) = push_ingest_event p s1 in
            (s2, views ∷ stats ++ ingest, done))
        else (s1, views ∷ stats, false)

  -- The loop, up to its return; each signal comes with what others did before it.
  unfoldable pub stream_loop :
      List Text
      → List ((Server Raw Handle → Server Raw Handle) × Signal)
      → Server Raw Handle
      → Server Raw Handle × List StreamEvent
  unfolding push_snapshot
  stream_loop agencies [] s = (s, [])
  stream_loop agencies ((others, signal) ∷ rest) s = elim signal [
    | ended ↦ (others s, [])
    | unsubscribed ↦ (others s, [])
    | heartbeat now io ↦
        let s1 = others s in
        stream_loop agencies rest (record s1 { sessions = touch json io now sid s1.sessions })
    | polled now io p ↦
        let s1 = others s in
        let (s2, events, told) =
          push_snapshot p agencies (record s1 { sessions = touch json io now sid s1.sessions }) in
        let (s3, more) = stream_loop agencies rest s2 in
        if told then (s3, events ++ more) else (s2, events)
  ]

  -- From the agencies on; the agencies stay those of the start.
  unfoldable pub stream_body :
      Push
      → Faults
      → Time
      → List ((Server Raw Handle → Server Raw Handle) × Signal)
      → Server Raw Handle
      → Server Raw Handle × List StreamEvent
  unfolding push_snapshot stream_loop
  stream_body first io now signals s =
      let (s1, agencies) = active_agencies json io now sid s.sessions in
      let opened : Server Raw Handle = record s { sessions = s1 } in
      elim agencies [
        | err e ↦ (opened, [])
        | ok ids ↦
            let (s2, events, told) = push_snapshot first ids opened in
            let (s3, more) = stream_loop ids signals s2 in
            if told then (s3, events ++ more) else (s2, events)
      ]

  -- ReleaseLive is deferred: it runs at every return.
  unfoldable pub handle_vehicle_stream :
      Push
      → Faults
      → Time
      → List ((Server Raw Handle → Server Raw Handle) × Signal)
      → Server Raw Handle
      → Server Raw Handle × List StreamEvent
  unfolding stream_body
  handle_vehicle_stream first io now signals s =
      let (s1, events) =
        stream_body first io now signals (record s { sessions = acquire_live sid s.sessions }) in
      (record s1 { sessions = release_live sid s1.sessions }, events)
