-- ===== src/Web/Playback/Complete.antt =====
-- What a browser gets of a replay that nothing disturbs.
use go_gedung_peristiwa.Prelude.{
  ℕ, ◌+◌, ◌*◌, ◌≡◌, refl, List, [], ◌∷◌, ◌++◌, Option, none, some, Bool, if◌then◌else◌, arith, map,
  ok, ◌∙◌, ap,
}
use go_gedung_peristiwa.Assoc.{Assoc}
use go_gedung_peristiwa.Gtfs.Position.{VehiclePosition}
use go_gedung_peristiwa.Pipeline.Changefeed.{ChangeDb}
use go_gedung_peristiwa.Demo.Replay.{
  ReplayOptions, Bucket, ReplayError, build_replay_frames, run_frames, unknown_region,
  refresh_failed, feed_failed, stopped, Frame, run_replay,
}
use go_gedung_peristiwa.Demo.Replay.Resumed.{
  Shown, shown_of, drop_before, show_all, IsSmooth, run_frames-show_all,
}
use go_gedung_peristiwa.Demo.Replay.Shows.{Shows, show_all-Shows}
use go_gedung_peristiwa.Gtfs.Regions.{MapRegion, region_by_id}
use go_gedung_peristiwa.Text.{Text}
use go_gedung_peristiwa.Time.{Time, Duration}
use go_gedung_peristiwa.Prelude.Int.{ℤ}
use go_gedung_peristiwa.Web.Views.{VehicleView, replay_views}
use go_gedung_peristiwa.Web.Playback.{
  Connection, ReplayEvent, starting, done, vehicles, playing, error, events, playback, frame_events,
  last_event, writes, stream_replay, with_times, at_least_one,
}

module _ {Failure : Type 0} where
  -- The positions of each frame and its progress.
  abbrev pub shown : List Frame → List (ReplayEvent Failure)
  shown [] = []
  shown (f ∷ fs) = vehicles (replay_views f.positions) ∷ playing f.frame f.total f.at ∷ shown fs

  -- How the stream says that the replay is over.
  abbrev pub closing : (Failure → Bool) → Option (ReplayError Failure) → List (ReplayEvent Failure)
  closing is_silent none = done ∷ []
  closing is_silent (some unknown_region) = error unknown_region ∷ []
  closing is_silent (some (refresh_failed e)) =
      if is_silent e then [] else error (refresh_failed e) ∷ []
  closing is_silent (some (feed_failed e)) = if is_silent e then [] else error (feed_failed e) ∷ []
  closing is_silent (some (stopped e)) = if is_silent e then [] else error (stopped e) ∷ []

  module _ (conn : Connection Failure) (writable : (k : ℕ) → conn.write k ≡ none) where
    frame_events-shown : (i : ℕ) (frames : List Frame) → frame_events conn i frames ≡ shown frames
    unfolding frame_events
    frame_events-shown i [] = refl
    frame_events-shown i (f ∷ fs) =
        ground (arith, writable (1 + 2 * i), writable (2 + 2 * i), frame_events-shown (i + 1) fs)

    last_event-closing :
        (is_silent : Failure → Bool) (k : ℕ) (failed : Option (ReplayError Failure))
        → last_event conn is_silent k failed ≡ closing is_silent failed
    unfolding last_event
    last_event-closing is_silent k none = ground (arith, writable k)
    last_event-closing is_silent k (some unknown_region) = ground (arith, writable k)
    last_event-closing is_silent k (some (refresh_failed e)) = ground (arith, writable k)
    last_event-closing is_silent k (some (feed_failed e)) = ground (arith, writable k)
    last_event-closing is_silent k (some (stopped e)) = ground (arith, writable k)

    -- Where every event can be written, the frames that reached the callback are shown.
    stream_replay-shown :
        {Value Handle Cursor : Type 0} (parse : Value → Option VehiclePosition)
        (refresh : Handle → Option Failure) (feed : Handle → ChangeDb Cursor Value Failure)
        (is_silent : Failure → Bool) (fuel : ℕ) (handles : Assoc Handle) (opts : ReplayOptions)
        (frames : List Frame) (failed : Option (ReplayError Failure))
        → run_replay parse opts refresh feed (playback conn) fuel handles ≡ some (frames, failed)
        → stream_replay parse refresh feed is_silent conn fuel handles opts
          ≡ some (events (starting ∷ shown frames ++ closing is_silent failed))
    unfolding stream_replay
    stream_replay-shown parse refresh feed is_silent fuel handles opts frames failed r = ground (
      arith,
      writable 0,
      r,
      frame_events-shown 0 frames,
      last_event-closing is_silent (writes conn 0 frames) failed,
    )

-- What the map shows: the positions of each `vehicles` event, at the time of the `playing` event
-- that follows it.
abbrev pub screens :
    {Failure : Type 0}
    → Option (List VehicleView)
    → List (ReplayEvent Failure)
    → List (Time × List VehicleView)
screens pending [] = []
screens pending (vehicles v ∷ es) = screens (some v) es
screens none (playing frame total at ∷ es) = screens none es
screens (some v) (playing frame total at ∷ es) = (at, v) ∷ screens none es
screens pending (starting ∷ es) = screens none es
screens pending (done ∷ es) = screens none es
screens pending (error e ∷ es) = screens none es

abbrev pub viewed : List Shown → List (Time × List VehicleView)
viewed = map (λ s. (s.0, replay_views s.1))

screens-shown :
    (Failure : Type 0) (frames : List Frame)
    → screens {Failure = Failure} none (shown frames ++ done ∷ []) ≡ viewed (shown_of frames)
screens-shown Failure [] = refl
screens-shown Failure (f ∷ fs) =
    ap (λ l. (f.at, replay_views f.positions) ∷ l) (screens-shown Failure fs)

-- Nothing disturbs the stream.
pub record IsCalm {Failure : Type 0} (conn : Connection Failure) : Type 0 where
  pub writable : (k : ℕ) → conn.write k ≡ none
  pub going : (i : ℕ) → conn.cancelled i ≡ none
  pub slept : (i : ℕ) (d : Duration) → conn.sleep i d ≡ none

playback-IsSmooth :
    {Failure : Type 0} (conn : Connection Failure) → IsCalm conn → IsSmooth (playback conn)
playback-IsSmooth conn calm = record {
  going = calm.going;
  taken = λ i. ground (arith, calm.writable (1 + 2 * i), calm.writable (2 + 2 * i));
  slept = calm.slept;
}

module _ {Value Failure Handle Cursor : Type 0} (parse : Value → Option VehiclePosition)
    (refresh : Handle → Option Failure) (feed : Handle → ChangeDb Cursor Value Failure)
    (is_silent : Failure → Bool) (conn : Connection Failure) (calm : IsCalm conn) where
  run_replay-show_all :
      (fuel : ℕ) (handles : Assoc Handle) (opts : ReplayOptions) (bs : List Bucket) (r : MapRegion)
      → region_by_id opts.region_id ≡ ok r
      → build_replay_frames parse opts refresh feed fuel handles ≡ some (ok bs)
      → (frames : List Frame) × (run_replay parse opts refresh feed (playback conn) fuel handles
          ≡ some (frames, none))
        × (shown_of frames ≡ drop_before opts.from (show_all r.agencies bs []))
  unfolding run_replay show_all
  run_replay-show_all fuel handles opts [] r known built = ([], rw (run_replay, built) refl, refl)
  run_replay-show_all fuel handles opts (b ∷ bs) r known built =
      let (played, fine) =
        run_frames-show_all r.agencies (playback conn) opts (b ∷ bs)
          (playback-IsSmooth conn calm) in
      let frames = (run_frames (playback conn) r.agencies opts (b ∷ bs)).0 in
      (frames, rw (run_replay, built, known) (ap (λ e. some (frames, e)) fine), played)

  -- On a request for a region of the catalogue with times that are valid or not given, where
  -- nothing disturbs the stream and the feeds of the region can be read into frames: the handler
  -- answers with events that show the frames from the resume point on, each once and in order, at
  -- its time and with the vehicles of the region as the mutations up to it left them: each vehicle
  -- once, at its position in the last of its mutations, those before the resume point included.
  -- The last event says that the replay is done.
  pub with_times-Shows :
      (fuel : ℕ) (handles : Assoc Handle) (id : Text) (speed : ℤ) (from to : Time)
      (bs : List Bucket) (r : MapRegion)
      → region_by_id id ≡ ok r
      → build_replay_frames parse
          (record { region_id = id; speed = at_least_one speed; from = from; to = to })
          refresh
          feed
          fuel
          handles
        ≡ some (ok bs)
      → (es : List (ReplayEvent Failure)) × ((all : List Shown) × (with_times parse refresh feed
              is_silent conn fuel handles id speed
              (some from)
              (some to)
            ≡ some (events (es ++ done ∷ [])))
          × Shows r.agencies [] bs all
          × (screens none (es ++ done ∷ []) ≡ viewed (drop_before from all)))
  unfolding with_times
  with_times-Shows fuel handles id speed from to bs r known built =
      let opts : ReplayOptions = record {
        region_id = id;
        speed = at_least_one speed;
        from = from;
        to = to;
      } in
      let (frames, ran, played) = run_replay-show_all fuel handles opts bs r known built in
      (
        starting ∷ shown frames,
        (
          show_all r.agencies bs [],
          stream_replay-shown conn calm.writable parse refresh feed is_silent fuel handles opts
              frames none ran,
          show_all-Shows r.agencies bs,
          screens-shown Failure frames ∙ ap viewed played,
        ),
      )
