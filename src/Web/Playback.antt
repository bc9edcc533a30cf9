-- ===== src/Web/Playback.antt =====
-- handleReplayStream of internal/web/demo/replay.go, over RunReplay of the live pipeline. What
-- strconv.Atoi and time.Parse make of the query, which writes fail and what ends the context are
-- parameters. The times of an event are instants, where the code prints them.
pub mod Complete
use go_gedung_peristiwa.Prelude.{
  ℕ, ◌+◌, ◌*◌, List, [], ◌∷◌, ◌++◌, Option, none, some, Bool, true, false, if◌then◌else◌, leb,
}
use go_gedung_peristiwa.Prelude.Int.{ℤ, pos, to_nat}
use go_gedung_peristiwa.Text.{Text, is_empty}
use go_gedung_peristiwa.Assoc.{Assoc}
use go_gedung_peristiwa.Time.{Time, Duration}
use go_gedung_peristiwa.Gtfs.Position.{VehiclePosition}
use go_gedung_peristiwa.Pipeline.Changefeed.{ChangeDb}
use go_gedung_peristiwa.Demo.Session.Store.{Json, SessionStore, Faults}
use go_gedung_peristiwa.Demo.Session.Methods.{region}
use go_gedung_peristiwa.Demo.Replay.{
  ReplayOptions, ReplayError, unknown_region, refresh_failed, feed_failed, stopped, Playback, Frame,
  run_replay,
}
use go_gedung_peristiwa.Web.Views.{VehicleView, replay_views}

-- A time of the query: not given, not a time, or a time.
pub data Bound : Type 0 where
  absent invalid : Bound
  given : Time → Bound

-- A query without a region has the empty text, and `speed` is what Atoi returns, its error ignored.
pub record Query : Type 0 where
  pub region : Text
  pub speed : ℤ
  pub from : Bound
  pub to : Bound

pub data ReplayEvent (Failure : Type 0) : Type 0 where
  starting done : ReplayEvent Failure
  vehicles : List VehicleView → ReplayEvent Failure
  playing : ℕ → ℕ → Time → ReplayEvent Failure
  error : ReplayError Failure → ReplayEvent Failure

pub data Answer (Failure : Type 0) : Type 0 where
  failure : ℕ → Answer Failure
  events : List (ReplayEvent Failure) → Answer Failure

-- What the writes of the stream return, counted from 0, and what the context and the timers do
-- to the playback.
pub record Connection (Failure : Type 0) : Type 0 where
  pub write : ℕ → Option Failure
  pub cancelled : ℕ → Option Failure
  pub sleep : ℕ → Duration → Option Failure

abbrev pub time_of : Bound → Option Time
time_of absent = some 0
time_of invalid = none
time_of (given t) = some t

abbrev pub at_least_one : ℤ → ℤ
at_least_one speed = if leb (to_nat speed) 0 then pos 1 else speed

module _ {Failure : Type 0} (conn : Connection Failure) where
  -- The two writes of the callback at the i-th frame.
  abbrev pub on_frame : ℕ → Option Failure
  on_frame i = elim (conn.write (1 + 2 * i)) [ some e ↦ some e | none ↦ conn.write (2 + 2 * i) ]

  abbrev pub playback : Playback Failure
  playback = record { cancelled = conn.cancelled; on_frame = on_frame; sleep = conn.sleep }

  abbrev pub written : ℕ → ReplayEvent Failure → List (ReplayEvent Failure)
  written k e = elim (conn.write k) [ some _ ↦ [] | none ↦ e ∷ [] ]

  -- What the callback writes of the frames that reach it.
  unfoldable pub frame_events : ℕ → List Frame → List (ReplayEvent Failure)
  frame_events i [] = []
  frame_events i (f ∷ fs) = elim (conn.write (1 + 2 * i)) [
    | some _ ↦ []
    | none ↦
        vehicles (replay_views f.positions) ∷ written (2 + 2 * i) (playing f.frame f.total f.at)
        ++ frame_events (i + 1) fs
  ]

  -- The number of writes that the callback and the first event have made.
  unfoldable pub writes : ℕ → List Frame → ℕ
  writes i [] = 1 + 2 * i
  writes i (f ∷ fs) = elim (conn.write (1 + 2 * i)) [
    | some _ ↦ 2 + 2 * i
    | none ↦ writes (i + 1) fs
  ]

  -- What the handler writes after RunReplay has returned, with the number of writes so far.
  unfoldable pub last_event :
      (Failure → Bool) → ℕ → Option (ReplayError Failure) → List (ReplayEvent Failure)
  last_event is_silent k none = written k done
  last_event is_silent k (some unknown_region) = written k (error unknown_region)
  last_event is_silent k (some (refresh_failed e)) =
      if is_silent e then [] else written k (error (refresh_failed e))
  last_event is_silent k (some (feed_failed e)) =
      if is_silent e then [] else written k (error (feed_failed e))
  last_event is_silent k (some (stopped e)) =
      if is_silent e then [] else written k (error (stopped e))

module _ {Value Failure Handle Cursor : Type 0} (parse : Value → Option VehiclePosition)
    (refresh : Handle → Option Failure) (feed : Handle → ChangeDb Cursor Value Failure)
    (is_silent : Failure → Bool) (conn : Connection Failure) where
  -- From the options on; `none` is fuel that ran out.
  unfoldable pub stream_replay : ℕ → Assoc Handle → ReplayOptions → Option (Answer Failure)
  unfolding frame_events writes last_event run_replay
  stream_replay fuel handles opts = elim (conn.write 0) [
    | some _ ↦ some (events [])
    | none ↦ elim (run_replay parse opts refresh feed (playback conn) fuel handles) [
      | none ↦ none
      | some (frames, failed) ↦ some (
          events (
            starting ∷ frame_events conn 0 frames
            ++ last_event conn is_silent (writes conn 0 frames) failed))
    ]
  ]

  unfoldable pub with_times :
      ℕ → Assoc Handle → Text → ℤ → Option Time → Option Time → Option (Answer Failure)
  unfolding stream_replay
  with_times fuel handles id speed none to = some (failure 400)
  with_times fuel handles id speed (some from) none = some (failure 400)
  with_times fuel handles id speed (some from) (some to) =
      stream_replay fuel handles
        (record { region_id = id; speed = at_least_one speed; from = from; to = to })

  -- `replay` is `none` where the server has no source of replays.
  unfoldable pub handle_replay_stream :
      {Raw : Type 0}
      → Json Raw
      → Text
      → ℕ
      → Option (Assoc Handle)
      → Faults
      → Time
      → Query
      → SessionStore Raw
      → SessionStore Raw × Option (Answer Failure)
  unfolding with_times
  handle_replay_stream json sid fuel none io now q s = (s, some (failure 503))
  handle_replay_stream json sid fuel (some handles) io now q s =
      let (s1, id) = if is_empty q.region then region json io now sid s else (s, q.region) in
      (s1, with_times fuel handles id q.speed (time_of q.from) (time_of q.to))
