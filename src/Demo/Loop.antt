-- ===== src/Demo/Loop.antt =====
-- The poll loop of cmd/demo/main.go. The parts of a round that the process does not decide (the
-- clock, the answers of the feeds, the context) are a `Round`; the writer's terminal errors
-- (isledb.ErrWriterFailed, ErrWriterClosed) are a test. What was fetched is noted beside the state.
pub mod Planned
pub mod Spaced
use go_gedung_peristiwa.Prelude.{
  ℕ, ◌+◌, List, [], ◌∷◌, ◌++◌, Option, none, some, Bool, true, false, if◌then◌else◌, Result, ok,
  err, ◌||◌,
}
use go_gedung_peristiwa.Prelude.Int.{ℤ}
use go_gedung_peristiwa.Text.{Text}
use go_gedung_peristiwa.Time.{Time}
use go_gedung_peristiwa.Gtfs.Feeds.{Feed, agency_ids}
use go_gedung_peristiwa.Gtfs.Regions.{RegionError}
use go_gedung_peristiwa.Gtfs.Position.{VehiclePosition}
use go_gedung_peristiwa.Gtfs.Poller.{PollResult, poll_sequential}
use go_gedung_peristiwa.Demo.Session.Store.{Json, Faults, SessionStore}
use go_gedung_peristiwa.Demo.Session.History
use go_gedung_peristiwa.Demo.Poll.{
  Coordinator, new_poll_coordinator, mark_polled, feeds_for_scheduled_poll, feeds_for_region_switch,
}
use go_gedung_peristiwa.Demo.Health.{WriteHealth, new_write_health, record_success, record_failure}
use go_gedung_peristiwa.Demo.Pipeline.{
  Pipeline, Storage, WriteError, put_failed, write, flush_all, set_last_poll,
  set_last_polled_agencies,
}

pub data LoopError (Failure : Type 0) : Type 0 where
  write_failed : WriteError Failure → LoopError Failure
  flush_failed : Failure → LoopError Failure

-- `stopped` is a cancelled context; `notified` counts the calls of NotifyPoll.
pub record Service (Raw Handle Failure : Type 0) : Type 0 where
  pub coordinator : Coordinator Raw
  pub pipe : Pipeline Handle
  pub health : WriteHealth (LoopError Failure)
  pub stopped : Bool
  pub notified : ℕ

-- One round: the clocks of the plan, the context before each feed and after all of them, what a
-- feed gives, and the clock at the end.
pub record Round (Failure : Type 0) : Type 0 where
  pub io : Faults
  pub clock : Time
  pub now : Time
  pub cancelled : ℕ → Option Failure
  pub poll : ℕ → Feed → PollResult Failure
  pub done : Bool
  pub finished : Time

-- The regions whose feeds were fetched, when this was planned, and when they were marked as polled,
-- if they were.
pub record Fetch : Type 0 where
  pub regions : List Text
  pub planned : Time
  pub marked : Option Time

-- The positions of the feeds that did not fail.
unfoldable pub collect_positions :
    {Failure : Type 0} → List (PollResult Failure) → List VehiclePosition
collect_positions [] = []
collect_positions (res ∷ rest) = elim res.failed [
  | some e ↦ collect_positions rest
  | none ↦ res.positions ++ collect_positions rest
]

-- `errors.Is` sees through none of the errors that `Write` makes itself.
unfoldable pub is_writer_dead : {Failure : Type 0} → (Failure → Bool) → LoopError Failure → Bool
is_writer_dead terminal (write_failed (put_failed e)) = terminal e
is_writer_dead terminal (write_failed e) = false
is_writer_dead terminal (flush_failed e) = terminal e

module _ {Raw Handle Value Failure : Type 0} (json : Json Raw) (db : Storage Handle Value Failure)
    (terminal : Failure → Bool) where
  -- A write or a flush that failed.
  unfoldable pub give_up :
      LoopError Failure → Pipeline Handle → Service Raw Handle Failure → Service Raw Handle Failure
  unfolding is_writer_dead
  give_up e p s = record s {
    pipe = p;
    health = record_failure e s.health;
    stopped = s.stopped || is_writer_dead terminal e;
  }

  -- The end of a round that did not fail.
  unfoldable pub mark_round :
      List Text → Time → Service Raw Handle Failure → Service Raw Handle Failure
  mark_round regions at s = record s {
    pipe = set_last_poll at s.pipe;
    coordinator = mark_polled regions at s.coordinator;
  }

  unfoldable pub store_positions :
      List VehiclePosition → Pipeline Handle → Pipeline Handle × Option (LoopError Failure)
  store_positions all p =
      let (p1, puts, failed) = write db all p in
      elim failed [
        | some e ↦ (p1, some (write_failed e))
        | none ↦
            let (p2, flushed) = flush_all db p1 in
            elim flushed [ some e ↦ (p2, some (flush_failed e)) | none ↦ (p2, none) ]
      ]

  -- `runPoll` from the positions on.
  unfoldable pub finish_poll :
      List VehiclePosition
      → List Text
      → Time
      → Service Raw Handle Failure
      → Service Raw Handle Failure × Option Time
  unfolding give_up mark_round store_positions
  finish_poll [] regions at s = (mark_round regions at s, some at)
  finish_poll (pos ∷ rest) regions at s =
      let (p, failed) = store_positions (pos ∷ rest) s.pipe in
      elim failed [
        | some e ↦ (give_up e p s, none)
        | none ↦
            let done =
              mark_round regions at (record s { pipe = p; health = record_success s.health }) in
            (record done { notified = done.notified + 1 }, some at)
      ]

  unfoldable pub run_poll :
      Round Failure
      → List Feed
      → List Text
      → Service Raw Handle Failure
      → Service Raw Handle Failure × List Fetch
  unfolding finish_poll
  run_poll r [] regions s = (s, [])
  run_poll r (feed ∷ feeds) regions s =
      let polled = record s {
        pipe = set_last_polled_agencies (agency_ids (feed ∷ feeds)) s.pipe;
      } in
      let all = collect_positions (poll_sequential r.cancelled r.poll 0 (feed ∷ feeds)) in
      if r.done
      then (polled, record { regions = regions; planned = r.now; marked = none } ∷ [])
      else let (s', at) = finish_poll all regions r.finished polled in
        (s', record { regions = regions; planned = r.now; marked = at } ∷ [])

  unfoldable pub run_plan :
      Round Failure
      → Coordinator Raw × Result RegionError (List Feed × List Text)
      → Service Raw Handle Failure
      → Service Raw Handle Failure × List Fetch
  unfolding run_poll
  run_plan r (c, plan) s = elim plan [
    | err e ↦ (record s { coordinator = c }, [])
    | ok (feeds, regions) ↦ run_poll r feeds regions (record s { coordinator = c })
  ]

  unfoldable pub scheduled :
      Round Failure → Service Raw Handle Failure → Service Raw Handle Failure × List Fetch
  unfolding run_plan
  scheduled r s = run_plan r (feeds_for_scheduled_poll json r.io r.clock r.now s.coordinator) s

  unfoldable pub for_region :
      Round Failure → Text → Service Raw Handle Failure → Service Raw Handle Failure × List Fetch
  unfolding run_plan
  for_region r id s =
      run_plan r (feeds_for_region_switch json r.io r.clock r.now id s.coordinator) s

  -- The process with what it has fetched, the latest first.
  pub record Process : Type 0 where
    pub service : Service Raw Handle Failure
    pub log : List Fetch

  -- What `run` starts the loop with.
  unfoldable pub started : SessionStore Raw → ℤ → ℤ → Pipeline Handle → Process
  started store interval threshold pipe = record {
    service = record {
      coordinator = new_poll_coordinator store interval;
      pipe = pipe;
      health = new_write_health threshold;
      stopped = false;
      notified = 0;
    };
    log = [];
  }

  -- The loop takes a tick or a region from `pollNow`; between two rounds the handlers call the
  -- session store. (A call in the middle of a plan would be seen by a part of the plan only.)
  pub data Step (p : Process) : Process → Type 0 where
    ticked :
        (r : Round Failure)
        → Step p (let (s, f) = scheduled r p.service in record { service = s; log = f ++ p.log })
    switched :
        (r : Round Failure) (id : Text)
        → Step p
            (let (s, f) = for_region r id p.service in record { service = s; log = f ++ p.log })
    called :
        (e : History.Event)
        → Step p (record p {
          service = record p.service {
            coordinator = record p.service.coordinator {
              sessions = History.step json e.io e.now e.call p.service.coordinator.sessions;
            };
          };
        })

  pub data Reach (start : Process) : Process → Type 0 where
    here : Reach start start
    later : {p q : Process} → Reach start p → Step p q → Reach start q
