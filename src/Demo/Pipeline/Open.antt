-- ===== src/Demo/Pipeline/Open.antt =====
-- NewPipeline, hydrateFromSnapshot, ScanLatest and Close of internal/demo/pipeline.go. What opening
-- a prefix, its iterators and its Close return is a parameter; an iterator gives each key with its
-- value as ParseVehiclePosition decodes it. Agencies are listed as they are opened and closed.
pub mod Hydrated
pub mod Latest
pub mod Merged
pub mod Newest
use go_gedung_peristiwa.Prelude.{
  ℕ, List, [], ◌∷◌, ◌++◌, Option, none, some, Bool, true, false, Result, ok, err, map,
}
use go_gedung_peristiwa.Text.{Text}
use go_gedung_peristiwa.Assoc.{Assoc, lookup, insert}
use go_gedung_peristiwa.Gtfs.Feeds.{Feed}
use go_gedung_peristiwa.Gtfs.Position.{VehiclePosition, vehicle_id_from_key}
use go_gedung_peristiwa.Demo.Pipeline.{Pipeline, keep_newest, vehicle_key}

abbrev pub Row : Type 0
Row = Text × Option VehiclePosition

-- The loop over an iterator in `bootstrapLatest` and in `scanLatest`.
unfoldable pub latest_rows : List Row → Assoc VehiclePosition → Assoc VehiclePosition
latest_rows [] latest = latest
latest_rows ((k, none) ∷ rows) latest = latest_rows rows latest
latest_rows ((k, some pos) ∷ rows) latest =
    latest_rows rows (keep_newest (vehicle_id_from_key k) pos latest)

-- The inner loop of `hydrateFromSnapshot` and of `ScanLatest`.
unfoldable pub merge_latest : List VehiclePosition → Assoc VehiclePosition → Assoc VehiclePosition
merge_latest [] m = m
merge_latest (pos ∷ ps) m = merge_latest ps (keep_newest (vehicle_key pos) pos m)

-- What reading a handle gives: `view` under BootstrapView, `refresh` and `rows` for a scan; the
-- error is that of opening the view or the iterator, or that of the iterator at its end.
pub record Reads (Handle Failure : Type 0) : Type 0 where
  pub view : Handle → Result Failure (List Row)
  pub refresh : Handle → Option Failure
  pub rows : Handle → Result Failure (List Row)

abbrev pub values : Assoc VehiclePosition → List VehiclePosition
values = map (λ e. e.1)

module _ {Handle Failure : Type 0} (reads : Reads Handle Failure) where
  unfoldable pub bootstrap_latest : Handle → Result Failure (Assoc VehiclePosition)
  unfolding latest_rows
  bootstrap_latest aw = elim (reads.view aw) [ err e ↦ err e | ok rows ↦ ok (latest_rows rows []) ]

  -- The agencies that are left, with `vehicleSeen`: it stays as far as the loop came on an error.
  unfoldable pub hydrate_agencies :
      Assoc Handle → Assoc VehiclePosition → Assoc VehiclePosition × Option Failure
  unfolding bootstrap_latest merge_latest
  hydrate_agencies [] seen = (seen, none)
  hydrate_agencies ((id, aw) ∷ rest) seen = elim (bootstrap_latest aw) [
    | err e ↦ (seen, some e)
    | ok latest ↦ hydrate_agencies rest (merge_latest (values latest) seen)
  ]

  unfoldable pub hydrate_from_snapshot : Pipeline Handle → Pipeline Handle × Option Failure
  unfolding hydrate_agencies
  hydrate_from_snapshot p =
      let (seen, failed) = hydrate_agencies p.agencies p.vehicle_seen in
      (record p { vehicle_seen = seen }, failed)

  unfoldable pub scan_agency : Handle → Result Failure (List VehiclePosition)
  unfolding latest_rows
  scan_agency aw = elim (reads.refresh aw) [
    | some e ↦ err e
    | none ↦ elim (reads.rows aw) [ err e ↦ err e | ok rows ↦ ok (values (latest_rows rows [])) ]
  ]

  unfoldable pub scan_agencies :
      Assoc Handle → Assoc VehiclePosition → Result Failure (Assoc VehiclePosition)
  unfolding scan_agency merge_latest
  scan_agencies [] latest = ok latest
  scan_agencies ((id, aw) ∷ rest) latest = elim (scan_agency aw) [
    | err e ↦ err e
    | ok positions ↦ scan_agencies rest (merge_latest positions latest)
  ]

  unfoldable pub scan_latest : Pipeline Handle → Result Failure (List VehiclePosition)
  unfolding scan_agencies
  scan_latest p = elim (scan_agencies p.agencies []) [ err e ↦ err e | ok m ↦ ok (values m) ]

-- `Close`: every writer is closed, the first error stays.
unfoldable pub close_all :
    {Handle Failure : Type 0}
    → (Handle → Option Failure)
    → Assoc Handle
    → Option Failure
    → List Text × Option Failure
close_all close [] first = ([], first)
close_all close ((id, aw) ∷ rest) first =
    let next : Option _ = elim first [ some e ↦ some e | none ↦ close aw ] in
    let (ids, e) = close_all close rest next in (id ∷ ids, e)

-- What opening all agencies did.
pub record Opened (Handle Failure : Type 0) : Type 0 where
  pub opened : List Text
  pub closed : List Text
  pub result : Result Failure (Pipeline Handle)

module _ {Handle Failure : Type 0} (open_agency : Text → Result Failure Handle)
    (close : Handle → Option Failure) (reads : Reads Handle Failure) where
  unfoldable pub open_feeds : List Feed → List Text → Pipeline Handle → Opened Handle Failure
  unfolding close_all hydrate_from_snapshot
  open_feeds [] opened p =
      let (p', failed) = hydrate_from_snapshot reads p in
      elim failed [
        | some e ↦ record {
          opened = opened;
          closed = (close_all close p'.agencies none).0;
          result = err e;
        }
        | none ↦ record { opened = opened; closed = []; result = ok p' }
      ]
  open_feeds (feed ∷ feeds) opened p = elim (open_agency feed.agency) [
    | err e ↦ record {
      opened = opened;
      closed = (close_all close p.agencies none).0;
      result = err e;
    }
    | ok aw ↦
        open_feeds feeds (opened ++ feed.agency ∷ [])
          (record p { agencies = insert feed.agency aw p.agencies })
  ]

  unfoldable pub empty_pipeline : Pipeline Handle
  empty_pipeline = record {
    agencies = [];
    event_count = 0;
    last_poll = 0;
    vehicle_seen = [];
    ingest_buf = [];
    last_polled = [];
  }

  unfoldable pub new_pipeline : List Feed → Opened Handle Failure
  unfolding open_feeds empty_pipeline
  new_pipeline feeds = open_feeds feeds [] empty_pipeline
