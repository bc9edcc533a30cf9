-- ===== src/Demo/Pipeline.antt =====
-- internal/demo/pipeline.go: the live state beside the writers of the agencies. The store library
-- (isledb) and the JSON codec of a position are parameters: `Storage` gives what one call of a
-- writer or reader returns, and the handle after it.
pub mod Write
pub mod Live
pub mod Open
pub mod Notify
use go_gedung_peristiwa.Prelude.{
  ℕ, suc, ◌+◌, List, [], ◌∷◌, ◌++◌, Option, none, some, Bool, true, false, ltb, if◌then◌else◌, ite,
  map, take, keep, length, ◌&&◌, Result, ok, err, holds,
}
use go_gedung_peristiwa.Text.{Text, codes, text_dec}
use go_gedung_peristiwa.Assoc.{Assoc, lookup, insert}
use go_gedung_peristiwa.Time.{Time, Duration, minute, sub_le}
use go_gedung_peristiwa.Gtfs.Bounds.{Float64}
use go_gedung_peristiwa.Gtfs.Regions.{contains, region_for_agency}
use go_gedung_peristiwa.Gtfs.Position.{VehiclePosition, key}

abbrev pub ingest_cap : ℕ
ingest_cap = 10

abbrev pub live_map_fresh_window : Duration
live_map_fresh_window = 300_000_000_000

abbrev pub live_map_visible_window : Duration
live_map_visible_window = 1_800_000_000_000

pub record IngestRecord : Type 0 where
  pub agency : Text
  pub bucket_id : Text
  pub bucket_label : Text
  pub vehicle_id : Text
  pub lat : Float64
  pub lng : Float64
  pub at : Time

pub record Pipeline (Handle : Type 0) : Type 0 where
  pub agencies : Assoc Handle
  pub event_count : ℕ
  pub last_poll : Time
  pub vehicle_seen : Assoc VehiclePosition
  pub ingest_buf : List IngestRecord
  pub last_polled : List Text

-- The calls of one agency's handle: the handle after the call, and the error, if any.
pub record Storage (Handle Value Failure : Type 0) : Type 0 where
  pub value_bytes : VehiclePosition → Option Value
  pub put : Text → Value → Handle → Handle × Option Failure
  pub flush : Handle → Handle × Option Failure
  pub refresh : Handle → Handle × Option Failure

pub data WriteError (Failure : Type 0) : Type 0 where
  unknown_agency : Text → WriteError Failure
  encode_failed : WriteError Failure
  put_failed : Failure → WriteError Failure

-- The key of a vehicle in `vehicleSeen`.
unfoldable pub vehicle_key : VehiclePosition → Text
vehicle_key p = p.agency ++ b':' ∷ p.vehicle_id

-- `if prev, ok := m[k]; !ok || pos.Timestamp.After(prev.Timestamp) { m[k] = pos }`
unfoldable pub keep_newest : Text → VehiclePosition → Assoc VehiclePosition → Assoc VehiclePosition
keep_newest k pos m = elim (lookup k m) [
  | none ↦ insert k pos m
  | some prev ↦ if ltb prev.timestamp pos.timestamp then insert k pos m else m
]

unfoldable pub ingest_record : VehiclePosition → IngestRecord
ingest_record pos =
    let bucket = region_for_agency pos.agency in
    record {
      agency = pos.agency;
      bucket_id = elim bucket [ none ↦ [] | some r ↦ r.id ];
      bucket_label = elim bucket [ none ↦ codes "Unknown" | some r ↦ r.label ];
      vehicle_id = pos.vehicle_id;
      lat = pos.lat;
      lng = pos.lng;
      at = pos.timestamp;
    }

-- `recordIngest` on the buffer: newest first, cut to the cap.
unfoldable pub push_ingest : IngestRecord → List IngestRecord → List IngestRecord
push_ingest rec buf =
    if ltb ingest_cap (length (rec ∷ buf)) then take ingest_cap (rec ∷ buf) else rec ∷ buf

abbrev pub is_visible : List Text → Time → VehiclePosition → Bool
is_visible agencies now pos =
    if contains pos.agency agencies then sub_le now pos.timestamp live_map_visible_window else false

-- The loop of `StatsFor`.
unfoldable pub count_visible : List Text → Time → Assoc VehiclePosition → ℕ → ℕ
count_visible agencies now [] n = n
count_visible agencies now ((k, pos) ∷ m) n = count_visible agencies now m (
    if contains pos.agency agencies
    then (if sub_le now pos.timestamp live_map_visible_window then n + 1 else n)
    else n)

-- `groups[k]` for a map to lists: the empty list for a missing key.
unfoldable pub group_of : Text → Assoc (List IngestRecord) → List IngestRecord
group_of k groups = elim (lookup k groups) [ none ↦ [] | some g ↦ g ]

unfoldable pub group_by_label :
    List IngestRecord → Assoc (List IngestRecord) → Assoc (List IngestRecord)
group_by_label [] groups = groups
group_by_label (rec ∷ recs) groups =
    group_by_label recs
      (insert rec.bucket_label (group_of rec.bucket_label groups ++ rec ∷ []) groups)

module _ {Handle : Type 0} where
  -- What a write notes of a position that was put.
  unfoldable pub note : VehiclePosition → Pipeline Handle → Pipeline Handle
  note pos p = record p {
    event_count = p.event_count + 1;
    vehicle_seen = keep_newest (vehicle_key pos) pos p.vehicle_seen;
    ingest_buf = push_ingest (ingest_record pos) p.ingest_buf;
  }

  unfoldable pub set_last_poll : Time → Pipeline Handle → Pipeline Handle
  set_last_poll t p = record p { last_poll = t }

  unfoldable pub set_last_polled_agencies : List Text → Pipeline Handle → Pipeline Handle
  set_last_polled_agencies agencies p = record p { last_polled = agencies }

  unfoldable pub last_polled_agencies : Pipeline Handle → List Text
  last_polled_agencies p = p.last_polled

  unfoldable pub latest_positions : Pipeline Handle → List VehiclePosition
  latest_positions p = map (λ e. e.1) p.vehicle_seen

  unfoldable pub stats : Pipeline Handle → ℕ × Time × ℕ
  stats p = (length p.vehicle_seen, p.last_poll, p.event_count)

  unfoldable pub latest_positions_for : List Text → Pipeline Handle → List VehiclePosition
  latest_positions_for agencies p =
      keep (λ pos. contains pos.agency agencies) (map (λ e. e.1) p.vehicle_seen)

  unfoldable pub live_positions_for : List Text → Time → Pipeline Handle → List VehiclePosition
  live_positions_for agencies now p = keep (is_visible agencies now) (map (λ e. e.1) p.vehicle_seen)

  unfoldable pub stats_for : List Text → Time → Pipeline Handle → ℕ × Time × ℕ
  unfolding count_visible
  stats_for agencies now p =
      (count_visible agencies now p.vehicle_seen 0, p.last_poll, p.event_count)

  unfoldable pub recent_ingest_for_region : Text → Pipeline Handle → List IngestRecord
  recent_ingest_for_region id p = keep (λ rec. holds (text_dec rec.bucket_id id)) p.ingest_buf

  unfoldable pub recent_ingest_grouped : Pipeline Handle → Assoc (List IngestRecord)
  unfolding group_by_label
  recent_ingest_grouped p = group_by_label p.ingest_buf []

module _ {Handle Value Failure : Type 0} (db : Storage Handle Value Failure) where
  -- The loop of `Write`, with the number of puts so far.
  unfoldable pub write_from :
      List VehiclePosition → ℕ → Pipeline Handle → Pipeline Handle × ℕ × Option (WriteError Failure)
  write_from [] puts p = (p, puts, none)
  write_from (pos ∷ rest) puts p = elim (lookup pos.agency p.agencies) [
    | none ↦ (p, puts, some (unknown_agency pos.agency))
    | some aw ↦ elim (db.value_bytes pos) [
      | none ↦ (p, puts, some encode_failed)
      | some val ↦
          let (aw', failed) = db.put (key pos) val aw in
          let p' = record p { agencies = insert pos.agency aw' p.agencies } in
          elim failed [
            | some e ↦ (p', puts, some (put_failed e))
            | none ↦ write_from rest (puts + 1) (note pos p')
          ]
    ]
  ]

  unfoldable pub write :
      List VehiclePosition → Pipeline Handle → Pipeline Handle × ℕ × Option (WriteError Failure)
  write positions p = write_from positions 0 p

  -- The loop of `FlushAll` over the agencies that are left; `done` are those before.
  unfoldable pub flush_each : Assoc Handle → Assoc Handle → Assoc Handle × Option Failure
  flush_each done [] = (done, none)
  flush_each done ((id, aw) ∷ rest) =
      let (aw1, flushed) = db.flush aw in
      elim flushed [
        | some e ↦ (done ++ (id, aw1) ∷ rest, some e)
        | none ↦
            let (aw2, refreshed) = db.refresh aw1 in
            elim refreshed [
              | some e ↦ (done ++ (id, aw2) ∷ rest, some e)
              | none ↦ flush_each (done ++ (id, aw2) ∷ []) rest
            ]
      ]

  unfoldable pub flush_all : Pipeline Handle → Pipeline Handle × Option Failure
  unfolding flush_each
  flush_all p =
      let (agencies, failed) = flush_each [] p.agencies in
      (record p { agencies = agencies }, failed)
