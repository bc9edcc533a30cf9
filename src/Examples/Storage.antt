-- ===== src/Examples/Storage.antt =====
-- Writing, reading back and closing at concrete inputs: a handle counts the puts that it took.
use go_gedung_peristiwa.Prelude.{
  Result, ℕ, ◌+◌, ◌≡◌, refl, List, [], ◌∷◌, Option, none, some, ok, true, false, arith, ◌↔◌, ◌==◌,
  if◌then◌else◌,
}
use go_gedung_peristiwa.Prelude.Int.{pos}
use go_gedung_peristiwa.Text.{Text, codes}
use go_gedung_peristiwa.Gtfs.Position.{VehiclePosition}
use go_gedung_peristiwa.Demo.Pipeline.{Pipeline, Storage, write, ingest_record}
use go_gedung_peristiwa.Demo.Pipeline.Write.{Wrote, write-Wrote}
use go_gedung_peristiwa.Demo.Snapshots.{RegionCatalog}
use go_gedung_peristiwa.Time.{unix_epoch}
use go_gedung_peristiwa.Demo.Health.{
  Outcome, success, failure, healthz, report_all, new_write_health,
}
use go_gedung_peristiwa.Demo.Health.Laws.{EndsFailing, healthz-EndsFailing}
use go_gedung_peristiwa.Demo.Replay.{Mutation, mutation_lt, bucket_frames}
use go_gedung_peristiwa.Demo.Replay.Frames.{mutations_of, bucket_frames-mutations}
use go_gedung_peristiwa.Sort.{sort}
use go_gedung_peristiwa.Pipeline.Db.{
  memory, OpenFaults, CloseFaults, PrefixDb, open_prefix_db, open_isle_db, open_handles,
}
use go_gedung_peristiwa.Pipeline.Db.Laws.{held_after, open_prefix_db_failed}
use go_gedung_peristiwa.Pipeline.Changefeed.{
  ChangeFeedSummary, Change, Page, ChangeDb, apply_page, drain_change_feed,
}
use go_gedung_peristiwa.Pipeline.Changefeed.Laws.{Readable, changes_of, drain_change_feed-apply}

abbrev pub position : ℕ → VehiclePosition
position at = record {
  agency = codes "mybas-johor";
  vehicle_id = b'7' ∷ [];
  lat = 0;
  lng = 0;
  bearing = 0;
  speed = 0;
  route = [];
  trip = [];
  timestamp = at;
}

-- The second put fails.
abbrev pub storage : Storage ℕ Text ℕ
storage = record {
  value_bytes = λ v. some v.vehicle_id;
  put = λ k v h. (h + 1, if h == 1 then some 5 else none);
  flush = λ h. (h, none);
  refresh = λ h. (h, none);
}

abbrev pub running : Pipeline ℕ
running = record {
  agencies = (codes "mybas-johor", 0) ∷ [];
  event_count = 0;
  last_poll = 0;
  vehicle_seen = (codes "mybas-johor:7", position 20) ∷ [];
  ingest_buf = ingest_record (position 20) ∷ [];
  last_polled = [];
}

abbrev pub two_positions : List VehiclePosition
two_positions = position 30 ∷ position 25 ∷ []

write-Wrote_example : Wrote storage two_positions 0 running (write storage two_positions running)
write-Wrote_example = write-Wrote storage two_positions running

abbrev agencies : List Text
agencies = codes "mybas-johor" ∷ []

abbrev outcomes : List (Outcome ℕ)
outcomes = success ∷ failure 5 ∷ failure 5 ∷ []

healthz-EndsFailing_example :
    ((healthz (report_all outcomes (new_write_health (pos 2)))).0 ≡ 503)
    ↔ EndsFailing (new_write_health {E = ℕ} (pos 2)).threshold outcomes
healthz-EndsFailing_example = healthz-EndsFailing (pos 2) outcomes

abbrev mutations : List Mutation
mutations =
    record { at = 30; pos = position 30 }
    ∷ record { at = 20; pos = position 20 }
    ∷ record { at = 30; pos = position 30 }
    ∷ []

bucket_frames-mutations_example :
    mutations_of (bucket_frames mutations) ≡ sort mutation_lt mutations
bucket_frames-mutations_example = bucket_frames-mutations mutations

-- Everything opens.
abbrev no_faults : OpenFaults
no_faults = record {
  ensure_bucket = false;
  open_db = false;
  mkdir = false;
  open_writer = false;
  open_reader = false;
  open_maintenance = false;
}

abbrev no_reader : OpenFaults
no_reader = record no_faults { open_reader = true }

open_prefix_db_failed_example : held_after (open_prefix_db memory no_reader false).effects [] ≡ []
unfolding open_prefix_db open_isle_db open_handles
open_prefix_db_failed_example = open_prefix_db_failed memory no_reader false _ refl

-- The writer does not close.
abbrev stuck_writer : CloseFaults ℕ
stuck_writer = record {
  flush = none;
  close_maintenance = none;
  close_writer = some 5;
  close_reader = none;
  close_db = none;
  close_bucket = none;
}

abbrev in_memory : PrefixDb
in_memory = record { has_bucket = true; has_maint_cancel = true }

-- Two pages of one put each.
abbrev change : Change ℕ
change = record { is_put = true; key = codes "mybas-johor:7:30"; value = 30 }

abbrev pages : List (Page ℕ ℕ)
pages =
    record { changes = change ∷ []; next = 1; caught_up = false }
    ∷ record { changes = change ∷ []; next = 2; caught_up = true }
    ∷ []

abbrev pub feed : ChangeDb ℕ ℕ ℕ
feed = record {
  open_fails = none;
  oldest = ok (some 0);
  read =
      λ cursor. ok (record { changes = change ∷ []; next = cursor + 1; caught_up = cursor == 1 });
}

feed-Readable : Readable feed pages
feed-Readable = record {
  start = 0;
  opens = refl;
  bounds = refl;
  feeds = (refl, refl, (refl, refl));
}

-- A callback that adds up the values and refuses to pass 50.
abbrev add_up : Change ℕ → ℕ → ℕ × Option ℕ
add_up ch n = (n + ch.value, if n == 30 then some 5 else none)

drain_change_feed-apply_example :
    drain_change_feed feed add_up 2 0 ≡ some (apply_page add_up (changes_of pages) 0 0)
drain_change_feed-apply_example =
    drain_change_feed-apply feed add_up pages 2 0 feed-Readable (omega arith)

abbrev stuck_reader : CloseFaults ℕ
stuck_reader = record stuck_writer { close_reader = some 5 }

-- The feed of Johor has three changes.
abbrev summary : ℕ → Result ℕ ChangeFeedSummary
summary aw = ok (record { change_count = 3; from = 20; to = 30; empty = false })

abbrev johor_catalog : RegionCatalog
johor_catalog = record {
  region_id = codes "johor";
  label = codes "Johor";
  empty = false;
  total = 3;
  agencies =
      record {
        agency = codes "mybas-johor";
        count = 3;
        entries =
            record {
              agency = codes "mybas-johor";
              change_count = 3;
              from = unix_epoch + 20;
              to = unix_epoch + 30;
            }
            ∷ [];
      }
      ∷ [];
}
