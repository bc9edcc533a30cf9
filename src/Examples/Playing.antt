-- ===== src/Examples/Playing.antt =====
-- A replay of Johor with one position in its feed.
use go_gedung_peristiwa.Prelude.{
  ℕ, ◌≡◌, refl, List, [], ◌∷◌, none, some, true, false, ok, ℕ_discrete, ◌++◌,
}
use go_gedung_peristiwa.Prelude.Int.{pos}
use go_gedung_peristiwa.Text.{codes, text_dec}
use go_gedung_peristiwa.Assoc.{Assoc, lookup, insert}
use go_gedung_peristiwa.Pipeline.Changefeed.{ChangeDb, drain_change_feed, drain_pages, apply_page}
use go_gedung_peristiwa.Gtfs.Position.{VehiclePosition}
use go_gedung_peristiwa.Gtfs.Regions.{MapRegion, region_by_id, find_region, map_regions, contains}
use go_gedung_peristiwa.Demo.Replay.{
  ReplayOptions, Bucket, build_replay_frames, gather, collect, bucket_frames, bucket_loop,
  close_bucket, no_bucket, mutation_lt,
}
use go_gedung_peristiwa.Sort.{sort, insert_sorted}
use go_gedung_peristiwa.Web.Playback.{Connection, ReplayEvent, with_times, done, events}
use go_gedung_peristiwa.Web.Playback.Complete.{with_times-Shows, viewed, screens, IsCalm}
use go_gedung_peristiwa.Demo.Replay.Resumed.{Shown, drop_before}
use go_gedung_peristiwa.Demo.Replay.Shows.{Shows}
use go_gedung_peristiwa.Examples.Sessions.{johor}
use go_gedung_peristiwa.Examples.Storage.{position}

abbrev connection : Connection ℕ
connection = record { write = λ k. none; cancelled = λ i. none; sleep = λ i d. none }

abbrev feed : ChangeDb ℕ VehiclePosition ℕ
feed = record {
  open_fails = none;
  oldest = ok (some 0);
  read = λ cursor. ok (record {
    changes = record { is_put = true; key = codes "mybas-johor:7:20"; value = position 20 } ∷ [];
    next = 1;
    caught_up = true;
  });
}

abbrev handles : Assoc ℕ
handles = (codes "mybas-johor", 0) ∷ []

abbrev options : ReplayOptions
options = record { region_id = johor; speed = pos 1; from = 0; to = 0 }

connection-IsCalm : IsCalm connection
connection-IsCalm = record { writable = λ k. refl; going = λ i. refl; slept = λ i d. refl }

abbrev region : MapRegion
region = record {
  id = johor;
  label = codes "Johor";
  center = (1490, 103740);
  zoom = 11;
  agencies = codes "mybas-johor" ∷ [];
}

abbrev buckets : List Bucket
buckets = record { at = 0; mutations = record { at = 0; pos = position 20 } ∷ [] } ∷ []

buckets-build_replay_frames :
    build_replay_frames (λ v. some v) options (λ h. none) (λ h. feed) 1 handles ≡ some (ok buckets)
unfolding build_replay_frames gather collect drain_change_feed drain_pages apply_page lookup insert
    text_dec ℕ_discrete region_by_id find_region bucket_frames bucket_loop close_bucket no_bucket
    sort insert_sorted mutation_lt map_regions contains
buckets-build_replay_frames = refl

with_times-Shows_example :
    (es : List (ReplayEvent ℕ)) × ((all : List Shown) × (with_times
          (λ v. some v)
          (λ h. none)
          (λ h. feed)
          (λ e. false)
          connection
          1
          handles
          johor
          (pos 1)
          (some 0)
          (some 0)
        ≡ some (events (es ++ done ∷ [])))
      × Shows (codes "mybas-johor" ∷ []) [] buckets all
      × (screens none (es ++ done ∷ []) ≡ viewed (drop_before 0 all)))
unfolding region_by_id find_region map_regions contains text_dec ℕ_discrete
with_times-Shows_example =
    with_times-Shows (λ v. some v) (λ h. none) (λ h. feed) (λ e. false) connection connection-IsCalm
      1 handles johor (pos 1) 0 0 buckets region refl buckets-build_replay_frames
