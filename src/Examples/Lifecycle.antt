-- ===== src/Examples/Lifecycle.antt =====
-- Opening, scanning, notifying and a run of the simulation at concrete inputs.
use go_gedung_peristiwa.Prelude.{
  ℕ, ◌+◌, ◌≡◌, refl, List, [], ◌∷◌, ◌++◌, Option, none, some, ok, err, true, false, if◌then◌else◌,
  arith, inl, inr, All, length, holds, ℕ_discrete, Result,
}
use go_gedung_peristiwa.Prelude.Int.{pos}
use go_gedung_peristiwa.Text.{Text, codes, text_dec, text_lt, cut}
use go_gedung_peristiwa.Time.{unix_epoch}
use go_gedung_peristiwa.Assoc.{Assoc, lookup, insert}
use go_gedung_peristiwa.Gtfs.Feeds
use go_gedung_peristiwa.Gtfs.Feeds.{base_url, agency_ids}
use go_gedung_peristiwa.Demo.Pipeline.{Pipeline, keep_newest, vehicle_key}
use go_gedung_peristiwa.Demo.Pipeline.Open.{
  Reads, Row, values, scan_latest, scan_agencies, scan_agency, hydrate_agencies, bootstrap_latest,
  latest_rows, merge_latest, hydrate_from_snapshot, new_pipeline, open_feeds, empty_pipeline,
}
use go_gedung_peristiwa.Demo.Pipeline.Open.Hydrated.{new_pipeline-closed}
use go_gedung_peristiwa.Demo.Pipeline.Open.Merged.{Stored, AreKeyed, IsNewest}
use go_gedung_peristiwa.Demo.Pipeline.Open.Newest.{hydrate_from_snapshot-scan_latest-IsNewest}
use go_gedung_peristiwa.Gtfs.Position.{VehiclePosition, vehicle_id_from_key, second_part}
use go_gedung_peristiwa.Text.{split_n}
use go_gedung_peristiwa.Demo.Pipeline.Notify.{
  Hub, unsubscribe, copy_subs, send_all, notify_poll, has,
}
use go_gedung_peristiwa.Demo.Pipeline.Notify.Delivered.{
  notify_poll-delivers, copy_subs-unsubscribe-panics,
}
use go_gedung_peristiwa.Demo.Replay.{ReplayOptions, Bucket, Playback, run_frames}
use go_gedung_peristiwa.Demo.Replay.Resumed.{
  IsSmooth, shown_of, drop_before, run_frames-drop_before,
}
use go_gedung_peristiwa.Model.{Emission, expected_keys, tenant_from_key, tenant_part}
use go_gedung_peristiwa.Sort.{sort, insert_sorted}
use go_gedung_peristiwa.Model
use go_gedung_peristiwa.Eventgen.{Draw, GenError}
use go_gedung_peristiwa.Pipeline.Verify.{
  Tenants, verify, verify_tenants, verify_tenant, group_keys_by_tenant, compare_keys, group_keys,
  has_retry, keys_of, sort_groups, verify_key_order, verify_key_set,
}
use go_gedung_peristiwa.Pipeline.Tenant.{
  TenantStore, all_tenant_ids, open_tenants, write_emissions, write_emissions_from,
  flush_all_tenants, count_keys, compact_all, count_keys_from, each_tenant, flush_tenant, put_event,
  tenant_ids,
}
use go_gedung_peristiwa.Simulation.{run_simulation, check, no_result, tenants_of, write_and_check}
use go_gedung_peristiwa.Simulation.Sound.{Verified, run_simulation-Verified}
use go_gedung_peristiwa.Examples.Storage.{running, position}

-- Each agency holds one vehicle and a value that does not decode.
abbrev rows : List Row
rows = (codes "mybas-johor:7:20", some (position 20)) ∷ (codes "mybas-johor:8:20", none) ∷ []

abbrev reads : Reads ℕ ℕ
reads = record { view = λ h. ok rows; refresh = λ h. none; rows = λ h. ok rows }

abbrev just_open : Pipeline ℕ
just_open = record running { vehicle_seen = [] }

rows-AreKeyed : AreKeyed {Failure = ℕ} (λ h. ok rows) just_open.agencies
unfolding vehicle_id_from_key second_part split_n cut
rows-AreKeyed = (((refl, refl), (tt, tt)), tt)

rows-Stored : Stored {Failure = ℕ} (λ h. ok rows) just_open.agencies (position 20)
rows-Stored =
    ((codes "mybas-johor", 0), inl refl, (rows, refl, (codes "mybas-johor:7:20", inl refl)))

hydrate_from_snapshot-scan_latest-IsNewest_example :
    IsNewest reads.view just_open.agencies
      (position 20)
      (hydrate_from_snapshot reads just_open).0.vehicle_seen
    × ((m : Assoc VehiclePosition) × (position 20 ∷ [] ≡ values m)
        × IsNewest reads.rows just_open.agencies (position 20) m)
unfolding hydrate_from_snapshot hydrate_agencies bootstrap_latest scan_latest scan_agencies
    scan_agency latest_rows merge_latest keep_newest vehicle_key lookup insert text_dec ℕ_discrete
    vehicle_id_from_key second_part split_n cut
hydrate_from_snapshot-scan_latest-IsNewest_example =
    hydrate_from_snapshot-scan_latest-IsNewest reads just_open (position 20 ∷ []) (position 20)
      (position 20) refl rows-AreKeyed rows-AreKeyed refl refl rows-Stored rows-Stored

abbrev feed_of : Text → Feeds.Feed
feed_of agency = record {
  agency = agency;
  url = base_url ++ agency;
  category = [];
  type = codes "bus";
  region = codes "Johor";
  group = codes "mybas";
  bucket_id = codes "johor";
}

abbrev two_feeds : List Feeds.Feed
two_feeds = feed_of (b'a' ∷ []) ∷ feed_of (b'b' ∷ []) ∷ []

-- The agency "b" does not open.
abbrev open_agency : Text → Result ℕ ℕ
open_agency id = if holds (text_dec id (b'b' ∷ [])) then err 5 else ok 0

new_pipeline-closed_example :
    (new_pipeline open_agency (λ h. none) reads two_feeds).closed
    ≡ (new_pipeline open_agency (λ h. none) reads two_feeds).opened
unfolding new_pipeline open_feeds empty_pipeline insert agency_ids text_dec ℕ_discrete
new_pipeline-closed_example =
    new_pipeline-closed open_agency (λ h. none) reads two_feeds 5 (λ e. ground arith, (λ e. e, tt))
      refl

-- Two subscribers; the second has a signal that it has not taken.
abbrev hub : Hub
hub = record {
  made = 2;
  poll_subs = 0 ∷ 1 ∷ [];
  closed = [];
  full = 1 ∷ [];
  outbox = [];
  panicked = false;
}

notify_poll-delivers_example :
    ((notify_poll hub).panicked ≡ false)
    × All (λ i. has i (notify_poll hub).full ≡ true) (0 ∷ 1 ∷ [])
unfolding has
notify_poll-delivers_example = notify_poll-delivers hub (refl, (refl, tt)) refl

copy_subs-unsubscribe-panics_example :
    (send_all (0 ∷ 1 ∷ []) (unsubscribe 1 (copy_subs hub))).panicked ≡ true
copy_subs-unsubscribe-panics_example = copy_subs-unsubscribe-panics hub 1 (inr (inl refl))

-- Each round draws the first tenant and the first type, and its number as identifier.
abbrev draws : ℕ → Draw
draws i = record {
  now = unix_epoch;
  done = false;
  interrupted = false;
  tenant = 0;
  event_type = 0;
  uuid = some (i ∷ []);
  duplicate = true;
  stamp = unix_epoch;
  retry_stamp = unix_epoch + 1;
}

abbrev all_known : Tenants
all_known = record {
  known = λ id. true;
  scan_keys = λ id. some [];
  change_feed_count = λ id. some 1;
}

-- A handle holds the keys that were put, without repetition.
abbrev tenant_store : TenantStore (List Text) Text ℕ
tenant_store = record {
  value_bytes = λ ev. some ev.idempotency_key;
  put = λ k v h. (h ++ k ∷ [], none);
  flush = λ h. (h, none);
  refresh = λ h. (h, none);
  compact = λ h. (h, none);
  scan_keys = λ h. ok h;
  close = λ h. none;
}

abbrev event : Model.Event
event = record {
  tenant_id = codes "tenant-alpha";
  event_type = codes "transaction";
  timestamp = unix_epoch;
  idempotency_key = b'0' ∷ [];
  retry = false;
}

abbrev one_emission : List Emission
one_emission = record { event = event; retry = false; unique = true } ∷ []

abbrev no_error : Option GenError
no_error = none

run_simulation-Verified_example :
    (no_error ≡ none)
    × ((opened : Assoc (List Text)) × (open_tenants tenant_store (λ id. ok []) all_tenant_ids []
          ≡ ok opened)
        × Verified tenant_store
            (λ h. some (length h))
            one_emission
            opened
            (run_simulation tenant_store
              (λ h. some (length h))
              (λ id. ok [])
              (one_emission, no_error)))
unfolding run_simulation open_tenants write_emissions write_emissions_from lookup insert text_dec
    ℕ_discrete flush_all_tenants count_keys compact_all verify verify_tenants group_keys_by_tenant
    expected_keys verify_tenant tenant_from_key cut Model.key tenant_part count_keys_from
    each_tenant flush_tenant put_event tenant_ids compare_keys group_keys has_retry keys_of
    sort_groups verify_key_order verify_key_set check no_result tenants_of write_and_check
    insert_sorted sort text_lt
run_simulation-Verified_example =
    run_simulation-Verified tenant_store (λ h. some (length h)) one_emission (λ id. ok []) no_error
      refl

-- A replay of two frames from the second one on.
abbrev smooth : Playback ℕ
smooth = record { cancelled = λ i. none; on_frame = λ i. none; sleep = λ i d. none }

smooth-IsSmooth : IsSmooth smooth
smooth-IsSmooth = record { going = λ i. refl; taken = λ i. refl; slept = λ i d. refl }

abbrev options : ReplayOptions
options = record { region_id = codes "johor"; speed = pos 2; from = 25; to = 0 }

abbrev buckets : List Bucket
buckets =
    record { at = 20; mutations = record { at = 20; pos = position 20 } ∷ [] }
    ∷ record { at = 30; mutations = record { at = 30; pos = position 30 } ∷ [] }
    ∷ []

run_frames-drop_before_example :
    let (resumed, failed) = run_frames smooth (codes "mybas-johor" ∷ []) options buckets in
    let (full, _) =
      run_frames smooth (codes "mybas-johor" ∷ []) (record options { from = 0 }) buckets in
    (shown_of resumed ≡ drop_before 25 (shown_of full)) × (failed ≡ none)
run_frames-drop_before_example =
    run_frames-drop_before (codes "mybas-johor" ∷ []) smooth smooth options buckets smooth-IsSmooth
      smooth-IsSmooth
