-- ===== src/Examples/Polling.antt =====
-- Fetching the feed of Johor, and two rounds of the poll loop, at concrete answers.
use go_gedung_peristiwa.Prelude.{
  Bool, ℕ, zero, suc, ◌<◌, ◌+◌, ◌*◌, ◌==◌, ◌≡◌, refl, List, [], ◌∷◌, none, some, ok, false,
  if◌then◌else◌, ltb, arith, inl, All, length, ◌++◌, Result,
}
use go_gedung_peristiwa.Prelude.Int.{pos, to_nat}
use go_gedung_peristiwa.Text.{codes}
use go_gedung_peristiwa.Time.{second, unix_epoch}
use go_gedung_peristiwa.Assoc.{lookup}
use go_gedung_peristiwa.Gtfs.Feeds
use go_gedung_peristiwa.Gtfs.Feeds.{base_url}
use go_gedung_peristiwa.Gtfs.Bounds.{valid_malaysia_bounds, float_le}
use go_gedung_peristiwa.Gtfs.Position.{VehiclePosition}
use go_gedung_peristiwa.Gtfs.Poller.{
  Response, Attempt, failing, settle, poll_feed, rate_limited, default_backoff, parse_feed_message,
  retry_after_duration,
}
use go_gedung_peristiwa.Gtfs.Poller.Feed.{
  Entity, parse_entities, parse_entity, entity_vehicle_id, descriptor_id,
}
use go_gedung_peristiwa.Gtfs.Poller.Retry.{
  IsLimited, Answers, poll_feed-settle, poll_feed-rate_limited, poll_feed_uncapped,
}
use go_gedung_peristiwa.Gtfs.Poller.Accept.{
  IsPlausible, count_located, parse_feed_message-IsPlausible,
}
use go_gedung_peristiwa.Demo.Loop.{
  Round, Process, started, scheduled, for_region, ticked, switched, here, later, run_poll,
}
use go_gedung_peristiwa.Demo.Loop.Spaced.{IsSpaced, started-IsSpaced, run_poll_failed}
use go_gedung_peristiwa.Examples.Sessions.{json, no_faults, now, johor, watched, watched-IsValid}
use go_gedung_peristiwa.Examples.Storage.{storage, running, position}

abbrev johor_feed : Feeds.Feed
johor_feed = record {
  agency = codes "mybas-johor";
  url = base_url ++ codes "mybas-johor";
  category = [];
  type = codes "bus";
  region = codes "Johor";
  group = codes "mybas";
  bucket_id = johor;
}

-- A bus at 4 degrees north and 102 degrees east, and an entity without a vehicle.
abbrev bus : Entity
bus = record {
  id = b'7' ∷ [];
  vehicle = some (record {
    position = some (record {
      latitude = 0x4010_0000_0000_0000;
      longitude = 0x4059_8000_0000_0000;
      bearing = 0;
      speed = 0;
    });
    vehicle = none;
    timestamp = some 1;
    trip = none;
  });
}

abbrev message : List Entity
message = bus ∷ record { id = b'8' ∷ []; vehicle = none } ∷ []

abbrev unmarshal : ℕ → Result ℕ (List Entity)
unmarshal body = ok message

abbrev clock : ℕ → ℕ
clock i = unix_epoch

abbrev unix : ℕ → ℕ
unix n = unix_epoch + n

abbrev answered : ℕ → Attempt ℕ ℕ
answered status = record {
  cancelled = none;
  bad_request = none;
  answer = ok (record { status_code = status; retry_after = []; body = ok 1 });
  interrupted = none;
}

answered-Answers : (status : ℕ) → Answers (answered status) status 1
answered-Answers status = record {
  resp = record { status_code = status; retry_after = []; body = ok 1 };
  running = refl;
  requested = refl;
  answered = refl;
  read = refl;
  answered_with = refl;
}

-- The first two attempts are limited.
abbrev net : ℕ → Attempt ℕ ℕ
net i = if ltb i 2 then answered 429 else answered 200

abbrev always_limited : ℕ → Attempt ℕ ℕ
always_limited i = answered 429

always_limited-IsLimited : (i : ℕ) → IsLimited (always_limited i)
always_limited-IsLimited i = record { body = 1; answers = answered-Answers 429; waited = refl }

net-IsLimited : (i : ℕ) → i < 2 → IsLimited (net i)
net-IsLimited zero h = always_limited-IsLimited 0
net-IsLimited (suc zero) h = always_limited-IsLimited 0
net-IsLimited (suc (suc i)) h = absurd (omega arith)

poll_feed-settle_example :
    let r = poll_feed unmarshal clock unix default_backoff johor_feed net in
    (r.0 ≡ settle unmarshal clock unix johor_feed 200 1) × (length r.1 ≡ 2)
poll_feed-settle_example =
    poll_feed-settle unmarshal clock unix default_backoff johor_feed net 2 200 1 (omega arith)
      net-IsLimited (answered-Answers 200) (λ e. omega arith)

poll_feed-rate_limited_example :
    let r = poll_feed unmarshal clock unix default_backoff johor_feed always_limited in
    (r.0 ≡ failing johor_feed rate_limited) × (length r.1 ≡ 5)
poll_feed-rate_limited_example =
    poll_feed-rate_limited unmarshal clock unix default_backoff johor_feed always_limited
      (λ i h. always_limited-IsLimited i)

no_delay :
    (i : ℕ) (resp : Response ℕ ℕ)
    → (always_limited i).answer ≡ ok resp
    → retry_after_duration resp.retry_after ≡ none
unfolding retry_after_duration
no_delay i resp e = ground arith

poll_feed_uncapped_example :
    All
      (λ w. to_nat w < 30 * second)
      (poll_feed unmarshal clock unix default_backoff johor_feed always_limited).1
poll_feed_uncapped_example =
    poll_feed_uncapped unmarshal clock unix johor_feed always_limited no_delay

abbrev bus_position : VehiclePosition
bus_position = record {
  agency = codes "mybas-johor";
  vehicle_id = b'7' ∷ [];
  lat = 0x4010_0000_0000_0000;
  lng = 0x4059_8000_0000_0000;
  bearing = 0;
  speed = 0;
  route = [];
  trip = [];
  timestamp = unix_epoch + 1;
}

parse_feed_message-IsPlausible_example :
    All (IsPlausible johor_feed) (bus_position ∷ []) × (1 ≡ count_located message)
unfolding parse_feed_message parse_entities parse_entity entity_vehicle_id descriptor_id
    valid_malaysia_bounds float_le
parse_feed_message-IsPlausible_example =
    parse_feed_message-IsPlausible clock unix johor_feed unmarshal 1 (bus_position ∷ []) 0 message
      refl refl

-- Every feed gives one position, or fails.
abbrev terminal : ℕ → Bool
terminal e = e == 5

abbrev round : Round ℕ
round = record {
  io = no_faults;
  clock = now;
  now = now;
  cancelled = λ i. none;
  poll =
      λ i feed. record { feed = feed; positions = position now ∷ []; skipped = 0; failed = none };
  done = false;
  finished = now + second;
}

abbrev failing_round : Round ℕ
failing_round = record round { poll = λ i feed. failing feed rate_limited }

abbrev start : Process json storage terminal
start = started json storage terminal watched (pos (10 * second)) (pos 3) running

abbrev after_tick : Process json storage terminal
after_tick =
    let (s, f) = scheduled json storage terminal round start.service in
    record { service = s; log = f ++ start.log }

abbrev after_switch : Process json storage terminal
after_switch =
    let (s, f) = for_region json storage terminal failing_round johor after_tick.service in
    record { service = s; log = f ++ after_tick.log }

started-IsSpaced_example : IsSpaced after_switch.log
started-IsSpaced_example =
    started-IsSpaced json storage terminal watched (pos (10 * second)) (pos 3) running after_switch
      watched-IsValid (later (later here (ticked round)) (switched failing_round johor))

run_poll_failed_example :
    let (s, log) =
      run_poll json storage terminal failing_round (johor_feed ∷ []) (johor ∷ []) start.service in
    (lookup johor s.coordinator.last_poll ≡ some (now + second)) × (s.health ≡ start.service.health)
run_poll_failed_example =
    run_poll_failed json storage terminal failing_round (johor_feed ∷ []) (johor ∷ []) johor
      start.service (λ e. ground arith) refl (λ i f e. ground arith) (inl refl)
