-- ===== src/Examples/Sessions.antt =====
-- Two browsers on the map: "a" looks at Penang, "b" at Johor. The JSON codec of the examples
-- stores a session as it is.
use go_gedung_peristiwa.Prelude.{
  keep, ◌≡◌, refl, List, [], ◌∷◌, none, some, ok, true, false, arith, inl, Unique, Elem, ◌≤◌, ◌≢◌,
  ◌↔◌, ◌⊎◌, ℕ_discrete,
}
use go_gedung_peristiwa.Prelude.Int.{pos}
use go_gedung_peristiwa.Text.{Text, codes, text_dec}
use go_gedung_peristiwa.Time.{Time}
use go_gedung_peristiwa.Assoc.{Assoc, lookup, insert}
use go_gedung_peristiwa.Gtfs.Regions.{region_by_id, find_region, map_regions}
use go_gedung_peristiwa.Demo.PollSeconds.{stored_poll_seconds, normalize_poll_seconds, find_seconds}
use go_gedung_peristiwa.Demo.Session.Preserve.{open_session_store-IsValid}
use go_gedung_peristiwa.Demo.Session.Store.{
  persist, encode_sessions, fill_seconds, Json, SessionState, RawState, SessionStore, Faults,
  FileState, holding, open_session_store, load, load_entries, admit, parse_session_value,
  parse_object, session_expired, empty_store, prune_and_persist, prune_expired, prune_entries,
}
use go_gedung_peristiwa.Demo.Session.Methods.{
  live_region_ids, acquire_live, count_of, min_interval, wanted_interval,
}
use go_gedung_peristiwa.Demo.Session.Invariant.{IsValid, is_fresh, acquire_live-IsValid}
use go_gedung_peristiwa.Demo.Session.History.{
  Event, Call, touches, acquires, sets_region, run, run-IsValid_opened,
}
use go_gedung_peristiwa.Demo.Session.Persist.{Decodes, persist-open_session_store}
use go_gedung_peristiwa.Demo.Session.Live.{Views, live_region_ids-Views}
use go_gedung_peristiwa.Demo.Poll.{
  Coordinator, next_due_region, feeds_for_region_switch, mark_polled, prefer_due_region,
  region_poll_priority, klang_valley_priority,
}
use go_gedung_peristiwa.Demo.Poll.Plan.{stale_of, candidate, interval_of, pri_of}
use go_gedung_peristiwa.Demo.Poll.Due.{pruned, next_due_region-First}
use go_gedung_peristiwa.Demo.Poll.Rate.{
  feeds_for_region_switch-mark_polled, next_due_region_starving, next_due_region_unseen,
}

abbrev raw_of : SessionState → RawState
raw_of st = record {
  region = st.region;
  poll_seconds = pos st.poll_seconds;
  last_seen = st.last_seen;
}

abbrev pub json : Json SessionState
json = record {
  as_string = λ raw. none;
  as_state = λ raw. some (raw_of raw);
  marshal = λ st. some st;
}

abbrev pub no_faults : Faults
no_faults = record { mkdir_fails = false; write_fails = false; rename_fails = false }

abbrev pub seen_at : Time
seen_at = 1_700_000_000_000_000_000

abbrev pub now : Time
now = 1_700_000_100_000_000_000

abbrev pub penang : Text
penang = codes "penang"

abbrev pub johor : Text
johor = codes "johor"

abbrev in_region : Text → SessionState
in_region region = record { region = region; poll_seconds = 20; last_seen = seen_at }

abbrev two_sessions : Assoc SessionState
two_sessions = (b'a' ∷ [], in_region penang) ∷ (b'b' ∷ [], in_region johor) ∷ []

abbrev file : FileState SessionState
file = holding two_sessions

abbrev path : Text
path = codes "sessions.json"

abbrev opened_store : SessionStore SessionState
opened_store = record { sessions = two_sessions; live = []; path = path; file = file }

open_two_sessions : open_session_store json now path file ≡ ok opened_store
unfolding open_session_store load load_entries admit parse_session_value parse_object
    session_expired empty_store region_by_id find_region map_regions text_dec ℕ_discrete insert
    stored_poll_seconds normalize_poll_seconds find_seconds
open_two_sessions = refl

abbrev event : Call → Event
event call = record { io = no_faults; now = now; call = call }

abbrev history : List Event
history =
    event (acquires (b'a' ∷ []))
    ∷ event (touches (b'a' ∷ []))
    ∷ event (sets_region (b'a' ∷ []) johor)
    ∷ []

run-IsValid_opened_example : IsValid (run json history opened_store)
run-IsValid_opened_example =
    run-IsValid_opened json now path file opened_store history open_two_sessions

abbrev pub watched : SessionStore SessionState
watched = record opened_store { live = (b'a' ∷ [], 1) ∷ (b'b' ∷ [], 1) ∷ [] }

pub watched-IsValid : IsValid watched
unfolding acquire_live insert count_of lookup text_dec ℕ_discrete
watched-IsValid =
    let opened = open_session_store-IsValid json now path file opened_store open_two_sessions in
    acquire_live-IsValid (b'b' ∷ []) _ (acquire_live-IsValid (b'a' ∷ []) opened_store opened)

live_region_ids-Views_example :
    Unique (live_region_ids json no_faults now watched).1
    × ((r : Text)
        → Elem r (live_region_ids json no_faults now watched).1
          ↔ ((sid : Text) × Views watched now sid r))
live_region_ids-Views_example = live_region_ids-Views json no_faults now watched watched-IsValid

Views-penang : Views watched now (b'a' ∷ []) penang
unfolding lookup text_dec ℕ_discrete
Views-penang = record {
  viewers = 1;
  state = in_region penang;
  is_live = refl;
  connected = omega arith;
  session = refl;
  selected = refl;
  named = λ e. ground arith;
  reported = omega arith;
  recent = omega arith;
}

Views-johor : Views watched now (b'b' ∷ []) johor
unfolding lookup text_dec ℕ_discrete
Views-johor = record {
  viewers = 1;
  state = in_region johor;
  is_live = refl;
  connected = omega arith;
  session = refl;
  selected = refl;
  named = λ e. ground arith;
  reported = omega arith;
  recent = omega arith;
}

-- Nothing polled yet; and Johor polled 100 seconds ago.
abbrev fresh_coordinator : Coordinator SessionState
fresh_coordinator = record { sessions = watched; interval = 10_000_000_000; last_poll = [] }

abbrev waiting : Coordinator SessionState
waiting = record fresh_coordinator { last_poll = (johor, seen_at) ∷ (penang, now) ∷ [] }

next_due_region-First_example :
    let (c', id) = next_due_region json no_faults now now fresh_coordinator in
    let p = pruned json no_faults now now fresh_coordinator in
    (c' ≡ p)
    × (((id ≡ []) × ((sid r : Text) → Views watched now sid r → stale_of p now r ≡ false))
        ⊎ ((sid : Text) × Views watched now sid id
            × (stale_of p now id ≡ true)
            × ((other r : Text)
                → Views watched now other r
                → stale_of p now r ≡ true
                → prefer_due_region (candidate p now r) (candidate p now id) ≡ false)))
next_due_region-First_example =
    next_due_region-First json no_faults now now fresh_coordinator watched-IsValid

next_due_region_starving_example :
    let id = (next_due_region json no_faults now now waiting).1 in
    (pri_of (pruned json no_faults now now waiting) now id ≡ klang_valley_priority)
    × ((lookup id waiting.last_poll ≡ none)
        ⊎ ((t : Time) × (lookup id waiting.last_poll ≡ some t) × (t ≤ seen_at)))
unfolding lookup text_dec ℕ_discrete region_poll_priority interval_of pruned min_interval
    wanted_interval stored_poll_seconds normalize_poll_seconds find_seconds prune_and_persist
    prune_expired prune_entries session_expired
next_due_region_starving_example =
    next_due_region_starving json no_faults now now waiting (b'b' ∷ []) johor seen_at
      watched-IsValid Views-johor refl refl (omega arith)

next_due_region_unseen_example :
    (next_due_region json no_faults now now fresh_coordinator).1 ≢ johor
unfolding lookup text_dec ℕ_discrete region_poll_priority stale_of pruned
next_due_region_unseen_example =
    next_due_region_unseen json no_faults now now fresh_coordinator johor (b'a' ∷ []) penang
      watched-IsValid refl refl Views-penang refl (omega arith)

feeds_for_region_switch-mark_polled_example :
    (feeds_for_region_switch json no_faults now now penang
      (mark_polled (penang ∷ []) now fresh_coordinator)).1
    ≡ ok ([], [])
feeds_for_region_switch-mark_polled_example =
    feeds_for_region_switch-mark_polled json no_faults now penang (penang ∷ []) now now
      fresh_coordinator (λ e. ground arith) (inl refl) (omega arith)

json-Decodes : Decodes json
json-Decodes = record { no_string = λ st raw h. refl; state = λ st raw h. ground arith }

persist-open_session_store_example :
    open_session_store json now path (persist json no_faults watched).0.file
    ≡ ok (record (persist json no_faults watched).0 {
      sessions = keep (is_fresh now) two_sessions;
      live = [];
    })
unfolding persist encode_sessions fill_seconds
persist-open_session_store_example =
    persist-open_session_store json no_faults now watched json-Decodes watched-IsValid refl refl
