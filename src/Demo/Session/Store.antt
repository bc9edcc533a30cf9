-- ===== src/Demo/Session/Store.antt =====
-- internal/demo/session.go: the sessions, their file, expiry, loading and saving. The JSON codec
-- is a parameter; `file` is what stands on disk under `path`.
use go_gedung_peristiwa.Prelude.{
  ℕ, ◌==◌, [], ◌∷◌, Option, none, some, Result, ok, err, Bool, true, false, if◌then◌else◌,
}
use go_gedung_peristiwa.Prelude.Int.{ℤ}
use go_gedung_peristiwa.Text.{Text, is_empty}
use go_gedung_peristiwa.Assoc.{Assoc, lookup, insert}
use go_gedung_peristiwa.Time.{Time, Duration, is_zero, sub_ge}
use go_gedung_peristiwa.Gtfs.Regions.{region_by_id, default_region_id}
use go_gedung_peristiwa.Demo.PollSeconds.{default_poll_seconds, stored_poll_seconds}

abbrev pub session_idle_ttl : Duration
session_idle_ttl = 300_000_000_000

pub record SessionState : Type 0 where
  pub region : Text
  pub poll_seconds : ℕ
  pub last_seen : Time

-- A session object as json.Unmarshal fills it in, with any int for the interval.
pub record RawState : Type 0 where
  pub region : Text
  pub poll_seconds : ℤ
  pub last_seen : Time

-- encoding/json at the types that the store uses: `none` is an error.
pub record Json (Raw : Type 0) : Type 0 where
  pub as_string : Raw → Option Text
  pub as_state : Raw → Option RawState
  pub marshal : SessionState → Option Raw

-- What os.ReadFile and the decoding of `sessionFile` find.
pub data FileState (Raw : Type 0) : Type 0 where
  missing unreadable empty malformed : FileState Raw
  holding : Assoc Raw → FileState Raw

-- Which of the system calls of one save fail.
pub record Faults : Type 0 where
  pub mkdir_fails : Bool
  pub write_fails : Bool
  pub rename_fails : Bool

pub data StoreError : Type 0 where
  read_failed malformed_file encode_failed mkdir_failed write_failed rename_failed : StoreError
  region_refused interval_refused : StoreError

pub record SessionStore (Raw : Type 0) : Type 0 where
  pub sessions : Assoc SessionState
  pub live : Assoc ℕ
  pub path : Text
  pub file : FileState Raw

unfoldable pub session_expired : SessionState → Time → Bool
session_expired st now =
    if is_zero st.last_seen then true else sub_ge now st.last_seen session_idle_ttl

-- The loop of `pruneExpiredLocked`: what stays, and whether an entry was removed.
unfoldable pub prune_entries : Time → Assoc SessionState → Assoc SessionState × Bool
prune_entries now [] = ([], false)
prune_entries now ((sid, st) ∷ m) =
    let (rest, removed) = prune_entries now m in
    if session_expired st now then (rest, true) else ((sid, st) ∷ rest, removed)

unfoldable pub default_state : Time → SessionState
default_state now = record {
  region = default_region_id;
  poll_seconds = default_poll_seconds;
  last_seen = now;
}

-- A stored interval of 0 stands for the default.
unfoldable pub fill_seconds : SessionState → SessionState
fill_seconds st =
    if st.poll_seconds == 0 then record st { poll_seconds = default_poll_seconds } else st

unfoldable pub state_of : Assoc SessionState → Text → Time → SessionState
unfolding fill_seconds default_state
state_of m sid now = elim (lookup sid m) [ some st ↦ fill_seconds st | none ↦ default_state now ]

module _ {Raw : Type 0} where
  -- `NewSessionStore`, and the empty store of `OpenSessionStore` over what the file holds.
  unfoldable pub empty_store : Text → FileState Raw → SessionStore Raw
  empty_store path file = record { sessions = []; live = []; path = path; file = file }

  unfoldable pub prune_expired : Time → SessionStore Raw → SessionStore Raw × Bool
  unfolding prune_entries
  prune_expired now s =
      let (rest, removed) = prune_entries now s.sessions in (record s { sessions = rest }, removed)

module _ {Raw : Type 0} (json : Json Raw) where
  unfoldable pub parse_object : Raw → Option SessionState
  parse_object raw = elim (json.as_state raw) [
    | none ↦ none
    | some st ↦
        if is_empty st.region
        then none
        else some (record {
          region = st.region;
          poll_seconds = stored_poll_seconds st.poll_seconds;
          last_seen = st.last_seen;
        })
  ]

  unfoldable pub parse_session_value : Raw → Option SessionState
  unfolding parse_object
  parse_session_value raw = elim (json.as_string raw) [
    | none ↦ parse_object raw
    | some text ↦
        if is_empty text
        then parse_object raw
        else some (record { region = text; poll_seconds = default_poll_seconds; last_seen = 0 })
  ]

  -- One round of the loop of `load`: the session that is taken over, if any.
  unfoldable pub admit : Time → Raw → Option SessionState
  admit now raw = elim (parse_session_value raw) [
    | none ↦ none
    | some st ↦ elim (region_by_id st.region) [
      | err _ ↦ none
      | ok _ ↦ if session_expired st now then none else some st
    ]
  ]

  unfoldable pub load_entries : Time → Assoc Raw → Assoc SessionState → Assoc SessionState
  load_entries now [] m = m
  load_entries now ((sid, raw) ∷ es) m =
      load_entries now es (elim (admit now raw) [ none ↦ m | some st ↦ insert sid st m ])

  unfoldable pub load : Time → SessionStore Raw → Result StoreError (SessionStore Raw)
  load now s = if is_empty s.path then ok s else elim s.file [
    | missing ↦ ok s
    | unreadable ↦ err read_failed
    | empty ↦ ok s
    | malformed ↦ err malformed_file
    | holding es ↦ ok (record s { sessions = load_entries now es s.sessions })
  ]

  unfoldable pub open_session_store :
      Time → Text → FileState Raw → Result StoreError (SessionStore Raw)
  unfolding load empty_store
  open_session_store now path file = load now (empty_store path file)

  -- The loop of `persistLocked`.
  unfoldable pub encode_sessions : Assoc SessionState → Option (Assoc Raw)
  encode_sessions [] = some []
  encode_sessions ((sid, st) ∷ m) = elim (json.marshal (fill_seconds st)) [
    | none ↦ none
    | some raw ↦ elim (encode_sessions m) [ none ↦ none | some es ↦ some ((sid, raw) ∷ es) ]
  ]

  -- The new text goes to a temporary file that replaces the old one in the last step, so that a
  -- failure leaves the old file.
  unfoldable pub persist : Faults → SessionStore Raw → SessionStore Raw × Option StoreError
  persist io s =
      if is_empty s.path
      then (s, none)
      else if io.mkdir_fails
      then (s, some mkdir_failed)
      else elim (encode_sessions s.sessions) [
        | none ↦ (s, some encode_failed)
        | some es ↦
            if io.write_fails
            then (s, some write_failed)
            else if io.rename_fails
            then (s, some rename_failed)
            else (record s { file = holding es }, none)
      ]

  -- The start of every query: expired sessions go, and the file follows if any did.
  unfoldable pub prune_and_persist : Faults → Time → SessionStore Raw → SessionStore Raw
  unfolding prune_expired persist
  prune_and_persist io now s =
      let (s', removed) = prune_expired now s in if removed then (persist io s').0 else s'
