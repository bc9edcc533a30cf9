-- ===== src/Demo/Session/Methods.antt =====
-- internal/demo/session.go and the end of poll.go: the exported methods of `SessionStore`. All
-- readings of the clock in one call are `now`; the methods hold the lock, so a call is one step.
use go_gedung_peristiwa.Prelude.{
  ℕ, ◌+◌, ◌-◌, ◌*◌, ◌==◌, ◌||◌, List, [], ◌∷◌, ◌++◌, Option, none, some, Result, ok, err, Bool,
  true, false, if◌then◌else◌, leb, ltb, ite,
}
use go_gedung_peristiwa.Prelude.Int.{ℤ, pos}
use go_gedung_peristiwa.Text.{Text, is_empty, text_dec}
use go_gedung_peristiwa.Assoc.{Assoc, lookup, insert, erase}
use go_gedung_peristiwa.Time.{Time, Duration, second}
use go_gedung_peristiwa.Gtfs.Feeds.{Feed}
use go_gedung_peristiwa.Gtfs.Regions.{
  MapRegion, RegionError, region_by_id, contains, feeds_for_regions, feeds_for_region,
  agencies_for_region,
}
use go_gedung_peristiwa.Demo.PollSeconds.{normalize_poll_seconds, stored_poll_seconds}
use go_gedung_peristiwa.Demo.Session.Store.{
  Json, SessionState, SessionStore, Faults, StoreError, region_refused, interval_refused,
  session_expired, default_state, state_of, prune_expired, persist, prune_and_persist,
}

abbrev is_none {ℓ} : {A : Type ℓ} → Option A → Bool
is_none none = true
is_none (some a) = false

-- `m[k]` for a map to int: 0 for a missing key.
unfoldable pub count_of : Text → Assoc ℕ → ℕ
count_of k m = elim (lookup k m) [ none ↦ 0 | some n ↦ n ]

-- The region that one live entry adds in `LiveRegionIDs`, if any.
unfoldable pub viewed_region : Time → Assoc SessionState → Text → ℕ → Option Text
viewed_region now sessions sid n = if leb n 0 then none else elim (lookup sid sessions) [
  | none ↦ none
  | some st ↦ if is_empty st.region || session_expired st now then none else some st.region
]

-- The loop of `LiveRegionIDs`: the live entries left, the regions seen, the result so far.
unfoldable pub live_ids : Time → Assoc SessionState → Assoc ℕ → List Text → List Text → List Text
live_ids now sessions [] seen ids = ids
live_ids now sessions ((sid, n) ∷ live) seen ids = elim (viewed_region now sessions sid n) [
  | none ↦ live_ids now sessions live seen ids
  | some r ↦ elim (contains r seen) [
    | true ↦ live_ids now sessions live seen ids
    | false ↦ live_ids now sessions live (r ∷ seen) (ids ++ r ∷ [])
  ]
]

-- The interval that one live entry asks for in `MinPollIntervalForRegion`, if any.
unfoldable pub wanted_interval : Assoc SessionState → Text → Text → ℕ → Option Duration
wanted_interval sessions region sid n = if leb n 0 then none else elim (lookup sid sessions) [
  | none ↦ none
  | some st ↦
      ite (text_dec st.region region) (some (stored_poll_seconds (pos st.poll_seconds) * second))
        none
]

-- The loop of `MinPollIntervalForRegion`, with the minimum so far (0 for none).
unfoldable pub min_interval : Assoc SessionState → Text → Assoc ℕ → Duration → Duration
min_interval sessions region [] m = m
min_interval sessions region ((sid, n) ∷ live) m =
    min_interval sessions region live (elim (wanted_interval sessions region sid n) [
      | none ↦ m
      | some d ↦ if m == 0 || ltb d m then d else m
    ])

-- The loop of `ActiveRegionIDs`.
unfoldable pub active_ids : Assoc SessionState → List Text → List Text → List Text
active_ids [] seen ids = ids
active_ids ((sid, st) ∷ m) seen ids = elim (contains st.region seen) [
  | true ↦ active_ids m seen ids
  | false ↦ active_ids m (st.region ∷ seen) (ids ++ st.region ∷ [])
]

-- The loop of `RegionViewerCounts`.
unfoldable pub count_viewers : Assoc SessionState → Assoc ℕ → Assoc ℕ
count_viewers [] counts = counts
count_viewers ((sid, st) ∷ m) counts =
    count_viewers m (insert st.region (count_of st.region counts + 1) counts)

module _ {Raw : Type 0} where
  unfoldable pub acquire_live : Text → SessionStore Raw → SessionStore Raw
  acquire_live sid s =
      if is_empty sid then s else record s { live = insert sid (count_of sid s.live + 1) s.live }

  -- The difference stops at 0, and 0 is not above 0.
  unfoldable pub release_live : Text → SessionStore Raw → SessionStore Raw
  release_live sid s =
      if is_empty sid
      then s
      else let n = count_of sid s.live - 1 in
        if leb n 0
        then record s { live = erase sid s.live }
        else record s { live = insert sid n s.live }

module _ {Raw : Type 0} (json : Json Raw) where
  unfoldable pub touch : Faults → Time → Text → SessionStore Raw → SessionStore Raw
  touch io now sid s =
      if is_empty sid
      then s
      else let known = lookup sid s.sessions in
        let st : SessionState = elim known [ none ↦ default_state now | some st ↦ st ] in
        let s1 = record s { sessions = insert sid (record st { last_seen = now }) s.sessions } in
        let (s2, pruned) = prune_expired now s1 in
        if is_none known || pruned then (persist json io s2).0 else s2

  unfoldable pub live_region_ids : Faults → Time → SessionStore Raw → SessionStore Raw × List Text
  live_region_ids io now s =
      let s' = prune_and_persist json io now s in (s', live_ids now s'.sessions s'.live [] [])

  unfoldable pub region : Faults → Time → Text → SessionStore Raw → SessionStore Raw × Text
  region io now sid s =
      let s' = prune_and_persist json io now s in (s', (state_of s'.sessions sid now).region)

  unfoldable pub set_region :
      Faults → Time → Text → Text → SessionStore Raw → SessionStore Raw × Option StoreError
  set_region io now sid id s = elim (region_by_id id) [
    | err _ ↦ (s, some region_refused)
    | ok _ ↦
        let st = state_of s.sessions sid now in
        let s1 = record s {
          sessions = insert sid (record st { region = id; last_seen = now }) s.sessions;
        } in
        persist json io (prune_expired now s1).0
  ]

  unfoldable pub poll_seconds : Faults → Time → Text → SessionStore Raw → SessionStore Raw × ℕ
  poll_seconds io now sid s =
      let s' = prune_and_persist json io now s in (s', (state_of s'.sessions sid now).poll_seconds)

  unfoldable pub set_poll_seconds :
      Faults → Time → Text → ℤ → SessionStore Raw → SessionStore Raw × Option StoreError
  set_poll_seconds io now sid seconds s = elim (normalize_poll_seconds seconds) [
    | err _ ↦ (s, some interval_refused)
    | ok n ↦
        let st = state_of s.sessions sid now in
        let s1 = record s {
          sessions = insert sid (record st { poll_seconds = n; last_seen = now }) s.sessions;
        } in
        persist json io (prune_expired now s1).0
  ]

  unfoldable pub min_poll_interval_for_region :
      Faults → Time → Text → SessionStore Raw → SessionStore Raw × Duration
  min_poll_interval_for_region io now id s =
      let s' = prune_and_persist json io now s in (s', min_interval s'.sessions id s'.live 0)

  unfoldable pub active_region_ids : Faults → Time → SessionStore Raw → SessionStore Raw × List Text
  active_region_ids io now s =
      let s' = prune_and_persist json io now s in (s', active_ids s'.sessions [] [])

  unfoldable pub region_viewer_counts :
      Faults → Time → SessionStore Raw → SessionStore Raw × Assoc ℕ
  region_viewer_counts io now s =
      let s' = prune_and_persist json io now s in (s', count_viewers s'.sessions [])

  unfoldable pub feeds_to_poll :
      Faults → Time → SessionStore Raw → SessionStore Raw × Result RegionError (List Feed)
  feeds_to_poll io now s = let (s', ids) = live_region_ids io now s in (s', feeds_for_regions ids)

  -- `r, _ := RegionByID(...)`: `none` is the zero region of an unknown identifier.
  unfoldable pub active_region :
      Faults → Time → Text → SessionStore Raw → SessionStore Raw × Option MapRegion
  active_region io now sid s =
      let (s', id) = region io now sid s in
      (s', elim (region_by_id id) [ ok r ↦ some r | err _ ↦ none ])

  unfoldable pub active_feeds :
      Faults → Time → Text → SessionStore Raw → SessionStore Raw × Result RegionError (List Feed)
  active_feeds io now sid s = let (s', id) = region io now sid s in (s', feeds_for_region id)

  unfoldable pub active_agencies :
      Faults → Time → Text → SessionStore Raw → SessionStore Raw × Result RegionError (List Text)
  active_agencies io now sid s = let (s', id) = region io now sid s in (s', agencies_for_region id)
