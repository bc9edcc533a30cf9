-- ===== src/Demo/Poll.antt =====
-- internal/demo/poll.go: the coordinator that plans at most one region's fetch for each tick.
-- `clock` is what the session store reads from time.Now() during the call, `now` the argument.
pub mod Order
pub mod Plan
pub mod Choice
pub mod Due
pub mod Rate
use go_gedung_peristiwa.Prelude.{
  ℕ, ◌*◌, ◌==◌, ◌&&◌, List, [], ◌∷◌, Option, none, some, Result, ok, err, Bool, true, false, not,
  if◌then◌else◌, ltb, leb, ite,
}
use go_gedung_peristiwa.Prelude.Int.{ℤ, pos, to_nat}
use go_gedung_peristiwa.Text.{Text, is_empty, text_dec, text_lt, codes}
use go_gedung_peristiwa.Assoc.{Assoc, lookup, insert}
use go_gedung_peristiwa.Time.{Time, Duration, sub_ge}
use go_gedung_peristiwa.Gtfs.Feeds.{Feed}
use go_gedung_peristiwa.Gtfs.Regions.{RegionError, default_region_id, feeds_for_region}
use go_gedung_peristiwa.Demo.Session.Store.{Json, SessionStore, Faults}
use go_gedung_peristiwa.Demo.Session.Methods.{live_region_ids, min_poll_interval_for_region}

abbrev pub default_poll_interval : Duration
default_poll_interval = 10_000_000_000

-- gtfs.UpstreamRefreshInterval
abbrev pub upstream_refresh_interval : Duration
upstream_refresh_interval = 30_000_000_000

pub record Coordinator (Raw : Type 0) : Type 0 where
  pub sessions : SessionStore Raw
  pub interval : Duration
  pub last_poll : Assoc Time

abbrev pub klang_valley_priority : ℕ
klang_valley_priority = 0

abbrev pub penang_priority : ℕ
penang_priority = 1

abbrev pub other_priority : ℕ
other_priority = 2

unfoldable pub region_poll_priority : Text → ℕ
region_poll_priority id =
    ite (text_dec id default_region_id) klang_valley_priority
      (ite (text_dec id (codes "penang")) penang_priority other_priority)

-- What the loop of `nextDueRegion` knows of a region. The first `best` has the empty identifier.
pub record Candidate : Type 0 where
  pub id : Text
  pub last : Time
  pub seen : Bool
  pub pri : ℕ

unfoldable pub prefer_due_region : Candidate → Candidate → Bool
prefer_due_region a best =
    if not (a.pri == best.pri)
    then ltb a.pri best.pri
    else if not a.seen && best.seen
    then true
    else if a.seen && not best.seen
    then false
    else if not a.seen && not best.seen
    then text_lt a.id best.id
    else if a.last == best.last
    then text_lt a.id best.id
    else ltb a.last best.last

abbrev pub last_of : Option Time → Time
last_of none = 0
last_of (some t) = t

abbrev pub seen_of : Option Time → Bool
seen_of none = false
seen_of (some t) = true

unfoldable pub nobody : Candidate
nobody = record { id = []; last = 0; seen = false; pri = 0 }

unfoldable pub mark_all : List Text → Time → Assoc Time → Assoc Time
mark_all [] at m = m
mark_all (id ∷ ids) at m = mark_all ids at (insert id at m)

module _ {Raw : Type 0} where
  unfoldable pub new_poll_coordinator : SessionStore Raw → ℤ → Coordinator Raw
  new_poll_coordinator s interval = record {
    sessions = s;
    interval = if leb (to_nat interval) 0 then default_poll_interval else to_nat interval;
    last_poll = [];
  }

  unfoldable pub mark_polled : List Text → Time → Coordinator Raw → Coordinator Raw
  unfolding mark_all
  mark_polled [] at c = c
  mark_polled (id ∷ ids) at c = record c { last_poll = mark_all (id ∷ ids) at c.last_poll }

module _ {Raw : Type 0} (json : Json Raw) (io : Faults) (clock : Time) where
  unfoldable pub interval_locked : Text → Coordinator Raw → Coordinator Raw × Duration
  interval_locked id c =
      let (s, wanted) = min_poll_interval_for_region json io clock id c.sessions in
      let interval = if leb wanted 0 then c.interval else wanted in
      (
        record c { sessions = s },
        if ltb interval upstream_refresh_interval then upstream_refresh_interval else interval,
      )

  unfoldable pub effective_poll_priority : Text → Time → Coordinator Raw → Coordinator Raw × ℕ
  effective_poll_priority id now c =
      let pri = region_poll_priority id in
      if ltb pri other_priority then (c, pri) else elim (lookup id c.last_poll) [
        | none ↦ (c, pri)
        | some last ↦
            let (c', d) = interval_locked id c in
            (c', if sub_ge now last (2 * d) then klang_valley_priority else pri)
      ]

  unfoldable pub is_stale : Text → Time → Coordinator Raw → Coordinator Raw × Bool
  is_stale id now c = elim (lookup id c.last_poll) [
    | none ↦ (c, true)
    | some last ↦ let (c', d) = interval_locked id c in (c', sub_ge now last d)
  ]

  -- One round of the loop of `nextDueRegion`.
  unfoldable pub consider : Text → Time → Candidate → Coordinator Raw → Coordinator Raw × Candidate
  consider id now best c =
      let (c1, stale) = is_stale id now c in
      if not stale
      then (c1, best)
      else let last = lookup id c1.last_poll in
        let (c2, pri) = effective_poll_priority id now c1 in
        let a : Candidate = record {
          id = id;
          last = last_of last;
          seen = seen_of last;
          pri = pri;
        } in
        (c2, if is_empty best.id then a else if prefer_due_region a best then a else best)

  unfoldable pub pick : List Text → Time → Candidate → Coordinator Raw → Coordinator Raw × Candidate
  pick [] now best c = (c, best)
  pick (id ∷ ids) now best c = let (c', best') = consider id now best c in pick ids now best' c'

  -- The empty text stands for no region.
  unfoldable pub next_due_region : Time → Coordinator Raw → Coordinator Raw × Text
  next_due_region now c =
      let (s, candidates) = live_region_ids json io clock c.sessions in
      let (c', best) = pick candidates now nobody (record c { sessions = s }) in (c', best.id)

  unfoldable pub feeds_for_scheduled_poll :
      Time → Coordinator Raw → Coordinator Raw × Result RegionError (List Feed × List Text)
  feeds_for_scheduled_poll now c =
      let (c', id) = next_due_region now c in
      (
        c',
        if is_empty id
            then ok ([], [])
            else elim (feeds_for_region id) [ ok feeds ↦ ok (feeds, id ∷ []) | err e ↦ err e ],
      )

  unfoldable pub feeds_for_region_switch :
      Time → Text → Coordinator Raw → Coordinator Raw × Result RegionError (List Feed × List Text)
  feeds_for_region_switch now id c =
      if is_empty id
      then feeds_for_scheduled_poll now c
      else let (c', stale) = is_stale id now c in
        (
          c',
          if stale
              then elim (feeds_for_region id) [ ok feeds ↦ ok (feeds, id ∷ []) | err e ↦ err e ]
              else ok ([], []),
        )
