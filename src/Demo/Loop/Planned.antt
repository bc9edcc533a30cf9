-- ===== src/Demo/Loop/Planned.antt =====
-- What a plan of internal/demo/poll.go keeps and fetches, for the loop of cmd/demo/main.go.
use go_gedung_peristiwa.Prelude.{
  ◌-◌, ◌≤◌, ◌≡◌, refl, ap, sym, subst, List, [], ◌∷◌, some, true, if◌then◌else◌, Result, ok, err,
  All, arith, Option-cases, Result-cases, Bool-cases, inl, inr,
}
use go_gedung_peristiwa.Text.{Text, is_empty}
use go_gedung_peristiwa.Assoc.{Assoc, lookup, insert, lookup-insert}
use go_gedung_peristiwa.Time.{Time}
use go_gedung_peristiwa.Gtfs.Feeds.{Feed}
use go_gedung_peristiwa.Gtfs.Regions.{RegionError, contains, feeds_for_region}
use go_gedung_peristiwa.Demo.Session.Store.{Json, Faults}
use go_gedung_peristiwa.Demo.Session.Methods.{min_poll_interval_for_region}
use go_gedung_peristiwa.Demo.Session.Invariant.{IsValid, prune_and_persist-IsValid}
use go_gedung_peristiwa.Demo.Poll.{
  Coordinator, mark_all, mark_polled, is_stale, interval_locked, next_due_region,
  feeds_for_scheduled_poll, feeds_for_region_switch, upstream_refresh_interval,
}
use go_gedung_peristiwa.Demo.Poll.Due.{pruned, next_due_region-First}
use go_gedung_peristiwa.Demo.Poll.Rate.{interval_locked-ge, next_due_region_spaced}

lookup-mark_all_of :
    (id : Text) (ids : List Text) (at : Time) (m : Assoc Time)
    → lookup id (mark_all ids at m) ≡ (if contains id ids then some at else lookup id m)
unfolding mark_all contains
lookup-mark_all_of id [] at m = refl
lookup-mark_all_of id (j ∷ ids) at m =
    ground (arith, lookup-mark_all_of id ids at (insert j at m), lookup-insert j id at m)

pub lookup-mark_polled_of :
    {Raw : Type 0} (id : Text) (ids : List Text) (at : Time) (c : Coordinator Raw)
    → lookup id (mark_polled ids at c).last_poll
      ≡ (if contains id ids then some at else lookup id c.last_poll)
unfolding mark_polled contains
lookup-mark_polled_of id [] at c = refl
lookup-mark_polled_of id (j ∷ ids) at c = lookup-mark_all_of id (j ∷ ids) at c.last_poll

pub mark_polled-IsValid :
    {Raw : Type 0} (ids : List Text) (at : Time) (c : Coordinator Raw)
    → IsValid c.sessions
    → IsValid (mark_polled ids at c).sessions
unfolding mark_polled
mark_polled-IsValid [] at c v = v
mark_polled-IsValid (id ∷ ids) at c v = v

-- What a plan keeps, and what it may fetch.
pub record Plans {Raw : Type 0} (now : Time) (c c' : Coordinator Raw)
    (plan : Result RegionError (List Feed × List Text)) : Type 0 where
  pub valid : IsValid c'.sessions
  pub kept : c'.last_poll ≡ c.last_poll
  pub due :
      (feeds : List Feed) (regions : List Text)
      → plan ≡ ok (feeds, regions)
      → All
          (λ id. (t : Time) → lookup id c.last_poll ≡ some t → upstream_refresh_interval ≤ now - t)
          regions

one_region :
    (id : Text) (feeds : List Feed) (regions : List Text)
    → elim (feeds_for_region id) as (λ r. Result RegionError (List Feed × List Text)) [
      | ok fs ↦ ok (fs, id ∷ [])
      | err e ↦ err e
    ]
      ≡ ok (feeds, regions)
    → regions ≡ id ∷ []
one_region id feeds regions h = elim (Result-cases (feeds_for_region id)) [
  | inl (fs, e) ↦ ground arith
  | inr (x, e) ↦ absurd (ground arith)
]

module _ {Raw : Type 0} (json : Json Raw) (io : Faults) (clock now : Time)
    (c : Coordinator Raw) where
  pub scheduled-Plans :
      IsValid c.sessions
      → let r = feeds_for_scheduled_poll json io clock now c in Plans now c r.0 r.1
  unfolding feeds_for_scheduled_poll pruned
  scheduled-Plans v =
      let first = next_due_region-First json io clock now c v in
      record {
        valid =
            subst (λ q. IsValid q.sessions) (sym first.0)
              (prune_and_persist-IsValid json io clock c.sessions v);
        kept = ap (λ q. q.last_poll) first.0;
        due = λ feeds regions e.
            elim (Bool-cases (is_empty (next_due_region json io clock now c).1)) [
              | inl nothing ↦ let same : [] ≡ regions = ground arith in rw (← same) tt
              | inr named ↦
                  rw
                    (one_region (next_due_region json io clock now c).1 feeds regions
                      (ground arith))
                    (
                      λ t h.
                          next_due_region_spaced json io clock now c t v (λ unnamed. ground arith)
                            h,
                      tt,
                    )
            ];
      }

  -- A region that is stale waited for 30 seconds; the test prunes the sessions at most.
  is_stale-Kept :
      (id : Text)
      → IsValid c.sessions
      → let r = is_stale json io clock id now c in
        IsValid r.0.sessions
        × (r.0.last_poll ≡ c.last_poll)
        × ((t : Time)
            → r.1 ≡ true
            → lookup id c.last_poll ≡ some t
            → upstream_refresh_interval ≤ now - t)
  unfolding is_stale interval_locked min_poll_interval_for_region
  is_stale-Kept id v = elim (Option-cases (lookup id c.last_poll)) [
    | inl e ↦ rw (is_stale, e) (v, refl, λ t s h. absurd (ground arith))
    | inr (last, e) ↦
        rw (is_stale, e)
          (
            prune_and_persist-IsValid json io clock c.sessions v,
            refl,
            λ t s h. ground (arith, interval_locked-ge json io clock id c),
          )
  ]

  pub switch-Plans :
      (id : Text)
      → IsValid c.sessions
      → let r = feeds_for_region_switch json io clock now id c in Plans now c r.0 r.1
  unfolding feeds_for_region_switch
  switch-Plans id v = elim (Bool-cases (is_empty id)) [
    | inl unnamed ↦ rw (unnamed) (scheduled-Plans v)
    | inr named ↦
        let stale = is_stale-Kept id v in
        rw (named) (record {
          valid = stale.0;
          kept = stale.1;
          due = λ feeds regions e. elim (Bool-cases (is_stale json io clock id now c).1) [
            | inr fresh ↦ let same : [] ≡ regions = ground arith in rw (← same) tt
            | inl due ↦ rw (one_region id feeds regions (ground arith)) (λ t h. stale.2 t due h, tt)
          ];
        })
  ]
