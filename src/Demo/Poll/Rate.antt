-- ===== src/Demo/Poll/Rate.antt =====
-- How often, and for how long not, internal/demo/poll.go lets a region be fetched.
use go_gedung_peristiwa.Prelude.{
  ◌*◌, ◌-◌, ◌≤◌, ◌<◌, ◌≡◌, refl, ◌≢◌, List, [], ◌∷◌, none, some, true, false, Elem, arith,
  Option-cases, ◌⊎◌, inl, inr, sym, ok,
}
use go_gedung_peristiwa.Text.{Text, text_dec}
use go_gedung_peristiwa.Assoc.{Assoc, lookup, insert, lookup-insert}
use go_gedung_peristiwa.Time.{Time}
use go_gedung_peristiwa.Demo.Session.Store.{Json, Faults}
use go_gedung_peristiwa.Demo.Session.Invariant.{IsValid}
use go_gedung_peristiwa.Demo.Session.Live.{Views}
use go_gedung_peristiwa.Demo.Poll.{
  Coordinator, upstream_refresh_interval, other_priority, klang_valley_priority,
  region_poll_priority, prefer_due_region, next_due_region, mark_all, mark_polled, is_stale,
  interval_locked, feeds_for_region_switch,
}
use go_gedung_peristiwa.Demo.Poll.Plan.{interval_of, stale_of, pri_of, candidate}
use go_gedung_peristiwa.Demo.Poll.Due.{pruned, next_due_region-First}

lookup-mark_all :
    (id : Text) (ids : List Text) (at : Time) (m : Assoc Time)
    → (Elem id ids) ⊎ (lookup id m ≡ some at)
    → lookup id (mark_all ids at m) ≡ some at
unfolding mark_all
lookup-mark_all id [] at m (inl z) = absurd z
lookup-mark_all id [] at m (inr e) = e
lookup-mark_all id (j ∷ ids) at m h =
    lookup-mark_all id ids at (insert j at m) (elim (text_dec j id) [
      | yes p ↦ inr (ground (arith, lookup-insert j id at m))
      | no n ↦ elim h [
        | inl (inl e) ↦ absurd (n (sym e))
        | inl (inr k) ↦ inl k
        | inr e ↦ inr (ground (arith, lookup-insert j id at m))
      ]
    ])

pub lookup-mark_polled :
    {Raw : Type 0} (id : Text) (ids : List Text) (at : Time) (c : Coordinator Raw)
    → Elem id ids
    → lookup id (mark_polled ids at c).last_poll ≡ some at
unfolding mark_polled
lookup-mark_polled id [] at c m = absurd m
lookup-mark_polled id (j ∷ ids) at c m = lookup-mark_all id (j ∷ ids) at c.last_poll (inl m)

module _ {Raw : Type 0} (json : Json Raw) (io : Faults) (clock : Time) where
  pub interval_locked-ge :
      (id : Text) (c : Coordinator Raw)
      → upstream_refresh_interval ≤ (interval_locked json io clock id c).1
  unfolding interval_locked
  interval_locked-ge id c = ground arith

  -- A region that was marked as polled less than 30 seconds before `now` is not stale, whatever
  -- intervals its viewers have chosen.
  pub is_stale-mark_polled :
      (id : Text) (ids : List Text) (at now : Time) (c : Coordinator Raw)
      → Elem id ids
      → now - at < upstream_refresh_interval
      → (is_stale json io clock id now (mark_polled ids at c)).1 ≡ false
  unfolding is_stale
  is_stale-mark_polled id ids at now c m h =
      ground (arith, lookup-mark_polled id ids at c m, interval_locked-ge id (mark_polled ids at c))

  -- A switch to a named region that was marked as polled less than 30 seconds before plans no
  -- fetch: no feeds, no regions, no error.
  pub feeds_for_region_switch-mark_polled :
      (id : Text) (ids : List Text) (at now : Time) (c : Coordinator Raw)
      → id ≢ []
      → Elem id ids
      → now - at < upstream_refresh_interval
      → (feeds_for_region_switch json io clock now id (mark_polled ids at c)).1 ≡ ok ([], [])
  unfolding feeds_for_region_switch
  feeds_for_region_switch-mark_polled [] ids at now c n m h = absurd (n refl)
  feeds_for_region_switch-mark_polled (b ∷ bs) ids at now c n m h =
      ground (arith, is_stale-mark_polled (b ∷ bs) ids at now c m h)

module _ {Raw : Type 0} (c : Coordinator Raw) (now : Time) where
  interval_of-ge : (id : Text) → upstream_refresh_interval ≤ interval_of c id
  unfolding interval_of
  interval_of-ge id = ground arith

  stale_of-ge :
      (id : Text) (last : Time)
      → lookup id c.last_poll ≡ some last
      → stale_of c now id ≡ true
      → upstream_refresh_interval ≤ now - last
  unfolding stale_of
  stale_of-ge id last e h = ground (arith, interval_of-ge id)

  -- A region that no viewer has fetched yet keeps its own priority, however long it waits.
  pri_of-unseen :
      (id : Text) → lookup id c.last_poll ≡ none → pri_of c now id ≡ region_poll_priority id
  unfolding pri_of
  pri_of-unseen id e = ground arith

  pri_of-le : (id : Text) → pri_of c now id ≤ region_poll_priority id
  unfolding pri_of
  pri_of-le id = ground arith

  pri_of-starving :
      (id : Text) (last : Time)
      → lookup id c.last_poll ≡ some last
      → region_poll_priority id ≡ other_priority
      → 2 * interval_of c id ≤ now - last
      → pri_of c now id ≡ klang_valley_priority
  unfolding pri_of
  pri_of-starving id last e o h = ground arith

  starving_due :
      (id : Text) (last : Time)
      → lookup id c.last_poll ≡ some last
      → 2 * interval_of c id ≤ now - last
      → stale_of c now id ≡ true
  unfolding stale_of
  starving_due id last e h = ground arith

  prefer_by_pri :
      (a b : Text)
      → pri_of c now a < pri_of c now b
      → prefer_due_region (candidate c now a) (candidate c now b) ≡ true
  unfolding prefer_due_region candidate
  prefer_by_pri a b h = ground arith

  -- What is not preferred to a region that was polled before has no better priority, or was
  -- polled no earlier.
  not_preferred :
      (a b : Text) (last : Time)
      → lookup a c.last_poll ≡ some last
      → pri_of c now a ≡ klang_valley_priority
      → prefer_due_region (candidate c now a) (candidate c now b) ≡ false
      → (pri_of c now b ≡ klang_valley_priority)
        × ((lookup b c.last_poll ≡ none)
            ⊎ ((t : Time) × (lookup b c.last_poll ≡ some t) × (t ≤ last)))
  unfolding prefer_due_region candidate
  not_preferred a b last e p h = elim (Option-cases (lookup b c.last_poll)) [
    | inl u ↦ (ground arith, inl u)
    | inr (t, u) ↦ (ground arith, inr (t, u, ground arith))
  ]

module _ {Raw : Type 0} (json : Json Raw) (io : Faults) (clock now : Time)
    (c : Coordinator Raw) where
  -- Where the session store is well formed, a region that `nextDueRegion` gives and that was polled
  -- before was last polled at least 30 seconds before `now`.
  pub next_due_region_spaced :
      (last : Time)
      → IsValid c.sessions
      → (next_due_region json io clock now c).1 ≢ []
      → lookup (next_due_region json io clock now c).1 c.last_poll ≡ some last
      → upstream_refresh_interval ≤ now - last
  unfolding pruned
  next_due_region_spaced last v h e = elim (next_due_region-First json io clock now c v).1 [
    | inl (none_due, _) ↦ absurd (h none_due)
    | inr (sid, w, due, _) ↦ stale_of-ge (pruned json io clock now c) now _ last e due
  ]

  -- Where the session store is well formed and a region of the lowest priority with a connected
  -- viewer has waited at least twice its interval since it was last polled, the region that
  -- `nextDueRegion` gives (that one or another) has the top effective priority and was polled no
  -- later than that, or never.
  pub next_due_region_starving :
      (sid r : Text) (last : Time)
      → IsValid c.sessions
      → Views c.sessions clock sid r
      → lookup r c.last_poll ≡ some last
      → region_poll_priority r ≡ other_priority
      → 2 * interval_of (pruned json io clock now c) r ≤ now - last
      → let id = (next_due_region json io clock now c).1 in
        (pri_of (pruned json io clock now c) now id ≡ klang_valley_priority)
        × ((lookup id c.last_poll ≡ none)
            ⊎ ((t : Time) × (lookup id c.last_poll ≡ some t) × (t ≤ last)))
  unfolding pruned
  next_due_region_starving sid r last v w e o h =
      let p = pruned json io clock now c in
      let due = starving_due p now r last e h in
      elim (next_due_region-First json io clock now c v).1 [
        | inl (_, none_due) ↦ cc (none_due sid r w, due)
        | inr (_, _, _, least) ↦
            not_preferred p now r _ last e (pri_of-starving p now r last e o h) (least sid r w due)
      ]

  -- Where the session store is well formed, a region of the lowest priority that was never polled
  -- is not chosen while a region with a connected viewer and a better priority is due.
  pub next_due_region_unseen :
      (r sid q : Text)
      → IsValid c.sessions
      → lookup r c.last_poll ≡ none
      → region_poll_priority r ≡ other_priority
      → Views c.sessions clock sid q
      → stale_of (pruned json io clock now c) now q ≡ true
      → region_poll_priority q < other_priority
      → (next_due_region json io clock now c).1 ≢ r
  unfolding pruned
  next_due_region_unseen r sid q v e o w due h same =
      let p = pruned json io clock now c in
      elim (next_due_region-First json io clock now c v).1 [
        | inl (_, none_due) ↦ cc (none_due sid q w, due)
        | inr (_, _, _, least) ↦
            let better : pri_of p now q < pri_of p now r =
              omega (arith, pri_of-le p now q, pri_of-unseen p now r e, o, h) in
            cc (prefer_by_pri p now q r better, rw same at (least sid q w due))
      ]
