-- ===== src/Demo/Poll/Plan.antt =====
-- The loop of `nextDueRegion` of internal/demo/poll.go as a function of one coordinator, once the
-- expired sessions are gone.
use go_gedung_peristiwa.Prelude.{
  ℕ, ◌*◌, ◌≡◌, refl, List, [], ◌∷◌, none, some, Bool, true, false, not, if◌then◌else◌, ltb, leb,
  All, All-keep, arith,
}
use go_gedung_peristiwa.Text.{Text, is_empty}
use go_gedung_peristiwa.Assoc.{Assoc, lookup}
use go_gedung_peristiwa.Time.{Time, Duration, sub_ge}
use go_gedung_peristiwa.Demo.Session.Store.{
  Json, SessionState, SessionStore, Faults, prune_entries, prune_expired, prune_and_persist,
}
use go_gedung_peristiwa.Demo.Session.Methods.{min_interval, min_poll_interval_for_region}
use go_gedung_peristiwa.Demo.Session.Invariant.{is_fresh}
use go_gedung_peristiwa.Demo.Session.Live.{sessions-prune}
use go_gedung_peristiwa.Demo.Poll.{
  Coordinator, Candidate, upstream_refresh_interval, klang_valley_priority, other_priority,
  region_poll_priority, prefer_due_region, last_of, seen_of, interval_locked,
  effective_poll_priority, is_stale, consider, pick,
}

-- No session of the store has expired.
abbrev pub Settled : {Raw : Type 0} → Time → SessionStore Raw → Type 0
Settled clock s = All (λ e. is_fresh clock e ≡ true) s.sessions

prune_entries-settled :
    (clock : Time) (m : Assoc SessionState)
    → All (λ e. is_fresh clock e ≡ true) m
    → prune_entries clock m ≡ (m, false)
unfolding prune_entries
prune_entries-settled clock [] h = refl
prune_entries-settled clock ((sid, st) ∷ m) h =
    ground (arith, h.0, prune_entries-settled clock m h.1)

-- What a due region makes of the best so far.
unfoldable pub better : Candidate → Candidate → Candidate
better a best = if is_empty best.id then a else if prefer_due_region a best then a else best

-- The interval, staleness, priority and rank of a region, with the store as it stands.
module _ {Raw : Type 0} (c : Coordinator Raw) where
  unfoldable pub interval_of : Text → Duration
  interval_of id =
      let wanted = min_interval c.sessions.sessions id c.sessions.live 0 in
      let interval = if leb wanted 0 then c.interval else wanted in
      if ltb interval upstream_refresh_interval then upstream_refresh_interval else interval

  unfoldable pub stale_of : Time → Text → Bool
  stale_of now id = elim (lookup id c.last_poll) [
    | none ↦ true
    | some last ↦ sub_ge now last (interval_of id)
  ]

  unfoldable pub pri_of : Time → Text → ℕ
  pri_of now id =
      if ltb (region_poll_priority id) other_priority
      then region_poll_priority id
      else elim (lookup id c.last_poll) [
        | none ↦ region_poll_priority id
        | some last ↦
            if sub_ge now last (2 * interval_of id)
            then klang_valley_priority
            else region_poll_priority id
      ]

  unfoldable pub candidate : Time → Text → Candidate
  unfolding pri_of
  candidate now id = record {
    id = id;
    last = last_of (lookup id c.last_poll);
    seen = seen_of (lookup id c.last_poll);
    pri = pri_of now id;
  }

  unfoldable pub pick_of : List Text → Time → Candidate → Candidate
  pick_of [] now best = best
  pick_of (id ∷ ids) now best =
      pick_of ids now (if not (stale_of now id) then best else better (candidate now id) best)

module _ {Raw : Type 0} (json : Json Raw) (io : Faults) (clock : Time) where
  prune_and_persist_idle :
      (s : SessionStore Raw) → Settled clock s → prune_and_persist json io clock s ≡ s
  unfolding prune_and_persist prune_expired
  prune_and_persist_idle s h = ground (arith, prune_entries-settled clock s.sessions h)

  pub prune_and_persist-Settled :
      (s : SessionStore Raw) → Settled clock (prune_and_persist json io clock s)
  prune_and_persist-Settled s =
      rw (sessions-prune json io clock s) (All-keep (is_fresh clock) s.sessions)

  module _ (c : Coordinator Raw) (h : Settled clock c.sessions) where
    pub interval_locked-settled :
        (id : Text) → interval_locked json io clock id c ≡ (c, interval_of c id)
    unfolding interval_locked interval_of min_poll_interval_for_region
    interval_locked-settled id = ground (arith, prune_and_persist_idle c.sessions h)

    pub is_stale-settled :
        (now : Time) (id : Text) → is_stale json io clock id now c ≡ (c, stale_of c now id)
    unfolding is_stale stale_of
    is_stale-settled now id = ground (arith, interval_locked-settled id)

    pub priority-settled :
        (now : Time) (id : Text)
        → effective_poll_priority json io clock id now c ≡ (c, pri_of c now id)
    unfolding effective_poll_priority pri_of
    priority-settled now id = ground (arith, interval_locked-settled id)

    consider-settled :
        (id : Text) (now : Time) (best : Candidate)
        → consider json io clock id now best c
          ≡ (c, if not (stale_of c now id) then best else better (candidate c now id) best)
    unfolding consider better candidate
    consider-settled id now best = ground (arith, is_stale-settled now id, priority-settled now id)

    pub pick-settled :
        (ids : List Text) (now : Time) (best : Candidate)
        → pick json io clock ids now best c ≡ (c, pick_of c ids now best)
    unfolding pick pick_of
    pick-settled [] now best = refl
    pick-settled (id ∷ ids) now best = rw (consider-settled id now best) (pick-settled ids now _)
