-- ===== src/Demo/Loop/Spaced.antt =====
-- The fetches of the loop in cmd/demo/main.go over its whole life.
use go_gedung_peristiwa.Prelude.{
  ◌+◌, Elem, ℕ, ◌-◌, ◌≤◌, ◌≡◌, refl, ap, sym, ◌∙◌, subst, ◌≢◌, List, [], ◌∷◌, ◌++◌, Option, none,
  some, Bool, false, if◌then◌else◌, Result, ok, err, All, All-map, Option-cases, Bool-cases, inl,
  inr, ◌⊎◌,
}
use go_gedung_peristiwa.Prelude.Int.{ℤ}
use go_gedung_peristiwa.Gtfs.Poller.{PollResult, poll_sequential}
use go_gedung_peristiwa.Text.{Text}
use go_gedung_peristiwa.Assoc.{lookup}
use go_gedung_peristiwa.Time.{Time}
use go_gedung_peristiwa.Gtfs.Feeds.{Feed}
use go_gedung_peristiwa.Gtfs.Regions.{RegionError, contains}
use go_gedung_peristiwa.Gtfs.Position.{VehiclePosition}
use go_gedung_peristiwa.Demo.Session.Store.{Json, SessionStore}
use go_gedung_peristiwa.Demo.Session.Invariant.{IsValid}
use go_gedung_peristiwa.Demo.Session.History
use go_gedung_peristiwa.Demo.Poll.{
  new_poll_coordinator, Coordinator, mark_polled, upstream_refresh_interval,
}
use go_gedung_peristiwa.Demo.Poll.Rate.{lookup-mark_polled}
use go_gedung_peristiwa.Demo.Pipeline.{Pipeline, Storage}
use go_gedung_peristiwa.Demo.Loop.{
  started, Service, Round, Fetch, give_up, mark_round, store_positions, finish_poll, run_poll,
  run_plan, scheduled, for_region, Process, Step, ticked, switched, called, Reach, here, later,
  collect_positions,
}
use go_gedung_peristiwa.Demo.Loop.Planned.{
  Plans, lookup-mark_polled_of, mark_polled-IsValid, scheduled-Plans, switch-Plans,
}

-- When the region was last marked as polled.
unfoldable pub last_marked : Text → List Fetch → Option Time
last_marked id [] = none
last_marked id (f ∷ log) = elim f.marked [
  | none ↦ last_marked id log
  | some at ↦ if contains id f.regions then some at else last_marked id log
]

-- Each fetch was planned at least 30 seconds after its regions were last marked before it.
abbrev pub IsSpaced : List Fetch → Type 0
IsSpaced [] = Unit {0}
IsSpaced (f ∷ log) =
    All (λ id. (t : Time) → last_marked id log ≡ some t → upstream_refresh_interval ≤ f.planned - t)
      f.regions
    × IsSpaced log

module _ {Raw Handle Value Failure : Type 0} (json : Json Raw) (db : Storage Handle Value Failure)
    (terminal : Failure → Bool) where
  -- The coordinator remembers the marks of the log, and the fetches are spaced.
  pub record IsGood (p : Process json db terminal) : Type 0 where
    pub valid : IsValid p.service.coordinator.sessions
    pub agree : (id : Text) → lookup id p.service.coordinator.last_poll ≡ last_marked id p.log
    pub spaced : IsSpaced p.log

  -- A round marks its regions at its end, or leaves the coordinator alone.
  finish_poll-marks :
      (all : List VehiclePosition) (regions : List Text) (at : Time)
      (s : Service Raw Handle Failure)
      → let r = finish_poll json db terminal all regions at s in
        ((r.1 ≡ none) × (r.0.coordinator ≡ s.coordinator))
        ⊎ ((r.1 ≡ some at) × (r.0.coordinator ≡ mark_polled regions at s.coordinator))
  unfolding finish_poll give_up mark_round
  finish_poll-marks [] regions at s = inr (refl, refl)
  finish_poll-marks (pos ∷ rest) regions at s =
      elim (Option-cases (store_positions json db terminal (pos ∷ rest) s.pipe).1) [
        | inl e ↦ rw (finish_poll, e) (inr (refl, refl))
        | inr (x, e) ↦ rw (finish_poll, e) (inl (refl, refl))
      ]

  -- A fetch that was planned so is added to the log.
  fetched-IsGood :
      (p : Process json db terminal) (c' : Coordinator Raw) (feeds : List Feed)
      (regions : List Text) (now at : Time) (s : Service Raw Handle Failure) (m : Option Time)
      → IsGood p
      → Plans now p.service.coordinator c' (ok (feeds, regions))
      → ((m ≡ none) × (s.coordinator ≡ c'))
        ⊎ ((m ≡ some at) × (s.coordinator ≡ mark_polled regions at c'))
      → IsGood (record {
        service = s;
        log = record { regions = regions; planned = now; marked = m } ∷ p.log;
      })
  unfolding last_marked
  fetched-IsGood p c' feeds regions now at s m g plans h = record {
    valid = elim h [
      | inl (e, same) ↦ subst (λ q. IsValid q.sessions) (sym same) plans.valid
      | inr (e, marked) ↦
          subst (λ q. IsValid q.sessions) (sym marked)
            (mark_polled-IsValid regions at c' plans.valid)
    ];
    agree = λ id.
        let old : lookup id c'.last_poll ≡ last_marked id p.log =
          ap (lookup id) plans.kept ∙ g.agree id in
        elim h [
          | inl (e, same) ↦ rw (e) (ap (λ q. lookup id q.last_poll) same ∙ old)
          | inr (e, marked) ↦ rw (e) (
              ap (λ q. lookup id q.last_poll) marked
              ∙ lookup-mark_polled_of id regions at c'
              ∙ ap (λ o. if contains id regions then some at else o) old)
        ];
    spaced = (
      All-map (λ id due t e. due t (g.agree id ∙ e)) regions (plans.due feeds regions refl),
      g.spaced,
    );
  }

  run_plan-IsGood :
      (r : Round Failure) (c' : Coordinator Raw) (plan : Result RegionError (List Feed × List Text))
      (p : Process json db terminal)
      → IsGood p
      → Plans r.now p.service.coordinator c' plan
      → let (s, f) = run_plan json db terminal r (c', plan) p.service in
        IsGood (record { service = s; log = f ++ p.log })
  unfolding run_plan run_poll last_marked
  run_plan-IsGood r c' (err x) p g plans = record {
    valid = plans.valid;
    agree = λ id. ap (lookup id) plans.kept ∙ g.agree id;
    spaced = g.spaced;
  }
  run_plan-IsGood r c' (ok ([], regions)) p g plans = record {
    valid = plans.valid;
    agree = λ id. ap (lookup id) plans.kept ∙ g.agree id;
    spaced = g.spaced;
  }
  run_plan-IsGood r c' (ok (feed ∷ feeds, regions)) p g plans = elim (Bool-cases r.done) [
    | inl done ↦
        rw (run_poll, done)
          (fetched-IsGood p c' (feed ∷ feeds) regions r.now r.finished _ none g plans
            (inl (refl, refl)))
    | inr running ↦
        rw (run_poll, running)
          (fetched-IsGood p c' (feed ∷ feeds) regions r.now r.finished _ _ g plans
            (finish_poll-marks _ regions r.finished _))
  ]

  Step-IsGood : (p q : Process json db terminal) → IsGood p → Step json db terminal p q → IsGood q
  unfolding scheduled for_region
  Step-IsGood p _ g (ticked r) =
      run_plan-IsGood r _ _ p g
        (scheduled-Plans json r.io r.clock r.now p.service.coordinator g.valid)
  Step-IsGood p _ g (switched r id) =
      run_plan-IsGood r _ _ p g
        (switch-Plans json r.io r.clock r.now p.service.coordinator id g.valid)
  Step-IsGood p _ g (called e) = record {
    valid = History.step-IsValid json e.io e.now e.call p.service.coordinator.sessions g.valid;
    agree = g.agree;
    spaced = g.spaced;
  }

  Reach-IsGood : (p q : Process json db terminal) → IsGood p → Reach json db terminal p q → IsGood q
  Reach-IsGood p _ g here = g
  Reach-IsGood p q g (later {p = p'} reach st) = Step-IsGood p' q (Reach-IsGood p p' g reach) st

  -- In every history of the process, from its start on a well-formed session store, with rounds,
  -- region switches and calls of the session store in any order and whatever the clocks, the feeds
  -- and the writer do: no fetch of a region is planned less than 30 seconds after the region was
  -- last marked as polled.
  pub started-IsSpaced :
      (store : SessionStore Raw) (interval threshold : ℤ) (pipe : Pipeline Handle)
      (p : Process json db terminal)
      → IsValid store
      → Reach json db terminal (started json db terminal store interval threshold pipe) p
      → IsSpaced p.log
  unfolding started new_poll_coordinator last_marked lookup
  started-IsSpaced store interval threshold pipe p v reach =
      (Reach-IsGood (started json db terminal store interval threshold pipe) p
        (record { valid = v; agree = λ id. refl; spaced = tt }) reach).spaced

  collect_positions_failed :
      (cancelled : ℕ → Option Failure) (poll : ℕ → Feed → PollResult Failure) (i : ℕ)
      (feeds : List Feed)
      → ((j : ℕ) (f : Feed) → (poll j f).failed ≢ none)
      → collect_positions (poll_sequential cancelled poll i feeds) ≡ []
  unfolding collect_positions poll_sequential
  collect_positions_failed cancelled poll i [] h = refl
  collect_positions_failed cancelled poll i (f ∷ fs) h = elim (Option-cases (cancelled i)) [
    | inr (x, e) ↦ rw (poll_sequential, e) (collect_positions_failed cancelled poll (i + 1) fs h)
    | inl e ↦ elim (Option-cases (poll i f).failed) [
      | inl n ↦ absurd (h i f n)
      | inr (x, n) ↦
          rw (poll_sequential, e, n) (collect_positions_failed cancelled poll (i + 1) fs h)
    ]
  ]

  -- A round all of whose feeds fail still marks its regions as polled, and tells the health tracker
  -- nothing.
  pub run_poll_failed :
      (r : Round Failure) (feeds : List Feed) (regions : List Text) (id : Text)
      (s : Service Raw Handle Failure)
      → feeds ≢ []
      → r.done ≡ false
      → ((i : ℕ) (f : Feed) → (r.poll i f).failed ≢ none)
      → Elem id regions
      → let (s', log) = run_poll json db terminal r feeds regions s in
        (lookup id s'.coordinator.last_poll ≡ some r.finished) × (s'.health ≡ s.health)
  unfolding run_poll finish_poll mark_round
  run_poll_failed r [] regions id s n d h m = absurd (n refl)
  run_poll_failed r (f ∷ fs) regions id s n d h m =
      rw (d, collect_positions_failed r.cancelled r.poll 0 (f ∷ fs) h)
        (lookup-mark_polled id regions r.finished s.coordinator m, refl)
