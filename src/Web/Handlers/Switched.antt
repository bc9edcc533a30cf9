-- ===== src/Web/Handlers/Switched.antt =====
-- A switch of the region through postRegion of internal/web/demo/server.go.
use go_gedung_peristiwa.Prelude.{
  ℕ, ◌+◌, ◌-◌, ◌<◌, ◌≡◌, refl, List, none, some, ok, false, arith, Result-cases, Bool-cases, inl,
  inr, ap, ◌∙◌,
}
use go_gedung_peristiwa.Text.{Text}
use go_gedung_peristiwa.Time.{Time}
use go_gedung_peristiwa.Assoc.{
  Distinct, lookup, insert, lookup-insert_self, lookup-keep, insert-Distinct, keep-Distinct,
}
use go_gedung_peristiwa.Gtfs.Feeds.{Feed}
use go_gedung_peristiwa.Gtfs.Regions.{MapRegion, region_by_id, feeds_for_region}
use go_gedung_peristiwa.Demo.Session.Store.{
  Json, SessionState, SessionStore, StoreError, Faults, state_of, fill_seconds, prune_expired,
  persist, prune_and_persist, session_idle_ttl, session_expired,
}
use go_gedung_peristiwa.Demo.Session.Methods.{
  region, set_region, poll_seconds, active_region, active_feeds,
}
use go_gedung_peristiwa.Demo.Session.Invariant.{IsValid, is_fresh, prune_entries-keep, persist-file}
use go_gedung_peristiwa.Web.Views.{region_view, feed_views}
use go_gedung_peristiwa.Web.Handlers.{
  Request, region_payload, status, Server, on_region_change, active_region_payload,
  write_region_payload, get_region, post_region,
}

-- The session is in the region since `at`, and no other entry is in its place.
pub record Selected {Raw : Type 0} (sid id : Text) (at : Time) (s : SessionStore Raw) : Type 0 where
  pub distinct : Distinct s.sessions
  pub state : SessionState
  pub found : lookup sid s.sessions ≡ some state
  pub in_region : state.region ≡ id
  pub since : state.last_seen ≡ at

-- Within the idle time of a session, from its first instant on.
abbrev pub Within : Time → Time → Type 0
Within at now = (0 < at) × (now - at < session_idle_ttl)

prune_expired-Selected :
    {Raw : Type 0} (sid id : Text) (at now : Time) (s : SessionStore Raw)
    → Within at now
    → Selected sid id at s
    → Selected sid id at (prune_expired now s).0
unfolding prune_expired session_expired
prune_expired-Selected sid id at now s w g =
    let kept = prune_entries-keep now s.sessions in
    record {
      distinct = rw (kept) (keep-Distinct (is_fresh now) s.sessions g.distinct);
      state = g.state;
      found =
          ground
            (arith, kept, lookup-keep (is_fresh now) sid s.sessions g.distinct, g.found, g.since);
      in_region = g.in_region;
      since = g.since;
    }

module _ {Raw : Type 0} (json : Json Raw) (sid id : Text) where
  persist-Selected :
      (at : Time) (io : Faults) (s : SessionStore Raw)
      → Selected sid id at s
      → Selected sid id at (persist json io s).0
  persist-Selected at io s g =
      let (file, e) = persist-file json io s in
      rw e (record {
        distinct = g.distinct;
        state = g.state;
        found = g.found;
        in_region = g.in_region;
        since = g.since;
      })

  prune_and_persist-Selected :
      (at now : Time) (io : Faults) (s : SessionStore Raw)
      → Within at now
      → Selected sid id at s
      → Selected sid id at (prune_and_persist json io now s)
  unfolding prune_and_persist
  prune_and_persist-Selected at now io s w g =
      let p = prune_expired-Selected sid id at now s w g in
      elim (Bool-cases (prune_expired now s).1) [
        | inl e ↦ rw (prune_and_persist, e) (persist-Selected at io _ p)
        | inr e ↦ rw (prune_and_persist, e) p
      ]

  region-Selected :
      (at now : Time) (io : Faults) (s : SessionStore Raw)
      → Within at now
      → Selected sid id at s
      → Selected sid id at (region json io now sid s).0 × ((region json io now sid s).1 ≡ id)
  unfolding region state_of fill_seconds
  region-Selected at now io s w g =
      let p = prune_and_persist-Selected at now io s w g in
      (p, ground (arith, p.found, p.in_region))

  -- Also where the file is not written.
  set_region-Selected :
      (now : Time) (io : Faults) (s : SessionStore Raw) (m : MapRegion)
      → IsValid s
      → region_by_id id ≡ ok m
      → 0 < now
      → Selected sid id now (set_region json io now sid id s).0
  unfolding set_region
  set_region-Selected now io s m v known p =
      let st : SessionState = record (state_of s.sessions sid now) {
        region = id;
        last_seen = now;
      } in
      let s1 : SessionStore Raw = record s { sessions = insert sid st s.sessions } in
      let stored : Selected sid id now s1 = record {
        distinct = insert-Distinct sid st s.sessions v.distinct;
        state = st;
        found = lookup-insert_self sid st s.sessions;
        in_region = refl;
        since = refl;
      } in
      rw (set_region, known)
        (persist-Selected now io _
          (prune_expired-Selected sid id now now s1 (p, omega arith) stored))

module _ {Raw Handle : Type 0} (json : Json Raw) (r : Request) (sid id : Text) (m : MapRegion)
    (s : Server Raw Handle) where
  -- On a well-formed store, a switch to a region of the catalogue that SetRegion cannot save is
  -- answered with 400 and asks for no poll, as a bad request is; but the session is in the new region
  -- from then on, until its idle time has passed.
  pub post_region_unsaved :
      (e : StoreError) (io : Faults) (now : Time)
      → IsValid s.sessions
      → r.region_body ≡ some id
      → region_by_id id ≡ ok m
      → (set_region json (r.io 0) (r.clock 0) sid id s.sessions).1 ≡ some e
      → Within (r.clock 0) now
      → let (s', answer) = post_region json r sid s in
        (status answer ≡ 400)
        × (s'.poll_now ≡ s.poll_now)
        × ((region json io now sid s'.sessions).1 ≡ id)
  unfolding post_region
  post_region_unsaved e io now v body known unsaved w =
      let g = set_region-Selected json sid id (r.clock 0) (r.io 0) s.sessions m v known w.0 in
      rw (post_region, body, unsaved)
        (refl, refl, (region-Selected json sid id (r.clock 0) now io _ w g).1)

  active_region_payload-Selected :
      (at : Time) (k : ℕ) (s : Server Raw Handle) (fs : List Feed)
      → region_by_id id ≡ ok m
      → feeds_for_region id ≡ ok fs
      → Selected sid id at s.sessions
      → Within at (r.clock k)
      → Within at (r.clock (k + 1))
      → (active_region_payload json r sid k s).1 ≡ ok (region_view false m, fs)
  unfolding active_region_payload active_region active_feeds
  active_region_payload-Selected at k s fs known feeds g w1 w2 =
      let a = region-Selected json sid id at (r.clock k) (r.io k) s.sessions w1 g in
      let s1 = (region json (r.io k) (r.clock k) sid s.sessions).0 in
      let b = region-Selected json sid id at (r.clock (k + 1)) (r.io (k + 1)) s1 w2 a.0 in
      let e1 : (active_region json (r.io k) (r.clock k) sid s.sessions).1 ≡ some m =
        ground (arith, a.1, known) in
      let e2 : (active_feeds json (r.io (k + 1)) (r.clock (k + 1)) sid s1).1 ≡ ok fs =
        ap feeds_for_region b.1 ∙ feeds in
      ground (arith, e1, e2)

  get_region-payload :
      (at : Time) (k : ℕ) (s : Server Raw Handle) (fs : List Feed)
      → region_by_id id ≡ ok m
      → feeds_for_region id ≡ ok fs
      → Selected sid id at s.sessions
      → Within at (r.clock k)
      → Within at (r.clock (k + 1))
      → let (s', answer) = get_region json r sid k s in
        ((n : ℕ) × (answer ≡ region_payload (region_view false m) (feed_views fs) n))
        × (s'.poll_now ≡ s.poll_now)
  unfolding get_region active_region_payload write_region_payload
  get_region-payload at k s fs known feeds g w1 w2 =
      let p = active_region_payload-Selected at k s fs known feeds g w1 w2 in
      elim (Result-cases
        (active_feeds json (r.io (k + 1)) (r.clock (k + 1)) sid
          (active_region json (r.io k) (r.clock k) sid s.sessions).0).1) [
            | inr (e, h) ↦ absurd (ground (arith, p, h))
            | inl (x, h) ↦
                let n =
                  (poll_seconds json (r.io (k + 2)) (r.clock (k + 2)) sid
                    (active_region_payload json r sid k s).0.sessions).1 in
                rw (get_region, h) ((n, ground (arith, p, h)), refl)
          ]

  -- On a well-formed store, a switch to a region of the catalogue that SetRegion saves asks for a
  -- poll, where none waits already, and answers with the region and its feeds, if the clock is above
  -- 0 and does not pass the idle time meanwhile.
  pub post_region-payload :
      (fs : List Feed)
      → IsValid s.sessions
      → r.region_body ≡ some id
      → region_by_id id ≡ ok m
      → feeds_for_region id ≡ ok fs
      → (set_region json (r.io 0) (r.clock 0) sid id s.sessions).1 ≡ none
      → Within (r.clock 0) (r.clock 1)
      → Within (r.clock 0) (r.clock 2)
      → let (s', answer) = post_region json r sid s in
        ((n : ℕ) × (answer ≡ region_payload (region_view false m) (feed_views fs) n))
        × (s'.poll_now ≡ elim s.poll_now [ none ↦ some id | some waiting ↦ some waiting ])
  unfolding post_region on_region_change
  post_region-payload fs v body known feeds saved w1 w2 =
      let g = set_region-Selected json sid id (r.clock 0) (r.io 0) s.sessions m v known w1.0 in
      let s1 : Server Raw Handle = record s {
        sessions = (set_region json (r.io 0) (r.clock 0) sid id s.sessions).0;
      } in
      let out =
        get_region-payload (r.clock 0) 1 (on_region_change json id s1) fs known feeds g w1 w2 in
      rw (post_region, body, saved) out
