-- ===== src/Web/Handlers/Answered.antt =====
-- What the handlers of internal/web/demo leave and answer.
use go_gedung_peristiwa.Prelude.{
  ℕ, ◌+◌, ◌≡◌, refl, ◌≢◌, Option, none, true, arith, Option-cases, Result-cases, Bool-cases, inl,
  inr,
}
use go_gedung_peristiwa.Text.{Text, is_empty}
use go_gedung_peristiwa.Time.{Time}
use go_gedung_peristiwa.Demo.Session.Store.{Json, Faults}
use go_gedung_peristiwa.Demo.Session.Methods.{
  touch, region, set_region, set_poll_seconds, active_region, active_feeds, active_agencies,
}
use go_gedung_peristiwa.Demo.Session.Invariant.{IsValid}
use go_gedung_peristiwa.Demo.Session.Preserve.{
  touch-IsValid, set_region-IsValid, set_poll_seconds-IsValid,
}
use go_gedung_peristiwa.Demo.Snapshots.{RegionCatalog}
use go_gedung_peristiwa.Web.Handlers.{
  get, post, other_method, index, regions, one_region, poll_interval, vehicles, replay_index,
  replay_catalog, Request, Answer, status, Server, on_region_change, active_region_payload,
  write_region_payload, get_region, post_region, handle_region, write_poll_interval,
  post_poll_interval, handle_poll_interval, handle_vehicles, handle_regions, handle_index,
  handle_replay_index, show_catalog, handle_replay_catalog, serve, with_session,
}
use go_gedung_peristiwa.Web.Handlers.Active.{
  region-IsValid, active_region-IsValid, active_feeds-IsValid, active_agencies-IsValid,
  poll_seconds-IsValid,
}

-- The sessions stay well-formed and the answer is no internal error.
pub record IsFine {Raw Handle : Type 0} (out : Server Raw Handle × Answer) : Type 0 where
  pub valid : IsValid out.0.sessions
  pub served : status out.1 ≢ 500

module _ {Raw Handle : Type 0} (json : Json Raw) (r : Request) (sid : Text) where
  get_region-IsFine :
      (k : ℕ) (s : Server Raw Handle) → IsValid s.sessions → IsFine (get_region json r sid k s)
  unfolding get_region active_region_payload write_region_payload
  get_region-IsFine k s v =
      let a = active_region-IsValid json (r.io k) (r.clock k) sid s.sessions v in
      let s1 = (active_region json (r.io k) (r.clock k) sid s.sessions).0 in
      let f = active_feeds-IsValid json (r.io (k + 1)) (r.clock (k + 1)) sid s1 a in
      let s2 = (active_feeds json (r.io (k + 1)) (r.clock (k + 1)) sid s1).0 in
      elim (Result-cases (active_feeds json (r.io (k + 1)) (r.clock (k + 1)) sid s1).1) [
        | inr (e, h) ↦ absurd (f.1 e h)
        | inl (fs, h) ↦
            rw (get_region, active_region_payload, h)
              (record {
                valid = poll_seconds-IsValid json (r.io (k + 2)) (r.clock (k + 2)) sid s2 f.0;
                served = λ e. omega arith;
              })
      ]

  on_region_change-IsValid :
      (id : Text) (s : Server Raw Handle)
      → IsValid s.sessions
      → IsValid (on_region_change json id s).sessions
  unfolding on_region_change
  on_region_change-IsValid id s v = v

  post_region-IsFine :
      (s : Server Raw Handle) → IsValid s.sessions → IsFine (post_region json r sid s)
  unfolding post_region
  post_region-IsFine s v = elim (Option-cases r.region_body) [
    | inl e ↦ rw (post_region, e) (record { valid = v; served = λ h. omega arith })
    | inr (id, e) ↦
        let v1 = set_region-IsValid json (r.io 0) (r.clock 0) sid id s.sessions v in
        let s1 = (set_region json (r.io 0) (r.clock 0) sid id s.sessions).0 in
        elim (Option-cases (set_region json (r.io 0) (r.clock 0) sid id s.sessions).1) [
          | inr (x, h) ↦ rw (post_region, e, h) (record { valid = v1; served = λ h. omega arith })
          | inl h ↦
              rw (post_region, e, h)
                (get_region-IsFine 1 (on_region_change json id (record s { sessions = s1 }))
                  (on_region_change-IsValid id (record s { sessions = s1 }) v1))
        ]
  ]

  write_poll_interval-IsFine :
      (k : ℕ) (s : Server Raw Handle)
      → IsValid s.sessions
      → IsFine (write_poll_interval json r sid k s)
  unfolding write_poll_interval
  write_poll_interval-IsFine k s v = record {
    valid = poll_seconds-IsValid json (r.io k) (r.clock k) sid s.sessions v;
    served = λ e. omega arith;
  }

  post_poll_interval-IsFine :
      (s : Server Raw Handle) → IsValid s.sessions → IsFine (post_poll_interval json r sid s)
  unfolding post_poll_interval
  post_poll_interval-IsFine s v = elim (Option-cases r.seconds_body) [
    | inl e ↦ rw (post_poll_interval, e) (record { valid = v; served = λ h. omega arith })
    | inr (n, e) ↦
        let v1 = set_poll_seconds-IsValid json (r.io 0) (r.clock 0) sid n s.sessions v in
        let s1 = (set_poll_seconds json (r.io 0) (r.clock 0) sid n s.sessions).0 in
        elim (Option-cases (set_poll_seconds json (r.io 0) (r.clock 0) sid n s.sessions).1) [
          | inr (x, h) ↦
              rw (post_poll_interval, e, h) (record { valid = v1; served = λ h. omega arith })
          | inl h ↦
              let v2 = (region-IsValid json (r.io 1) (r.clock 1) sid s1 v1).0 in
              let out = region json (r.io 1) (r.clock 1) sid s1 in
              rw (post_poll_interval, e, h)
                (write_poll_interval-IsFine 2
                  (on_region_change json out.1 (record s { sessions = out.0 }))
                  (on_region_change-IsValid out.1 (record s { sessions = out.0 }) v2))
        ]
  ]

  handle_vehicles-IsFine :
      (s : Server Raw Handle) → IsValid s.sessions → IsFine (handle_vehicles json r sid s)
  unfolding handle_vehicles
  handle_vehicles-IsFine s v =
      let a = active_agencies-IsValid json (r.io 0) (r.clock 0) sid s.sessions v in
      elim r.method as (λ m. r.method ≡ m → IsFine (handle_vehicles json r sid s)) [
        | post ↦ λ e. rw (handle_vehicles, e) (record { valid = v; served = λ h. omega arith })
        | other_method ↦
            λ e. rw (handle_vehicles, e) (record { valid = v; served = λ h. omega arith })
        | get ↦ λ e.
            elim (Result-cases (active_agencies json (r.io 0) (r.clock 0) sid s.sessions).1) [
              | inr (x, h) ↦ absurd (a.1 x h)
              | inl (ids, h) ↦
                  rw (handle_vehicles, e, h) (record { valid = a.0; served = λ h. omega arith })
            ]
      ]
        refl

  handle_region-IsFine :
      (s : Server Raw Handle) → IsValid s.sessions → IsFine (handle_region json r sid s)
  unfolding handle_region
  handle_region-IsFine s v =
      elim r.method as (λ m. r.method ≡ m → IsFine (handle_region json r sid s)) [
        | post ↦ λ e. rw (handle_region, e) (post_region-IsFine s v)
        | get ↦ λ e. rw (handle_region, e) (get_region-IsFine 0 s v)
        | other_method ↦
            λ e. rw (handle_region, e) (record { valid = v; served = λ h. omega arith })
      ]
        refl

  handle_poll_interval-IsFine :
      (s : Server Raw Handle) → IsValid s.sessions → IsFine (handle_poll_interval json r sid s)
  unfolding handle_poll_interval
  handle_poll_interval-IsFine s v =
      elim r.method as (λ m. r.method ≡ m → IsFine (handle_poll_interval json r sid s)) [
        | get ↦ λ e. rw (handle_poll_interval, e) (write_poll_interval-IsFine 0 s v)
        | post ↦ λ e. rw (handle_poll_interval, e) (post_poll_interval-IsFine s v)
        | other_method ↦
            λ e. rw (handle_poll_interval, e) (record { valid = v; served = λ h. omega arith })
      ]
        refl

  handle_regions-IsFine :
      (s : Server Raw Handle) → IsValid s.sessions → IsFine (handle_regions json r sid s)
  unfolding handle_regions
  handle_regions-IsFine s v =
      let v1 = (region-IsValid json (r.io 0) (r.clock 0) sid s.sessions v).0 in
      let s1 = (region json (r.io 0) (r.clock 0) sid s.sessions).0 in
      let v2 = (region-IsValid json (r.io 1) (r.clock 1) sid s1 v1).0 in
      elim r.method as (λ m. r.method ≡ m → IsFine (handle_regions json r sid s)) [
        | get ↦ λ e. rw (handle_regions, e) (record { valid = v2; served = λ h. omega arith })
        | post ↦ λ e. rw (handle_regions, e) (record { valid = v; served = λ h. omega arith })
        | other_method ↦
            λ e. rw (handle_regions, e) (record { valid = v; served = λ h. omega arith })
      ]
        refl

  handle_index-IsFine :
      (s : Server Raw Handle) → IsValid s.sessions → IsFine (handle_index json r sid s)
  unfolding handle_index
  handle_index-IsFine s v =
      let v1 = active_region-IsValid json (r.io 0) (r.clock 0) sid s.sessions v in
      let s1 = (active_region json (r.io 0) (r.clock 0) sid s.sessions).0 in
      let v2 = (active_feeds-IsValid json (r.io 1) (r.clock 1) sid s1 v1).0 in
      let s2 = (active_feeds json (r.io 1) (r.clock 1) sid s1).0 in
      let v3 = poll_seconds-IsValid json (r.io 2) (r.clock 2) sid s2 v2 in
      elim (Bool-cases r.is_root) [
        | inl e ↦ rw (handle_index, e) (record { valid = v3; served = λ h. omega arith })
        | inr e ↦ rw (handle_index, e) (record { valid = v; served = λ h. omega arith })
      ]

  handle_replay_index-IsFine :
      (s : Server Raw Handle) → IsValid s.sessions → IsFine (handle_replay_index json r sid s)
  unfolding handle_replay_index
  handle_replay_index-IsFine s v =
      let v1 = active_region-IsValid json (r.io 0) (r.clock 0) sid s.sessions v in
      elim (Bool-cases r.is_root) [
        | inl e ↦ rw (handle_replay_index, e) (record { valid = v1; served = λ h. omega arith })
        | inr e ↦ rw (handle_replay_index, e) (record { valid = v; served = λ h. omega arith })
      ]

  show_catalog-IsFine :
      (source : Text → Option RegionCatalog) (id : Text) (s : Server Raw Handle)
      → IsValid s.sessions
      → IsFine (show_catalog json r sid source id s)
  unfolding show_catalog
  show_catalog-IsFine source id s v = elim (Option-cases (source id)) [
    | inl e ↦ rw (show_catalog, e) (record { valid = v; served = λ h. omega arith })
    | inr (c, e) ↦ rw (show_catalog, e) (record { valid = v; served = λ h. omega arith })
  ]

  handle_replay_catalog-IsFine :
      (s : Server Raw Handle) → IsValid s.sessions → IsFine (handle_replay_catalog json r sid s)
  unfolding handle_replay_catalog
  handle_replay_catalog-IsFine s v =
      let v1 = (region-IsValid json (r.io 0) (r.clock 0) sid s.sessions v).0 in
      let out = region json (r.io 0) (r.clock 0) sid s.sessions in
      elim r.method as (λ m. r.method ≡ m → IsFine (handle_replay_catalog json r sid s)) [
        | post ↦
            λ e. rw (handle_replay_catalog, e) (record { valid = v; served = λ h. omega arith })
        | other_method ↦
            λ e. rw (handle_replay_catalog, e) (record { valid = v; served = λ h. omega arith })
        | get ↦ λ e. elim (Option-cases s.replay) [
          | inl n ↦
              rw (handle_replay_catalog, e, n) (record { valid = v; served = λ h. omega arith })
          | inr (source, n) ↦ elim (Bool-cases (is_empty r.query_region)) [
            | inl q ↦
                rw (handle_replay_catalog, e, n, q)
                  (show_catalog-IsFine source out.1 (record s { sessions = out.0 }) v1)
            | inr q ↦
                rw (handle_replay_catalog, e, n, q) (show_catalog-IsFine source r.query_region s v)
          ]
        ]
      ]
        refl

  -- Whatever the handler, its method and its body, where the store's sessions are well-formed they
  -- stay so, and the answer is not the internal error of an unknown region.
  pub serve-IsFine : (s : Server Raw Handle) → IsValid s.sessions → IsFine (serve json r sid s)
  unfolding serve
  serve-IsFine s v =
      elim r.endpoint as (λ m. r.endpoint ≡ m → IsFine (serve json r sid s)) [
        | index ↦ λ e. rw (serve, e) (handle_index-IsFine s v)
        | regions ↦ λ e. rw (serve, e) (handle_regions-IsFine s v)
        | one_region ↦ λ e. rw (serve, e) (handle_region-IsFine s v)
        | poll_interval ↦ λ e. rw (serve, e) (handle_poll_interval-IsFine s v)
        | vehicles ↦ λ e. rw (serve, e) (handle_vehicles-IsFine s v)
        | replay_index ↦ λ e. rw (serve, e) (handle_replay_index-IsFine s v)
        | replay_catalog ↦ λ e. rw (serve, e) (handle_replay_catalog-IsFine s v)
      ]
        refl

-- Behind the session cookie, too, the sessions of the store stay well-formed, and an internal error
-- is answered only where the browser sent no cookie and the random source gave no identifier.
pub with_session-IsValid :
    {Raw Handle : Type 0} (json : Json Raw) (r : Request) (cookie : Text) (fresh : Option Text)
    (io : Faults) (now : Time) (s : Server Raw Handle)
    → IsValid s.sessions
    → let (s', answer, set) = with_session json r cookie fresh io now s in
      IsValid s'.sessions × (status answer ≡ 500 → (is_empty cookie ≡ true) × (fresh ≡ none))
unfolding with_session
with_session-IsValid json r cookie fresh io now s v =
    let fine : (sid : Text)
        → IsFine (serve json r sid (record s { sessions = touch json io now sid s.sessions })) =
      λ sid.
        serve-IsFine json r sid (record s { sessions = touch json io now sid s.sessions })
          (touch-IsValid json io now sid s.sessions v) in
    elim (Bool-cases (is_empty cookie)) [
      | inr sent ↦
          rw (with_session, sent) ((fine cookie).valid, λ e. absurd ((fine cookie).served e))
      | inl none_sent ↦ elim (Option-cases fresh) [
        | inl no_id ↦ rw (with_session, none_sent, no_id) (v, λ e. (refl, refl))
        | inr (sid, drawn) ↦
            rw (with_session, none_sent, drawn)
              ((fine sid).valid, λ e. absurd ((fine sid).served e))
      ]
    ]
