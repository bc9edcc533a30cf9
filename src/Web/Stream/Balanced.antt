-- ===== src/Web/Stream/Balanced.antt =====
-- The viewers that handleVehicleStream of internal/web/demo/server.go counts.
use go_gedung_peristiwa.Prelude.{
  ◌+◌, ◌-◌, ◌≡◌, refl, ◌≢◌, ap, ◌∙◌, List, [], ◌∷◌, All, arith, Result-cases, Bool-cases, inl, inr,
  ite,
}
use go_gedung_peristiwa.Text.{Text, text_dec}
use go_gedung_peristiwa.Time.{Time}
use go_gedung_peristiwa.Assoc.{lookup-insert, lookup-erase}
use go_gedung_peristiwa.Demo.Session.Store.{
  Json, SessionStore, Faults, persist, prune_expired, prune_and_persist,
}
use go_gedung_peristiwa.Demo.Session.Methods.{
  acquire_live, release_live, touch, count_of, region, active_region, active_agencies,
}
use go_gedung_peristiwa.Web.Handlers.{Server}
use go_gedung_peristiwa.Web.Stream.{
  Push, Signal, ended, unsubscribed, heartbeat, polled, push_snapshot, push_stats,
  push_ingest_event, stream_loop, stream_body, handle_vehicle_stream,
}

module _ {Raw : Type 0} (json : Json Raw) where
  persist-live : (io : Faults) (s : SessionStore Raw) → (persist json io s).0.live ≡ s.live
  unfolding persist
  persist-live io s = ground arith

  prune_and_persist-live :
      (io : Faults) (now : Time) (s : SessionStore Raw)
      → (prune_and_persist json io now s).live ≡ s.live
  unfolding prune_and_persist prune_expired
  prune_and_persist-live io now s = ground (arith, persist-live io (prune_expired now s).0)

  touch-live :
      (io : Faults) (now : Time) (sid : Text) (s : SessionStore Raw)
      → (touch json io now sid s).live ≡ s.live
  unfolding touch prune_expired persist
  touch-live io now sid s = ground arith

count_of-acquire_live :
    {Raw : Type 0} (sid j : Text) (s : SessionStore Raw)
    → sid ≢ []
    → count_of j (acquire_live sid s).live
      ≡ ite (text_dec sid j) (count_of sid s.live + 1) (count_of j s.live)
unfolding acquire_live count_of
count_of-acquire_live [] j s n = absurd (n refl)
count_of-acquire_live (b ∷ bs) j s n =
    ground (arith, lookup-insert (b ∷ bs) j (count_of (b ∷ bs) s.live + 1) s.live)

count_of-release_live :
    {Raw : Type 0} (sid j : Text) (s : SessionStore Raw)
    → sid ≢ []
    → count_of j (release_live sid s).live
      ≡ ite (text_dec sid j) (count_of sid s.live - 1) (count_of j s.live)
unfolding release_live count_of
count_of-release_live [] j s n = absurd (n refl)
count_of-release_live (b ∷ bs) j s n = ground (
  arith,
  lookup-insert (b ∷ bs) j (count_of (b ∷ bs) s.live - 1) s.live,
  lookup-erase (b ∷ bs) j s.live,
)

module _ {Raw Handle : Type 0} (json : Json Raw) (sid : Text) where
  push_ingest_event-live :
      (p : Push) (s : Server Raw Handle)
      → (push_ingest_event json sid p s).0.sessions.live ≡ s.sessions.live
  unfolding push_ingest_event region active_region active_agencies
  push_ingest_event-live p s =
      let s1 = (region json (p.io 3) (p.clock 3) sid s.sessions).0 in
      let s2 = (active_region json (p.io 4) (p.clock 4) sid s1).0 in
      ground (
        arith,
        prune_and_persist-live json (p.io 3) (p.clock 3) s.sessions,
        prune_and_persist-live json (p.io 4) (p.clock 4) s1,
        prune_and_persist-live json (p.io 5) (p.clock 5) s2,
      )

  push_stats-live :
      (p : Push) (ids : List Text) (s : Server Raw Handle)
      → (push_stats json sid p ids s).0.sessions.live ≡ s.sessions.live
  unfolding push_stats region
  push_stats-live p ids s =
      ground (arith, prune_and_persist-live json (p.io 2) (p.clock 2) s.sessions)

  push_snapshot-live :
      (p : Push) (ids : List Text) (s : Server Raw Handle)
      → (push_snapshot json sid p ids s).0.sessions.live ≡ s.sessions.live
  unfolding push_snapshot
  push_snapshot-live p ids s =
      ground
        (arith, push_stats-live p ids s, push_ingest_event-live p (push_stats json sid p ids s).0)

  -- What others do keeps the viewers of the session.
  abbrev pub Keeps : (Server Raw Handle → Server Raw Handle) → Type 0
  Keeps others =
      (s : Server Raw Handle) → count_of sid (others s).sessions.live ≡ count_of sid s.sessions.live

  stream_loop-count_of :
      (ids : List Text) (signals : List ((Server Raw Handle → Server Raw Handle) × Signal))
      (s : Server Raw Handle)
      → All (λ e. Keeps e.0) signals
      → count_of sid (stream_loop json sid ids signals s).0.sessions.live
        ≡ count_of sid s.sessions.live
  unfolding stream_loop
  stream_loop-count_of ids [] s h = refl
  stream_loop-count_of ids ((others, ended) ∷ rest) s h = h.0 s
  stream_loop-count_of ids ((others, unsubscribed) ∷ rest) s h = h.0 s
  stream_loop-count_of ids ((others, heartbeat now io) ∷ rest) s h =
      let s1 = others s in
      stream_loop-count_of ids rest (record s1 { sessions = touch json io now sid s1.sessions }) h.1
      ∙ ap (count_of sid) (touch-live json io now sid s1.sessions)
      ∙ h.0 s
  stream_loop-count_of ids ((others, polled now io p) ∷ rest) s h =
      let s1 = others s in
      let t : Server Raw Handle = record s1 { sessions = touch json io now sid s1.sessions } in
      let pushed =
        ap (count_of sid) (push_snapshot-live p ids t ∙ touch-live json io now sid s1.sessions)
        ∙ h.0 s in
      elim (Bool-cases (push_snapshot json sid p ids t).2) [
        | inl told ↦
            rw (stream_loop, told)
              (stream_loop-count_of ids rest (push_snapshot json sid p ids t).0 h.1 ∙ pushed)
        | inr failed ↦ rw (stream_loop, failed) pushed
      ]

  stream_body-count_of :
      (first : Push) (io : Faults) (now : Time)
      (signals : List ((Server Raw Handle → Server Raw Handle) × Signal)) (s : Server Raw Handle)
      → All (λ e. Keeps e.0) signals
      → count_of sid (stream_body json sid first io now signals s).0.sessions.live
        ≡ count_of sid s.sessions.live
  unfolding stream_body active_agencies region
  stream_body-count_of first io now signals s h =
      let opened : Server Raw Handle = record s {
        sessions = (active_agencies json io now sid s.sessions).0;
      } in
      let same = ap (count_of sid) (prune_and_persist-live json io now s.sessions) in
      elim (Result-cases (active_agencies json io now sid s.sessions).1) [
        | inr (e, x) ↦ rw (stream_body, x) same
        | inl (ids, x) ↦
            let pushed = ap (count_of sid) (push_snapshot-live first ids opened) ∙ same in
            elim (Bool-cases (push_snapshot json sid first ids opened).2) [
              | inl told ↦
                  rw (stream_body, x, told)
                    (stream_loop-count_of ids signals (push_snapshot json sid first ids opened).0 h
                      ∙ pushed)
              | inr failed ↦ rw (stream_body, x, failed) pushed
            ]
      ]

  -- However a stream of the live map ends (the request is over, the pipeline's channel is closed, a
  -- write fails or the session's region is not known), its session, where its identifier is not
  -- empty, has as many viewers afterwards as before, if others keep their number meanwhile.
  pub handle_vehicle_stream-count_of :
      (first : Push) (io : Faults) (now : Time)
      (signals : List ((Server Raw Handle → Server Raw Handle) × Signal)) (s : Server Raw Handle)
      → sid ≢ []
      → All (λ e. Keeps e.0) signals
      → count_of sid (handle_vehicle_stream json sid first io now signals s).0.sessions.live
        ≡ count_of sid s.sessions.live
  unfolding handle_vehicle_stream
  handle_vehicle_stream-count_of first io now signals s n h =
      let entered : Server Raw Handle = record s { sessions = acquire_live sid s.sessions } in
      let body = stream_body json sid first io now signals entered in
      ground (
        arith,
        count_of-release_live sid sid (stream_body json sid first io now signals entered).0.sessions
            n,
        stream_body-count_of first io now signals entered h,
        count_of-acquire_live sid sid s.sessions n,
      )
