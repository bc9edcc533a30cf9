-- ===== src/Demo/Session/Live.antt =====
-- What the queries of internal/demo/session.go say of the connected viewers.
use go_gedung_peristiwa.Prelude.{
  ℕ, ◌-◌, ◌<◌, ◌≡◌, refl, List, [], ◌∷◌, ◌++◌, none, some, false, keep, Elem, Unique, arith, inl,
  inr, Bool-cases, Option-cases, ap, sym, ◌∙◌, ◌↔◌, ◌≢◌,
}
use go_gedung_peristiwa.Text.{Text, is_empty_ne}
use go_gedung_peristiwa.Assoc.{Assoc, lookup, lookup-keep, Elem-of_lookup, lookup_of_Elem}
use go_gedung_peristiwa.Time.{Time}
use go_gedung_peristiwa.Gtfs.Regions.{contains}
use go_gedung_peristiwa.Gtfs.Regions.Dedup.{dedup, dedup-Elem, dedup-Unique}
use go_gedung_peristiwa.Demo.Session.Store.{
  Json, SessionState, SessionStore, Faults, session_expired, session_idle_ttl, prune_expired,
  prune_and_persist,
}
use go_gedung_peristiwa.Demo.Session.Methods.{viewed_region, live_ids, live_region_ids}
use go_gedung_peristiwa.Demo.Session.Invariant.{IsValid, is_fresh, prune_entries-keep}

-- A connected viewer of the region: a live entry of a session that has reported within the last
-- five minutes.
pub record Views {Raw : Type 0} (s : SessionStore Raw) (now : Time) (sid r : Text) : Type 0 where
  pub viewers : ℕ
  pub state : SessionState
  pub is_live : lookup sid s.live ≡ some viewers
  pub connected : 0 < viewers
  pub session : lookup sid s.sessions ≡ some state
  pub selected : state.region ≡ r
  pub named : r ≢ []
  pub reported : 0 < state.last_seen
  pub recent : now - state.last_seen < session_idle_ttl

-- The regions that the live entries add, repeats included.
views : Time → Assoc SessionState → Assoc ℕ → List Text
views now m [] = []
views now m ((sid, n) ∷ live) = elim (viewed_region now m sid n) [
  | none ↦ views now m live
  | some r ↦ r ∷ views now m live
]

live_ids-dedup :
    (now : Time) (m : Assoc SessionState) (live : Assoc ℕ) (seen ids : List Text)
    → live_ids now m live seen ids ≡ dedup (views now m live) seen ids
unfolding live_ids views dedup
live_ids-dedup now m [] seen ids = refl
live_ids-dedup now m ((sid, n) ∷ live) seen ids = elim (Option-cases (viewed_region now m sid n)) [
  | inl e ↦ rw (e, live_ids, views) (live_ids-dedup now m live seen ids)
  | inr (r, e) ↦ elim (Bool-cases (contains r seen)) [
    | inl dup ↦ rw (e, live_ids, views, dup, dedup) (live_ids-dedup now m live seen ids)
    | inr new ↦
        rw (e, live_ids, views, new, dedup) (live_ids-dedup now m live (r ∷ seen) (ids ++ r ∷ []))
  ]
]

-- A live entry that adds the region.
record Adds (now : Time) (m : Assoc SessionState) (live : Assoc ℕ) (r : Text) : Type 0 where
  sid : Text
  viewers : ℕ
  entry : Elem (sid, viewers) live
  adds : viewed_region now m sid viewers ≡ some r

views-Adds :
    (now : Time) (m : Assoc SessionState) (live : Assoc ℕ) (r : Text)
    → Elem r (views now m live)
    → Adds now m live r
unfolding views
views-Adds now m [] r h = elim h [ ]
views-Adds now m ((sid, n) ∷ live) r h = elim (Option-cases (viewed_region now m sid n)) [
  | inl e ↦ later (views-Adds now m live r (rw (e, views) at h))
  | inr (q, e) ↦ elim (rw (e, views) at h) as (λ _. Adds now m ((sid, n) ∷ live) r) [
    | inl same ↦ record { sid = sid; viewers = n; entry = inl refl; adds = e ∙ ap some (sym same) }
    | inr rest ↦ later (views-Adds now m live r rest)
  ]
]
  where
    later : Adds now m live r → Adds now m ((sid, n) ∷ live) r
    later a = record { sid = a.sid; viewers = a.viewers; entry = inr a.entry; adds = a.adds }

Adds-views :
    (now : Time) (m : Assoc SessionState) (sid : Text) (n : ℕ) (live : Assoc ℕ) (r : Text)
    → viewed_region now m sid n ≡ some r
    → Elem (sid, n) live
    → Elem r (views now m live)
unfolding views
Adds-views now m sid n [] r e h = elim h [ ]
Adds-views now m sid n ((j, k) ∷ live) r e (inl same) = ground arith
Adds-views now m sid n ((j, k) ∷ live) r e (inr rest) =
    elim (Option-cases (viewed_region now m j k)) [
      | inl f ↦ rw (f, views) (Adds-views now m sid n live r e rest)
      | inr (q, f) ↦ rw (f, views) (inr (Adds-views now m sid n live r e rest))
    ]

module _ {Raw : Type 0} (json : Json Raw) (io : Faults) (now : Time) (s : SessionStore Raw) where
  pub sessions-prune : (prune_and_persist json io now s).sessions ≡ keep (is_fresh now) s.sessions
  unfolding prune_and_persist prune_expired
  sessions-prune = ground (arith, prune_entries-keep now s.sessions)

  pub live-prune : (prune_and_persist json io now s).live ≡ s.live
  unfolding prune_and_persist prune_expired
  live-prune = ground arith

  fresh_session :
      (v : IsValid s) (sid : Text) (st : SessionState)
      → (lookup sid (keep (is_fresh now) s.sessions) ≡ some st)
        ↔ ((lookup sid s.sessions ≡ some st) × (session_expired st now ≡ false))
  fresh_session v sid st = (
    λ h. ground (arith, lookup-keep (is_fresh now) sid s.sessions v.distinct),
    λ h. ground (arith, lookup-keep (is_fresh now) sid s.sessions v.distinct),
  )

  viewed-Views :
      (v : IsValid s) (sid r : Text) (n : ℕ)
      → lookup sid s.live ≡ some n
      → viewed_region now (keep (is_fresh now) s.sessions) sid n ≡ some r
      → Views s now sid r
  unfolding viewed_region session_expired
  viewed-Views v sid r n e h = elim (Option-cases (lookup sid (keep (is_fresh now) s.sessions))) [
    | inl missing ↦ absurd (ground arith)
    | inr (st, found) ↦
        let (known, fresh) = (fresh_session v sid st).0 found in
        record {
          viewers = n;
          state = st;
          is_live = e;
          connected = ground arith;
          session = known;
          selected = ground arith;
          named = λ q. ground arith;
          reported = ground arith;
          recent = ground arith;
        }
  ]

  Views-viewed :
      (v : IsValid s) (sid r : Text) (w : Views s now sid r)
      → viewed_region now (keep (is_fresh now) s.sessions) sid w.viewers ≡ some r
  unfolding viewed_region session_expired
  Views-viewed v sid r w =
      let expired : session_expired w.state now ≡ false = ground arith in
      let found = (fresh_session v sid w.state).1 (w.session, expired) in
      ground (arith, is_empty_ne r w.named)

  -- On a well-formed store, `LiveRegionIDs` gives exactly the regions that a session with a
  -- connected viewer and a report within the last five minutes has selected, each once.
  pub live_region_ids-Views :
      IsValid s
      → Unique (live_region_ids json io now s).1
        × ((r : Text)
            → Elem r (live_region_ids json io now s).1 ↔ ((sid : Text) × Views s now sid r))
  unfolding live_region_ids
  live_region_ids-Views v =
      rw (sessions-prune, live-prune, live_ids-dedup)
        (
          dedup-Unique _,
          λ r. (
            λ h.
                let a = views-Adds now _ s.live r ((dedup-Elem _ r).0 h) in
                (
                  a.sid,
                  viewed-Views v a.sid r a.viewers
                      (lookup_of_Elem a.sid a.viewers s.live v.live_distinct a.entry) a.adds,
                ),
            λ h. (dedup-Elem _ r).1 (
                Adds-views now _ h.0 h.1.viewers s.live r (Views-viewed v h.0 r h.1)
                  (Elem-of_lookup h.0 h.1.viewers s.live h.1.is_live)),
          ),
        )
