-- ===== src/Demo/Session/Invariant.antt =====
-- The well-formedness of a `SessionStore` of internal/demo/session.go.
use go_gedung_peristiwa.Prelude.{
  ℕ, ◌<◌, ◌≡◌, refl, [], ◌∷◌, ok, Bool, if◌then◌else◌, leb, ℕ_discrete, keep, All, All_at, arith,
  inl, inr, Bool-cases, Option-cases, not,
}
use go_gedung_peristiwa.Text.{Text, text_dec}
use go_gedung_peristiwa.Assoc.{
  Assoc, lookup, insert, erase, Distinct, insert-Distinct, erase-Distinct, keep-Distinct,
  All-insert, All-erase, All-keep_of, Elem-of_lookup,
}
use go_gedung_peristiwa.Time.{Time}
use go_gedung_peristiwa.Gtfs.Regions.{
  MapRegion, region_by_id, default_region_id, map_regions, find_region,
}
use go_gedung_peristiwa.Demo.PollSeconds.{IsAllowed}
use go_gedung_peristiwa.Demo.Session.Store.{
  Json, SessionState, SessionStore, Faults, FileState, session_expired, prune_entries,
  default_state, fill_seconds, state_of, empty_store, prune_expired, persist, prune_and_persist,
}
use go_gedung_peristiwa.Demo.Session.Methods.{acquire_live, release_live}

-- A session names a region of the catalogue and one of the three intervals.
pub record IsKnown (st : SessionState) : Type 0 where
  pub found : MapRegion
  pub region : region_by_id st.region ≡ ok found
  pub allowed : IsAllowed st.poll_seconds

-- Keys are unique, sessions are known, and no live entry counts 0 viewers.
pub record IsValid {Raw : Type 0} (s : SessionStore Raw) : Type 0 where
  pub distinct : Distinct s.sessions
  pub known : All (λ e. IsKnown e.1) s.sessions
  pub live_distinct : Distinct s.live
  pub counted : All (λ e. 0 < e.1) s.live

abbrev pub is_fresh : Time → Text × SessionState → Bool
is_fresh now e = not (session_expired e.1 now)

-- Pruning keeps exactly the sessions that are not expired.
pub prune_entries-keep :
    (now : Time) (m : Assoc SessionState) → (prune_entries now m).0 ≡ keep (is_fresh now) m
unfolding prune_entries
prune_entries-keep now [] = refl
prune_entries-keep now ((sid, st) ∷ m) = ground (arith, prune_entries-keep now m)

default_region : (r : MapRegion) × (region_by_id default_region_id ≡ ok r)
unfolding region_by_id find_region map_regions text_dec ℕ_discrete
default_region = (_, refl)

pub default_state-IsKnown : (now : Time) → IsKnown (default_state now)
unfolding default_state
default_state-IsKnown now = record {
  found = default_region.0;
  region = default_region.1;
  allowed = inl refl;
}

fill_seconds-IsKnown : (st : SessionState) → IsKnown st → IsKnown (fill_seconds st)
unfolding fill_seconds
fill_seconds-IsKnown st k = record {
  found = k.found;
  region = ground (arith, k.region);
  allowed = ground (arith, k.allowed);
}

module _ {Raw : Type 0} where
  pub empty_store-IsValid : (path : Text) (file : FileState Raw) → IsValid (empty_store path file)
  unfolding empty_store
  empty_store-IsValid path file = record {
    distinct = tt;
    known = tt;
    live_distinct = tt;
    counted = tt;
  }

  pub IsValid-with :
      (s : SessionStore Raw) (m : Assoc SessionState)
      → IsValid s
      → Distinct m
      → All (λ e. IsKnown e.1) m
      → IsValid (record s { sessions = m })
  IsValid-with s m v d k = record {
    distinct = d;
    known = k;
    live_distinct = v.live_distinct;
    counted = v.counted;
  }

  pub insert-IsValid :
      (s : SessionStore Raw) (sid : Text) (st : SessionState)
      → IsValid s
      → IsKnown st
      → IsValid (record s { sessions = insert sid st s.sessions })
  insert-IsValid s sid st v k =
      IsValid-with s _ v (insert-Distinct sid st s.sessions v.distinct)
        (All-insert (λ e. IsKnown e.1) sid st s.sessions k v.known)

  pub prune_expired-IsValid :
      (now : Time) (s : SessionStore Raw) → IsValid s → IsValid (prune_expired now s).0
  unfolding prune_expired
  prune_expired-IsValid now s v =
      IsValid-with s _ v
        (rw (prune_entries-keep now s.sessions)
          (keep-Distinct (is_fresh now) s.sessions v.distinct))
        (rw (prune_entries-keep now s.sessions)
          (All-keep_of (λ e. IsKnown e.1) (is_fresh now) s.sessions v.known))

  pub state_of-IsKnown :
      (s : SessionStore Raw) (sid : Text) (now : Time)
      → IsValid s
      → IsKnown (state_of s.sessions sid now)
  unfolding state_of
  state_of-IsKnown s sid now v = elim (Option-cases (lookup sid s.sessions)) [
    | inl e ↦ rw (e, state_of) (default_state-IsKnown now)
    | inr (st, e) ↦
        rw (e, state_of)
          (fill_seconds-IsKnown st (
            All_at (λ (e : Text × SessionState). IsKnown e.1) (sid, st) s.sessions v.known
              (Elem-of_lookup sid st s.sessions e)))
  ]

  pub acquire_live-IsValid :
      (sid : Text) (s : SessionStore Raw) → IsValid s → IsValid (acquire_live sid s)
  unfolding acquire_live
  acquire_live-IsValid [] s v = v
  acquire_live-IsValid (b ∷ bs) s v = record {
    distinct = v.distinct;
    known = v.known;
    live_distinct = insert-Distinct _ _ s.live v.live_distinct;
    counted = All-insert (λ e. 0 < e.1) _ _ s.live (omega arith) v.counted;
  }

  release-IsValid :
      (sid : Text) (n : ℕ) (s : SessionStore Raw)
      → IsValid s
      → IsValid (
          if leb n 0
          then record s { live = erase sid s.live }
          else record s { live = insert sid n s.live })
  release-IsValid sid n s v = elim (Bool-cases (leb n 0)) [
    | inl e ↦ rw e (record {
      distinct = v.distinct;
      known = v.known;
      live_distinct = erase-Distinct sid s.live v.live_distinct;
      counted = All-erase (λ e. 0 < e.1) sid s.live v.counted;
    })
    | inr e ↦ rw e (record {
      distinct = v.distinct;
      known = v.known;
      live_distinct = insert-Distinct sid n s.live v.live_distinct;
      counted = All-insert (λ e. 0 < e.1) sid n s.live (ground arith) v.counted;
    })
  ]

  pub release_live-IsValid :
      (sid : Text) (s : SessionStore Raw) → IsValid s → IsValid (release_live sid s)
  unfolding release_live
  release_live-IsValid [] s v = v
  release_live-IsValid (b ∷ bs) s v = release-IsValid (b ∷ bs) _ s v

module _ {Raw : Type 0} (json : Json Raw) where
  -- Saving changes the file alone.
  pub persist-file :
      (io : Faults) (s : SessionStore Raw)
      → (file : FileState Raw) × ((persist json io s).0 ≡ record s { file = file })
  unfolding persist
  persist-file io s = ((persist json io s).0.file, ground arith)

  pub persist-IsValid :
      (io : Faults) (s : SessionStore Raw) → IsValid s → IsValid (persist json io s).0
  persist-IsValid io s v =
      let (file, e) = persist-file io s in
      rw e (record {
        distinct = v.distinct;
        known = v.known;
        live_distinct = v.live_distinct;
        counted = v.counted;
      })

  pub prune_and_persist-IsValid :
      (io : Faults) (now : Time) (s : SessionStore Raw)
      → IsValid s
      → IsValid (prune_and_persist json io now s)
  unfolding prune_and_persist
  prune_and_persist-IsValid io now s v = elim (Bool-cases (prune_expired now s).1) [
    | inl e ↦ rw e (persist-IsValid io _ (prune_expired-IsValid now s v))
    | inr e ↦ rw e (prune_expired-IsValid now s v)
  ]
