-- ===== src/Demo/Session/Preserve.antt =====
-- The exported methods of a `SessionStore` of internal/demo/session.go on well-formed stores.
use go_gedung_peristiwa.Prelude.{
  ◌≡◌, refl, subst, [], ◌∷◌, Option, none, some, ok, Bool, true, false, if◌then◌else◌, All, All_at,
  arith, inl, inr, Bool-cases, Option-cases, Result-cases,
}
use go_gedung_peristiwa.Prelude.Int.{ℤ}
use go_gedung_peristiwa.Text.{Text, is_empty}
use go_gedung_peristiwa.Assoc.{
  Assoc, lookup, insert, Distinct, insert-Distinct, All-insert, Elem-of_lookup,
}
use go_gedung_peristiwa.Time.{Time}
use go_gedung_peristiwa.Gtfs.Regions.{region_by_id}
use go_gedung_peristiwa.Demo.PollSeconds.{
  IsAllowed, normalize_poll_seconds, normalize_poll_seconds-IsAllowed,
  stored_poll_seconds-IsAllowed,
}
use go_gedung_peristiwa.Demo.Session.Store.{
  Json, SessionState, SessionStore, Faults, FileState, default_state, empty_store, prune_expired,
  parse_object, parse_session_value, admit, load_entries, load, open_session_store, persist,
  missing, unreadable, empty, malformed, holding,
}
use go_gedung_peristiwa.Demo.Session.Methods.{touch, set_region, set_poll_seconds}
use go_gedung_peristiwa.Demo.Session.Invariant.{
  IsKnown, IsValid, default_state-IsKnown, state_of-IsKnown, insert-IsValid, prune_expired-IsValid,
  persist-IsValid, empty_store-IsValid, IsValid-with,
}

module _ {Raw : Type 0} (json : Json Raw) where
  -- Saving or not, the store stays well formed.
  saved-IsValid :
      (b : Bool) (io : Faults) (s : SessionStore Raw)
      → IsValid s
      → IsValid (if b then (persist json io s).0 else s)
  saved-IsValid true io s v = persist-IsValid json io s v
  saved-IsValid false io s v = v

  -- What `touch` stores: the session with its time, or a new one.
  session_or_default-IsKnown :
      (s : SessionStore Raw) (sid : Text) (now : Time) (o : Option SessionState)
      → IsValid s
      → lookup sid s.sessions ≡ o
      → IsKnown
          (record (elim o as (λ _. SessionState) [ none ↦ default_state now | some st ↦ st ]) {
            last_seen = now;
          })
  session_or_default-IsKnown s sid now none v e =
      let k = default_state-IsKnown now in
      record { found = k.found; region = k.region; allowed = k.allowed }
  session_or_default-IsKnown s sid now (some st) v e =
      let k =
        All_at (λ (e : Text × SessionState). IsKnown e.1) (sid, st) s.sessions v.known
          (Elem-of_lookup sid st s.sessions e) in
      record { found = k.found; region = k.region; allowed = k.allowed }

  pub touch-IsValid :
      (io : Faults) (now : Time) (sid : Text) (s : SessionStore Raw)
      → IsValid s
      → IsValid (touch json io now sid s)
  unfolding touch
  touch-IsValid io now [] s v = v
  touch-IsValid io now (b ∷ bs) s v = saved-IsValid _ io _ (
      prune_expired-IsValid now _
        (insert-IsValid s (b ∷ bs) _ v (session_or_default-IsKnown s (b ∷ bs) now _ v refl)))

  -- A session that changes its region, its interval or its time is stored, pruned and saved.
  stored-IsValid :
      (io : Faults) (now : Time) (sid : Text) (st : SessionState) (s : SessionStore Raw)
      → IsValid s
      → IsKnown st
      → IsValid
          (persist json io
            (prune_expired now (record s { sessions = insert sid st s.sessions })).0).0
  stored-IsValid io now sid st s v k =
      persist-IsValid json io _ (prune_expired-IsValid now _ (insert-IsValid s sid st v k))

  pub set_region-IsValid :
      (io : Faults) (now : Time) (sid id : Text) (s : SessionStore Raw)
      → IsValid s
      → IsValid (set_region json io now sid id s).0
  unfolding set_region
  set_region-IsValid io now sid id s v = elim (Result-cases (region_by_id id)) [
    | inr (e, refused) ↦ rw (refused, set_region) v
    | inl (r, found) ↦
        rw (found, set_region)
          (stored-IsValid io now sid _ s v (record {
            found = r;
            region = found;
            allowed = (state_of-IsKnown s sid now v).allowed;
          }))
  ]

  pub set_poll_seconds-IsValid :
      (io : Faults) (now : Time) (sid : Text) (seconds : ℤ) (s : SessionStore Raw)
      → IsValid s
      → IsValid (set_poll_seconds json io now sid seconds s).0
  unfolding set_poll_seconds
  set_poll_seconds-IsValid io now sid seconds s v =
      elim (Result-cases (normalize_poll_seconds seconds)) [
        | inr (e, refused) ↦ rw (refused, set_poll_seconds) v
        | inl (n, accepted) ↦
            let k = state_of-IsKnown s sid now v in
            rw (accepted, set_poll_seconds)
              (stored-IsValid io now sid _ s v (record {
                found = k.found;
                region = k.region;
                allowed = (normalize_poll_seconds-IsAllowed seconds n accepted).0;
              }))
      ]

  parse_object-IsAllowed :
      (raw : Raw) (st : SessionState) → parse_object json raw ≡ some st → IsAllowed st.poll_seconds
  unfolding parse_object
  parse_object-IsAllowed raw st h = elim (Option-cases (json.as_state raw)) [
    | inl e ↦ absurd (ground arith)
    | inr (r, e) ↦ ground (arith, stored_poll_seconds-IsAllowed r.poll_seconds)
  ]

  parse_session_value-IsAllowed :
      (raw : Raw) (st : SessionState)
      → parse_session_value json raw ≡ some st
      → IsAllowed st.poll_seconds
  unfolding parse_session_value
  parse_session_value-IsAllowed raw st h = ground (arith, parse_object-IsAllowed raw st)

  admit-IsKnown :
      (now : Time) (raw : Raw) (st : SessionState) → admit json now raw ≡ some st → IsKnown st
  unfolding admit
  admit-IsKnown now raw st h = elim (Option-cases (parse_session_value json raw)) [
    | inl e ↦ absurd (ground arith)
    | inr (st', e) ↦ elim (Result-cases (region_by_id st'.region)) [
      | inr (x, refused) ↦ absurd (ground arith)
      | inl (r, found) ↦ record {
        found = r;
        region = ground arith;
        allowed = ground (arith, parse_session_value-IsAllowed raw st' e);
      }
    ]
  ]

  load_entries-IsValid :
      (now : Time) (es : Assoc Raw) (m : Assoc SessionState)
      → Distinct m
      → All (λ e. IsKnown e.1) m
      → Distinct (load_entries json now es m) × All (λ e. IsKnown e.1) (load_entries json now es m)
  unfolding load_entries
  load_entries-IsValid now [] m d k = (d, k)
  load_entries-IsValid now ((sid, raw) ∷ es) m d k = elim (Option-cases (admit json now raw)) [
    | inl e ↦ rw (e, load_entries) (load_entries-IsValid now es m d k)
    | inr (st, e) ↦
        rw (e, load_entries)
          (load_entries-IsValid now es (insert sid st m) (insert-Distinct sid st m d)
            (All-insert (λ e. IsKnown e.1) sid st m (admit-IsKnown now raw st e) k))
  ]

  load_file-IsValid :
      (now : Time) (s t : SessionStore Raw) (f : FileState Raw)
      → s.file ≡ f
      → IsValid s
      → load json now s ≡ ok t
      → is_empty s.path ≡ false
      → IsValid t
  unfolding load
  load_file-IsValid now s t missing e v h named =
      let same : s ≡ t = ground arith in subst IsValid same v
  load_file-IsValid now s t unreadable e v h named = absurd (ground arith)
  load_file-IsValid now s t empty e v h named =
      let same : s ≡ t = ground arith in subst IsValid same v
  load_file-IsValid now s t malformed e v h named = absurd (ground arith)
  load_file-IsValid now s t (holding es) e v h named =
      let m = load_entries json now es s.sessions in
      let same : record s { sessions = m } ≡ t = ground arith in
      let (d, k) = load_entries-IsValid now es s.sessions v.distinct v.known in
      subst IsValid same (IsValid-with s m v d k)

  pub load-IsValid :
      (now : Time) (s t : SessionStore Raw) → IsValid s → load json now s ≡ ok t → IsValid t
  unfolding load
  load-IsValid now s t v h = elim (Bool-cases (is_empty s.path)) [
    | inl unnamed ↦ let same : s ≡ t = ground arith in subst IsValid same v
    | inr named ↦ load_file-IsValid now s t s.file refl v h named
  ]

  -- Whatever the file holds, a store that opens is well formed.
  pub open_session_store-IsValid :
      (now : Time) (path : Text) (file : FileState Raw) (s : SessionStore Raw)
      → open_session_store json now path file ≡ ok s
      → IsValid s
  unfolding open_session_store
  open_session_store-IsValid now path file s h =
      load-IsValid now (empty_store path file) s (empty_store-IsValid path file) h
