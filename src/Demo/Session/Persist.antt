-- ===== src/Demo/Session/Persist.antt =====
-- Saving and loading of internal/demo/session.go, one after the other.
use go_gedung_peristiwa.Prelude.{
  ◌≡◌, refl, sym, ◌∙◌, [], ◌∷◌, ◌++◌, append_assoc, append-nil, none, some, ok, ℕ_discrete, false,
  if◌then◌else◌, keep, All, arith, Option-cases, Bool-cases, inl, inr, subst,
}
use go_gedung_peristiwa.Prelude.Int.{pos}
use go_gedung_peristiwa.Text.{Text, is_empty, text_dec}
use go_gedung_peristiwa.Assoc.{
  Assoc, lookup, Distinct, lookup-append_none, none-append, insert_fresh,
}
use go_gedung_peristiwa.Time.{Time}
use go_gedung_peristiwa.Gtfs.Regions.{MapRegion, region_by_id, find_region, map_regions}
use go_gedung_peristiwa.Demo.PollSeconds.{stored_poll_seconds_id}
use go_gedung_peristiwa.Demo.Session.Store.{
  Json, SessionState, SessionStore, Faults, session_expired, fill_seconds, parse_object,
  parse_session_value, admit, load_entries, load, empty_store, open_session_store, encode_sessions,
  persist,
}
use go_gedung_peristiwa.Demo.Session.Invariant.{IsKnown, IsValid, is_fresh}

module _ {V : Type 0} where
  Distinct-drop :
      (k : Text) (v : V) (acc m : Assoc V) → Distinct (acc ++ (k, v) ∷ m) → Distinct (acc ++ m)
  unfolding lookup
  Distinct-drop k v [] m d = d.1
  Distinct-drop k v ((j, u) ∷ acc) m d =
      let (a, b) = lookup-append_none j acc ((k, v) ∷ m) d.0 in
      (none-append j acc m a (ground arith), Distinct-drop k v acc m d.1)

region_named : (r : Text) (m : MapRegion) → region_by_id r ≡ ok m → is_empty r ≡ false
unfolding region_by_id find_region map_regions text_dec ℕ_discrete
region_named [] m h = absurd (ground arith)
region_named (b ∷ bs) m h = refl

module _ {Raw : Type 0} (json : Json Raw) where
  -- The codec decodes what it encodes, field by field, and an object is no string.
  pub record Decodes : Type 0 where
    pub no_string :
        (st : SessionState) (raw : Raw) → json.marshal st ≡ some raw → json.as_string raw ≡ none
    pub state :
        (st : SessionState) (raw : Raw)
        → json.marshal st ≡ some raw
        → json.as_state raw
          ≡ some (record {
            region = st.region;
            poll_seconds = pos st.poll_seconds;
            last_seen = st.last_seen;
          })

  fill_seconds-IsKnown : (st : SessionState) → IsKnown st → fill_seconds st ≡ st
  unfolding fill_seconds
  fill_seconds-IsKnown st k = ground (arith, k.allowed)

  admit-marshal :
      (now : Time) (st : SessionState) (raw : Raw)
      → Decodes
      → IsKnown st
      → json.marshal (fill_seconds st) ≡ some raw
      → admit json now raw ≡ (if session_expired st now then none else some st)
  unfolding admit parse_session_value parse_object
  admit-marshal now st raw c k h =
      let e : json.marshal st ≡ some raw = rw (fill_seconds-IsKnown st k) at h in
      ground (
        arith,
        c.no_string st raw e,
        c.state st raw e,
        region_named st.region k.found k.region,
        k.region,
        stored_poll_seconds_id st.poll_seconds k.allowed,
      )

  load_entries-encode :
      (now : Time) (m acc : Assoc SessionState) (es : Assoc Raw)
      → Decodes
      → All (λ e. IsKnown e.1) m
      → Distinct (acc ++ m)
      → encode_sessions json m ≡ some es
      → load_entries json now es acc ≡ acc ++ keep (is_fresh now) m
  unfolding load_entries encode_sessions
  load_entries-encode now [] acc es c k d h =
      let same : [] ≡ es = ground arith in rw (← same, load_entries) (sym (append-nil acc))
  load_entries-encode now ((sid, st) ∷ m) acc es c k d h =
      elim (Option-cases (json.marshal (fill_seconds st))) [
        | inl e ↦ absurd (ground arith)
        | inr (raw, e) ↦ elim (Option-cases (encode_sessions json m)) [
          | inl n ↦ absurd (ground arith)
          | inr (rest, n) ↦
              let same : (sid, raw) ∷ rest ≡ es = ground arith in
              rw (← same, load_entries, admit-marshal now st raw c k.0 e)
                (elim (Bool-cases (session_expired st now)) [
                  | inl old ↦
                      rw (old)
                        (load_entries-encode now m acc rest c k.1 (Distinct-drop sid st acc m d) n)
                  | inr fresh ↦
                      rw (fresh, insert_fresh sid st st acc m d)
                        (load_entries-encode now m (acc ++ (sid, st) ∷ []) rest c k.1
                            (subst Distinct (sym (append_assoc acc ((sid, st) ∷ []) m)) d) n
                          ∙ append_assoc acc ((sid, st) ∷ []) (keep (is_fresh now) m))
                ])
        ]
      ]

  -- Where the codec decodes what it encodes, a well-formed store with a path that was saved without
  -- an error is opened again with exactly the sessions that have not expired since, and no viewers.
  pub persist-open_session_store :
      (io : Faults) (now : Time) (s : SessionStore Raw)
      → Decodes
      → IsValid s
      → is_empty s.path ≡ false
      → (persist json io s).1 ≡ none
      → open_session_store json now s.path (persist json io s).0.file
        ≡ ok (record (persist json io s).0 { sessions = keep (is_fresh now) s.sessions; live = [] })
  unfolding persist open_session_store load empty_store
  persist-open_session_store io now s c v named h =
      elim (Option-cases (encode_sessions json s.sessions)) [
        | inl e ↦ absurd (ground arith)
        | inr (es, e) ↦
            ground (arith, load_entries-encode now s.sessions [] es c v.known v.distinct e)
      ]
