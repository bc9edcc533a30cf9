-- ===== src/Gtfs/Poller/Accept.antt =====
-- The positions that internal/gtfs/poller.go takes from a message.
use go_gedung_peristiwa.Prelude.{
  ℕ, ◌+◌, ◌≡◌, refl, List, [], ◌∷◌, ◌++◌, none, some, Bool, true, false, Result, ok, if◌then◌else◌,
  length, length-append, All, All-append, subst, arith, Option-cases, Bool-cases, inl, inr, ◌⊎◌,
}
use go_gedung_peristiwa.Text.{is_empty}
use go_gedung_peristiwa.Time.{Time}
use go_gedung_peristiwa.Gtfs.Bounds.{valid_malaysia_bounds}
use go_gedung_peristiwa.Gtfs.Feeds
use go_gedung_peristiwa.Gtfs.Position.{VehiclePosition}
use go_gedung_peristiwa.Gtfs.Poller.{parse_feed_message}
use go_gedung_peristiwa.Gtfs.Poller.Feed.{
  Entity, Parsed, ignored, skipped, accepted, parse_entity, parse_entities, entity_vehicle_id,
}

-- A position of the feed's agency, of a vehicle that is named, within the bounds.
pub record IsPlausible (feed : Feeds.Feed) (pos : VehiclePosition) : Type 0 where
  pub agency : pos.agency ≡ feed.agency
  pub named : is_empty pos.vehicle_id ≡ false
  pub bounded : valid_malaysia_bounds pos.lat pos.lng ≡ true

-- An entity with a vehicle and its position.
abbrev pub is_located : Entity → Bool
is_located entity = elim entity.vehicle [
  | none ↦ false
  | some vp ↦ elim vp.position [ none ↦ false | some p ↦ true ]
]

abbrev pub count_located : List Entity → ℕ
count_located [] = 0
count_located (e ∷ es) = if is_located e then 1 + count_located es else count_located es

Parsed-cases :
    (p : Parsed) → (p ≡ ignored) ⊎ (p ≡ skipped) ⊎ ((pos : VehiclePosition) × (p ≡ accepted pos))
Parsed-cases ignored = inl refl
Parsed-cases skipped = inr (inl refl)
Parsed-cases (accepted pos) = inr (inr (pos, refl))

module _ (clock : ℕ → Time) (unix : ℕ → Time) (feed : Feeds.Feed) where
  -- An accepted entity is plausible, and exactly the entities without a position are ignored.
  abbrev Fits : Entity → Parsed → Type 0
  Fits e ignored = is_located e ≡ false
  Fits e skipped = is_located e ≡ true
  Fits e (accepted pos) = (is_located e ≡ true) × IsPlausible feed pos

  parse_entity-Fits : (i : ℕ) (e : Entity) → Fits e (parse_entity clock unix feed i e)
  unfolding parse_entity
  parse_entity-Fits i e = elim (Option-cases e.vehicle) [
    | inl none_here ↦ rw none_here refl
    | inr (vp, v) ↦ elim (Option-cases vp.position) [
      | inl none_here ↦ rw (v, none_here) refl
      | inr (p, q) ↦ elim (Bool-cases (valid_malaysia_bounds p.latitude p.longitude)) [
        | inr out ↦ rw (v, q, out) refl
        | inl bounded ↦ elim (Bool-cases (is_empty (entity_vehicle_id e vp))) [
          | inl unnamed ↦ rw (v, q, bounded, unnamed) refl
          | inr named ↦
              rw (v, q, bounded, named)
                (refl, record { agency = refl; named = named; bounded = bounded })
        ]
      ]
    ]
  ]

  parse_entities-IsPlausible :
      (es : List Entity) (i : ℕ) (ps : List VehiclePosition) (n : ℕ)
      → All (IsPlausible feed) ps
      → let r = parse_entities clock unix feed i es ps n in
        All (IsPlausible feed) r.0 × (length r.0 + r.1 ≡ length ps + n + count_located es)
  unfolding parse_entities
  parse_entities-IsPlausible [] i ps n h = (h, omega arith)
  parse_entities-IsPlausible (e ∷ es) i ps n h =
      let fits = parse_entity-Fits i e in
      elim (Parsed-cases (parse_entity clock unix feed i e)) [
        | inl q ↦
            rw (q, parse_entities, subst (Fits e) q fits)
              (parse_entities-IsPlausible es (i + 1) ps n h)
        | inr (inl q) ↦
            let ih = parse_entities-IsPlausible es (i + 1) ps (n + 1) h in
            rw (q, parse_entities, subst (Fits e) q fits) (ih.0, omega (arith, ih.1))
        | inr (inr (pos, q)) ↦
            let f = subst (Fits e) q fits in
            let ih =
              parse_entities-IsPlausible es (i + 1) (ps ++ pos ∷ []) n
                (All-append (IsPlausible feed) ps (pos ∷ []) h (f.1, tt)) in
            rw (q, parse_entities, f.0) (ih.0, omega (arith, ih.1, length-append ps (pos ∷ [])))
      ]

  -- Of a message that is decoded, each position that is returned has the feed's agency, a named
  -- vehicle and coordinates within the bounds; these and the skipped ones are together as many as
  -- the entities that have a position.
  pub parse_feed_message-IsPlausible :
      {Failure Body : Type 0} (unmarshal : Body → Result Failure (List Entity)) (body : Body)
      (ps : List VehiclePosition) (n : ℕ) (es : List Entity)
      → unmarshal body ≡ ok es
      → parse_feed_message unmarshal clock unix feed body ≡ ok (ps, n)
      → All (IsPlausible feed) ps × (length ps + n ≡ count_located es)
  unfolding parse_feed_message
  parse_feed_message-IsPlausible unmarshal body ps n es e h =
      let r = parse_entities-IsPlausible es 0 [] 0 tt in ground (arith, r.0, r.1)
