-- ===== src/Demo/Pipeline/Open/Merged.antt =====
-- What the loops over the agencies in internal/demo/pipeline.go keep of the stored positions.
use go_gedung_peristiwa.Prelude.{
  ◌≡◌, refl, sym, ◌∙◌, subst, List, [], ◌∷◌, none, some, Result, ok, err, Elem, All, arith, inl,
  inr,
}
use go_gedung_peristiwa.Text.{Text}
use go_gedung_peristiwa.Time.{Time}
use go_gedung_peristiwa.Assoc.{Distinct, Assoc, Elem-of_lookup}
use go_gedung_peristiwa.Gtfs.Position.{VehiclePosition, vehicle_id_from_key}
use go_gedung_peristiwa.Demo.Pipeline.{vehicle_key}
use go_gedung_peristiwa.Demo.Pipeline.Open.{Row, values, merge_latest, latest_rows}
use go_gedung_peristiwa.Demo.Pipeline.Open.Latest.{
  AtLeast, AtLeast-earlier, latest_rows-AtLeast_self, merge_latest-AtLeast_self,
  merge_latest-AtLeast, merge_latest-Distinct, latest_rows-All, merge_latest-All, values-All,
  Elem-values,
}

-- The position is what a value of one of the agencies decodes to.
abbrev pub Stored :
    {Handle Failure : Type 0}
    → (Handle → Result Failure (List Row))
    → Assoc Handle
    → VehiclePosition
    → Type 0
Stored {Handle} read agencies pos =
    (e : Text × Handle) × Elem e agencies
    × ((rows : List Row) × (read e.1 ≡ ok rows) × ((key : Text) × Elem (key, some pos) rows))

-- A position is stored under a key of its vehicle, in the agency's own prefix.
abbrev pub IsKeyed : Text → Row → Type 0
IsKeyed agency (key, none) = Unit {0}
IsKeyed agency (key, some pos) = (pos.vehicle_id ≡ vehicle_id_from_key key) × (pos.agency ≡ agency)

-- Whatever reads the rows of an agency gives such rows, or fails.
abbrev pub ReadsKeyed : {Failure : Type 0} → Text → Result Failure (List Row) → Type 0
ReadsKeyed id (err e) = Unit {0}
ReadsKeyed id (ok rows) = All (IsKeyed id) rows

abbrev pub AreKeyed :
    {Handle Failure : Type 0} → (Handle → Result Failure (List Row)) → Assoc Handle → Type 0
AreKeyed read [] = Unit {0}
AreKeyed read ((id, aw) ∷ rest) = ReadsKeyed id (read aw) × AreKeyed read rest

-- One agency after the other is read and merged into the map.
abbrev pub Merged :
    {Handle Failure : Type 0}
    → (Handle → Result Failure (List Row))
    → Assoc Handle
    → Assoc VehiclePosition
    → Assoc VehiclePosition
    → Type 0
Merged read [] m m' = m ≡ m'
Merged read ((id, aw) ∷ rest) m m' =
    (rows : List Row) × (read aw ≡ ok rows)
    × Merged read rest (merge_latest (values (latest_rows rows [])) m) m'

IsKeyed-of_Elem :
    (id key : Text) (pos : VehiclePosition) (rows : List Row)
    → All (IsKeyed id) rows
    → Elem (key, some pos) rows
    → (pos.vehicle_id ≡ vehicle_id_from_key key) × (pos.agency ≡ id)
IsKeyed-of_Elem id key pos [] a h = elim h [ ]
IsKeyed-of_Elem id key pos (r ∷ rows) a (inl e) = subst (IsKeyed id) (sym e) a.0
IsKeyed-of_Elem id key pos (r ∷ rows) a (inr h) = IsKeyed-of_Elem id key pos rows a.1 h

All-lookup :
    (Q : Text × VehiclePosition → Type 0) (k : Text) (v : VehiclePosition)
    (m : Assoc VehiclePosition)
    → All Q m
    → Elem (k, v) m
    → Q (k, v)
All-lookup Q k v [] a h = elim h [ ]
All-lookup Q k v (x ∷ m) a (inl e) = subst Q (sym e) a.0
All-lookup Q k v (x ∷ m) a (inr h) = All-lookup Q k v m a.1 h

vehicle_key-same :
    (p q : VehiclePosition)
    → p.agency ≡ q.agency
    → p.vehicle_id ≡ q.vehicle_id
    → vehicle_key p ≡ vehicle_key q
unfolding vehicle_key
vehicle_key-same p q a v = rw (a, v) refl

-- After an agency is merged, every position that it stores is there or a later one of its vehicle.
merged_rows-AtLeast :
    (id key : Text) (pos : VehiclePosition) (rows : List Row) (m : Assoc VehiclePosition)
    → All (IsKeyed id) rows
    → Elem (key, some pos) rows
    → AtLeast pos.timestamp (vehicle_key pos) (merge_latest (values (latest_rows rows [])) m)
merged_rows-AtLeast id key pos rows m a h =
    let (new, found, late) = latest_rows-AtLeast_self key pos rows [] h in
    let there = Elem-of_lookup (vehicle_id_from_key key) new (latest_rows rows []) found in
    let here = IsKeyed-of_Elem id key pos rows a h in
    let new_keyed =
      All-lookup (λ e. (e.1.vehicle_id ≡ e.0) × (e.1.agency ≡ id)) (vehicle_id_from_key key) new
        (latest_rows rows [])
        (latest_rows-All _ rows [] (λ j p i. IsKeyed-of_Elem id j p rows a i) tt) there in
    let same = vehicle_key-same new pos (new_keyed.1 ∙ sym here.1) (new_keyed.0 ∙ sym here.0) in
    subst (λ k. AtLeast pos.timestamp k (merge_latest (values (latest_rows rows [])) m)) same
      (AtLeast-earlier pos.timestamp new.timestamp (vehicle_key new) _ late
        (merge_latest-AtLeast_self new (values (latest_rows rows [])) m (Elem-values _ _ there)))

module _ {Handle Failure : Type 0} (read : Handle → Result Failure (List Row)) where
  -- A position of one of the agencies stays, or a later one takes its place.
  Merged-AtLeast :
      (t : Time) (k : Text) (agencies : Assoc Handle) (m m' : Assoc VehiclePosition)
      → Merged read agencies m m'
      → AtLeast t k m
      → AtLeast t k m'
  Merged-AtLeast t k [] m m' e h = subst (AtLeast t k) e h
  Merged-AtLeast t k ((id, aw) ∷ rest) m m' (rows, e, more) h =
      Merged-AtLeast t k rest _ m' more
        (merge_latest-AtLeast t k (values (latest_rows rows [])) m h)

  Merged-Stored :
      (agencies : Assoc Handle) (m m' : Assoc VehiclePosition) (pos : VehiclePosition)
      → Merged read agencies m m'
      → AreKeyed read agencies
      → Stored read agencies pos
      → AtLeast pos.timestamp (vehicle_key pos) m'
  Merged-Stored [] m m' pos e a (x, h, s) = elim h [ ]
  Merged-Stored ((id, aw) ∷ rest) m m' pos (rows, e, more) (keyed, a)
        (x, inl h, (rows', r, (key, i))) =
      let same : rows' ≡ rows = ground arith in
      Merged-AtLeast pos.timestamp (vehicle_key pos) rest _ m' more (
        merged_rows-AtLeast id key pos rows m (subst (ReadsKeyed id) e keyed)
          (subst (Elem (key, some pos)) same i))
  Merged-Stored ((id, aw) ∷ rest) m m' pos (rows, e, more) (keyed, a) (x, inr h, s) =
      Merged-Stored rest _ m' pos more a (x, h, s)

  -- Whatever is in the map is decoded from a value of an agency, under the key of its vehicle.
  Merged-All :
      (Q : Text × VehiclePosition → Type 0) (agencies : Assoc Handle) (m m' : Assoc VehiclePosition)
      → Merged read agencies m m'
      → ((pos : VehiclePosition) → Stored read agencies pos → Q (vehicle_key pos, pos))
      → All Q m
      → All Q m'
  Merged-All Q [] m m' e q a = subst (All Q) e a
  Merged-All Q ((id, aw) ∷ rest) m m' (rows, e, more) q a =
      let now =
        latest_rows-All (λ x. Q (vehicle_key x.1, x.1)) rows []
          (λ key pos h. q pos ((id, aw), inl refl, (rows, e, (key, h)))) tt in
      Merged-All Q rest _ m' more (λ pos s. q pos (s.0, inr s.1, s.2))
        (merge_latest-All Q (values (latest_rows rows [])) m
          (values-All (λ p. Q (vehicle_key p, p)) _ now) a)

  Merged-Distinct :
      (agencies : Assoc Handle) (m m' : Assoc VehiclePosition)
      → Merged read agencies m m'
      → Distinct m
      → Distinct m'
  Merged-Distinct [] m m' e d = subst Distinct e d
  Merged-Distinct ((id, aw) ∷ rest) m m' (rows, e, more) d =
      Merged-Distinct rest _ m' more (merge_latest-Distinct (values (latest_rows rows [])) m d)

  -- The map has one entry for each vehicle it knows, which is a stored position of that vehicle,
  -- and for the vehicle of the given position one that is not older than that.
  abbrev pub IsNewest : Assoc Handle → VehiclePosition → Assoc VehiclePosition → Type 0
  IsNewest agencies pos m =
      Distinct m
      × All (λ e. (vehicle_key e.1 ≡ e.0) × Stored read agencies e.1) m
      × AtLeast pos.timestamp (vehicle_key pos) m

  pub Merged-IsNewest :
      (agencies : Assoc Handle) (m : Assoc VehiclePosition) (pos : VehiclePosition)
      → Merged read agencies [] m
      → AreKeyed read agencies
      → Stored read agencies pos
      → IsNewest agencies pos m
  Merged-IsNewest agencies m pos h a s = (
    Merged-Distinct agencies [] m h tt,
    Merged-All (λ e. (vehicle_key e.1 ≡ e.0) × Stored read agencies e.1) agencies [] m h
        (λ q i. (refl, i)) tt,
    Merged-Stored agencies [] m pos h a s,
  )
