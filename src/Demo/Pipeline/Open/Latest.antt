-- ===== src/Demo/Pipeline/Open/Latest.antt =====
-- The loops of internal/demo/pipeline.go that keep the newest position of each vehicle.
use go_gedung_peristiwa.Prelude.{
  ◌≡◌, refl, ap, sym, subst, List, [], ◌∷◌, none, some, Elem, All, leb, true, arith, Option-cases,
  Bool-cases, inl, inr, ltb, ◌≢◌,
}
use go_gedung_peristiwa.Text.{Text, text_dec}
use go_gedung_peristiwa.Time.{Time}
use go_gedung_peristiwa.Assoc.{
  Distinct, insert-Distinct, Assoc, lookup, lookup-insert_ne, lookup-insert_self, All-insert,
}
use go_gedung_peristiwa.Gtfs.Position.{VehiclePosition, vehicle_id_from_key}
use go_gedung_peristiwa.Demo.Pipeline.{keep_newest, vehicle_key}
use go_gedung_peristiwa.Demo.Pipeline.Open.{Row, values, merge_latest, latest_rows}

-- The map has a position under the key that is not older than the time.
abbrev pub AtLeast : Time → Text → Assoc VehiclePosition → Type 0
AtLeast t k m = (new : VehiclePosition) × (lookup k m ≡ some new) × (leb t new.timestamp ≡ true)

-- Where the test of `keepNewest` fails, the map stays; where it does not, it gets the position.
keep_newest-AtLeast_self :
    (k : Text) (pos : VehiclePosition) (m : Assoc VehiclePosition)
    → AtLeast pos.timestamp k (keep_newest k pos m)
unfolding keep_newest
keep_newest-AtLeast_self k pos m = elim (Option-cases (lookup k m)) [
  | inl gone ↦ rw (keep_newest, gone) (pos, lookup-insert_self k pos m, ground arith)
  | inr (prev, found) ↦ elim (Bool-cases (ltb prev.timestamp pos.timestamp)) [
    | inl later ↦ rw (keep_newest, found, later) (pos, lookup-insert_self k pos m, ground arith)
    | inr early ↦ rw (keep_newest, found, early) (prev, found, ground arith)
  ]
]

keep_newest-AtLeast_same :
    (t : Time) (k : Text) (pos : VehiclePosition) (m : Assoc VehiclePosition)
    → AtLeast t k m
    → AtLeast t k (keep_newest k pos m)
unfolding keep_newest
keep_newest-AtLeast_same t k pos m (new, found, late) =
    elim (Bool-cases (ltb new.timestamp pos.timestamp)) [
      | inl later ↦ rw (keep_newest, found, later) (pos, lookup-insert_self k pos m, ground arith)
      | inr early ↦ rw (keep_newest, found, early) (new, found, late)
    ]

keep_newest-AtLeast_ne :
    (t : Time) (k j : Text) (pos : VehiclePosition) (m : Assoc VehiclePosition)
    → j ≢ k
    → AtLeast t k m
    → AtLeast t k (keep_newest j pos m)
unfolding keep_newest
keep_newest-AtLeast_ne t k j pos m n (new, found, late) =
    let kept : lookup k (keep_newest j pos m) ≡ some new =
      ground (arith, lookup-insert_ne j k pos m n, found) in
    (new, kept, late)

keep_newest-AtLeast :
    (t : Time) (k j : Text) (pos : VehiclePosition) (m : Assoc VehiclePosition)
    → AtLeast t k m
    → AtLeast t k (keep_newest j pos m)
keep_newest-AtLeast t k j pos m h = elim (text_dec j k) [
  | yes e ↦
      subst (λ i. AtLeast t k (keep_newest i pos m)) (sym e) (keep_newest-AtLeast_same t k pos m h)
  | no n ↦ keep_newest-AtLeast_ne t k j pos m n h
]

keep_newest-All :
    (Q : Text × VehiclePosition → Type 0) (k : Text) (pos : VehiclePosition)
    (m : Assoc VehiclePosition)
    → Q (k, pos)
    → All Q m
    → All Q (keep_newest k pos m)
unfolding keep_newest
keep_newest-All Q k pos m q a = ground (arith, All-insert Q k pos m q a)

pub AtLeast-earlier :
    (t u : Time) (k : Text) (m : Assoc VehiclePosition)
    → leb t u ≡ true
    → AtLeast u k m
    → AtLeast t k m
AtLeast-earlier t u k m h (new, found, late) = (new, found, ground arith)

latest_rows-AtLeast :
    (t : Time) (k : Text) (rows : List Row) (m : Assoc VehiclePosition)
    → AtLeast t k m
    → AtLeast t k (latest_rows rows m)
unfolding latest_rows
latest_rows-AtLeast t k [] m h = h
latest_rows-AtLeast t k ((j, none) ∷ rows) m h = latest_rows-AtLeast t k rows m h
latest_rows-AtLeast t k ((j, some pos) ∷ rows) m h =
    latest_rows-AtLeast t k rows _ (keep_newest-AtLeast t k (vehicle_id_from_key j) pos m h)

pub latest_rows-AtLeast_self :
    (key : Text) (pos : VehiclePosition) (rows : List Row) (m : Assoc VehiclePosition)
    → Elem (key, some pos) rows
    → AtLeast pos.timestamp (vehicle_id_from_key key) (latest_rows rows m)
unfolding latest_rows
latest_rows-AtLeast_self key pos [] m h = elim h [ ]
latest_rows-AtLeast_self key pos ((j, none) ∷ rows) m (inl e) = absurd (ground arith)
latest_rows-AtLeast_self key pos ((j, none) ∷ rows) m (inr h) =
    latest_rows-AtLeast_self key pos rows m h
latest_rows-AtLeast_self key pos ((j, some q) ∷ rows) m (inl e) =
    let same : pos ≡ q = ground arith in
    let same_key : key ≡ j = ground arith in
    latest_rows-AtLeast _ _ rows _
      (rw (same, same_key) (keep_newest-AtLeast_self (vehicle_id_from_key j) q m))
latest_rows-AtLeast_self key pos ((j, some q) ∷ rows) m (inr h) =
    latest_rows-AtLeast_self key pos rows _ h

pub merge_latest-AtLeast :
    (t : Time) (k : Text) (ps : List VehiclePosition) (m : Assoc VehiclePosition)
    → AtLeast t k m
    → AtLeast t k (merge_latest ps m)
unfolding merge_latest
merge_latest-AtLeast t k [] m h = h
merge_latest-AtLeast t k (p ∷ ps) m h =
    merge_latest-AtLeast t k ps _ (keep_newest-AtLeast t k (vehicle_key p) p m h)

pub merge_latest-AtLeast_self :
    (pos : VehiclePosition) (ps : List VehiclePosition) (m : Assoc VehiclePosition)
    → Elem pos ps
    → AtLeast pos.timestamp (vehicle_key pos) (merge_latest ps m)
unfolding merge_latest
merge_latest-AtLeast_self pos [] m h = elim h [ ]
merge_latest-AtLeast_self pos (p ∷ ps) m (inl e) =
    merge_latest-AtLeast _ _ ps _ (rw e (keep_newest-AtLeast_self (vehicle_key p) p m))
merge_latest-AtLeast_self pos (p ∷ ps) m (inr h) = merge_latest-AtLeast_self pos ps _ h

pub latest_rows-All :
    (Q : Text × VehiclePosition → Type 0) (rows : List Row) (m : Assoc VehiclePosition)
    → ((key : Text) (pos : VehiclePosition)
        → Elem (key, some pos) rows
        → Q (vehicle_id_from_key key, pos))
    → All Q m
    → All Q (latest_rows rows m)
unfolding latest_rows
latest_rows-All Q [] m q a = a
latest_rows-All Q ((j, none) ∷ rows) m q a =
    latest_rows-All Q rows m (λ key pos h. q key pos (inr h)) a
latest_rows-All Q ((j, some p) ∷ rows) m q a =
    latest_rows-All Q rows _ (λ key pos h. q key pos (inr h))
      (keep_newest-All Q (vehicle_id_from_key j) p m (q j p (inl refl)) a)

pub merge_latest-All :
    (Q : Text × VehiclePosition → Type 0) (ps : List VehiclePosition) (m : Assoc VehiclePosition)
    → All (λ p. Q (vehicle_key p, p)) ps
    → All Q m
    → All Q (merge_latest ps m)
unfolding merge_latest
merge_latest-All Q [] m q a = a
merge_latest-All Q (p ∷ ps) m q a =
    merge_latest-All Q ps _ q.1 (keep_newest-All Q (vehicle_key p) p m q.0 a)

pub values-All :
    (P : VehiclePosition → Type 0) (m : Assoc VehiclePosition)
    → All (λ e. P e.1) m
    → All P (values m)
values-All P [] a = tt
values-All P (e ∷ m) a = (a.0, values-All P m a.1)

pub Elem-values :
    (e : Text × VehiclePosition) (m : Assoc VehiclePosition) → Elem e m → Elem e.1 (values m)
Elem-values e (x ∷ m) (inl h) = inl (ap (λ y. y.1) h)
Elem-values e (x ∷ m) (inr h) = inr (Elem-values e m h)
Elem-values e [] h = elim h [ ]

keep_newest-Distinct :
    (k : Text) (pos : VehiclePosition) (m : Assoc VehiclePosition)
    → Distinct m
    → Distinct (keep_newest k pos m)
unfolding keep_newest
keep_newest-Distinct k pos m d = ground (arith, insert-Distinct k pos m d)

pub merge_latest-Distinct :
    (ps : List VehiclePosition) (m : Assoc VehiclePosition)
    → Distinct m
    → Distinct (merge_latest ps m)
unfolding merge_latest
merge_latest-Distinct [] m d = d
merge_latest-Distinct (p ∷ ps) m d =
    merge_latest-Distinct ps _ (keep_newest-Distinct (vehicle_key p) p m d)
