-- ===== src/Demo/Replay/Shows.antt =====
-- The merged state of internal/demo/replay.go against the mutations that it comes from.
use go_gedung_peristiwa.Prelude.{
  ◌≡◌, refl, List, [], ◌∷◌, ◌++◌, Option, none, some, ite, arith, keep, map,
}
use go_gedung_peristiwa.Text.{Text, text_dec}
use go_gedung_peristiwa.Assoc.{Assoc, lookup, insert, lookup-insert, Distinct, insert-Distinct}
use go_gedung_peristiwa.Gtfs.Position.{VehiclePosition}
use go_gedung_peristiwa.Gtfs.Regions.{contains}
use go_gedung_peristiwa.Demo.Pipeline.{vehicle_key}
use go_gedung_peristiwa.Demo.Replay.{Bucket, Mutation, merge}
use go_gedung_peristiwa.Demo.Replay.Resumed.{Shown, show_all}

-- The position in the last mutation of a vehicle.
unfoldable pub last_seen : Text → List Mutation → Option VehiclePosition
last_seen k [] = none
last_seen k (x ∷ xs) = elim (last_seen k xs) [
  | some p ↦ some p
  | none ↦ ite (text_dec (vehicle_key x.pos) k) (some x.pos) none
]

-- The map holds every vehicle of the mutations once, with its position in the last of them.
pub record IsSeen (past : List Mutation) (m : Assoc VehiclePosition) : Type 0 where
  pub once : Distinct m
  pub newest : (k : Text) → lookup k m ≡ last_seen k past

lookup-merge :
    (k : Text) (ms : List Mutation) (m : Assoc VehiclePosition)
    → lookup k (merge ms m) ≡ elim (last_seen k ms) [ some p ↦ some p | none ↦ lookup k m ]
unfolding merge last_seen
lookup-merge k [] m = refl
lookup-merge k (x ∷ ms) m = ground (
  arith,
  lookup-merge k ms (insert (vehicle_key x.pos) x.pos m),
  lookup-insert (vehicle_key x.pos) k x.pos m,
)

last_seen-append :
    (k : Text) (xs ys : List Mutation)
    → last_seen k (xs ++ ys) ≡ elim (last_seen k ys) [ some p ↦ some p | none ↦ last_seen k xs ]
unfolding last_seen
last_seen-append k [] ys = ground arith
last_seen-append k (x ∷ xs) ys = ground (arith, last_seen-append k xs ys)

merge-Distinct :
    (ms : List Mutation) (m : Assoc VehiclePosition) → Distinct m → Distinct (merge ms m)
unfolding merge
merge-Distinct [] m d = d
merge-Distinct (x ∷ ms) m d = merge-Distinct ms _ (insert-Distinct (vehicle_key x.pos) x.pos m d)

merge-IsSeen :
    (past ms : List Mutation) (m : Assoc VehiclePosition)
    → IsSeen past m
    → IsSeen (past ++ ms) (merge ms m)
merge-IsSeen past ms m h = record {
  once = merge-Distinct ms m h.once;
  newest = λ k. ground (arith, lookup-merge k ms m, last_seen-append k past ms, h.newest k);
}

module _ (agencies : List Text) where
  -- Each frame shows, at its time, the vehicles of the agencies as the mutations before it and its
  -- own ones left them.
  abbrev pub Shows : List Mutation → List Bucket → List Shown → Type 0
  Shows past [] l = l ≡ []
  Shows past (b ∷ bs) [] = ⊥
  Shows past (b ∷ bs) (s ∷ l) =
      ((m : Assoc VehiclePosition) × IsSeen (past ++ b.mutations) m
        × (s ≡ (b.at, keep (λ pos. contains pos.agency agencies) (map (λ e. e.1) m))))
      × Shows (past ++ b.mutations) bs l

  show_all-Shows_from :
      (past : List Mutation) (bs : List Bucket) (m : Assoc VehiclePosition)
      → IsSeen past m
      → Shows past bs (show_all agencies bs m)
  unfolding show_all
  show_all-Shows_from past [] m h = refl
  show_all-Shows_from past (b ∷ bs) m h =
      let next = merge-IsSeen past b.mutations m h in
      (
        (merge b.mutations m, next, refl),
        show_all-Shows_from (past ++ b.mutations) bs (merge b.mutations m) next,
      )

  pub show_all-Shows : (bs : List Bucket) → Shows [] bs (show_all agencies bs [])
  unfolding last_seen lookup
  show_all-Shows bs = show_all-Shows_from [] bs [] (record { once = tt; newest = λ k. refl })
