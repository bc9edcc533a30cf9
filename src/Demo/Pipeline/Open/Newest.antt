-- ===== src/Demo/Pipeline/Open/Newest.antt =====
-- What is kept of the stored positions in internal/demo/pipeline.go, when it opens and in a scan.
use go_gedung_peristiwa.Prelude.{
  ◌≡◌, refl, subst, List, [], ◌∷◌, none, ok, arith, Option-cases, Result-cases, inl, inr,
}
use go_gedung_peristiwa.Assoc.{Assoc}
use go_gedung_peristiwa.Gtfs.Position.{VehiclePosition}
use go_gedung_peristiwa.Demo.Pipeline.{Pipeline}
use go_gedung_peristiwa.Demo.Pipeline.Open.{
  Reads, values, bootstrap_latest, hydrate_agencies, hydrate_from_snapshot, scan_agency,
  scan_agencies, scan_latest, merge_latest, latest_rows,
}
use go_gedung_peristiwa.Demo.Pipeline.Open.Merged.{
  Stored, AreKeyed, Merged, IsNewest, Merged-IsNewest,
}

module _ {Handle Failure : Type 0} (reads : Reads Handle Failure) where
  hydrate_agencies-Merged :
      (agencies : Assoc Handle) (m : Assoc VehiclePosition)
      → (hydrate_agencies reads agencies m).1 ≡ none
      → Merged reads.view agencies m (hydrate_agencies reads agencies m).0
  unfolding hydrate_agencies bootstrap_latest
  hydrate_agencies-Merged [] m h = refl
  hydrate_agencies-Merged ((id, aw) ∷ rest) m h = elim (Result-cases (reads.view aw)) [
    | inl (rows, e) ↦ (
      rows,
      e,
      rw (hydrate_agencies, bootstrap_latest, e)
          (hydrate_agencies-Merged rest (merge_latest (values (latest_rows rows [])) m)
            (ground (arith, e, h))),
    )
    | inr (x, e) ↦ absurd (ground (arith, e))
  ]

  scan_agencies-Merged :
      (agencies : Assoc Handle) (m m' : Assoc VehiclePosition)
      → scan_agencies reads agencies m ≡ ok m'
      → Merged reads.rows agencies m m'
  unfolding scan_agencies scan_agency
  scan_agencies-Merged [] m m' h = ground arith
  scan_agencies-Merged ((id, aw) ∷ rest) m m' h = elim (Option-cases (reads.refresh aw)) [
    | inr (x, bad) ↦ absurd (ground (arith, bad))
    | inl fine ↦ elim (Result-cases (reads.rows aw)) [
      | inr (x, e) ↦ absurd (ground (arith, fine, e))
      | inl (rows, e) ↦ (
        rows,
        e,
        scan_agencies-Merged rest (merge_latest (values (latest_rows rows [])) m) m'
            (ground (arith, fine, e, h)),
      )
    ]
  ]

  -- Where every position is stored in its agency's own prefix under a key of its vehicle, hydrating
  -- a pipeline without positions and a scan of it, each where it does not fail, keep the newest
  -- position of each vehicle: every key once, under it a position of that vehicle that the bootstrap
  -- view, for the scan the iterator, of some agency gives, and for each position that they give one
  -- of the same vehicle that is not older. The positions of the scan are those of such a map.
  pub hydrate_from_snapshot-scan_latest-IsNewest :
      (p : Pipeline Handle) (positions : List VehiclePosition) (pos pos' : VehiclePosition)
      → p.vehicle_seen ≡ []
      → AreKeyed reads.view p.agencies
      → AreKeyed reads.rows p.agencies
      → (hydrate_from_snapshot reads p).1 ≡ none
      → scan_latest reads p ≡ ok positions
      → Stored reads.view p.agencies pos
      → Stored reads.rows p.agencies pos'
      → IsNewest reads.view p.agencies pos (hydrate_from_snapshot reads p).0.vehicle_seen
        × ((m : Assoc VehiclePosition) × (positions ≡ values m)
            × IsNewest reads.rows p.agencies pos' m)
  unfolding hydrate_from_snapshot scan_latest
  hydrate_from_snapshot-scan_latest-IsNewest p positions pos pos' none_seen viewed scanned fine ran
        s s' =
      (
        Merged-IsNewest reads.view p.agencies _ pos
            (subst
              (λ m.
                Merged reads.view p.agencies m (hydrate_agencies reads p.agencies p.vehicle_seen).0)
              none_seen (hydrate_agencies-Merged p.agencies p.vehicle_seen fine))
            viewed s,
        elim (Result-cases (scan_agencies reads p.agencies [])) [
          | inr (x, e) ↦ absurd (ground (arith, e))
          | inl (m, e) ↦ (
            m,
            ground (arith, e, ran),
            Merged-IsNewest reads.rows p.agencies m pos' (scan_agencies-Merged p.agencies [] m e)
                scanned s',
          )
        ],
      )
