-- ===== src/Demo/Snapshots.antt =====
-- internal/demo/snapshots.go: the inventory of the change feeds of a region. What summarizing the
-- feed of a handle returns is a parameter; the texts for display are left out.
use go_gedung_peristiwa.Prelude.{
  ℕ, ◌+◌, ◌==◌, ◌≡◌, refl, List, [], ◌∷◌, ◌++◌, none, some, Bool, ltb, if◌then◌else◌, Result, ok,
  err, arith, append-nil, Option-cases, Result-cases, inl, inr, ap, ◌∙◌,
}
use go_gedung_peristiwa.Text.{Text}
use go_gedung_peristiwa.Assoc.{Assoc, lookup}
use go_gedung_peristiwa.Time.{Time, unix_epoch}
use go_gedung_peristiwa.Gtfs.Regions.{MapRegion, region_by_id}
use go_gedung_peristiwa.Pipeline.Changefeed.{ChangeFeedSummary}

-- A time is 0 where the feed has none.
pub record FeedEntry : Type 0 where
  pub agency : Text
  pub change_count : ℕ
  pub from : Time
  pub to : Time

pub record AgencyCatalog : Type 0 where
  pub agency : Text
  pub count : ℕ
  pub entries : List FeedEntry

pub record RegionCatalog : Type 0 where
  pub region_id : Text
  pub label : Text
  pub empty : Bool
  pub total : ℕ
  pub agencies : List AgencyCatalog

pub data CatalogError (Failure : Type 0) : Type 0 where
  unknown_region : CatalogError Failure
  feed_failed : Text → Failure → CatalogError Failure

-- `time.Unix(0, ns)` for ns above 0
unfoldable pub unix_time : ℕ → Time
unix_time ns = if ltb 0 ns then unix_epoch + ns else 0

unfoldable pub feed_entry : Text → ChangeFeedSummary → FeedEntry
unfolding unix_time
feed_entry agency sum = record {
  agency = agency;
  change_count = sum.change_count;
  from = unix_time sum.from;
  to = unix_time sum.to;
}

module _ {Handle Failure : Type 0} (summarize : Handle → Result Failure ChangeFeedSummary)
    (handles : Assoc Handle) where
  unfoldable pub summarize_agency_feed : Text → Handle → Result Failure FeedEntry
  unfolding feed_entry
  summarize_agency_feed agency aw = elim (summarize aw) [
    | err e ↦ err e
    | ok sum ↦ ok (feed_entry agency sum)
  ]

  -- The loop over the agencies that are left, with the list and the total so far.
  unfoldable pub catalog_agencies :
      List Text → List AgencyCatalog → ℕ → Result (CatalogError Failure) (List AgencyCatalog × ℕ)
  catalog_agencies [] cats total = ok (cats, total)
  catalog_agencies (agency ∷ rest) cats total = elim (lookup agency handles) [
    | none ↦
        catalog_agencies rest (cats ++ record { agency = agency; count = 0; entries = [] } ∷ [])
          total
    | some aw ↦ elim (summarize_agency_feed agency aw) [
      | err e ↦ err (feed_failed agency e)
      | ok entry ↦
          catalog_agencies rest
            (cats
              ++ record { agency = agency; count = entry.change_count; entries = entry ∷ [] } ∷ [])
            (total + entry.change_count)
    ]
  ]

  unfoldable pub catalog_for_region : Text → Result (CatalogError Failure) RegionCatalog
  catalog_for_region id = elim (region_by_id id) [
    | err _ ↦ err unknown_region
    | ok rgn ↦ elim (catalog_agencies rgn.agencies [] 0) [
      | err e ↦ err e
      | ok (cats, total) ↦ ok (record {
        region_id = rgn.id;
        label = rgn.label;
        empty = total == 0;
        total = total;
        agencies = cats;
      })
    ]
  ]

-- The changes of all rows.
abbrev pub total_of : List AgencyCatalog → ℕ
total_of [] = 0
total_of (c ∷ cs) = c.count + total_of cs

abbrev pub agencies_of : List AgencyCatalog → List Text
agencies_of [] = []
agencies_of (c ∷ cs) = c.agency ∷ agencies_of cs

agencies_of_snoc :
    (xs : List AgencyCatalog) (c : AgencyCatalog) (ids : List Text)
    → agencies_of (xs ++ c ∷ []) ++ ids ≡ agencies_of xs ++ c.agency ∷ ids
agencies_of_snoc [] c ids = refl
agencies_of_snoc (x ∷ xs) c ids = ap (◌∷◌ x.agency) (agencies_of_snoc xs c ids)

total_of-append : (xs ys : List AgencyCatalog) → total_of (xs ++ ys) ≡ total_of xs + total_of ys
total_of-append [] ys = omega arith
total_of-append (x ∷ xs) ys = omega (arith, total_of-append xs ys)

module _ {Handle Failure : Type 0} (summarize : Handle → Result Failure ChangeFeedSummary)
    (handles : Assoc Handle) where
  catalog_agencies-total_of :
      (ids : List Text) (cats cats' : List AgencyCatalog) (total total' : ℕ)
      → total_of cats ≡ total
      → catalog_agencies summarize handles ids cats total ≡ ok (cats', total')
      → (total_of cats' ≡ total') × (agencies_of cats' ≡ agencies_of cats ++ ids)
  unfolding catalog_agencies
  catalog_agencies-total_of [] cats cats' total total' s h =
      ground (arith, append-nil (agencies_of cats))
  catalog_agencies-total_of (agency ∷ rest) cats cats' total total' s h =
      elim (Option-cases (lookup agency handles)) [
        | inl e ↦
            let row : AgencyCatalog = record { agency = agency; count = 0; entries = [] } in
            let ih =
              catalog_agencies-total_of rest (cats ++ row ∷ []) cats' total total'
                (omega (arith, total_of-append cats (row ∷ []), s)) (ground arith) in
            (ih.0, ih.1 ∙ agencies_of_snoc cats row rest)
        | inr (aw, e) ↦ elim (Result-cases (summarize_agency_feed summarize handles agency aw)) [
          | inr (x, f) ↦ absurd (ground arith)
          | inl (entry, f) ↦
              let row : AgencyCatalog = record {
                agency = agency;
                count = entry.change_count;
                entries = entry ∷ [];
              } in
              let ih =
                catalog_agencies-total_of rest (cats ++ row ∷ []) cats' (total + entry.change_count)
                  total' (omega (arith, total_of-append cats (row ∷ []), s)) (ground arith) in
              (ih.0, ih.1 ∙ agencies_of_snoc cats row rest)
        ]
      ]

  -- The catalogue that `CatalogForRegion` gives has one row for each agency of the region, in order,
  -- its total is the sum of their counts, and it is empty exactly if that sum is 0.
  pub catalog_for_region-total_of :
      (id : Text) (cat : RegionCatalog)
      → catalog_for_region summarize handles id ≡ ok cat
      → (cat.total ≡ total_of cat.agencies)
        × (cat.empty ≡ (total_of cat.agencies == 0))
        × ((r : MapRegion) × (region_by_id id ≡ ok r) × (agencies_of cat.agencies ≡ r.agencies))
  unfolding catalog_for_region
  catalog_for_region-total_of id cat h = elim (Result-cases (region_by_id id)) [
    | inr (x, e) ↦ absurd (ground arith)
    | inl (r, e) ↦ elim (Result-cases (catalog_agencies summarize handles r.agencies [] 0)) [
      | inr (x, f) ↦ absurd (ground arith)
      | inl ((cats, total), f) ↦
          let rows = catalog_agencies-total_of r.agencies [] cats 0 total refl f in
          ground (arith, rows.0, rows.1, e, f)
    ]
  ]
