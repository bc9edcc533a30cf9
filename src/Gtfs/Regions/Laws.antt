-- ===== src/Gtfs/Regions/Laws.antt =====
-- What internal/gtfs/regions.go promises of the catalogue.
use go_gedung_peristiwa.Prelude.{
  ℕ_discrete, ◌≡◌, refl, sym, ◌∙◌, List, [], ◌∷◌, none, some, ok, Bool, true, false, keep, holds,
  Elem, if◌then◌else◌, every, every_at, arith, inl, inr, ◌↔◌, Elem-keep,
}
use go_gedung_peristiwa.Text.{Text, text_dec}
use go_gedung_peristiwa.Assoc.{lookup, insert}
use go_gedung_peristiwa.Gtfs.Feeds.{Feed, all_feeds}
use go_gedung_peristiwa.Gtfs.Regions.{
  MapRegion, map_regions, contains, find_region, region_by_id, feeds_for_region, index_agencies,
  index_regions, agency_to_region, region_for_agency,
}

pub contains-Elem : (k : Text) (js : List Text) → contains k js ≡ true → Elem k js
unfolding contains
contains-Elem k [] h = cc
contains-Elem k (j ∷ js) h = ground (arith, contains-Elem k js)

pub Elem-contains : (k : Text) (js : List Text) → Elem k js → contains k js ≡ true
unfolding contains
Elem-contains k [] h = elim h [ ]
Elem-contains k (j ∷ js) h = ground (arith, Elem-contains k js)

find_region-ok :
    (id : Text) (rs : List MapRegion) (r : MapRegion)
    → find_region id rs ≡ ok r
    → Elem r rs × (r.id ≡ id)
unfolding find_region
find_region-ok id [] r h = cc
find_region-ok id (x ∷ rs) r h = ground (arith, find_region-ok id rs r)

find_region-known :
    (rs : List MapRegion) (r : MapRegion)
    → Elem r rs
    → (r' : MapRegion) × (find_region r.id rs ≡ ok r') × (r'.id ≡ r.id)
unfolding find_region
find_region-known [] r h = elim h [ ]
find_region-known (x ∷ rs) r (inl e) = (x, ground arith, ground arith)
find_region-known (x ∷ rs) r (inr m) = elim (text_dec x.id r.id) [
  | yes p ↦ (x, ground arith, p)
  | no p ↦ let (r', found, same) = find_region-known rs r m in (r', ground arith, same)
]

pub region_by_id-ok :
    (id : Text) (r : MapRegion) → region_by_id id ≡ ok r → Elem r map_regions × (r.id ≡ id)
unfolding region_by_id
region_by_id-ok id r h = find_region-ok id map_regions r h

-- The bucket that a feed names is the one region whose agencies include the feed's.
is_aligned : MapRegion → Bool
is_aligned r =
    every
      (λ f.
        if contains f.agency r.agencies
        then holds (text_dec f.bucket_id r.id)
        else (if holds (text_dec f.bucket_id r.id) then false else true))
      all_feeds

all-aligned : every is_aligned map_regions ≡ true
unfolding is_aligned map_regions all_feeds contains text_dec ℕ_discrete
all-aligned = refl

aligned :
    (r : MapRegion) (f : Feed)
    → Elem r map_regions
    → Elem f all_feeds
    → (contains f.agency r.agencies ≡ true) ↔ (f.bucket_id ≡ r.id)
unfolding is_aligned
aligned r f mr mf =
    ground (arith, every_at _ f all_feeds (every_at is_aligned r map_regions all-aligned mr) mf)

-- Every region of the catalogue is found by its identifier.
pub region_by_id-known :
    (r : MapRegion)
    → Elem r map_regions
    → (r' : MapRegion) × (region_by_id r.id ≡ ok r') × (r'.id ≡ r.id)
unfolding region_by_id
region_by_id-known r m = find_region-known map_regions r m

pub feeds_for_region-ok :
    (id : Text) (fs : List Feed)
    → feeds_for_region id ≡ ok fs
    → (r : MapRegion) × (region_by_id id ≡ ok r)
      × (fs ≡ keep (λ f. contains f.agency r.agencies) all_feeds)
unfolding feeds_for_region
feeds_for_region-ok id fs h = ground arith

-- Where `FeedsForRegion` succeeds, its feeds are exactly the feeds of the catalogue whose bucket
-- is the region that was asked for.
pub feeds_for_region-bucket :
    (id : Text) (fs : List Feed) (f : Feed)
    → feeds_for_region id ≡ ok fs
    → Elem f fs ↔ (Elem f all_feeds × (f.bucket_id ≡ id))
feeds_for_region-bucket id fs f h =
    let (r, found, same) = feeds_for_region-ok id fs h in
    let (m, named) = region_by_id-ok id r found in
    let mem = Elem-keep (λ f. contains f.agency r.agencies) f all_feeds in
    rw same (
      λ e. let (a, b) = mem.0 e in (a, (aligned r f m a).0 b ∙ named),
      λ e. mem.1 (e.0, (aligned r f m e.0).1 (e.1 ∙ sym named)),
    )

is_indexed : Feed → Bool
is_indexed f = elim (region_for_agency f.agency) [
  | none ↦ false
  | some r ↦ holds (text_dec r.id f.bucket_id)
]

all-indexed : every is_indexed all_feeds ≡ true
unfolding is_indexed region_for_agency agency_to_region index_regions index_agencies map_regions
    all_feeds lookup insert text_dec ℕ_discrete
all-indexed = refl

-- `RegionForAgency` knows the agency of every feed, and gives the region that the feed names as
-- its bucket.
pub region_for_agency-bucket :
    (f : Feed)
    → Elem f all_feeds
    → (r : MapRegion) × (region_for_agency f.agency ≡ some r) × (r.id ≡ f.bucket_id)
unfolding is_indexed
region_for_agency-bucket f m = ground (arith, every_at is_indexed f all_feeds all-indexed m)
