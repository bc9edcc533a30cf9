-- ===== src/Gtfs/Regions.antt =====
-- internal/gtfs/regions.go. The coordinates of a centre are thousandths of a degree.
pub mod Laws
pub mod Dedup
use go_gedung_peristiwa.Prelude.{
  ℕ, ◌≡◌, List, [], ◌∷◌, ◌++◌, Option, none, some, Result, ok, err, ◌>>=◌, ite, Bool, true, false,
  keep, holds, Elem, if◌then◌else◌,
}
use go_gedung_peristiwa.Text.{Text, text_dec, codes}
use go_gedung_peristiwa.Assoc.{Assoc, lookup, insert}
use go_gedung_peristiwa.Gtfs.Feeds.{Feed, all_feeds}

abbrev pub default_region_id : Text
default_region_id = codes "klang-valley"

pub record MapRegion : Type 0 where
  pub id : Text
  pub label : Text
  pub center : ℕ × ℕ
  pub zoom : ℕ
  pub agencies : List Text

unfoldable pub map_regions : List MapRegion
map_regions =
    (record {
      id = codes "klang-valley";
      label = codes "Klang Valley";
      center = (3139, 101687);
      zoom = 12;
      agencies = codes "prasarana-rapid-bus-kl" ∷ codes "prasarana-rapid-bus-mrtfeeder" ∷ [];
    })
    ∷ (record {
      id = codes "national";
      label = codes "National";
      center = (4200, 102000);
      zoom = 7;
      agencies = codes "ktmb" ∷ [];
    })
    ∷ (record {
      id = codes "penang";
      label = codes "Penang";
      center = (5410, 100330);
      zoom = 11;
      agencies = codes "prasarana-rapid-bus-penang" ∷ [];
    })
    ∷ (record {
      id = codes "east-coast";
      label = codes "East Coast";
      center = (4950, 103150);
      zoom = 8;
      agencies =
          codes "prasarana-rapid-bus-kuantan"
          ∷ codes "mybas-kota-bharu"
          ∷ codes "mybas-kuala-terengganu"
          ∷ [];
    })
    ∷ (record {
      id = codes "johor";
      label = codes "Johor";
      center = (1490, 103740);
      zoom = 11;
      agencies = codes "mybas-johor" ∷ [];
    })
    ∷ (record {
      id = codes "sarawak";
      label = codes "Sarawak";
      center = (1550, 110340);
      zoom = 11;
      agencies = codes "mybas-kuching" ∷ [];
    })
    ∷ (record {
      id = codes "northern";
      label = codes "Northern";
      center = (5550, 100750);
      zoom = 8;
      agencies = codes "mybas-kangar" ∷ codes "mybas-alor-setar" ∷ codes "mybas-ipoh" ∷ [];
    })
    ∷ (record {
      id = codes "central";
      label = codes "Central";
      center = (2550, 102150);
      zoom = 9;
      agencies = codes "mybas-seremban-a" ∷ codes "mybas-seremban-b" ∷ codes "mybas-melaka" ∷ [];
    })
    ∷ []

pub data RegionError : Type 0 where
  unknown_region : Text → RegionError

-- A Go set of strings (`map[string]struct{}`) by its members.
unfoldable pub contains : Text → List Text → Bool
contains k [] = false
contains k (j ∷ js) = ite (text_dec j k) true (contains k js)

-- The loop of `RegionByID` over the regions that are left.
unfoldable pub find_region : Text → List MapRegion → Result RegionError MapRegion
find_region id [] = err (unknown_region id)
find_region id (r ∷ rs) = ite (text_dec r.id id) (ok r) (find_region id rs)

unfoldable pub region_by_id : Text → Result RegionError MapRegion
region_by_id id = find_region id map_regions

-- `init`: the inner and the outer loop that fill `agencyToRegion`.
unfoldable pub index_agencies : MapRegion → List Text → Assoc MapRegion → Assoc MapRegion
index_agencies r [] m = m
index_agencies r (a ∷ as') m = index_agencies r as' (insert a r m)

unfoldable pub index_regions : List MapRegion → Assoc MapRegion → Assoc MapRegion
unfolding index_agencies
index_regions [] m = m
index_regions (r ∷ rs) m = index_regions rs (index_agencies r r.agencies m)

unfoldable pub agency_to_region : Assoc MapRegion
unfolding index_regions
agency_to_region = index_regions map_regions []

unfoldable pub region_for_agency : Text → Option MapRegion
region_for_agency agency = lookup agency agency_to_region

unfoldable pub agencies_for_region : Text → Result RegionError (List Text)
agencies_for_region id = do r ← region_by_id id; ok r.agencies

unfoldable pub feeds_for_region : Text → Result RegionError (List Feed)
feeds_for_region id = do
  r ← region_by_id id
  ok (keep (λ f. contains f.agency r.agencies) all_feeds)

-- The inner loop of `FeedsForRegions`: the agencies seen and the feeds so far.
unfoldable pub add_feeds : List Feed → List Text → List Feed → List Text × List Feed
add_feeds [] seen out = (seen, out)
add_feeds (f ∷ fs) seen out = elim (contains f.agency seen) [
  | true ↦ add_feeds fs seen out
  | false ↦ add_feeds fs (f.agency ∷ seen) (out ++ f ∷ [])
]

-- The outer loop.
unfoldable pub union_feeds : List Text → List Text → List Feed → Result RegionError (List Feed)
unfolding add_feeds
union_feeds [] seen out = ok out
union_feeds (id ∷ ids) seen out = elim (feeds_for_region id) [
  | ok feeds ↦ let (seen', out') = add_feeds feeds seen out in union_feeds ids seen' out'
  | err e ↦ err e
]

unfoldable pub feeds_for_regions : List Text → Result RegionError (List Feed)
unfolding union_feeds
feeds_for_regions ids = union_feeds ids [] []
