-- ===== src/Gtfs/Feeds.antt =====
-- internal/gtfs/feeds.go.
use go_gedung_peristiwa.Prelude.{List, [], ◌∷◌, ◌++◌, map}
use go_gedung_peristiwa.Text.{Text, codes}

abbrev pub base_url : Text
base_url = codes "https://api.data.gov.my/gtfs-realtime/vehicle-position/"

pub record Feed : Type 0 where
  pub agency : Text
  pub url : Text
  pub category : Text
  pub type : Text
  pub region : Text
  pub group : Text
  pub bucket_id : Text

unfoldable pub all_feeds : List Feed
all_feeds =
    (record {
      agency = codes "ktmb";
      url = base_url ++ codes "ktmb";
      category = [];
      type = codes "rail";
      region = codes "National";
      group = codes "ktmb";
      bucket_id = codes "national";
    })
    ∷ (record {
      agency = codes "prasarana-rapid-bus-kl";
      url = base_url ++ codes "prasarana?category=rapid-bus-kl";
      category = codes "rapid-bus-kl";
      type = codes "bus";
      region = codes "KL";
      group = codes "prasarana";
      bucket_id = codes "klang-valley";
    })
    ∷ (record {
      agency = codes "prasarana-rapid-bus-mrtfeeder";
      url = base_url ++ codes "prasarana?category=rapid-bus-mrtfeeder";
      category = codes "rapid-bus-mrtfeeder";
      type = codes "bus";
      region = codes "KL MRT Feeder";
      group = codes "prasarana";
      bucket_id = codes "klang-valley";
    })
    ∷ (record {
      agency = codes "prasarana-rapid-bus-kuantan";
      url = base_url ++ codes "prasarana?category=rapid-bus-kuantan";
      category = codes "rapid-bus-kuantan";
      type = codes "bus";
      region = codes "Kuantan";
      group = codes "prasarana";
      bucket_id = codes "east-coast";
    })
    ∷ (record {
      agency = codes "prasarana-rapid-bus-penang";
      url = base_url ++ codes "prasarana?category=rapid-bus-penang";
      category = codes "rapid-bus-penang";
      type = codes "bus";
      region = codes "Penang";
      group = codes "prasarana";
      bucket_id = codes "penang";
    })
    ∷ (record {
      agency = codes "mybas-kangar";
      url = base_url ++ codes "mybas-kangar";
      category = [];
      type = codes "bus";
      region = codes "Perlis";
      group = codes "mybas";
      bucket_id = codes "northern";
    })
    ∷ (record {
      agency = codes "mybas-alor-setar";
      url = base_url ++ codes "mybas-alor-setar";
      category = [];
      type = codes "bus";
      region = codes "Kedah";
      group = codes "mybas";
      bucket_id = codes "northern";
    })
    ∷ (record {
      agency = codes "mybas-kota-bharu";
      url = base_url ++ codes "mybas-kota-bharu";
      category = [];
      type = codes "bus";
      region = codes "Kelantan";
      group = codes "mybas";
      bucket_id = codes "east-coast";
    })
    ∷ (record {
      agency = codes "mybas-kuala-terengganu";
      url = base_url ++ codes "mybas-kuala-terengganu";
      category = [];
      type = codes "bus";
      region = codes "Terengganu";
      group = codes "mybas";
      bucket_id = codes "east-coast";
    })
    ∷ (record {
      agency = codes "mybas-ipoh";
      url = base_url ++ codes "mybas-ipoh";
      category = [];
      type = codes "bus";
      region = codes "Perak";
      group = codes "mybas";
      bucket_id = codes "northern";
    })
    ∷ (record {
      agency = codes "mybas-seremban-a";
      url = base_url ++ codes "mybas-seremban-a";
      category = [];
      type = codes "bus";
      region = codes "N. Sembilan A";
      group = codes "mybas";
      bucket_id = codes "central";
    })
    ∷ (record {
      agency = codes "mybas-seremban-b";
      url = base_url ++ codes "mybas-seremban-b";
      category = [];
      type = codes "bus";
      region = codes "N. Sembilan B";
      group = codes "mybas";
      bucket_id = codes "central";
    })
    ∷ (record {
      agency = codes "mybas-melaka";
      url = base_url ++ codes "mybas-melaka";
      category = [];
      type = codes "bus";
      region = codes "Melaka";
      group = codes "mybas";
      bucket_id = codes "central";
    })
    ∷ (record {
      agency = codes "mybas-johor";
      url = base_url ++ codes "mybas-johor";
      category = [];
      type = codes "bus";
      region = codes "Johor";
      group = codes "mybas";
      bucket_id = codes "johor";
    })
    ∷ (record {
      agency = codes "mybas-kuching";
      url = base_url ++ codes "mybas-kuching";
      category = [];
      type = codes "bus";
      region = codes "Sarawak";
      group = codes "mybas";
      bucket_id = codes "sarawak";
    })
    ∷ []

unfoldable pub agency_ids : List Feed → List Text
agency_ids = map (λ f. f.agency)
