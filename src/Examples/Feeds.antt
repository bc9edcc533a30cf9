-- ===== src/Examples/Feeds.antt =====
-- The catalogue and the keys at concrete feeds, positions and events.
use go_gedung_peristiwa.Prelude.{
  refl, List, [], ◌∷◌, some, true, false, inl, inr, Elem, keep, ℕ_discrete, ◌++◌, ◌+◌, ◌≤◌, length,
}
use go_gedung_peristiwa.Text.{Text, codes, text_dec, cut}
use go_gedung_peristiwa.Time.{unix_epoch}
use go_gedung_peristiwa.Gtfs.Feeds.{Feed, all_feeds, base_url}
use go_gedung_peristiwa.Gtfs.Regions.{contains}
use go_gedung_peristiwa.Gtfs.Position.{VehiclePosition}
use go_gedung_peristiwa.Model.{expected_keys, tenant_from_key, tenant_part, tenant_from_key-key}
use go_gedung_peristiwa.Model
use go_gedung_peristiwa.Sort.{sort, insert_sorted}
use go_gedung_peristiwa.Assoc.{lookup, insert}
use go_gedung_peristiwa.Pipeline.Verify.{
  Tenants, verify, verify_tenants, verify_tenant, verify_key_order, verify_key_set, compare_keys,
  has_retry, group_keys_by_tenant, group_keys, keys_of, sort_groups,
}
use go_gedung_peristiwa.Pipeline.Verify.Laws.{Checked, verify-Checked}

abbrev johor : Text
johor = codes "johor"

abbrev johor_feeds : List Feed
johor_feeds = keep (λ f. contains f.agency (codes "mybas-johor" ∷ [])) all_feeds

abbrev johor_feed : Feed
johor_feed = record {
  agency = codes "mybas-johor";
  url = base_url ++ codes "mybas-johor";
  category = [];
  type = codes "bus";
  region = codes "Johor";
  group = codes "mybas";
  bucket_id = johor;
}

johor_listed : Elem johor_feed all_feeds
unfolding all_feeds
johor_listed =
    inr (inr (inr (inr (inr (inr (inr (inr (inr (inr (inr (inr (inr (inl refl)))))))))))))

-- One nanosecond after the start of 1970.
abbrev position : VehiclePosition
position = record {
  agency = b'k' ∷ [];
  vehicle_id = b'7' ∷ [];
  lat = 0;
  lng = 0;
  bearing = 0;
  speed = 0;
  route = [];
  trip = [];
  timestamp = unix_epoch + 1;
}

abbrev event : Model.Event
event = record {
  tenant_id = b'a' ∷ [];
  event_type = codes "page_view";
  timestamp = unix_epoch;
  idempotency_key = codes "0001";
  retry = false;
}

abbrev emissions : List Model.Emission
emissions = record { event = event; retry = false; unique = true } ∷ []

-- A store that holds the key of the event.
abbrev tenants : Tenants
tenants = record {
  known = λ id. true;
  scan_keys = λ id. some (Model.key event ∷ []);
  change_feed_count = λ id. some 1;
}

verify-Checked_example :
    Checked tenants (b'a' ∷ []) (Model.key event ∷ [])
    × (length (expected_keys emissions) ≤ length emissions)
unfolding verify verify_tenants verify_tenant verify_key_order verify_key_set compare_keys has_retry
    group_keys_by_tenant group_keys keys_of sort_groups sort insert_sorted expected_keys
    tenant_from_key tenant_part Model.key cut lookup insert text_dec ℕ_discrete
verify-Checked_example = verify-Checked tenants emissions (b'a' ∷ []) _ refl (inl refl)
