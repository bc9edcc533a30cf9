-- ===== src/Model.antt =====
-- internal/model/event.go and the emissions of internal/eventgen/generator.go that the pipeline
-- writes and checks. `Payload` is not looked at there.
use go_gedung_peristiwa.Prelude.{
  List, [], ◌∷◌, ◌++◌, Option, none, some, Bool, if◌then◌else◌, ◌≡◌, refl, ◌≢◌, ap, ◌∙◌,
}
use go_gedung_peristiwa.Text.{Text, Lacks, cut, cut-append}
use go_gedung_peristiwa.Time.{Time}
use go_gedung_peristiwa.Gtfs.Position.{prefix_upper_bound}

pub record Event : Type 0 where
  pub tenant_id : Text
  pub event_type : Text
  pub timestamp : Time
  pub idempotency_key : Text
  pub retry : Bool

pub record Emission : Type 0 where
  pub event : Event
  pub retry : Bool
  pub unique : Bool

-- `{tenant}:{event_type}:{idempotency_key}`
unfoldable pub key : Event → Text
key e = e.tenant_id ++ b':' ∷ (e.event_type ++ b':' ∷ e.idempotency_key)

unfoldable pub tenant_prefix : Text → Text
tenant_prefix tenant = tenant ++ b':' ∷ []

unfoldable pub tenant_upper_bound : Text → Text
tenant_upper_bound tenant = prefix_upper_bound (tenant ++ b':' ∷ [])

-- The whole key where it has no colon, or begins with one.
unfoldable pub tenant_part : Text → Option (Text × Text) → Text
tenant_part k none = k
tenant_part k (some ([], after)) = k
tenant_part k (some (b ∷ bs, after)) = b ∷ bs

unfoldable pub tenant_from_key : Text → Text
unfolding tenant_part
tenant_from_key k = tenant_part k (cut b':' k)

-- The keys of the first emissions, in order.
unfoldable pub expected_keys : List Emission → List Text
expected_keys [] = []
expected_keys (e ∷ es) = if e.unique then key e.event ∷ expected_keys es else expected_keys es

tenant_part_named : (k t rest : Text) → t ≢ [] → tenant_part k (some (t, rest)) ≡ t
unfolding tenant_part
tenant_part_named k [] rest h = absurd (h refl)
tenant_part_named k (b ∷ bs) rest h = refl

-- The tenant comes back from the key of an event whose tenant is named, without a colon.
pub tenant_from_key-key :
    (e : Event) → e.tenant_id ≢ [] → Lacks b':' e.tenant_id → tenant_from_key (key e) ≡ e.tenant_id
unfolding key
tenant_from_key-key e n h =
    let rest = e.event_type ++ b':' ∷ e.idempotency_key in
    unfold tenant_from_key in
    ap (tenant_part (key e)) (cut-append b':' e.tenant_id rest h)
    ∙ tenant_part_named (key e) e.tenant_id rest n
