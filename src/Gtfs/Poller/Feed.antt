-- ===== src/Gtfs/Poller/Feed.antt =====
-- The loop of `parseFeedMessage` in internal/gtfs/poller.go over the entities of a decoded message.
-- A field of an entity is what its getter gives; an optional part is `none` where it is nil.
use go_gedung_peristiwa.Prelude.{
  ℕ, ◌+◌, List, [], ◌∷◌, ◌++◌, Option, none, some, not, if◌then◌else◌,
}
use go_gedung_peristiwa.Text.{Text, is_empty}
use go_gedung_peristiwa.Time.{Time}
use go_gedung_peristiwa.Gtfs.Bounds.{Float64, valid_malaysia_bounds}
use go_gedung_peristiwa.Gtfs.Feeds
use go_gedung_peristiwa.Gtfs.Position.{VehiclePosition}

-- The numbers are the float32 of the message as float64.
pub record Coordinates : Type 0 where
  pub latitude : Float64
  pub longitude : Float64
  pub bearing : Float64
  pub speed : Float64

pub record Descriptor : Type 0 where
  pub id : Text
  pub label : Text

pub record Trip : Type 0 where
  pub trip_id : Text
  pub route_id : Text

pub record Vehicle : Type 0 where
  pub position : Option Coordinates
  pub vehicle : Option Descriptor
  pub timestamp : Option ℕ
  pub trip : Option Trip

pub record Entity : Type 0 where
  pub id : Text
  pub vehicle : Option Vehicle

-- What one entity comes to.
pub data Parsed : Type 0 where
  ignored skipped : Parsed
  accepted : VehiclePosition → Parsed

unfoldable pub descriptor_id : Option Descriptor → Text
descriptor_id none = []
descriptor_id (some v) = if is_empty v.id then v.label else v.id

-- The identifier, the label, or else the entity's identifier.
unfoldable pub entity_vehicle_id : Entity → Vehicle → Text
unfolding descriptor_id
entity_vehicle_id entity vp =
    let id = descriptor_id vp.vehicle in if is_empty id then entity.id else id

-- `clock i` is the time at which entity i is reached, `unix` is time.Unix(int64(n), 0).
module _ (clock : ℕ → Time) (unix : ℕ → Time) (feed : Feeds.Feed) where
  unfoldable pub parse_entity : ℕ → Entity → Parsed
  unfolding entity_vehicle_id
  parse_entity i entity = elim entity.vehicle [
    | none ↦ ignored
    | some vp ↦ elim vp.position [
      | none ↦ ignored
      | some p ↦
          if not (valid_malaysia_bounds p.latitude p.longitude)
          then skipped
          else if is_empty (entity_vehicle_id entity vp)
          then skipped
          else accepted (record {
            agency = feed.agency;
            vehicle_id = entity_vehicle_id entity vp;
            lat = p.latitude;
            lng = p.longitude;
            bearing = p.bearing;
            speed = p.speed;
            route = elim vp.trip [ none ↦ [] | some t ↦ t.route_id ];
            trip = elim vp.trip [ none ↦ [] | some t ↦ t.trip_id ];
            timestamp = elim vp.timestamp [ none ↦ clock i | some n ↦ unix n ];
          })
    ]
  ]

  -- With the positions and the number skipped so far.
  unfoldable pub parse_entities :
      ℕ → List Entity → List VehiclePosition → ℕ → List VehiclePosition × ℕ
  parse_entities i [] positions n = (positions, n)
  parse_entities i (e ∷ es) positions n = elim (parse_entity i e) [
    | ignored ↦ parse_entities (i + 1) es positions n
    | skipped ↦ parse_entities (i + 1) es positions (n + 1)
    | accepted pos ↦ parse_entities (i + 1) es (positions ++ pos ∷ []) n
  ]
