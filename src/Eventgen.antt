-- ===== src/Eventgen.antt =====
-- internal/eventgen/generator.go: the emissions of a simulation. The random source, the clock, the
-- context and the identifiers are parameters, by what each round of the loop draws from them; the
-- traffic multiplier sets how long a round waits and nothing else, and is left out.
pub mod Emitted
use go_gedung_peristiwa.Prelude.{
  ℕ, zero, suc, ◌+◌, List, [], ◌∷◌, Option, none, some, Bool, true, false, not, ltb, if◌then◌else◌,
}
use go_gedung_peristiwa.Prelude.Int.{ℤ, to_nat}
use go_gedung_peristiwa.Text.{Text, codes}
use go_gedung_peristiwa.Time.{Time}
use go_gedung_peristiwa.Gtfs.Bounds.{Float64, float_le}
use go_gedung_peristiwa.Model.{Emission}
use go_gedung_peristiwa.Model

-- The names with the sums of the shares up to each, as float64 addition gives them: 0.4, 0.65, 0.8,
-- 0.92 and 1.0 up to rounding.
abbrev tenant_shares : List (Text × Float64)
tenant_shares =
    (codes "tenant-alpha", 0x3fd9_9999_9999_999a)
    ∷ (codes "tenant-beta", 0x3fe4_cccc_cccc_cccd)
    ∷ (codes "tenant-gamma", 0x3fe9_9999_9999_999a)
    ∷ (codes "tenant-delta", 0x3fed_70a3_d70a_3d71)
    ∷ (codes "tenant-epsilon", 0x3ff0_0000_0000_0000)
    ∷ []

abbrev event_type_shares : List (Text × Float64)
event_type_shares =
    (codes "transaction", 0x3fe0_0000_0000_0000)
    ∷ (codes "balance_check", 0x3fe8_0000_0000_0000)
    ∷ (codes "settlement", 0x3fec_cccc_cccc_cccd)
    ∷ (codes "kyc_update", 0x3fee_6666_6666_6667)
    ∷ (codes "fraud_alert", 0x3ff0_0000_0000_0000)
    ∷ []

-- The first name whose sum is not below the draw.
unfoldable pub pick_share : Float64 → List (Text × Float64) → Text → Text
pick_share x [] last = last
pick_share x ((name, acc) ∷ rest) last = if float_le x acc then name else pick_share x rest last

unfoldable pub pick_tenant : Float64 → Text
unfolding pick_share
pick_tenant x = pick_share x tenant_shares (codes "tenant-epsilon")

unfoldable pub pick_event_type : Float64 → Text
unfolding pick_share
pick_event_type x = pick_share x event_type_shares (codes "transaction")

-- What one round meets: the clock, the context before the wait and during it, the draws, the
-- identifier (`none` is an error), whether the draw is below the duplicate rate, and the clocks of
-- the two timestamps.
pub record Draw : Type 0 where
  pub now : Time
  pub done : Bool
  pub interrupted : Bool
  pub tenant : Float64
  pub event_type : Float64
  pub uuid : Option Text
  pub duplicate : Bool
  pub stamp : Time
  pub retry_stamp : Time

pub data GenError : Type 0 where
  context_done no_uuid : GenError

unfoldable pub event_of : Draw → Text → Model.Event
unfolding pick_tenant pick_event_type
event_of d id = record {
  tenant_id = pick_tenant d.tenant;
  event_type = pick_event_type d.event_type;
  timestamp = d.stamp;
  idempotency_key = id;
  retry = false;
}

module _ (deadline : Time) (draws : ℕ → Draw) where
  -- The loop with `left` events to go, at round i.
  unfoldable pub generate : ℕ → ℕ → List Emission × Option GenError
  unfolding event_of
  generate zero i = ([], none)
  generate (suc left) i =
      let next = generate left (i + 1) in
      if ltb deadline (draws i).now
      then ([], none)
      else if (draws i).done
      then ([], some context_done)
      else if (draws i).interrupted
      then ([], some context_done)
      else elim (draws i).uuid [
        | none ↦ ([], some no_uuid)
        | some id ↦
            let ev = event_of (draws i) id in
            let first : Emission = record { event = ev; retry = false; unique = true } in
            let again : Emission = record {
              event = record ev { timestamp = (draws i).retry_stamp; retry = true };
              retry = true;
              unique = false;
            } in
            (first ∷ (if (draws i).duplicate then again ∷ next.0 else next.0), next.1)
      ]

  -- `Run`
  unfoldable pub run : ℤ → List Emission × Option GenError
  unfolding generate
  run total_unique = generate (to_nat total_unique) 0
