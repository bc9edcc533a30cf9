-- ===== src/Demo/Health.antt =====
-- internal/demo/health.go, and the answer of healthzHandler in cmd/demo/main.go. An error value
-- is one of `E`.
pub mod Laws
use go_gedung_peristiwa.Prelude.{
  ℕ, suc, ◌+◌, List, [], ◌∷◌, Option, none, some, Bool, true, false, ltb, leb, not, if◌then◌else◌,
}
use go_gedung_peristiwa.Prelude.Int.{ℤ, to_nat}

abbrev pub default_write_health_threshold : ℕ
default_write_health_threshold = 3

pub record WriteHealth (E : Type 0) : Type 0 where
  pub threshold : ℕ
  pub consecutive_failures : ℕ
  pub last_err : Option E

module _ {E : Type 0} where
  unfoldable pub new_write_health : ℤ → WriteHealth E
  new_write_health threshold = record {
    threshold =
        if leb (to_nat threshold) 0 then default_write_health_threshold else to_nat threshold;
    consecutive_failures = 0;
    last_err = none;
  }

  unfoldable pub record_success : WriteHealth E → WriteHealth E
  record_success h = record h { consecutive_failures = 0; last_err = none }

  unfoldable pub record_failure : E → WriteHealth E → WriteHealth E
  record_failure e h = record h {
    consecutive_failures = h.consecutive_failures + 1;
    last_err = some e;
  }

  unfoldable pub healthy : WriteHealth E → Bool
  healthy h = ltb h.consecutive_failures h.threshold

  unfoldable pub status : WriteHealth E → ℕ × Option E
  status h = (h.consecutive_failures, h.last_err)

  -- The status code, the count and the error that the probe reports.
  unfoldable pub healthz : WriteHealth E → ℕ × ℕ × Option E
  healthz h =
      let (failures, last) = status h in
      let code : ℕ = if not (healthy h) then 503 else 200 in (code, failures, last)

-- What the poll loop reports of one write.
pub data Outcome (E : Type 0) : Type 0 where
  success : Outcome E
  failure : E → Outcome E

module _ {E : Type 0} where
  unfoldable pub report : Outcome E → WriteHealth E → WriteHealth E
  report success h = record_success h
  report (failure e) h = record_failure e h

  unfoldable pub report_all : List (Outcome E) → WriteHealth E → WriteHealth E
  unfolding report
  report_all [] h = h
  report_all (o ∷ os) h = report_all os (report o h)
