-- ===== src/Prelude/Int.antt =====
-- Signed integers over the native numbers: Go's int, int64 and time.Duration.
use go_gedung_peristiwa.Prelude.{ℕ, ◌-◌, ◌%◌, ◌^◌, Bool, ◌==◌, false, ltb, if◌then◌else◌}

-- `negsuc n` is -(n + 1).
pub data ℤ : Type 0 where
  pos : ℕ → ℤ
  negsuc : ℕ → ℤ

-- `x == n` for a literal n that is not negative.
abbrev pub is_pos : ℤ → ℕ → Bool
is_pos (pos m) n = m == n
is_pos (negsuc m) n = false

-- The number of an integer above 0, and 0 for the others.
abbrev pub to_nat : ℤ → ℕ
to_nat (pos n) = n
to_nat (negsuc n) = 0

-- `x > y` for y not below 0.
abbrev pub is_above : ℤ → ℕ → Bool
is_above (pos m) n = ltb n m
is_above (negsuc m) n = false

-- The int64 that a result n, not below 0, wraps round to.
unfoldable pub wrap_int64 : ℕ → ℤ
wrap_int64 n = let w = n % 2 ^ 64 in if ltb w (2 ^ 63) then pos w else negsuc (2 ^ 64 - 1 - w)
