-- ===== src/Time.antt =====
-- Go's time: an instant is the number of nanoseconds since the zero time (1 January of year 1,
-- UTC), so `IsZero` is `== 0`, `Before`, `After` and `Equal` are the order of the numbers. For
-- a duration d above 0, `now.Sub(t) >= d` is `d ≤ now - t` with the subtraction stopped at 0: a
-- negative difference is below d on both sides.
use go_gedung_peristiwa.Prelude.{ℕ, ◌+◌, ◌-◌, ◌%◌, ◌^◌, Bool, leb, ltb, ◌==◌, if◌then◌else◌}
use go_gedung_peristiwa.Prelude.Int.{ℤ, pos, negsuc}

abbrev pub Time : Type 0
Time = ℕ

-- A time.Duration that is not negative, in nanoseconds.
abbrev pub Duration : Type 0
Duration = ℕ

abbrev pub second : Duration
second = 1_000_000_000

abbrev pub minute : Duration
minute = 60_000_000_000

-- 1 January 1970.
abbrev pub unix_epoch : Time
unix_epoch = 62_135_596_800_000_000_000

abbrev pub is_zero : Time → Bool
is_zero t = t == 0

-- `now.Sub(t) >= d`, for d above 0
abbrev pub sub_ge : Time → Time → Duration → Bool
sub_ge now t d = leb d (now - t)

-- `now.Sub(t) <= d`, for d not below 0
abbrev pub sub_le : Time → Time → Duration → Bool
sub_le now t d = leb (now - t) d

-- `t.Truncate(time.Second)`; the zero time is a whole second.
abbrev pub truncate_second : Time → Time
truncate_second t = t - t % second

-- `t.UnixNano()`, an int64 that wraps round.
unfoldable pub unix_nano : Time → ℤ
unix_nano t =
    let w = (t + (2 ^ 64 - unix_epoch % 2 ^ 64)) % 2 ^ 64 in
    if ltb w (2 ^ 63) then pos w else negsuc (2 ^ 64 - 1 - w)
