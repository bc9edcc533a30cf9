-- ===== src/Demo/PollSeconds.antt =====
-- internal/demo/poll.go: the poll intervals that a session may choose.
use go_gedung_peristiwa.Prelude.{ℕ, ◌≡◌, ◌⊎◌, List, [], ◌∷◌, Result, ok, err, if◌then◌else◌, arith}
use go_gedung_peristiwa.Prelude.Int.{ℤ, pos, negsuc, is_pos}

abbrev pub default_poll_seconds : ℕ
default_poll_seconds = 10

abbrev pub allowed_poll_seconds : List ℕ
allowed_poll_seconds = 10 ∷ 20 ∷ 30 ∷ []

pub data PollError : Type 0 where
  bad_interval : PollError

-- The loop of `NormalizePollSeconds` over the choices that are left.
unfoldable pub find_seconds : ℤ → List ℕ → Result PollError ℕ
find_seconds seconds [] = err bad_interval
find_seconds seconds (n ∷ ns) = if is_pos seconds n then ok n else find_seconds seconds ns

unfoldable pub normalize_poll_seconds : ℤ → Result PollError ℕ
unfolding find_seconds
normalize_poll_seconds seconds = find_seconds seconds allowed_poll_seconds

-- session.go
unfoldable pub stored_poll_seconds : ℤ → ℕ
stored_poll_seconds n = elim (normalize_poll_seconds n) [ ok v ↦ v | err _ ↦ default_poll_seconds ]

-- The choices by name.
abbrev pub IsAllowed : ℕ → Type 0
IsAllowed n = (n ≡ 10) ⊎ (n ≡ 20) ⊎ (n ≡ 30)

pub normalize_poll_seconds-IsAllowed :
    (seconds : ℤ) (n : ℕ) → normalize_poll_seconds seconds ≡ ok n → IsAllowed n × (seconds ≡ pos n)
unfolding normalize_poll_seconds
normalize_poll_seconds-IsAllowed (pos m) n h = ground arith
normalize_poll_seconds-IsAllowed (negsuc m) n h = ground arith

pub stored_poll_seconds-IsAllowed : (seconds : ℤ) → IsAllowed (stored_poll_seconds seconds)
unfolding stored_poll_seconds normalize_poll_seconds
stored_poll_seconds-IsAllowed (pos m) = ground arith
stored_poll_seconds-IsAllowed (negsuc m) = ground arith

pub stored_poll_seconds_id : (n : ℕ) → IsAllowed n → stored_poll_seconds (pos n) ≡ n
unfolding stored_poll_seconds normalize_poll_seconds
stored_poll_seconds_id n h = ground arith
