-- ===== src/Debug/Experiments/Noted.antt =====
-- What a poll of RunIncremental does to the events seen so far and the time of the first one.
use go_gedung_peristiwa.Prelude.{
  ℕ, ◌<◌, ◌≡◌, refl, Option, none, some, ltb, if◌then◌else◌, arith, Bool-cases, inl, inr,
}

-- The first change was seen before, or it has still to be seen.
abbrev pub first_of : Option ℕ → Option ℕ → Option ℕ
first_of none later = later
first_of (some m) later = some m

-- What has been seen so far is noted with its time.
abbrev pub IsNoted : Option ℕ → ℕ → Type 0
IsNoted none total = total ≡ 0
IsNoted (some m) total = 0 < total

-- The two after a poll that counts c changes.
abbrev pub next_first : ℕ → ℕ → Option ℕ → ℕ → Option ℕ
next_first ms c first total =
    if ltb total c then elim first [ none ↦ some ms | some m ↦ some m ] else first

abbrev pub next_total : ℕ → ℕ → ℕ
next_total c total = if ltb total c then c else total

pub first_of-none : (first : Option ℕ) → first_of first none ≡ first
first_of-none none = refl
first_of-none (some m) = refl

pub first_of-next :
    (ms c : ℕ) (first : Option ℕ) (total : ℕ) (later : Option ℕ)
    → IsNoted first total
    → first_of first (if ltb 0 c then some ms else later)
      ≡ first_of (next_first ms c first total) later
first_of-next ms c none total later h = ground (arith, h)
first_of-next ms c (some m) total later h = ground (arith, h)

-- A poll that counts more than before settles the first change.
pub first_of-full :
    (ms c : ℕ) (first : Option ℕ) (total : ℕ) (later : Option ℕ)
    → total < c
    → first_of (next_first ms c first total) later ≡ next_first ms c first total
first_of-full ms c none total later h = ground (arith, h)
first_of-full ms c (some m) total later h = ground (arith, h)

pub next-IsNoted :
    (ms c : ℕ) (first : Option ℕ) (total : ℕ)
    → IsNoted first total
    → IsNoted (next_first ms c first total) (next_total c total)
next-IsNoted ms c none total h = elim (Bool-cases (ltb total c)) [
  | inl l ↦ rw l (ground (arith, l))
  | inr l ↦ rw l h
]
next-IsNoted ms c (some m) total h = elim (Bool-cases (ltb total c)) [
  | inl l ↦ rw l (ground (arith, l))
  | inr l ↦ rw l h
]
