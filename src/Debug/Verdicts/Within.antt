-- ===== src/Debug/Verdicts/Within.antt =====
-- When the visibility experiment of cmd/isledb-debug passes, and what an unknown experiment does.
use go_gedung_peristiwa.Prelude.{
  ℕ, suc, ◌≤◌, ◌<◌, ◌≡◌, refl, ◌≢◌, ◌&&◌, List, [], ◌∷◌, Option, none, some, Bool, true, false, ltb,
  leb, if◌then◌else◌, Result, ok, err, arith, Bool-cases, inl, inr, map, ap, sym, subst, ◌*◌, ◌-◌,
  ◌+◌,
}
use go_gedung_peristiwa.Text.{Text, codes}
use go_gedung_peristiwa.Pipeline.Db.{Backend}
use go_gedung_peristiwa.Debug.Harness.{
  Library, attempt, write_batch, flush, drained, drain_to_head, store_failed, Ran,
  read_changes_since,
}
use go_gedung_peristiwa.Debug.Experiments.{
  VisibilityRow, delays, millisecond, visibility_rows, run_visibility,
}
use go_gedung_peristiwa.Debug.Verdicts.{
  pass, fail, is_ok, visibility_batch, see_row, first_visible, visibility_status, run, judge, Times,
  any_failed, is_named, is_tigris,
}

-- The delays rise from `lo` on.
abbrev IsRising : ℕ → List ℕ → Type 0
IsRising lo [] = Unit {0}
IsRising lo (d ∷ ds) = (lo ≤ d) × IsRising d ds

module _ {Failure : Type 0} where
  abbrev is_full : VisibilityRow Failure → Bool
  is_full r = leb visibility_batch r.keys_seen && is_ok r.error

  -- Some row without an error has all keys of the batch, at a delay within the budget.
  abbrev pub seen_within : ℕ → List (VisibilityRow Failure) → Bool
  seen_within budget [] = false
  seen_within budget (r ∷ rs) =
      if is_full r && leb r.delay_ms budget then true else seen_within budget rs

  abbrev delays_of : List (VisibilityRow Failure) → List ℕ
  delays_of = map (λ r. r.delay_ms)

  first_visible-some :
      (rows : List (VisibilityRow Failure)) (d : ℕ) → first_visible rows (some d) ≡ some d
  unfolding first_visible see_row
  first_visible-some [] d = refl
  first_visible-some (r ∷ rs) d = first_visible-some rs d

  -- What comes after the budget is not seen within it.
  seen_within-late :
      (rows : List (VisibilityRow Failure)) (lo budget : ℕ)
      → budget < lo
      → IsRising lo (delays_of rows)
      → seen_within budget rows ≡ false
  seen_within-late [] lo budget h rise = refl
  seen_within-late (r ∷ rs) lo budget h rise = ground (arith, seen_within-late rs r.delay_ms budget)

  visibility_status-rising :
      (rows : List (VisibilityRow Failure)) (lo budget : ℕ)
      → IsRising lo (delays_of rows)
      → visibility_status budget rows ≡ (if seen_within budget rows then pass else fail)
  unfolding visibility_status first_visible see_row
  visibility_status-rising [] lo budget rise = refl
  visibility_status-rising (r ∷ rs) lo budget rise = ground (
    arith,
    visibility_status-rising rs r.delay_ms budget rise.1,
    first_visible-some rs r.delay_ms,
    seen_within-late rs r.delay_ms budget,
  )

is_named-false : {exp name : Text} → exp ≢ name → is_named exp name ≡ false
is_named-false {exp = exp} {name = name} h = ground (arith, h)

and-false : (b : Bool) → (b && false) ≡ false
and-false true = refl
and-false false = refl

module _ {Db Cursor Failure : Type 0} (lib : Library Db Cursor Failure) where
  -- Rows that a run gives have these delays.
  abbrev IsTimed : List ℕ → Ran lib (List (VisibilityRow Failure)) → Type 0
  IsTimed ds (some (db, ok rows)) = delays_of rows ≡ ds
  IsTimed ds (some (db, err e)) = Unit {0}
  IsTimed ds none = Unit {0}

  attempt-IsTimed :
      (ds : List ℕ) (r : Db × Option Failure) (k : Db → Ran lib (List (VisibilityRow Failure)))
      → ((db : Db) → IsTimed ds (k db))
      → IsTimed ds (attempt lib r k)
  unfolding attempt
  attempt-IsTimed ds (db, some e) k h = tt
  attempt-IsTimed ds (db, none) k h = h db

  drained-IsTimed :
      (ds : List ℕ) (fuel : ℕ) (db : Db) (k : Cursor → Ran lib (List (VisibilityRow Failure)))
      → ((head : Cursor) → IsTimed ds (k head))
      → IsTimed ds (drained lib fuel db k)
  unfolding drained
  drained-IsTimed ds fuel db k h = go (drain_to_head lib fuel db)
    where
      go :
          (r : Option (Result Failure Cursor))
          → IsTimed ds (elim r as (λ _. Ran lib (List (VisibilityRow Failure))) [
            | none ↦ none
            | some (err e) ↦ some (db, err (store_failed e))
            | some (ok head) ↦ k head
          ])
      go none = tt
      go (some (err e)) = tt
      go (some (ok head)) = h head

  row-IsTimed :
      (d : ℕ) (ds : List ℕ) (read : Option (ℕ × Cursor × Option Failure))
      (rest : Ran lib (List (VisibilityRow Failure)))
      → IsTimed ds rest
      → IsTimed (d ∷ ds) (elim read as (λ _. Ran lib (List (VisibilityRow Failure))) [
        | none ↦ none
        | some (n, next, e) ↦ elim rest [
          | none ↦ none
          | some (db'', err x) ↦ some (db'', err x)
          | some (db'', ok rows) ↦
              some (db'', ok (record { delay_ms = d; keys_seen = n; error = e } ∷ rows))
        ]
      ])
  row-IsTimed d ds none rest h = tt
  row-IsTimed d ds (some (n, next, e)) none h = tt
  row-IsTimed d ds (some (n, next, e)) (some (db, err x)) h = tt
  row-IsTimed d ds (some (n, next, e)) (some (db, ok rows)) h = ap (λ ds. d ∷ ds) h

  visibility_rows-IsTimed :
      (fuel : ℕ) (elapsed : ℕ → ℕ) (stops : ℕ → Bool) (head : Cursor) (ds : List ℕ) (k : ℕ)
      (db : Db)
      → IsTimed ds (visibility_rows lib fuel elapsed stops head ds k db)
  unfolding visibility_rows
  visibility_rows-IsTimed fuel elapsed stops head [] k db = refl
  visibility_rows-IsTimed fuel elapsed stops head (d ∷ ds) k db =
      let want = d * millisecond - elapsed k in
      let db' = if ltb 0 want then lib.wait want db else db in
      let row =
        row-IsTimed d ds (read_changes_since lib fuel head db') _
          (visibility_rows-IsTimed fuel elapsed stops head ds (suc k) db') in
      elim (Bool-cases (ltb 0 want && stops k)) [ inl c ↦ rw c tt | inr c ↦ rw c row ]

  run_visibility-IsTimed :
      (fuel : ℕ) (value : ℕ → Text) (elapsed : ℕ → ℕ) (stops : ℕ → Bool) (n : ℕ) (db : Db)
      → IsTimed delays (run_visibility lib fuel value elapsed stops n db)
  unfolding run_visibility
  run_visibility-IsTimed fuel value elapsed stops n db =
      attempt-IsTimed delays (write_batch lib value n 1 db) _ (λ db1.
        attempt-IsTimed delays (flush lib db1) _ (λ db2. drained-IsTimed delays fuel db2 _ (λ head.
          attempt-IsTimed delays (write_batch lib value n (n + 1) db2) _ (λ db3.
            attempt-IsTimed delays (flush lib db3) _
              (λ db4. visibility_rows-IsTimed fuel elapsed stops head delays 0 db4)))))

  rising : IsRising 0 delays
  rising = ground arith

  -- Where the visibility experiment gives rows: its verdict is PASS if some row that was read
  -- without an error has all keys of the batch at a delay within the budget, and FAIL otherwise.
  pub visibility_status-run_visibility :
      (fuel budget : ℕ) (value : ℕ → Text) (elapsed : ℕ → ℕ) (stops : ℕ → Bool) (n : ℕ)
      (db db' : Db) (rows : List (VisibilityRow Failure))
      → run_visibility lib fuel value elapsed stops n db ≡ some (db', ok rows)
      → visibility_status budget rows ≡ (if seen_within budget rows then pass else fail)
  visibility_status-run_visibility fuel budget value elapsed stops n db db' rows e =
      let timed : delays_of rows ≡ delays =
        subst (IsTimed delays) e (run_visibility-IsTimed fuel value elapsed stops n db) in
      visibility_status-rising rows 0 budget (subst (IsRising 0) (sym timed) rising)

  -- An experiment that is none of the four names: no experiment is run, and the exit code is 0.
  pub run_unknown :
      (fuel polls : ℕ) (at : Times) (b : Backend) (exp : Text) (db : Db)
      → exp ≢ codes "all"
      → exp ≢ codes "visibility"
      → exp ≢ codes "incremental"
      → exp ≢ codes "replay"
      → run lib fuel polls at b true exp (some db) ≡ some ([], 0)
  unfolding run judge any_failed
  run_unknown fuel polls at b exp db na nv ni nr =
      rw
        (
          run,
          and-false (is_tigris b),
          is_named-false na,
          is_named-false nv,
          is_named-false ni,
          is_named-false nr,
        )
        refl
