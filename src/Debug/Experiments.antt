-- ===== src/Debug/Experiments.antt =====
-- The experiments of internal/isledbdebug/harness.go. The clock and the end of the context are
-- parameters. The polls take fuel, one unit for each; `none` is fuel that ran out.
pub mod Noted
pub mod Polled
use go_gedung_peristiwa.Prelude.{
  ℕ, zero, suc, ◌+◌, ◌-◌, ◌*◌, ◌&&◌, List, [], ◌∷◌, Option, none, some, Bool, true, false, ltb, leb,
  if◌then◌else◌, Result, ok, err,
}
use go_gedung_peristiwa.Text.{Text}
use go_gedung_peristiwa.Pipeline.Changefeed.{count_change_feed}
use go_gedung_peristiwa.Debug.Harness.{
  Library, HarnessError, store_failed, cancelled, Ran, attempt, write_batch, flush,
  read_changes_since, drained,
}

pub record VisibilityRow (Failure : Type 0) : Type 0 where
  pub delay_ms : ℕ
  pub keys_seen : ℕ
  pub error : Option Failure

pub record IncrementalResult : Type 0 where
  pub wrote_keys : ℕ
  pub tail_events : ℕ
  pub first_new_key_ms : ℕ
  pub timeout : Bool

abbrev pub delays : List ℕ
delays = 0 ∷ 50 ∷ 100 ∷ 250 ∷ 500 ∷ 1000 ∷ 2000 ∷ 5000 ∷ []

abbrev pub millisecond : ℕ
millisecond = 1000000

module _ {Db Cursor Failure : Type 0} (lib : Library Db Cursor Failure) where
  -- The rows of RunVisibility. At the k-th delay `elapsed k` nanoseconds have passed since the
  -- flush, and `stops k` says whether the context ends the wait. On an error the rows so far are
  -- left out, as the caller does.
  unfoldable pub visibility_rows :
      ℕ → (ℕ → ℕ) → (ℕ → Bool) → Cursor → List ℕ → ℕ → Db → Ran lib (List (VisibilityRow Failure))
  unfolding read_changes_since
  visibility_rows fuel elapsed stops head [] k db = some (db, ok [])
  visibility_rows fuel elapsed stops head (d ∷ ds) k db =
      let want = d * millisecond - elapsed k in
      let db' = if ltb 0 want then lib.wait want db else db in
      let rest = visibility_rows fuel elapsed stops head ds (suc k) db' in
      if ltb 0 want && stops k
      then some (db, err cancelled)
      else elim (read_changes_since lib fuel head db') [
        | none ↦ none
        | some (n, next, e) ↦ elim rest [
          | none ↦ none
          | some (db'', err x) ↦ some (db'', err x)
          | some (db'', ok rows) ↦
              some (db'', ok (record { delay_ms = d; keys_seen = n; error = e } ∷ rows))
        ]
      ]

  unfoldable pub run_visibility :
      ℕ → (ℕ → Text) → (ℕ → ℕ) → (ℕ → Bool) → ℕ → Db → Ran lib (List (VisibilityRow Failure))
  unfolding attempt write_batch flush drained visibility_rows
  run_visibility fuel value elapsed stops batch_size db =
      attempt lib (write_batch lib value batch_size 1 db) (λ db1.
        attempt lib (flush lib db1) (λ db2. drained lib fuel db2 (λ head.
          attempt lib (write_batch lib value batch_size (batch_size + 1) db2) (λ db3.
            attempt lib (flush lib db3)
              (λ db4. visibility_rows fuel elapsed stops head delays 0 db4)))))

  -- The polls of RunIncremental. At the k-th poll `before k` says whether the deadline is ahead and
  -- `ms k` how many milliseconds have passed since the start.
  unfoldable pub poll_feed :
      ℕ
      → (ℕ → Bool)
      → (ℕ → ℕ)
      → (ℕ → Bool)
      → Cursor
      → ℕ
      → ℕ
      → ℕ
      → Option ℕ
      → ℕ
      → Db
      → Ran lib IncrementalResult
  unfolding read_changes_since
  poll_feed fuel before ms stops head new_keys zero k first total db = none
  poll_feed fuel before ms stops head new_keys (suc f) k first total db = elim (before k) [
    | false ↦ some (
      db,
      ok (record {
        wrote_keys = new_keys;
        tail_events = total;
        first_new_key_ms = elim first [ none ↦ 0 | some m ↦ m ];
        timeout = true;
      }),
    )
    | true ↦ elim (read_changes_since lib fuel head db) [
      | none ↦ none
      | some (n, next, some e) ↦ some (db, err (store_failed e))
      | some (n, next, none) ↦
          let first' =
            if ltb total n then elim first [ none ↦ some (ms k) | some m ↦ some m ] else first in
          let total' = if ltb total n then n else total in
          elim (leb new_keys total') [
            | true ↦ some (
              db,
              ok (record {
                wrote_keys = new_keys;
                tail_events = total';
                first_new_key_ms = elim first' [ none ↦ 0 | some m ↦ m ];
                timeout = false;
              }),
            )
            | false ↦ elim (stops k) [
              | true ↦ some (db, err cancelled)
              | false ↦
                  poll_feed fuel before ms stops head new_keys f (suc k) first' total'
                    (lib.wait (100 * millisecond) db)
            ]
          ]
    ]
  ]

  unfoldable pub run_incremental :
      ℕ
      → (ℕ → Text)
      → (ℕ → Bool)
      → (ℕ → ℕ)
      → (ℕ → Bool)
      → ℕ
      → ℕ
      → ℕ
      → Db
      → Ran lib IncrementalResult
  unfolding attempt write_batch flush drained poll_feed
  run_incremental fuel value before ms stops polls prior_keys new_keys db =
      drained lib fuel db (λ head.
        attempt lib (write_batch lib value new_keys (prior_keys + 1) db) (λ db1.
          attempt lib (flush lib db1)
            (λ db2. poll_feed fuel before ms stops head new_keys polls 0 none 0 db2)))

  -- The events in the feed.
  unfoldable pub run_replay : ℕ → Db → Ran lib ℕ
  run_replay fuel db = elim (count_change_feed (lib.feed db).changes fuel) [
    | none ↦ none
    | some (n, some e) ↦ some (db, err (store_failed e))
    | some (n, none) ↦ some (db, ok n)
  ]
