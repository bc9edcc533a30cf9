-- ===== src/Debug/Verdicts.antt =====
-- cmd/isledb-debug/main.go: the verdicts on the experiments and the exit code. The parsed flags are
-- parameters, the experiment after strings.ToLower; texts are left out.
pub mod Within
use go_gedung_peristiwa.Prelude.{
  ℕ, ◌||◌, ◌&&◌, List, [], ◌∷◌, ◌++◌, Option, none, some, Bool, true, false, ltb, leb, not,
  if◌then◌else◌, Result, ok, err, keep,
}
use go_gedung_peristiwa.Text.{Text, codes, text_dec}
use go_gedung_peristiwa.Pipeline.Db.{Backend, memory, minio, tigris, unknown}
use go_gedung_peristiwa.Debug.Harness.{Library, write_batch, flush}
use go_gedung_peristiwa.Debug.Experiments.{
  VisibilityRow, IncrementalResult, run_visibility, run_incremental, run_replay,
}

pub data VerdictStatus : Type 0 where
  pass fail info : VerdictStatus

pub record Verdict : Type 0 where
  pub name : Text
  pub status : VerdictStatus

abbrev pub visibility_batch : ℕ
visibility_batch = 5

abbrev memory_visibility_max_ms : ℕ
memory_visibility_max_ms = 500

abbrev s3_visibility_max_ms : ℕ
s3_visibility_max_ms = 5000

abbrev pub incremental_first_new_ms : ℕ
incremental_first_new_ms = 2000

abbrev pub is_failed : Verdict → Bool
is_failed v = elim v.status [ fail ↦ true | _ ↦ false ]

unfoldable pub visibility_budget : Backend → ℕ
visibility_budget memory = memory_visibility_max_ms
visibility_budget _ = s3_visibility_max_ms

abbrev is_ok : {Failure : Type 0} → Option Failure → Bool
is_ok none = true
is_ok (some e) = false

-- `firstVisible` after a row; `none` is -1.
unfoldable pub see_row : {Failure : Type 0} → VisibilityRow Failure → Option ℕ → Option ℕ
see_row r (some d) = some d
see_row r none = if leb visibility_batch r.keys_seen && is_ok r.error then some r.delay_ms else none

unfoldable pub first_visible :
    {Failure : Type 0} → List (VisibilityRow Failure) → Option ℕ → Option ℕ
unfolding see_row
first_visible [] seen = seen
first_visible (r ∷ rs) seen = first_visible rs (see_row r seen)

unfoldable pub visibility_status :
    {Failure : Type 0} → ℕ → List (VisibilityRow Failure) → VerdictStatus
unfolding first_visible
visibility_status budget rows = elim (first_visible rows none) [
  | none ↦ fail
  | some d ↦ if ltb budget d then fail else pass
]

unfoldable pub incremental_status : IncrementalResult → VerdictStatus
incremental_status res =
    if res.timeout
    then fail
    else if ltb res.tail_events res.wrote_keys
    then fail
    else if leb incremental_first_new_ms res.first_new_key_ms
    then fail
    else pass

unfoldable pub any_failed : List Verdict → Bool
any_failed [] = false
any_failed (v ∷ vs) = if is_failed v then true else any_failed vs

unfoldable pub failed_verdicts : List Verdict → List Verdict
failed_verdicts vs = keep is_failed vs

abbrev visibility : VerdictStatus → Verdict
visibility s = record { name = codes "visibility"; status = s }

abbrev incremental : VerdictStatus → Verdict
incremental s = record { name = codes "incremental"; status = s }

abbrev replay : VerdictStatus → Verdict
replay s = record { name = codes "replay"; status = s }

-- The clocks of the experiments, and the ends of the context.
pub record Times : Type 0 where
  pub value : ℕ → Text
  pub elapsed : ℕ → ℕ
  pub before : ℕ → Bool
  pub ms : ℕ → ℕ
  pub stops : ℕ → Bool

abbrev pub is_named : Text → Text → Bool
is_named exp name = elim (text_dec exp name) [ yes _ ↦ true | no _ ↦ false ]

abbrev pub is_tigris : Backend → Bool
is_tigris tigris = true
is_tigris _ = false

module _ {Db Cursor Failure : Type 0} (lib : Library Db Cursor Failure) (fuel polls : ℕ)
    (at : Times) where
  abbrev Judged : Type 0
  Judged = Option (Db × Verdict)

  unfoldable pub run_visibility_verdict : Backend → Db → Judged
  unfolding run_visibility visibility_status visibility_budget
  run_visibility_verdict b db =
      elim (run_visibility lib fuel at.value at.elapsed at.stops visibility_batch db) [
        | none ↦ none
        | some (db', err e) ↦ some (db', visibility fail)
        | some (db', ok rows) ↦
            some (db', visibility (visibility_status (visibility_budget b) rows))
      ]

  -- What comes after the keys are seeded and flushed.
  unfoldable pub seeded : ℕ → (VerdictStatus → Verdict) → Db → (Db → Judged) → Judged
  unfolding write_batch flush
  seeded n verdict db k =
      let (db1, written) = write_batch lib at.value n 1 db in
      elim written [
        | some e ↦ some (db1, verdict fail)
        | none ↦
            let (db2, flushed) = flush lib db1 in
            elim flushed [ some e ↦ some (db2, verdict fail) | none ↦ k db2 ]
      ]

  unfoldable pub run_incremental_verdict : Db → Judged
  unfolding seeded run_incremental incremental_status
  run_incremental_verdict db = seeded 10 incremental db (λ db2.
      elim (run_incremental lib fuel at.value at.before at.ms at.stops polls 10 5 db2) [
        | none ↦ none
        | some (db3, err e) ↦ some (db3, incremental fail)
        | some (db3, ok res) ↦ some (db3, incremental (incremental_status res))
      ])

  unfoldable pub run_replay_verdict : Db → Judged
  unfolding seeded run_replay
  run_replay_verdict db = seeded 20 replay db (λ db2. elim (run_replay lib fuel db2) [
    | none ↦ none
    | some (db3, err e) ↦ some (db3, replay fail)
    | some (db3, ok n) ↦ some (db3, replay (if ltb 0 n then info else fail))
  ])

  -- One `if` of run, with the verdicts before it.
  unfoldable pub judge : Bool → (Db → Judged) → Db × List Verdict → Option (Db × List Verdict)
  judge false experiment r = some r
  judge true experiment (db, vs) = elim (experiment db) [
    | none ↦ none
    | some (db', v) ↦ some (db', vs ++ v ∷ [])
  ]

  abbrev then_judge :
      Option (Db × List Verdict)
      → (Db × List Verdict → Option (Db × List Verdict))
      → Option (Db × List Verdict)
  then_judge none k = none
  then_judge (some r) k = k r

  -- The verdicts and the exit code; `opened` is `none` where Open fails.
  unfoldable pub run : Backend → Bool → Text → Option Db → Option (List Verdict × ℕ)
  unfolding judge run_visibility_verdict run_incremental_verdict run_replay_verdict any_failed
  run b has_credentials exp opened =
      if is_tigris b && not has_credentials then some ([], 1) else elim opened [
        | none ↦ some ([], 1)
        | some db ↦
            let all = is_named exp (codes "all") in
            let judged =
              then_judge
                (judge (all || is_named exp (codes "visibility")) (run_visibility_verdict b)
                  (db, []))
                (λ r1.
                  then_judge
                    (judge (all || is_named exp (codes "incremental")) run_incremental_verdict r1)
                    (λ r2. judge (all || is_named exp (codes "replay")) run_replay_verdict r2)) in
            elim judged [ none ↦ none | some (db', vs) ↦ some (vs, if any_failed vs then 1 else 0) ]
      ]
