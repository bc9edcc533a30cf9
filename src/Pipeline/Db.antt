-- ===== src/Pipeline/Db.antt =====
-- internal/pipeline/db.go: opening and closing one prefix's handles. What the calls of the store
-- library, of the object store and of the file system return is a parameter; the effects of a
-- call are listed in the order in which they happen.
pub mod Laws
use go_gedung_peristiwa.Prelude.{
  List, [], ◌∷◌, ◌++◌, Option, none, some, Bool, true, false, if◌then◌else◌, Result, ok, err, ◌≡◌,
  refl,
}

pub data Backend : Type 0 where
  memory minio tigris unknown : Backend

-- What has to be closed again. The bucket is a handle of its own in memory only.
pub data Handle : Type 0 where
  bucket db writer reader maintenance : Handle

pub data Effect : Type 0 where
  opened closed : Handle → Effect
  flushed ran_once cancelled : Effect

-- Which calls fail on the way to an open prefix.
pub record OpenFaults : Type 0 where
  pub ensure_bucket : Bool
  pub open_db : Bool
  pub mkdir : Bool
  pub open_writer : Bool
  pub open_reader : Bool
  pub open_maintenance : Bool

pub data OpenError : Type 0 where
  unknown_backend ensure_failed db_failed mkdir_failed writer_failed reader_failed : OpenError
  maintenance_failed : OpenError

-- The handles of a prefix: `has_bucket` is a `closeBucket` other than nil.
pub record PrefixDb : Type 0 where
  pub has_bucket : Bool
  pub has_maint_cancel : Bool

-- What was done, and the result.
pub record Ran (A : Type 0) : Type 0 where
  pub effects : List Effect
  pub result : Result OpenError A

-- `openIsleDB`: the result says whether there is a bucket to close.
unfoldable pub open_isle_db : Backend → OpenFaults → Ran Bool
open_isle_db memory io =
    if io.open_db
    then record { effects = opened bucket ∷ closed bucket ∷ []; result = err db_failed }
    else record { effects = opened bucket ∷ opened db ∷ []; result = ok true }
open_isle_db unknown io = record { effects = []; result = err unknown_backend }
open_isle_db backend io =
    if io.ensure_bucket
    then record { effects = []; result = err ensure_failed }
    else if io.open_db
    then record { effects = []; result = err db_failed }
    else record { effects = opened db ∷ []; result = ok false }

-- `if closeBucket != nil { _ = closeBucket() }`
unfoldable pub close_bucket : Bool → List Effect
close_bucket has_bucket = if has_bucket then closed bucket ∷ [] else []

-- `OpenPrefixDB` from the database on.
unfoldable pub open_handles : OpenFaults → Bool → List Effect → Bool → Ran PrefixDb
unfolding close_bucket
open_handles io run_maint before has_bucket =
    let rest = closed db ∷ close_bucket has_bucket in
    if io.mkdir
    then record { effects = before ++ rest; result = err mkdir_failed }
    else if io.open_writer
    then record { effects = before ++ rest; result = err writer_failed }
    else if io.open_reader
    then record {
      effects = before ++ opened writer ∷ closed writer ∷ rest;
      result = err reader_failed;
    }
    else if io.open_maintenance
    then record {
      effects = before ++ opened writer ∷ opened reader ∷ closed reader ∷ closed writer ∷ rest;
      result = err maintenance_failed;
    }
    else record {
      effects = before ++ opened writer ∷ opened reader ∷ opened maintenance ∷ [];
      result = ok (record { has_bucket = has_bucket; has_maint_cancel = run_maint });
    }

unfoldable pub open_prefix_db : Backend → OpenFaults → Bool → Ran PrefixDb
unfolding open_isle_db open_handles
open_prefix_db backend io run_maint =
    let r = open_isle_db backend io in
    elim r.result [
      | err e ↦ record { effects = r.effects; result = err e }
      | ok has_bucket ↦ open_handles io run_maint r.effects has_bucket
    ]

-- `OpenReaderDB`: the result says whether the closer has a bucket to close.
unfoldable pub open_reader_db : Backend → OpenFaults → Ran Bool
unfolding open_isle_db close_bucket
open_reader_db backend io =
    let r = open_isle_db backend io in
    elim r.result [
      | err e ↦ record { effects = r.effects; result = err e }
      | ok has_bucket ↦
          let rest = closed db ∷ close_bucket has_bucket in
          if io.mkdir
          then record { effects = r.effects ++ rest; result = err mkdir_failed }
          else if io.open_reader
          then record { effects = r.effects ++ rest; result = err reader_failed }
          else record { effects = r.effects ++ opened reader ∷ []; result = ok has_bucket }
    ]

-- What the calls of `Close` return.
pub record CloseFaults (Failure : Type 0) : Type 0 where
  pub flush : Option Failure
  pub close_maintenance : Option Failure
  pub close_writer : Option Failure
  pub close_reader : Option Failure
  pub close_db : Option Failure
  pub close_bucket : Option Failure

module _ {Failure : Type 0} where
  -- `keep`: the first error stays.
  unfoldable pub keep_first : Option Failure → Option Failure → Option Failure
  keep_first (some e) x = some e
  keep_first none x = x

  unfoldable pub close : CloseFaults Failure → PrefixDb → List Effect × Option Failure
  unfolding keep_first
  close io p =
      let cancel : List Effect = if p.has_maint_cancel then cancelled ∷ [] else [] in
      let e1 = keep_first none io.flush in
      let e2 = keep_first e1 io.close_maintenance in
      let e3 = keep_first e2 io.close_writer in
      let e4 = keep_first e3 io.close_reader in
      let e5 = keep_first e4 io.close_db in
      let steps =
        cancel
        ++ (flushed
            ∷ ran_once
            ∷ closed maintenance
            ∷ closed writer
            ∷ closed reader
            ∷ closed db
            ∷ []) in
      if p.has_bucket
      then (steps ++ closed bucket ∷ [], keep_first e5 io.close_bucket)
      else (steps, e5)

  -- The closer that `OpenReaderDB` returns stops at the first error.
  unfoldable pub close_reader_db : CloseFaults Failure → Bool → List Effect × Option Failure
  close_reader_db io has_bucket = elim io.close_reader [
    | some e ↦ (closed reader ∷ [], some e)
    | none ↦ elim io.close_db [
      | some e ↦ (closed reader ∷ closed db ∷ [], some e)
      | none ↦
          if has_bucket
          then (closed reader ∷ closed db ∷ closed bucket ∷ [], io.close_bucket)
          else (closed reader ∷ closed db ∷ [], none)
    ]
  ]
