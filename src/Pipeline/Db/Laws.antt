-- ===== src/Pipeline/Db/Laws.antt =====
-- The handles of internal/pipeline/db.go that are left open.
use go_gedung_peristiwa.Prelude.{some, Elem, ◌≡◌, List, [], ◌∷◌, ◌++◌, Bool, ok, err, arith}
use go_gedung_peristiwa.Pipeline.Db.{
  Backend, memory, minio, tigris, unknown, Handle, Effect, opened, closed, OpenFaults, OpenError,
  PrefixDb, open_prefix_db, open_reader_db, close_reader_db, db, CloseFaults, close,
}

Handle-discrete : Discrete Handle
Handle-discrete = hlevel

-- The handle left open among those that are open: it is taken off the list when it is closed.
unfoldable remove : Handle → List Handle → List Handle
unfolding Handle-discrete
remove h [] = []
remove h (x ∷ xs) = elim (Handle-discrete x h) [ yes e ↦ xs | no n ↦ x ∷ remove h xs ]

unfoldable pub held_after : List Effect → List Handle → List Handle
unfolding remove
held_after [] held = held
held_after (opened h ∷ es) held = held_after es (h ∷ held)
held_after (closed h ∷ es) held = held_after es (remove h held)
held_after (e ∷ es) held = held_after es held

-- Opening a prefix that fails leaves no handle open, whichever call failed.
pub open_prefix_db_failed :
    (backend : Backend) (io : OpenFaults) (run_maint : Bool) (e : OpenError)
    → (open_prefix_db backend io run_maint).result ≡ err e
    → held_after (open_prefix_db backend io run_maint).effects [] ≡ []
unfolding open_prefix_db held_after
open_prefix_db_failed memory io m e h = ground arith
open_prefix_db_failed minio io m e h = ground arith
open_prefix_db_failed tigris io m e h = ground arith
open_prefix_db_failed unknown io m e h = ground arith

-- A prefix that was opened and then closed leaves no handle open, whichever calls of `Close` fail.
pub close-open_prefix_db :
    {Failure : Type 0} (backend : Backend) (io : OpenFaults) (run_maint : Bool) (p : PrefixDb)
    (faults : CloseFaults Failure)
    → (open_prefix_db backend io run_maint).result ≡ ok p
    → held_after ((open_prefix_db backend io run_maint).effects ++ (close faults p).0) [] ≡ []
unfolding open_prefix_db held_after close
close-open_prefix_db memory io m p faults h = ground arith
close-open_prefix_db minio io m p faults h = ground arith
close-open_prefix_db tigris io m p faults h = ground arith
close-open_prefix_db unknown io m p faults h = ground arith

-- Opening a reader that fails leaves no handle open, whichever call failed.
pub open_reader_db_failed :
    (backend : Backend) (io : OpenFaults) (e : OpenError)
    → (open_reader_db backend io).result ≡ err e
    → held_after (open_reader_db backend io).effects [] ≡ []
unfolding open_reader_db held_after
open_reader_db_failed memory io e h = ground arith
open_reader_db_failed minio io e h = ground arith
open_reader_db_failed tigris io e h = ground arith
open_reader_db_failed unknown io e h = ground arith

-- Where a reader that was opened fails to close, its closer leaves the database open.
pub close_reader_db_stops :
    {Failure : Type 0} (backend : Backend) (io : OpenFaults) (has_bucket : Bool)
    (faults : CloseFaults Failure) (e : Failure)
    → (open_reader_db backend io).result ≡ ok has_bucket
    → faults.close_reader ≡ some e
    → Elem db (
        held_after
          ((open_reader_db backend io).effects ++ (close_reader_db faults has_bucket).0)
          [])
unfolding open_reader_db held_after close_reader_db
close_reader_db_stops memory io b faults e h f = ground arith
close_reader_db_stops minio io b faults e h f = ground arith
close_reader_db_stops tigris io b faults e h f = ground arith
close_reader_db_stops unknown io b faults e h f = absurd (ground arith)
