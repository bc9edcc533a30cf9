-- ===== src/Debug/Harness.antt =====
-- internal/isledbdebug/harness.go. The store library is a parameter, with an explicit state that its
-- calls and waiting change. Loops over the feed take fuel, one unit for each page; `none` is fuel
-- that ran out. The experiments are in Debug/Experiments.
pub mod Counts
use go_gedung_peristiwa.Prelude.{
  ℕ, zero, suc, ◌+◌, ◌-◌, ◌*◌, ◌&&◌, List, [], ◌∷◌, ◌++◌, Option, none, some, Bool, true, false,
  ltb, leb, not, if◌then◌else◌, length, Result, ok, err,
}
use go_gedung_peristiwa.Text.{Text, codes, text_lt, decimal}
use go_gedung_peristiwa.Pipeline.Changefeed.{Change, Page, ChangeDb, count_change_feed}

-- What OpenChangeReader, Bounds and Read give during one reading, and the head of the bounds.
pub record Feed (Cursor Failure : Type 0) : Type 0 where
  pub changes : ChangeDb Cursor Text Failure
  pub head : Cursor

pub record Library (Db Cursor Failure : Type 0) : Type 0 where
  pub put : Text → Text → Db → Db × Option Failure
  pub flush : Db → Db × Option Failure
  pub refresh : Db → Db × Option Failure
  pub wait : ℕ → Db → Db
  pub feed : Db → Feed Cursor Failure
  pub is_zero : Cursor → Bool

pub data HarnessError (Failure : Type 0) : Type 0 where
  store_failed : Failure → HarnessError Failure
  cancelled : HarnessError Failure

abbrev pub key_prefix : Text
key_prefix = codes "debug:feed:"

-- %04d
unfoldable pub padded : Text → Text
padded t =
    if ltb (length t) 4
    then (if ltb (length t) 3
        then (if ltb (length t) 2 then 48 ∷ 48 ∷ 48 ∷ t else 48 ∷ 48 ∷ t)
        else 48 ∷ t)
    else t

unfoldable pub key : ℕ → Text
unfolding padded
key seq = key_prefix ++ padded (decimal seq)

abbrev pub min_key : Text
min_key = key_prefix

abbrev pub max_key : Text
max_key = key_prefix ++ 255 ∷ []

unfoldable pub in_range : Text → Bool
in_range k = not (text_lt k min_key) && not (text_lt max_key k)

unfoldable pub count_changes : List (Change Text) → ℕ
unfolding in_range
count_changes [] = 0
count_changes (ch ∷ chs) = (if in_range ch.key then 1 else 0) + count_changes chs

module _ {Db Cursor Failure : Type 0} (lib : Library Db Cursor Failure) where
  -- A run that changes the store and gives a result or an error.
  abbrev pub Ran : Type 0 → Type 0
  Ran A = Option (Db × Result (HarnessError Failure) A)

  -- A call of the library, after which the run goes on unless it fails.
  unfoldable pub attempt : {A : Type 0} → Db × Option Failure → (Db → Ran A) → Ran A
  attempt (db, some e) k = some (db, err (store_failed e))
  attempt (db, none) k = k db

  -- The values hold the time at which they are written.
  unfoldable pub write_batch : (ℕ → Text) → ℕ → ℕ → Db → Db × Option Failure
  unfolding key
  write_batch value zero seq db = (db, none)
  write_batch value (suc n) seq db =
      let (db', failed) = lib.put (key seq) (value seq) db in
      elim failed [ some e ↦ (db', some e) | none ↦ write_batch value n (suc seq) db' ]

  unfoldable pub flush : Db → Db × Option Failure
  flush db =
      let (db', failed) = lib.flush db in
      elim failed [ some e ↦ (db', some e) | none ↦ lib.refresh db' ]

  unfoldable pub read_pages :
      ChangeDb Cursor Text Failure → ℕ → Cursor → ℕ → Option (ℕ × Cursor × Option Failure)
  unfolding count_changes
  read_pages changes zero next total = none
  read_pages changes (suc f) next total = elim (changes.read next) [
    | err e ↦ some (total, next, some e)
    | ok page ↦ elim page.caught_up [
      | true ↦ some (total + count_changes page.changes, page.next, none)
      | false ↦ read_pages changes f page.next (total + count_changes page.changes)
    ]
  ]

  unfoldable pub read_changes_since : ℕ → Cursor → Db → Option (ℕ × Cursor × Option Failure)
  unfolding read_pages
  read_changes_since fuel cursor db =
      let feed = lib.feed db in
      elim feed.changes.open_fails [
        | some e ↦ some (0, cursor, some e)
        | none ↦
            if not (lib.is_zero cursor)
            then read_pages feed.changes fuel cursor 0
            else elim feed.changes.oldest [
              | err e ↦ some (0, cursor, some e)
              | ok oldest ↦ read_pages feed.changes fuel feed.head 0
            ]
      ]

  unfoldable pub drain_loop :
      ChangeDb Cursor Text Failure → ℕ → Cursor → Option (Result Failure Cursor)
  drain_loop changes zero cursor = none
  drain_loop changes (suc f) cursor = elim (changes.read cursor) [
    | err e ↦ some (err e)
    | ok page ↦ elim page.caught_up [
      | true ↦ some (ok page.next)
      | false ↦ drain_loop changes f page.next
    ]
  ]

  unfoldable pub drain_to_head : ℕ → Db → Option (Result Failure Cursor)
  unfolding drain_loop
  drain_to_head fuel db =
      let feed = lib.feed db in
      elim feed.changes.open_fails [
        | some e ↦ some (err e)
        | none ↦ elim feed.changes.oldest [
          | err e ↦ some (err e)
          | ok none ↦ some (ok feed.head)
          | ok (some oldest) ↦ drain_loop feed.changes fuel oldest
        ]
      ]

  unfoldable pub drained : {A : Type 0} → ℕ → Db → (Cursor → Ran A) → Ran A
  unfolding drain_to_head
  drained fuel db k = elim (drain_to_head fuel db) [
    | none ↦ none
    | some (err e) ↦ some (db, err (store_failed e))
    | some (ok head) ↦ k head
  ]
