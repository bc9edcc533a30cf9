-- ===== src/Pipeline/Changefeed.antt =====
-- internal/pipeline/changefeed.go. The change reader (isledb) is a parameter: what opening it, its
-- bounds and a read at a cursor return during the call. The loops take fuel; `none` is a loop
-- that the fuel did not end.
pub mod Laws
use go_gedung_peristiwa.Prelude.{
  ℕ, zero, suc, ◌+◌, ◌==◌, ◌||◌, List, [], ◌∷◌, ◌++◌, Option, none, some, Bool, true, false, ltb,
  leb, not, if◌then◌else◌, length, Result, ok, err,
}
use go_gedung_peristiwa.Prelude.Int.{ℤ, to_nat}
use go_gedung_peristiwa.Text.{Text}

pub record Change (Value : Type 0) : Type 0 where
  pub is_put : Bool
  pub key : Text
  pub value : Value

pub record Page (Cursor Value : Type 0) : Type 0 where
  pub changes : List (Change Value)
  pub next : Cursor
  pub caught_up : Bool

-- `oldest` is `none` for the zero cursor of an empty feed.
pub record ChangeDb (Cursor Value Failure : Type 0) : Type 0 where
  pub open_fails : Option Failure
  pub oldest : Result Failure (Option Cursor)
  pub read : Cursor → Result Failure (Page Cursor Value)

pub record ChangeFeedSummary : Type 0 where
  pub change_count : ℕ
  pub from : ℕ
  pub to : ℕ
  pub empty : Bool

-- One change of the loop of `SummarizeChangeFeed`, with the time of its key.
unfoldable pub summarize_change :
    {Value : Type 0} → (Text → ℤ) → Change Value → ChangeFeedSummary → ChangeFeedSummary
summarize_change timestamp_ns ch sum =
    if not ch.is_put
    then sum
    else let ts = to_nat (timestamp_ns ch.key) in
      if leb ts 0 then record sum { change_count = sum.change_count + 1 } else record sum {
        change_count = sum.change_count + 1;
        from = if sum.from == 0 || ltb ts sum.from then ts else sum.from;
        to = if ltb sum.to ts then ts else sum.to;
      }

unfoldable pub summarize_page :
    {Value : Type 0} → (Text → ℤ) → List (Change Value) → ChangeFeedSummary → ChangeFeedSummary
unfolding summarize_change
summarize_page timestamp_ns [] sum = sum
summarize_page timestamp_ns (ch ∷ chs) sum =
    summarize_page timestamp_ns chs (summarize_change timestamp_ns ch sum)

abbrev pub no_summary : ChangeFeedSummary
no_summary = record { change_count = 0; from = 0; to = 0; empty = false }

-- `S` is the state that the callback of `DrainChangeFeed` keeps.
module _ {Value Failure S : Type 0} (apply : Change Value → S → S × Option Failure) where
  -- The changes of one page: the state, the number applied, and the callback's error.
  unfoldable pub apply_page : List (Change Value) → S → ℕ → S × ℕ × Option Failure
  apply_page [] s total = (s, total, none)
  apply_page (ch ∷ chs) s total =
      let (s', failed) = apply ch s in
      elim failed [ some e ↦ (s', total, some e) | none ↦ apply_page chs s' (total + 1) ]

module _ {Cursor Value Failure : Type 0} (db : ChangeDb Cursor Value Failure) where
  -- The loop of `CountChangeFeed`.
  unfoldable pub count_pages : ℕ → Cursor → ℕ → Option (ℕ × Option Failure)
  count_pages zero cursor total = none
  count_pages (suc f) cursor total = elim (db.read cursor) [
    | err e ↦ some (total, some e)
    | ok page ↦ elim page.caught_up [
      | true ↦ some (total + length page.changes, none)
      | false ↦ count_pages f page.next (total + length page.changes)
    ]
  ]

  unfoldable pub count_change_feed : ℕ → Option (ℕ × Option Failure)
  count_change_feed fuel = elim db.open_fails [
    | some e ↦ some (0, some e)
    | none ↦ elim db.oldest [
      | err e ↦ some (0, some e)
      | ok none ↦ some (0, none)
      | ok (some cursor) ↦ count_pages fuel cursor 0
    ]
  ]

  -- The loop of `SummarizeChangeFeed`.
  unfoldable pub summarize_pages :
      (Text → ℤ) → ℕ → Cursor → ChangeFeedSummary → Option (ChangeFeedSummary × Option Failure)
  summarize_pages timestamp_ns zero cursor sum = none
  summarize_pages timestamp_ns (suc f) cursor sum = elim (db.read cursor) [
    | err e ↦ some (sum, some e)
    | ok page ↦
        let sum' = summarize_page timestamp_ns page.changes sum in
        elim page.caught_up [
          | true ↦ some (record sum' { empty = sum'.change_count == 0 }, none)
          | false ↦ summarize_pages timestamp_ns f page.next sum'
        ]
  ]

  unfoldable pub summarize_change_feed :
      (Text → ℤ) → ℕ → Option (ChangeFeedSummary × Option Failure)
  summarize_change_feed timestamp_ns fuel = elim db.open_fails [
    | some e ↦ some (no_summary, some e)
    | none ↦ elim db.oldest [
      | err e ↦ some (no_summary, some e)
      | ok none ↦ some (record no_summary { empty = true }, none)
      | ok (some cursor) ↦ summarize_pages timestamp_ns fuel cursor no_summary
    ]
  ]

  -- `DrainChangeFeed` with the state `S` that its callback keeps.
  module _ {S : Type 0} (apply : Change Value → S → S × Option Failure) where
    unfoldable pub drain_pages : ℕ → Cursor → S → ℕ → Option (S × ℕ × Option Failure)
    drain_pages zero cursor s total = none
    drain_pages (suc f) cursor s total = elim (db.read cursor) [
      | err e ↦ some (s, total, some e)
      | ok page ↦
          let (s', total', failed) = apply_page apply page.changes s total in
          elim failed [
            | some e ↦ some (s', total', some e)
            | none ↦ elim page.caught_up [
              | true ↦ some (s', total', none)
              | false ↦ drain_pages f page.next s' total'
            ]
          ]
    ]

    unfoldable pub drain_change_feed : ℕ → S → Option (S × ℕ × Option Failure)
    drain_change_feed fuel s = elim db.open_fails [
      | some e ↦ some (s, 0, some e)
      | none ↦ elim db.oldest [
        | err e ↦ some (s, 0, some e)
        | ok none ↦ some (s, 0, none)
        | ok (some cursor) ↦ drain_pages fuel cursor s 0
      ]
    ]
