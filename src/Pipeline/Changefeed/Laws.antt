-- ===== src/Pipeline/Changefeed/Laws.antt =====
-- The loops of internal/pipeline/changefeed.go on a feed of finitely many pages.
use go_gedung_peristiwa.Prelude.{
  ℕ, zero, suc, ◌+◌, ◌≤◌, ◌≡◌, refl, List, [], ◌∷◌, ◌++◌, Option, none, some, true, false, length,
  ok, arith, length-append, append-nil, ◌==◌,
}
use go_gedung_peristiwa.Prelude.Int.{ℤ}
use go_gedung_peristiwa.Text.{Text}
use go_gedung_peristiwa.Pipeline.Changefeed.{
  Change, Page, ChangeDb, ChangeFeedSummary, no_summary, summarize_page, count_pages,
  count_change_feed, summarize_pages, summarize_change_feed, apply_page, drain_pages,
  drain_change_feed,
}

abbrev pub changes_of : {Cursor Value : Type 0} → List (Page Cursor Value) → List (Change Value)
changes_of [] = []
changes_of (p ∷ ps) = p.changes ++ changes_of ps

module _ {Cursor Value Failure : Type 0} where
  -- From the cursor the reader gives these pages, and the last of them is caught up.
  abbrev pub Feeds : ChangeDb Cursor Value Failure → Cursor → List (Page Cursor Value) → Type 0
  Feeds db cursor [] = ⊥
  Feeds db cursor (p ∷ []) = (db.read cursor ≡ ok p) × (p.caught_up ≡ true)
  Feeds db cursor (p ∷ q ∷ ps) =
      (db.read cursor ≡ ok p) × (p.caught_up ≡ false) × Feeds db p.next (q ∷ ps)

  -- The reader opens at a cursor from which it gives these pages.
  pub record Readable (db : ChangeDb Cursor Value Failure) (pages : List (Page Cursor Value))
      : Type 0 where
    pub start : Cursor
    pub opens : db.open_fails ≡ none
    pub bounds : db.oldest ≡ ok (some start)
    pub feeds : Feeds db start pages

-- The summary as it is returned.
unfoldable pub finished : ChangeFeedSummary → ChangeFeedSummary
finished sum = record sum { empty = sum.change_count == 0 }

module _ {Cursor Value Failure : Type 0} (db : ChangeDb Cursor Value Failure) where
  count_pages-length :
      (pages : List (Page Cursor Value)) (f : ℕ) (cursor : Cursor) (total : ℕ)
      → Feeds db cursor pages
      → length pages ≤ f
      → count_pages db f cursor total ≡ some (total + length (changes_of pages), none)
  unfolding count_pages
  count_pages-length [] f cursor total h le = absurd h
  count_pages-length (p ∷ ps) zero cursor total h le = absurd (omega arith)
  count_pages-length (p ∷ []) (suc f) cursor total h le =
      ground (arith, length-append {0} p.changes [])
  count_pages-length (p ∷ q ∷ ps) (suc f) cursor total h le = ground (
    arith,
    count_pages-length (q ∷ ps) f p.next (total + length p.changes) h.2,
    length-append {0} p.changes (changes_of (q ∷ ps)),
  )

  summarize_page-append :
      (ts : Text → ℤ) (xs ys : List (Change Value)) (sum : ChangeFeedSummary)
      → summarize_page ts (xs ++ ys) sum ≡ summarize_page ts ys (summarize_page ts xs sum)
  unfolding summarize_page
  summarize_page-append ts [] ys sum = refl
  summarize_page-append ts (x ∷ xs) ys sum = summarize_page-append ts xs ys _

  summarize_pages-page :
      (ts : Text → ℤ) (pages : List (Page Cursor Value)) (f : ℕ) (cursor : Cursor)
      (sum : ChangeFeedSummary)
      → Feeds db cursor pages
      → length pages ≤ f
      → summarize_pages db ts f cursor sum
        ≡ some (finished (summarize_page ts (changes_of pages) sum), none)
  unfolding summarize_pages finished
  summarize_pages-page ts [] f cursor sum h le = absurd h
  summarize_pages-page ts (p ∷ ps) zero cursor sum h le = absurd (omega arith)
  summarize_pages-page ts (p ∷ []) (suc f) cursor sum h le = rw append-nil (ground arith)
  summarize_pages-page ts (p ∷ q ∷ ps) (suc f) cursor sum h le = ground (
    arith,
    summarize_pages-page ts (q ∷ ps) f p.next (summarize_page ts p.changes sum) h.2,
    summarize_page-append ts p.changes (changes_of (q ∷ ps)) sum,
  )

  -- `SummarizeChangeFeed` ends, with as much fuel as there are pages, and gives the summary of
  -- the changes of all pages.
  pub summarize_change_feed-page :
      (ts : Text → ℤ) (pages : List (Page Cursor Value)) (f : ℕ)
      → Readable db pages
      → length pages ≤ f
      → summarize_change_feed db ts f
        ≡ some (finished (summarize_page ts (changes_of pages) no_summary), none)
  unfolding summarize_change_feed
  summarize_change_feed-page ts pages f r le =
      ground (arith, summarize_pages-page ts pages f r.start no_summary r.feeds le)

  -- `CountChangeFeed` ends, with as much fuel as there are pages, and gives the number of changes
  -- of all pages.
  pub count_change_feed-length :
      (pages : List (Page Cursor Value)) (f : ℕ)
      → Readable db pages
      → length pages ≤ f
      → count_change_feed db f ≡ some (length (changes_of pages), none)
  unfolding count_change_feed
  count_change_feed-length pages f r le =
      ground (arith, count_pages-length pages f r.start 0 r.feeds le)

module _ {Value Failure S : Type 0} (apply : Change Value → S → S × Option Failure) where
  -- One run of the callback over the changes, with the rule for errors of `DrainChangeFeed`.
  apply_page-append :
      (xs ys : List (Change Value)) (s : S) (total : ℕ)
      → apply_page apply (xs ++ ys) s total ≡ (
          let r = apply_page apply xs s total in
          elim r.2 [ some e ↦ r | none ↦ apply_page apply ys r.0 r.1 ])
  unfolding apply_page
  apply_page-append [] ys s total = refl
  apply_page-append (x ∷ xs) ys s total =
      ground (arith, apply_page-append xs ys (apply x s).0 (total + 1))

  apply_page_nil : (s : S) (total : ℕ) → apply_page apply [] s total ≡ (s, total, none)
  unfolding apply_page
  apply_page_nil s total = refl

module _ {Cursor Value Failure S : Type 0} (db : ChangeDb Cursor Value Failure)
    (apply : Change Value → S → S × Option Failure) where
  drain_pages-apply :
      (pages : List (Page Cursor Value)) (f : ℕ) (cursor : Cursor) (s : S) (total : ℕ)
      → Feeds db cursor pages
      → length pages ≤ f
      → drain_pages db apply f cursor s total ≡ some (apply_page apply (changes_of pages) s total)
  unfolding drain_pages
  drain_pages-apply [] f cursor s total h le = absurd h
  drain_pages-apply (p ∷ ps) zero cursor s total h le = absurd (omega arith)
  drain_pages-apply (p ∷ []) (suc f) cursor s total h le = ground (
    arith,
    apply_page-append apply p.changes [] s total,
    apply_page_nil apply (apply_page apply p.changes s total).0
        (apply_page apply p.changes s total).1,
  )
  drain_pages-apply (p ∷ q ∷ ps) (suc f) cursor s total h le =
      let r = apply_page apply p.changes s total in
      ground (
        arith,
        apply_page-append apply p.changes (changes_of (q ∷ ps)) s total,
        drain_pages-apply (q ∷ ps) f p.next r.0 r.1 h.2,
      )

  -- `DrainChangeFeed` ends, with as much fuel as there are pages, and does what one pass of its
  -- callback over the changes of all pages in order does, up to the first error.
  pub drain_change_feed-apply :
      (pages : List (Page Cursor Value)) (f : ℕ) (s : S)
      → Readable db pages
      → length pages ≤ f
      → drain_change_feed db apply f s ≡ some (apply_page apply (changes_of pages) s 0)
  unfolding drain_change_feed
  drain_change_feed-apply pages f s r le =
      ground (arith, drain_pages-apply pages f r.start s 0 r.feeds le)
