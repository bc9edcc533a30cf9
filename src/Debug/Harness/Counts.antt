-- ===== src/Debug/Harness/Counts.antt =====
-- What the harness counts of a feed of finitely many pages.
use go_gedung_peristiwa.Prelude.{
  ℕ, zero, suc, ◌+◌, ◌≤◌, ◌≡◌, List, [], ◌∷◌, ◌++◌, none, some, false, length, ok, arith,
}
use go_gedung_peristiwa.Text.{Text}
use go_gedung_peristiwa.Pipeline.Changefeed.{Change, Page, ChangeDb}
use go_gedung_peristiwa.Pipeline.Changefeed.Laws.{changes_of, Feeds, Readable}
use go_gedung_peristiwa.Debug.Harness.{
  Library, count_changes, read_pages, read_changes_since, drain_loop, drain_to_head,
}

-- The cursor after the pages.
abbrev pub end_of : {Cursor : Type 0} → Cursor → List (Page Cursor Text) → Cursor
end_of cursor [] = cursor
end_of cursor (p ∷ ps) = end_of p.next ps

count_changes-append :
    (xs ys : List (Change Text)) → count_changes (xs ++ ys) ≡ count_changes xs + count_changes ys
unfolding count_changes
count_changes-append [] ys = omega arith
count_changes-append (x ∷ xs) ys = ground (arith, count_changes-append xs ys)

module _ {Cursor Failure : Type 0} (db : ChangeDb Cursor Text Failure) where
  read_pages-count :
      {Db : Type 0} (lib : Library Db Cursor Failure) (pages : List (Page Cursor Text)) (f : ℕ)
      (cursor : Cursor) (total : ℕ)
      → Feeds db cursor pages
      → length pages ≤ f
      → read_pages lib db f cursor total
        ≡ some (total + count_changes (changes_of pages), end_of cursor pages, none)
  unfolding read_pages
  read_pages-count lib [] f cursor total h le = absurd h
  read_pages-count lib (p ∷ ps) zero cursor total h le = absurd (omega arith)
  read_pages-count lib (p ∷ []) (suc f) cursor total h le =
      ground (arith, count_changes-append p.changes [])
  read_pages-count lib (p ∷ q ∷ ps) (suc f) cursor total h le = ground (
    arith,
    read_pages-count lib (q ∷ ps) f p.next (total + count_changes p.changes) h.2,
    count_changes-append p.changes (changes_of (q ∷ ps)),
  )

  drain_loop-end_of :
      {Db : Type 0} (lib : Library Db Cursor Failure) (pages : List (Page Cursor Text)) (f : ℕ)
      (cursor : Cursor)
      → Feeds db cursor pages
      → length pages ≤ f
      → drain_loop lib db f cursor ≡ some (ok (end_of cursor pages))
  unfolding drain_loop
  drain_loop-end_of lib [] f cursor h le = absurd h
  drain_loop-end_of lib (p ∷ ps) zero cursor h le = absurd (omega arith)
  drain_loop-end_of lib (p ∷ []) (suc f) cursor h le = ground arith
  drain_loop-end_of lib (p ∷ q ∷ ps) (suc f) cursor h le =
      ground (arith, drain_loop-end_of lib (q ∷ ps) f p.next h.2)

-- Reading from a cursor that is not zero.
pub read_changes_since-count :
    {Db Cursor Failure : Type 0} (lib : Library Db Cursor Failure) (db : Db) (cursor : Cursor)
    (new : List (Page Cursor Text)) (f : ℕ)
    → lib.is_zero cursor ≡ false
    → (lib.feed db).changes.open_fails ≡ none
    → Feeds (lib.feed db).changes cursor new
    → length new ≤ f
    → read_changes_since lib f cursor db
      ≡ some (count_changes (changes_of new), end_of cursor new, none)
unfolding read_changes_since
read_changes_since-count lib db cursor new f nz opens feeds le =
    ground (arith, nz, opens, read_pages-count (lib.feed db).changes lib new f cursor 0 feeds le)

-- The drain of a feed that can be read ends behind its pages.
pub drain_to_head-end_of :
    {Db Cursor Failure : Type 0} (lib : Library Db Cursor Failure) (db : Db)
    (pages : List (Page Cursor Text)) (f : ℕ) (r : Readable (lib.feed db).changes pages)
    → length pages ≤ f
    → drain_to_head lib f db ≡ some (ok (end_of r.start pages))
unfolding drain_to_head
drain_to_head-end_of lib db pages f r le = ground (
  arith,
  r.opens,
  r.bounds,
  drain_loop-end_of (lib.feed db).changes lib pages f r.start r.feeds le,
)

-- The feed of `db` can be read, in `pages`, and ends at a cursor that is not zero; the feed of `db'`
-- opens and has the pages `new` from there on. With as much fuel as there are pages, the drain of
-- `db` gives that cursor, and reading `db'` from it counts the changes of `new` whose key is one
-- of the harness's.
pub read_changes_since-drain_to_head :
    {Db Cursor Failure : Type 0} (lib : Library Db Cursor Failure) (db db' : Db)
    (pages new : List (Page Cursor Text)) (f : ℕ) (r : Readable (lib.feed db).changes pages)
    → lib.is_zero (end_of r.start pages) ≡ false
    → (lib.feed db').changes.open_fails ≡ none
    → Feeds (lib.feed db').changes (end_of r.start pages) new
    → length pages ≤ f
    → length new ≤ f
    → (drain_to_head lib f db ≡ some (ok (end_of r.start pages)))
      × (read_changes_since lib f (end_of r.start pages) db'
          ≡ some (count_changes (changes_of new), end_of (end_of r.start pages) new, none))
read_changes_since-drain_to_head lib db db' pages new f r nz opens feeds le le' = (
  drain_to_head-end_of lib db pages f r le,
  read_changes_since-count lib db' (end_of r.start pages) new f nz opens feeds le',
)
