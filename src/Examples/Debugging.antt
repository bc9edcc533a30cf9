-- ===== src/Examples/Debugging.antt =====
-- The experiments on a store that is the list of the keys that were put. A cursor is one more than
-- the number of keys before it.
use go_gedung_peristiwa.Prelude.{
  ℕ, zero, suc, ◌+◌, ◌==◌, ◌≡◌, refl, List, [], ◌∷◌, ◌++◌, none, some, true, false, ok, arith,
  length, map, subst, sym, ltb, leb, take,
}
use go_gedung_peristiwa.Text.{Text, text_lt, decimal, digits_of}
use go_gedung_peristiwa.Pipeline.Changefeed.{Change, Page}
use go_gedung_peristiwa.Pipeline.Changefeed.Laws.{Readable, Feeds}
use go_gedung_peristiwa.Debug.Harness.{
  Library, key, padded, in_range, count_changes, attempt, write_batch, flush, read_pages,
  read_changes_since, drain_loop, drain_to_head, drained,
}
use go_gedung_peristiwa.Debug.Harness.Counts.{read_changes_since-drain_to_head}
use go_gedung_peristiwa.Debug.Experiments.{
  VisibilityRow, delays, visibility_rows, run_visibility, run_incremental,
}
use go_gedung_peristiwa.Debug.Experiments.Polled.{Polls, Reported, waited, run_incremental-Reported}
use go_gedung_peristiwa.Debug.Verdicts.{pass, visibility_status}
use go_gedung_peristiwa.Debug.Verdicts.Within.{visibility_status-run_visibility}

abbrev since : ℕ → List Text → List Text
since zero ks = ks
since (suc n) [] = []
since (suc n) (k ∷ ks) = since n ks

abbrev change : Text → Change Text
change k = record { is_put = true; key = k; value = [] }

-- Three keys at a time.
abbrev page : List Text → ℕ → Page ℕ Text
page ks cursor =
    let more : List Text = elim cursor [ zero ↦ [] | suc n ↦ since n ks ] in
    record {
      changes = map change (take 3 more);
      next = cursor + length (take 3 more);
      caught_up = leb (length more) 3;
    }

abbrev library : Library (List Text) ℕ ℕ
library = record {
  put = λ k v ks. (ks ++ k ∷ [], none);
  flush = λ ks. (ks, none);
  refresh = λ ks. (ks, none);
  wait = λ n ks. ks;
  feed = λ ks. record {
    changes = record {
      open_fails = none;
      oldest = ok (some 1);
      read = λ cursor. ok (page ks cursor);
    };
    head = length ks + 1;
  };
  is_zero = λ cursor. cursor == 0;
}

abbrev one_key : List Text
one_key = key 1 ∷ []

abbrev two_keys : List Text
two_keys = key 1 ∷ key 2 ∷ []

one_key-Readable : Readable (library.feed one_key).changes (page one_key 1 ∷ [])
one_key-Readable = record { start = 1; opens = refl; bounds = refl; feeds = (refl, refl) }

read_changes_since-drain_to_head_example :
    (drain_to_head library 1 one_key ≡ some (ok 2))
    × (read_changes_since library 1 2 two_keys ≡ some (1, 3, none))
unfolding count_changes in_range key padded decimal digits_of text_lt
read_changes_since-drain_to_head_example =
    read_changes_since-drain_to_head library one_key two_keys (page one_key 1 ∷ [])
      (page two_keys 2 ∷ []) 1 one_key-Readable refl refl (refl, refl) (omega arith) (omega arith)

abbrev ten_keys : List Text
ten_keys = map key (1 ∷ 2 ∷ 3 ∷ 4 ∷ 5 ∷ 6 ∷ 7 ∷ 8 ∷ 9 ∷ 10 ∷ [])

abbrev rows : List (VisibilityRow ℕ)
rows = map (λ d. record { delay_ms = d; keys_seen = 5; error = none }) delays

rows-run_visibility :
    run_visibility library 2 (λ k. []) (λ k. 0) (λ k. false) 5 [] ≡ some (ten_keys, ok rows)
unfolding run_visibility visibility_rows attempt write_batch flush drained drain_to_head drain_loop
    read_changes_since read_pages count_changes in_range key padded decimal digits_of text_lt
rows-run_visibility = refl

visibility_status-run_visibility_example : visibility_status 500 rows ≡ pass
visibility_status-run_visibility_example =
    visibility_status-run_visibility library 2 500 (λ k. []) (λ k. 0) (λ k. false) 5 [] ten_keys
      rows rows-run_visibility

-- Five keys after the first, in two pages.
abbrev after : List Text
after = one_key ++ map key (11 ∷ 12 ∷ 13 ∷ 14 ∷ 15 ∷ [])

abbrev new : ℕ → List (Page ℕ Text)
new k = page after 2 ∷ page after 5 ∷ []

unwaited : (i : ℕ) (ks : List Text) → waited library i ks ≡ ks
unwaited zero ks = refl
unwaited (suc i) ks = unwaited i ks

new_feeds-Polls : Polls library 2 (λ k. ltb k 2) (λ k. false) 2 new 2 0 after
new_feeds-Polls = record {
  opens = λ i l. refl;
  feeds = λ i l.
      subst (λ ks. Feeds (library.feed ks).changes 2 (new 0)) (sym (unwaited i after))
        (refl, refl, (refl, refl));
  enough = λ i l. omega arith;
  ahead = λ i l. ground (arith, l);
  over = refl;
  going = λ i l. refl;
}

-- The first poll counts them all, after 7 milliseconds.
run_incremental-Reported_example :
    Reported library 5 true
      (some 7)
      (run_incremental library 2 (λ k. []) (λ k. ltb k 2) (λ k. 7 + k) (λ k. false) 3 10 5 one_key)
unfolding write_batch flush count_changes in_range key padded decimal digits_of text_lt
run_incremental-Reported_example =
    run_incremental-Reported library 2 (λ k. []) (λ k. ltb k 2) (λ k. 7 + k) (λ k. false) 3 10 5 2
      one_key (page one_key 1 ∷ []) new one_key-Readable (omega arith) refl (omega arith) refl refl
      new_feeds-Polls (omega arith)
