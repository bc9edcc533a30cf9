-- ===== src/Debug/Experiments/Polled.antt =====
-- What RunIncremental reports of a feed that grows from poll to poll.
use go_gedung_peristiwa.Prelude.{
  ℕ, zero, suc, ◌+◌, ◌*◌, ◌≤◌, ◌<◌, ◌≡◌, refl, List, Option, none, some, Bool, true, false, ltb,
  leb, if◌then◌else◌, ok, arith, Bool-cases, inl, inr, not, length, ◌∙◌, sym, subst, ap,
}
use go_gedung_peristiwa.Text.{Text}
use go_gedung_peristiwa.Pipeline.Changefeed.{Page}
use go_gedung_peristiwa.Pipeline.Changefeed.Laws.{changes_of, Feeds, Readable}
use go_gedung_peristiwa.Debug.Harness.{
  Library, Ran, read_changes_since, attempt, drained, write_batch, flush, count_changes,
}
use go_gedung_peristiwa.Debug.Harness.Counts.{
  end_of, read_changes_since-count, drain_to_head-end_of,
}
use go_gedung_peristiwa.Debug.Experiments.{
  IncrementalResult, poll_feed, run_incremental, millisecond,
}
use go_gedung_peristiwa.Debug.Experiments.Noted.{
  first_of, IsNoted, next_first, next_total, first_of-none, first_of-next, first_of-full,
  next-IsNoted,
}

abbrev pub milliseconds_of : Option ℕ → ℕ
milliseconds_of none = 0
milliseconds_of (some m) = m

module _ (counted : ℕ → ℕ) (ms : ℕ → ℕ) where
  -- Whether one of the n polls from the k-th on counts at least so many changes.
  abbrev pub reached : ℕ → ℕ → ℕ → Bool
  reached new_keys zero k = false
  reached new_keys (suc n) k = if leb new_keys (counted k) then true else reached new_keys n (suc k)

  -- The time of the first of these polls that counts any.
  abbrev pub first_seen : ℕ → ℕ → Option ℕ
  first_seen zero k = none
  first_seen (suc n) k = if ltb 0 (counted k) then some (ms k) else first_seen n (suc k)

-- What the harness counts in the pages of a poll.
abbrev pub changes_in : {Cursor : Type 0} → (ℕ → List (Page Cursor Text)) → ℕ → ℕ
changes_in new k = count_changes (changes_of (new k))

module _ {Db Cursor Failure : Type 0} (lib : Library Db Cursor Failure) where
  -- The store after so many pauses between polls.
  abbrev pub waited : ℕ → Db → Db
  waited zero db = db
  waited (suc k) db = waited k (lib.wait (100 * millisecond) db)

  -- The run reports in time exactly if enough changes were counted by one of the polls.
  pub record Reported (new_keys : ℕ) (in_time : Bool) (first : Option ℕ)
      (r : Ran lib IncrementalResult) : Type 0 where
    pub after : Db
    pub res : IncrementalResult
    pub returned : r ≡ some (after, ok res)
    pub wrote : res.wrote_keys ≡ new_keys
    pub timeout : res.timeout ≡ not in_time
    pub events : leb new_keys res.tail_events ≡ in_time
    pub first_ms : res.first_new_key_ms ≡ milliseconds_of first

  -- Each of n polls from `db` on finds a feed that it can read with the fuel; the k-th poll and
  -- those after it count these pages from the head on, before the deadline and uninterrupted.
  pub record Polls (fuel : ℕ) (before stops : ℕ → Bool) (head : Cursor)
      (new : ℕ → List (Page Cursor Text)) (n k : ℕ) (db : Db) : Type 0 where
    pub opens : (i : ℕ) → i < n → (lib.feed (waited i db)).changes.open_fails ≡ none
    pub feeds : (i : ℕ) → i < n → Feeds (lib.feed (waited i db)).changes head (new (k + i))
    pub enough : (i : ℕ) → i < n → length (new (k + i)) ≤ fuel
    pub ahead : (i : ℕ) → i < n → before (k + i) ≡ true
    pub over : before (k + n) ≡ false
    pub going : (i : ℕ) → i < n → stops (k + i) ≡ false

  module _ (fuel : ℕ) (before : ℕ → Bool) (ms : ℕ → ℕ) (stops : ℕ → Bool) (head : Cursor)
      (new_keys : ℕ) (new : ℕ → List (Page Cursor Text)) (nonzero : lib.is_zero head ≡ false) where
    Polls-later :
        (n k : ℕ) (db : Db)
        → Polls fuel before stops head new (suc n) k db
        → Polls fuel before stops head new n (suc k) (lib.wait (100 * millisecond) db)
    Polls-later n k db h =
        let shift : (i : ℕ) → k + suc i ≡ suc k + i = λ i. omega arith in
        record {
          opens = λ i l. h.opens (suc i) (omega (arith, l));
          feeds = λ i l.
              subst (λ j. Feeds (lib.feed (waited (suc i) db)).changes head (new j)) (shift i)
                (h.feeds (suc i) (omega (arith, l)));
          enough = λ i l.
              subst (λ j. length (new j) ≤ fuel) (shift i) (h.enough (suc i) (omega (arith, l)));
          ahead =
              λ i l. subst (λ j. before j ≡ true) (shift i) (h.ahead (suc i) (omega (arith, l)));
          over = subst (λ j. before j ≡ false) (shift n) h.over;
          going =
              λ i l. subst (λ j. stops j ≡ false) (shift i) (h.going (suc i) (omega (arith, l)));
        }

    -- The first poll reads these pages.
    Polls-read :
        (n k : ℕ) (db : Db)
        → Polls fuel before stops head new (suc n) k db
        → (before k ≡ true)
          × (stops k ≡ false)
          × (read_changes_since lib fuel head db
              ≡ some (changes_in new k, end_of head (new k), none))
    Polls-read n k db h =
        let here : k + 0 ≡ k = omega arith in
        (
          subst (λ j. before j ≡ true) here (h.ahead 0 (omega arith)),
          subst (λ j. stops j ≡ false) here (h.going 0 (omega arith)),
          read_changes_since-count lib db head (new k) fuel nonzero (h.opens 0 (omega arith))
              (subst (λ j. Feeds (lib.feed db).changes head (new j)) here (h.feeds 0 (omega arith)))
              (subst (λ j. length (new j) ≤ fuel) here (h.enough 0 (omega arith))),
        )

    poll_feed-Reported :
        (n f k : ℕ) (first : Option ℕ) (total : ℕ) (db : Db)
        → Polls fuel before stops head new n k db
        → n < f
        → total < new_keys
        → IsNoted first total
        → Reported new_keys
            (reached (changes_in new) ms new_keys n k)
            (first_of first (first_seen (changes_in new) ms n k))
            (poll_feed lib fuel before ms stops head new_keys f k first total db)
    unfolding poll_feed
    poll_feed-Reported n zero k first total db h lt less noted = absurd (omega arith)
    poll_feed-Reported zero (suc f) k first total db h lt less noted =
        let here : k + 0 ≡ k = omega arith in
        let p : before k ≡ false = subst (λ j. before j ≡ false) here h.over in
        rw (poll_feed, p)
          (record {
            after = db;
            res = record {
              wrote_keys = new_keys;
              tail_events = total;
              first_new_key_ms = milliseconds_of first;
              timeout = true;
            };
            returned = refl;
            wrote = refl;
            timeout = refl;
            events = ground (arith, less);
            first_ms = ap milliseconds_of (sym (first_of-none first));
          })
    poll_feed-Reported (suc n) (suc f) k first total db h lt less noted =
        let (p, g, r) = Polls-read n k db h in
        let first' = next_first (ms k) (changes_in new k) first total in
        let total' = next_total (changes_in new k) total in
        let seen =
          first_of-next (ms k) (changes_in new k) first total
            (first_seen (changes_in new) ms n (suc k)) noted in
        elim (Bool-cases (leb new_keys (changes_in new k))) [
          | inl c ↦
              let c' : leb new_keys total' ≡ true = ground (arith, c, less) in
              rw (poll_feed, p, r, c', c)
                (record {
                  after = db;
                  res = record {
                    wrote_keys = new_keys;
                    tail_events = total';
                    first_new_key_ms = milliseconds_of first';
                    timeout = false;
                  };
                  returned = refl;
                  wrote = refl;
                  timeout = refl;
                  events = c';
                  first_ms = ap milliseconds_of (
                      sym (
                        seen
                        ∙ first_of-full (ms k) (changes_in new k) first total
                            (first_seen (changes_in new) ms n (suc k)) (ground (arith, c, less))));
                })
          | inr c ↦
              let c' : leb new_keys total' ≡ false = ground (arith, c, less) in
              rw (poll_feed, p, r, c', c, g, seen)
                (poll_feed-Reported n f (suc k) first' total' (lib.wait (100 * millisecond) db)
                  (Polls-later n k db h) (omega (arith, lt)) (ground (arith, c'))
                  (next-IsNoted (ms k) (changes_in new k) first total noted))
        ]

  -- Where the feed of `db` can be read in at most as many pages as the fuel, a drain of it ends at
  -- a cursor that is not zero, the new keys, one at least, are written and flushed without an
  -- error, and until the deadline n polls find a feed that opens and that has the pages `new k`
  -- from that cursor on at the k-th poll, at most as many as the fuel, uninterrupted by the
  -- context: RunIncremental returns a result, with more fuel for the polls than n. It is a timeout
  -- exactly if no poll counted as many changes of the harness's keys as were written, it has fewer
  -- events than keys exactly then, and its time is that of the first poll that counted any, or 0.
  pub run_incremental-Reported :
      (fuel : ℕ) (value : ℕ → Text) (before : ℕ → Bool) (ms : ℕ → ℕ) (stops : ℕ → Bool)
      (polls prior_keys new_keys n : ℕ) (db : Db) (pages : List (Page Cursor Text))
      (new : ℕ → List (Page Cursor Text)) (r : Readable (lib.feed db).changes pages)
      → length pages ≤ fuel
      → lib.is_zero (end_of r.start pages) ≡ false
      → 0 < new_keys
      → (write_batch lib value new_keys (prior_keys + 1) db).1 ≡ none
      → (flush lib (write_batch lib value new_keys (prior_keys + 1) db).0).1 ≡ none
      → Polls fuel before stops
          (end_of r.start pages)
          new
          n
          0
          (flush lib (write_batch lib value new_keys (prior_keys + 1) db).0).0
      → n < polls
      → Reported new_keys
          (reached (changes_in new) ms new_keys n 0)
          (first_seen (changes_in new) ms n 0)
          (run_incremental lib fuel value before ms stops polls prior_keys new_keys db)
  unfolding run_incremental drained attempt
  run_incremental-Reported fuel value before ms stops polls prior_keys new_keys n db pages new r le
        nz pos w f h lt =
      rw (run_incremental, drained, drain_to_head-end_of lib db pages fuel r le, attempt, w, f)
        (poll_feed-Reported fuel before ms stops (end_of r.start pages) new_keys new nz n polls 0
          none 0 (flush lib (write_batch lib value new_keys (prior_keys + 1) db).0).0 h lt pos refl)
