-- ===== src/Gtfs/Poller/Retry.antt =====
-- The retries of internal/gtfs/poller.go.
use go_gedung_peristiwa.Prelude.{
  if◌then◌else◌, ℕ, zero, suc, ◌+◌, ◌*◌, ◌^◌, ◌<◌, ◌≤◌, ◌≡◌, refl, ◌≢◌, List, [], Option, none,
  some, Result, ok, length, All, arith, Option-cases, Result-cases, subst, ◌∙◌, inl, inr,
}
use go_gedung_peristiwa.Prelude.Int.{ℤ, pos, negsuc, to_nat, is_above, wrap_int64}
use go_gedung_peristiwa.Text.{Text}
use go_gedung_peristiwa.Time.{second}
use go_gedung_peristiwa.Gtfs.Feeds
use go_gedung_peristiwa.Gtfs.Poller.{
  Backoff, Response, Attempt, PollError, rate_limited, failing, settle, poll_attempts, poll_feed,
  max_poll_attempts, duration, retry_wait, default_backoff, above_zero, retry_after_duration,
}
use go_gedung_peristiwa.Gtfs.Poller.Feed.{Entity}

-- At the default back-off, the first five attempts wait 1, 2, 4, 8 and 16 seconds.
duration_default :
    (attempt : ℕ)
    → attempt < 5
    → (duration default_backoff attempt ≡ pos (second * 2 ^ attempt))
      × (second * 2 ^ attempt < 30 * second)
unfolding duration default_backoff wrap_int64
duration_default zero h = (refl, omega arith)
duration_default (suc zero) h = (refl, omega arith)
duration_default (suc (suc zero)) h = (refl, omega arith)
duration_default (suc (suc (suc zero))) h = (refl, omega arith)
duration_default (suc (suc (suc (suc zero)))) h = (refl, omega arith)
duration_default (suc (suc (suc (suc (suc n))))) h = absurd (omega arith)

module _ {Failure Body : Type 0} where
  -- The attempt is answered with this status and body.
  pub record Answers (a : Attempt Failure Body) (status : ℕ) (body : Body) : Type 0 where
    pub resp : Response Failure Body
    pub running : a.cancelled ≡ none
    pub requested : a.bad_request ≡ none
    pub answered : a.answer ≡ ok resp
    pub read : resp.body ≡ ok body
    pub answered_with : resp.status_code ≡ status

  -- The attempt is answered with 429, and the wait is not interrupted.
  pub record IsLimited (a : Attempt Failure Body) : Type 0 where
    pub body : Body
    pub answers : Answers a 429 body
    pub waited : a.interrupted ≡ none

module _ {Failure Body : Type 0} (unmarshal : Body → Result Failure (List Entity))
    (clock unix : ℕ → ℕ) (b : Backoff) (feed : Feeds.Feed) (net : ℕ → Attempt Failure Body) where
  poll_attempts_limited :
      (left attempt : ℕ) (last : Option (PollError Failure))
      → IsLimited (net attempt)
      → attempt ≢ 5
      → let r = poll_attempts unmarshal clock unix b feed net (suc left) attempt last in
        let next =
          poll_attempts unmarshal clock unix b feed net left (attempt + 1) (some rate_limited) in
        (r.0 ≡ next.0) × (length r.1 ≡ 1 + length next.1)
  unfolding poll_attempts
  poll_attempts_limited left attempt last l n = ground (
    arith, l.answers.running, l.answers.requested, l.answers.answered, l.answers.read,
    l.answers.answered_with, l.waited,
  )

  poll_attempts_answered :
      (left attempt status : ℕ) (body : Body) (last : Option (PollError Failure))
      → Answers (net attempt) status body
      → status ≢ 429
      → poll_attempts unmarshal clock unix b feed net (suc left) attempt last
        ≡ (settle unmarshal clock unix feed status body, [])
  unfolding poll_attempts
  poll_attempts_answered left attempt status body last a n =
      ground (arith, a.running, a.requested, a.answered, a.read, a.answered_with)

  answered_after :
      (n k attempt status : ℕ) (body : Body) (last : Option (PollError Failure))
      → k < n
      → attempt + k < 6
      → ((i : ℕ) → attempt ≤ i → i < attempt + k → IsLimited (net i))
      → Answers (net (attempt + k)) status body
      → status ≢ 429
      → let r = poll_attempts unmarshal clock unix b feed net n attempt last in
        (r.0 ≡ settle unmarshal clock unix feed status body) × (length r.1 ≡ k)
  answered_after zero k attempt status body last lt le l a other = absurd (omega arith)
  answered_after (suc n) zero attempt status body last lt le l a other =
      let here : Answers (net attempt) status body =
        subst (λ i. Answers (net i) status body) (omega arith) a in
      rw (poll_attempts_answered n attempt status body last here other) (refl, refl)
  answered_after (suc n) (suc k) attempt status body last lt le l a other =
      let s =
        poll_attempts_limited n attempt last (l attempt (omega arith) (omega arith))
          (λ e. omega arith) in
      let at_end : Answers (net (attempt + 1 + k)) status body =
        subst (λ i. Answers (net i) status body) (omega arith) a in
      let ih =
        answered_after n k (attempt + 1) status body (some rate_limited) (omega arith) (omega arith)
          (λ i g h. l i (omega arith) (omega arith)) at_end other in
      (s.0 ∙ ih.0, omega (arith, s.1, ih.1))

  -- Where the first k attempts, at most five, are answered with 429 and their waits are not
  -- interrupted, and the next is answered with another status, the feed's result is what that
  -- answer gives, after k waits.
  pub poll_feed-settle :
      (k status : ℕ) (body : Body)
      → k < max_poll_attempts
      → ((i : ℕ) → i < k → IsLimited (net i))
      → Answers (net k) status body
      → status ≢ 429
      → let r = poll_feed unmarshal clock unix b feed net in
        (r.0 ≡ settle unmarshal clock unix feed status body) × (length r.1 ≡ k)
  unfolding poll_feed
  poll_feed-settle k status body lt l a other =
      let a' : Answers (net (0 + k)) status body =
        subst (λ i. Answers (net i) status body) (omega arith) a in
      answered_after 6 k 0 status body none lt (omega arith) (λ i g h. l i (omega arith)) a' other

  poll_attempts_last :
      (left : ℕ) (last : Option (PollError Failure))
      → IsLimited (net 5)
      → poll_attempts unmarshal clock unix b feed net (suc left) 5 last
        ≡ (failing feed rate_limited, [])
  unfolding poll_attempts
  poll_attempts_last left last l = ground (
    arith, l.answers.running, l.answers.requested, l.answers.answered, l.answers.read,
    l.answers.answered_with,
  )

  limited_after :
      (k attempt : ℕ) (last : Option (PollError Failure))
      → attempt + k ≡ 5
      → ((i : ℕ) → i < 6 → IsLimited (net i))
      → let r = poll_attempts unmarshal clock unix b feed net (suc k) attempt last in
        (r.0 ≡ failing feed rate_limited) × (length r.1 ≡ k)
  limited_after zero attempt last e l =
      let five : attempt ≡ 5 = omega arith in
      rw (five, poll_attempts_last 0 last (l 5 (omega arith))) (refl, refl)
  limited_after (suc k) attempt last e l =
      let s =
        poll_attempts_limited (suc k) attempt last (l attempt (omega arith))
          (λ five. omega arith) in
      let ih = limited_after k (attempt + 1) (some rate_limited) (omega arith) l in
      (s.0 ∙ ih.0, omega (arith, s.1, ih.1))

  -- Where all six attempts are answered with 429 and no wait is interrupted, the result is the
  -- rate-limit error without positions, after five waits.
  pub poll_feed-rate_limited :
      ((i : ℕ) → i < max_poll_attempts → IsLimited (net i))
      → let r = poll_feed unmarshal clock unix b feed net in
        (r.0 ≡ failing feed rate_limited) × (length r.1 ≡ 5)
  unfolding poll_feed
  poll_feed-rate_limited l = limited_after 5 0 none refl l

  capped : (d : ℤ) (limit : ℕ) → to_nat (if is_above d limit then pos limit else d) ≤ limit
  capped (pos n) limit = ground arith
  capped (negsuc n) limit = ground arith

  retry_wait_bounded :
      (limit attempt : ℕ) (header : Text)
      → b.max ≡ pos limit
      → 0 < limit
      → to_nat (retry_wait b attempt header) ≤ limit
  unfolding retry_wait duration
  retry_wait_bounded limit attempt header e p = elim (Option-cases (retry_after_duration header)) [
    | inl no_header ↦
        ground (arith, capped (wrap_int64 (above_zero b.initial second * 2 ^ attempt)) limit)
    | inr (ra, h) ↦ ground (arith, capped ra limit)
  ]

  poll_attempts_bounded :
      (limit n attempt : ℕ) (last : Option (PollError Failure))
      → b.max ≡ pos limit
      → 0 < limit
      → All (λ w. to_nat w ≤ limit) (poll_attempts unmarshal clock unix b feed net n attempt last).1
  unfolding poll_attempts retry_wait duration
  poll_attempts_bounded limit zero attempt last e p = tt
  poll_attempts_bounded limit (suc n) attempt last e p = grind (
    arith,
    retry_wait_bounded limit attempt,
    poll_attempts_bounded limit n (attempt + 1) (some rate_limited) e p,
  )

  -- Whatever the server answers and whatever it asks for in Retry-After, no wait is longer than the
  -- cap of the back-off, where it has one.
  pub poll_feed_bounded :
      (limit : ℕ)
      → b.max ≡ pos limit
      → 0 < limit
      → All (λ w. to_nat w ≤ limit) (poll_feed unmarshal clock unix b feed net).1
  unfolding poll_feed
  poll_feed_bounded limit e p = poll_attempts_bounded limit 6 0 none e p

module _ {Failure Body : Type 0} (unmarshal : Body → Result Failure (List Entity))
    (clock unix : ℕ → ℕ) (feed : Feeds.Feed) (net : ℕ → Attempt Failure Body) where
  retry_wait_default :
      (attempt : ℕ) (header : Text)
      → attempt < 5
      → retry_after_duration header ≡ none
      → to_nat (retry_wait default_backoff attempt header) < 30 * second
  unfolding retry_wait
  retry_wait_default attempt header lt e =
      rw (retry_wait, e, (duration_default attempt lt).0) (duration_default attempt lt).1

  poll_attempts_uncapped :
      (left attempt : ℕ) (last : Option (PollError Failure))
      → attempt + left ≤ 6
      → ((i : ℕ) (resp : Response Failure Body)
          → (net i).answer ≡ ok resp
          → retry_after_duration resp.retry_after ≡ none)
      → All
          (λ w. to_nat w < 30 * second)
          (poll_attempts unmarshal clock unix default_backoff feed net left attempt last).1
  unfolding poll_attempts
  poll_attempts_uncapped zero attempt last le h = tt
  poll_attempts_uncapped (suc left) attempt last le h = elim (Result-cases (net attempt).answer) [
    | inr (x, e) ↦ ground (arith, e)
    | inl (resp, e) ↦
        let none_asked = h attempt resp e in
        let ih = poll_attempts_uncapped left (attempt + 1) (some rate_limited) (omega arith) h in
        ground (arith, e, ih, retry_wait_default attempt resp.retry_after)
  ]

  -- With the default back-off, where no answer asks for a delay in Retry-After, every wait is
  -- shorter than the cap of 30 seconds.
  pub poll_feed_uncapped :
      ((i : ℕ) (resp : Response Failure Body)
        → (net i).answer ≡ ok resp
        → retry_after_duration resp.retry_after ≡ none)
      → All
          (λ w. to_nat w < 30 * second)
          (poll_feed unmarshal clock unix default_backoff feed net).1
  unfolding poll_feed
  poll_feed_uncapped h = poll_attempts_uncapped 6 0 none (omega arith) h
