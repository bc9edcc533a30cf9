-- ===== src/Gtfs/Poller.antt =====
-- internal/gtfs/poller.go: fetching one feed with its retries, and the vehicles of a feed message.
-- The HTTP client, the context, the timers and the decoder of the protocol buffer are parameters.
pub mod Feed
pub mod Retry
pub mod Accept
use go_gedung_peristiwa.Prelude.{
  ℕ, zero, suc, ◌+◌, ◌*◌, ◌^◌, ◌==◌, List, [], ◌∷◌, Option, none, some, Bool, true, false, not, ltb,
  leb, if◌then◌else◌, Result, ok, err, ◌-◌,
}
use go_gedung_peristiwa.Prelude.Int.{ℤ, pos, negsuc, to_nat, is_above, wrap_int64}
use go_gedung_peristiwa.Text.{Text, is_empty, parse_digits}
use go_gedung_peristiwa.Time.{Duration, second}
use go_gedung_peristiwa.Gtfs.Position.{VehiclePosition}
use go_gedung_peristiwa.Gtfs.Poller.Feed.{Entity, parse_entities}
use go_gedung_peristiwa.Gtfs.Feeds

abbrev pub max_poll_attempts : ℕ
max_poll_attempts = 6

pub record Backoff : Type 0 where
  pub initial : ℤ
  pub max : ℤ

-- A duration where it is above 0, and a default otherwise.
abbrev pub above_zero : ℤ → Duration → Duration
above_zero d default = if leb (to_nat d) 0 then default else to_nat d

-- The shift is that of an int64.
unfoldable pub duration : Backoff → ℕ → ℤ
duration b attempt =
    let limit = above_zero b.max (30 * second) in
    let d = wrap_int64 (above_zero b.initial second * 2 ^ attempt) in
    if is_above d limit then pos limit else d

unfoldable pub default_backoff : Backoff
default_backoff = record { initial = pos second; max = pos (30 * second) }

-- strconv.Atoi: `none` is an error.
unfoldable pub atoi_digits : Text → Option ℤ
atoi_digits s = elim (parse_digits 0 s) [
  | none ↦ none
  | some n ↦ if ltb n (2 ^ 63) then some (pos n) else none
]

unfoldable pub atoi_negative : Text → Option ℤ
atoi_negative s = elim (parse_digits 0 s) [
  | none ↦ none
  | some zero ↦ some (pos 0)
  | some (suc n) ↦ if ltb n (2 ^ 63) then some (negsuc n) else none
]

unfoldable pub atoi : Text → Option ℤ
unfolding atoi_digits atoi_negative
atoi [] = none
atoi (c ∷ []) = atoi_digits (c ∷ [])
atoi (c ∷ d ∷ cs) =
    if c == b'-'
    then atoi_negative (d ∷ cs)
    else if c == b'+'
    then atoi_digits (d ∷ cs)
    else atoi_digits (c ∷ d ∷ cs)

unfoldable pub retry_after_duration : Text → Option ℤ
retry_after_duration header = if is_empty header then none else elim (atoi header) [
  | none ↦ none
  | some (negsuc n) ↦ none
  | some (pos seconds) ↦ some (wrap_int64 (seconds * second))
]

-- The wait after an answer 429.
unfoldable pub retry_wait : Backoff → ℕ → Text → ℤ
retry_wait b attempt header = elim (retry_after_duration header) [
  | none ↦ duration b attempt
  | some ra ↦ elim b.max [
    | negsuc n ↦ ra
    | pos limit ↦ if ltb 0 limit then (if is_above ra limit then pos limit else ra) else ra
  ]
]

pub record Response (Failure Body : Type 0) : Type 0 where
  pub status_code : ℕ
  pub retry_after : Text
  pub body : Result Failure Body

-- What one attempt meets: the context before it, the building of the request, the answer, and the
-- context during the wait that may follow.
pub record Attempt (Failure Body : Type 0) : Type 0 where
  pub cancelled : Option Failure
  pub bad_request : Option Failure
  pub answer : Result Failure (Response Failure Body)
  pub interrupted : Option Failure

pub data PollError (Failure : Type 0) : Type 0 where
  context_done request_failed do_failed read_failed unmarshal_failed : Failure → PollError Failure
  rate_limited : PollError Failure
  http_status : ℕ → PollError Failure

pub record PollResult (Failure : Type 0) : Type 0 where
  pub feed : Feeds.Feed
  pub positions : List VehiclePosition
  pub skipped : ℕ
  pub failed : Option (PollError Failure)

abbrev pub failing : {Failure : Type 0} → Feeds.Feed → PollError Failure → PollResult Failure
failing feed e = record { feed = feed; positions = []; skipped = 0; failed = some e }

module _ {Failure Body : Type 0} (unmarshal : Body → Result Failure (List Entity)) (clock : ℕ → ℕ)
    (unix : ℕ → ℕ) where
  unfoldable pub parse_feed_message : Feeds.Feed → Body → Result Failure (List VehiclePosition × ℕ)
  parse_feed_message feed body = elim (unmarshal body) [
    | err e ↦ err e
    | ok entities ↦ ok (parse_entities clock unix feed 0 entities [] 0)
  ]

  -- The end of an attempt whose body was read: the status other than 429.
  unfoldable pub settle : Feeds.Feed → ℕ → Body → PollResult Failure
  unfolding parse_feed_message
  settle feed status body =
      if not (status == 200)
      then failing feed (http_status status)
      else elim (parse_feed_message feed body) [
        | err e ↦ failing feed (unmarshal_failed e)
        | ok (positions, skipped) ↦ record {
          feed = feed;
          positions = positions;
          skipped = skipped;
          failed = none;
        }
      ]

  module _ (b : Backoff) (feed : Feeds.Feed) (net : ℕ → Attempt Failure Body) where
    -- The loop with `left` attempts left: the result, and the waits that were begun.
    unfoldable pub poll_attempts : ℕ → ℕ → Option (PollError Failure) → PollResult Failure × List ℤ
    unfolding settle
    poll_attempts zero attempt last_err =
        (record { feed = feed; positions = []; skipped = 0; failed = last_err }, [])
    poll_attempts (suc left) attempt last_err =
        let next = poll_attempts left (attempt + 1) (some rate_limited) in
        elim (net attempt).cancelled [
          | some e ↦ (failing feed (context_done e), [])
          | none ↦ elim (net attempt).bad_request [
            | some e ↦ (failing feed (request_failed e), [])
            | none ↦ elim (net attempt).answer [
              | err e ↦ (failing feed (do_failed e), [])
              | ok resp ↦ elim resp.body [
                | err e ↦ (failing feed (read_failed e), [])
                | ok body ↦
                    if not (resp.status_code == 429)
                    then (settle feed resp.status_code body, [])
                    else if attempt == max_poll_attempts - 1
                    then (failing feed rate_limited, [])
                    else let wait = retry_wait b attempt resp.retry_after in
                      elim (net attempt).interrupted [
                        | some e ↦ (failing feed (context_done e), wait ∷ [])
                        | none ↦ (next.0, wait ∷ next.1)
                      ]
              ]
            ]
          ]
        ]

    unfoldable pub poll_feed : PollResult Failure × List ℤ
    unfolding poll_attempts
    poll_feed = poll_attempts max_poll_attempts 0 none

-- `PollSequential`: the context before each feed, and what polling the feed gives.
unfoldable pub poll_sequential :
    {Failure : Type 0}
    → (ℕ → Option Failure)
    → (ℕ → Feeds.Feed → PollResult Failure)
    → ℕ
    → List Feeds.Feed
    → List (PollResult Failure)
poll_sequential done poll i [] = []
poll_sequential done poll i (feed ∷ feeds) =
    (elim (done i) [
      | some e ↦ record { feed = feed; positions = []; skipped = 0; failed = some (context_done e) }
      | none ↦ poll i feed
    ])
    ∷ poll_sequential done poll (i + 1) feeds

-- `PollAll`: a result for each feed at its index, whichever comes first.
unfoldable pub poll_all :
    {Failure : Type 0}
    → (ℕ → Feeds.Feed → PollResult Failure)
    → ℕ
    → List Feeds.Feed
    → List (PollResult Failure)
poll_all poll i [] = []
poll_all poll i (feed ∷ feeds) = poll i feed ∷ poll_all poll (i + 1) feeds
