-- ===== src/Demo/Replay.antt =====
-- internal/demo/replay.go: playback of a region's change feeds, frame by frame. The store's readers
-- and feeds, the JSON decoder and the callback are parameters; a frame that reaches the callback
-- is listed.
pub mod Frames
pub mod Resumed
pub mod Shows
use go_gedung_peristiwa.Prelude.{
  ℕ, zero, suc, ◌+◌, ◌*◌, ◌/◌, ◌==◌, ◌&&◌, ◌||◌, List, [], ◌∷◌, ◌++◌, Option, none, some, Bool,
  true, false, not, ltb, leb, if◌then◌else◌, ite, map, keep, length, Result, ok, err,
}
use go_gedung_peristiwa.Prelude.Int.{ℤ, to_nat}
use go_gedung_peristiwa.Text.{Text, text_lt, text_dec}
use go_gedung_peristiwa.Assoc.{Assoc, lookup, insert}
use go_gedung_peristiwa.Time.{Time, Duration, second, is_zero, truncate_second}
use go_gedung_peristiwa.Sort.{sort}
use go_gedung_peristiwa.Gtfs.Regions.{contains, region_by_id}
use go_gedung_peristiwa.Gtfs.Position.{VehiclePosition}
use go_gedung_peristiwa.Demo.Pipeline.{Storage, vehicle_key}
use go_gedung_peristiwa.Pipeline.Changefeed.{Change, ChangeDb, drain_change_feed}

pub record ReplayOptions : Type 0 where
  pub region_id : Text
  pub speed : ℤ
  pub from : Time
  pub to : Time

pub record Mutation : Type 0 where
  pub at : Time
  pub pos : VehiclePosition

-- `replayFrameBucket`
pub record Bucket : Type 0 where
  pub at : Time
  pub mutations : List Mutation

-- What the callback gets.
pub record Frame : Type 0 where
  pub positions : List VehiclePosition
  pub frame : ℕ
  pub total : ℕ
  pub at : Time

pub data ReplayError (Failure : Type 0) : Type 0 where
  unknown_region : ReplayError Failure
  refresh_failed feed_failed : Failure → ReplayError Failure
  stopped : Failure → ReplayError Failure

-- The order of `sort.Slice`.
unfoldable pub mutation_lt : Mutation → Mutation → Bool
mutation_lt a b =
    if not (a.at == b.at)
    then ltb a.at b.at
    else ite (text_dec a.pos.agency b.pos.agency) (text_lt a.pos.vehicle_id b.pos.vehicle_id)
        (text_lt a.pos.agency b.pos.agency)

-- `if len(current.mutations) > 0 { buckets = append(buckets, current) }`
unfoldable pub close_bucket : Bucket → List Bucket → List Bucket
close_bucket current buckets = elim current.mutations [
  | [] ↦ buckets
  | m ∷ ms ↦ buckets ++ current ∷ []
]

abbrev pub is_nil {ℓ} : {A : Type ℓ} → List A → Bool
is_nil [] = true
is_nil (x ∷ xs) = false

-- The loop over the sorted mutations.
unfoldable pub bucket_loop : List Mutation → Bucket → List Bucket → List Bucket
unfolding close_bucket
bucket_loop [] current buckets = close_bucket current buckets
bucket_loop (m ∷ ms) current buckets =
    let fresh = is_nil current.mutations || not (current.at == m.at) in
    bucket_loop ms
      (if fresh
        then record { at = m.at; mutations = m ∷ [] }
        else record current { mutations = current.mutations ++ m ∷ [] })
      (if fresh then close_bucket current buckets else buckets)

unfoldable pub no_bucket : Bucket
no_bucket = record { at = 0; mutations = [] }

unfoldable pub bucket_frames : List Mutation → List Bucket
unfolding bucket_loop no_bucket
bucket_frames ms = bucket_loop (sort mutation_lt ms) no_bucket []

module _ {Value Failure : Type 0} (parse : Value → Option VehiclePosition)
    (opts : ReplayOptions) where
  -- The callback of the change feed: the mutations so far, and no error ever.
  unfoldable pub collect : Change Value → List Mutation → List Mutation × Option Failure
  collect ch ms = if not ch.is_put then (ms, none) else elim (parse ch.value) [
    | none ↦ (ms, none)
    | some pos ↦
        if not (is_zero opts.to) && ltb opts.to pos.timestamp
        then (ms, none)
        else (ms ++ record { at = truncate_second pos.timestamp; pos = pos } ∷ [], none)
  ]

  module _ {Handle Cursor : Type 0} (refresh : Handle → Option Failure)
      (feed : Handle → ChangeDb Cursor Value Failure) where
    -- The loop over the agencies of the region.
    unfoldable pub gather :
        ℕ
        → Assoc Handle
        → List Text
        → List Mutation
        → Option (Result (ReplayError Failure) (List Mutation))
    gather fuel handles [] ms = some (ok ms)
    gather fuel handles (agency ∷ rest) ms = elim (lookup agency handles) [
      | none ↦ gather fuel handles rest ms
      | some aw ↦ elim (refresh aw) [
        | some e ↦ some (err (refresh_failed e))
        | none ↦ elim (drain_change_feed (feed aw) collect fuel ms) [
          | none ↦ none
          | some (ms', n, some e) ↦ some (err (feed_failed e))
          | some (ms', n, none) ↦ gather fuel handles rest ms'
        ]
      ]
    ]

    unfoldable pub build_replay_frames :
        ℕ → Assoc Handle → Option (Result (ReplayError Failure) (List Bucket))
    build_replay_frames fuel handles = elim (region_by_id opts.region_id) [
      | err _ ↦ some (err unknown_region)
      | ok r ↦ elim (gather fuel handles r.agencies []) [
        | none ↦ none
        | some (err e) ↦ some (err e)
        | some (ok ms) ↦ some (ok (bucket_frames ms))
      ]
    ]

-- `merged[key] = mut.pos` for each mutation of a frame.
unfoldable pub merge : List Mutation → Assoc VehiclePosition → Assoc VehiclePosition
merge [] merged = merged
merge (m ∷ ms) merged = merge ms (insert (vehicle_key m.pos) m.pos merged)

-- Whether a frame lies before the resume point.
abbrev pub is_before : Time → Bucket → Bool
is_before from b = not (is_zero from) && ltb b.at from

-- The frames before the resume point are folded into `merged`; the others are left.
unfoldable pub fold_before :
    Time → List Bucket → Assoc VehiclePosition → Assoc VehiclePosition × List Bucket
fold_before from [] merged = (merged, [])
fold_before from (b ∷ bs) merged = elim (is_before from b) [
  | true ↦ fold_before from bs (merge b.mutations merged)
  | false ↦ (merged, b ∷ bs)
]

-- The pause between two frames.
unfoldable pub frame_delay : ℤ → Duration
frame_delay speed = if leb (to_nat speed) 0 then second else second / to_nat speed

-- What the context, the callback and a timer do at each frame: `none` is no error.
pub record Playback (Failure : Type 0) : Type 0 where
  pub cancelled : ℕ → Option Failure
  pub on_frame : ℕ → Option Failure
  pub sleep : ℕ → Duration → Option Failure

unfoldable pub sleep_ctx : {Failure : Type 0} → Playback Failure → ℕ → Duration → Option Failure
sleep_ctx env i d = if leb d 0 then none else env.sleep i d

module _ {Failure : Type 0} (env : Playback Failure) (agencies : List Text) (delay : Duration)
    (total : ℕ) where
  unfoldable pub frame_of : ℕ → Time → Assoc VehiclePosition → Frame
  frame_of i at merged = record {
    positions = keep (λ pos. contains pos.agency agencies) (map (λ e. e.1) merged);
    frame = i + 1;
    total = total;
    at = at;
  }

  unfoldable pub play :
      ℕ → List Bucket → Assoc VehiclePosition → List Frame × Option (ReplayError Failure)
  play i [] merged = ([], none)
  play i (b ∷ bs) merged = elim (env.cancelled i) [
    | some e ↦ ([], some (stopped e))
    | none ↦
        let merged' = merge b.mutations merged in
        let frame = frame_of i b.at merged' in
        elim (env.on_frame i) [
          | some e ↦ (frame ∷ [], some (stopped e))
          | none ↦ elim (if ltb (i + 1) total then sleep_ctx env i delay else none) [
            | some e ↦ (frame ∷ [], some (stopped e))
            | none ↦ let (frames, failed) = play (i + 1) bs merged' in (frame ∷ frames, failed)
          ]
        ]
  ]

-- `RunReplay` on the frames that were built, for the agencies of the region.
unfoldable pub run_frames :
    {Failure : Type 0}
    → Playback Failure
    → List Text
    → ReplayOptions
    → List Bucket
    → List Frame × Option (ReplayError Failure)
run_frames env agencies opts all_frames =
    let (merged, frames) = fold_before opts.from all_frames [] in
    play env agencies (frame_delay opts.speed) (length frames) 0 frames merged

module _ {Value Failure Handle Cursor : Type 0} (parse : Value → Option VehiclePosition)
    (opts : ReplayOptions) (refresh : Handle → Option Failure)
    (feed : Handle → ChangeDb Cursor Value Failure) (env : Playback Failure) where
  unfoldable pub run_replay : ℕ → Assoc Handle → Option (List Frame × Option (ReplayError Failure))
  run_replay fuel handles = elim (build_replay_frames parse opts refresh feed fuel handles) [
    | none ↦ none
    | some (err e) ↦ some ([], some e)
    | some (ok []) ↦ some ([], none)
    | some (ok (b ∷ bs)) ↦ elim (region_by_id opts.region_id) [
      | err _ ↦ some ([], some unknown_region)
      | ok r ↦ some (run_frames env r.agencies opts (b ∷ bs))
    ]
  ]
