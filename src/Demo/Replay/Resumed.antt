-- ===== src/Demo/Replay/Resumed.antt =====
-- Playback of internal/demo/replay.go from a resume point against playback from the start.
use go_gedung_peristiwa.Prelude.{
  ℕ, ◌+◌, ◌≡◌, refl, ap, sym, ◌∙◌, List, [], ◌∷◌, none, if◌then◌else◌, not, ◌&&◌, keep, map, length,
  ltb, arith,
}
use go_gedung_peristiwa.Text.{Text}
use go_gedung_peristiwa.Time.{Time, Duration, is_zero}
use go_gedung_peristiwa.Assoc.{Assoc}
use go_gedung_peristiwa.Gtfs.Position.{VehiclePosition}
use go_gedung_peristiwa.Gtfs.Regions.{contains}
use go_gedung_peristiwa.Demo.Replay.{
  ReplayOptions, Frame, Bucket, Playback, merge, fold_before, frame_delay, frame_of, play,
  run_frames, sleep_ctx,
}

-- What a frame shows: its time and its positions, without its number.
abbrev pub Shown : Type 0
Shown = Time × List VehiclePosition

abbrev pub shown_of : List Frame → List Shown
shown_of = map (λ f. (f.at, f.positions))

-- The frames from the first on that does not lie before the time, none being before 0.
abbrev pub drop_before : Time → List Shown → List Shown
drop_before from [] = []
drop_before from (f ∷ fs) =
    if not (is_zero from) && ltb f.0 from then drop_before from fs else f ∷ fs

drop_before_zero : (l : List Shown) → drop_before 0 l ≡ l
drop_before_zero [] = refl
drop_before_zero (f ∷ fs) = refl

-- Nothing interrupts the playback.
pub record IsSmooth {Failure : Type 0} (env : Playback Failure) : Type 0 where
  pub going : (i : ℕ) → env.cancelled i ≡ none
  pub taken : (i : ℕ) → env.on_frame i ≡ none
  pub slept : (i : ℕ) (d : Duration) → env.sleep i d ≡ none

module _ (agencies : List Text) where
  -- What the buckets show one after the other.
  unfoldable pub show_all : List Bucket → Assoc VehiclePosition → List Shown
  show_all [] merged = []
  show_all (b ∷ bs) merged =
      let next = merge b.mutations merged in
      (b.at, keep (λ pos. contains pos.agency agencies) (map (λ e. e.1) next)) ∷ show_all bs next

  play-show_all :
      {Failure : Type 0} (env : Playback Failure) (delay : Duration) (total i : ℕ)
      (bs : List Bucket) (merged : Assoc VehiclePosition)
      → IsSmooth env
      → let (frames, failed) = play env agencies delay total i bs merged in
        (shown_of frames ≡ show_all bs merged) × (failed ≡ none)
  unfolding play show_all frame_of sleep_ctx
  play-show_all env delay total i [] merged g = (refl, refl)
  play-show_all env delay total i (b ∷ bs) merged g = ground (
    arith,
    g.going i,
    g.taken i,
    g.slept i delay,
    play-show_all env delay total (i + 1) bs (merge b.mutations merged) g,
  )

  fold_before-show_all :
      (from : Time) (bs : List Bucket) (merged : Assoc VehiclePosition)
      → let (merged', rest) = fold_before from bs merged in
        show_all rest merged' ≡ drop_before from (show_all bs merged)
  unfolding fold_before show_all
  fold_before-show_all from [] merged = refl
  fold_before-show_all from (b ∷ bs) merged =
      ground (arith, fold_before-show_all from bs (merge b.mutations merged))

  -- Uninterrupted, the frames show the buckets from the resume point on.
  pub run_frames-show_all :
      {Failure : Type 0} (env : Playback Failure) (opts : ReplayOptions) (bs : List Bucket)
      → IsSmooth env
      → let (frames, failed) = run_frames env agencies opts bs in
        (shown_of frames ≡ drop_before opts.from (show_all bs [])) × (failed ≡ none)
  unfolding run_frames
  run_frames-show_all env opts bs g =
      let start = fold_before opts.from bs [] in
      let played =
        play-show_all env (frame_delay opts.speed) (length start.1) 0 start.1 start.0 g in
      (played.0 ∙ fold_before-show_all opts.from bs [], played.1)

  -- A replay that nothing interrupts, from a resume point, shows what the replay from the start
  -- shows, without the frames at its beginning that lie before the resume point: the same times and
  -- the same positions, and it ends without an error.
  pub run_frames-drop_before :
      {Failure : Type 0} (env env' : Playback Failure) (opts : ReplayOptions) (bs : List Bucket)
      → IsSmooth env
      → IsSmooth env'
      → let (resumed, failed) = run_frames env agencies opts bs in
        let (full, _) = run_frames env' agencies (record opts { from = 0 }) bs in
        (shown_of resumed ≡ drop_before opts.from (shown_of full)) × (failed ≡ none)
  unfolding run_frames
  run_frames-drop_before env env' opts bs g g' =
      let start = fold_before opts.from bs [] in
      let zero_start = fold_before 0 bs [] in
      let resumed =
        play-show_all env (frame_delay opts.speed) (length start.1) 0 start.1 start.0 g in
      let full =
        play-show_all env' (frame_delay opts.speed) (length zero_start.1) 0 zero_start.1
          zero_start.0 g' in
      let from_start = fold_before-show_all 0 bs [] ∙ drop_before_zero (show_all bs []) in
      (
        resumed.0
            ∙ fold_before-show_all opts.from bs []
            ∙ ap (drop_before opts.from) (sym (full.0 ∙ from_start)),
        resumed.1,
      )
