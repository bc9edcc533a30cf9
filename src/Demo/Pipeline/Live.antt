-- ===== src/Demo/Pipeline/Live.antt =====
-- What the live state of internal/demo/pipeline.go holds after a write, and what its queries show.
use go_gedung_peristiwa.Prelude.{
  ℕ, zero, suc, ◌+◌, ◌-◌, ◌≤◌, ◌≡◌, refl, ap, sym, ◌∙◌, List, [], ◌∷◌, ◌++◌, append_assoc,
  append-nil, some, ltb, ite, map, take, keep, length, Elem, arith, inl, inr, Option-cases,
  Bool-cases, ◌↔◌, take_of_length-le, length-take-le, reverse, holds, Elem-keep,
}
use mathlib.Core.List.{reverse-cons}
use go_gedung_peristiwa.Text.{Text, text_dec}
use go_gedung_peristiwa.Assoc.{Assoc, lookup, insert, lookup-insert}
use go_gedung_peristiwa.Time.{Time}
use go_gedung_peristiwa.Gtfs.Regions.Laws.{contains-Elem, Elem-contains}
use go_gedung_peristiwa.Gtfs.Position.{VehiclePosition}
use go_gedung_peristiwa.Demo.Pipeline.{
  Pipeline, IngestRecord, ingest_cap, live_map_visible_window, vehicle_key, keep_newest,
  ingest_record, push_ingest, latest_positions, is_visible, live_positions_for, count_visible,
  stats_for, group_of, group_by_label, recent_ingest_grouped,
}
use go_gedung_peristiwa.Demo.Pipeline.Write.{see_all, ingest_all}

-- The entry of a vehicle is no older than a time.
abbrev pub NoOlder : Text → Time → Assoc VehiclePosition → Type 0
NoOlder k t m = (q : VehiclePosition) × (lookup k m ≡ some q) × (t ≤ q.timestamp)

keep_newest_self :
    (pos : VehiclePosition) (m : Assoc VehiclePosition)
    → NoOlder (vehicle_key pos) pos.timestamp (keep_newest (vehicle_key pos) pos m)
unfolding keep_newest
keep_newest_self pos m = elim (Option-cases (lookup (vehicle_key pos) m)) [
  | inl e ↦ (pos, ground (arith, lookup-insert k k pos m), omega arith)
  | inr (prev, e) ↦ elim (Bool-cases (ltb prev.timestamp pos.timestamp)) [
    | inl f ↦ (pos, ground (arith, lookup-insert k k pos m), omega arith)
    | inr f ↦ (prev, ground arith, ground arith)
  ]
]
  where
    k : Text
    k = vehicle_key pos

keep_newest-NoOlder :
    (k j : Text) (pos : VehiclePosition) (t : Time) (m : Assoc VehiclePosition)
    → NoOlder j t m
    → NoOlder j t (keep_newest k pos m)
unfolding keep_newest
keep_newest-NoOlder k j pos t m (q, e, h) = elim (text_dec k j) [
  | no n ↦ (q, ground (arith, lookup-insert k j pos m), h)
  | yes same ↦ elim (Bool-cases (ltb q.timestamp pos.timestamp)) [
    | inl f ↦ (pos, ground (arith, lookup-insert k j pos m), ground arith)
    | inr f ↦ (q, ground arith, h)
  ]
]

see_all-NoOlder :
    (ps : List VehiclePosition) (j : Text) (t : Time) (m : Assoc VehiclePosition)
    → NoOlder j t m
    → NoOlder j t (see_all ps m)
unfolding see_all
see_all-NoOlder [] j t m h = h
see_all-NoOlder (pos ∷ ps) j t m h =
    see_all-NoOlder ps j t _ (keep_newest-NoOlder (vehicle_key pos) j pos t m h)

-- After a write, the live state of each vehicle that was put is no older than any of its
-- positions in the write, in whatever order they came.
pub see_all-newest :
    (ps : List VehiclePosition) (pos : VehiclePosition) (m : Assoc VehiclePosition)
    → Elem pos ps
    → NoOlder (vehicle_key pos) pos.timestamp (see_all ps m)
unfolding see_all
see_all-newest [] pos m h = absurd h
see_all-newest (p ∷ ps) pos m (inl e) =
    rw e (see_all-NoOlder ps (vehicle_key p) p.timestamp _ (keep_newest_self p m))
see_all-newest (p ∷ ps) pos m (inr h) = see_all-newest ps pos _ h

take-take {ℓ} : {A : Type ℓ} (m k : ℕ) (ys : List A) → m ≤ k → take m (take k ys) ≡ take m ys
take-take zero k ys h = refl
take-take (suc m) zero ys h = absurd (omega arith)
take-take (suc m) (suc k) [] h = refl
take-take (suc m) (suc k) (y ∷ ys) h = ap (◌∷◌ y) (take-take m k ys (omega arith))

take-append-take {ℓ} :
    {A : Type ℓ} (m k : ℕ) (xs ys : List A) → m ≤ k → take m (xs ++ take k ys) ≡ take m (xs ++ ys)
take-append-take m k [] ys h = take-take m k ys h
take-append-take zero k (x ∷ xs) ys h = refl
take-append-take (suc m) k (x ∷ xs) ys h = ap (◌∷◌ x) (take-append-take m k xs ys (omega arith))

push_ingest-take :
    (rec : IngestRecord) (buf : List IngestRecord)
    → push_ingest rec buf ≡ take ingest_cap (rec ∷ buf)
unfolding push_ingest
push_ingest-take rec buf = elim (Bool-cases (ltb ingest_cap (length (rec ∷ buf)))) [
  | inl e ↦ rw e
  | inr e ↦ rw e (sym (take_of_length-le ingest_cap (rec ∷ buf) (ground arith)))
]

-- The debug buffer holds the ten latest records, newest first.
pub ingest_all-take :
    (ps : List VehiclePosition) (buf : List IngestRecord)
    → length buf ≤ ingest_cap
    → ingest_all ps buf ≡ take ingest_cap (reverse (map ingest_record ps) ++ buf)
unfolding ingest_all
ingest_all-take [] buf h = sym (take_of_length-le ingest_cap buf h)
ingest_all-take (pos ∷ ps) buf h = rw (push_ingest-take (ingest_record pos) buf) (
    ingest_all-take ps _ (length-take-le ingest_cap (ingest_record pos ∷ buf))
    ∙ take-append-take ingest_cap ingest_cap (reverse (map ingest_record ps))
        (ingest_record pos ∷ buf) (omega arith)
    ∙ ap (take ingest_cap) (
        sym (append_assoc (reverse (map ingest_record ps)) (ingest_record pos ∷ []) buf)
        ∙ ap (λ l. l ++ buf) (sym (reverse-cons (ingest_record pos) (map ingest_record ps)))))

module _ {Handle : Type 0} (p : Pipeline Handle) (agencies : List Text) (now : Time) where
  -- The live map shows exactly the latest positions of the given agencies that are no more than
  -- 30 minutes old, those that lie in the future included.
  pub live_positions_for-Elem :
      (pos : VehiclePosition)
      → Elem pos (live_positions_for agencies now p) ↔ (
          Elem pos (latest_positions p)
          × Elem pos.agency agencies
          × (now - pos.timestamp ≤ live_map_visible_window))
  unfolding live_positions_for latest_positions
  live_positions_for-Elem pos =
      let mem = Elem-keep (is_visible agencies now) pos (map (λ e. e.1) p.vehicle_seen) in
      (
        λ h.
            let (a, b) = mem.0 h in
            (a, contains-Elem pos.agency agencies (ground arith), ground arith),
        λ h. mem.1 (h.0, ground (arith, Elem-contains pos.agency agencies h.1)),
      )

  count_visible-length :
      (m : Assoc VehiclePosition) (n : ℕ)
      → count_visible agencies now m n
        ≡ n + length (keep (is_visible agencies now) (map (λ e. e.1) m))
  unfolding count_visible
  count_visible-length [] n = omega arith
  count_visible-length ((k, pos) ∷ m) n =
      ground (arith, count_visible-length m n, count_visible-length m (n + 1))

  -- The count beside the map is the number of the positions on it.
  pub stats_for-length : (stats_for agencies now p).0 ≡ length (live_positions_for agencies now p)
  unfolding stats_for live_positions_for
  stats_for-length = count_visible-length p.vehicle_seen 0 ∙ omega arith

group_of-insert :
    (k label : Text) (g : List IngestRecord) (groups : Assoc (List IngestRecord))
    → group_of label (insert k g groups) ≡ ite (text_dec k label) g (group_of label groups)
unfolding group_of
group_of-insert k label g groups = ground (arith, lookup-insert k label g groups)

-- The records of one group are those of the buffer with its label, in order.
group_by_label-group_of :
    (label : Text) (recs : List IngestRecord) (groups : Assoc (List IngestRecord))
    → group_of label (group_by_label recs groups)
      ≡ group_of label groups ++ keep (λ rec. holds (text_dec rec.bucket_label label)) recs
unfolding group_by_label
group_by_label-group_of label [] groups = sym (append-nil _)
group_by_label-group_of label (rec ∷ recs) groups =
    let more = group_of rec.bucket_label groups ++ rec ∷ [] in
    group_by_label-group_of label recs (insert rec.bucket_label more groups)
    ∙ ground (
      arith,
      group_of-insert rec.bucket_label label more groups,
      append_assoc (group_of label groups) (rec ∷ [])
          (keep (λ r. holds (text_dec r.bucket_label label)) recs),
    )

-- Each group of the debug view is the records of the buffer with its label, in order.
pub recent_ingest_grouped-group_of :
    {Handle : Type 0} (label : Text) (p : Pipeline Handle)
    → group_of label (recent_ingest_grouped p)
      ≡ keep (λ rec. holds (text_dec rec.bucket_label label)) p.ingest_buf
unfolding recent_ingest_grouped group_of lookup
recent_ingest_grouped-group_of label p = group_by_label-group_of label p.ingest_buf []
