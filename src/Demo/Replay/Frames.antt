-- ===== src/Demo/Replay/Frames.antt =====
-- The frames that internal/demo/replay.go builds.
use go_gedung_peristiwa.Prelude.{
  ◌≡◌, ◌==◌, refl, ap, sym, ◌∙◌, List, [], ◌∷◌, ◌++◌, append_assoc, append-nil, Bool-cases, inl,
  inr, not, ◌||◌,
}
use go_gedung_peristiwa.Sort.{sort}
use go_gedung_peristiwa.Demo.Replay.{
  Mutation, Bucket, mutation_lt, close_bucket, is_nil, bucket_loop, no_bucket, bucket_frames,
}

abbrev pub mutations_of : List Bucket → List Mutation
mutations_of [] = []
mutations_of (b ∷ bs) = b.mutations ++ mutations_of bs

mutations_of-append :
    (xs ys : List Bucket) → mutations_of (xs ++ ys) ≡ mutations_of xs ++ mutations_of ys
mutations_of-append [] ys = refl
mutations_of-append (x ∷ xs) ys =
    ap (λ l. x.mutations ++ l) (mutations_of-append xs ys)
    ∙ sym (append_assoc x.mutations (mutations_of xs) (mutations_of ys))

close_bucket-mutations :
    (b : Bucket) (ms : List Mutation) (bs : List Bucket)
    → b.mutations ≡ ms
    → mutations_of (close_bucket b bs) ≡ mutations_of bs ++ b.mutations
unfolding close_bucket
close_bucket-mutations b [] bs e = rw (e, close_bucket) (sym (append-nil _))
close_bucket-mutations b (m ∷ ms) bs e =
    rw (e, close_bucket)
      (mutations_of-append bs (b ∷ [])
        ∙ ap (λ l. mutations_of bs ++ l) (append-nil b.mutations ∙ e))

bucket_loop-mutations :
    (ms : List Mutation) (current : Bucket) (bs : List Bucket)
    → mutations_of (bucket_loop ms current bs) ≡ mutations_of bs ++ (current.mutations ++ ms)
unfolding bucket_loop
bucket_loop-mutations [] current bs =
    close_bucket-mutations current current.mutations bs refl
    ∙ ap (λ l. mutations_of bs ++ l) (sym (append-nil current.mutations))
bucket_loop-mutations (m ∷ ms) current bs =
    elim (Bool-cases (is_nil current.mutations || not (current.at == m.at))) [
      | inl fresh ↦ rw (fresh) (
          bucket_loop-mutations ms (record { at = m.at; mutations = m ∷ [] })
            (close_bucket current bs)
          ∙ ap (λ l. l ++ (m ∷ ms)) (close_bucket-mutations current current.mutations bs refl)
          ∙ append_assoc (mutations_of bs) current.mutations (m ∷ ms))
      | inr same ↦ rw (same) (
          bucket_loop-mutations ms (record current { mutations = current.mutations ++ m ∷ [] }) bs
          ∙ ap (λ l. mutations_of bs ++ l) (append_assoc current.mutations (m ∷ []) ms))
    ]

-- Whatever mutations the feeds gave, the frames hold exactly the sorted mutations, each once and in
-- order: no mutation is lost or repeated where one frame is closed and the next one begins.
pub bucket_frames-mutations :
    (ms : List Mutation) → mutations_of (bucket_frames ms) ≡ sort mutation_lt ms
unfolding bucket_frames no_bucket
bucket_frames-mutations ms = bucket_loop-mutations (sort mutation_lt ms) no_bucket []
