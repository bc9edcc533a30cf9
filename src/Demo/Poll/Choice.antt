-- ===== src/Demo/Poll/Choice.antt =====
-- Which region `nextDueRegion` of internal/demo/poll.go chooses.
use go_gedung_peristiwa.Prelude.{
  ◌≡◌, refl, List, [], ◌∷◌, true, false, All, Elem, arith, Bool-cases, ◌⊎◌, inl, inr, ap, ◌∙◌, sym,
}
use go_gedung_peristiwa.Text.{Text, is_empty}
use go_gedung_peristiwa.Time.{Time}
use go_gedung_peristiwa.Demo.Poll.{Coordinator, Candidate, nobody, prefer_due_region}
use go_gedung_peristiwa.Demo.Poll.Order.{prefer_irrefl, prefer_trans, prefer_negtrans}
use go_gedung_peristiwa.Demo.Poll.Plan.{better, stale_of, candidate, pick_of}

module _ {Raw : Type 0} (c : Coordinator Raw) (now : Time) where
  -- The candidate that the loop holds: the first one, or that of a due region met so far.
  abbrev pub Held : List Text → Candidate → Candidate → Type 0
  Held ids best r =
      (r ≡ best)
      ⊎ ((id : Text) × Elem id ids × (stale_of c now id ≡ true) × (r ≡ candidate c now id))

  better_cases :
      (a best : Candidate)
      → is_empty best.id ≡ false
      → ((better a best ≡ a) × (prefer_due_region a best ≡ true))
        ⊎ ((better a best ≡ best) × (prefer_due_region a best ≡ false))
  unfolding better
  better_cases a best h = ground arith

  better_one : (a best : Candidate) → (better a best ≡ a) ⊎ (better a best ≡ best)
  unfolding better
  better_one a best = ground arith

  Held-later :
      (id : Text) (ids : List Text) (best r : Candidate) → Held ids best r → Held (id ∷ ids) best r
  Held-later id ids best r (inl e) = inl e
  Held-later id ids best r (inr (q, m, st, e)) = inr (q, inr m, st, e)

  pub pick_of-Held : (ids : List Text) (best : Candidate) → Held ids best (pick_of c ids now best)
  unfolding pick_of
  pick_of-Held [] best = inl refl
  pick_of-Held (id ∷ ids) best = elim (Bool-cases (stale_of c now id)) [
    | inr fresh ↦ rw fresh (Held-later id ids best _ (pick_of-Held ids best))
    | inl due ↦ rw due (elim (better_one (candidate c now id) best) [
      | inr e ↦ rw e (Held-later id ids best _ (pick_of-Held ids best))
      | inl e ↦ rw e (elim (pick_of-Held ids (candidate c now id)) [
        | inl same ↦ inr (id, inl refl, due, same)
        | inr (q, m, st, f) ↦ inr (q, inr m, st, f)
      ])
    ])
  ]

  candidate_named : (id : Text) → is_empty id ≡ false → is_empty (candidate c now id).id ≡ false
  unfolding candidate
  candidate_named id h = h

  -- What is worse than the best so far is not preferred to the result.
  trumped :
      (b a r : Candidate)
      → prefer_due_region a b ≡ true
      → prefer_due_region a r ≡ false
      → prefer_due_region b r ≡ false
  trumped b a r p q = elim (Bool-cases (prefer_due_region b r)) [
    | inr e ↦ e
    | inl e ↦ cc (prefer_trans a b r p e, q)
  ]

  -- No due region is preferred to the result, once the loop holds a region.
  pick_of-least :
      (ids : List Text) (best : Candidate)
      → is_empty best.id ≡ false
      → All (λ id. is_empty id ≡ false) ids
      → (prefer_due_region best (pick_of c ids now best) ≡ false)
        × ((id : Text)
            → Elem id ids
            → stale_of c now id ≡ true
            → prefer_due_region (candidate c now id) (pick_of c ids now best) ≡ false)
  unfolding pick_of
  pick_of-least [] best h a = (prefer_irrefl best, λ id m. absurd m)
  pick_of-least (id ∷ ids) best h a = elim (Bool-cases (stale_of c now id)) [
    | inr fresh ↦
        let (first, rest) = pick_of-least ids best h a.1 in
        rw fresh (
          first,
          λ q m st. elim m [
            | inl e ↦ cc (sym fresh ∙ ap (stale_of c now) (sym e) ∙ st)
            | inr m' ↦ rest q m' st
          ],
        )
    | inl due ↦ elim (better_cases (candidate c now id) best h) [
      | inl (e, p) ↦
          let (first, rest) = pick_of-least ids (candidate c now id) (candidate_named id a.0) a.1 in
          rw (due, e)
            (
              trumped best (candidate c now id) _ p first,
              λ q m st. elim m [ inl f ↦ rw f first | inr m' ↦ rest q m' st ],
            )
      | inr (e, p) ↦
          let (first, rest) = pick_of-least ids best h a.1 in
          rw (due, e)
            (
              first,
              λ q m st. elim m [
                | inl f ↦ rw f (prefer_negtrans _ best _ p first)
                | inr m' ↦ rest q m' st
              ],
            )
    ]
  ]

  -- What the loop gives for the regions `ids`: nothing if none is due, otherwise a due one to
  -- which no due one is preferred.
  abbrev pub First : List Text → Candidate → Type 0
  First ids r =
      ((r ≡ nobody) × ((id : Text) → Elem id ids → stale_of c now id ≡ false))
      ⊎ ((id : Text) × Elem id ids
          × (stale_of c now id ≡ true)
          × (r ≡ candidate c now id)
          × ((q : Text)
              → Elem q ids
              → stale_of c now q ≡ true
              → prefer_due_region (candidate c now q) (candidate c now id) ≡ false))

  better-nobody : (a : Candidate) → better a nobody ≡ a
  unfolding better nobody
  better-nobody a = refl

  First-later :
      (id : Text) (ids : List Text) (r : Candidate)
      → stale_of c now id ≡ false
      → First ids r
      → First (id ∷ ids) r
  First-later id ids r fresh (inl (e, none_due)) =
      inl (e, λ q m. elim m [ inl f ↦ rw f fresh | inr m' ↦ none_due q m' ])
  First-later id ids r fresh (inr (p, m, st, e, least)) = inr (
    p,
    inr m,
    st,
    e,
    λ q mq due. elim mq [
      | inl f ↦ cc (sym fresh ∙ ap (stale_of c now) (sym f) ∙ due)
      | inr m' ↦ least q m' due
    ],
  )

  First-from :
      (id : Text) (ids : List Text)
      → All (λ q. is_empty q ≡ false) (id ∷ ids)
      → stale_of c now id ≡ true
      → First (id ∷ ids) (pick_of c ids now (candidate c now id))
  First-from id ids a due =
      let (first, rest) = pick_of-least ids (candidate c now id) (candidate_named id a.0) a.1 in
      elim (pick_of-Held ids (candidate c now id)) [
        | inl e ↦ inr (
          id,
          inl refl,
          due,
          e,
          λ q m st. elim m [ inl f ↦ rw f (prefer_irrefl _) | inr m' ↦ rw e at (rest q m' st) ],
        )
        | inr (p, m, st, e) ↦ inr (
          p,
          inr m,
          st,
          e,
          λ q mq dq. elim mq [ inl f ↦ rw f (rw e at first) | inr m' ↦ rw e at (rest q m' dq) ],
        )
      ]

  pub pick_of-First :
      (ids : List Text) → All (λ q. is_empty q ≡ false) ids → First ids (pick_of c ids now nobody)
  unfolding pick_of
  pick_of-First [] a = inl (refl, λ id m. absurd m)
  pick_of-First (id ∷ ids) a = elim (Bool-cases (stale_of c now id)) [
    | inr fresh ↦ rw fresh (First-later id ids _ fresh (pick_of-First ids a.1))
    | inl due ↦ rw (due, better-nobody) (First-from id ids a due)
  ]
