-- ===== src/Demo/Poll/Due.antt =====
-- The region that `nextDueRegion` of internal/demo/poll.go gives.
use go_gedung_peristiwa.Prelude.{◌≡◌, refl, List, [], ◌∷◌, true, false, All, Elem, ◌⊎◌, inl, inr}
use go_gedung_peristiwa.Text.{Text, is_empty, is_empty_ne}
use go_gedung_peristiwa.Time.{Time}
use go_gedung_peristiwa.Demo.Session.Store.{Json, Faults, prune_and_persist}
use go_gedung_peristiwa.Demo.Session.Methods.{live_region_ids}
use go_gedung_peristiwa.Demo.Session.Invariant.{IsValid}
use go_gedung_peristiwa.Demo.Session.Live.{Views, live_region_ids-Views}
use go_gedung_peristiwa.Demo.Poll.{Coordinator, nobody, prefer_due_region, next_due_region}
use go_gedung_peristiwa.Demo.Poll.Plan.{
  stale_of, candidate, pick_of, prune_and_persist-Settled, pick-settled,
}
use go_gedung_peristiwa.Demo.Poll.Choice.{pick_of-First}

nobody_id : nobody.id ≡ []
unfolding nobody
nobody_id = refl

candidate_id :
    {Raw : Type 0} (c : Coordinator Raw) (now : Time) (id : Text) → (candidate c now id).id ≡ id
unfolding candidate
candidate_id c now id = refl

module _ {Raw : Type 0} (json : Json Raw) (io : Faults) (clock now : Time)
    (c : Coordinator Raw) where
  -- The coordinator after the call: expired sessions are gone, and no plan is changed.
  unfoldable pub pruned : Coordinator Raw
  pruned = record c { sessions = prune_and_persist json io clock c.sessions }

  live : List Text
  live = (live_region_ids json io clock c.sessions).1

  live_named : IsValid c.sessions → All (λ q. is_empty q ≡ false) live
  unfolding live
  live_named v = All_of live λ q m.
      let (sid, w) = ((live_region_ids-Views json io clock c.sessions v).1 q).0 m in
      is_empty_ne q w.named
    where
      All_of :
          (l : List Text)
          → ((q : Text) → Elem q l → is_empty q ≡ false)
          → All (λ q. is_empty q ≡ false) l
      All_of [] h = tt
      All_of (x ∷ l) h = (h x (inl refl), All_of l (λ q m. h q (inr m)))

  next_due_region-pick :
      next_due_region json io clock now c ≡ (pruned, (pick_of pruned live now nobody).id)
  unfolding next_due_region pruned live live_region_ids
  next_due_region-pick =
      rw (pick-settled json io clock pruned (prune_and_persist-Settled json io clock c.sessions))

  -- Where the session store is well formed, `nextDueRegion` changes nothing but the pruned
  -- sessions, and gives no region exactly if no region with a connected viewer is due; otherwise
  -- it gives a due region with a connected viewer to which no other such region is preferred.
  pub next_due_region-First :
      IsValid c.sessions
      → let (c', id) = next_due_region json io clock now c in
        (c' ≡ pruned)
        × (((id ≡ [])
              × ((sid r : Text) → Views c.sessions clock sid r → stale_of pruned now r ≡ false))
            ⊎ ((sid : Text) × Views c.sessions clock sid id
                × (stale_of pruned now id ≡ true)
                × ((other r : Text)
                    → Views c.sessions clock other r
                    → stale_of pruned now r ≡ true
                    → prefer_due_region (candidate pruned now r) (candidate pruned now id)
                      ≡ false)))
  unfolding live
  next_due_region-First v =
      let views = (live_region_ids-Views json io clock c.sessions v).1 in
      rw next_due_region-pick (elim (pick_of-First pruned now live (live_named v)) [
        | inl (e, none_due) ↦
            (refl, inl (rw e nobody_id, λ sid r w. none_due r ((views r).1 (sid, w))))
        | inr (id, m, due, e, least) ↦
            let (sid, w) = (views id).0 m in
            rw (e, candidate_id pruned now id)
              (refl, inr (sid, w, due, λ other r u. least r ((views r).1 (other, u))))
      ])
