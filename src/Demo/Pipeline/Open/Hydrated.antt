-- ===== src/Demo/Pipeline/Open/Hydrated.antt =====
-- NewPipeline of internal/demo/pipeline.go where it fails.
use go_gedung_peristiwa.Prelude.{
  ◌≡◌, refl, ap, sym, ◌∙◌, subst, List, [], ◌∷◌, ◌++◌, append_assoc, Option, none, Result, err,
  Unique, Elem, Elem-append_right, arith, Option-cases, Result-cases, inl, inr,
}
use go_gedung_peristiwa.Text.{Text, text_dec}
use go_gedung_peristiwa.Assoc.{Assoc, insert}
use go_gedung_peristiwa.Gtfs.Feeds.{Feed, agency_ids}
use go_gedung_peristiwa.Demo.Pipeline.{Pipeline}
use go_gedung_peristiwa.Demo.Pipeline.Open.{
  Reads, hydrate_agencies, hydrate_from_snapshot, close_all, open_feeds, empty_pipeline,
  new_pipeline,
}

keys_of_map : {V : Type 0} → Assoc V → List Text
keys_of_map [] = []
keys_of_map ((k, v) ∷ m) = k ∷ keys_of_map m

close_all-keys :
    {Handle Failure : Type 0} (close : Handle → Option Failure) (m : Assoc Handle)
    (first : Option Failure)
    → (close_all close m first).0 ≡ keys_of_map m
unfolding close_all keys_of_map
close_all-keys close [] first = refl
close_all-keys close ((id, aw) ∷ m) first = ap (◌∷◌ id) (close_all-keys close m _)

insert-keys :
    {V : Type 0} (k : Text) (v : V) (m : Assoc V)
    → (Elem k (keys_of_map m) → ⊥)
    → keys_of_map (insert k v m) ≡ keys_of_map m ++ k ∷ []
unfolding insert keys_of_map
insert-keys k v [] h = refl
insert-keys k v ((j, w) ∷ m) h = elim (text_dec j k) [
  | yes e ↦ absurd (h (inl (sym e)))
  | no n ↦ ground (arith, insert-keys k v m (λ e. h (inr e)), n)
]

Unique-middle : (xs : List Text) (y : Text) (ys : List Text) → Unique (xs ++ y ∷ ys) → Elem y xs → ⊥
Unique-middle [] y ys u m = m
Unique-middle (x ∷ xs) y ys u (inl e) = u.0 (Elem-append_right x xs (y ∷ ys) (inl (sym e)))
Unique-middle (x ∷ xs) y ys u (inr m) = Unique-middle xs y ys u.1 m

module _ {Handle Failure : Type 0} (open_agency : Text → Result Failure Handle)
    (close : Handle → Option Failure) (reads : Reads Handle Failure) where
  open_feeds-closed :
      (feeds : List Feed) (opened : List Text) (p : Pipeline Handle) (x : Failure)
      → keys_of_map p.agencies ≡ opened
      → Unique (opened ++ agency_ids feeds)
      → let r = open_feeds open_agency close reads feeds opened p in
        r.result ≡ err x → r.closed ≡ r.opened
  unfolding open_feeds agency_ids hydrate_from_snapshot
  open_feeds-closed [] opened p x k u h =
      elim (Option-cases (hydrate_agencies reads p.agencies p.vehicle_seen).1) [
        | inl fine ↦ absurd (ground arith)
        | inr (y, failed) ↦ ground (arith, failed, close_all-keys close p.agencies none, k)
      ]
  open_feeds-closed (feed ∷ feeds) opened p x k u h =
      elim (Result-cases (open_agency feed.agency)) [
        | inr (y, e) ↦ ground (arith, e, close_all-keys close p.agencies none, k)
        | inl (aw, e) ↦
            let fresh : Elem feed.agency (keys_of_map p.agencies) → ⊥ = λ m.
              Unique-middle opened feed.agency (agency_ids feeds) u
                (subst (λ l. Elem feed.agency l) k m) in
            let keys =
              insert-keys feed.agency aw p.agencies fresh ∙ ap (λ l. l ++ feed.agency ∷ []) k in
            let more =
              subst Unique (sym (append_assoc opened (feed.agency ∷ []) (agency_ids feeds))) u in
            rw (open_feeds, e)
              (open_feeds-closed feeds (opened ++ feed.agency ∷ [])
                (record p { agencies = insert feed.agency aw p.agencies }) x keys more
                (ground arith))
      ]

  -- Where opening the live pipeline fails, at any agency or while it hydrates, the agencies that
  -- are closed are exactly those that were opened, each once, if no two feeds are of one agency.
  pub new_pipeline-closed :
      (feeds : List Feed) (x : Failure)
      → Unique (agency_ids feeds)
      → (new_pipeline open_agency close reads feeds).result ≡ err x
      → (new_pipeline open_agency close reads feeds).closed
        ≡ (new_pipeline open_agency close reads feeds).opened
  unfolding new_pipeline empty_pipeline keys_of_map
  new_pipeline-closed feeds x u h = open_feeds-closed feeds [] _ x refl u h
