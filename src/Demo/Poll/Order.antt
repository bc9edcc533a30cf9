-- ===== src/Demo/Poll/Order.antt =====
-- `preferDueRegion` of internal/demo/poll.go as an order on regions.
use go_gedung_peristiwa.Prelude.{◌≡◌, ◌≢◌, true, false, ◌⊎◌, arith}
use go_gedung_peristiwa.Text.{text_lt_irrefl, text_lt_trans, text_lt_total, text_lt_negtrans}
use go_gedung_peristiwa.Demo.Poll.{Candidate, prefer_due_region}

pub prefer_irrefl : (a : Candidate) → prefer_due_region a a ≡ false
unfolding prefer_due_region
prefer_irrefl a = ground (arith, text_lt_irrefl a.id)

pub prefer_trans :
    (a b c : Candidate)
    → prefer_due_region a b ≡ true
    → prefer_due_region b c ≡ true
    → prefer_due_region a c ≡ true
unfolding prefer_due_region
prefer_trans a b c h k = ground (arith, text_lt_trans a.id b.id c.id)

pub prefer_total :
    (a b : Candidate)
    → a.id ≢ b.id
    → (prefer_due_region a b ≡ true) ⊎ (prefer_due_region b a ≡ true)
unfolding prefer_due_region
prefer_total a b h = ground (arith, text_lt_total a.id b.id)

pub prefer_negtrans :
    (a b c : Candidate)
    → prefer_due_region a b ≡ false
    → prefer_due_region b c ≡ false
    → prefer_due_region a c ≡ false
unfolding prefer_due_region
prefer_negtrans a b c h k = ground (arith, text_lt_negtrans a.id b.id c.id)
