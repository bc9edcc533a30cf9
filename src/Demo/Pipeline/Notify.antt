-- ===== src/Demo/Pipeline/Notify.antt =====
-- SubscribePolls and NotifyPoll of internal/demo/pipeline.go: a channel of capacity 1 for each
-- subscriber. NotifyPoll copies the list under the lock and sends after it, so its sends are steps
-- of their own between those of the others. A send on a closed channel panics in Go.
pub mod Delivered
use go_gedung_peristiwa.Prelude.{
  ℕ, suc, ◌+◌, ◌==◌, List, [], ◌∷◌, ◌++◌, Bool, true, false, if◌then◌else◌,
}

-- The channels that a membership test of numbers finds.
unfoldable pub has : ℕ → List ℕ → Bool
has i [] = false
has i (j ∷ js) = if j == i then true else has i js

-- The first `i` is taken out, as in the loop of the goroutine of SubscribePolls.
unfoldable pub drop_first : ℕ → List ℕ → List ℕ
drop_first i [] = []
drop_first i (j ∷ js) = if j == i then js else j ∷ drop_first i js

-- Channels are numbered as they are made. `full` are those that hold a signal, `outbox` those that
-- the NotifyPoll on its way has not come to.
pub record Hub : Type 0 where
  pub made : ℕ
  pub poll_subs : List ℕ
  pub closed : List ℕ
  pub full : List ℕ
  pub outbox : List ℕ
  pub panicked : Bool

unfoldable pub new_hub : Hub
new_hub = record { made = 0; poll_subs = []; closed = []; full = []; outbox = []; panicked = false }

unfoldable pub subscribe : Hub → Hub
subscribe h = record h { made = h.made + 1; poll_subs = h.poll_subs ++ h.made ∷ [] }

-- The subscriber's context is done.
unfoldable pub unsubscribe : ℕ → Hub → Hub
unfolding drop_first
unsubscribe i h = record h { poll_subs = drop_first i h.poll_subs; closed = i ∷ h.closed }

-- The start of NotifyPoll, where none is on its way.
unfoldable pub copy_subs : Hub → Hub
copy_subs h = record h { outbox = h.poll_subs }

-- `select { case ch <- struct{}{}: default: }`
unfoldable pub send : ℕ → Hub → Hub
unfolding has
send i h =
    if has i h.closed
    then record h { panicked = true }
    else if has i h.full
    then h
    else record h { full = i ∷ h.full }

-- The next send of the NotifyPoll on its way.
unfoldable pub send_next : Hub → Hub
unfolding send
send_next h = elim h.outbox [ [] ↦ h | i ∷ rest ↦ send i (record h { outbox = rest }) ]

-- The subscriber takes its signal.
unfoldable pub receive : ℕ → Hub → Hub
unfolding drop_first
receive i h = record h { full = drop_first i h.full }

unfoldable pub send_all : List ℕ → Hub → Hub
unfolding send
send_all [] h = h
send_all (i ∷ rest) h = send_all rest (send i (record h { outbox = rest }))

-- All sends of a NotifyPoll with nothing in between.
unfoldable pub notify_poll : Hub → Hub
unfolding send_all copy_subs
notify_poll h = send_all h.poll_subs (copy_subs h)
