-- ===== src/Demo/Pipeline/Notify/Delivered.antt =====
-- What NotifyPoll of internal/demo/pipeline.go delivers, and when it panics.
use go_gedung_peristiwa.Prelude.{
  ℕ, ◌≡◌, refl, subst, sym, List, [], ◌∷◌, true, false, All, arith, inl, inr, Elem,
}
use go_gedung_peristiwa.Demo.Pipeline.Notify.{
  Hub, has, unsubscribe, copy_subs, send, send_all, notify_poll,
}

-- No subscriber's channel is closed.
abbrev pub IsOpen : Hub → Type 0
IsOpen h = All (λ i. has i h.closed ≡ false) h.poll_subs

-- One send closes nothing, and keeps the signals and a panic.
record Kept (h h' : Hub) : Type 0 where
  closed : h'.closed ≡ h.closed
  full : (i : ℕ) → has i h.full ≡ true → has i h'.full ≡ true
  panicked : h.panicked ≡ true → h'.panicked ≡ true

send-Kept : (j : ℕ) (h : Hub) → Kept h (send j h)
unfolding send has
send-Kept j h = record {
  closed = ground arith;
  full = λ i f. ground arith;
  panicked = λ p. ground arith;
}

send_all-Kept : (l : List ℕ) (h : Hub) → Kept h (send_all l h)
unfolding send_all
send_all-Kept [] h = record { closed = refl; full = λ i f. f; panicked = λ p. p }
send_all-Kept (j ∷ l) h =
    let one = send-Kept j (record h { outbox = l }) in
    let rest = send_all-Kept l (send j (record h { outbox = l })) in
    record {
      closed = ground (arith, one.closed, rest.closed);
      full = λ i f. rest.full i (one.full i f);
      panicked = λ p. rest.panicked (one.panicked p);
    }

send_open :
    (j : ℕ) (h : Hub)
    → has j h.closed ≡ false
    → h.panicked ≡ false
    → ((send j h).panicked ≡ false) × (has j (send j h).full ≡ true)
unfolding send has
send_open j h c p = (ground arith, ground arith)

send_all-delivers :
    (l : List ℕ) (h : Hub)
    → All (λ j. has j h.closed ≡ false) l
    → h.panicked ≡ false
    → ((send_all l h).panicked ≡ false) × All (λ i. has i (send_all l h).full ≡ true) l
unfolding send_all
send_all-delivers [] h c p = (p, tt)
send_all-delivers (j ∷ l) h c p =
    let h' = send j (record h { outbox = l }) in
    let one = send_open j (record h { outbox = l }) c.0 p in
    let same : h'.closed ≡ h.closed = (send-Kept j (record h { outbox = l })).closed in
    let ih =
      send_all-delivers l h' (subst (λ ks. All (λ i. has i ks ≡ false) l) (sym same) c.1) one.0 in
    (ih.0, ((send_all-Kept l h').full j one.1, ih.1))

-- Where no subscriber's channel is closed, a NotifyPoll that nothing interrupts does not panic, and
-- leaves a signal for each subscriber, also for one that had not taken its last one.
pub notify_poll-delivers :
    (h : Hub)
    → IsOpen h
    → h.panicked ≡ false
    → ((notify_poll h).panicked ≡ false) × All (λ i. has i (notify_poll h).full ≡ true) h.poll_subs
unfolding notify_poll copy_subs
notify_poll-delivers h c p = send_all-delivers h.poll_subs (record h { outbox = h.poll_subs }) c p

send_all_closed :
    (l : List ℕ) (h : Hub) (i : ℕ)
    → Elem i l
    → has i h.closed ≡ true
    → (send_all l h).panicked ≡ true
unfolding send_all send
send_all_closed [] h i m c = absurd m
send_all_closed (j ∷ l) h i (inl e) c =
    let here : has j h.closed ≡ true = subst (λ k. has k h.closed ≡ true) e c in
    (send_all-Kept l (send j (record h { outbox = l }))).panicked (ground arith)
send_all_closed (j ∷ l) h i (inr m) c =
    let same = (send-Kept j (record h { outbox = l })).closed in
    send_all_closed l (send j (record h { outbox = l })) i m
      (subst (λ ks. has i ks ≡ true) (sym same) c)

-- A subscriber whose context is done after NotifyPoll has copied the list and before it sends makes
-- it send on a closed channel: the process panics.
pub copy_subs-unsubscribe-panics :
    (h : Hub) (i : ℕ)
    → Elem i h.poll_subs
    → (send_all h.poll_subs (unsubscribe i (copy_subs h))).panicked ≡ true
unfolding unsubscribe copy_subs has
copy_subs-unsubscribe-panics h i m =
    send_all_closed h.poll_subs (unsubscribe i (copy_subs h)) i m (ground arith)
