-- ===== src/Events/Queue/Setup.antt =====
-- Events that arrive while a split payment is being set up (`begin_mpp_setup`, `finish_mpp_setup`).
use orange_sdk.Prelude.{
  ℕ, ◌≡◌, refl, false, Option, none, some, [], ◌∷◌, ◌++◌, arith, ok, err, nat_eq, ap, ◌∙◌,
  if◌then◌else◌, nat_beq_iff,
}
use orange_sdk.Prelude.Run.{Returns, Returns-of_eq, ◌>>◌}
use orange_sdk.Prelude.Assoc.{get, insert, remove, get-insert_self, get-remove}
use orange_sdk.Store.Types.{PaymentId}
use orange_sdk.Store.Wrote.{Reliable}
use orange_sdk.Events.Types.{Event, payment_successful, terminal_payment_hash}
use orange_sdk.Events.Queue.{
  QueueBackend, EventQueue, Done, is_mpp_leg, add_event, add_events, add_plain_event,
  buffer_or_push, push_event, begin_mpp_setup, finish_mpp_setup,
}
use orange_sdk.Events.Queue.Fifo.{Updates, push_event-IsRequeued}

module _ (api : QueueBackend) (reliable : Reliable api.kv) (id : PaymentId) (hash preimage : ℕ)
    (fee : Option ℕ) where
  abbrev won : Event
  won = payment_successful id hash preimage fee

  -- The state in which the event waits.
  abbrev held : EventQueue → EventQueue
  held s = record s {
    pending_mpp_events = insert hash (won ∷ []) (insert hash [] s.pending_mpp_events);
  }

  -- The state in which it is added again.
  abbrev released : EventQueue → EventQueue
  released s = record s {
    pending_mpp_events = remove hash (insert hash (won ∷ []) (insert hash [] s.pending_mpp_events));
  }

  holds :
      (s : EventQueue)
      → get hash s.pending_mpp_events ≡ none
      → is_mpp_leg id s.store ≡ false
      → (begin_mpp_setup hash >> add_event api won) s ≡ some (ok tt, held s)
  unfolding begin_mpp_setup add_event add_plain_event buffer_or_push terminal_payment_hash
  holds s clear alone = ground (arith, get-insert_self hash [] s.pending_mpp_events)

  adds_again :
      (s : EventQueue)
      → is_mpp_leg id s.store ≡ false
      → add_event api won (released s) ≡ push_event api won (released s)
  unfolding add_event add_plain_event buffer_or_push terminal_payment_hash
  adds_again s alone =
      ground (arith, get-remove hash hash (held s).pending_mpp_events, nat_beq_iff hash hash)

  abbrev pub Surfaced : EventQueue → Done → EventQueue → Type 0
  Surfaced s r t = (r ≡ ok tt) × (t.queue ≡ s.queue ++ won ∷ [])

  after_push-Surfaced :
      (s : EventQueue) (o : Option (Done × EventQueue))
      → Returns (Updates api (s.queue ++ won ∷ []) (released s)) o
      → Returns (Surfaced s) (elim o [
        | none ↦ none
        | some (err u, t) ↦ some (err u, t)
        | some (ok u, t) ↦ some (ok tt, t)
      ])
  after_push-Surfaced s none h = h
  after_push-Surfaced s (some (ok u, t)) h = (refl, h.0.queue_is)
  after_push-Surfaced s (some (err u, t)) h =
      let wrong : err u ≡ ok tt = h.1 ∙ ap (λ b. if b then ok tt else err tt) (reliable _) in cc

  adds-Surfaced :
      (s : EventQueue)
      → is_mpp_leg id s.store ≡ false
      → Returns (Surfaced s) (add_events api (won ∷ []) (released s))
  unfolding add_events
  adds-Surfaced s alone =
      let again : Returns (Updates api (s.queue ++ won ∷ []) (released s))
          (add_event api won (released s)) =
        rw (adds_again s alone) (push_event-IsRequeued api won (released s)) in
      after_push-Surfaced s (add_event api won (released s)) again

  finishes :
      (s : EventQueue) → finish_mpp_setup api hash (held s) ≡ add_events api (won ∷ []) (released s)
  unfolding finish_mpp_setup
  finishes s = ground (arith, get-insert_self hash (won ∷ []) (insert hash [] s.pending_mpp_events))

  -- Where no write fails, no events of the hash wait and the payment is no leg of a split one: its
  -- success, reported while a payment of the same hash is being set up, is held back from the queue,
  -- and is at the back of the queue once the set-up is over; both calls return `Ok`.
  pub finish_mpp_setup-Surfaced :
      (s : EventQueue)
      → get hash s.pending_mpp_events ≡ none
      → is_mpp_leg id s.store ≡ false
      → Returns
          (λ r t.
            (r ≡ ok tt) × (t.queue ≡ s.queue) × Returns (Surfaced s) (finish_mpp_setup api hash t))
          ((begin_mpp_setup hash >> add_event api won) s)
  finish_mpp_setup-Surfaced s clear alone =
      Returns-of_eq
        (λ r t.
          (r ≡ ok tt) × (t.queue ≡ s.queue) × Returns (Surfaced s) (finish_mpp_setup api hash t))
        (holds s clear alone) (refl, refl, rw (finishes s) (adds-Surfaced s alone))
