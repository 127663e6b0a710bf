-- ===== src/Events/Queue/Fifo.antt =====
-- The queue delivers events in order and its copy on disk follows it (`EventQueue`).
use orange_sdk.Prelude.{
  ◌≡◌, refl, inl, inr, true, false, none, some, List, [], ◌∷◌, ◌++◌, arith, Bool-cases, ok, err,
  sym, ap, if◌then◌else◌,
}
use orange_sdk.Prelude.Run.{Run, Returns, Returns-of_eq, Returns->>=, ◌>>=◌}
use orange_sdk.Platform.{KvStoreLaws, found}
use orange_sdk.Store.Wrote.{Reliable}
use orange_sdk.Events.Types.{Event}
use orange_sdk.Events.Queue.{
  QueueBackend, EventQueue, event_queue_key, encode_queue, persist_queue, update_queue,
  finish_update, wake, push_event, event_handled, pop_front, Done,
}

-- The queue on disk is the queue in memory.
abbrev pub OnDisk : QueueBackend → EventQueue → Type 0
OnDisk api s = api.kv.read s.store.writes event_queue_key ≡ found (encode_queue api s.queue)

-- What the consumer and the rest of the wallet do with the queue.
pub data QueueOp : Type 0 where
  pushes : Event → QueueOp
  handles : QueueOp

unfoldable pub run_queue_op : QueueBackend → QueueOp → Run EventQueue Done
run_queue_op api (pushes e) = push_event api e
run_queue_op api handles = event_handled api

-- The same on a plain list.
abbrev pub spec_op : QueueOp → List Event → List Event
spec_op (pushes e) q = q ++ e ∷ []
spec_op handles [] = []
spec_op handles (e ∷ q) = q

unfoldable pub run_queue : QueueBackend → List QueueOp → Run EventQueue Done
run_queue api [] s = some (ok tt, s)
run_queue api (op ∷ ops) s = (run_queue_op api op >>= λ _. run_queue api ops) s

abbrev pub spec : List QueueOp → List Event → List Event
spec [] q = q
spec (op ∷ ops) q = spec ops (spec_op op q)

pop_front-spec : (q : List Event) → pop_front q ≡ spec_op handles q
pop_front-spec [] = refl
pop_front-spec (e ∷ q) = refl

-- The queue in memory, and the call that writes it.
abbrev pub requeued : QueueBackend → List Event → EventQueue → EventQueue
requeued api q s = record s {
  queue = q;
  store = record (s.store) {
    writes = record { key = event_queue_key; buf = encode_queue api q } ∷ s.store.writes;
  };
}

wake_queue : (s : EventQueue) → (wake s).queue ≡ s.queue
unfolding wake
wake_queue s = ground arith

wake_store : (s : EventQueue) → (wake s).store ≡ s.store
unfolding wake
wake_store s = ground arith

wake_pending : (s : EventQueue) → (wake s).pending_mpp_events ≡ s.pending_mpp_events
unfolding wake
wake_pending s = ground arith

-- No task is left waiting: the one that had stored its waker has been woken.
abbrev pub IsWoken : EventQueue → EventQueue → Type 0
IsWoken s s' =
    (s'.waker ≡ none) × (s'.woken ≡ elim s.waker [ none ↦ s.woken | some task ↦ task ∷ s.woken ])

-- After a write that failed, the task is still waiting and none has been woken.
abbrev pub Wakes : Done → EventQueue → EventQueue → Type 0
Wakes (ok _) s s' = IsWoken s s'
Wakes (err _) s s' = (s'.waker ≡ s.waker) × (s'.woken ≡ s.woken)

wake-IsWoken : (s : EventQueue) → IsWoken s (wake s)
unfolding wake
wake-IsWoken s = ground arith

-- Everything but the queue, its copy on disk and the waiting task is as before.
pub record IsRequeued (api : QueueBackend) (q : List Event) (s s' : EventQueue) : Type 0 where
  pub queue_is : s'.queue ≡ q
  pub writes_is : s'.store.writes ≡ (requeued api q s).store.writes
  pub metadata_is : s'.store.tx_metadata ≡ s.store.tx_metadata
  pub enabled_is : s'.store.rebalance_enabled ≡ s.store.rebalance_enabled
  pub pending_is : s'.pending_mpp_events ≡ s.pending_mpp_events

module _ (api : QueueBackend) where
  abbrev pub Updates : List Event → EventQueue → Done → EventQueue → Type 0
  Updates q s r s' =
      IsRequeued api q s s'
      × (r ≡ (if api.kv.write_ok (requeued api q s).store.writes then ok tt else err tt))
      × Wakes r s s'

  update_queue_fails :
      (q : List Event) (s : EventQueue)
      → api.kv.write_ok (requeued api q s).store.writes ≡ false
      → update_queue api q s ≡ some (err tt, requeued api q s)
  unfolding update_queue persist_queue finish_update
  update_queue_fails q s h = rw h

  update_queue_lem :
      (q : List Event) (s : EventQueue)
      → api.kv.write_ok (requeued api q s).store.writes ≡ true
      → update_queue api q s ≡ some (ok tt, wake (requeued api q s))
  unfolding update_queue persist_queue finish_update
  update_queue_lem q s h = rw h

  wake-IsRequeued : (q : List Event) (s : EventQueue) → IsRequeued api q s (wake (requeued api q s))
  wake-IsRequeued q s =
      let t = requeued api q s in ground (arith, wake_queue t, wake_store t, wake_pending t)

  -- What the writers of the queue do, however the write goes: the queue changes in memory. Only
  -- where the write succeeds is the waiting task woken.
  update_queue-IsRequeued :
      (q : List Event) (s : EventQueue) → Returns (Updates q s) (update_queue api q s)
  update_queue-IsRequeued q s =
      elim (Bool-cases (api.kv.write_ok (requeued api q s).store.writes)) [
        | inl written ↦ Returns-of_eq (Updates q s) (update_queue_lem q s written) (
          wake-IsRequeued q s,
          sym (ap (λ b. if b then ok tt else err tt) written),
          wake-IsWoken (requeued api q s),
        )
        | inr lost ↦
            Returns-of_eq (Updates q s) (update_queue_fails q s lost)
              (ground arith, sym (ap (λ b. if b then ok tt else err tt) lost), (refl, refl))
      ]

  -- A pushed event goes to the back of the queue in memory, however its write goes; its write is
  -- the only one made, and the metadata, the switch and the events of payments that are being set
  -- up are kept. The result is `Ok` exactly if the write succeeded: then the waiting task has been
  -- woken, and otherwise it waits on and none has been woken.
  pub push_event-IsRequeued :
      (e : Event) (s : EventQueue) → Returns (Updates (s.queue ++ e ∷ []) s) (push_event api e s)
  unfolding push_event
  push_event-IsRequeued e s = update_queue-IsRequeued (s.queue ++ e ∷ []) s

  event_handled-IsRequeued :
      (s : EventQueue) → Returns (Updates (spec_op handles s.queue) s) (event_handled api s)
  unfolding event_handled
  event_handled-IsRequeued s =
      rw (← pop_front-spec s.queue) (update_queue-IsRequeued (pop_front s.queue) s)

  run_queue_op-IsRequeued :
      (op : QueueOp) (s : EventQueue)
      → Returns (Updates (spec_op op s.queue) s) (run_queue_op api op s)
  unfolding run_queue_op
  run_queue_op-IsRequeued (pushes e) s = push_event-IsRequeued e s
  run_queue_op-IsRequeued handles s = event_handled-IsRequeued s

  module _ (kv_laws : KvStoreLaws api.kv) (reliable : Reliable api.kv) where
    abbrev pub Delivers : List Event → Done → EventQueue → Type 0
    Delivers q r s' = (r ≡ ok tt) × (s'.queue ≡ q) × OnDisk api s'

    pub requeued-OnDisk :
        (q : List Event) (s s' : EventQueue) → IsRequeued api q s s' → OnDisk api s'
    requeued-OnDisk q s s' h =
        rw (h.queue_is, h.writes_is) (kv_laws.read-write_self _ s.store.writes (reliable _))

    -- Where no write fails, any sequence of pushes and confirmations succeeds, leaves in the queue
    -- what it leaves in a plain first-in, first-out list, and the copy on disk is the queue.
    pub run_queue-Delivers :
        (ops : List QueueOp) (s : EventQueue)
        → OnDisk api s
        → Returns (Delivers (spec ops s.queue)) (run_queue api ops s)
    unfolding run_queue
    run_queue-Delivers [] s d = (refl, refl, d)
    run_queue-Delivers (op ∷ ops) s d =
        Returns->>= (Updates (spec_op op s.queue) s) (Delivers (spec ops (spec_op op s.queue)))
          (run_queue_op api op) (λ _. run_queue api ops) s (run_queue_op-IsRequeued op s)
          (λ r s' h.
            rw (← h.0.queue_is)
              (run_queue-Delivers ops s' (requeued-OnDisk (spec_op op s.queue) s s' h.0)))
