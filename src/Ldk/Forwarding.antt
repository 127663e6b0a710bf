-- ===== src/Ldk/Forwarding.antt =====
-- Which events of ldk-node are forwarded and confirmed (`LdkEventHandler`).
use orange_sdk.Prelude.{
  ℕ, suc, Bool, ◌≡◌, refl, Option, none, some, List, [], ◌∷◌, ◌++◌, ok, err, false, if◌then◌else◌,
  ap, ◌∙◌,
}
use orange_sdk.Prelude.Run.{Run, Returns, Returns->>=, ◌>>=◌, ◌>>◌}
use orange_sdk.Platform.{KvStoreLaws}
use orange_sdk.Store.Types.{self_custodial, TxMetadata, pending_rebalance}
use orange_sdk.Store.World.{Store, lookup, persist, write_or_panic, kv_write}
use orange_sdk.Store.Wrote.{Reliable}
use orange_sdk.Store.Metadata.{upsert}
use orange_sdk.Store.Metadata.Effects.{do_set_lem}
use orange_sdk.Store.Enabled.{set_enabled, write_enabled}
use orange_sdk.Events.Types.{Event, OutPoint, terminal_payment_hash}
use orange_sdk.Events.Queue.{
  QueueBackend, EventQueue, Done, on_store, add_event, add_plain_event, push_event,
}
use orange_sdk.Events.Queue.Fifo.{
  Updates, IsRequeued, requeued, OnDisk, push_event-IsRequeued, requeued-OnDisk,
}
use orange_sdk.Ldk.{
  LdkEvent, LdkState, payment_successful, payment_failed, payment_forwarded, payment_claimable,
  splice_negotiation_failed, channel_pending, payment_received, channel_ready, channel_closed,
  splice_negotiated, on_events, unwrap, confirm, confirm_if, notify_ready, deliver, reserve_slot,
  reserve_rebalance_slot_for_funding_tx, handle_ldk_node_event,
}

-- What a step of the event queue does, seen from the handler's state.
Returns-on_events :
    {A : Type 0} (P : A → EventQueue → Type 0) (Q : A → LdkState → Type 0) (m : Run EventQueue A)
    (s : LdkState)
    → Returns P (m s.events)
    → ((a : A) (t : EventQueue) → P a t → Q a (record s { events = t }))
    → Returns Q (on_events m s)
unfolding on_events
Returns-on_events {A} P Q m s h k = go (m s.events) h
  where
    go :
        (o : Option (A × EventQueue))
        → Returns P o
        → Returns Q (elim o [ none ↦ none | some (a, t) ↦ some (a, record s { events = t }) ])
    go none e = e
    go (some (a, t)) e = k a t e

-- A call of the store keeps the queue.
Returns-on_store :
    {A : Type 0} (m : Run Store A) (s : EventQueue)
    → Returns (λ _ _. Unit) (m s.store)
    → Returns (λ _ t. t.queue ≡ s.queue) (on_store m s)
unfolding on_store
Returns-on_store {A} m s h = go (m s.store) h
  where
    go :
        (o : Option (A × Store))
        → Returns (λ _ _. Unit) o
        → Returns
            (λ _ (t : EventQueue). t.queue ≡ s.queue)
            (elim o [ none ↦ none | some (a, t) ↦ some (a, record s { store = t }) ])
    go none e = e
    go (some (a, t)) e = refl

some_inj : {A : Type 0} {a b : A} → some a ≡ some b → a ≡ b
some_inj h = cc

-- The event that the SDK makes of one that does not end an outgoing payment.
abbrev pub sdk_event : (ℕ → Option ℕ) → LdkEvent → Option Event
sdk_event skimmed_fee (payment_received (some id) hash amount custom) =
    some (Event.payment_received (self_custodial id) hash amount custom (skimmed_fee id))
sdk_event skimmed_fee (channel_ready channel_id user_channel_id (some node_id) (some txo)) = some (
    Event.channel_opened
      (record {
        channel_id = channel_id;
        user_channel_id = user_channel_id;
        counterparty_node_id = node_id;
      })
      txo)
sdk_event skimmed_fee (channel_closed channel_id user_channel_id counterparty reason) =
    some (Event.channel_closed channel_id user_channel_id counterparty reason)
sdk_event skimmed_fee (splice_negotiated channel txo) = some (Event.splice_pending channel txo)
sdk_event skimmed_fee _ = none

module _ (api : QueueBackend) (now : ℕ) (skimmed_fee : ℕ → Option ℕ) where
  -- A push that is followed by `k`.
  pushed :
      (Q : Unit {0} → LdkState → Type 0) (e : Event) (k : Done → Run LdkState (Unit {0}))
      (s : LdkState)
      → ((r : Done) (t : EventQueue)
          → Updates api (s.events.queue ++ e ∷ []) s.events r t
          → Returns Q (k r (record s { events = t })))
      → Returns Q ((on_events (push_event api e) >>= k) s)
  pushed Q e k s h =
      let Q' = λ (r : Done) (s' : LdkState). Returns Q (k r s') in
      Returns->>= Q' Q (on_events (push_event api e)) k s
        (Returns-on_events (Updates api (s.events.queue ++ e ∷ []) s.events) Q' (push_event api e) s
          (push_event-IsRequeued api e s.events) h)
        (λ r s' q. q)

  -- Where the write of the queue fails, a channel that is ready is not confirmed to ldk-node nor told
  -- to the watchers, so that ldk-node delivers it again; a payment that was received is confirmed.
  pub handle_ldk_node_event_unsaved :
      (s : LdkState) (id hash amount : ℕ) (custom : List ℕ) (channel_id user_channel_id node_id : ℕ)
      (txo : OutPoint)
      → ((q : List Event) → api.kv.write_ok (requeued api q s.events).store.writes ≡ false)
      → Returns
          (λ _ s'. s'.confirmed ≡ suc s.confirmed)
          (handle_ldk_node_event api now skimmed_fee
            (payment_received (some id) hash amount custom)
            s)
        × Returns
            (λ _ s'. (s'.confirmed ≡ s.confirmed) × (s'.channels_ready ≡ s.channels_ready))
            (handle_ldk_node_event api now skimmed_fee
              (channel_ready channel_id user_channel_id (some node_id) (some txo))
              s)
  unfolding handle_ldk_node_event unwrap confirm add_event add_plain_event terminal_payment_hash
  handle_ldk_node_event_unsaved s id hash amount custom channel_id user_channel_id node_id txo
        lost =
      (
        pushed (λ _ s'. s'.confirmed ≡ suc s.confirmed)
            (Event.payment_received (self_custodial id) hash amount custom (skimmed_fee id)) _ s
            (λ r t h. refl),
        pushed (λ _ s'. (s'.confirmed ≡ s.confirmed) × (s'.channels_ready ≡ s.channels_ready))
            (Event.channel_opened
              (record {
                channel_id = channel_id;
                user_channel_id = user_channel_id;
                counterparty_node_id = node_id;
              })
              txo)
            (notify_ready user_channel_id) s
            (λ r t h.
              rw (h.1 ∙ ap (λ b. if b then ok tt else err tt) (lost _), notify_ready) (refl, refl)),
      )

  module _ (kv_laws : KvStoreLaws api.kv) (reliable : Reliable api.kv) where
    -- The event is queued and on disk, and the event of ldk-node is confirmed.
    abbrev pub Forwards : Event → LdkState → Unit {0} → LdkState → Type 0
    Forwards e s _ s' =
        (s'.events.queue ≡ s.events.queue ++ e ∷ [])
        × OnDisk api s'.events
        × (s'.confirmed ≡ suc s.confirmed)

    saved :
        (e : Event) (k : Done → Run LdkState (Unit {0})) (s : LdkState)
        → ((t : EventQueue)
            → Returns
                (λ _ s'. (s'.events ≡ t) × (s'.confirmed ≡ suc s.confirmed))
                (k (ok tt) (record s { events = t })))
        → Returns (Forwards e s) ((on_events (push_event api e) >>= k) s)
    saved e k s h = pushed (Forwards e s) e k s (λ r t u.
        rw (u.1 ∙ ap (λ b. if b then ok tt else err tt) (reliable _))
          (go t u.0 (k (ok tt) (record s { events = t })) (h t)))
      where
        go :
            (t : EventQueue)
            → IsRequeued api (s.events.queue ++ e ∷ []) s.events t
            → (o : Option (Unit {0} × LdkState))
            → Returns (λ _ s'. (s'.events ≡ t) × (s'.confirmed ≡ suc s.confirmed)) o
            → Returns (Forwards e s) o
        go t u none x = x
        go t u (some (a, s')) x = (
          ap (λ (v : EventQueue). v.queue) x.0 ∙ u.queue_is,
          rw x.0 (requeued-OnDisk api kv_laws reliable (s.events.queue ++ e ∷ []) s.events t u),
          x.1,
        )

    -- A call of the store that comes before it.
    after_store :
        (e : Event) (m : Run Store (Unit {0})) (k : Run LdkState (Unit {0})) (s : LdkState)
        → Returns (λ _ _. Unit) (m s.events.store)
        → ((s' : LdkState) → Returns (Forwards e s') (k s'))
        → Returns (Forwards e s) ((on_events (on_store m) >> k) s)
    after_store e m k s h next =
        let Kept = λ (_ : Unit {0}) (s' : LdkState).
          (s'.events.queue ≡ s.events.queue) × (s'.confirmed ≡ s.confirmed) in
        Returns->>= Kept (Forwards e s) (on_events (on_store m)) (λ _. k) s
          (Returns-on_events (λ _ t. t.queue ≡ s.events.queue) Kept (on_store m) s
            (Returns-on_store m s.events h) (λ a t q. (q, refl)))
          (λ _ s' p. rw (← p.0, ← p.1, Forwards) (next s'))

    set_enabled-Returns :
        (v : Bool) (s : Store) → Returns (λ _ _. Unit) (set_enabled api.backend v s)
    unfolding set_enabled write_enabled write_or_panic kv_write
    set_enabled-Returns v s = rw (reliable _) tt

    reserve-Returns :
        (txid : ℕ) (s : Store)
        → Returns (λ _ _. Unit) (reserve_rebalance_slot_for_funding_tx api now txid s)
    unfolding reserve_rebalance_slot_for_funding_tx persist write_or_panic
    reserve-Returns txid s = go (lookup (self_custodial txid) s)
      where
        go :
            (o : Option TxMetadata)
            → Returns (λ _ _. Unit) (reserve_slot api now (self_custodial txid) o s)
        go (some m) = tt
        go none =
            unfold reserve_slot upsert in
            rw
              (do_set_lem api.backend reliable (self_custodial txid)
                (record { time = now; ty = pending_rebalance }) s)
              tt

    -- Where no write fails, a received payment that has an id, a ready channel whose peer and funding
    -- are known, a closed channel and a negotiated splice are each queued as the SDK's own event,
    -- behind those that wait, the queue on disk is the queue in memory, and the event is confirmed to
    -- ldk-node once.
    pub handle_ldk_node_event-Forwards :
        (ev : LdkEvent) (e : Event) (s : LdkState)
        → sdk_event skimmed_fee ev ≡ some e
        → Returns (Forwards e s) (handle_ldk_node_event api now skimmed_fee ev s)
    unfolding handle_ldk_node_event unwrap confirm confirm_if notify_ready add_event add_plain_event
        terminal_payment_hash
    handle_ldk_node_event-Forwards (payment_received (some id) hash amount custom) e s h =
        rw (← some_inj h) (saved _ _ s (λ t. (refl, refl)))
    handle_ldk_node_event-Forwards
          (channel_ready channel_id user_channel_id (some node_id) (some txo)) e s h =
        rw (← some_inj h) (saved _ (notify_ready user_channel_id) s (λ t. (refl, refl)))
    handle_ldk_node_event-Forwards (channel_closed channel_id user_channel_id counterparty reason) e
          s h =
        rw (← some_inj h) (
          after_store _ (set_enabled api.backend false) _ s
            (set_enabled-Returns false s.events.store)
            (λ s'.
              saved (Event.channel_closed channel_id user_channel_id counterparty reason) confirm_if
                s' (λ t. (refl, refl))))
    handle_ldk_node_event-Forwards (splice_negotiated channel txo) e s h = rw (← some_inj h) (
        after_store _ (reserve_rebalance_slot_for_funding_tx api now txo.txid) _ s
          (reserve-Returns txo.txid s.events.store)
          (λ s'.
            saved (Event.splice_pending channel txo) confirm_if
              (record s' { pending = deliver channel.user_channel_id txo s'.pending })
              (λ t. (refl, refl))))
    handle_ldk_node_event-Forwards (payment_received none hash amount custom) e s h = cc
    handle_ldk_node_event-Forwards (channel_ready channel_id user_channel_id none txo) e s h = cc
    handle_ldk_node_event-Forwards (channel_ready channel_id user_channel_id (some node_id) none) e
          s h =
        cc
    handle_ldk_node_event-Forwards (payment_successful _ _ _ _) e s h = cc
    handle_ldk_node_event-Forwards (payment_failed _ _ _) e s h = cc
    handle_ldk_node_event-Forwards payment_forwarded e s h = cc
    handle_ldk_node_event-Forwards payment_claimable e s h = cc
    handle_ldk_node_event-Forwards splice_negotiation_failed e s h = cc
    handle_ldk_node_event-Forwards (channel_pending _) e s h = cc
