-- ===== src/Examples/NodeRuns.antt =====
-- The handlers of the rebalancer's and of ldk-node's events at concrete inputs.
use orange_sdk.Prelude.{ℕ, ◌≡◌, ◌↔◌, refl, arith, inl, ◌⊎◌, false, none, some, [], ◌∷◌, ◌++◌}
use orange_sdk.Prelude.Run.{Returns, ◌>>◌}
use orange_sdk.Prelude.Assoc.{get, insert}
use orange_sdk.Store.Types.{trusted, self_custodial, outgoing_lightning_bolt11, id_beq}
use orange_sdk.Events.Types.{Event, OutPoint, channel_closed}
use orange_sdk.Events.Queue.{QueueBackend, EventQueue}
use orange_sdk.Rebalancer.Wallets.{
  rebalance_initiated, rebalance_successful, onchain_rebalance_initiated,
}
use orange_sdk.Handler.{handle_event}
use orange_sdk.Handler.Transfers.{
  IsTransferred, IsTaken, IsUnmarkable, handle_event-IsTransferred, handle_event_panics,
}
use orange_sdk.Ldk.{LdkState, handle_ldk_node_event, deliver, take_pending}
use orange_sdk.Ldk as Ldk
use orange_sdk.Ldk.Inbox.{waiting, Takes, wait_for-deliver}
use orange_sdk.Ldk.Forwarding.{
  Forwards, handle_ldk_node_event-Forwards, handle_ldk_node_event_unsaved,
}
use orange_sdk.Examples.Fixtures.{memory_backend, memory_kv, memory_laws, memory_reliable}
use orange_sdk.Examples.StoreRuns.{sent, one_payment}
use orange_sdk.Examples.QueueRuns.{queue_backend, one_event}

abbrev idle : EventQueue
idle = record one_event { store = one_payment }

handle_event_example :
    Returns
      (λ r s'.
        (r ≡ some (Event.rebalance_successful (trusted 1) 3 8 100000 1500))
        × IsTransferred 1 3 8 sent (outgoing_lightning_bolt11 none) 20 s'.store)
      ((handle_event queue_backend 10 (rebalance_initiated 1 3 100000)
          >> handle_event queue_backend 20 (rebalance_successful 1 3 8 100000 1500))
        idle)
handle_event_example =
    handle_event-IsTransferred queue_backend memory_reliable 10 20 1 3 8 100000 1500 sent
      (outgoing_lightning_bolt11 none) idle (unfold get insert id_beq in refl) refl
      (λ e. omega (arith, e)) (inl (unfold get insert id_beq in refl))
      (inl (unfold get insert id_beq in refl))

handle_event_panics_example :
    ((id ln amount fee : ℕ)
      → (handle_event queue_backend 20 (rebalance_successful 2 id ln amount fee) idle ≡ none) ↔ (
          IsUnmarkable (trusted 2) one_payment
          ⊎ IsTaken memory_backend (self_custodial ln) one_payment))
    × ((channel : ℕ) (o : OutPoint)
        → (handle_event queue_backend 20 (onchain_rebalance_initiated 2 channel o) idle ≡ none)
          ↔ IsUnmarkable (self_custodial 2) one_payment)
handle_event_panics_example = handle_event_panics queue_backend memory_reliable 20 2 idle

abbrev first : OutPoint
first = record { txid = 170; vout = 0 }

abbrev second : OutPoint
second = record { txid = 187; vout = 1 }

wait_for-deliver_example :
    (waiting 7 (deliver 7 second ((7, first ∷ []) ∷ []))
      ≡ waiting 7 ((7, first ∷ []) ∷ []) ++ second ∷ [])
    × (waiting 8 (deliver 7 second ((7, first ∷ []) ∷ [])) ≡ waiting 8 ((7, first ∷ []) ∷ []))
    × Takes 7 ((7, first ∷ []) ∷ []) (waiting 7 ((7, first ∷ []) ∷ []))
    × (waiting 8 (take_pending 7 ((7, first ∷ []) ∷ [])).1 ≡ waiting 8 ((7, first ∷ []) ∷ []))
wait_for-deliver_example =
    wait_for-deliver 7 second ((7, first ∷ []) ∷ []) 8 (λ e. omega (arith, e))

abbrev node : LdkState
node = record { events = idle; pending = []; receipts = 0; channels_ready = []; confirmed = 4 }

handle_ldk_node_event-Forwards_example :
    Returns
      (Forwards queue_backend 10
        (λ id. none)
        memory_laws
        memory_reliable
        (channel_closed 1 7 none none)
        node)
      (handle_ldk_node_event queue_backend 10 (λ id. none) (Ldk.channel_closed 1 7 none none) node)
handle_ldk_node_event-Forwards_example =
    handle_ldk_node_event-Forwards queue_backend 10 (λ id. none) memory_laws memory_reliable
      (Ldk.channel_closed 1 7 none none) (channel_closed 1 7 none none) node refl

-- A store whose writes all fail.
abbrev full_disk : QueueBackend
full_disk = record queue_backend {
  backend = record memory_backend { kv = record memory_kv { write_ok = λ h. false } };
}

handle_ldk_node_event_unsaved_example :
    Returns
      (λ _ s'. s'.confirmed ≡ 5)
      (handle_ldk_node_event full_disk 10 (λ id. none) (Ldk.payment_received (some 1) 2 3 []) node)
    × Returns
        (λ _ s'. (s'.confirmed ≡ 4) × (s'.channels_ready ≡ []))
        (handle_ldk_node_event full_disk 10
          (λ id. none)
          (Ldk.channel_ready 1 7 (some 5) (some first))
          node)
handle_ldk_node_event_unsaved_example =
    handle_ldk_node_event_unsaved full_disk 10 (λ id. none) node 1 2 3 [] 1 7 5 first (λ q. refl)
