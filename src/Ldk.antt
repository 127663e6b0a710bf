-- ===== src/Ldk.antt =====
-- `LdkEventHandler` (orange-sdk/src/event.rs) and `SplicePendingInbox`
-- (orange-sdk/src/lightning_wallet.rs): what the SDK does with an event of ldk-node. `now` is the
-- system's time, `skimmed_fee` the fee that ldk-node reports for a BOLT 11 payment.
pub mod Forwarding
pub mod Inbox
use orange_sdk.Prelude.{ℕ, suc, false, Option, none, some, List, [], ◌∷◌, ◌++◌, Result, ok, err}
use orange_sdk.Prelude.{nat_eq}
use orange_sdk.Prelude.Assoc.{HashMap, get, insert, remove}
use orange_sdk.Prelude.Run.{Run, pure, panic, modify, ◌>>=◌, ◌>>◌}
use orange_sdk.Store.Types.{PaymentId, self_custodial, TxMetadata, pending_rebalance}
use orange_sdk.Store.World.{Store, lookup}
use orange_sdk.Store.Metadata.{upsert, set_preimage}
use orange_sdk.Store.Enabled.{set_enabled}
use orange_sdk.Events.Types.{Event, OutPoint, ChannelInfo}
use orange_sdk.Events.Queue.{QueueBackend, EventQueue, Done, add_event, on_store}

pub data LdkEvent : Type 0 where
  -- The payment id, the hash, the preimage and the fee.
  payment_successful : Option ℕ → ℕ → Option ℕ → Option ℕ → LdkEvent
  payment_failed : Option ℕ → Option ℕ → Option ℕ → LdkEvent
  -- The payment id, the hash, the amount and the custom records.
  payment_received : Option ℕ → ℕ → ℕ → List ℕ → LdkEvent
  payment_forwarded payment_claimable splice_negotiation_failed : LdkEvent
  channel_pending : OutPoint → LdkEvent
  -- The channel, the user channel id, the counterparty and the funding outpoint.
  channel_ready : ℕ → ℕ → Option ℕ → Option OutPoint → LdkEvent
  channel_closed : ℕ → ℕ → Option ℕ → Option ℕ → LdkEvent
  splice_negotiated : ChannelInfo → OutPoint → LdkEvent

pub record LdkState : Type 0 where
  pub events : EventQueue
  -- The outpoints that wait in the inbox, by user channel id.
  pub pending : HashMap ℕ (List OutPoint)
  -- What was sent to the watchers, newest first.
  pub receipts : ℕ
  pub channels_ready : List ℕ
  -- How many events were confirmed to ldk-node.
  pub confirmed : ℕ

abbrev outpoints : Option (List OutPoint) → List OutPoint
outpoints none = []
outpoints (some txos) = txos

unfoldable pub deliver : ℕ → OutPoint → HashMap ℕ (List OutPoint) → HashMap ℕ (List OutPoint)
deliver channel_id funding_txo pending =
    insert channel_id (outpoints (get channel_id pending) ++ funding_txo ∷ []) pending

-- One pass of the loop of `wait_for`: what it takes, and the inbox after it.
take_from :
    ℕ
    → HashMap ℕ (List OutPoint)
    → Option (List OutPoint)
    → Option OutPoint × HashMap ℕ (List OutPoint)
take_from channel_id pending none = (none, pending)
take_from channel_id pending (some []) = (none, remove channel_id pending)
take_from channel_id pending (some (txo ∷ [])) = (some txo, remove channel_id pending)
take_from channel_id pending (some (txo ∷ rest)) = (some txo, insert channel_id rest pending)

unfoldable pub take_pending :
    ℕ → HashMap ℕ (List OutPoint) → Option OutPoint × HashMap ℕ (List OutPoint)
unfolding take_from
take_pending channel_id pending = take_from channel_id pending (get channel_id pending)

unfoldable pub on_events : {A : Type 0} → Run EventQueue A → Run LdkState A
on_events m s = elim (m s.events) [ none ↦ none | some (a, t) ↦ some (a, record s { events = t }) ]

-- `unwrap` and `expect`.
unfoldable pub unwrap : {A : Type 0} → Option A → Run LdkState A
unwrap none = panic
unwrap (some a) = pure a

-- `ldk_node.event_handled()`, whose error is only logged.
unfoldable pub confirm : Run LdkState (Unit {0})
confirm = modify (λ s. record s { confirmed = suc s.confirmed })

-- After an error of the queue the handler returns, and ldk-node delivers the event again.
unfoldable pub confirm_if : Done → Run LdkState (Unit {0})
unfolding confirm
confirm_if (err _) = pure tt
confirm_if (ok _) = confirm

reserve_slot : QueueBackend → ℕ → PaymentId → Option TxMetadata → Run Store (Unit {0})
reserve_slot api now id (some m) = pure tt
reserve_slot api now id none = upsert api.backend id (record { time = now; ty = pending_rebalance })

unfoldable pub reserve_rebalance_slot_for_funding_tx : QueueBackend → ℕ → ℕ → Run Store (Unit {0})
unfolding reserve_slot
reserve_rebalance_slot_for_funding_tx api now txid s =
    reserve_slot api now (self_custodial txid) (lookup (self_custodial txid) s) s

-- The branch of a channel that is ready: its watchers are told only if the event was queued.
notify_ready : ℕ → Done → Run LdkState (Unit {0})
unfolding confirm
notify_ready user_channel_id (err _) = pure tt
notify_ready user_channel_id (ok _) = do
  modify (λ s. record s { channels_ready = user_channel_id ∷ s.channels_ready })
  confirm

unfoldable pub handle_ldk_node_event :
    QueueBackend → ℕ → (ℕ → Option ℕ) → LdkEvent → Run LdkState (Unit {0})
unfolding unwrap confirm confirm_if notify_ready
handle_ldk_node_event api now skimmed_fee (payment_successful payment_id hash preimage fee) = do
  p ← unwrap preimage
  id ← unwrap payment_id
  set ← on_events (on_store (set_preimage api.backend (self_custodial id) p))
  done ← on_events (add_event api (Event.payment_successful (self_custodial id) hash p fee))
  confirm_if done
handle_ldk_node_event api now skimmed_fee (payment_failed payment_id hash reason) = do
  id ← unwrap payment_id
  done ← on_events (add_event api (Event.payment_failed (self_custodial id) hash reason))
  confirm_if done
handle_ldk_node_event api now skimmed_fee (payment_received payment_id hash amount custom) = do
  id ← unwrap payment_id
  done ← on_events (
      add_event api
        (Event.payment_received (self_custodial id) hash amount custom (skimmed_fee id)))
  modify (λ s. record s { receipts = suc s.receipts })
  confirm
handle_ldk_node_event api now skimmed_fee (channel_pending funding_txo) = do
  on_events (on_store (reserve_rebalance_slot_for_funding_tx api now funding_txo.txid))
  confirm
handle_ldk_node_event api now skimmed_fee
      (channel_ready channel_id user_channel_id counterparty txo) =
    do
      funding_txo ← unwrap txo
      node_id ← unwrap counterparty
      done ← on_events (
          add_event api (
            Event.channel_opened
              (record {
                channel_id = channel_id;
                user_channel_id = user_channel_id;
                counterparty_node_id = node_id;
              })
              funding_txo))
      notify_ready user_channel_id done
handle_ldk_node_event api now skimmed_fee
      (channel_closed channel_id user_channel_id counterparty reason) =
    do
      on_events (on_store (set_enabled api.backend false))
      done ←
          on_events
            (add_event api (Event.channel_closed channel_id user_channel_id counterparty reason))
      confirm_if done
handle_ldk_node_event api now skimmed_fee (splice_negotiated channel funding_txo) = do
  on_events (on_store (reserve_rebalance_slot_for_funding_tx api now funding_txo.txid))
  modify (λ s. record s { pending = deliver channel.user_channel_id funding_txo s.pending })
  done ← on_events (add_event api (Event.splice_pending channel funding_txo))
  confirm_if done
handle_ldk_node_event api now skimmed_fee _ = confirm
