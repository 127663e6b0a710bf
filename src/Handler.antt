-- ===== src/Handler.antt =====
-- `OrangeRebalanceEventHandler` (orange-sdk/src/rebalancer.rs): what the wallet records of a
-- rebalance. `now` is the system's time, and an error of the event queue is only logged.
pub mod Transfers
use orange_sdk.Prelude.{ℕ, Option, none, some, Result, ok, err}
use orange_sdk.Prelude.Run.{Run, pure, panic, ◌>>=◌, ◌>>◌}
use orange_sdk.Store.Types.{
  PaymentId, self_custodial, trusted, TxMetadata, TxType, pending_rebalance, trusted_to_lightning,
  onchain_to_lightning,
}
use orange_sdk.Store.Metadata.{
  upsert, insert_new, set_tx_caused_rebalance, set_tx_caused_rebalance_with_splice,
}
use orange_sdk.Events.Types.{Event, OutPoint}
use orange_sdk.Events.Queue.{QueueBackend, EventQueue, add_event, on_store}
use orange_sdk.Rebalancer.Wallets.{
  RebalancerEvent, rebalance_initiated, rebalance_successful, onchain_rebalance_initiated,
}

-- `.expect("Failed to write metadata ..")`
unfoldable pub expect_marked : Result (Unit {0}) (Unit {0}) → Run EventQueue (Unit {0})
expect_marked (ok _) = pure tt
expect_marked (err _) = panic

abbrev pub transfer_metadata : ℕ → ℕ → ℕ → ℕ → TxMetadata
transfer_metadata now id ln trigger = record {
  time = now;
  ty = trusted_to_lightning id ln (trusted trigger);
}

unfoldable pub handle_initiated : QueueBackend → ℕ → ℕ → ℕ → ℕ → Run EventQueue (Option Event)
handle_initiated api now trigger id amount = do
  on_store (insert_new api.backend (trusted id) (record { time = now; ty = pending_rebalance }))
  add_event api (Event.rebalance_initiated (trusted trigger) id amount)
  pure none

-- The event is added by a task of its own.
unfoldable pub handle_successful :
    QueueBackend → ℕ → ℕ → ℕ → ℕ → ℕ → ℕ → Run EventQueue (Option Event)
unfolding expect_marked
handle_successful api now trigger id ln amount fee = do
  marked ← on_store (set_tx_caused_rebalance api.backend (trusted trigger))
  expect_marked marked
  on_store (upsert api.backend (trusted id) (transfer_metadata now id ln trigger))
  on_store (insert_new api.backend (self_custodial ln) (transfer_metadata now id ln trigger))
  pure (some (Event.rebalance_successful (trusted trigger) id ln amount fee))

unfoldable pub handle_onchain : QueueBackend → ℕ → ℕ → OutPoint → Run EventQueue (Option Event)
unfolding expect_marked
handle_onchain api now trigger channel_outpoint = do
  marked ← on_store (
      set_tx_caused_rebalance_with_splice api.backend (self_custodial trigger)
        (self_custodial channel_outpoint.txid)
        (record { time = now; ty = onchain_to_lightning channel_outpoint.txid trigger }))
  expect_marked marked
  pure none

-- The result is the event that the spawned task adds.
unfoldable pub handle_event : QueueBackend → ℕ → RebalancerEvent → Run EventQueue (Option Event)
handle_event api now (rebalance_initiated trigger id amount) =
    handle_initiated api now trigger id amount
handle_event api now (rebalance_successful trigger id ln amount fee) =
    handle_successful api now trigger id ln amount fee
handle_event api now (onchain_rebalance_initiated trigger user_channel_id channel_outpoint) =
    handle_onchain api now trigger channel_outpoint
