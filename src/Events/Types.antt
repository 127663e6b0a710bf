-- ===== src/Events/Types.antt =====
-- `Event` (orange-sdk/src/event.rs). Ids, hashes, keys and the values that the code only copies
-- (failure and closure reasons, confirmation statuses, custom records) are numbers.
use orange_sdk.Prelude.{ℕ, Option, none, some, List}
use orange_sdk.Store.Types.{PaymentId}

pub record OutPoint : Type 0 where
  pub txid : ℕ
  pub vout : ℕ

pub record ChannelInfo : Type 0 where
  pub channel_id : ℕ
  pub user_channel_id : ℕ
  pub counterparty_node_id : ℕ

pub data Event : Type 0 where
  -- The payment id, the hash, the preimage and the fee in millisatoshis.
  payment_successful : PaymentId → ℕ → ℕ → Option ℕ → Event
  -- The payment id, the hash and the reason.
  payment_failed : PaymentId → Option ℕ → Option ℕ → Event
  -- The payment id, the hash, the amount, the custom records and the fee of the LSP.
  payment_received : PaymentId → ℕ → ℕ → List ℕ → Option ℕ → Event
  -- The payment id, the txid, the amount in satoshis and the confirmation status.
  onchain_payment_received : PaymentId → ℕ → ℕ → ℕ → Event
  channel_opened : ChannelInfo → OutPoint → Event
  channel_closed : ℕ → ℕ → Option ℕ → Option ℕ → Event
  -- The triggering payment, the trusted payment of the rebalance and the amount.
  rebalance_initiated : PaymentId → ℕ → ℕ → Event
  -- The triggering, the trusted and the lightning payment, the amount and the fee.
  rebalance_successful : PaymentId → ℕ → ℕ → ℕ → ℕ → Event
  splice_pending : ChannelInfo → OutPoint → Event

-- The hash of an event that ends an outgoing payment.
unfoldable pub terminal_payment_hash : Event → Option ℕ
terminal_payment_hash (payment_successful _ hash _ _) = some hash
terminal_payment_hash (payment_failed _ hash _) = hash
terminal_payment_hash _ = none
