-- ===== src/Rebalancer/Wallets.antt =====
-- The traits `TrustedWallet`, `LightningWallet`, `RebalanceTrigger` and `EventHandler`
-- (graduated-rebalancer/src/lib.rs), as the calls that the rebalancer makes and the answers that it
-- gets. An answer is a function of the calls so far, newest first, the call it answers included.
-- An answer that never comes is not modelled. An invoice is a number, of which the code asks the
-- payment hash; a user channel id is a number.
use orange_sdk.Prelude.{ℕ, Bool, Option, List}
use orange_sdk.Events.Types.{OutPoint}

pub record TriggerParams : Type 0 where
  pub id : ℕ
  pub amount : ℕ

pub record ReceivedLightningPayment : Type 0 where
  pub id : ℕ
  pub fee_paid_msat : Option ℕ

pub data RebalancerEvent : Type 0 where
  -- The trigger, the trusted payment and the amount.
  rebalance_initiated : ℕ → ℕ → ℕ → RebalancerEvent
  -- The trigger, the trusted and the lightning payment, the amount and the fee.
  rebalance_successful : ℕ → ℕ → ℕ → ℕ → ℕ → RebalancerEvent
  -- The trigger, the user channel id and the outpoint.
  onchain_rebalance_initiated : ℕ → ℕ → OutPoint → RebalancerEvent

pub data Call : Type 0 where
  needs_trusted_rebalance needs_onchain_rebalance : Call
  -- `get_bolt11_invoice(Some(amount))` of the lightning wallet.
  get_bolt11_invoice : ℕ → Call
  -- `estimate_fee` and `pay` of the trusted wallet, with the invoice and the amount.
  estimate_fee : ℕ → ℕ → Call
  pay : ℕ → ℕ → Call
  -- The lightning wallet's `await_payment_receipt` and the trusted wallet's
  -- `await_payment_success`, with the payment hash.
  await_payment_receipt : ℕ → Call
  await_payment_success : ℕ → Call
  has_channel_with_lsp splice_to_lsp_channel open_channel_with_lsp : Call
  await_splice_pending : ℕ → Call
  await_channel_pending : ℕ → Call
  handle_event : RebalancerEvent → Call

-- The answers; `none` is an error, or the `None` of a payment that is awaited.
pub record Wallets : Type 0 where
  pub payment_hash : ℕ → ℕ
  pub trusted_trigger : List Call → Option TriggerParams
  pub onchain_trigger : List Call → Option TriggerParams
  pub invoice : List Call → Option ℕ
  pub fee : List Call → Option ℕ
  pub paid : List Call → Option ℕ
  pub receipt : List Call → Option ReceivedLightningPayment
  pub success : List Call → Option ReceivedLightningPayment
  pub has_channel : List Call → Bool
  pub spliced : List Call → Option ℕ
  pub opened : List Call → Option ℕ
  pub splice_outpoint : List Call → OutPoint
  pub channel_outpoint : List Call → OutPoint
