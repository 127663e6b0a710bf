-- ===== src/Wallet/Mpp.antt =====
-- `Wallet::try_mpp_bolt11` (orange-sdk/src/lib.rs): a payment that is split across the two wallets.
-- `now` is the system's time. An error of the event queue is only logged. Where the result is `Ok`,
-- a task of its own then runs the rebalancer.
pub mod Portions
pub mod Legs
use orange_sdk.Prelude.{
  ℕ, Bool, false, ◌||◌, Option, none, some, Result, ok, err, ltb, leb, nat_beq, not, if◌then◌else◌,
}
use orange_sdk.Prelude.Run.{Run, pure, ◌>>=◌, ◌>>◌}
use orange_sdk.Platform.{AmountApi}
use orange_sdk.Store.Types.{
  PaymentId, self_custodial, trusted, TxMetadata, payment, mpp_payment, MppPayment,
  outgoing_lightning_bolt11,
}
use orange_sdk.Store.Metadata.{upsert, insert_new}
use orange_sdk.Events.Queue.{QueueBackend, EventQueue, on_store, begin_mpp_setup, finish_mpp_setup}
use orange_sdk.Wallet.Receive.{
  NodeError, WalletError, ldk_node_failure, trusted_failure, invalid_invoice, invalid_amount,
  insufficient_funds,
}

-- The invoice, and what the two wallets answer to a payment of a part of it. An error of the trusted
-- wallet is a number.
pub record MppWallets : Type 0 where
  pub amount_milli_satoshis : Option ℕ
  pub payment_hash : ℕ
  pub pay_partial : ℕ → Result ℕ ℕ
  pub pay_bolt11_underpaying : ℕ → Result ℕ NodeError

-- `LightningWallet::estimate_fee`
abbrev pub ln_estimate_fee : ℕ
ln_estimate_fee = 0

split_rest : AmountApi → ℕ → ℕ → ℕ → Result ℕ NodeError
split_rest api amount trusted_portion ln_lightning_balance =
    let ln_portion = api.saturating_sub amount trusted_portion in
    if ltb ln_lightning_balance (api.saturating_add ln_estimate_fee ln_portion)
    then err insufficient_funds
    else ok ln_portion

-- The part of the lightning wallet, or why there is nothing to split.
unfoldable pub ln_portion_of : AmountApi → Option ℕ → ℕ → ℕ → ℕ → Result ℕ NodeError
unfolding split_rest
ln_portion_of api none amount trusted_balance ln_lightning_balance = err invalid_invoice
ln_portion_of api (some invoice_amount) amount trusted_balance ln_lightning_balance =
    if not (nat_beq invoice_amount amount)
    then err invalid_amount
    else if nat_beq trusted_balance 0 || leb amount trusted_balance
    then err insufficient_funds
    else split_rest api amount trusted_balance ln_lightning_balance

abbrev pub legs_of : ℕ → ℕ → ℕ → MppPayment
legs_of trusted_id ln_id amount = record {
  surface_id = trusted trusted_id;
  lightning_leg = ln_id;
  total_amount_msat = amount;
  ty = outgoing_lightning_bolt11 none;
  trusted_fee_msat = none;
  lightning_fee_msat = none;
  preimage = none;
  failed = false;
  finalized = false;
}

abbrev pub mpp_metadata : ℕ → ℕ → ℕ → ℕ → TxMetadata
mpp_metadata now trusted_id ln_id amount = record {
  time = now;
  ty = mpp_payment (legs_of trusted_id ln_id amount);
}

abbrev pub lone_metadata : ℕ → TxMetadata
lone_metadata now = record { time = now; ty = payment (outgoing_lightning_bolt11 none) }

-- The lightning part was sent, or the trusted part is a plain payment whose failure will surface.
after_lightning :
    QueueBackend
    → MppWallets
    → ℕ
    → ℕ
    → ℕ
    → Result ℕ NodeError
    → Run EventQueue (Result PaymentId WalletError)
after_lightning api w now amount trusted_id (err e) = do
  on_store (insert_new api.backend (trusted trusted_id) (lone_metadata now))
  finish_mpp_setup api w.payment_hash
  pure (err (ldk_node_failure e))
after_lightning api w now amount trusted_id (ok ln_id) = do
  on_store (insert_new api.backend (trusted trusted_id) (mpp_metadata now trusted_id ln_id amount))
  on_store (upsert api.backend (self_custodial ln_id) (mpp_metadata now trusted_id ln_id amount))
  finish_mpp_setup api w.payment_hash
  pure (ok (trusted trusted_id))

after_trusted :
    QueueBackend
    → MppWallets
    → ℕ
    → ℕ
    → ℕ
    → Result ℕ ℕ
    → Run EventQueue (Result PaymentId WalletError)
unfolding after_lightning
after_trusted api w now amount ln_portion (err e) = do
  finish_mpp_setup api w.payment_hash
  pure (err (trusted_failure e))
after_trusted api w now amount ln_portion (ok trusted_id) =
    after_lightning api w now amount trusted_id (w.pay_bolt11_underpaying ln_portion)

send_split :
    QueueBackend
    → MppWallets
    → ℕ
    → ℕ
    → ℕ
    → Result ℕ NodeError
    → Run EventQueue (Result PaymentId WalletError)
unfolding after_trusted
send_split api w now amount trusted_portion (err e) = pure (err (ldk_node_failure e))
send_split api w now amount trusted_portion (ok ln_portion) = do
  begin_mpp_setup w.payment_hash
  after_trusted api w now amount ln_portion (w.pay_partial trusted_portion)

unfoldable pub try_mpp_bolt11 :
    QueueBackend
    → AmountApi
    → MppWallets
    → ℕ
    → ℕ
    → ℕ
    → ℕ
    → Run EventQueue (Result PaymentId WalletError)
unfolding send_split
try_mpp_bolt11 api amounts w now amount trusted_balance ln_lightning_balance =
    send_split api w now amount trusted_balance
      (ln_portion_of amounts w.amount_milli_satoshis amount trusted_balance ln_lightning_balance)
