-- ===== src/Wallet/Pay.antt =====
-- `Wallet::pay` (orange-sdk/src/lib.rs): the wallets are tried in turn. The state is the event queue,
-- whose store holds the metadata, and the payments that were tried, newest first. An answer of a
-- wallet is a function of the payments tried so far; `now` is the system's time.
pub mod Attempts
pub mod Order
use orange_sdk.Prelude.{
  ℕ, Bool, true, false, Option, none, some, List, [], ◌∷◌, Result, ok, err, leb, if◌then◌else◌,
  unwrap_or,
}
use orange_sdk.Prelude.Run.{Run, pure, ◌>>=◌, ◌>>◌}
use orange_sdk.Platform.{AmountApi}
use orange_sdk.Store.Types.{
  PaymentId, self_custodial, trusted, TxMetadata, PaymentType, payment, outgoing_lightning_bolt11,
  outgoing_lightning_bolt12, outgoing_on_chain,
}
use orange_sdk.Store.World.{Store}
use orange_sdk.Store.Metadata.{upsert, insert_new}
use orange_sdk.Events.Queue.{QueueBackend, EventQueue, on_store}
use orange_sdk.Wallet.Receive.{
  NodeError, WalletError, ldk_node_failure, trusted_failure, insufficient_funds, invalid_uri,
}
use orange_sdk.Wallet.Mpp.{MppWallets, ln_estimate_fee, try_mpp_bolt11}

-- `PaymentMethod`; an invoice, an offer and an address are numbers.
pub data PaymentMethod : Type 0 where
  lightning_bolt11 lightning_bolt12 on_chain : ℕ → PaymentMethod

-- A payment that was tried, with its amount.
pub data Attempt : Type 0 where
  by_trusted by_lightning : PaymentMethod → ℕ → Attempt
  by_both : ℕ → ℕ → Attempt

pub record PayWallets : Type 0 where
  pub trusted_fee : PaymentMethod → ℕ → Result ℕ ℕ
  pub trusted_pay : List Attempt → Result ℕ ℕ
  pub ln_pay : List Attempt → Result ℕ NodeError
  pub supports_partial_payments : Bool
  pub mpp : ℕ → List Attempt → MppWallets

-- The balances, which are read once, and the amount of the payment.
pub record Funds : Type 0 where
  pub trusted_balance : ℕ
  pub lightning : ℕ
  pub onchain : ℕ
  pub amount : ℕ

pub record PayState : Type 0 where
  pub events : EventQueue
  pub attempts : List Attempt
  pub last_trusted_err : Option WalletError
  pub last_lightning_err : Option WalletError
  pub last_mpp_err : Option WalletError

-- Nothing has been tried.
abbrev pub unpaid : EventQueue → PayState
unpaid events = record {
  events = events;
  attempts = [];
  last_trusted_err = none;
  last_lightning_err = none;
  last_mpp_err = none;
}

abbrev Paying : Type 0
Paying = Run PayState (Option PaymentId)

unfoldable pub on_metadata : {A : Type 0} → Run Store A → Run PayState A
on_metadata m s = elim (on_store m s.events) [
  | none ↦ none
  | some (a, t) ↦ some (a, record s { events = t })
]

unfoldable pub plain_metadata : ℕ → PaymentType → TxMetadata
plain_metadata now ty = record { time = now; ty = payment ty }

after_trusted_pay : QueueBackend → ℕ → PaymentType → Result ℕ ℕ → Paying
unfolding on_metadata
after_trusted_pay api now ty (ok id) s =
    (do
      on_metadata (insert_new api.backend (trusted id) (plain_metadata now ty))
      pure (some (trusted id)))
      s
after_trusted_pay api now ty (err e) s =
    some (none, record s { last_trusted_err = some (trusted_failure e) })

send_trusted : QueueBackend → PayWallets → Funds → ℕ → PaymentMethod → PaymentType → Paying
unfolding after_trusted_pay
send_trusted api w f now method ty s =
    let tried = by_trusted method f.amount ∷ s.attempts in
    after_trusted_pay api now ty (w.trusted_pay tried) (record s { attempts = tried })

-- A fee that cannot be estimated counts as zero.
abbrev pub fee_or_zero : Result ℕ ℕ → ℕ
fee_or_zero (ok fee) = fee
fee_or_zero (err _) = 0

unfoldable pub pay_trusted :
    QueueBackend → AmountApi → PayWallets → Funds → ℕ → PaymentMethod → PaymentType → Paying
unfolding send_trusted
pay_trusted api amounts w f now method ty s =
    if leb f.amount f.trusted_balance
    then if leb (amounts.saturating_add (fee_or_zero (w.trusted_fee method f.amount)) f.amount)
        f.trusted_balance
      then send_trusted api w f now method ty s
      else some (none, s)
    else some (none, s)

after_ln_pay : QueueBackend → ℕ → PaymentType → Result ℕ NodeError → Paying
unfolding on_metadata
after_ln_pay api now ty (ok id) s =
    (do
      on_metadata (upsert api.backend (self_custodial id) (plain_metadata now ty))
      pure (some (self_custodial id)))
      s
after_ln_pay api now ty (err e) s =
    some (none, record s { last_lightning_err = some (ldk_node_failure e) })

send_lightning : QueueBackend → PayWallets → Funds → ℕ → PaymentMethod → PaymentType → Paying
unfolding after_ln_pay
send_lightning api w f now method ty s =
    let tried = by_lightning method f.amount ∷ s.attempts in
    after_ln_pay api now ty (w.ln_pay tried) (record s { attempts = tried })

-- On-chain, the larger of the two balances counts, since the lightning one can be spliced out.
abbrev pub balance_for : Funds → PaymentType → ℕ
balance_for f (outgoing_on_chain _) = if leb f.onchain f.lightning then f.lightning else f.onchain
balance_for f _ = f.lightning

-- Where the result is a payment, a task of its own then runs the rebalancer.
unfoldable pub pay_lightning :
    QueueBackend → AmountApi → PayWallets → Funds → ℕ → PaymentMethod → PaymentType → Paying
unfolding send_lightning
pay_lightning api amounts w f now method ty s =
    if leb f.amount (balance_for f ty)
    then if leb (amounts.saturating_add ln_estimate_fee f.amount) (balance_for f ty)
      then send_lightning api w f now method ty s
      else some (none, s)
    else some (none, s)

or_else : Option PaymentId → Paying → Paying
or_else (some id) rest = pure (some id)
or_else none rest = rest

-- A loop over the methods, which the first payment leaves.
unfoldable pub first_paid : (PaymentMethod → Paying) → List PaymentMethod → Paying
unfolding or_else
first_paid f [] = pure none
first_paid f (m ∷ ms) = do r ← f m; or_else r (first_paid f ms)

over_lightning : (PaymentMethod → PaymentType → Paying) → PaymentMethod → Paying
over_lightning f (lightning_bolt11 inv) = f (lightning_bolt11 inv) (outgoing_lightning_bolt11 none)
over_lightning f (lightning_bolt12 offer) =
    f (lightning_bolt12 offer) (outgoing_lightning_bolt12 none)
over_lightning f (on_chain a) = pure none

over_chain : (PaymentMethod → PaymentType → Paying) → PaymentMethod → Paying
over_chain f (on_chain a) = f (on_chain a) (outgoing_on_chain none)
over_chain f _ = pure none

after_split : Result PaymentId WalletError → Paying
after_split (ok id) s = some (some id, s)
after_split (err e) s = some (none, record s { last_mpp_err = some e })

send_both : QueueBackend → AmountApi → PayWallets → Funds → ℕ → ℕ → Paying
unfolding after_split
send_both api amounts w f now invoice s =
    let tried = by_both invoice f.amount ∷ s.attempts in
    elim (try_mpp_bolt11 api amounts (w.mpp invoice tried) now f.amount f.trusted_balance
      f.lightning s.events) [
        | none ↦ none
        | some (r, t) ↦ after_split r (record s { events = t; attempts = tried })
      ]

split_over : QueueBackend → AmountApi → PayWallets → Funds → ℕ → PaymentMethod → Paying
unfolding send_both
split_over api amounts w f now (lightning_bolt11 inv) = send_both api amounts w f now inv
split_over api amounts w f now _ = pure none

pay_split : QueueBackend → AmountApi → PayWallets → Funds → ℕ → List PaymentMethod → Bool → Paying
unfolding split_over
pay_split api amounts w f now methods true = first_paid (split_over api amounts w f now) methods
pay_split api amounts w f now methods false = pure none

-- The five rounds, each only if those before it paid nothing.
unfoldable pub pay_methods :
    QueueBackend → AmountApi → PayWallets → Funds → ℕ → List PaymentMethod → Paying
unfolding over_lightning over_chain pay_split or_else
pay_methods api amounts w f now methods = do
  r₁ ← first_paid (over_lightning (pay_trusted api amounts w f now)) methods
  or_else r₁ (do
    r₂ ← first_paid (over_lightning (pay_lightning api amounts w f now)) methods
    or_else r₂ (do
      r₃ ← pay_split api amounts w f now methods w.supports_partial_payments
      or_else r₃ (do
        r₄ ← first_paid (over_chain (pay_trusted api amounts w f now)) methods
        or_else r₄ (first_paid (over_chain (pay_lightning api amounts w f now)) methods))))

abbrev pub or_err : Option WalletError → Option WalletError → Option WalletError
or_err (some e) other = some e
or_err none other = other

abbrev pub last_err : PayState → WalletError
last_err s =
    unwrap_or (or_err s.last_lightning_err (or_err s.last_mpp_err s.last_trusted_err))
      (ldk_node_failure insufficient_funds)

abbrev paid_or_err : Option PaymentId → PayState → Result PaymentId WalletError
paid_or_err (some id) s = ok id
paid_or_err none s = err (last_err s)

-- The funds, or the error of reading the trusted balance; and the methods of the instructions, or
-- `none` where setting a configurable amount fails.
unfoldable pub pay :
    QueueBackend
    → AmountApi
    → PayWallets
    → Result Funds ℕ
    → ℕ
    → Option (List PaymentMethod)
    → Run PayState (Result PaymentId WalletError)
pay api amounts w (err e) now methods s = some (err (trusted_failure e), s)
pay api amounts w (ok f) now none s = some (err (ldk_node_failure invalid_uri), s)
pay api amounts w (ok f) now (some methods) s = elim (pay_methods api amounts w f now methods s) [
  | none ↦ none
  | some (r, t) ↦ some (paid_or_err r t, t)
]
