-- ===== src/Trigger.antt =====
-- `OrangeTrigger` (orange-sdk/src/rebalancer.rs): when the wallet moves its trusted balance to
-- lightning, how much, and which payment is named as the cause.
pub mod Amounts
pub mod Nameable
pub mod Onchain
pub mod Victim
use orange_sdk.Prelude.{
  ℕ, Bool, true, false, ◌&&◌, ◌||◌, Option, none, some, List, [], ◌∷◌, ◌++◌, ltb, leb, nat_beq, min,
  if◌then◌else◌, is_some,
}
use orange_sdk.Prelude.Run.{Run, pure, ◌>>=◌, ◌>>◌}
use orange_sdk.Platform.{AmountApi}
use orange_sdk.Store.Types.{
  TxStatus, is_completed, TxMetadata, trusted, payment, is_payment, incoming_lightning,
}
use orange_sdk.Store.World.{Backend, Store, lookup}
use orange_sdk.Store.Metadata.{insert_new}
use orange_sdk.Store.Enabled.{get_enabled}
use orange_sdk.Rebalancer.Wallets.{TriggerParams}

-- `Payment` of the trusted wallets (orange-sdk/src/trusted_wallet/mod.rs).
pub record Payment : Type 0 where
  pub id : ℕ
  pub amount : ℕ
  pub fee : ℕ
  pub status : TxStatus
  pub outbound : Bool
  pub time_since_epoch : ℕ

pub record Tunables : Type 0 where
  pub trusted_balance_limit : ℕ
  pub rebalance_min : ℕ
  pub onchain_receive_threshold : ℕ
  pub enable_amountless_receive_on_chain : Bool

-- The payments that are new, with their amounts, and the latest known one, with its time.
pub record Seen : Type 0 where
  pub new_txn : List (ℕ × ℕ)
  pub latest_tx : Option (ℕ × ℕ)

abbrev is_later : ℕ → Option (ℕ × ℕ) → Bool
is_later time none = true
is_later time (some (t, id)) = ltb t time

-- A payment that has an entry: only a plain payment can be named as the cause.
see_known : Payment → TxMetadata → Seen → Seen
see_known p m seen =
    if is_payment m.ty && is_later m.time seen.latest_tx
    then record seen { latest_tx = some (m.time, p.id) }
    else seen

abbrev received_metadata : Payment → TxMetadata
received_metadata p = record { time = p.time_since_epoch; ty = payment incoming_lightning }

-- A settled receipt with no entry is recorded.
see_received : Backend → Payment → Seen → Option TxMetadata → Run Store Seen
unfolding see_known
see_received api p seen (some m) s = some (see_known p m seen, s)
see_received api p seen none s =
    (do
      insert_new api (trusted p.id) (received_metadata p)
      pure (record seen { new_txn = seen.new_txn ++ (p.amount, p.id) ∷ [] }))
      s

-- The body of the loop: outbound payments and unsettled receipts are passed over.
see_payment : Backend → Payment → Seen → Run Store Seen
unfolding see_received
see_payment api p seen s =
    if p.outbound
    then some (seen, s)
    else if is_completed p.status
    then see_received api p seen (lookup (trusted p.id) s) s
    else some (seen, s)

pub see_payments : Backend → List Payment → Seen → Run Store Seen
see_payments api [] seen = pure seen
see_payments api (p ∷ ps) seen = see_payment api p seen >>= see_payments api ps

-- How much is moved. The lightning balance is taken to be an overestimate by `rebalance_min`.
unfoldable pub transfer_amount : AmountApi → Tunables → ℕ → ℕ → ℕ
transfer_amount api tunables receivable trusted_bal =
    let lightning_receivable = api.saturating_sub receivable tunables.rebalance_min in
    let transfer_amt = min lightning_receivable trusted_bal in
    if ltb tunables.trusted_balance_limit (api.saturating_sub trusted_bal transfer_amt)
    then trusted_bal
    else transfer_amt

-- `Ord` on pairs, `sort_unstable` and `first`.
abbrev pub leb_pair : ℕ × ℕ → ℕ × ℕ → Bool
leb_pair (a, i) (b, j) = ltb a b || (nat_beq a b && leb i j)

insert_sorted : ℕ × ℕ → List (ℕ × ℕ) → List (ℕ × ℕ)
insert_sorted x [] = x ∷ []
insert_sorted x (y ∷ ys) = if leb_pair x y then x ∷ y ∷ ys else y ∷ insert_sorted x ys

pub sort_unstable : List (ℕ × ℕ) → List (ℕ × ℕ)
unfolding insert_sorted
sort_unstable [] = []
sort_unstable (x ∷ xs) = insert_sorted x (sort_unstable xs)

abbrev first_or : List (ℕ × ℕ) → Option (ℕ × ℕ) → Option ℕ
first_or ((amount, id) ∷ _) latest = some id
first_or [] none = none
first_or [] (some (time, id)) = some id

-- The smallest new payment, or else the latest known one.
victim_id : Seen → Option ℕ
unfolding sort_unstable
victim_id seen = first_or (sort_unstable seen.new_txn) seen.latest_tx

abbrev trigger_params : ℕ → Option ℕ → Option TriggerParams
trigger_params amount none = none
trigger_params amount (some id) = some (record { id = id; amount = amount })

pub decide_trigger : AmountApi → Tunables → ℕ → Option ℕ → Seen → Option TriggerParams
unfolding transfer_amount victim_id
decide_trigger api tunables receivable none seen = none
decide_trigger api tunables receivable (some trusted_bal) seen =
    let amount = transfer_amount api tunables receivable trusted_bal in
    if ltb tunables.rebalance_min amount then trigger_params amount (victim_id seen) else none

-- The payments and the balance that the trusted wallet reports (`none` for an error), and the
-- receivable balance that the lightning wallet estimates.
pub record WalletView : Type 0 where
  pub trusted_payments : Option (List Payment)
  pub trusted_balance : Option ℕ
  pub receivable : ℕ

abbrev unseen : Seen
unseen = record { new_txn = []; latest_tx = none }

check_trigger :
    Backend
    → AmountApi
    → Tunables
    → WalletView
    → Option (List Payment)
    → Run Store (Option TriggerParams)
check_trigger api amounts tunables view none = pure none
check_trigger api amounts tunables view (some payments) = do
  seen ← see_payments api payments unseen
  pure (decide_trigger amounts tunables view.receivable view.trusted_balance seen)

trigger_if : Backend → AmountApi → Tunables → WalletView → Bool → Run Store (Option TriggerParams)
unfolding check_trigger
trigger_if api amounts tunables view false = pure none
trigger_if api amounts tunables view true =
    check_trigger api amounts tunables view view.trusted_payments

unfoldable pub needs_trusted_rebalance :
    Backend → AmountApi → Tunables → WalletView → Run Store (Option TriggerParams)
unfolding trigger_if
needs_trusted_rebalance api amounts tunables view = do
  rebalance_enabled ← get_enabled api
  trigger_if api amounts tunables view rebalance_enabled
