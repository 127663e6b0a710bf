-- ===== src/Trigger/Onchain.antt =====
-- `OrangeTrigger::needs_onchain_rebalance` (orange-sdk/src/rebalancer.rs): received on-chain funds are
-- announced and moved into a channel.
pub mod Candidates
pub mod Cause
use orange_sdk.Prelude.{
  ℕ, ◌/◌, Bool, true, false, ◌&&◌, Option, none, some, List, [], ◌∷◌, ltb, leb, nat_beq, not,
  if◌then◌else◌,
}
use orange_sdk.Prelude.Run.{Run, pure, panic, modify, ◌>>=◌, ◌>>◌}
use orange_sdk.Platform.{AmountApi}
use orange_sdk.Store.Types.{
  TxStatus, is_completed, TxMetadata, self_custodial, payment, is_payment, incoming_on_chain,
}
use orange_sdk.Store.World.{Store, lookup}
use orange_sdk.Store.Metadata.{insert_new}
use orange_sdk.Store.Enabled.{get_enabled}
use orange_sdk.Events.Types.{Event, onchain_payment_received}
use orange_sdk.Events.Queue.{QueueBackend, EventQueue, add_event, on_store}
use orange_sdk.Rebalancer.Wallets.{TriggerParams}
use orange_sdk.Trigger.{Tunables}

-- `PaymentDetails` of ldk-node; of an on-chain payment the txid, the confirmation status, and whether
-- that is `Confirmed`. A status `Succeeded` is `completed` here.
pub record LnPayment : Type 0 where
  pub id : ℕ
  pub onchain : Option (ℕ × ℕ × Bool)
  pub amount_msat : Option ℕ
  pub outbound : Bool
  pub status : TxStatus
  pub latest_update_timestamp : ℕ

-- What ldk-node answers: the time of its latest sync, the payments when the new receipts are looked
-- for and when the cause is, and the spendable balance.
pub record LnView : Type 0 where
  pub latest_sync : Option ℕ
  pub recent_payments : List LnPayment
  pub payments : List LnPayment
  pub spendable_sats : ℕ

pub record TriggerState : Type 0 where
  pub events : EventQueue
  pub onchain_sync_time : ℕ

unfoldable pub on_events : {A : Type 0} → Run EventQueue A → Run TriggerState A
on_events m s = elim (m s.events) [ none ↦ none | some (a, t) ↦ some (a, record s { events = t }) ]

abbrev pub is_receipt : ℕ → LnPayment → Bool
is_receipt since p =
    not p.outbound && (is_completed p.status && ltb since p.latest_update_timestamp)

abbrev pub is_confirmed : Option (ℕ × ℕ × Bool) → Bool
is_confirmed none = false
is_confirmed (some (txid, status, confirmed)) = confirmed

-- An error of the event queue is only logged; `amount_msat` must be there.
announce : QueueBackend → LnPayment → Option (ℕ × ℕ × Bool) → Option ℕ → Run EventQueue (Unit {0})
announce api p none amount = pure tt
announce api p (some (txid, status, confirmed)) none = panic
announce api p (some (txid, status, confirmed)) (some amount) = do
  add_event api (onchain_payment_received (self_custodial p.id) txid (amount / 1000) status)
  pure tt

unfoldable pub announce_all : QueueBackend → ℕ → List LnPayment → Run EventQueue (Unit {0})
unfolding announce
announce_all api since [] = pure tt
announce_all api since (p ∷ ps) = do
  if is_receipt since p && is_confirmed p.onchain
      then announce api p p.onchain p.amount_msat
      else pure tt
  announce_all api since ps

-- Only payments can be promoted; an entry that is missing will be made.
abbrev pub can_mark : Option TxMetadata → Bool
can_mark none = true
can_mark (some m) = is_payment m.ty

abbrev candidate : Store → ℕ → LnPayment → Option (ℕ × ℕ × Bool) → Option (LnPayment × ℕ)
candidate s since p none = none
candidate s since p (some (txid, status, confirmed)) =
    if is_receipt since p && can_mark (lookup (self_custodial txid) s) then some (p, txid) else none

-- `Ord` on `Option<u64>`: `None` is least.
abbrev amount_leb : Option ℕ → Option ℕ → Bool
amount_leb none b = true
amount_leb (some a) none = false
amount_leb (some a) (some b) = leb a b

-- `max_by_key`, which keeps the last of equal ones.
abbrev larger : Option (LnPayment × ℕ) → Option (LnPayment × ℕ) → Option (LnPayment × ℕ)
larger none b = b
larger (some a) none = some a
larger (some (p, x)) (some (q, y)) =
    if amount_leb p.amount_msat q.amount_msat then some (q, y) else some (p, x)

unfoldable pub largest :
    Store → ℕ → List LnPayment → Option (LnPayment × ℕ) → Option (LnPayment × ℕ)
largest s since [] best = best
largest s since (p ∷ ps) best = largest s since ps (larger best (candidate s since p p.onchain))

abbrev pub receipt_metadata : LnPayment → ℕ → TxMetadata
receipt_metadata p txid = record {
  time = p.latest_update_timestamp;
  ty = payment (incoming_on_chain (some txid));
}

ensure_entry : QueueBackend → LnPayment → ℕ → Option TxMetadata → Run Store (Unit {0})
ensure_entry api p txid (some m) = pure tt
ensure_entry api p txid none =
    insert_new api.backend (self_custodial txid) (receipt_metadata p txid)

-- `Amount::from_sats(spendable).expect("valid amount")`
name_params : ℕ → Option ℕ → Run EventQueue (Option TriggerParams)
name_params txid none = panic
name_params txid (some amount) = pure (some (record { id = txid; amount = amount }))

name_cause :
    QueueBackend → AmountApi → ℕ → Option (LnPayment × ℕ) → Run EventQueue (Option TriggerParams)
unfolding ensure_entry name_params
name_cause api amounts spendable none s = some (none, s)
name_cause api amounts spendable (some (p, txid)) s =
    (do
      on_store (ensure_entry api p txid (lookup (self_custodial txid) s.store))
      name_params txid (amounts.from_sats spendable))
      s

after_sync :
    QueueBackend → AmountApi → Tunables → LnView → ℕ → Run EventQueue (Option TriggerParams)
unfolding name_cause
after_sync api amounts tunables view since s =
    if ltb (amounts.sats_rounding_up tunables.rebalance_min) view.spendable_sats
    then name_cause api amounts view.spendable_sats (largest s.store since view.payments none) s
    else some (none, s)

synced :
    QueueBackend
    → AmountApi
    → Tunables
    → LnView
    → Option ℕ
    → Run TriggerState (Option TriggerParams)
unfolding after_sync
synced api amounts tunables view none s = some (none, s)
synced api amounts tunables view (some new) s =
    if nat_beq s.onchain_sync_time new
    then some (none, s)
    else (do
      modify (λ t. record t { onchain_sync_time = new })
      on_events (announce_all api s.onchain_sync_time view.recent_payments)
      on_events (after_sync api amounts tunables view s.onchain_sync_time))
        s

if_enabled :
    QueueBackend → AmountApi → Tunables → LnView → Bool → Run TriggerState (Option TriggerParams)
unfolding synced
if_enabled api amounts tunables view false = pure none
if_enabled api amounts tunables view true = synced api amounts tunables view view.latest_sync

unfoldable pub needs_onchain_rebalance :
    QueueBackend → AmountApi → Tunables → LnView → Run TriggerState (Option TriggerParams)
unfolding if_enabled
needs_onchain_rebalance api amounts tunables view = do
  rebalance_enabled ← on_events (on_store (get_enabled api.backend))
  if_enabled api amounts tunables view rebalance_enabled
