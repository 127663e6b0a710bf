-- ===== src/Trigger/Onchain/Cause.antt =====
-- The receipt that an on-chain rebalance names as its cause can be marked as such.
use orange_sdk.Prelude.{
  ℕ, ◌/◌, ◌≡◌, refl, arith, Bool, true, false, ◌&&◌, Option, none, some, List, [], ◌∷◌, ◌++◌, All,
  is_some, Bool-cases, ◌⊎◌, ◌≤◌, inl, inr, if◌then◌else◌, ltb, nat_beq,
}
use orange_sdk.Prelude.Run.{Run, Returns, Returns-of_eq, Returns->>=, ◌>>◌, pure}
use orange_sdk.Prelude.Assoc.{get-insert_self}
use orange_sdk.Platform.{AmountApi}
use orange_sdk.Store.Types.{TxMetadata, self_custodial, is_payment, id_eq}
use orange_sdk.Store.World.{lookup}
use orange_sdk.Store.Wrote.{Reliable, wrote}
use orange_sdk.Store.Metadata.Effects.{insert_new-wrote}
use orange_sdk.Store.Enabled.{get_enabled, get_enabled_cached}
use orange_sdk.Events.Types.{onchain_payment_received, terminal_payment_hash}
use orange_sdk.Events.Queue.{
  QueueBackend, EventQueue, Done, add_event, add_plain_event, push_event, on_store,
}
use orange_sdk.Events.Queue.Fifo.{Updates, push_event-IsRequeued}
use orange_sdk.Rebalancer.Wallets.{TriggerParams}
use orange_sdk.Trigger.{Tunables}
use orange_sdk.Trigger.Onchain.{
  LnPayment, LnView, TriggerState, on_events, is_receipt, is_confirmed, announce, announce_all,
  can_mark, largest, receipt_metadata, ensure_entry, name_params, name_cause, after_sync, synced,
  if_enabled, needs_onchain_rebalance,
}
use orange_sdk.Trigger.Onchain.Candidates.{CanMark, largest-CanMark, NoCause, largest-none}

Returns-Unit :
    {S A : Type 0} (P : A → S → Type 0) (o : Option (A × S)) → Returns P o → Returns (λ _ _. Unit) o
Returns-Unit P none h = h
Returns-Unit P (some (a, s)) h = tt

-- Why a check names nothing: rebalancing is off, ldk-node has not synced or not since the check
-- before, the spendable balance is not above the least amount of a rebalance, or no payment can be
-- the cause.
abbrev pub IsIdle : AmountApi → Tunables → LnView → TriggerState → Bool → EventQueue → Type 0
IsIdle amounts tunables view s on t =
    (on ≡ false)
    ⊎ (view.latest_sync ≡ none)
    ⊎ (view.latest_sync ≡ some s.onchain_sync_time)
    ⊎ (view.spendable_sats ≤ amounts.sats_rounding_up tunables.rebalance_min)
    ⊎ All (λ (p : LnPayment). NoCause t.store s.onchain_sync_time p p.onchain) view.payments

-- What a check of the trigger names: nothing where there is a reason; else the spendable balance, and
-- a cause that has the entry of a plain payment.
abbrev pub Causes :
    AmountApi
    → Tunables
    → LnView
    → TriggerState
    → ℕ
    → Bool
    → Option TriggerParams
    → EventQueue
    → Type 0
Causes amounts tunables view before amount on none s = IsIdle amounts tunables view before on s
Causes amounts tunables view before amount on (some params) s =
    (on ≡ true)
    × (params.amount ≡ amount)
    × ((m : TxMetadata) × (lookup (self_custodial params.id) s.store ≡ some m)
        × (is_payment m.ty ≡ true))

module _ (api : QueueBackend) (reliable : Reliable api.kv) (amounts : AmountApi)
    (tunables : Tunables) (view : LnView) (amount : ℕ)
    (valid : amounts.from_sats view.spendable_sats ≡ some amount) where
  -- The predicate of the section's trigger, on the state before the check.
  abbrev Named : TriggerState → Bool → Option TriggerParams → EventQueue → Type 0
  Named before on r s = Causes amounts tunables view before amount on r s

  announce-Returns :
      (p : LnPayment) (o : Option (ℕ × ℕ × Bool)) (a : Option ℕ) (s : EventQueue)
      → is_some a ≡ true
      → Returns (λ _ _. Unit) (announce api p o a s)
  unfolding announce add_event add_plain_event terminal_payment_hash
  announce-Returns p none a s h = tt
  announce-Returns p (some (txid, status, confirmed)) none s h = cc
  announce-Returns p (some (txid, status, confirmed)) (some a) s h =
      let e = onchain_payment_received (self_custodial p.id) txid (a / 1000) status in
      Returns->>= (λ _ _. Unit) (λ _ _. Unit) (push_event api e) (λ (_ : Done) t. some (tt, t)) s
        (Returns-Unit (Updates api (s.queue ++ e ∷ []) s) (push_event api e s)
          (push_event-IsRequeued api e s))
        (λ _ _ _. tt)

  -- The state with an entry for the receipt.
  abbrev entered : LnPayment → ℕ → EventQueue → EventQueue
  entered p txid s = record s {
    store = wrote api.backend (self_custodial txid) (receipt_metadata p txid) s.store;
  }

  abbrev named : ℕ → Option TriggerParams
  named txid = some (record { id = txid; amount = amount })

  names_known :
      (p : LnPayment) (txid : ℕ) (m : TxMetadata) (s : EventQueue)
      → (on_store (ensure_entry api p txid (some m))
            >> name_params txid (amounts.from_sats view.spendable_sats))
          s
        ≡ some (named txid, s)
  unfolding on_store ensure_entry name_params
  names_known p txid m s = ground (arith, valid)

  names_new :
      (p : LnPayment) (txid : ℕ) (s : EventQueue)
      → lookup (self_custodial txid) s.store ≡ none
      → (on_store (ensure_entry api p txid none)
            >> name_params txid (amounts.from_sats view.spendable_sats))
          s
        ≡ some (named txid, entered p txid s)
  unfolding on_store ensure_entry name_params
  names_new p txid s fresh = ground (
    arith,
    valid,
    insert_new-wrote api.backend reliable (self_custodial txid) (receipt_metadata p txid) s.store
        (inl fresh),
  )

  name_cause-Causes :
      (before : TriggerState) (best : Option (LnPayment × ℕ)) (s : EventQueue)
      → CanMark s.store best
      → (best ≡ none → IsIdle amounts tunables view before true s)
      → Returns (Named before true) (name_cause api amounts view.spendable_sats best s)
  unfolding name_cause
  name_cause-Causes before none s h idle = idle refl
  name_cause-Causes before (some (p, txid)) s h idle =
      go (lookup (self_custodial txid) s.store) refl h
    where
      go :
          (o : Option TxMetadata)
          → lookup (self_custodial txid) s.store ≡ o
          → can_mark o ≡ true
          → Returns (Named before true) (
              (on_store (ensure_entry api p txid o)
                  >> name_params txid (amounts.from_sats view.spendable_sats))
                s)
      go (some m) e k =
          Returns-of_eq (Named before true) (names_known p txid m s) (refl, refl, (m, e, k))
      go none e k = Returns-of_eq (Named before true) (names_new p txid s e) (
        refl,
        refl,
        (
          receipt_metadata p txid,
          get-insert_self (self_custodial txid) (receipt_metadata p txid) s.store.tx_metadata,
          refl,
        ),
      )

  after_sync-Causes :
      (before : TriggerState) (s : EventQueue)
      → Returns
          (Named before true)
          (after_sync api amounts tunables view before.onchain_sync_time s)
  unfolding after_sync
  after_sync-Causes before s =
      let since : ℕ = before.onchain_sync_time in
      elim (Bool-cases
        (ltb (amounts.sats_rounding_up tunables.rebalance_min) view.spendable_sats)) [
          | inl large ↦ rw large (
              name_cause-Causes before (largest s.store since view.payments none) s
                (largest-CanMark s.store since view.payments none tt)
                (λ e. inr (inr (inr (inr (largest-none s.store since view.payments none e).1)))))
          | inr small ↦ rw small (inr (inr (inr (inl (ground (arith, small))))))
        ]

  announce_all-Returns :
      (since : ℕ) (ps : List LnPayment) (s : EventQueue)
      → All (λ (p : LnPayment). is_some p.amount_msat ≡ true) ps
      → Returns (λ _ _. Unit) (announce_all api since ps s)
  unfolding announce_all
  announce_all-Returns since [] s h = tt
  announce_all-Returns since (p ∷ ps) s h =
      Returns->>= (λ _ _. Unit) (λ _ _. Unit)
        (if is_receipt since p && is_confirmed p.onchain
          then announce api p p.onchain p.amount_msat
          else pure tt)
        (λ _. announce_all api since ps) s
        (elim (Bool-cases (is_receipt since p && is_confirmed p.onchain)) [
          | inl new ↦ rw new (announce-Returns p p.onchain p.amount_msat s h.0)
          | inr old ↦ rw old tt
        ])
        (λ _ t _. announce_all-Returns since ps t h.1)

  Returns-on_events :
      {A : Type 0} (P : A → EventQueue → Type 0) (m : Run EventQueue A) (s : TriggerState)
      → Returns P (m s.events)
      → Returns (λ a t. P a t.events) (on_events m s)
  unfolding on_events
  Returns-on_events {A} P m s h = go (m s.events) h
    where
      go :
          (o : Option (A × EventQueue))
          → Returns P o
          → Returns
              (λ a (t : TriggerState). P a t.events)
              (elim o [ none ↦ none | some (a, t) ↦ some (a, record s { events = t }) ])
      go none e = e
      go (some (a, t)) e = e

  synced-Causes :
      (new : Option ℕ) (s : TriggerState)
      → view.latest_sync ≡ new
      → All (λ (p : LnPayment). is_some p.amount_msat ≡ true) view.recent_payments
      → Returns (λ r t. Named s true r t.events) (synced api amounts tunables view new s)
  unfolding synced
  synced-Causes none s is h = inr (inl is)
  synced-Causes (some new) s is h = elim (Bool-cases (nat_beq s.onchain_sync_time new)) [
    | inl same ↦ rw same (inr (inr (inl (ground (arith, is, same)))))
    | inr later ↦
        let t : TriggerState = record s { onchain_sync_time = new } in
        rw later (
          Returns->>= (λ _ _. Unit) (λ r u. Named s true r u.events)
            (on_events (announce_all api s.onchain_sync_time view.recent_payments))
            (λ _. on_events (after_sync api amounts tunables view s.onchain_sync_time)) t
            (Returns-on_events (λ _ _. Unit)
              (announce_all api s.onchain_sync_time view.recent_payments) t
              (announce_all-Returns s.onchain_sync_time view.recent_payments s.events h))
            (λ _ u _.
              Returns-on_events (Named s true)
                (after_sync api amounts tunables view s.onchain_sync_time) u
                (after_sync-Causes s u.events)))
  ]

  if_enabled-Causes :
      (on : Bool) (s : TriggerState)
      → All (λ (p : LnPayment). is_some p.amount_msat ≡ true) view.recent_payments
      → Returns (λ r t. Named s on r t.events) (if_enabled api amounts tunables view on s)
  unfolding if_enabled
  if_enabled-Causes false s h = inl refl
  if_enabled-Causes true s h = synced-Causes view.latest_sync s refl h

  enabled_lem :
      (on : Bool) (s : TriggerState)
      → s.events.store.rebalance_enabled ≡ some on
      → on_events (on_store (get_enabled api.backend)) s ≡ some (on, s)
  unfolding on_events on_store
  enabled_lem on s e = ground (arith, get_enabled_cached api.backend on s.events.store e)

  -- Where no write fails, the switch has been read, the spendable balance is a valid amount and the
  -- payments of ldk-node have amounts: the check returns. It names nothing only if rebalancing is off,
  -- ldk-node has not synced or not since the check before, the spendable balance is not above the
  -- least amount of a rebalance, or each payment of ldk-node is not on-chain, outbound, not succeeded,
  -- no newer than that check, or has an entry that is not a plain payment. What it names, it names
  -- while rebalancing is on: the spendable balance, and a cause that has the entry of a plain payment.
  pub needs_onchain_rebalance-Causes :
      (on : Bool) (s : TriggerState)
      → s.events.store.rebalance_enabled ≡ some on
      → All (λ (p : LnPayment). is_some p.amount_msat ≡ true) view.recent_payments
      → Returns (λ r t. Named s on r t.events) (needs_onchain_rebalance api amounts tunables view s)
  unfolding needs_onchain_rebalance
  needs_onchain_rebalance-Causes on s e h =
      Returns->>= (λ b t. (b ≡ on) × (t ≡ s)) (λ r t. Named s on r t.events)
        (on_events (on_store (get_enabled api.backend))) (if_enabled api amounts tunables view) s
        (Returns-of_eq (λ b t. (b ≡ on) × (t ≡ s)) (enabled_lem on s e) (refl, refl))
        (λ b t is. rw (is.0, is.1) (if_enabled-Causes on s h))
