-- ===== src/Handler/Transfers.antt =====
-- What the wallet's metadata says after a rebalance, and when recording it panics.
use orange_sdk.Prelude.{
  ℕ, ◌≡◌, ◌≢◌, ◌∙◌, refl, true, [], ◌∷◌, ◌++◌, inl, inr, arith, Option, none, some, false, ok, ◌↔◌,
  ◌⊎◌, is_some, ◌&&◌, if◌then◌else◌,
}
use orange_sdk.Prelude.Run.{Returns, Returns-of_eq, Returns->>=, ◌>>◌}
use orange_sdk.Prelude.Assoc.{insert, get-insert_self, get-insert_ne}
use orange_sdk.Store.Types.{
  PaymentId, self_custodial, trusted, TxMetadata, payment, PaymentType, is_payment,
  pending_rebalance, onchain_to_lightning, id_eq,
}
use orange_sdk.Store.World.{Backend, Store, lookup, persist, write_or_panic}
use orange_sdk.Store.Wrote.{Reliable, wrote}
use orange_sdk.Store.Metadata.{upsert, insert_new, set_tx_caused_rebalance}
use orange_sdk.Store.Metadata.Effects.{
  do_set_lem, IsNew, insert_new_lem, insert_new-wrote, set_tx_caused_rebalance_lem,
  set_tx_caused_rebalance_with_splice_lem, triggering,
}
use orange_sdk.Events.Types.{Event, OutPoint, terminal_payment_hash}
use orange_sdk.Events.Queue.{
  QueueBackend, EventQueue, on_store, add_event, add_plain_event, push_event,
}
use orange_sdk.Events.Queue.Fifo.{Updates, push_event-IsRequeued}
use orange_sdk.Rebalancer.Wallets.{
  rebalance_initiated, rebalance_successful, onchain_rebalance_initiated,
}
use orange_sdk.Handler.{
  expect_marked, transfer_metadata, handle_initiated, handle_successful, handle_onchain,
  handle_event,
}

-- The entry is not that of a plain payment, or there is none.
abbrev pub IsUnmarkable : PaymentId → Store → Type 0
IsUnmarkable id s = (m : TxMetadata) → lookup id s ≡ some m → is_payment m.ty ≡ false

-- The assertion of an insert fails: the id has an entry, and assertions are made.
abbrev pub IsTaken : Backend → PaymentId → Store → Type 0
IsTaken api id s = (is_some (lookup id s) ≡ true) × (api.debug_assertions ≡ true)

-- The transfer as the wallet shows it: the cause keeps its time and payment type, and both
-- payments of the transfer name each other and the cause.
pub record IsTransferred (trigger id ln : ℕ) (m : TxMetadata) (t : PaymentType) (now : ℕ)
    (s : Store) : Type 0 where
  pub cause : lookup (trusted trigger) s ≡ some (triggering m t)
  pub sent : lookup (trusted id) s ≡ some (transfer_metadata now id ln trigger)
  pub received : lookup (self_custodial ln) s ≡ some (transfer_metadata now id ln trigger)

module _ (api : QueueBackend) (reliable : Reliable api.kv) where
  abbrev transferred : ℕ → ℕ → ℕ → ℕ → TxMetadata → PaymentType → Store → Store
  transferred now trigger id ln m t s =
      wrote api.backend (self_custodial ln) (transfer_metadata now id ln trigger) (
        wrote api.backend (trusted id) (transfer_metadata now id ln trigger)
          (wrote api.backend (trusted trigger) (triggering m t) s))

  -- The entry of the lightning payment is that of before the other two updates.
  received-kept :
      (ln trigger id : ℕ) (m m' : TxMetadata) (s : Store)
      → lookup
          (self_custodial ln)
          (wrote api.backend (trusted id) m' (wrote api.backend (trusted trigger) m s))
        ≡ lookup (self_custodial ln) s
  received-kept ln trigger id m m' s =
      get-insert_ne (trusted id) (self_custodial ln) m'
        (wrote api.backend (trusted trigger) m s).tx_metadata (λ e. cc)
      ∙ get-insert_ne (trusted trigger) (self_custodial ln) m s.tx_metadata (λ e. cc)

  handle_successful_lem :
      (now trigger id ln amount fee : ℕ) (m : TxMetadata) (t : PaymentType) (s : EventQueue)
      → set_tx_caused_rebalance api.backend (trusted trigger) s.store
        ≡ some (ok tt, wrote api.backend (trusted trigger) (triggering m t) s.store)
      → handle_successful api now trigger id ln amount fee s ≡ (
          if is_some (lookup (self_custodial ln) s.store) && api.backend.debug_assertions
          then none
          else some (
            some (Event.rebalance_successful (trusted trigger) id ln amount fee),
            record s { store = transferred now trigger id ln m t s.store },
          ))
  unfolding handle_successful expect_marked on_store upsert
  handle_successful_lem now trigger id ln amount fee m t s h =
      let marked = wrote api.backend (trusted trigger) (triggering m t) s.store in
      let tm = transfer_metadata now id ln trigger in
      ground (
        arith,
        do_set_lem api.backend reliable (trusted id) tm marked,
        insert_new_lem api.backend reliable (self_custodial ln) tm
            (wrote api.backend (trusted id) tm marked),
        received-kept ln trigger id (triggering m t) tm s.store,
      )

  transferred-IsTransferred :
      (now trigger id ln : ℕ) (m : TxMetadata) (t : PaymentType) (s : Store)
      → trigger ≢ id
      → IsTransferred trigger id ln m t now (transferred now trigger id ln m t s)
  transferred-IsTransferred now trigger id ln m t s ne =
      let tm = transfer_metadata now id ln trigger in
      let marked = wrote api.backend (trusted trigger) (triggering m t) s in
      let both = wrote api.backend (trusted id) tm marked in
      record {
        cause =
            get-insert_ne (self_custodial ln) (trusted trigger) tm both.tx_metadata (λ e. cc)
            ∙ get-insert_ne (trusted id) (trusted trigger) tm marked.tx_metadata (λ e. ne (cc))
            ∙ get-insert_self (trusted trigger) (triggering m t) s.tx_metadata;
        sent =
            get-insert_ne (self_custodial ln) (trusted id) tm both.tx_metadata (λ e. cc)
            ∙ get-insert_self (trusted id) tm marked.tx_metadata;
        received = get-insert_self (self_custodial ln) tm both.tx_metadata;
      }

  marks :
      (trigger : ℕ) (m : TxMetadata) (t : PaymentType) (s : Store)
      → lookup (trusted trigger) s ≡ some m
      → m.ty ≡ payment t
      → set_tx_caused_rebalance api.backend (trusted trigger) s
        ≡ some (ok tt, wrote api.backend (trusted trigger) (triggering m t) s)
  marks trigger m t s e is =
      elim (set_tx_caused_rebalance_lem api.backend reliable (trusted trigger) s) [
        | inl (m', t', e', is', done) ↦
            let same : m' ≡ m = cc in let same_ty : t' ≡ t = cc in rw (← same, ← same_ty) done
        | inr (isnt, refused) ↦
            let plain : is_payment m.ty ≡ true = rw is refl in
            let other : is_payment m.ty ≡ false = isnt m e in cc
      ]

  -- An announced transfer: only the entry of its payment is new.
  abbrev Announced : ℕ → ℕ → EventQueue → EventQueue → Type 0
  Announced now id s s' =
      s'.store.tx_metadata
      ≡ insert (trusted id) (record { time = now; ty = pending_rebalance }) s.store.tx_metadata

  handle_initiated-Announced :
      (now trigger id amount : ℕ) (s : EventQueue)
      → IsNew api.backend (trusted id) s.store
      → Returns (λ _ s'. Announced now id s s') (handle_initiated api now trigger id amount s)
  unfolding handle_initiated insert_new on_store add_event add_plain_event terminal_payment_hash
      persist write_or_panic
  handle_initiated-Announced now trigger id amount s fresh =
      let pending : TxMetadata = record { time = now; ty = pending_rebalance } in
      let t : EventQueue = record s { store = wrote api.backend (trusted id) pending s.store } in
      let e = Event.rebalance_initiated (trusted trigger) id amount in
      rw (insert_new-wrote api.backend reliable (trusted id) pending s.store fresh) (
        Returns->>= (Updates api (t.queue ++ e ∷ []) t) (λ _ s'. Announced now id s s')
          (push_event api e) (λ _ s'. some (none, s')) t (push_event-IsRequeued api e t)
          (λ r s' h. h.0.metadata_is))

  handle_successful-new :
      (now trigger id ln amount fee : ℕ) (m : TxMetadata) (t : PaymentType) (s : EventQueue)
      → set_tx_caused_rebalance api.backend (trusted trigger) s.store
        ≡ some (ok tt, wrote api.backend (trusted trigger) (triggering m t) s.store)
      → IsNew api.backend (self_custodial ln) s.store
      → handle_successful api now trigger id ln amount fee s
        ≡ some (
          some (Event.rebalance_successful (trusted trigger) id ln amount fee),
          record s { store = transferred now trigger id ln m t s.store },
        )
  handle_successful-new now trigger id ln amount fee m t s h (inl fresh) =
      ground (arith, handle_successful_lem now trigger id ln amount fee m t s h, fresh)
  handle_successful-new now trigger id ln amount fee m t s h (inr release) =
      ground (arith, handle_successful_lem now trigger id ln amount fee m t s h, release)

  announced-IsNew :
      (now id ln : ℕ) (s s' : EventQueue)
      → Announced now id s s'
      → IsNew api.backend (self_custodial ln) s.store
      → IsNew api.backend (self_custodial ln) s'.store
  announced-IsNew now id ln s s' h (inr release) = inr release
  announced-IsNew now id ln s s' h (inl fresh) = inl (
      rw h (get-insert_ne (trusted id) (self_custodial ln) _ s.store.tx_metadata (λ e. cc) ∙ fresh))

  -- Where no write fails: the cause of a transfer is a plain payment, other than the transfer's own,
  -- and the transfer's two payments have no entry yet, or debug assertions are left out.
  -- Recording that the transfer was announced and that it succeeded does not panic; the cause is then
  -- marked, with its time and payment type kept, both payments name the transfer, and the event of
  -- its success is the result.
  pub handle_event-IsTransferred :
      (before now trigger id ln amount fee : ℕ) (m : TxMetadata) (t : PaymentType) (s : EventQueue)
      → lookup (trusted trigger) s.store ≡ some m
      → m.ty ≡ payment t
      → trigger ≢ id
      → IsNew api.backend (trusted id) s.store
      → IsNew api.backend (self_custodial ln) s.store
      → Returns
          (λ r s'.
            (r ≡ some (Event.rebalance_successful (trusted trigger) id ln amount fee))
            × IsTransferred trigger id ln m t now s'.store)
          ((handle_event api before (rebalance_initiated trigger id amount)
              >> handle_event api now (rebalance_successful trigger id ln amount fee))
            s)
  unfolding handle_event
  handle_event-IsTransferred before now trigger id ln amount fee m t s e is ne fresh fresh_ln =
      let Good = λ (r : Option Event) (s' : EventQueue).
        (r ≡ some (Event.rebalance_successful (trusted trigger) id ln amount fee))
        × IsTransferred trigger id ln m t now s'.store in
      Returns->>= (λ _ s'. Announced before id s s') Good
        (handle_initiated api before trigger id amount)
        (λ _. handle_successful api now trigger id ln amount fee) s
        (handle_initiated-Announced before trigger id amount s fresh)
        (λ _ s' h.
          let kept : lookup (trusted trigger) s'.store ≡ some m = rw h (
            get-insert_ne (trusted id) (trusted trigger) _ s.store.tx_metadata (λ k. ne (cc))
            ∙ e) in
          Returns-of_eq Good
            (handle_successful-new now trigger id ln amount fee m t s'
              (marks trigger m t s'.store kept is) (announced-IsNew before id ln s s' h fresh_ln))
            (refl, transferred-IsTransferred now trigger id ln m t s'.store ne))

  successful_panics :
      (now trigger id ln amount fee : ℕ) (s : EventQueue)
      → (handle_successful api now trigger id ln amount fee s ≡ none)
        ↔ (IsUnmarkable (trusted trigger) s.store ⊎ IsTaken api.backend (self_custodial ln) s.store)
  successful_panics now trigger id ln amount fee s =
      elim (set_tx_caused_rebalance_lem api.backend reliable (trusted trigger) s.store) [
        | inl (m, t, e, is, done) ↦
            let all = handle_successful_lem now trigger id ln amount fee m t s done in
            let plain : is_payment m.ty ≡ true = rw is refl in
            (
              λ no. inr (ground (arith, all, no), ground (arith, all, no)),
              λ u. elim u [
                | inl isnt ↦ (let other : is_payment m.ty ≡ false = isnt m e in cc)
                | inr (has, debug) ↦ ground (arith, all, has, debug)
              ],
            )
        | inr (isnt, refused) ↦ (
          λ _. inl isnt,
          λ _. unfold handle_successful on_store expect_marked in ground (arith, refused),
        )
      ]

  onchain_panics :
      (now trigger : ℕ) (o : OutPoint) (s : EventQueue)
      → (handle_onchain api now trigger o s ≡ none) ↔ IsUnmarkable (self_custodial trigger) s.store
  onchain_panics now trigger o s =
      let sm : TxMetadata = record { time = now; ty = onchain_to_lightning o.txid trigger } in
      elim (set_tx_caused_rebalance_with_splice_lem api.backend reliable (self_custodial trigger)
        (self_custodial o.txid) sm s.store) [
          | inl (m, t, e, is, done) ↦
              let all : handle_onchain api now trigger o s ≢ none =
                unfold handle_onchain on_store expect_marked in ground (arith, done) in
              let plain : is_payment m.ty ≡ true = rw is refl in
              (λ no. absurd (all no), λ isnt. let other : is_payment m.ty ≡ false = isnt m e in cc)
          | inr (isnt, refused) ↦ (
            λ _. isnt,
            λ _. unfold handle_onchain on_store expect_marked in ground (arith, refused),
          )
        ]

  -- Where no write fails, recording the success of a transfer panics exactly if its cause has no
  -- entry or one that is not a plain payment, or if debug assertions are made and its lightning
  -- payment already has an entry; recording an on-chain rebalance panics exactly if its cause has no
  -- entry or one that is not a plain payment.
  pub handle_event_panics :
      (now trigger : ℕ) (s : EventQueue)
      → ((id ln amount fee : ℕ)
          → (handle_event api now (rebalance_successful trigger id ln amount fee) s ≡ none) ↔ (
              IsUnmarkable (trusted trigger) s.store
              ⊎ IsTaken api.backend (self_custodial ln) s.store))
        × ((channel : ℕ) (o : OutPoint)
            → (handle_event api now (onchain_rebalance_initiated trigger channel o) s ≡ none)
              ↔ IsUnmarkable (self_custodial trigger) s.store)
  unfolding handle_event
  handle_event_panics now trigger s = (
    λ id ln amount fee. successful_panics now trigger id ln amount fee s,
    λ channel o. onchain_panics now trigger o s,
  )
