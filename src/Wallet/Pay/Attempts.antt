-- ===== src/Wallet/Pay/Attempts.antt =====
-- What one attempt of `Wallet::pay` does: it is refused, or accepted and recorded.
use orange_sdk.Prelude.{
  ℕ, ◌+◌, ◌≤◌, ◌<◌, ◌⊎◌, ◌≡◌, refl, true, Option, none, some, List, [], ◌∷◌, Result, ok, err, leb,
  Bool-cases, inl, inr, arith,
}
use orange_sdk.Prelude.Run.{Returns, Returns-of_eq}
use orange_sdk.Prelude.Assoc.{get-insert_self}
use orange_sdk.Platform.{AmountApi, AmountLaws}
use orange_sdk.Store.Types.{
  PaymentId, self_custodial, trusted, PaymentType, id_eq, outgoing_lightning_bolt11,
  outgoing_lightning_bolt12, outgoing_on_chain,
}
use orange_sdk.Store.World.{lookup}
use orange_sdk.Store.Wrote.{Reliable, wrote}
use orange_sdk.Store.Metadata.{upsert}
use orange_sdk.Store.Metadata.Effects.{do_set_lem, IsNew, insert_new-wrote}
use orange_sdk.Events.Queue.{QueueBackend, EventQueue, on_store}
use orange_sdk.Wallet.Receive.{NodeError, WalletError, ldk_node_failure, trusted_failure}
use orange_sdk.Wallet.Mpp.{ln_estimate_fee}
use orange_sdk.Wallet.Pay.{
  PaymentMethod, lightning_bolt11, lightning_bolt12, on_chain, Attempt, by_trusted, by_lightning,
  by_both, PayWallets, Funds, PayState, plain_metadata, after_trusted_pay, send_trusted,
  pay_trusted, after_ln_pay, send_lightning, pay_lightning, on_metadata, fee_or_zero, balance_for,
}

-- The wallet that was asked refused the payment. A split payment is no such attempt.
abbrev pub Refused : PayWallets → List Attempt → Type 0
Refused w [] = Unit
Refused w (by_trusted m a ∷ h) =
    ((e : ℕ) × (w.trusted_pay (by_trusted m a ∷ h) ≡ err e)) × Refused w h
Refused w (by_lightning m a ∷ h) =
    ((e : NodeError) × (w.ln_pay (by_lightning m a ∷ h) ≡ err e)) × Refused w h
Refused w (by_both invoice a ∷ h) = Refused w h

-- The payment type that a method is recorded with.
abbrev pub type_of : PaymentMethod → PaymentType
type_of (lightning_bolt11 inv) = outgoing_lightning_bolt11 none
type_of (lightning_bolt12 offer) = outgoing_lightning_bolt12 none
type_of (on_chain a) = outgoing_on_chain none

-- The lightning wallet's own funds cover the amount: over lightning its lightning balance does,
-- and on chain one of its two balances.
abbrev pub Covers : Funds → PaymentMethod → Type 0
Covers f (on_chain a) = (f.amount ≤ f.lightning) ⊎ (f.amount ≤ f.onchain)
Covers f m = f.amount ≤ f.lightning

-- The newest refusal of each wallet.
abbrev pub newest_ln : PayWallets → List Attempt → Option WalletError
newest_ln w [] = none
newest_ln w (by_trusted m a ∷ h) = newest_ln w h
newest_ln w (by_lightning m a ∷ h) = elim (w.ln_pay (by_lightning m a ∷ h)) [
  | ok i ↦ newest_ln w h
  | err e ↦ some (ldk_node_failure e)
]
newest_ln w (by_both invoice a ∷ h) = newest_ln w h

abbrev pub newest_trusted : PayWallets → List Attempt → Option WalletError
newest_trusted w [] = none
newest_trusted w (by_trusted m a ∷ h) = elim (w.trusted_pay (by_trusted m a ∷ h)) [
  | ok i ↦ newest_trusted w h
  | err e ↦ some (trusted_failure e)
]
newest_trusted w (by_lightning m a ∷ h) = newest_trusted w h
newest_trusted w (by_both invoice a ∷ h) = newest_trusted w h

-- The newest attempt was accepted under the id, within the balance of its wallet.
abbrev pub Accepted : PayWallets → Funds → PaymentId → List Attempt → Type 0
Accepted w f id [] = ⊥
Accepted w f id (by_trusted m a ∷ h) =
    ((i : ℕ) × (w.trusted_pay (by_trusted m a ∷ h) ≡ ok i) × (id ≡ trusted i))
    × (a ≡ f.amount)
    × (a + fee_or_zero (w.trusted_fee m a) ≤ f.trusted_balance)
    × Refused w h
Accepted w f id (by_lightning m a ∷ h) =
    ((i : ℕ) × (w.ln_pay (by_lightning m a ∷ h) ≡ ok i) × (id ≡ self_custodial i))
    × (a ≡ f.amount)
    × Covers f m
    × Refused w h
Accepted w f id (by_both invoice a ∷ h) = ⊥

-- The payment has an entry as a plain payment of the method that was accepted.
abbrev pub HasEntry : ℕ → PaymentId → List Attempt → PayState → Type 0
HasEntry now id [] s = ⊥
HasEntry now id (by_trusted m a ∷ h) s =
    lookup id s.events.store ≡ some (plain_metadata now (type_of m))
HasEntry now id (by_lightning m a ∷ h) s =
    lookup id s.events.store ≡ some (plain_metadata now (type_of m))
HasEntry now id (by_both invoice a ∷ h) s = ⊥

-- The errors that are kept are the newest refusals.
pub record Recalls (w : PayWallets) (s : PayState) : Type 0 where
  pub ln_is : s.last_lightning_err ≡ newest_ln w s.attempts
  pub trusted_is : s.last_trusted_err ≡ newest_trusted w s.attempts
  pub mpp_is : s.last_mpp_err ≡ none

-- What has been tried: all was refused and nothing recorded, or all but the newest attempt was.
abbrev pub Tried : PayWallets → Funds → ℕ → EventQueue → Option PaymentId → PayState → Type 0
Tried w f now start none s = Refused w s.attempts × Recalls w s × (s.events ≡ start)
Tried w f now start (some id) s = Accepted w f id s.attempts × HasEntry now id s.attempts s

module _ (api : QueueBackend) (reliable : Reliable api.kv) (amounts : AmountApi)
    (laws : AmountLaws amounts) (w : PayWallets) (f : Funds)
    (small : f.trusted_balance < amounts.max_amount) (now : ℕ) (start : EventQueue)
    (news : (h : List Attempt) (i : ℕ)
      → w.trusted_pay h ≡ ok i
      → IsNew api.backend (trusted i) start.store) where
  -- The state with the entry of a payment.
  abbrev recorded : PaymentId → PaymentType → PayState → PayState
  recorded id ty s = record s {
    events = record (s.events) {
      store = wrote api.backend id (plain_metadata now ty) s.events.store;
    };
  }

  trusted_paid :
      (ty : PaymentType) (id : ℕ) (s : PayState)
      → IsNew api.backend (trusted id) s.events.store
      → after_trusted_pay api now ty (ok id) s
        ≡ some (some (trusted id), recorded (trusted id) ty s)
  unfolding after_trusted_pay on_metadata on_store
  trusted_paid ty id s fresh = ground (
    arith,
    insert_new-wrote api.backend reliable (trusted id) (plain_metadata now ty) s.events.store fresh,
  )

  ln_paid :
      (ty : PaymentType) (id : ℕ) (s : PayState)
      → after_ln_pay api now ty (ok id) s
        ≡ some (some (self_custodial id), recorded (self_custodial id) ty s)
  unfolding after_ln_pay on_metadata on_store upsert
  ln_paid ty id s = ground (
    arith,
    do_set_lem api.backend reliable (self_custodial id) (plain_metadata now ty) s.events.store,
  )

  after_trusted_pay-Tried :
      (m : PaymentMethod) (r : Result ℕ ℕ) (s : PayState)
      → w.trusted_pay (by_trusted m f.amount ∷ s.attempts) ≡ r
      → f.amount + fee_or_zero (w.trusted_fee m f.amount) ≤ f.trusted_balance
      → Tried w f now start none s
      → Returns (Tried w f now start) (
          after_trusted_pay api now
            (type_of m)
            r
            (record s { attempts = by_trusted m f.amount ∷ s.attempts }))
  unfolding after_trusted_pay
  after_trusted_pay-Tried m (ok id) s e fits h =
      Returns-of_eq (Tried w f now start)
        (trusted_paid (type_of m) id (record s { attempts = by_trusted m f.amount ∷ s.attempts })
          (rw h.2 (news (by_trusted m f.amount ∷ s.attempts) id e)))
        (
          ((id, e, refl), refl, fits, h.0),
          get-insert_self (trusted id) (plain_metadata now (type_of m)) s.events.store.tx_metadata,
        )
  after_trusted_pay-Tried m (err x) s e fits h = (
    ((x, e), h.0),
    record { ln_is = h.1.ln_is; trusted_is = ground (arith, e); mpp_is = h.1.mpp_is },
    h.2,
  )

  pub pay_trusted-Tried :
      (m : PaymentMethod) (s : PayState)
      → Tried w f now start none s
      → Returns (Tried w f now start) (pay_trusted api amounts w f now m (type_of m) s)
  unfolding pay_trusted send_trusted
  pay_trusted-Tried m s h = elim (Bool-cases (leb f.amount f.trusted_balance)) [
    | inr dear ↦ rw dear h
    | inl covered ↦
        let fee : ℕ = fee_or_zero (w.trusted_fee m f.amount) in
        elim (Bool-cases (leb (amounts.saturating_add fee f.amount) f.trusted_balance)) [
          | inr over ↦ rw (covered, over) h
          | inl fits ↦
              rw (covered, fits)
                (after_trusted_pay-Tried m (w.trusted_pay (by_trusted m f.amount ∷ s.attempts)) s
                  refl (ground (arith, laws.saturating_add_lem fee f.amount)) h)
        ]
  ]

  after_ln_pay-Tried :
      (m : PaymentMethod) (r : Result ℕ NodeError) (s : PayState)
      → w.ln_pay (by_lightning m f.amount ∷ s.attempts) ≡ r
      → Covers f m
      → Tried w f now start none s
      → Returns (Tried w f now start) (
          after_ln_pay api now
            (type_of m)
            r
            (record s { attempts = by_lightning m f.amount ∷ s.attempts }))
  unfolding after_ln_pay
  after_ln_pay-Tried m (ok id) s e fits h =
      Returns-of_eq (Tried w f now start)
        (ln_paid (type_of m) id (record s { attempts = by_lightning m f.amount ∷ s.attempts }))
        (
          ((id, e, refl), refl, fits, h.0),
          get-insert_self (self_custodial id) (plain_metadata now (type_of m))
              s.events.store.tx_metadata,
        )
  after_ln_pay-Tried m (err x) s e fits h = (
    ((x, e), h.0),
    record { ln_is = ground (arith, e); trusted_is = h.1.trusted_is; mpp_is = h.1.mpp_is },
    h.2,
  )

  covered_by : (m : PaymentMethod) → leb f.amount (balance_for f (type_of m)) ≡ true → Covers f m
  covered_by (lightning_bolt11 inv) h = ground (arith, h)
  covered_by (lightning_bolt12 offer) h = ground (arith, h)
  covered_by (on_chain a) h = ground (arith, h)

  pub pay_lightning-Tried :
      (m : PaymentMethod) (s : PayState)
      → Tried w f now start none s
      → Returns (Tried w f now start) (pay_lightning api amounts w f now m (type_of m) s)
  unfolding pay_lightning send_lightning
  pay_lightning-Tried m s h = elim (Bool-cases (leb f.amount (balance_for f (type_of m)))) [
    | inr dear ↦ rw dear h
    | inl covered ↦
        elim (Bool-cases
          (leb (amounts.saturating_add ln_estimate_fee f.amount) (balance_for f (type_of m)))) [
            | inr over ↦ rw (covered, over) h
            | inl fits ↦
                rw (covered, fits)
                  (after_ln_pay-Tried m (w.ln_pay (by_lightning m f.amount ∷ s.attempts)) s refl
                    (covered_by m covered) h)
          ]
  ]
