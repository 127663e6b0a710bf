-- ===== src/Wallet/Mpp/Portions.antt =====
-- The two parts of a split payment, and what is left where it is not split
-- (`Wallet::try_mpp_bolt11` in orange-sdk/src/lib.rs).
use orange_sdk.Prelude.{
  ℕ, ◌+◌, ◌≤◌, ◌<◌, ◌≡◌, ◌⊎◌, inl, inr, arith, Option, none, some, ok, err, nat_eq, ◌≢◌, nat_beq,
  Bool-cases,
}
use orange_sdk.Prelude.Assoc.{insert}
use orange_sdk.Platform.{AmountApi, AmountLaws}
use orange_sdk.Store.Types.{PaymentId, self_custodial, trusted, TxMetadata, MppPayment, id_eq}
use orange_sdk.Store.World.{Store}
use orange_sdk.Store.Mpp.Orders.{IsLeg, IsFresh}
use orange_sdk.Wallet.Receive.{
  NodeError, WalletError, ldk_node_failure, trusted_failure, invalid_invoice, invalid_amount,
  insufficient_funds,
}
use orange_sdk.Wallet.Mpp.{MppWallets, split_rest, ln_portion_of, lone_metadata}

-- Both parts were paid and make up the amount, neither is empty, and both ids lead to one shared
-- entry of which nothing has been reported.
pub record IsSplit (w : MppWallets) (amount trusted_balance ln_balance : ℕ) (id : PaymentId)
    (s : Store) : Type 0 where
  pub trusted_id : ℕ
  pub ln_id : ℕ
  pub ln_portion : ℕ
  pub shared : TxMetadata
  pub legs : MppPayment
  pub surfaced : id ≡ trusted trusted_id
  pub trusted_paid : w.pay_partial trusted_balance ≡ ok trusted_id
  pub ln_paid : w.pay_bolt11_underpaying ln_portion ≡ ok ln_id
  pub sums : trusted_balance + ln_portion ≡ amount
  pub neither_empty : (0 < trusted_balance) × (0 < ln_portion)
  pub affordable : ln_portion ≤ ln_balance
  pub total : legs.total_amount_msat ≡ amount
  pub trusted_leg : IsLeg id id shared legs s
  pub ln_leg : IsLeg (self_custodial ln_id) id shared legs s
  pub fresh : IsFresh id legs

-- Why a payment cannot be split, and the error that says so.
abbrev pub CannotSplit : MppWallets → ℕ → ℕ → ℕ → NodeError → Type 0
CannotSplit w amount trusted_balance ln_balance e =
    ((w.amount_milli_satoshis ≡ none) × (e ≡ invalid_invoice))
    ⊎ ((a : ℕ) × (w.amount_milli_satoshis ≡ some a) × (a ≢ amount) × (e ≡ invalid_amount))
    ⊎ (((trusted_balance ≡ 0)
          ⊎ (amount ≤ trusted_balance)
          ⊎ (trusted_balance + ln_balance < amount))
        × (e ≡ insufficient_funds))

-- The portion is the rest of the amount, neither part is empty, and lightning can afford its part.
abbrev pub Fits : ℕ → ℕ → ℕ → ℕ → Type 0
Fits amount trusted_balance ln_balance portion =
    (trusted_balance + portion ≡ amount)
    × (0 < trusted_balance)
    × (0 < portion)
    × (portion ≤ ln_balance)

-- The payment could not be split and nothing changed; or the trusted wallet refused its part and
-- nothing was recorded; or the lightning wallet refused its part, and the trusted part, which was
-- paid, is recorded as a plain payment. The error is that of what was refused.
abbrev pub IsUnsplit : MppWallets → ℕ → ℕ → ℕ → ℕ → WalletError → Store → Store → Type 0
IsUnsplit w now amount trusted_balance ln_balance e s s' =
    ((x : NodeError) × CannotSplit w amount trusted_balance ln_balance x
      × (e ≡ ldk_node_failure x)
      × (s' ≡ s))
    ⊎ ((portion x : ℕ) × Fits amount trusted_balance ln_balance portion
        × (w.pay_partial trusted_balance ≡ err x)
        × (e ≡ trusted_failure x)
        × (s' ≡ s))
    ⊎ ((portion trusted_id : ℕ) × (x : NodeError) × Fits amount trusted_balance ln_balance portion
        × (w.pay_partial trusted_balance ≡ ok trusted_id)
        × (w.pay_bolt11_underpaying portion ≡ err x)
        × (e ≡ ldk_node_failure x)
        × (s'.tx_metadata ≡ insert (trusted trusted_id) (lone_metadata now) s.tx_metadata))

pub cannot_split :
    (api : AmountApi) (laws : AmountLaws api) (w : MppWallets)
    (amount trusted_balance ln_balance : ℕ) (x : NodeError) (invoice : Option ℕ)
    → amount ≤ api.max_amount
    → w.amount_milli_satoshis ≡ invoice
    → ln_portion_of api invoice amount trusted_balance ln_balance ≡ err x
    → CannotSplit w amount trusted_balance ln_balance x
unfolding ln_portion_of split_rest
cannot_split api laws w amount tb lb x none small is h = inl (is, ground (arith, h))
cannot_split api laws w amount tb lb x (some a) small is h = elim (Bool-cases (nat_beq a amount)) [
  | inr differs ↦ inr (inl (a, is, ground (arith, differs), ground (arith, h, differs)))
  | inl same ↦ inr (
      inr (
        ground (
          arith,
          h,
          same,
          laws.saturating_sub_lem amount tb,
          laws.saturating_add_lem 0 (api.saturating_sub amount tb),
        )))
]

pub portions :
    (api : AmountApi) (laws : AmountLaws api) (invoice : Option ℕ)
    (amount trusted_balance ln_balance portion : ℕ)
    → amount ≤ api.max_amount
    → ln_portion_of api invoice amount trusted_balance ln_balance ≡ ok portion
    → Fits amount trusted_balance ln_balance portion
unfolding ln_portion_of split_rest
portions api laws none amount tb lb portion small h = cc
portions api laws (some invoice) amount tb lb portion small h = ground (
  arith,
  laws.saturating_sub_lem amount tb,
  laws.saturating_add_lem 0 (api.saturating_sub amount tb),
)
