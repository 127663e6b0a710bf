-- ===== src/Wallet/Receive.antt =====
-- `Wallet::get_single_use_receive_uri` (orange-sdk/src/lib.rs): which wallet issues the invoice,
-- and whether an on-chain address goes with it.
use orange_sdk.Prelude.{
  ℕ, ◌≤◌, ◌<◌, ◌-◌, ◌≡◌, ◌⊎◌, ◌↔◌, inl, inr, refl, arith, Bool, true, false, ◌&&◌, ◌||◌, Option,
  none, some, Result, ok, err, ltb, leb, if◌then◌else◌, Bool-cases,
}
use orange_sdk.Platform.{AmountApi, AmountLaws}
use orange_sdk.Trigger.{Tunables}

-- `NodeError`, with the kinds that the code names; the others carry a number.
pub data NodeError : Type 0 where
  connection_failed liquidity_request_failed liquidity_source_unavailable : NodeError
  invalid_invoice invalid_amount insufficient_funds invalid_uri : NodeError
  other_error : ℕ → NodeError

pub data WalletError : Type 0 where
  ldk_node_failure : NodeError → WalletError
  trusted_failure : ℕ → WalletError

-- What the two wallets answer. An invoice and an address are numbers.
pub record Issuers : Type 0 where
  pub receivable : ℕ
  pub is_connected_to_lsp : Bool
  pub ln_invoice : Option ℕ → Result ℕ NodeError
  pub trusted_invoice : Option ℕ → Result ℕ ℕ
  pub on_chain_address : Result ℕ NodeError

pub record SingleUseReceiveUri : Type 0 where
  pub address : Option ℕ
  pub invoice : ℕ
  pub amount : Option ℕ
  pub from_trusted : Bool

abbrev pub Issued : Type 0
Issued = Result SingleUseReceiveUri WalletError

-- The error of the lightning wallet on which the trusted wallet steps in.
abbrev pub falls_back : NodeError → Bool
falls_back connection_failed = true
falls_back liquidity_request_failed = true
falls_back liquidity_source_unavailable = true
falls_back _ = false

with_address : ℕ → Option ℕ → Bool → Result ℕ NodeError → Issued
with_address invoice amount from_trusted (ok address) = ok (record {
  address = some address;
  invoice = invoice;
  amount = amount;
  from_trusted = from_trusted;
})
with_address invoice amount from_trusted (err e) = err (ldk_node_failure e)

add_address : Issuers → Bool → ℕ → Option ℕ → Bool → Issued
unfolding with_address
add_address w true invoice amount from_trusted =
    with_address invoice amount from_trusted w.on_chain_address
add_address w false invoice amount from_trusted =
    ok (record { address = none; invoice = invoice; amount = amount; from_trusted = from_trusted })

from_trusted_wallet : Issuers → Bool → Option ℕ → Result ℕ ℕ → Issued
unfolding add_address
from_trusted_wallet w enable_onchain amount (ok invoice) =
    add_address w enable_onchain invoice amount true
from_trusted_wallet w enable_onchain amount (err e) = err (trusted_failure e)

from_ln_wallet : Issuers → Bool → Option ℕ → Result ℕ NodeError → Issued
unfolding from_trusted_wallet
from_ln_wallet w enable_onchain amount (ok invoice) =
    add_address w enable_onchain invoice amount false
from_ln_wallet w enable_onchain amount (err e) =
    if falls_back e
    then from_trusted_wallet w enable_onchain amount (w.trusted_invoice amount)
    else err (ldk_node_failure e)

-- Self custody is used above the trusted limit, and below what lightning can receive while the LSP
-- is online.
unfoldable pub use_ln : AmountApi → Tunables → Issuers → ℕ → Bool
use_ln api t w amt =
    ltb t.trusted_balance_limit amt
    || (ltb amt (api.saturating_sub w.receivable t.rebalance_min) && w.is_connected_to_lsp)

unfoldable pub get_single_use_receive_uri : AmountApi → Tunables → Issuers → Option ℕ → Issued
unfolding from_ln_wallet
get_single_use_receive_uri api t w none =
    from_trusted_wallet w t.enable_amountless_receive_on_chain none (w.trusted_invoice none)
get_single_use_receive_uri api t w (some amt) =
    let enable_onchain = leb t.onchain_receive_threshold amt in
    if use_ln api t w amt
    then from_ln_wallet w enable_onchain (some amt) (w.ln_invoice (some amt))
    else from_trusted_wallet w enable_onchain (some amt) (w.trusted_invoice (some amt))

-- Above the trusted limit, the trusted wallet issues an invoice only where the lightning wallet
-- could not source liquidity.
abbrev pub TrustedReason : AmountApi → Tunables → Issuers → ℕ → Type 0
TrustedReason api t w amt =
    ((amt ≤ t.trusted_balance_limit)
      × ((w.receivable - t.rebalance_min ≤ amt) ⊎ (w.is_connected_to_lsp ≡ false)))
    ⊎ ((e : NodeError) × (w.ln_invoice (some amt) ≡ err e) × (falls_back e ≡ true))

-- The amount is above the trusted limit, or below what lightning can receive, less the least amount
-- of a rebalance, while the LSP is online.
abbrev pub LnReason : Tunables → Issuers → ℕ → Type 0
LnReason t w amt =
    (t.trusted_balance_limit < amt)
    ⊎ ((amt < w.receivable - t.rebalance_min) × (w.is_connected_to_lsp ≡ true))

-- An error is that of a wallet that was asked.
abbrev pub IsAnswered : Issuers → ℕ → WalletError → Type 0
IsAnswered w amt (trusted_failure e) = w.trusted_invoice (some amt) ≡ err e
IsAnswered w amt (ldk_node_failure e) =
    ((w.ln_invoice (some amt) ≡ err e) × (falls_back e ≡ false)) ⊎ (w.on_chain_address ≡ err e)

abbrev pub IsRouted : AmountApi → Tunables → Issuers → ℕ → Issued → Type 0
IsRouted api t w amt (err e) = IsAnswered w amt e
IsRouted api t w amt (ok uri) =
    (uri.amount ≡ some amt)
    × ((uri.from_trusted ≡ true)
        → (w.trusted_invoice (some amt) ≡ ok uri.invoice) × TrustedReason api t w amt)
    × ((uri.from_trusted ≡ false) → (w.ln_invoice (some amt) ≡ ok uri.invoice) × LnReason t w amt)
    × ((uri.address ≡ none) ↔ (amt < t.onchain_receive_threshold))

added-IsRouted :
    (api : AmountApi) (t : Tunables) (w : Issuers) (amt invoice : ℕ) (from_trusted : Bool)
    → ((from_trusted ≡ true)
        → (w.trusted_invoice (some amt) ≡ ok invoice) × TrustedReason api t w amt)
    → ((from_trusted ≡ false) → (w.ln_invoice (some amt) ≡ ok invoice) × LnReason t w amt)
    → IsRouted api t w amt
        (add_address w (leb t.onchain_receive_threshold amt) invoice (some amt) from_trusted)
unfolding add_address
added-IsRouted api t w amt invoice from_trusted ht hl =
    elim (Bool-cases (leb t.onchain_receive_threshold amt)) [
      | inl on ↦ rw on (go w.on_chain_address refl on)
      | inr off ↦ rw off (refl, ht, hl, (λ _. ground arith, λ _. refl))
    ]
  where
    go :
        (o : Result ℕ NodeError)
        → w.on_chain_address ≡ o
        → leb t.onchain_receive_threshold amt ≡ true
        → IsRouted api t w amt (with_address invoice (some amt) from_trusted o)
    go (ok address) e on = (refl, ht, hl, (λ e. cc, λ lt. ground arith))
    go (err n) e on = inr e

trusted-IsRouted :
    (api : AmountApi) (t : Tunables) (w : Issuers) (amt : ℕ) (r : Result ℕ ℕ)
    → w.trusted_invoice (some amt) ≡ r
    → TrustedReason api t w amt
    → IsRouted api t w amt
        (from_trusted_wallet w (leb t.onchain_receive_threshold amt) (some amt) r)
unfolding from_trusted_wallet
trusted-IsRouted api t w amt (ok invoice) e reason =
    added-IsRouted api t w amt invoice true (λ _. (e, reason)) (λ f. cc)
trusted-IsRouted api t w amt (err x) e reason = e

ln-IsRouted :
    (api : AmountApi) (t : Tunables) (w : Issuers) (amt : ℕ) (r : Result ℕ NodeError)
    → w.ln_invoice (some amt) ≡ r
    → LnReason t w amt
    → IsRouted api t w amt (from_ln_wallet w (leb t.onchain_receive_threshold amt) (some amt) r)
unfolding from_ln_wallet
ln-IsRouted api t w amt (ok invoice) e uses =
    added-IsRouted api t w amt invoice false (λ f. cc) (λ _. (e, uses))
ln-IsRouted api t w amt (err n) e uses = elim (Bool-cases (falls_back n)) [
  | inl back ↦
      rw back (trusted-IsRouted api t w amt (w.trusted_invoice (some amt)) refl (inr (n, e, back)))
  | inr final ↦ rw final (inl (e, final))
]

-- A request for an amount ends in the error of a wallet that was asked, or in an invoice for that
-- amount. The trusted wallet issued it only if the amount is within the trusted limit and lightning
-- cannot be relied on to receive it now, or if the lightning wallet could not source liquidity; the
-- lightning wallet issued it only if the amount is above the trusted limit, or is below what it can
-- receive, less the least amount of a rebalance, while the LSP is online. An address goes with it exactly if the amount is not
-- below the on-chain threshold.
pub get_single_use_receive_uri-IsRouted :
    (api : AmountApi) (laws : AmountLaws api) (t : Tunables) (w : Issuers) (amt : ℕ)
    → IsRouted api t w amt (get_single_use_receive_uri api t w (some amt))
unfolding get_single_use_receive_uri
get_single_use_receive_uri-IsRouted api laws t w amt = elim (Bool-cases (use_ln api t w amt)) [
  | inl uses ↦ rw uses (
      ln-IsRouted api t w amt (w.ln_invoice (some amt)) refl (
        unfold use_ln in
        ground (arith, uses, laws.saturating_sub_lem w.receivable t.rebalance_min)))
  | inr dont ↦ rw dont (
      trusted-IsRouted api t w amt (w.trusted_invoice (some amt)) refl (
        inl
          (unfold use_ln in ground (arith, laws.saturating_sub_lem w.receivable t.rebalance_min))))
]
