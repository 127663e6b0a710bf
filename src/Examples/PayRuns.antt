-- ===== src/Examples/PayRuns.antt =====
-- Paying at concrete inputs.
use orange_sdk.Prelude.{ℕ, List, ◌≡◌, inl, false, arith, refl, some, [], ◌∷◌, ok, err}
use orange_sdk.Prelude.Run.{Returns}
use orange_sdk.Prelude.Assoc.{get}
use orange_sdk.Wallet.Pay.{PayWallets, Funds, Attempt, unpaid, lightning_bolt11, on_chain, pay}
use orange_sdk.Store.Types.{trusted}
use orange_sdk.Store.Metadata.Effects.{IsNew}
use orange_sdk.Wallet.Pay.Order.{Paid, pay-Paid}
use orange_sdk.Wallet.Mpp.{MppWallets, try_mpp_bolt11}
use orange_sdk.Wallet.Mpp.Legs.{Outcome, try_mpp_bolt11-Outcome}
use orange_sdk.Examples.Fixtures.{msat_api, msat_laws, memory_reliable}
use orange_sdk.Examples.QueueRuns.{queue_backend, one_event}

-- An invoice for 150,000 msat, of which both wallets pay their part.
abbrev both_pay : MppWallets
both_pay = record {
  amount_milli_satoshis = some 150000;
  payment_hash = 9;
  pay_partial = λ amount. ok 7;
  pay_bolt11_underpaying = λ amount. ok 9;
}

try_mpp_bolt11-Outcome_example :
    Returns
      (Outcome queue_backend memory_reliable both_pay 30 150000 100000 60000 one_event)
      (try_mpp_bolt11 queue_backend msat_api both_pay 30 150000 100000 60000 one_event)
try_mpp_bolt11-Outcome_example =
    try_mpp_bolt11-Outcome queue_backend memory_reliable both_pay 30 150000 msat_api msat_laws
      100000 60000 one_event (omega arith) (unfold get in refl) (λ tid e. inl (unfold get in refl))

-- The trusted wallet refuses, and the lightning wallet pays.
abbrev ln_pays : PayWallets
ln_pays = record {
  trusted_fee = λ m a. ok 1000;
  trusted_pay = λ tried. err 3;
  ln_pay = λ tried. ok 12;
  supports_partial_payments = false;
  mpp = λ invoice tried. both_pay;
}

abbrev funds : Funds
funds = record { trusted_balance = 60000; lightning = 80000; onchain = 0; amount = 50000 }

no_news :
    (h : List Attempt) (i : ℕ)
    → ln_pays.trusted_pay h ≡ ok i
    → IsNew queue_backend.backend (trusted i) one_event.store
no_news h i e = cc

pay-Paid_example :
    Returns
      (Paid queue_backend memory_reliable msat_api msat_laws ln_pays funds
        (omega arith)
        40
        one_event
        no_news)
      (pay queue_backend msat_api ln_pays
        (ok funds)
        40
        (some (on_chain 1 ∷ lightning_bolt11 2 ∷ []))
        (unpaid one_event))
pay-Paid_example =
    pay-Paid queue_backend memory_reliable msat_api msat_laws ln_pays funds (omega arith) 40
      one_event no_news (on_chain 1 ∷ lightning_bolt11 2 ∷ []) refl
