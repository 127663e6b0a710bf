-- ===== src/Examples/WalletRuns.antt =====
-- Building payments and receiving at concrete inputs.
use orange_sdk.Prelude.{◌≡◌, ◌↔◌, true, none, some, ok, err}
use orange_sdk.Wallet.PaymentInfo.{
  configurable_amount, fixed_amount, build, Allows, IsDetermined, build_given, build-IsDetermined,
}
use orange_sdk.Wallet.Receive.{
  Issuers, connection_failed, get_single_use_receive_uri, IsRouted,
  get_single_use_receive_uri-IsRouted,
}
use orange_sdk.Trigger.{Tunables}
use orange_sdk.Examples.Fixtures.{msat_api, msat_laws}

build_given_example :
    (build msat_api (configurable_amount (some 1000) none) (some 5000)
      ≡ ok (record { instructions = configurable_amount (some 1000) none; amount = 5000 }))
    ↔ Allows msat_api (configurable_amount (some 1000) none) 5000
build_given_example = build_given msat_api (configurable_amount (some 1000) none) 5000

build-IsDetermined_example :
    IsDetermined
      (fixed_amount (some 7000) (some 8000))
      (build msat_api (fixed_amount (some 7000) (some 8000)) none)
build-IsDetermined_example = build-IsDetermined msat_api (fixed_amount (some 7000) (some 8000))

-- The LSP is online, but the lightning wallet fails to connect.
abbrev issuers : Issuers
issuers = record {
  receivable = 0;
  is_connected_to_lsp = true;
  ln_invoice = λ amount. err connection_failed;
  trusted_invoice = λ amount. ok 12;
  on_chain_address = ok 34;
}

abbrev tunables : Tunables
tunables = record {
  trusted_balance_limit = 100000;
  rebalance_min = 5000;
  onchain_receive_threshold = 10000;
  enable_amountless_receive_on_chain = true;
}

receive_uri_example :
    IsRouted msat_api tunables issuers 200000
      (get_single_use_receive_uri msat_api tunables issuers (some 200000))
receive_uri_example = get_single_use_receive_uri-IsRouted msat_api msat_laws tunables issuers 200000
