-- ===== src/Examples/RebalancerRuns.antt =====
-- The rebalancer and its trigger at concrete inputs.
use orange_sdk.Prelude.{◌≡◌, ◌≤◌, ◌-◌, ◌⊎◌, arith, true, false, none, some, [], ◌∷◌, refl}
use orange_sdk.Prelude.Run.{Returns}
use orange_sdk.Store.Types.{TxStatus}
use orange_sdk.Store.World.{Store}
use orange_sdk.Rebalancer.Wallets.{Wallets, TriggerParams}
use orange_sdk.Rebalancer.Trusted.{do_trusted_rebalance_locked}
use orange_sdk.Rebalancer.Trusted.Bounds.{
  payments, fee_estimate, Spends, do_trusted_rebalance_locked-Spends,
}
use orange_sdk.Rebalancer.Trusted.Honest.{IsHonest}
use orange_sdk.Rebalancer.Onchain.{do_rebalance_if_needed}
use orange_sdk.Rebalancer.Onchain.Honest.{do_rebalance_if_needed-IsHonest}
use orange_sdk.Trigger.{Tunables, Payment, WalletView, transfer_amount}
use orange_sdk.Trigger as Trigger
use orange_sdk.Trigger.Amounts.{transfer_amount_bounds}
use orange_sdk.Trigger.Victim.{Names, needs_trusted_rebalance-Names}
use orange_sdk.Trigger.Onchain.{LnPayment, LnView, TriggerState, needs_onchain_rebalance}
use orange_sdk.Trigger.Onchain.Cause.{Causes, needs_onchain_rebalance-Causes}
use orange_sdk.Examples.QueueRuns.{queue_backend, one_event}
use orange_sdk.Examples.Fixtures.{memory_backend, memory_reliable, msat_api, msat_laws, empty_store}

-- Both wallets answer every call; the fee of a payment is estimated at 2 sats.
abbrev willing : Wallets
willing = record {
  payment_hash = λ inv. inv;
  trusted_trigger = λ h. some (record { id = 4; amount = 100000 });
  onchain_trigger = λ h. some (record { id = 5; amount = 70000 });
  invoice = λ h. some 11;
  fee = λ h. some 2000;
  paid = λ h. some 3;
  receipt = λ h. some (record { id = 8; fee_paid_msat = none });
  success = λ h. some (record { id = 3; fee_paid_msat = some 1500 });
  has_channel = λ h. false;
  spliced = λ h. none;
  opened = λ h. some 6;
  splice_outpoint = λ h. record { txid = 0; vout = 0 };
  channel_outpoint = λ h. record { txid = 77; vout = 1 };
}

abbrev one_rebalance : TriggerParams
one_rebalance = record { id = 4; amount = 100000 }

do_rebalance_if_needed_example : IsHonest willing (do_rebalance_if_needed willing msat_api [])
do_rebalance_if_needed_example = do_rebalance_if_needed-IsHonest willing msat_api [] tt

trusted_payment_example :
    Spends one_rebalance
      (fee_estimate willing one_rebalance [])
      []
      (payments (do_trusted_rebalance_locked willing msat_api one_rebalance []))
trusted_payment_example =
    do_trusted_rebalance_locked-Spends willing one_rebalance msat_api msat_laws (omega arith) []

abbrev tunables : Tunables
tunables = record {
  trusted_balance_limit = 100000;
  rebalance_min = 5000;
  onchain_receive_threshold = 10000;
  enable_amountless_receive_on_chain = true;
}

abbrev receipt : Payment
receipt = record {
  id = 1;
  amount = 120000;
  fee = 0;
  status = TxStatus.completed;
  outbound = false;
  time_since_epoch = 10;
}

abbrev view : WalletView
view = record {
  trusted_payments = some (receipt ∷ []);
  trusted_balance = some 120000;
  receivable = 400000;
}

-- The switch has been read.
abbrev switched_on : Store
switched_on = record empty_store { rebalance_enabled = some true }

trigger_example :
    Returns
      (Names memory_backend msat_api tunables view true)
      (Trigger.needs_trusted_rebalance memory_backend msat_api tunables view switched_on)
trigger_example =
    needs_trusted_rebalance-Names memory_backend memory_reliable msat_api tunables view true
      switched_on refl

transfer_amount_example :
    (transfer_amount msat_api tunables 400000 120000 ≤ 120000)
    × (120000 - transfer_amount msat_api tunables 400000 120000 ≤ 100000)
    × ((transfer_amount msat_api tunables 400000 120000 ≡ 120000)
        ⊎ (transfer_amount msat_api tunables 400000 120000 ≡ 395000))
transfer_amount_example = transfer_amount_bounds msat_api msat_laws tunables 400000 120000

abbrev onchain_receipt : LnPayment
onchain_receipt = record {
  id = 31;
  onchain = some (32, 6, true);
  amount_msat = some 9_000_000;
  outbound = false;
  status = TxStatus.completed;
  latest_update_timestamp = 60;
}

abbrev chain_view : LnView
chain_view = record {
  latest_sync = some 70;
  recent_payments = onchain_receipt ∷ [];
  payments = onchain_receipt ∷ [];
  spendable_sats = 9000;
}

abbrev before_sync : TriggerState
before_sync = record { events = record one_event { store = switched_on }; onchain_sync_time = 50 }

needs_onchain_rebalance-Causes_example :
    Returns
      (λ r t. Causes msat_api tunables chain_view before_sync 9_000_000 true r t.events)
      (needs_onchain_rebalance queue_backend msat_api tunables chain_view before_sync)
needs_onchain_rebalance-Causes_example =
    needs_onchain_rebalance-Causes queue_backend memory_reliable msat_api tunables chain_view
      9_000_000 refl true before_sync refl (refl, tt)
