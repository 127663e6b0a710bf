-- ===== src/Rebalancer/Trusted.antt =====
-- The rebalance from the trusted to the lightning wallet, `do_trusted_rebalance_locked`
-- (graduated-rebalancer/src/lib.rs). A function takes the calls made so far to those after it. The
-- balance mutex is held throughout, so no other rebalance stands between them.
pub mod Bounds
pub mod Honest
use orange_sdk.Prelude.{
  ℕ, ◌+◌, ◌%◌, ◌^◌, Option, none, some, List, ◌∷◌, ltb, leb, if◌then◌else◌, unwrap_or,
}
use orange_sdk.Platform.{AmountApi}
use orange_sdk.Rebalancer.Wallets.{
  Wallets, Call, TriggerParams, ReceivedLightningPayment, get_bolt11_invoice, estimate_fee, pay,
  await_payment_receipt, await_payment_success, handle_event, rebalance_initiated,
  rebalance_successful,
}

-- The fees of the two sides, added on `u64`.
abbrev pub total_fee : ReceivedLightningPayment → ReceivedLightningPayment → ℕ
total_fee ln trusted = (unwrap_or ln.fee_paid_msat 0 + unwrap_or trusted.fee_paid_msat 0) % 2 ^ 64

-- The payment was sent: both sides are awaited, and the end is reported.
report :
    TriggerParams
    → ℕ
    → ℕ
    → ReceivedLightningPayment
    → Option ReceivedLightningPayment
    → List Call
    → List Call
report params id amount ln none h = h
report params id amount ln (some trusted) h =
    handle_event (rebalance_successful params.id id ln.id amount (total_fee ln trusted)) ∷ h

await_trusted :
    Wallets → TriggerParams → ℕ → ℕ → ℕ → Option ReceivedLightningPayment → List Call → List Call
unfolding report
await_trusted w params hash id amount none h = h
await_trusted w params hash id amount (some ln) h =
    let h' = await_payment_success hash ∷ h in report params id amount ln (w.success h') h'

await_both : Wallets → TriggerParams → ℕ → ℕ → Option ℕ → List Call → List Call
unfolding await_trusted
await_both w params hash amount none h = h
await_both w params hash amount (some id) h =
    let h' =
      await_payment_receipt hash ∷ handle_event (rebalance_initiated params.id id amount) ∷ h in
    await_trusted w params hash id amount (w.receipt h') h'

pay_invoice : Wallets → TriggerParams → ℕ → ℕ → List Call → List Call
unfolding await_both
pay_invoice w params inv amount h =
    let h' = pay inv amount ∷ h in await_both w params (w.payment_hash inv) amount (w.paid h') h'

pay_reduced : Wallets → TriggerParams → Option ℕ → ℕ → List Call → List Call
unfolding pay_invoice
pay_reduced w params none amount h = h
pay_reduced w params (some inv) amount h = pay_invoice w params inv amount h

-- The estimated fee is taken from the amount, if the two together exceed what is to be moved.
adjust : Wallets → AmountApi → TriggerParams → ℕ → Option ℕ → List Call → List Call
unfolding pay_invoice pay_reduced
adjust w api params inv none h = pay_invoice w params inv params.amount h
adjust w api params inv (some fee) h =
    if leb params.amount fee
    then h
    else if ltb params.amount (api.saturating_add params.amount fee)
    then (let reduced = api.saturating_sub params.amount fee in
        let h' = get_bolt11_invoice reduced ∷ h in pay_reduced w params (w.invoice h') reduced h')
    else pay_invoice w params inv params.amount h

estimate : Wallets → AmountApi → TriggerParams → Option ℕ → List Call → List Call
unfolding adjust
estimate w api params none h = h
estimate w api params (some inv) h =
    let h' = estimate_fee inv params.amount ∷ h in adjust w api params inv (w.fee h') h'

unfoldable pub do_trusted_rebalance_locked :
    Wallets → AmountApi → TriggerParams → List Call → List Call
unfolding estimate
do_trusted_rebalance_locked w api params h =
    let h' = get_bolt11_invoice params.amount ∷ h in estimate w api params (w.invoice h') h'
