-- ===== src/Rebalancer/Trusted/Bounds.antt =====
-- What a rebalance pays out of the trusted wallet.
use orange_sdk.Prelude.{
  ℕ, ◌+◌, ◌≤◌, ◌<◌, ◌≡◌, refl, inl, inr, Option, none, some, List, [], ◌∷◌, arith, ◌-◌, ◌⊎◌,
  Bool-cases, ltb, leb, is_some, unwrap_or, true,
}
use orange_sdk.Platform.{AmountApi, AmountLaws}
use orange_sdk.Rebalancer.Wallets.{
  Wallets, Call, TriggerParams, ReceivedLightningPayment, pay, get_bolt11_invoice, estimate_fee,
  await_payment_success, await_payment_receipt, handle_event, rebalance_initiated,
}
use orange_sdk.Rebalancer.Trusted.{
  report, await_trusted, await_both, pay_invoice, pay_reduced, adjust, estimate,
  do_trusted_rebalance_locked,
}

-- The amounts that the calls pay, newest first.
abbrev pub payments : List Call → List ℕ
payments [] = []
payments (pay inv amount ∷ h) = amount ∷ payments h
payments (c ∷ h) = payments h

-- The answer to the fee estimate of a rebalance that starts after the calls `h`; a rebalance that
-- gets no invoice asks for no estimate.
abbrev pub fee_estimate : Wallets → TriggerParams → List Call → Option ℕ
fee_estimate w params h =
    let h' = get_bolt11_invoice params.amount ∷ h in
    elim (w.invoice h') [ none ↦ none | some inv ↦ w.fee (estimate_fee inv params.amount ∷ h') ]

-- At most one payment more, and its amount with the estimated fee is within what is to be moved.
abbrev pub Spends : TriggerParams → Option ℕ → List ℕ → List ℕ → Type 0
Spends params fee before after =
    (after ≡ before)
    ⊎ ((amount : ℕ) × (after ≡ amount ∷ before)
        × (amount + unwrap_or fee 0 ≤ params.amount)
        × (is_some fee ≡ true → 0 < amount))

module _ (w : Wallets) (params : TriggerParams) where
  payments-report :
      (id amount : ℕ) (ln : ReceivedLightningPayment) (r : Option ReceivedLightningPayment)
      (h : List Call)
      → payments (report params id amount ln r h) ≡ payments h
  unfolding report
  payments-report id amount ln none h = refl
  payments-report id amount ln (some t) h = refl

  payments-await_trusted :
      (hash id amount : ℕ) (r : Option ReceivedLightningPayment) (h : List Call)
      → payments (await_trusted w params hash id amount r h) ≡ payments h
  unfolding await_trusted
  payments-await_trusted hash id amount none h = refl
  payments-await_trusted hash id amount (some ln) h =
      let h' : List Call = await_payment_success hash ∷ h in
      payments-report id amount ln (w.success h') h'

  payments-await_both :
      (hash amount : ℕ) (r : Option ℕ) (h : List Call)
      → payments (await_both w params hash amount r h) ≡ payments h
  unfolding await_both
  payments-await_both hash amount none h = refl
  payments-await_both hash amount (some id) h =
      let h' : List Call =
        await_payment_receipt hash ∷ handle_event (rebalance_initiated params.id id amount) ∷ h in
      payments-await_trusted hash id amount (w.receipt h') h'

  payments-pay_invoice :
      (inv amount : ℕ) (h : List Call)
      → payments (pay_invoice w params inv amount h) ≡ amount ∷ payments h
  unfolding pay_invoice
  payments-pay_invoice inv amount h =
      let h' : List Call = pay inv amount ∷ h in
      payments-await_both (w.payment_hash inv) amount (w.paid h') h'

  pay_reduced-Spends :
      (inv : Option ℕ) (fee amount : ℕ) (h : List Call)
      → amount + fee ≤ params.amount
      → 0 < amount
      → Spends params (some fee) (payments h) (payments (pay_reduced w params inv amount h))
  unfolding pay_reduced
  pay_reduced-Spends none fee amount h le pos = inl refl
  pay_reduced-Spends (some inv) fee amount h le pos =
      inr (amount, payments-pay_invoice inv amount h, le, λ _. pos)

  module _ (api : AmountApi) (laws : AmountLaws api) (small : params.amount < api.max_amount) where
    adjust-Spends :
        (inv : ℕ) (fee : Option ℕ) (h : List Call)
        → Spends params fee (payments h) (payments (adjust w api params inv fee h))
    unfolding adjust
    adjust-Spends inv none h =
        inr (params.amount, payments-pay_invoice inv params.amount h, omega arith, λ e. cc)
    adjust-Spends inv (some fee) h = elim (Bool-cases (leb params.amount fee)) [
      | inl dear ↦ rw dear (inl refl)
      | inr fair ↦ elim (Bool-cases (ltb params.amount (api.saturating_add params.amount fee))) [
        | inl over ↦
            let reduced : ℕ = api.saturating_sub params.amount fee in
            let is : reduced ≡ params.amount - fee = laws.saturating_sub_lem params.amount fee in
            rw (fair, over)
              (pay_reduced-Spends (w.invoice (get_bolt11_invoice reduced ∷ h)) fee reduced
                (get_bolt11_invoice reduced ∷ h) (ground arith) (ground arith))
        | inr within ↦
            rw (fair, within)
              (inr (
                params.amount,
                payments-pay_invoice inv params.amount h,
                ground (arith, laws.saturating_add_lem params.amount fee),
                λ _. ground arith,
              ))
      ]
    ]

    -- Where the amount to be moved is less than the greatest amount: a rebalance sends at most one
    -- payment out of the trusted wallet. Its amount and the fee that
    -- was estimated for it (nothing, where the estimate failed) are together at most the amount to
    -- be moved, and with an estimate the payment is not empty.
    pub do_trusted_rebalance_locked-Spends :
        (h : List Call)
        → Spends params
            (fee_estimate w params h)
            (payments h)
            (payments (do_trusted_rebalance_locked w api params h))
    unfolding do_trusted_rebalance_locked
    do_trusted_rebalance_locked-Spends h =
        go (w.invoice (get_bolt11_invoice params.amount ∷ h)) refl
      where
        go :
            (inv : Option ℕ)
            → w.invoice (get_bolt11_invoice params.amount ∷ h) ≡ inv
            → Spends params (fee_estimate w params h) (payments h) (
                payments (
                  estimate w api params
                    (w.invoice (get_bolt11_invoice params.amount ∷ h))
                    (get_bolt11_invoice params.amount ∷ h)))
        go none e = rw (e, estimate) (inl refl)
        go (some inv) e =
            let h' : List Call =
              estimate_fee inv params.amount ∷ get_bolt11_invoice params.amount ∷ h in
            rw (e, estimate, fee_estimate) (adjust-Spends inv (w.fee h') h')
