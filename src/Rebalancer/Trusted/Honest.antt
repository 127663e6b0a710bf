-- ===== src/Rebalancer/Trusted/Honest.antt =====
-- The events of a rebalance follow the calls that they report.
use orange_sdk.Prelude.{
  ℕ, ◌≡◌, refl, inl, inr, Option, none, some, List, [], ◌∷◌, ◌⊎◌, Bool-cases, ltb, leb, true, false,
}
use orange_sdk.Platform.{AmountApi}
use orange_sdk.Rebalancer.Wallets.{
  Wallets, Call, TriggerParams, ReceivedLightningPayment, RebalancerEvent, get_bolt11_invoice,
  estimate_fee, pay, await_payment_receipt, await_payment_success, has_channel_with_lsp,
  splice_to_lsp_channel, open_channel_with_lsp, await_splice_pending, await_channel_pending,
  handle_event, rebalance_initiated, rebalance_successful, onchain_rebalance_initiated,
}
use orange_sdk.Rebalancer.Trusted.{
  total_fee, report, await_trusted, await_both, pay_invoice, pay_reduced, adjust, estimate,
  do_trusted_rebalance_locked,
}

-- A payment of the amount was sent by the newest call, under the id.
pub record IsSent (w : Wallets) (id amount : ℕ) (h : List Call) : Type 0 where
  pub inv : ℕ
  pub rest : List Call
  pub newest : h ≡ pay inv amount ∷ rest
  pub accepted : w.paid h ≡ some id

-- The payment was sent and announced, and then each side confirmed it, under its payment hash; the
-- lightning payment's id is `lightning`, and `fee` is what the two sides paid.
pub record IsSettled (w : Wallets) (trigger id lightning amount fee : ℕ) (h : List Call)
    : Type 0 where
  pub hash : ℕ
  pub sent : List Call
  pub is_sent : IsSent w id amount sent
  pub same_hash : hash ≡ w.payment_hash is_sent.inv
  pub ln : ReceivedLightningPayment
  pub trusted : ReceivedLightningPayment
  pub newest :
      h
      ≡ await_payment_success hash
        ∷ await_payment_receipt hash
        ∷ handle_event (rebalance_initiated trigger id amount)
        ∷ sent
  pub received :
      w.receipt
        (await_payment_receipt hash ∷ handle_event (rebalance_initiated trigger id amount) ∷ sent)
      ≡ some ln
  pub confirmed : w.success h ≡ some trusted
  pub lightning_is : lightning ≡ ln.id
  pub fee_is : fee ≡ total_fee ln trusted

-- The lightning wallet spliced into its channel with the LSP, or, where it had none, opened one,
-- and the outpoint is the one that it reported for that user channel id.
pub record IsSpliced (w : Wallets) (id : ℕ) (h : List Call) : Type 0 where
  pub rest : List Call
  pub newest : h ≡ await_splice_pending id ∷ splice_to_lsp_channel ∷ has_channel_with_lsp ∷ rest
  pub had_channel : w.has_channel (has_channel_with_lsp ∷ rest) ≡ true
  pub accepted : w.spliced (splice_to_lsp_channel ∷ has_channel_with_lsp ∷ rest) ≡ some id

pub record IsOpened (w : Wallets) (id : ℕ) (h : List Call) : Type 0 where
  pub rest : List Call
  pub newest : h ≡ await_channel_pending id ∷ open_channel_with_lsp ∷ has_channel_with_lsp ∷ rest
  pub had_none : w.has_channel (has_channel_with_lsp ∷ rest) ≡ false
  pub accepted : w.opened (open_channel_with_lsp ∷ has_channel_with_lsp ∷ rest) ≡ some id

-- What stands behind an event that is handed to the handler after the calls `h`.
abbrev pub Justified : Wallets → RebalancerEvent → List Call → Type 0
Justified w (rebalance_initiated trigger id amount) h = IsSent w id amount h
Justified w (rebalance_successful trigger id lightning amount fee) h =
    IsSettled w trigger id lightning amount fee h
Justified w (onchain_rebalance_initiated trigger id outpoint) h =
    (IsSpliced w id h × (outpoint ≡ w.splice_outpoint h))
    ⊎ (IsOpened w id h × (outpoint ≡ w.channel_outpoint h))

-- Every event of the history is justified by the calls before it.
abbrev pub IsHonest : Wallets → List Call → Type 0
IsHonest w [] = Unit
IsHonest w (handle_event e ∷ h) = Justified w e h × IsHonest w h
IsHonest w (c ∷ h) = IsHonest w h

module _ (w : Wallets) (params : TriggerParams) where
  report-IsHonest :
      (id amount : ℕ) (ln : ReceivedLightningPayment) (r : Option ReceivedLightningPayment)
      (h : List Call)
      → ((t : ReceivedLightningPayment)
          → r ≡ some t
          → IsSettled w params.id id ln.id amount (total_fee ln t) h)
      → IsHonest w h
      → IsHonest w (report params id amount ln r h)
  unfolding report
  report-IsHonest id amount ln none h j k = k
  report-IsHonest id amount ln (some t) h j k = (j t refl, k)

  pay_invoice-IsHonest :
      (inv amount : ℕ) (h : List Call)
      → IsHonest w h
      → IsHonest w (pay_invoice w params inv amount h)
  unfolding pay_invoice
  pay_invoice-IsHonest inv amount h k = both (w.paid sent) refl
    where
      sent : List Call
      sent = pay inv amount ∷ h

      hash : ℕ
      hash = w.payment_hash inv

      announced : ℕ → List Call
      announced id =
          await_payment_receipt hash ∷ handle_event (rebalance_initiated params.id id amount) ∷ sent

      is_sent : (id : ℕ) → w.paid sent ≡ some id → IsSent w id amount sent
      is_sent id e = record { inv = inv; rest = h; newest = refl; accepted = e }

      trusted :
          (id : ℕ)
          → w.paid sent ≡ some id
          → (r : Option ReceivedLightningPayment) → w.receipt (announced id) ≡ r
          → IsHonest w (await_trusted w params hash id amount r (announced id))
      trusted id e none e' = unfold await_trusted in (is_sent id e, k)
      trusted id e (some ln) e' =
          unfold await_trusted in
          report-IsHonest id amount ln (w.success (await_payment_success hash ∷ announced id))
            (await_payment_success hash ∷ announced id)
            (λ t e''. record {
              hash = hash;
              sent = sent;
              is_sent = is_sent id e;
              same_hash = refl;
              ln = ln;
              trusted = t;
              newest = refl;
              received = e';
              confirmed = e'';
              lightning_is = refl;
              fee_is = refl;
            })
            (is_sent id e, k)

      both : (r : Option ℕ) → w.paid sent ≡ r → IsHonest w (await_both w params hash amount r sent)
      both none e = unfold await_both in k
      both (some id) e = unfold await_both in trusted id e (w.receipt (announced id)) refl

  pay_reduced-IsHonest :
      (inv : Option ℕ) (amount : ℕ) (h : List Call)
      → IsHonest w h
      → IsHonest w (pay_reduced w params inv amount h)
  unfolding pay_reduced
  pay_reduced-IsHonest none amount h k = k
  pay_reduced-IsHonest (some inv) amount h k = pay_invoice-IsHonest inv amount h k

  adjust-IsHonest :
      (api : AmountApi) (inv : ℕ) (fee : Option ℕ) (h : List Call)
      → IsHonest w h
      → IsHonest w (adjust w api params inv fee h)
  unfolding adjust
  adjust-IsHonest api inv none h k = pay_invoice-IsHonest inv params.amount h k
  adjust-IsHonest api inv (some fee) h k = elim (Bool-cases (leb params.amount fee)) [
    | inl dear ↦ rw dear k
    | inr fair ↦ elim (Bool-cases (ltb params.amount (api.saturating_add params.amount fee))) [
      | inl over ↦
          let reduced : ℕ = api.saturating_sub params.amount fee in
          let h' : List Call = get_bolt11_invoice reduced ∷ h in
          rw (fair, over) (pay_reduced-IsHonest (w.invoice h') reduced h' k)
      | inr within ↦ rw (fair, within) (pay_invoice-IsHonest inv params.amount h k)
    ]
  ]

  estimate-IsHonest :
      (api : AmountApi) (inv : Option ℕ) (h : List Call)
      → IsHonest w h
      → IsHonest w (estimate w api params inv h)
  unfolding estimate
  estimate-IsHonest api none h k = k
  estimate-IsHonest api (some inv) h k =
      let h' : List Call = estimate_fee inv params.amount ∷ h in
      adjust-IsHonest api inv (w.fee h') h' k

  pub do_trusted_rebalance_locked-IsHonest :
      (api : AmountApi) (h : List Call)
      → IsHonest w h
      → IsHonest w (do_trusted_rebalance_locked w api params h)
  unfolding do_trusted_rebalance_locked
  do_trusted_rebalance_locked-IsHonest api h k =
      let h' : List Call = get_bolt11_invoice params.amount ∷ h in
      estimate-IsHonest api (w.invoice h') h' k
