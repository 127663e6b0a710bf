-- ===== src/Rebalancer/Onchain/Honest.antt =====
-- Every event of the rebalancer follows the calls that it reports, whatever the wallets answer.
use orange_sdk.Prelude.{
  ℕ, ◌≡◌, refl, inl, inr, Option, none, some, List, ◌∷◌, Bool-cases, true, false,
}
use orange_sdk.Platform.{AmountApi}
use orange_sdk.Rebalancer.Wallets.{
  Wallets, Call, TriggerParams, needs_trusted_rebalance, needs_onchain_rebalance,
  has_channel_with_lsp, splice_to_lsp_channel, open_channel_with_lsp,
}
use orange_sdk.Rebalancer.Trusted.Honest.{IsHonest, do_trusted_rebalance_locked-IsHonest}
use orange_sdk.Rebalancer.Onchain.{
  await_splice, await_channel, do_onchain_rebalance_locked, trusted_if, onchain_if,
  do_trusted_rebalance_if_needed, do_onchain_rebalance_if_needed, do_rebalance_if_needed,
}

module _ (w : Wallets) where
  spliced-IsHonest :
      (params : TriggerParams) (rest : List Call) (r : Option ℕ)
      → w.has_channel (has_channel_with_lsp ∷ rest) ≡ true
      → w.spliced (splice_to_lsp_channel ∷ has_channel_with_lsp ∷ rest) ≡ r
      → IsHonest w rest
      → IsHonest w (await_splice w params r (splice_to_lsp_channel ∷ has_channel_with_lsp ∷ rest))
  unfolding await_splice
  spliced-IsHonest params rest none has e k = k
  spliced-IsHonest params rest (some id) has e k =
      (inl (record { rest = rest; newest = refl; had_channel = has; accepted = e }, refl), k)

  opened-IsHonest :
      (params : TriggerParams) (rest : List Call) (r : Option ℕ)
      → w.has_channel (has_channel_with_lsp ∷ rest) ≡ false
      → w.opened (open_channel_with_lsp ∷ has_channel_with_lsp ∷ rest) ≡ r
      → IsHonest w rest
      → IsHonest w (await_channel w params r (open_channel_with_lsp ∷ has_channel_with_lsp ∷ rest))
  unfolding await_channel
  opened-IsHonest params rest none has e k = k
  opened-IsHonest params rest (some id) has e k =
      (inr (record { rest = rest; newest = refl; had_none = has; accepted = e }, refl), k)

  do_onchain_rebalance_locked-IsHonest :
      (params : TriggerParams) (h : List Call)
      → IsHonest w h
      → IsHonest w (do_onchain_rebalance_locked w params h)
  unfolding do_onchain_rebalance_locked
  do_onchain_rebalance_locked-IsHonest params h k =
      elim (Bool-cases (w.has_channel (has_channel_with_lsp ∷ h))) [
        | inl has ↦ rw has (spliced-IsHonest params h _ has refl k)
        | inr hasnt ↦ rw hasnt (opened-IsHonest params h _ hasnt refl k)
      ]

  trusted_if-IsHonest :
      (api : AmountApi) (t : Option TriggerParams) (h : List Call)
      → IsHonest w h
      → IsHonest w (trusted_if w api t h)
  unfolding trusted_if
  trusted_if-IsHonest api none h k = k
  trusted_if-IsHonest api (some params) h k = do_trusted_rebalance_locked-IsHonest w params api h k

  onchain_if-IsHonest :
      (t : Option TriggerParams) (h : List Call) → IsHonest w h → IsHonest w (onchain_if w t h)
  unfolding onchain_if
  onchain_if-IsHonest none h k = k
  onchain_if-IsHonest (some params) h k = do_onchain_rebalance_locked-IsHonest params h k

  -- Whatever the wallets and the triggers answer, each event that a run of the rebalancer hands to
  -- its handler is justified by the calls just before it: a rebalance is announced once its payment
  -- was accepted, reported successful once both wallets confirmed the same payment hash, with the
  -- announced amount and the fees of both, and an on-chain one is announced with the channel and
  -- outpoint of the splice, or of the new channel where there was none.
  pub do_rebalance_if_needed-IsHonest :
      (api : AmountApi) (h : List Call) → IsHonest w h → IsHonest w (do_rebalance_if_needed w api h)
  unfolding do_rebalance_if_needed do_trusted_rebalance_if_needed do_onchain_rebalance_if_needed
  do_rebalance_if_needed-IsHonest api h k =
      let h₁ : List Call = needs_trusted_rebalance ∷ h in
      let h₂ : List Call = do_trusted_rebalance_if_needed w api h in
      let h₃ : List Call = needs_onchain_rebalance ∷ h₂ in
      onchain_if-IsHonest (w.onchain_trigger h₃) h₃
        (trusted_if-IsHonest api (w.trusted_trigger h₁) h₁ k)
