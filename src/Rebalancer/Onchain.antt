-- ===== src/Rebalancer/Onchain.antt =====
-- The rebalance of on-chain funds, `do_onchain_rebalance_locked`, and the rebalancer's entry points
-- (graduated-rebalancer/src/lib.rs).
pub mod Honest
use orange_sdk.Prelude.{ℕ, Bool, Option, none, some, List, ◌∷◌, if◌then◌else◌}
use orange_sdk.Platform.{AmountApi}
use orange_sdk.Rebalancer.Wallets.{
  Wallets, Call, TriggerParams, needs_trusted_rebalance, needs_onchain_rebalance,
  has_channel_with_lsp, splice_to_lsp_channel, open_channel_with_lsp, await_splice_pending,
  await_channel_pending, handle_event, onchain_rebalance_initiated,
}
use orange_sdk.Rebalancer.Trusted.{do_trusted_rebalance_locked}

await_splice : Wallets → TriggerParams → Option ℕ → List Call → List Call
await_splice w params none h = h
await_splice w params (some id) h =
    let h' = await_splice_pending id ∷ h in
    handle_event (onchain_rebalance_initiated params.id id (w.splice_outpoint h')) ∷ h'

await_channel : Wallets → TriggerParams → Option ℕ → List Call → List Call
await_channel w params none h = h
await_channel w params (some id) h =
    let h' = await_channel_pending id ∷ h in
    handle_event (onchain_rebalance_initiated params.id id (w.channel_outpoint h')) ∷ h'

unfoldable pub do_onchain_rebalance_locked : Wallets → TriggerParams → List Call → List Call
unfolding await_splice await_channel
do_onchain_rebalance_locked w params h =
    let h' = has_channel_with_lsp ∷ h in
    if w.has_channel h'
    then (let h'' = splice_to_lsp_channel ∷ h' in await_splice w params (w.spliced h'') h'')
    else (let h'' = open_channel_with_lsp ∷ h' in await_channel w params (w.opened h'') h'')

trusted_if : Wallets → AmountApi → Option TriggerParams → List Call → List Call
trusted_if w api none h = h
trusted_if w api (some params) h = do_trusted_rebalance_locked w api params h

onchain_if : Wallets → Option TriggerParams → List Call → List Call
onchain_if w none h = h
onchain_if w (some params) h = do_onchain_rebalance_locked w params h

unfoldable pub do_trusted_rebalance_if_needed : Wallets → AmountApi → List Call → List Call
unfolding trusted_if
do_trusted_rebalance_if_needed w api h =
    let h' = needs_trusted_rebalance ∷ h in trusted_if w api (w.trusted_trigger h') h'

unfoldable pub do_onchain_rebalance_if_needed : Wallets → List Call → List Call
unfolding onchain_if
do_onchain_rebalance_if_needed w h =
    let h' = needs_onchain_rebalance ∷ h in onchain_if w (w.onchain_trigger h') h'

unfoldable pub do_rebalance_if_needed : Wallets → AmountApi → List Call → List Call
do_rebalance_if_needed w api h =
    do_onchain_rebalance_if_needed w (do_trusted_rebalance_if_needed w api h)
