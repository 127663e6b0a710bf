-- ===== src/Trigger/Amounts.antt =====
-- How much a rebalance moves.
use orange_sdk.Prelude.{ℕ, ◌≤◌, ◌-◌, ◌≡◌, ◌⊎◌, arith, min}
use orange_sdk.Platform.{AmountApi, AmountLaws}
use orange_sdk.Trigger.{Tunables, transfer_amount}

-- The amount to be moved is covered by the trusted balance, what stays is within the limit of the
-- trusted balance, and the amount is either the whole balance or what lightning is relied on to
-- receive, its estimate less `rebalance_min`.
pub transfer_amount_bounds :
    (api : AmountApi) (laws : AmountLaws api) (t : Tunables) (receivable bal : ℕ)
    → let amount = transfer_amount api t receivable bal in
      (amount ≤ bal)
      × (bal - amount ≤ t.trusted_balance_limit)
      × ((amount ≡ bal) ⊎ (amount ≡ receivable - t.rebalance_min))
unfolding transfer_amount
transfer_amount_bounds api laws t receivable bal =
    let transfer : ℕ = min (receivable - t.rebalance_min) bal in
    ground (
      arith,
      laws.saturating_sub_lem receivable t.rebalance_min,
      laws.saturating_sub_lem bal transfer,
    )
