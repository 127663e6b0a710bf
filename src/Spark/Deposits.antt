-- ===== src/Spark/Deposits.antt =====
-- Deposits and cross-chain swaps (`add_deposit` to `list_active_cross_chain_swaps` in
-- orange-sdk/src/trusted_wallet/spark/spark_store.rs).
use orange_sdk.Prelude.{
  ℕ, Bool, false, ◌&&◌, not, Option, none, some, List, [], ◌∷◌, ◌++◌, Text, codes, Result, ok, err,
  if◌then◌else◌, ◌==◌, nat_eq, text_beq,
}
use orange_sdk.Prelude.Act.{Act, return, try, ◌>>=◌}
use orange_sdk.Platform.Kv.{Calls, read_key, ok_or}
use orange_sdk.Spark.{SparkApi, StorageError, serialization, DepositInfo, StoredCrossChainSwap}
use orange_sdk.Spark.Cells.{
  spark_key, write_data, remove_data, list_data, read_all, optional_data, sync_record_key,
}

-- `UpdateDepositPayload`.
pub data UpdateDepositPayload : Type 0 where
  claim_error : ℕ → UpdateDepositPayload
  refund : ℕ → ℕ → ℕ → UpdateDepositPayload
  instant_claim : ℕ → UpdateDepositPayload
  refund_broadcast_state : ℕ → ℕ → UpdateDepositPayload

is_refund : Option ℕ → ℕ → Bool
is_refund none txid = false
is_refund (some t) txid = t == txid

-- The arms of the `match` on the payload: none where the update is dropped.
unfoldable pub updated_deposit : UpdateDepositPayload → DepositInfo → Option DepositInfo
unfolding is_refund
updated_deposit (claim_error error) deposit = some (record deposit { claim_error = some error })
updated_deposit (refund refund_txid refund_tx state) deposit = some (record deposit {
  refund_tx_id = some refund_txid;
  refund_tx = some refund_tx;
  refund_state = some state;
  claim_error = none;
})
updated_deposit (instant_claim status) deposit =
    some (record deposit { instant_claim_status = some status })
updated_deposit (refund_broadcast_state refund_txid state) deposit =
    if is_refund deposit.refund_tx_id refund_txid
    then some (record deposit { refund_state = some state })
    else none

-- The swaps of the provider that are not finished.
select_active : Text → List StoredCrossChainSwap → List StoredCrossChainSwap
select_active provider [] = []
select_active provider (s ∷ ss) =
    let rest = select_active provider ss in
    if text_beq s.provider provider && not s.is_terminal then s ∷ rest else rest

module _ (api : SparkApi) where
  -- `format!("{txid}_{vout}")`.
  abbrev pub deposit_id : Text → ℕ → Text
  deposit_id txid vout = txid ++ (95 ∷ api.to_decimal vout)

  -- The deposit that is stored, or a new one.
  unfoldable pub found_deposit : Text → ℕ → Option (List ℕ) → Result DepositInfo StorageError
  found_deposit txid vout (some d) = ok_or serialization (api.deposit_json.from_slice d)
  found_deposit txid vout none = ok (record {
    txid = txid;
    vout = vout;
    amount_sats = 0;
    is_mature = false;
    refund_tx = none;
    refund_tx_id = none;
    claim_error = none;
    refund_state = none;
    instant_claim_status = none;
  })

  unfoldable pub write_deposit : Text → ℕ → DepositInfo → Act Calls StorageError (Unit {0})
  write_deposit txid vout deposit = do
    d ← try (ok_or serialization (api.deposit_json.to_vec deposit))
    write_data api (codes "deposit") (deposit_id txid vout) d

  unfoldable pub add_deposit : Text → ℕ → ℕ → Bool → Act Calls StorageError (Unit {0})
  unfolding optional_data found_deposit write_deposit
  add_deposit txid vout amount_sats is_mature = do
    r ← read_key api.kv (spark_key (codes "deposit") (deposit_id txid vout))
    d ← try (optional_data api r)
    info ← try (found_deposit txid vout d)
    write_deposit txid vout (record info { amount_sats = amount_sats; is_mature = is_mature })

  unfoldable pub delete_deposit : Text → ℕ → Act Calls StorageError (Unit {0})
  delete_deposit txid vout = remove_data api (codes "deposit") (deposit_id txid vout)

  unfoldable pub list_deposits : Act Calls StorageError (List DepositInfo)
  unfolding read_all
  list_deposits = do
    keys ← list_data api (codes "deposit")
    read_all api api.deposit_json (codes "deposit") keys

  -- An update of a deposit that is not there does nothing.
  unfoldable pub update_stored_deposit :
      Text → ℕ → UpdateDepositPayload → Option (List ℕ) → Act Calls StorageError (Unit {0})
  unfolding updated_deposit write_deposit
  update_stored_deposit txid vout payload none = return tt
  update_stored_deposit txid vout payload (some d) = do
    deposit ← try (ok_or serialization (api.deposit_json.from_slice d))
    elim (updated_deposit payload deposit) [
      | none ↦ return tt
      | some updated ↦ write_deposit txid vout updated
    ]

  unfoldable pub update_deposit :
      Text → ℕ → UpdateDepositPayload → Act Calls StorageError (Unit {0})
  unfolding optional_data update_stored_deposit
  update_deposit txid vout payload = do
    r ← read_key api.kv (spark_key (codes "deposit") (deposit_id txid vout))
    d ← try (optional_data api r)
    update_stored_deposit txid vout payload d

  unfoldable pub set_cross_chain_swap : StoredCrossChainSwap → Act Calls StorageError (Unit {0})
  unfolding sync_record_key
  set_cross_chain_swap swap = do
    d ← try (ok_or serialization (api.swap_json.to_vec swap))
    write_data api (codes "cross_chain") (sync_record_key api (swap.provider ∷ swap.id ∷ [])) d

  found_swap : Option (List ℕ) → Result (Option StoredCrossChainSwap) StorageError
  found_swap none = ok none
  found_swap (some d) = elim (api.swap_json.from_slice d) [
    | none ↦ err serialization
    | some swap ↦ ok (some swap)
  ]

  unfoldable pub get_cross_chain_swap :
      Text → Text → Act Calls StorageError (Option StoredCrossChainSwap)
  unfolding sync_record_key optional_data found_swap
  get_cross_chain_swap provider id = do
    r ← read_key api.kv (spark_key (codes "cross_chain") (sync_record_key api (provider ∷ id ∷ [])))
    d ← try (optional_data api r)
    try (found_swap d)

  unfoldable pub list_active_cross_chain_swaps :
      Text → Act Calls StorageError (List StoredCrossChainSwap)
  unfolding read_all select_active
  list_active_cross_chain_swaps provider = do
    keys ← list_data api (codes "cross_chain")
    swaps ← read_all api api.swap_json (codes "cross_chain") keys
    return (select_active provider swaps)
