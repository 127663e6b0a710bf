-- ===== src/Cashu/Sagas.antt =====
-- Sagas (`add_saga` to `get_incomplete_sagas` in
-- orange-sdk/src/trusted_wallet/cashu/cashu_store.rs): an update must carry the next version.
use orange_sdk.Prelude.{ℕ, Bool, true, false, Option, none, some, List, if◌then◌else◌, ◌==◌, nat_eq}
use orange_sdk.Prelude.Act.{Act, return, map_err, ◌>>=◌, ◌>>◌}
use orange_sdk.Platform.{StoreKey}
use orange_sdk.Platform.Kv.{Calls}
use orange_sdk.Cashu.{CashuApi, CdkError, into_cdk, WalletSaga}
use orange_sdk.Cashu.Records.{cashu_key, sagas_key, read_record, write_record, read_listed}
use orange_sdk.Cashu.Quotes.{remove_record, cdk_list, checked_next}

-- Whether the version given is the one after the stored one, which must not overflow.
unfoldable pub is_next : ℕ → ℕ → Bool
is_next stored given = elim (checked_next stored) [ none ↦ false | some v ↦ v == given ]

module _ (api : CashuApi) where
  abbrev pub saga_key : ℕ → StoreKey
  saga_key id = cashu_key sagas_key (api.uuid_to_string id)

  unfoldable pub add_saga : WalletSaga → Act Calls CdkError (Unit {0})
  unfolding write_record
  add_saga saga = map_err into_cdk (write_record api.kv api.saga_json (saga_key saga.id) saga)

  unfoldable pub get_saga : ℕ → Act Calls CdkError (Option WalletSaga)
  unfolding read_record
  get_saga id = map_err into_cdk (read_record api.kv api.saga_json (saga_key id))

  unfoldable pub update_saga_over : WalletSaga → Option WalletSaga → Act Calls CdkError Bool
  unfolding add_saga is_next
  update_saga_over saga none = return false
  update_saga_over saga (some existing) =
      if is_next existing.version saga.version
      then (do add_saga saga; return true)
      else return false

  unfoldable pub update_saga : WalletSaga → Act Calls CdkError Bool
  unfolding get_saga update_saga_over
  update_saga saga = do existing ← get_saga saga.id; update_saga_over saga existing

  unfoldable pub delete_saga : ℕ → Act Calls CdkError (Unit {0})
  delete_saga id = remove_record api sagas_key (api.uuid_to_string id)

  unfoldable pub get_incomplete_sagas : Act Calls CdkError (List WalletSaga)
  unfolding read_listed
  get_incomplete_sagas = do
    keys ← cdk_list api sagas_key
    map_err into_cdk (read_listed api.kv api.saga_json sagas_key keys)
