-- ===== src/Spark/Metadata.antt =====
-- `insert_payment_metadata` in orange-sdk/src/trusted_wallet/spark/spark_store.rs.
use orange_sdk.Prelude.{Option, none, some, Text, codes}
use orange_sdk.Prelude.Act.{Act, try, ◌>>=◌}
use orange_sdk.Platform.{ReadResult, found}
use orange_sdk.Platform.Kv.{Calls, read_key, ok_or}
use orange_sdk.Spark.{SparkApi, StorageError, serialization, PaymentMetadata}
use orange_sdk.Spark.Cells.{spark_key, write_data}

-- `Option::or`.
or_existing {ℓ} : {A : Type ℓ} → Option A → Option A → Option A
or_existing none b = b
or_existing (some a) b = some a

-- A field that the new metadata leaves out keeps its value.
unfoldable pub merge_metadata : Option PaymentMetadata → PaymentMetadata → PaymentMetadata
unfolding or_existing
merge_metadata none metadata = metadata
merge_metadata (some existing) metadata = record {
  parent_payment_id = or_existing metadata.parent_payment_id existing.parent_payment_id;
  lnurl_pay_info = or_existing metadata.lnurl_pay_info existing.lnurl_pay_info;
  lnurl_withdraw_info = or_existing metadata.lnurl_withdraw_info existing.lnurl_withdraw_info;
  lnurl_description = or_existing metadata.lnurl_description existing.lnurl_description;
  conversion_info = or_existing metadata.conversion_info existing.conversion_info;
  conversion_status = or_existing metadata.conversion_status existing.conversion_status;
}

module _ (api : SparkApi) where
  -- Metadata that cannot be read counts as none.
  existing_metadata : ReadResult → Option PaymentMetadata
  existing_metadata (found d) = api.metadata_json.from_slice d
  existing_metadata _ = none

  unfoldable pub insert_payment_metadata :
      Text → PaymentMetadata → Act Calls StorageError (Unit {0})
  unfolding existing_metadata merge_metadata
  insert_payment_metadata payment_id metadata = do
    r ← read_key api.kv (spark_key (codes "metadata") payment_id)
    d ← try (
        ok_or serialization
          (api.metadata_json.to_vec (merge_metadata (existing_metadata r) metadata)))
    write_data api (codes "metadata") payment_id d
