-- ===== src/Spark.antt =====
-- The Spark wallet's storage (orange-sdk/src/trusted_wallet/spark/spark_store.rs): its errors and
-- the records it keeps, which are the Spark SDK's types by the fields that the code reads.
pub mod Cells
pub mod Payments
pub mod Metadata
pub mod Deposits
pub mod Sync
use orange_sdk.Prelude.{ℕ, Bool, Option, List, Text, ◌≡◌, ◌≢◌, ◌<◌, ◌^◌, some, true, All}
use orange_sdk.Platform.Kv.{Kv, KvLaws, Codec, CodecLaws}

-- The variants of `StorageError` that the code makes, without their texts; `panicked` stands for
-- the panic of slicing a text inside a character.
pub data StorageError : Type 0 where
  serialization implementation not_found_error panicked : StorageError

pub data PaymentDetails : Type 0 where
  -- The invoice of `invoice_details`, if there is one.
  spark : Option Text → PaymentDetails
  lightning : Text → PaymentDetails
  token withdraw deposit : PaymentDetails

-- A status stands as a number.
pub record Payment : Type 0 where
  pub id : Text
  pub status : ℕ
  pub timestamp : ℕ
  pub details : Option PaymentDetails
  pub rest : ℕ

pub record PaymentMetadata : Type 0 where
  pub parent_payment_id : Option Text
  pub lnurl_pay_info : Option ℕ
  pub lnurl_withdraw_info : Option ℕ
  pub lnurl_description : Option ℕ
  pub conversion_info : Option ℕ
  pub conversion_status : Option ℕ

pub record DepositInfo : Type 0 where
  pub txid : Text
  pub vout : ℕ
  pub amount_sats : ℕ
  pub is_mature : Bool
  pub refund_tx : Option ℕ
  pub refund_tx_id : Option ℕ
  pub claim_error : Option ℕ
  pub refund_state : Option ℕ
  pub instant_claim_status : Option ℕ

pub record RecordId : Type 0 where
  pub type : Text
  pub data_id : Text

-- `Record` of the SDK, with its id, version, data and revision.
pub record SyncRecord : Type 0 where
  pub id : RecordId
  pub schema_version : Text
  pub fields : ℕ
  pub revision : ℕ

-- An entry of the outgoing queue, which is `RecordChange` too.
pub record RecordChange : Type 0 where
  pub id : RecordId
  pub schema_version : Text
  pub updated_fields : ℕ
  pub local_revision : ℕ

pub record StoredCrossChainSwap : Type 0 where
  pub provider : Text
  pub id : Text
  pub is_terminal : Bool
  pub rest : ℕ

-- What the code calls.
pub record SparkApi : Type 0 where
  pub kv : Kv
  pub payment_json : Codec Payment
  pub metadata_json : Codec PaymentMetadata
  pub deposit_json : Codec DepositInfo
  pub swap_json : Codec StoredCrossChainSwap
  pub record_json : Codec SyncRecord
  pub change_json : Codec RecordChange
  pub is_final : ℕ → Bool
  -- `KVSTORE_NAMESPACE_KEY_MAX_LEN` of the lightning crate.
  pub key_max_len : ℕ
  -- A number in decimal, and padded to twenty digits.
  pub to_decimal : ℕ → Text
  pub to_padded : ℕ → Text
  pub sha256_hex : Text → Text
  -- Whether `String::from_utf8` succeeds, and `str::parse::<u64>`.
  pub is_utf8 : List ℕ → Bool
  pub parse_u64 : Text → Option ℕ

pub record SparkLaws (api : SparkApi) : Type 0 where
  pub kv : KvLaws api.kv
  pub payment_json : CodecLaws api.payment_json
  -- Decimals have digits only, differ where the numbers do, and are texts; `parse` reads those of a
  -- `u64`.
  pub to_decimal_digits : (n : ℕ) → All (λ c. c ≢ 95) (api.to_decimal n)
  pub parse_u64-to_decimal : (n : ℕ) → n < 2 ^ 64 → api.parse_u64 (api.to_decimal n) ≡ some n
  pub to_decimal_injective : (m n : ℕ) → api.to_decimal m ≡ api.to_decimal n → m ≡ n
  pub is_utf8-to_decimal : (n : ℕ) → api.is_utf8 (api.to_decimal n) ≡ true
