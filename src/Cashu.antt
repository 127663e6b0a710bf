-- ===== src/Cashu.antt =====
-- The Cashu wallet's database (orange-sdk/src/trusted_wallet/cashu/cashu_store.rs): its errors,
-- the records it keeps, and its state. The records are cdk's types, by the fields that the code
-- reads; `rest` stands for the others. Urls, public keys and ids stand as numbers.
pub mod Records
pub mod Proofs
pub mod Quotes
pub mod Sagas
pub mod Stale
pub mod Keysets
pub mod Mints
pub mod Transactions
pub mod Database
pub mod Counters
use orange_sdk.Prelude.{ℕ, Bool, Option, List, Text, PartialEq}
use orange_sdk.Prelude.Assoc.{HashMap}
use orange_sdk.Platform.Kv.{Kv, KvLaws, Codec, CodecLaws, Calls}

-- The variants of `DatabaseError`, without the texts they carry.
pub data DatabaseError : Type 0 where
  -- `invalid_keyset` stands for the text of the error of `KeySet::verify_id`.
  serialization io invalid_keyset not_found_error invalid_format duplicate : DatabaseError

-- The variants of `cdk_database::Error` that the code makes; `Database` carries the text of the
-- error it was made from.
pub data CdkError : Type 0 where
  database : DatabaseError → CdkError
  duplicate_entry concurrent_update proof_not_unspent quote_already_in_use unknown_quote : CdkError

-- `From<DatabaseError> for cdk_database::Error`.
abbrev pub into_cdk : DatabaseError → CdkError
into_cdk duplicate = duplicate_entry
into_cdk e = database e

-- The states that the code names; any other is `other_state`.
pub data ProofState : Type 0 where
  unspent reserved pending : ProofState
  other_state : ℕ → ProofState

pub record ProofInfo : Type 0 where
  pub y : ℕ
  pub amount : ℕ
  pub mint_url : ℕ
  pub state : ProofState
  pub spending_condition : Option ℕ
  pub unit : ℕ
  pub used_by_operation : Option ℕ
  pub derivation_index : Option ℕ
  pub rest : ℕ

pub record ProofsBlob : Type 0 where
  pub schema_version : ℕ
  pub proofs : List ProofInfo

pub record MintQuote : Type 0 where
  pub id : Text
  pub version : ℕ
  pub used_by_operation : Option Text
  pub amount_issued : ℕ
  pub is_bolt12 : Bool
  pub rest : ℕ

pub record MeltQuote : Type 0 where
  pub id : Text
  pub version : ℕ
  pub used_by_operation : Option Text
  pub payment_proof : Option ℕ
  pub rest : ℕ

pub record WalletSaga : Type 0 where
  pub id : ℕ
  pub version : ℕ
  pub rest : ℕ

-- A transaction, with its `ys`; its id is the crate's function of it.
pub record Transaction : Type 0 where
  pub ys : List ℕ
  pub mint_url : ℕ
  pub direction : ℕ
  pub unit : ℕ
  pub rest : ℕ

pub record KeySetInfo : Type 0 where
  pub id : ℕ
  pub active : Bool
  pub input_fee_ppk : ℕ
  pub rest : ℕ

-- A keyset with its keys.
pub record KeySet : Type 0 where
  pub id : ℕ
  pub keys : ℕ
  pub rest : ℕ

-- What the code calls: the store, serde_json at each type, and the texts and hashes of cdk's
-- types that make up keys.
pub record CashuApi : Type 0 where
  pub kv : Kv
  -- The derived `PartialEq` of a proof and of a transaction.
  pub proof_eq : PartialEq ProofInfo
  pub transaction_eq : PartialEq Transaction
  pub proofs_json : Codec ProofsBlob
  pub strings_json : Codec (List Text)
  pub mint_quote_json : Codec MintQuote
  pub melt_quote_json : Codec MeltQuote
  pub saga_json : Codec WalletSaga
  pub transaction_json : Codec Transaction
  pub keyset_json : Codec KeySetInfo
  pub keysets_json : Codec (List KeySetInfo)
  pub keys_json : Codec KeySet
  pub mint_url_json : Codec ℕ
  pub mint_info_json : Codec ℕ
  pub u32_json : Codec ℕ
  -- `to_string` of a uuid, of a keyset's id and of a transaction's id.
  pub uuid_to_string : ℕ → Text
  pub id_to_string : ℕ → Text
  pub transaction_id : Transaction → Text
  -- `TransactionId::new` of the `ys`, as a text.
  pub transaction_id_new : List ℕ → Text
  -- `hex::encode` of a serialised public key, and of a text.
  pub hex_encode_y : ℕ → Text
  pub hex_encode : Text → Text
  -- `DefaultHasher` on the text of a url, in hexadecimal.
  pub hash_hex : ℕ → Text
  -- `u32::from` of a keyset's id, in decimal, `Id::from_str`, and `KeySet::verify_id`.
  pub id_u32 : ℕ → Text
  pub id_from_str : Text → Option ℕ
  pub verify_id : KeySet → Bool

pub record CashuLaws (api : CashuApi) : Type 0 where
  pub kv : KvLaws api.kv
  pub proofs_json : CodecLaws api.proofs_json
  pub mint_quote_json : CodecLaws api.mint_quote_json
  pub saga_json : CodecLaws api.saga_json
  pub u32_json : CodecLaws api.u32_json

-- `CashuKvDatabase`. The locks are left out: an operation that holds one runs here as one step.
pub record CashuKvDatabase : Type 0 where
  pub calls : Calls
  pub proofs_cache_needs_reload : Bool
  pub mints_cache : HashMap ℕ (Option ℕ)
  pub proofs_cache : List ProofInfo
