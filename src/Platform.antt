-- ===== src/Platform.antt =====
-- What the SDK calls and does not implement: the key-value store behind `DynStore`, the codecs
-- that ldk-node's serialisation macros make, the hex crate, and the crate's `Amount`. Each is a
-- record of operations, and a record of the laws its documentation gives.
--
-- A store answers from the calls that were made to it, newest first, so that the state of the
-- program holds the list of its writes and nothing else of the store.
pub mod Kv
pub mod Reads
use orange_sdk.Prelude.{
  ℕ, ◌+◌, ◌-◌, ◌≡◌, ◌≢◌, ◌≤◌, Bool, true, Option, some, List, [], ◌∷◌, Text, All, ◌<◌, min,
}

-- A key with its primary and secondary namespace.
pub record StoreKey : Type 0 where
  pub primary : Text
  pub secondary : Text
  pub key : Text

-- One call of `KVStore::write`.
pub record Write : Type 0 where
  pub key : StoreKey
  pub buf : List ℕ

-- `Result<Vec<u8>, io::Error>`, with `ErrorKind::NotFound` told apart.
pub data ReadResult : Type 0 where
  found : List ℕ → ReadResult
  not_found read_error : ReadResult

pub record KvStore : Type 0 where
  -- Whether the newest call of the list returned `Ok`.
  pub write_ok : List Write → Bool
  pub read : List Write → StoreKey → ReadResult

-- A write that returned `Ok` is read back, and touches no other key.
pub record KvStoreLaws (kv : KvStore) : Type 0 where
  pub read-write_self :
      (w : Write) (h : List Write)
      → kv.write_ok (w ∷ h) ≡ true
      → kv.read (w ∷ h) w.key ≡ found w.buf
  pub read-write_ne :
      (w : Write) (h : List Write) (k : StoreKey)
      → kv.write_ok (w ∷ h) ≡ true
      → w.key ≢ k
      → kv.read (w ∷ h) k ≡ kv.read h k

-- `DisplayHex::as_hex` and `FromHex::from_hex` on 32 bytes, which stand here as a number.
pub record Hex : Type 0 where
  pub as_hex : ℕ → Text
  pub from_hex : Text → Option ℕ

pub record HexLaws (hex : Hex) : Type 0 where
  pub from_hex-as_hex : (n : ℕ) → hex.from_hex (hex.as_hex n) ≡ some n
  pub as_hex-ne-nil : (n : ℕ) → hex.as_hex n ≢ []
  pub as_hex_ascii : (n : ℕ) → All (λ b. b < 128) (hex.as_hex n)

-- `bitcoin_payment_instructions::amount::Amount`, by its millisatoshis.
pub record AmountApi : Type 0 where
  pub max_amount : ℕ
  pub saturating_add : ℕ → ℕ → ℕ
  pub saturating_sub : ℕ → ℕ → ℕ
  pub from_sats : ℕ → Option ℕ
  pub from_milli_sats : ℕ → Option ℕ
  pub sats_rounding_up : ℕ → ℕ

pub record AmountLaws (api : AmountApi) : Type 0 where
  pub saturating_add_lem : (a b : ℕ) → api.saturating_add a b ≡ min (a + b) api.max_amount
  pub saturating_sub_lem : (a b : ℕ) → api.saturating_sub a b ≡ a - b
  pub from_milli_sats_lem : (a : ℕ) → a ≤ api.max_amount → api.from_milli_sats a ≡ some a
