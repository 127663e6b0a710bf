-- ===== src/Store/World.antt =====
-- The state of `TxMetadataStore` and `RebalanceEnabledCache` (orange-sdk/src/store.rs) over one
-- key-value store: the map in memory, the cached flag, and the calls of `KVStore::write` so far,
-- newest first. The read-write lock makes each update of the map one step.
use orange_sdk.Prelude.{ℕ, Bool, Option, none, some, List, ◌∷◌, Text, codes, if◌then◌else◌}
use orange_sdk.Prelude.Assoc.{HashMap, get, insert}
use orange_sdk.Prelude.Run.{Run, modify}
use orange_sdk.Platform.{KvStore, Hex, StoreKey, Write}
use orange_sdk.Store.Types.{PaymentId, TxMetadata, id_eq}
use orange_sdk.Store.Ids.{to_string}

-- What the store is built on: `DynStore`, the hex crate and the serialisation of its values.
pub record Backend : Type 0 where
  pub kv : KvStore
  pub hex : Hex
  pub encode_metadata : TxMetadata → List ℕ
  pub encode_bool : Bool → List ℕ
  -- `none` where the bytes are no `bool`.
  pub decode_bool : List ℕ → Option Bool
  -- Whether `debug_assert!` panics, as in a debug build, or is left out, as in a release build.
  pub debug_assertions : Bool

pub record Store : Type 0 where
  pub tx_metadata : HashMap PaymentId TxMetadata
  pub rebalance_enabled : Option Bool
  pub writes : List Write

abbrev pub store_primary_key : Text
store_primary_key = codes "orange_sdk"

abbrev pub store_secondary_key : Text
store_secondary_key = codes "payment_store"

-- The key under which the metadata of a payment is stored.
abbrev pub metadata_key : Backend → PaymentId → StoreKey
metadata_key api id = record {
  primary = store_primary_key;
  secondary = store_secondary_key;
  key = to_string api.hex id;
}

-- `KVStore::write`: the call, and whether it returned `Ok`.
unfoldable pub kv_write : KvStore → StoreKey → List ℕ → List Write → Bool × List Write
kv_write kv key buf h = let h' = record { key = key; buf = buf } ∷ h in (kv.write_ok h', h')

-- `KVStore::write(..).await.expect("We do not allow writes to fail")`
unfoldable pub write_or_panic : Backend → StoreKey → List ℕ → Run Store (Unit {0})
unfolding kv_write
write_or_panic api key buf s =
    let (written, h) = kv_write api.kv key buf s.writes in
    if written then some (tt, record s { writes = h }) else none

-- An update of the map under its write lock.
abbrev pub put : PaymentId → TxMetadata → Run Store (Unit {0})
put id value = modify (λ s. record s { tx_metadata = insert id value s.tx_metadata })

-- The serialised entry is written under the text of its id.
unfoldable pub persist : Backend → PaymentId → TxMetadata → Run Store (Unit {0})
persist api id value = write_or_panic api (metadata_key api id) (api.encode_metadata value)

-- `read().get(id)`
abbrev pub lookup : PaymentId → Store → Option TxMetadata
lookup id s = get id s.tx_metadata
