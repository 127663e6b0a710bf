-- ===== src/Store/Restart.antt =====
-- `TxMetadataStore::new` (orange-sdk/src/store.rs): the map in memory is read back from the store.
pub mod Restored
use orange_sdk.Prelude.{ℕ, Option, none, some, List, [], ◌∷◌, Text, Result, ok, err}
use orange_sdk.Prelude.Assoc.{HashMap, insert}
use orange_sdk.Platform.{Hex, StoreKey, ReadResult, found, not_found, read_error, Write}
use orange_sdk.Platform.Reads.{Record, Outcome, returned, panicked, unfinished, read_keys_bounded}
use orange_sdk.Store.Types.{PaymentId, TxMetadata, id_eq}
use orange_sdk.Store.Ids.{from_str}
use orange_sdk.Store.World.{Backend, Store, store_primary_key, store_secondary_key}

abbrev pub entry_key : Text → StoreKey
entry_key k = record { primary = store_primary_key; secondary = store_secondary_key; key = k }

-- A read, where any error is one.
abbrev pub to_result : ReadResult → Result (List ℕ) (Unit {0})
to_result (found d) = ok d
to_result not_found = err tt
to_result read_error = err tt

-- The loop over the records, with the map made so far; `none` is a panic on a key or on data that
-- cannot be parsed. `Readable::read` is a parameter.
unfoldable pub load_records :
    Hex
    → (List ℕ → Option TxMetadata)
    → List Record
    → HashMap PaymentId TxMetadata
    → Option (HashMap PaymentId TxMetadata)
unfolding from_str
load_records hex decode [] tx_metadata = some tx_metadata
load_records hex decode ((k, data_bytes) ∷ records) tx_metadata = elim (from_str hex k) [
  | none ↦ none
  | some (err _) ↦ none
  | some (ok key) ↦ elim (decode data_bytes) [
    | none ↦ none
    | some value ↦ load_records hex decode records (insert key value tx_metadata)
  ]
]

-- The constructor, on the listing of the keys that the store gives and on the order in which the
-- reads end.
unfoldable pub new_store :
    Backend
    → (List ℕ → Option TxMetadata)
    → (ℕ → ℕ)
    → Option (List Text)
    → List Write
    → Option Store
unfolding load_records read_keys_bounded
new_store api decode picks none h = none
new_store api decode picks (some keys) h =
    elim (read_keys_bounded (λ k. to_result (api.kv.read h (entry_key k))) picks keys) [
      | panicked ↦ none
      | unfinished ↦ none
      | returned (err _) ↦ none
      | returned (ok records) ↦ elim (load_records api.hex decode records []) [
        | none ↦ none
        | some m ↦ some (record { tx_metadata = m; rebalance_enabled = none; writes = h })
      ]
    ]
