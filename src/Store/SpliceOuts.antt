-- ===== src/Store/SpliceOuts.antt =====
-- The records of outgoing splices: `write_splice_out` and `read_splice_outs`
-- (orange-sdk/src/store.rs). `PaymentDetails` and its serialisation belong to ldk-node and are
-- parameters; `none` is a panic.
use orange_sdk.Prelude.{ℕ, Option, none, some, List, [], ◌∷◌, Text, codes, if◌then◌else◌}
use orange_sdk.Platform.{StoreKey, ReadResult, found, not_found, read_error, Write}
use orange_sdk.Store.World.{Backend, store_primary_key, kv_write}

abbrev pub splice_out_secondary_key : Text
splice_out_secondary_key = codes "splice_out"

abbrev pub splice_out_key : Text → StoreKey
splice_out_key k = record {
  primary = store_primary_key;
  secondary = splice_out_secondary_key;
  key = k;
}

-- What `Readable::read` needs of a read.
found_data : ReadResult → Option (List ℕ)
found_data (found d) = some d
found_data not_found = none
found_data read_error = none

-- What the code uses of `PaymentDetails`: its id, and how it is written and read.
pub record DetailsApi (D : Type 0) : Type 0 where
  pub id : D → ℕ
  pub encode : D → List ℕ
  pub read : List ℕ → Option D

module _ {D : Type 0} (api : Backend) (details_api : DetailsApi D) where
  unfoldable pub write_splice_out : D → List Write → Option (List Write)
  unfolding kv_write
  write_splice_out details h =
      let (written, h') =
        kv_write api.kv (splice_out_key (api.hex.as_hex (details_api.id details)))
          (details_api.encode details) h in
      if written then some h' else none

  -- The loop over the keys, one read after the other.
  unfoldable pub read_each : List Text → List Write → Option (List D)
  unfolding found_data
  read_each [] h = some []
  read_each (k ∷ keys) h = elim (found_data (api.kv.read h (splice_out_key k))) [
    | none ↦ none
    | some data_bytes ↦ elim (details_api.read data_bytes) [
      | none ↦ none
      | some data_ ↦ elim (read_each keys h) [ none ↦ none | some rest ↦ some (data_ ∷ rest) ]
    ]
  ]

  -- On the keys that the store lists.
  unfoldable pub read_splice_outs : Option (List Text) → List Write → Option (List D)
  unfolding read_each
  read_splice_outs none h = none
  read_splice_outs (some keys) h = read_each keys h
