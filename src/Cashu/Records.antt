-- ===== src/Cashu/Records.antt =====
-- How the database reads and writes one record (`write_record` and the matches on `KVStore::read`
-- in orange-sdk/src/trusted_wallet/cashu/cashu_store.rs), and the keys of the store.
use orange_sdk.Prelude.{
  ℕ, ◌≡◌, ◌≢◌, refl, true, Option, none, some, Option-cases, inl, inr, List, [], ◌∷◌, Text, codes,
  Result, ok, err, arith,
}
use orange_sdk.Prelude.Act.{Act, return, try, ◌>>=◌}
use orange_sdk.Platform.{StoreKey, ReadResult, found, not_found, read_error}
use orange_sdk.Platform.Kv.{Kv, Codec, Calls, call, KvLaws, CodecLaws, write, read_key, ok_or}
use orange_sdk.Cashu.{CashuKvDatabase, DatabaseError, serialization, io}

-- A key under the primary namespace `cashu`.
abbrev pub cashu_key : Text → Text → StoreKey
cashu_key s k = record { primary = codes "cashu_wallet"; secondary = s; key = k }

abbrev pub mints_key : Text
mints_key = codes "mints"

abbrev pub mint_keysets_key : Text
mint_keysets_key = codes "mint_keysets"

abbrev pub mint_quotes_key : Text
mint_quotes_key = codes "mint_quotes"

abbrev pub melt_quotes_key : Text
melt_quotes_key = codes "melt_quotes"

abbrev pub keys_key : Text
keys_key = codes "keys"

abbrev pub derivation_counters_key : Text
derivation_counters_key = codes "derivation_counters"

abbrev pub keyset_counters_key : Text
keyset_counters_key = codes "keyset_counters"

abbrev pub transactions_key : Text
transactions_key = codes "transactions"

abbrev pub keysets_table_key : Text
keysets_table_key = codes "keysets_table"

abbrev pub keyset_u32_mapping_key : Text
keyset_u32_mapping_key = codes "keyset_u32_mapping"

abbrev pub sagas_key : Text
sagas_key = codes "sagas"

abbrev pub proof_reservations_key : Text
proof_reservations_key = codes "proof_reservations"

-- The key of the snapshot of the proofs.
abbrev pub proofs_blob_key : StoreKey
proofs_blob_key = cashu_key (codes "proofs") (codes "proof_set")

module _ {A : Type 0} where
  -- The record that a read finds: none under a missing key or where empty data was written.
  unfoldable pub decode_record : Codec A → ReadResult → Result (Option A) DatabaseError
  decode_record codec (found []) = ok none
  decode_record codec (found (b ∷ d)) = elim (codec.from_slice (b ∷ d)) [
    | none ↦ err serialization
    | some a ↦ ok (some a)
  ]
  decode_record codec not_found = ok none
  decode_record codec read_error = err io

  unfoldable pub read_record : Kv → Codec A → StoreKey → Act Calls DatabaseError (Option A)
  read_record kv codec k h = (decode_record codec (kv.read h k), h)

  unfoldable pub write_record : Kv → Codec A → StoreKey → A → Act Calls DatabaseError (Unit {0})
  write_record kv codec k value = do
    data_ ← try (ok_or serialization (codec.to_vec value))
    call kv io (write k data_)

  -- The same for a key that was listed, where a missing record is an error.
  unfoldable pub decode_listed : Codec A → ReadResult → Result (Option A) DatabaseError
  unfolding decode_record
  decode_listed codec not_found = err io
  decode_listed codec r = decode_record codec r

  -- Every record under the keys, in their order; an empty one is passed over.
  unfoldable pub read_listed : Kv → Codec A → Text → List Text → Act Calls DatabaseError (List A)
  unfolding decode_listed
  read_listed kv codec s [] = return []
  read_listed kv codec s (k ∷ keys) = do
    r ← read_key kv (cashu_key s k)
    a ← try (decode_listed codec r)
    rest ← read_listed kv codec s keys
    return (elim a [ none ↦ rest | some a ↦ a ∷ rest ])

-- An operation on the store alone, by the database.
abbrev pub on_calls : {E A : Type 0} → Act Calls E A → Act CashuKvDatabase E A
on_calls m db = (let (r, h) = m db.calls in (r, record db { calls = h }))

module _ {A : Type 0} (kv : Kv) (laws : KvLaws kv) (codec : Codec A) (json : CodecLaws codec) where
  decode_record-to_vec :
      (a : A) (d : List ℕ) → codec.to_vec a ≡ some d → decode_record codec (found d) ≡ ok (some a)
  unfolding decode_record
  decode_record-to_vec a [] h = absurd (json.to_vec-ne-nil a [] h refl)
  decode_record-to_vec a (b ∷ d) h = ground (arith, json.from_slice-to_vec a (b ∷ d) h)

  -- A write that returned encoded the record and made one call.
  pub write_record-ok :
      (k : StoreKey) (a : A) (h h' : Calls)
      → write_record kv codec k a h ≡ (ok tt, h')
      → (d : List ℕ) × (codec.to_vec a ≡ some d)
        × (kv.is_ok (write k d ∷ h) ≡ true)
        × (h' ≡ write k d ∷ h)
  unfolding write_record
  write_record-ok k a h h' e = elim (Option-cases (codec.to_vec a)) [
    | inl n ↦ ground (arith, e, n)
    | inr (d, s) ↦ (d, s, ground (arith, e, s), ground (arith, e, s))
  ]

  -- A record that was written is read back.
  pub read_record-write_record :
      (k : StoreKey) (a : A) (h h' : Calls)
      → write_record kv codec k a h ≡ (ok tt, h')
      → read_record kv codec k h' ≡ (ok (some a), h')
  unfolding read_record
  read_record-write_record k a h h' e =
      (let (d, s, w, eh) = write_record-ok k a h h' e in
        rw (eh, laws.read-write_self k d h w, decode_record-to_vec a d s))

  -- No other key changes.
  pub read-write_record_ne :
      (j k : StoreKey) (a : A) (h h' : Calls)
      → write_record kv codec k a h ≡ (ok tt, h')
      → k ≢ j
      → kv.read h' j ≡ kv.read h j
  read-write_record_ne j k a h h' e ne =
      (let (d, s, w, eh) = write_record-ok k a h h' e in rw (eh, laws.read-write_ne k j d h ne))
