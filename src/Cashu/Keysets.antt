-- ===== src/Cashu/Keysets.antt =====
-- Keysets and their keys: `add_mint_keysets` to `get_keyset_by_id` and `add_keys` to `remove_keys`
-- in orange-sdk/src/trusted_wallet/cashu/cashu_store.rs.
use orange_sdk.Prelude.{
  ℕ, Bool, true, false, Option, none, some, List, [], ◌∷◌, ◌++◌, codes, Result, ok, err,
  if◌then◌else◌, ◌==◌, nat_eq, unwrap_or,
}
use orange_sdk.Prelude.Act.{Act, return, throw, try, map_err, ◌>>=◌, ◌>>◌}
use orange_sdk.Platform.{StoreKey, ReadResult, found}
use orange_sdk.Platform.Kv.{Calls, call, write, read_key}
use orange_sdk.Cashu.{
  CashuApi, CdkError, DatabaseError, database, serialization, io, duplicate_entry, into_cdk,
  invalid_keyset, KeySetInfo, KeySet,
}
use orange_sdk.Cashu.Records.{
  cashu_key, mint_keysets_key, keysets_table_key, keyset_u32_mapping_key, keys_key, read_record,
  write_record,
}
use orange_sdk.Cashu.Quotes.{remove_record}

-- `format!("keyset_{}", id)`, `format!("u32_{}", ..)` and `generate_mint_keysets_key`.
abbrev pub keyset_key : CashuApi → ℕ → StoreKey
keyset_key api id = cashu_key keysets_table_key (codes "keyset_" ++ api.id_to_string id)

abbrev pub u32_key : CashuApi → ℕ → StoreKey
u32_key api id = cashu_key keyset_u32_mapping_key (codes "u32_" ++ api.id_u32 id)

abbrev pub generate_mint_keysets_key : CashuApi → ℕ → StoreKey
generate_mint_keysets_key api mint_url =
    cashu_key mint_keysets_key (codes "keysets_" ++ api.hash_hex mint_url)

-- The first keyset with the id is replaced in its place; a new one goes to the end.
unfoldable pub merge_keyset : List KeySetInfo → KeySetInfo → List KeySetInfo
merge_keyset [] new_keyset = new_keyset ∷ []
merge_keyset (k ∷ ks) new_keyset =
    let rest = merge_keyset ks new_keyset in
    if k.id == new_keyset.id then new_keyset ∷ ks else k ∷ rest

unfoldable pub merge_keysets : List KeySetInfo → List KeySetInfo → List KeySetInfo
unfolding merge_keyset
merge_keysets all [] = all
merge_keysets all (k ∷ ks) = merge_keysets (merge_keyset all k) ks

-- What is stored for a keyset: an existing record keeps all but two fields.
unfoldable pub final_keyset : Option KeySetInfo → KeySetInfo → KeySetInfo
final_keyset none keyset = keyset
final_keyset (some existing) keyset = record existing {
  active = keyset.active;
  input_fee_ppk = keyset.input_fee_ppk;
}

-- Whether the number of the id is free, is this id's, or is another id's.
pub data Mapping : Type 0 where
  no_mapping same_id other_id : Mapping

module _ (api : CashuApi) where
  -- The record of a keyset; a missing one, an empty one and a failed read are all `None`.
  existing_keyset : ReadResult → Result (Option KeySetInfo) DatabaseError
  existing_keyset (found (b ∷ d)) = elim (api.keyset_json.from_slice (b ∷ d)) [
    | none ↦ err serialization
    | some k ↦ ok (some k)
  ]
  existing_keyset _ = ok none

  existing_mapping : ℕ → ReadResult → Result Mapping DatabaseError
  existing_mapping id (found (b ∷ d)) = elim (api.id_from_str (b ∷ d)) [
    | none ↦ err serialization
    | some existing ↦ if existing == id then ok same_id else ok other_id
  ]
  existing_mapping id _ = ok no_mapping

  -- One turn of the loop: none where it breaks on a conflict.
  unfoldable pub store_keyset : KeySetInfo → Act Calls DatabaseError (Option KeySetInfo)
  unfolding existing_keyset existing_mapping final_keyset write_record
  store_keyset keyset = do
    r ← read_key api.kv (keyset_key api keyset.id)
    existing ← try (existing_keyset r)
    m ← read_key api.kv (u32_key api keyset.id)
    mapping ← try (existing_mapping keyset.id m)
    elim mapping [
      | other_id ↦ return none
      | no_mapping ↦ (do
        call api.kv io (write (u32_key api keyset.id) (api.id_to_string keyset.id))
        write_record api.kv api.keyset_json (keyset_key api keyset.id)
            (final_keyset existing keyset)
        return (some (final_keyset existing keyset)))
      | same_id ↦ (do
        write_record api.kv api.keyset_json (keyset_key api keyset.id)
            (final_keyset existing keyset)
        return (some (final_keyset existing keyset)))
    ]

  -- The loop: the keysets that were stored, and whether it broke.
  unfoldable pub store_keysets : List KeySetInfo → Act Calls DatabaseError (Bool × List KeySetInfo)
  unfolding store_keyset
  store_keysets [] = return (false, [])
  store_keysets (keyset ∷ keysets) = do
    stored ← store_keyset keyset
    elim stored [
      | none ↦ return (true, [])
      | some k ↦ (do rest ← store_keysets keysets; return (rest.0, k ∷ rest.1))
    ]

  unfoldable pub get_mint_keysets : ℕ → Act Calls CdkError (Option (List KeySetInfo))
  unfolding read_record
  get_mint_keysets mint_url =
      map_err into_cdk
        (read_record api.kv api.keysets_json (generate_mint_keysets_key api mint_url))

  unfoldable pub add_mint_keysets : ℕ → List KeySetInfo → Act Calls CdkError (Unit {0})
  unfolding store_keysets get_mint_keysets merge_keysets write_record
  add_mint_keysets mint_url keysets = do
    stored ← map_err into_cdk (store_keysets keysets)
    if stored.0 then throw duplicate_entry else (do
      all ← get_mint_keysets mint_url
      map_err into_cdk (
          write_record api.kv api.keysets_json (generate_mint_keysets_key api mint_url)
            (merge_keysets (unwrap_or all []) stored.1)))

  unfoldable pub get_keyset_by_id : ℕ → Act Calls CdkError (Option KeySetInfo)
  unfolding read_record
  get_keyset_by_id keyset_id =
      map_err into_cdk (read_record api.kv api.keyset_json (keyset_key api keyset_id))

  unfoldable pub get_keys : ℕ → Act Calls CdkError (Option ℕ)
  unfolding read_record
  get_keys id = do
    keyset ←
        map_err into_cdk
          (read_record api.kv api.keys_json (cashu_key keys_key (api.id_to_string id)))
    return (elim keyset [ none ↦ none | some k ↦ some k.keys ])

  -- Keys that are there stay; the error of `verify_id` stands as a database error.
  unfoldable pub add_keys : KeySet → Act Calls CdkError (Unit {0})
  unfolding get_keys write_record
  add_keys keyset =
      if api.verify_id keyset
      then (do
        existing ← get_keys keyset.id
        elim existing [
          | some _ ↦ return tt
          | none ↦ map_err into_cdk (
              write_record api.kv api.keys_json (cashu_key keys_key (api.id_to_string keyset.id))
                keyset)
        ])
      else throw (database invalid_keyset)

  unfoldable pub remove_keys : ℕ → Act Calls CdkError (Unit {0})
  remove_keys id = remove_record api keys_key (api.id_to_string id)
