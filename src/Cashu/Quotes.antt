-- ===== src/Cashu/Quotes.antt =====
-- Mint quotes, melt quotes and sagas: records with a version, which a stale writer must not
-- overwrite (`add_mint_quote` to `remove_melt_quote`, `get_unissued_mint_quotes`, `add_saga` to
-- `get_incomplete_sagas` and `reserve_melt_quote` to `release_mint_quote` in
-- orange-sdk/src/trusted_wallet/cashu/cashu_store.rs).
use orange_sdk.Prelude.{
  ℕ, ◌+◌, ◌%◌, ◌^◌, Bool, false, ◌||◌, Option, none, some, List, [], ◌∷◌, Text, codes, Result, ok,
  err, if◌then◌else◌, ltb, ◌==◌, nat_eq, text_beq,
}
use orange_sdk.Prelude.Act.{Act, return, throw, try, map_err, ◌>>=◌, ◌>>◌}
use orange_sdk.Platform.{found, not_found, read_error}
use orange_sdk.Platform.Kv.{Calls, call, remove, list_keys, read_key}
use orange_sdk.Cashu.{
  CashuApi, CdkError, DatabaseError, database, io, concurrent_update, quote_already_in_use,
  unknown_quote, into_cdk, MintQuote, MeltQuote,
}
use orange_sdk.Cashu.Records.{
  cashu_key, mint_quotes_key, melt_quotes_key, read_record, write_record, read_listed,
  decode_listed,
}

-- `u32::wrapping_add(1)` and `checked_add(1)`.
abbrev pub next_version : ℕ → ℕ
next_version v = (v + 1) % 2 ^ 32

abbrev pub checked_next : ℕ → Option ℕ
checked_next v = if ltb (v + 1) (2 ^ 32) then some (v + 1) else none

proof_or : {A : Type 0} → Option A → Option A → Option A
proof_or none b = b
proof_or (some a) b = some a

filter_quotes : List MintQuote → List MintQuote
filter_quotes [] = []
filter_quotes (q ∷ qs) =
    let rest = filter_quotes qs in if q.amount_issued == 0 || q.is_bolt12 then q ∷ rest else rest

module _ (api : CashuApi) where
  -- `remove` of one record.
  abbrev pub remove_record : Text → Text → Act Calls CdkError (Unit {0})
  remove_record s k = call api.kv (database io) (remove (cashu_key s k))

  abbrev pub cdk_list : Text → Act Calls CdkError (List Text)
  cdk_list s = list_keys api.kv (database io) (codes "cashu_wallet") s

  unfoldable pub get_mint_quote : Text → Act Calls CdkError (Option MintQuote)
  unfolding read_record
  get_mint_quote quote_id =
      map_err into_cdk (read_record api.kv api.mint_quote_json (cashu_key mint_quotes_key quote_id))

  unfoldable pub save_mint_quote : MintQuote → Act Calls CdkError (Unit {0})
  unfolding write_record
  save_mint_quote quote =
      map_err into_cdk
        (write_record api.kv api.mint_quote_json (cashu_key mint_quotes_key quote.id) quote)

  -- The quote against the one that is stored, if there is one.
  unfoldable pub add_mint_quote_over : MintQuote → Option MintQuote → Act Calls CdkError (Unit {0})
  unfolding save_mint_quote
  add_mint_quote_over quote none = save_mint_quote quote
  add_mint_quote_over quote (some existing) =
      if existing.version == quote.version
      then save_mint_quote (record quote { version = next_version quote.version })
      else throw concurrent_update

  unfoldable pub add_mint_quote : MintQuote → Act Calls CdkError (Unit {0})
  unfolding get_mint_quote add_mint_quote_over
  add_mint_quote quote = do existing ← get_mint_quote quote.id; add_mint_quote_over quote existing

  -- The records of the namespace, all of which are read before one is decoded. `read_keys_bounded`
  -- gives what this serial loop gives, since every error is the same.
  read_all_keys : Text → List Text → Act Calls CdkError (List (List ℕ))
  read_all_keys s [] = return []
  read_all_keys s (k ∷ keys) = do
    r ← read_key api.kv (cashu_key s k)
    data_ ←
        try (elim r [
          | found d ↦ ok d
          | not_found ↦ err (database io)
          | read_error ↦ err (database io)
        ])
    rest ← read_all_keys s keys
    return (data_ ∷ rest)

  decode_quotes : List (List ℕ) → Result (List MintQuote) DatabaseError
  unfolding decode_listed
  decode_quotes [] = ok []
  decode_quotes (d ∷ ds) =
      let rest = decode_quotes ds in
      elim (decode_listed api.mint_quote_json (found d)) [
        | err e ↦ err e
        | ok none ↦ rest
        | ok (some q) ↦ elim rest [ err e ↦ err e | ok qs ↦ ok (q ∷ qs) ]
      ]

  unfoldable pub get_mint_quotes : Act Calls CdkError (List MintQuote)
  unfolding read_all_keys decode_quotes
  get_mint_quotes = do
    keys ← cdk_list mint_quotes_key
    records ← read_all_keys mint_quotes_key keys
    map_err into_cdk (try (decode_quotes records))

  unfoldable pub get_unissued_mint_quotes : Act Calls CdkError (List MintQuote)
  unfolding get_mint_quotes filter_quotes
  get_unissued_mint_quotes = do all_quotes ← get_mint_quotes; return (filter_quotes all_quotes)

  unfoldable pub remove_mint_quote : Text → Act Calls CdkError (Unit {0})
  remove_mint_quote quote_id = remove_record mint_quotes_key quote_id

  unfoldable pub get_melt_quote : Text → Act Calls CdkError (Option MeltQuote)
  unfolding read_record
  get_melt_quote quote_id =
      map_err into_cdk (read_record api.kv api.melt_quote_json (cashu_key melt_quotes_key quote_id))

  unfoldable pub save_melt_quote : MeltQuote → Act Calls CdkError (Unit {0})
  unfolding write_record
  save_melt_quote quote =
      map_err into_cdk
        (write_record api.kv api.melt_quote_json (cashu_key melt_quotes_key quote.id) quote)

  unfoldable pub add_melt_quote_over : MeltQuote → Option MeltQuote → Act Calls CdkError (Unit {0})
  unfolding save_melt_quote proof_or
  add_melt_quote_over quote none = save_melt_quote quote
  add_melt_quote_over quote (some existing) =
      if existing.version == quote.version
      then save_melt_quote (record quote {
        version = next_version quote.version;
        payment_proof = proof_or quote.payment_proof existing.payment_proof;
      })
      else throw concurrent_update

  unfoldable pub add_melt_quote : MeltQuote → Act Calls CdkError (Unit {0})
  unfolding get_melt_quote add_melt_quote_over
  add_melt_quote quote = do existing ← get_melt_quote quote.id; add_melt_quote_over quote existing

  unfoldable pub get_melt_quotes : Act Calls CdkError (List MeltQuote)
  unfolding read_listed
  get_melt_quotes = do
    keys ← cdk_list melt_quotes_key
    map_err into_cdk (read_listed api.kv api.melt_quote_json melt_quotes_key keys)

  unfoldable pub remove_melt_quote : Text → Act Calls CdkError (Unit {0})
  remove_melt_quote quote_id = remove_record melt_quotes_key quote_id

  -- The quote that `reserve_mint_quote` found.
  unfoldable pub reserve_found_mint_quote : ℕ → Option MintQuote → Act Calls CdkError (Unit {0})
  unfolding save_mint_quote
  reserve_found_mint_quote operation_id none = throw unknown_quote
  reserve_found_mint_quote operation_id (some quote) = elim quote.used_by_operation [
    | some _ ↦ throw quote_already_in_use
    | none ↦
        save_mint_quote
          (record quote { used_by_operation = some (api.uuid_to_string operation_id) })
  ]

  unfoldable pub reserve_mint_quote : Text → ℕ → Act Calls CdkError (Unit {0})
  unfolding get_mint_quote reserve_found_mint_quote
  reserve_mint_quote quote_id operation_id = do
    quote ← get_mint_quote quote_id
    reserve_found_mint_quote operation_id quote

  is_used_by : Option Text → Text → Bool
  is_used_by none op_str = false
  is_used_by (some owner) op_str = text_beq owner op_str

  release_mint_quotes : Text → List MintQuote → Act Calls CdkError (Unit {0})
  unfolding is_used_by save_mint_quote
  release_mint_quotes op_str [] = return tt
  release_mint_quotes op_str (quote ∷ quotes) = do
    if is_used_by quote.used_by_operation op_str
        then save_mint_quote (record quote { used_by_operation = none })
        else return tt
    release_mint_quotes op_str quotes

  unfoldable pub release_mint_quote : ℕ → Act Calls CdkError (Unit {0})
  unfolding get_mint_quotes release_mint_quotes
  release_mint_quote operation_id = do
    quotes ← get_mint_quotes
    release_mint_quotes (api.uuid_to_string operation_id) quotes

  unfoldable pub reserve_found_melt_quote : ℕ → Option MeltQuote → Act Calls CdkError (Unit {0})
  unfolding save_melt_quote
  reserve_found_melt_quote operation_id none = throw unknown_quote
  reserve_found_melt_quote operation_id (some quote) = elim quote.used_by_operation [
    | some _ ↦ throw quote_already_in_use
    | none ↦
        save_melt_quote
          (record quote { used_by_operation = some (api.uuid_to_string operation_id) })
  ]

  unfoldable pub reserve_melt_quote : Text → ℕ → Act Calls CdkError (Unit {0})
  unfolding get_melt_quote reserve_found_melt_quote
  reserve_melt_quote quote_id operation_id = do
    quote ← get_melt_quote quote_id
    reserve_found_melt_quote operation_id quote

  release_melt_quotes : Text → List MeltQuote → Act Calls CdkError (Unit {0})
  unfolding is_used_by save_melt_quote
  release_melt_quotes op_str [] = return tt
  release_melt_quotes op_str (quote ∷ quotes) = do
    if is_used_by quote.used_by_operation op_str
        then save_melt_quote (record quote { used_by_operation = none })
        else return tt
    release_melt_quotes op_str quotes

  unfoldable pub release_melt_quote : ℕ → Act Calls CdkError (Unit {0})
  unfolding get_melt_quotes release_melt_quotes
  release_melt_quote operation_id = do
    quotes ← get_melt_quotes
    release_melt_quotes (api.uuid_to_string operation_id) quotes
