-- ===== src/Cashu/Transactions.antt =====
-- Transactions, and their move to the keys of cdk 0.18: `migrate_transaction_ids`,
-- `add_transaction` to `remove_transaction`, and the flag of a finished recovery, in
-- orange-sdk/src/trusted_wallet/cashu/cashu_store.rs.
use orange_sdk.Prelude.{
  ℕ, Bool, true, false, ◌&&◌, not, Option, none, some, List, [], ◌∷◌, Text, codes, Result, ok, err,
  if◌then◌else◌, ◌==◌, nat_eq, text_beq,
}
use orange_sdk.Prelude.Act.{Act, return, throw, try, map_err, ◌>>=◌, ◌>>◌}
use orange_sdk.Platform.{StoreKey, ReadResult, found, not_found, read_error}
use orange_sdk.Platform.Kv.{Calls, call, write, remove, list_keys, read_key, ok_or}
use orange_sdk.Cashu.{
  CashuApi, CdkError, DatabaseError, serialization, io, invalid_format, duplicate, into_cdk,
  Transaction,
}
use orange_sdk.Cashu.Records.{cashu_key, transactions_key, read_record, write_record, read_listed}
use orange_sdk.Cashu.Quotes.{remove_record, cdk_list}

abbrev pub transaction_key : Text → StoreKey
transaction_key k = cashu_key transactions_key k

abbrev pub migration_key : StoreKey
migration_key = cashu_key [] (codes "cdk_018_transaction_ids")

abbrev pub has_recovered_key : StoreKey
has_recovered_key = cashu_key [] (codes "has_recovered")

-- Whether the marker of the migration is there.
is_migrated : ReadResult → Result Bool DatabaseError
is_migrated (found (b ∷ [])) = if b == 1 then ok true else err invalid_format
is_migrated (found _) = err invalid_format
is_migrated not_found = ok false
is_migrated read_error = err io

-- A filter of `list_transactions` that may be absent.
agrees : Option ℕ → ℕ → Bool
agrees none n = true
agrees (some m) n = n == m

select : Option ℕ → Option ℕ → Option ℕ → List Transaction → List Transaction
unfolding agrees
select mint_url direction unit [] = []
select mint_url direction unit (t ∷ ts) =
    let rest = select mint_url direction unit ts in
    if agrees mint_url t.mint_url && agrees direction t.direction && agrees unit t.unit
    then t ∷ rest
    else rest

is_recovered : ReadResult → Result Bool (Unit {0})
is_recovered (found []) = ok false
is_recovered (found (b ∷ d)) = ok (not (b == 0))
is_recovered not_found = ok false
is_recovered read_error = err tt

module _ (api : CashuApi) where
  -- What stands under the new key: it is written where nothing does, and a record that stands
  -- there must be the same one.
  unfoldable pub copy_transaction :
      Transaction → List ℕ → Text → ReadResult → Act Calls DatabaseError (Unit {0})
  copy_transaction transaction data_ new_key (found d) = do
    existing ← try (ok_or serialization (api.transaction_json.from_slice d))
    if api.transaction_eq.beq existing transaction then return tt else throw duplicate
  copy_transaction transaction data_ new_key not_found =
      call api.kv io (write (transaction_key new_key) data_)
  copy_transaction transaction data_ new_key read_error = throw io

  -- A record that is not under its id: its key must be the old id.
  unfoldable pub move_transaction : Text → Transaction → List ℕ → Act Calls DatabaseError (Unit {0})
  unfolding copy_transaction text_beq
  move_transaction old_key transaction data_ =
      if text_beq old_key (api.transaction_id transaction)
      then return tt
      else if text_beq old_key (api.transaction_id_new transaction.ys)
      then (do
        r ← read_key api.kv (transaction_key (api.transaction_id transaction))
        copy_transaction transaction data_ (api.transaction_id transaction) r
        call api.kv io (remove (transaction_key old_key)))
      else throw invalid_format

  -- One turn of the loop, on what its read found.
  unfoldable pub migrate_record : Text → ReadResult → Act Calls DatabaseError (Unit {0})
  unfolding move_transaction
  migrate_record old_key (found []) = return tt
  migrate_record old_key (found (b ∷ d)) = do
    transaction ← try (ok_or serialization (api.transaction_json.from_slice (b ∷ d)))
    move_transaction old_key transaction (b ∷ d)
  migrate_record old_key _ = throw io

  unfoldable pub migrate_each : List Text → Act Calls DatabaseError (Unit {0})
  unfolding migrate_record
  migrate_each [] = return tt
  migrate_each (old_key ∷ keys) = do
    r ← read_key api.kv (transaction_key old_key)
    migrate_record old_key r
    migrate_each keys

  migrate_keys : List Text → Act Calls DatabaseError (Unit {0})
  unfolding migrate_each
  migrate_keys [] = return tt
  migrate_keys (k ∷ keys) = do
    migrate_each (k ∷ keys)
    call api.kv io (write migration_key (1 ∷ []))

  unfoldable pub migrate_transaction_ids : Act Calls DatabaseError (Unit {0})
  unfolding is_migrated migrate_keys
  migrate_transaction_ids = do
    marker ← read_key api.kv migration_key
    migrated ← try (is_migrated marker)
    if migrated then return tt else (do
      keys ← list_keys api.kv io (codes "cashu_wallet") transactions_key
      migrate_keys keys)

  unfoldable pub add_transaction : Transaction → Act Calls CdkError (Unit {0})
  unfolding write_record
  add_transaction transaction = map_err into_cdk (
      write_record api.kv api.transaction_json (transaction_key (api.transaction_id transaction))
        transaction)

  unfoldable pub get_transaction : Text → Act Calls CdkError (Option Transaction)
  unfolding read_record
  get_transaction id =
      map_err into_cdk (read_record api.kv api.transaction_json (transaction_key id))

  unfoldable pub list_transactions :
      Option ℕ → Option ℕ → Option ℕ → Act Calls CdkError (List Transaction)
  unfolding read_listed select
  list_transactions mint_url direction unit = do
    keys ← cdk_list api transactions_key
    ts ← map_err into_cdk (read_listed api.kv api.transaction_json transactions_key keys)
    return (select mint_url direction unit ts)

  unfoldable pub remove_transaction : Text → Act Calls CdkError (Unit {0})
  remove_transaction id = remove_record api transactions_key id

  unfoldable pub read_has_recovered : Act Calls (Unit {0}) Bool
  unfolding is_recovered
  read_has_recovered = do r ← read_key api.kv has_recovered_key; try (is_recovered r)

  unfoldable pub write_has_recovered : Bool → Act Calls (Unit {0}) (Unit {0})
  write_has_recovered has_recovered =
      call api.kv tt (write has_recovered_key ((if has_recovered then 1 else 0) ∷ []))
