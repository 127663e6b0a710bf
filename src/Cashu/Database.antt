-- ===== src/Cashu/Database.antt =====
-- The key-value calls that the database passes on (`kv_read` to `kv_remove`), and its constructor
-- (`CashuKvDatabase::new`), in orange-sdk/src/trusted_wallet/cashu/cashu_store.rs.
use orange_sdk.Prelude.{
  ◌≡◌, arith, ℕ, false, Option, none, some, List, [], ◌∷◌, Text, Result, ok, err,
}
use orange_sdk.Prelude.Act.{Act, try, >>=-eq-ok, modifies, ◌>>=◌, ◌>>◌}
use orange_sdk.Platform.{StoreKey, ReadResult, found, not_found, read_error}
use orange_sdk.Platform.Kv.{Calls, call, write, remove, list_keys, read_key}
use orange_sdk.Cashu.{CashuApi, CashuKvDatabase, CdkError, DatabaseError, database, io, ProofInfo}
use orange_sdk.Cashu.Records.{on_calls, proofs_blob_key}
use orange_sdk.Cashu.Mints.{load_caches, load_mints_from_store}
use orange_sdk.Cashu.Proofs.{load_proofs_from_store, decode_proofs}
use orange_sdk.Cashu.Transactions.{migrate_transaction_ids}

abbrev pub namespaced : Text → Text → Text → StoreKey
namespaced primary_namespace secondary_namespace key = record {
  primary = primary_namespace;
  secondary = secondary_namespace;
  key = key;
}

-- Empty data counts as none.
present : ReadResult → Result (Option (List ℕ)) CdkError
present (found []) = ok none
present (found (b ∷ d)) = ok (some (b ∷ d))
present not_found = ok none
present read_error = err (database io)

module _ (api : CashuApi) where
  unfoldable pub kv_read : Text → Text → Text → Act Calls CdkError (Option (List ℕ))
  unfolding present
  kv_read p s k = do r ← read_key api.kv (namespaced p s k); try (present r)

  unfoldable pub kv_list : Text → Text → Act Calls CdkError (List Text)
  kv_list p s = list_keys api.kv (database io) p s

  unfoldable pub kv_remove : Text → Text → Text → Act Calls CdkError (Unit {0})
  kv_remove p s k = call api.kv (database io) (remove (namespaced p s k))

  unfoldable pub kv_write : Text → Text → Text → List ℕ → Act Calls CdkError (Unit {0})
  kv_write p s k value = call api.kv (database io) (write (namespaced p s k) value)

  -- What the constructor's result is, given how its two steps ended.
  unfoldable pub opened :
      Result (Unit {0}) DatabaseError × CashuKvDatabase
      → Result CashuKvDatabase DatabaseError × Calls
  opened (ok _, db) = (ok db, db.calls)
  opened (err e, db) = (err e, db.calls)

  -- The constructor, on a store with the calls made before it; a failed one returns no database.
  unfoldable pub new_database : Calls → Result CashuKvDatabase DatabaseError × Calls
  unfolding migrate_transaction_ids load_caches opened
  new_database h =
      let start : CashuKvDatabase = record {
        calls = h;
        proofs_cache_needs_reload = false;
        mints_cache = [];
        proofs_cache = [];
      } in
      opened ((on_calls (migrate_transaction_ids api) >> load_caches api) start)

  -- The cache of the proofs is what the store holds.
  abbrev pub Loaded : CashuKvDatabase → Type 0
  Loaded db = decode_proofs api (api.kv.read db.calls proofs_blob_key) ≡ ok db.proofs_cache

  proofs-Loaded :
      (s s' t : CashuKvDatabase) (proofs : List ProofInfo)
      → load_proofs_from_store api s ≡ (ok proofs, s')
      → modifies {E = DatabaseError} (λ db. record db { proofs_cache = proofs }) s' ≡ (ok tt, t)
      → Loaded t
  unfolding load_proofs_from_store
  proofs-Loaded s s' t proofs e l = ground (arith, e, l)

  load_caches-Loaded : (s t : CashuKvDatabase) → load_caches api s ≡ (ok tt, t) → Loaded t
  unfolding load_caches load_proofs_from_store
  load_caches-Loaded s t e =
      (let (mints, s1, _, e1) = >>=-eq-ok (on_calls (load_mints_from_store api)) _ s e in
        let s2 : CashuKvDatabase = record s1 { mints_cache = mints } in
        let (proofs, s3, e3, e4) = >>=-eq-ok (load_proofs_from_store api) _ s2 e1 in
        proofs-Loaded s2 s3 t proofs e3 e4)

  opened-ok :
      (p : Result (Unit {0}) DatabaseError × CashuKvDatabase) (db : CashuKvDatabase) (h : Calls)
      → opened p ≡ (ok db, h)
      → (p ≡ (ok tt, db)) × (h ≡ db.calls)
  unfolding opened
  opened-ok (ok _, s) db h e = (ground (arith, e), ground (arith, e))
  opened-ok (err x, s) db h e = (ground (arith, e), ground (arith, e))

  -- A database that the constructor returns holds in its cache of the proofs what the store holds
  -- after the constructor's last call.
  pub new_database-Loaded :
      (h h' : Calls) (db : CashuKvDatabase)
      → new_database h ≡ (ok db, h')
      → Loaded db × (h' ≡ db.calls)
  unfolding new_database
  new_database-Loaded h h' db e =
      (let (eo, eh) = opened-ok _ db h' e in
        let (_, s, _, es) =
          >>=-eq-ok (on_calls (migrate_transaction_ids api)) (λ _. load_caches api) _ eo in
        (load_caches-Loaded s db es, eh))
