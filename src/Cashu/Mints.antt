-- ===== src/Cashu/Mints.antt =====
-- The mints and their cache: `load_mints_from_store`, `load_mint_info`, `save_mint_info` and
-- `add_mint` to `update_mint_url`, and the constructor with `load_caches`, in
-- orange-sdk/src/trusted_wallet/cashu/cashu_store.rs.
use orange_sdk.Prelude.{
  ℕ, Bool, true, false, ◌&&◌, Option, none, some, List, [], ◌∷◌, ◌++◌, Text, codes, ok,
  if◌then◌else◌, ◌==◌, nat_eq,
}
use orange_sdk.Prelude.Assoc.{HashMap, get, insert, remove}
use orange_sdk.Prelude.Act.{Act, return, try, asks, modifies, map_err, ◌>>=◌, ◌>>◌}
use orange_sdk.Platform.Kv.{Calls, list_keys, read_key}
use orange_sdk.Cashu.{CashuApi, CashuKvDatabase, CdkError, DatabaseError, io, into_cdk}
use orange_sdk.Cashu.Records.{
  cashu_key, mints_key, mint_keysets_key, read_record, write_record, decode_listed, on_calls,
}
use orange_sdk.Cashu.Quotes.{remove_record}
use orange_sdk.Cashu.Keysets.{get_mint_keysets, add_mint_keysets}
use orange_sdk.Cashu.Proofs.{load_proofs_from_store}

-- `str::starts_with`.
unfoldable pub starts_with : Text → Text → Bool
starts_with s [] = true
starts_with [] (c ∷ p) = false
starts_with (b ∷ s) (c ∷ p) = b == c && starts_with s p

module _ (api : CashuApi) where
  abbrev pub generate_mint_key : ℕ → Text
  generate_mint_key mint_url = codes "mint_" ++ api.hash_hex mint_url

  abbrev pub generate_mint_info_key : ℕ → Text
  generate_mint_info_key mint_url = codes "info_" ++ api.hash_hex mint_url

  unfoldable pub load_mint_info : ℕ → Act Calls DatabaseError (Option ℕ)
  unfolding read_record
  load_mint_info mint_url =
      read_record api.kv api.mint_info_json (cashu_key mints_key (generate_mint_info_key mint_url))

  unfoldable pub save_mint_info : ℕ → ℕ → Act Calls DatabaseError (Unit {0})
  unfolding write_record
  save_mint_info mint_url mint_info =
      write_record api.kv api.mint_info_json (cashu_key mints_key (generate_mint_info_key mint_url))
        mint_info

  -- The loop over the keys, with the map made so far.
  unfoldable pub load_mints :
      List Text → HashMap ℕ (Option ℕ) → Act Calls DatabaseError (HashMap ℕ (Option ℕ))
  unfolding starts_with decode_listed load_mint_info
  load_mints [] mints = return mints
  load_mints (k ∷ keys) mints =
      if starts_with k (codes "mint_")
      then (do
        r ← read_key api.kv (cashu_key mints_key k)
        mint_url ← try (decode_listed api.mint_url_json r)
        elim mint_url [
          | none ↦ load_mints keys mints
          | some url ↦ (do
            mint_info ← load_mint_info url
            load_mints keys (insert url mint_info mints))
        ])
      else load_mints keys mints

  unfoldable pub load_mints_from_store : Act Calls DatabaseError (HashMap ℕ (Option ℕ))
  unfolding load_mints
  load_mints_from_store = do
    keys ← list_keys api.kv io (codes "cashu_wallet") mints_key
    load_mints keys []

  -- Both loads run; the mints are set even where the proofs cannot be read.
  unfoldable pub load_caches : Act CashuKvDatabase DatabaseError (Unit {0})
  unfolding load_mints_from_store load_proofs_from_store
  load_caches = do
    mints ← on_calls load_mints_from_store
    modifies λ db. record db { mints_cache = mints }
    proofs ← load_proofs_from_store api
    modifies λ db. record db { proofs_cache = proofs }

  unfoldable pub add_mint : ℕ → Option ℕ → Act CashuKvDatabase CdkError (Unit {0})
  unfolding write_record save_mint_info
  add_mint mint_url mint_info = do
    on_calls (
        map_err into_cdk (
          write_record api.kv api.mint_url_json (cashu_key mints_key (generate_mint_key mint_url))
            mint_url))
    on_calls (
        map_err into_cdk
          (elim mint_info [ none ↦ return tt | some info ↦ save_mint_info mint_url info ]))
    modifies λ db. record db { mints_cache = insert mint_url mint_info db.mints_cache }

  unfoldable pub remove_mint : ℕ → Act CashuKvDatabase CdkError (Unit {0})
  remove_mint mint_url = do
    on_calls (remove_record api mints_key (generate_mint_key mint_url))
    on_calls (remove_record api mints_key (generate_mint_info_key mint_url))
    on_calls (remove_record api mint_keysets_key (codes "keysets_" ++ api.hash_hex mint_url))
    modifies λ db. record db { mints_cache = remove mint_url db.mints_cache }

  -- A mint that the cache does not have is looked up in the store.
  unfoldable pub get_mint : ℕ → Act CashuKvDatabase CdkError (Option ℕ)
  unfolding load_mint_info
  get_mint mint_url db = elim (get mint_url db.mints_cache) [
    | some mint_info ↦ (ok mint_info, db)
    | none ↦ on_calls (map_err into_cdk (load_mint_info mint_url)) db
  ]

  unfoldable pub get_mints : Act CashuKvDatabase CdkError (HashMap ℕ (Option ℕ))
  get_mints = asks λ db. db.mints_cache

  unfoldable pub update_mint_url : ℕ → ℕ → Act CashuKvDatabase CdkError (Unit {0})
  unfolding get_mint get_mint_keysets add_mint add_mint_keysets remove_mint
  update_mint_url old_mint_url new_mint_url = do
    mint_info ← get_mint old_mint_url
    mint_keysets ← on_calls (get_mint_keysets api old_mint_url)
    add_mint new_mint_url mint_info
    on_calls (elim mint_keysets [
      | none ↦ return tt
      | some keysets ↦ add_mint_keysets api new_mint_url keysets
    ])
    remove_mint old_mint_url
