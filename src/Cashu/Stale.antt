-- ===== src/Cashu/Stale.antt =====
-- A writer that holds an old version of a quote or a saga is refused, and so is a second
-- reservation of a quote (orange-sdk/src/trusted_wallet/cashu/cashu_store.rs).
use orange_sdk.Prelude.{
  ℕ, ◌≡◌, ◌≢◌, true, false, Option, none, some, ok, err, arith, Bool-cases, Option-cases, inl, inr,
}
use orange_sdk.Prelude.Act.{map_err-eq-ok, >>=-eq-ok, return}
use orange_sdk.Platform.Kv.{Calls}
use orange_sdk.Cashu.{
  CashuApi, CashuLaws, concurrent_update, quote_already_in_use, into_cdk, MintQuote, WalletSaga,
}
use orange_sdk.Cashu.Records.{cashu_key, mint_quotes_key, write_record, read_record-write_record}
use orange_sdk.Cashu.Quotes.{
  get_mint_quote, save_mint_quote, add_mint_quote, add_mint_quote_over, next_version,
  reserve_mint_quote, reserve_found_mint_quote,
}
use orange_sdk.Cashu.Sagas.{add_saga, get_saga, update_saga, update_saga_over, is_next, saga_key}

next_version-ne : (v : ℕ) → next_version v ≢ v
next_version-ne v e = ground (arith, e)

is_next-ne : (v : ℕ) → is_next v v ≡ false
unfolding is_next
is_next-ne v = ground arith

module _ (api : CashuApi) (laws : CashuLaws api) where
  get-save_mint_quote :
      (q : MintQuote) (h h' : Calls)
      → save_mint_quote api q h ≡ (ok tt, h')
      → get_mint_quote api q.id h' ≡ (ok (some q), h')
  unfolding save_mint_quote get_mint_quote
  get-save_mint_quote q h h' e = rw (
      read_record-write_record api.kv laws.kv api.mint_quote_json laws.mint_quote_json
        (cashu_key mint_quotes_key q.id) q h h'
        (map_err-eq-ok into_cdk
          (write_record api.kv api.mint_quote_json (cashu_key mint_quotes_key q.id) q) h e))

  get-add_saga :
      (s : WalletSaga) (h h' : Calls)
      → add_saga api s h ≡ (ok tt, h')
      → get_saga api s.id h' ≡ (ok (some s), h')
  unfolding add_saga get_saga
  get-add_saga s h h' e = rw (
      read_record-write_record api.kv laws.kv api.saga_json laws.saga_json (saga_key api s.id) s h
        h' (map_err-eq-ok into_cdk (write_record api.kv api.saga_json (saga_key api s.id) s) h e))

  -- Where what was written is read back: after `add_mint_quote` replaced a stored quote,
  -- `add_mint_quote` of a quote with the same id and the version that the first writer had returns
  -- `ConcurrentUpdate` and writes nothing.
  pub add_mint_quote-stale :
      (q more existing : MintQuote) (h h' : Calls)
      → get_mint_quote api q.id h ≡ (ok (some existing), h)
      → add_mint_quote api q h ≡ (ok tt, h')
      → more.id ≡ q.id
      → more.version ≡ q.version
      → add_mint_quote api more h' ≡ (err concurrent_update, h')
  unfolding add_mint_quote add_mint_quote_over
  add_mint_quote-stale q more existing h h' g a i v =
      (let saved : save_mint_quote api (record q { version = next_version q.version }) h
            ≡ (ok tt, h') =
          ground (arith, g, a) in
        let stored : get_mint_quote api more.id h'
            ≡ (ok (some (record q { version = next_version q.version })), h') =
          rw i (get-save_mint_quote (record q { version = next_version q.version }) h h' saved) in
        ground (arith, stored, v, next_version-ne q.version))

  update_saga_over-true :
      (s : WalletSaga) (o : Option WalletSaga) (h h' : Calls)
      → update_saga_over api s o h ≡ (ok true, h')
      → add_saga api s h ≡ (ok tt, h')
  unfolding update_saga_over
  update_saga_over-true s none h h' e = ground (arith, e)
  update_saga_over-true s (some existing) h h' e =
      elim (Bool-cases (is_next existing.version s.version)) [
        | inl next ↦
            (let (a, t, e1, e2) = >>=-eq-ok (add_saga api s) (λ _. return true) h (rw next at e) in
              rw e1 (ground (arith, e2)))
        | inr other ↦ ground (arith, e, other)
      ]

  -- Where what was written is read back: after `update_saga` returned true, an update of that saga
  -- to the same version returns false and writes nothing.
  pub update_saga-stale :
      (s more : WalletSaga) (h h' : Calls)
      → update_saga api s h ≡ (ok true, h')
      → more.id ≡ s.id
      → more.version ≡ s.version
      → update_saga api more h' ≡ (ok false, h')
  unfolding update_saga update_saga_over
  update_saga-stale s more h h' u i v =
      (let (o, t, e1, e2) = >>=-eq-ok (get_saga api s.id) (update_saga_over api s) h u in
        let stored : get_saga api more.id h' ≡ (ok (some s), h') =
          rw i (get-add_saga s t h' (update_saga_over-true s o t h' e2)) in
        ground (arith, stored, v, is_next-ne s.version))

  -- Where what was written is read back: after `reserve_mint_quote` returned `Ok` for a stored
  -- quote, a reservation of that quote by any operation returns `QuoteAlreadyInUse` and writes
  -- nothing.
  pub reserve_mint_quote-taken :
      (q : MintQuote) (op other : ℕ) (h h' : Calls)
      → get_mint_quote api q.id h ≡ (ok (some q), h)
      → reserve_mint_quote api q.id op h ≡ (ok tt, h')
      → reserve_mint_quote api q.id other h' ≡ (err quote_already_in_use, h')
  unfolding reserve_mint_quote reserve_found_mint_quote
  reserve_mint_quote-taken q op other h h' g r = elim (Option-cases q.used_by_operation) [
    | inl free ↦
        (let used : MintQuote = record q { used_by_operation = some (api.uuid_to_string op) } in
          let saved : save_mint_quote api used h ≡ (ok tt, h') = ground (arith, g, r, free) in
          ground (arith, get-save_mint_quote used h h' saved))
    | inr (owner, taken) ↦ ground (arith, g, r, taken)
  ]
