-- ===== src/Examples/CashuRuns.antt =====
-- Runs of the Cashu wallet's database.
use orange_sdk.Prelude.{
  ℕ, ◌+◌, ◌≡◌, ◌<◌, ◌^◌, refl, arith, true, false, inl, inr, Option, none, some, [], ◌∷◌, text_beq,
  ok, err,
}
use orange_sdk.Prelude.Act.{Ends}
use orange_sdk.Platform.Kv.{write, Calls}
use orange_sdk.Cashu.{
  ProofInfo, unspent, reserved, CashuKvDatabase, MintQuote, WalletSaga, concurrent_update,
}
use orange_sdk.Cashu.Records.{proofs_blob_key, decode_record}
use orange_sdk.Cashu.Proofs.{contains, read_proofs, decode_proofs}
use orange_sdk.Cashu.Proofs.Upsert.{
  find, find-update_proofs_cache, update_proofs_cache, find_last, last_index,
}
use orange_sdk.Cashu.Proofs.Updates.{
  update_proofs, update_proofs_state, reserve_proofs, release_proofs,
}
use orange_sdk.Cashu.Proofs.Committed.{IsCommitted, Commits, read_stored, read_proofs-Stored}
use orange_sdk.Cashu.Proofs.Operations.{operations-IsCommitted}
use orange_sdk.Cashu.Proofs.Exclusive.{is_err, stands, reserve_proofs-exclusive}
use orange_sdk.Cashu.Database.{new_database, Loaded, new_database-Loaded}
use orange_sdk.Cashu.Quotes.{add_mint_quote, get_mint_quote}
use orange_sdk.Cashu.Sagas.{add_saga, update_saga}
use orange_sdk.Cashu.Stale.{add_mint_quote-stale}
use orange_sdk.Cashu.Counters.{increment_keyset_counter, increment_keyset_counter-disjoint}
use orange_sdk.Examples.WalletKv.{find_call}
use orange_sdk.Examples.CashuFixtures.{cashu_api, cashu_laws}

abbrev coin : ℕ → Option ℕ → ProofInfo
coin y index = record {
  y = y;
  amount = 8;
  mint_url = 1;
  state = unspent;
  spending_condition = none;
  unit = 0;
  used_by_operation = none;
  derivation_index = index;
  rest = 0;
}

-- The store after two proofs were written.
abbrev two_coins : Calls
two_coins =
    write proofs_blob_key
      (1 ∷ 7 ∷ 8 ∷ 1 ∷ 0 ∷ 0 ∷ 0 ∷ 0 ∷ 5 ∷ 0 ∷ 9 ∷ 8 ∷ 1 ∷ 0 ∷ 0 ∷ 0 ∷ 0 ∷ 0 ∷ 0 ∷ [])
    ∷ []

-- A wallet that has read them.
abbrev wallet : CashuKvDatabase
wallet = record {
  calls = two_coins;
  proofs_cache_needs_reload = false;
  mints_cache = [];
  proofs_cache = coin 7 (some 4) ∷ coin 9 none ∷ [];
}

-- The same after a write whose answer was lost, with a cache that is not what the store holds.
abbrev uncertain : CashuKvDatabase
uncertain = record wallet { proofs_cache_needs_reload = true; proofs_cache = [] }

wallet-IsCommitted : IsCommitted cashu_api wallet
unfolding decode_proofs find_call text_beq
wallet-IsCommitted = inr refl

uncertain-IsCommitted : IsCommitted cashu_api uncertain
uncertain-IsCommitted = inl refl

operations-IsCommitted_example :
    Ends
      (λ r s. IsCommitted cashu_api s)
      (update_proofs cashu_api (coin 3 none ∷ []) (9 ∷ []) wallet)
    × Ends (λ r s. IsCommitted cashu_api s) (update_proofs_state cashu_api (7 ∷ []) reserved wallet)
    × Ends (λ r s. IsCommitted cashu_api s) (reserve_proofs cashu_api (7 ∷ []) 2 wallet)
    × Ends (λ r s. IsCommitted cashu_api s) (release_proofs cashu_api 2 wallet)
operations-IsCommitted_example =
    operations-IsCommitted cashu_api cashu_laws (coin 3 none ∷ []) (9 ∷ []) (7 ∷ []) reserved 2
      wallet wallet-IsCommitted

read_proofs-Stored_example :
    Ends
      (λ r s. Commits cashu_api r s × (r ≡ read_stored cashu_api (λ ps. ps) uncertain))
      (read_proofs cashu_api (λ ps. ps) uncertain)
read_proofs-Stored_example = read_proofs-Stored cashu_api (λ ps. ps) uncertain uncertain-IsCommitted

-- The reread finds both proofs.
reread : read_stored cashu_api (λ ps. ps) uncertain ≡ ok (coin 7 (some 4) ∷ coin 9 none ∷ [])
unfolding read_stored decode_proofs find_call text_beq
reread = refl

find-update_proofs_cache_example :
    find 7 (update_proofs_cache (coin 7 (some 4) ∷ coin 9 none ∷ []) (coin 7 none ∷ []) (9 ∷ []))
    ≡ some (coin 7 (some 4))
unfolding contains find_last last_index
find-update_proofs_cache_example =
    find-update_proofs_cache 7 (coin 7 (some 4) ∷ coin 9 none ∷ []) (coin 7 none ∷ []) (9 ∷ [])

-- The wallet after operation 1 reserved the first proof.
abbrev reserved_wallet : CashuKvDatabase
reserved_wallet = record {
  calls =
      write proofs_blob_key
        (1 ∷ 7 ∷ 8 ∷ 1 ∷ 1 ∷ 0 ∷ 0 ∷ 2 ∷ 5 ∷ 0 ∷ 9 ∷ 8 ∷ 1 ∷ 0 ∷ 0 ∷ 0 ∷ 0 ∷ 0 ∷ 0 ∷ [])
      ∷ two_coins;
  proofs_cache_needs_reload = false;
  mints_cache = [];
  proofs_cache =
      record (coin 7 (some 4)) { state = reserved; used_by_operation = some 1 } ∷ coin 9 none ∷ [];
}

reserve_run : reserve_proofs cashu_api (7 ∷ []) 1 wallet ≡ (ok tt, reserved_wallet)
unfolding reserve_proofs find_call text_beq
reserve_run = refl

reserve_proofs-exclusive_example :
    Ends
      (λ r s. (is_err r ≡ true) × (s ≡ reserved_wallet))
      (reserve_proofs cashu_api (9 ∷ 7 ∷ []) 2 reserved_wallet)
unfolding contains stands
reserve_proofs-exclusive_example =
    reserve_proofs-exclusive cashu_api cashu_laws (7 ∷ []) (9 ∷ 7 ∷ []) 1 2 7 wallet reserved_wallet
      reserve_run refl refl refl (ground arith)

abbrev quote : MintQuote
quote = record {
  id = 4 ∷ [];
  version = 3;
  used_by_operation = none;
  amount_issued = 0;
  is_bolt12 = false;
  rest = 0;
}

abbrev quote_calls : Calls
quote_calls = (add_mint_quote cashu_api quote []).1

quote_read : get_mint_quote cashu_api (4 ∷ []) quote_calls ≡ (ok (some quote), quote_calls)
unfolding get_mint_quote add_mint_quote decode_record find_call text_beq
quote_read = refl

abbrev paid : MintQuote
paid = record quote { amount_issued = 8 }

paid_run :
    add_mint_quote cashu_api paid quote_calls
    ≡ (ok tt, (add_mint_quote cashu_api paid quote_calls).1)
unfolding add_mint_quote decode_record find_call text_beq
paid_run = refl

add_mint_quote-stale_example :
    add_mint_quote cashu_api quote (add_mint_quote cashu_api paid quote_calls).1
    ≡ (err concurrent_update, (add_mint_quote cashu_api paid quote_calls).1)
add_mint_quote-stale_example =
    add_mint_quote-stale cashu_api cashu_laws paid quote quote quote_calls
      (add_mint_quote cashu_api paid quote_calls).1 quote_read paid_run refl refl

abbrev saga : WalletSaga
saga = record { id = 5; version = 1; rest = 0 }

abbrev saga_calls : Calls
saga_calls = (add_saga cashu_api (record saga { version = 0 }) []).1

saga_run :
    update_saga cashu_api saga saga_calls ≡ (ok true, (update_saga cashu_api saga saga_calls).1)
unfolding add_saga update_saga decode_record find_call text_beq
saga_run = refl

first_increment :
    increment_keyset_counter cashu_api 3 10 []
    ≡ (ok 10, (increment_keyset_counter cashu_api 3 10 []).1)
unfolding increment_keyset_counter find_call text_beq
first_increment = refl

second_increment :
    increment_keyset_counter cashu_api 3 5 (increment_keyset_counter cashu_api 3 10 []).1 ≡ (
      ok 15,
      (increment_keyset_counter cashu_api 3 5 (increment_keyset_counter cashu_api 3 10 []).1).1,
    )
unfolding increment_keyset_counter find_call text_beq
second_increment = refl

increment_keyset_counter-disjoint_example : (15 ≡ 10 + 5) × (15 < 2 ^ 32)
increment_keyset_counter-disjoint_example =
    increment_keyset_counter-disjoint cashu_api cashu_laws 3 10 5 []
      (increment_keyset_counter cashu_api 3 10 []).1
      (increment_keyset_counter cashu_api 3 5 (increment_keyset_counter cashu_api 3 10 []).1).1 10
      15 first_increment second_increment

-- A database that is opened on the two proofs.
open_run : new_database cashu_api two_coins ≡ (ok wallet, two_coins)
unfolding new_database find_call text_beq
open_run = refl

new_database-Loaded_example : Loaded cashu_api wallet × (two_coins ≡ two_coins)
new_database-Loaded_example = new_database-Loaded cashu_api two_coins two_coins wallet open_run
