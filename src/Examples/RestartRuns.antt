-- ===== src/Examples/RestartRuns.antt =====
-- Bounded reads and a restart of the metadata store at concrete inputs.
use orange_sdk.Prelude.{
  ℕ, ◌≡◌, refl, some, List, [], ◌∷◌, inl, inr, Result, ok, err, ap, sym, Text, arith, Bool-cases,
}
use orange_sdk.Prelude.Assoc.{get, insert}
use orange_sdk.Platform.{StoreKey, found}
use orange_sdk.Platform.Reads.{read_keys_bounded, returned}
use orange_sdk.Platform.Reads.Serial.{Gathers, read_keys_bounded-Gathers}
use orange_sdk.Store.Types.{PaymentId, TxMetadata, trusted}
use orange_sdk.Store.Ids.{to_string}
use orange_sdk.Store.World.{Store, lookup, metadata_key}
use orange_sdk.Store.Wrote.{IsMirrored, wrote-IsMirrored}
use orange_sdk.Store.Restart.{new_store, entry_key}
use orange_sdk.Store.Restart.Restored.{IsListed, new_store-restores}
use orange_sdk.Examples.Fixtures.{
  memory_laws, memory_backend, memory_reliable, tally_hex, tally_laws, empty_store, find_write,
  key_beq, key_beq_iff,
}
use orange_sdk.Examples.StoreRuns.{sent, one_payment, empty-IsMirrored}

-- The key of one letter is read as that letter; the empty key cannot be read.
abbrev letters : Text → Result (List ℕ) ℕ
letters [] = err 5
letters (c ∷ k) = ok (c ∷ [])

abbrev twelve : List Text
twelve =
    (1 ∷ [])
    ∷ (2 ∷ [])
    ∷ (3 ∷ [])
    ∷ (4 ∷ [])
    ∷ (5 ∷ [])
    ∷ (6 ∷ [])
    ∷ (7 ∷ [])
    ∷ (8 ∷ [])
    ∷ (9 ∷ [])
    ∷ (10 ∷ [])
    ∷ (11 ∷ [])
    ∷ (12 ∷ [])
    ∷ []

read_keys_bounded-Gathers_example :
    Gathers letters twelve (read_keys_bounded letters (λ fuel. fuel) twelve)
read_keys_bounded-Gathers_example = read_keys_bounded-Gathers letters (λ fuel. fuel) twelve

-- The first read that ends is one that fails.
fails_fast : read_keys_bounded letters (λ _. 1) ((1 ∷ []) ∷ [] ∷ []) ≡ returned (err 5)
unfolding read_keys_bounded
fails_fast = refl

one-IsMirrored : IsMirrored memory_backend one_payment
one-IsMirrored =
    wrote-IsMirrored memory_backend memory_laws tally_laws memory_reliable (trusted 1) sent
      empty_store empty-IsMirrored

found_one :
    (k : Text) (d : List ℕ)
    → find_write one_payment.writes (entry_key k) ≡ found d
    → k ≡ to_string tally_hex (trusted 1)
unfolding find_write
found_one k d e =
    (let stored : StoreKey = metadata_key memory_backend (trusted 1) in
      elim (Bool-cases (key_beq stored (entry_key k))) [
        | inl b ↦ ap (λ (j : StoreKey). j.key) (sym ((key_beq_iff stored (entry_key k)).0 b))
        | inr b ↦ absurd (ground (arith, e, b))
      ])

one-IsListed : IsListed memory_backend one_payment.writes (to_string tally_hex (trusted 1) ∷ [])
unfolding find_write
one-IsListed = record {
  listed = λ k a. elim a [
    | inl e ↦ (
      5 ∷ [],
      ground (
        arith,
        e,
        (key_beq_iff (metadata_key memory_backend (trusted 1)) (entry_key k)).1
            (ap entry_key (sym e)),
      ),
    )
    | inr n ↦ absurd n
  ];
  complete = λ k d e. inl (found_one k d e);
  ids = λ k a. elim a [ inl e ↦ (trusted 1, e) | inr n ↦ absurd n ];
}

decodes : (id : PaymentId) (m : TxMetadata) → lookup id one_payment ≡ some m → some sent ≡ some m
unfolding get insert
decodes id m e = ground (arith, e)

new_store-restores_example :
    (after : Store) × (new_store memory_backend
        (λ _. some sent)
        (λ fuel. fuel)
        (some (to_string tally_hex (trusted 1) ∷ []))
        one_payment.writes
      ≡ some after)
    × (after.writes ≡ one_payment.writes)
    × ((id : PaymentId) → lookup id after ≡ lookup id one_payment)
new_store-restores_example =
    new_store-restores memory_backend (λ _. some sent) tally_laws one_payment decodes one-IsMirrored
      (to_string tally_hex (trusted 1) ∷ []) one-IsListed (λ fuel. fuel)
