-- ===== src/Examples/Fixtures.antt =====
-- A key-value store, a hex crate and amounts for which the laws hold.
use orange_sdk.Prelude.{
  ℕ, suc, ◌+◌, ◌-◌, ◌*◌, ◌/◌, ◌≡◌, ◌≢◌, ◌<◌, refl, arith, Bool, true, ◌&&◌, Option, none, some,
  List, [], ◌∷◌, Text, text_beq, text_beq_iff, if◌then◌else◌, length, All, min, ltb, Bool-cases,
  inl, inr, ◌↔◌, leb,
}
use orange_sdk.Platform.{
  StoreKey, Write, ReadResult, found, not_found, KvStore, KvStoreLaws, Hex, HexLaws, AmountApi,
  AmountLaws,
}
use orange_sdk.Store.World.{Backend, Store}
use orange_sdk.Store.Wrote.{Reliable}

unfoldable pub key_beq : StoreKey → StoreKey → Bool
key_beq a b =
    text_beq a.primary b.primary && (text_beq a.secondary b.secondary && text_beq a.key b.key)

pub key_beq_iff : (a b : StoreKey) → (key_beq a b ≡ true) ↔ (a ≡ b)
unfolding key_beq
key_beq_iff a b = ground (
  arith,
  text_beq_iff a.primary b.primary,
  text_beq_iff a.secondary b.secondary,
  text_beq_iff a.key b.key,
)

-- The newest write of the key.
unfoldable pub find_write : List Write → StoreKey → ReadResult
unfolding key_beq
find_write [] k = not_found
find_write (w ∷ h) k = if key_beq w.key k then found w.buf else find_write h k

abbrev pub memory_kv : KvStore
memory_kv = record { write_ok = λ _. true; read = find_write }

pub memory_laws : KvStoreLaws memory_kv
unfolding find_write
memory_laws = record {
  read-write_self = λ w h _. rw ((key_beq_iff w.key w.key).1 refl);
  read-write_ne = λ w h k _ ne. elim (Bool-cases (key_beq w.key k)) [
    | inl same ↦ absurd (ne ((key_beq_iff w.key k).0 same))
    | inr other ↦ rw other
  ];
}

-- A number in tally marks, one more than the number.
abbrev pub tally : ℕ → Text
tally ℕ.zero = b'a' ∷ []
tally (suc n) = b'a' ∷ tally n

abbrev pub untally : Text → Option ℕ
untally [] = none
untally (b ∷ s) = some (length s)

abbrev pub tally_hex : Hex
tally_hex = record { as_hex = tally; from_hex = untally }

length-tally : (n : ℕ) → length (tally n) ≡ n + 1
length-tally ℕ.zero = omega arith
length-tally (suc n) = omega (arith, length-tally n)

pub untally-tally : (n : ℕ) → untally (tally n) ≡ some n
untally-tally ℕ.zero = refl
untally-tally (suc n) = ground (arith, length-tally n)

tally-ne-nil : (n : ℕ) → tally n ≢ []
tally-ne-nil ℕ.zero = λ e. cc
tally-ne-nil (suc n) = λ e. cc

tally_ascii : (n : ℕ) → All (λ b. b < 128) (tally n)
tally_ascii ℕ.zero = (omega arith, tt)
tally_ascii (suc n) = (omega arith, tally_ascii n)

pub tally_laws : HexLaws tally_hex
tally_laws = record {
  from_hex-as_hex = untally-tally;
  as_hex-ne-nil = tally-ne-nil;
  as_hex_ascii = tally_ascii;
}

-- Millisatoshis of 21 million bitcoin.
abbrev pub msat_api : AmountApi
msat_api = record {
  max_amount = 2_100_000_000_000_000_000;
  saturating_add = λ a b. min (a + b) 2_100_000_000_000_000_000;
  saturating_sub = λ a b. a - b;
  from_sats = λ a. if leb a 2_100_000_000_000_000 then some (a * 1000) else none;
  from_milli_sats = λ a. if leb a 2_100_000_000_000_000_000 then some a else none;
  sats_rounding_up = λ a. (a + 999) / 1000;
}

pub msat_laws : AmountLaws msat_api
msat_laws = record {
  saturating_add_lem = λ a b. refl;
  saturating_sub_lem = λ a b. refl;
  from_milli_sats_lem = λ a h. ground arith;
}

abbrev pub memory_backend : Backend
memory_backend = record {
  kv = memory_kv;
  hex = tally_hex;
  encode_metadata = λ m. m.time ∷ [];
  encode_bool = λ v. if v then 1 ∷ [] else 0 ∷ [];
  decode_bool = λ bytes. elim bytes [ [] ↦ none | b ∷ _ ↦ some (ltb 0 b) ];
  debug_assertions = true;
}

pub memory_reliable : Reliable memory_kv
memory_reliable h = refl

abbrev pub empty_store : Store
empty_store = record { tx_metadata = []; rebalance_enabled = none; writes = [] }
