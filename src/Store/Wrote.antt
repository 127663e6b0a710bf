-- ===== src/Store/Wrote.antt =====
-- One update of the map with its write: what the state is after it, and that memory and disk agree.
use orange_sdk.Prelude.{
  ◌≡◌, inl, inr, true, Option, none, some, List, ◌∷◌, arith, ap, ◌∙◌, Bool-cases, ◌==◌,
  if◌then◌else◌,
}
use orange_sdk.Prelude.Assoc.{insert, get-insert}
use orange_sdk.Prelude.Run.{◌>>◌}
use orange_sdk.Platform.{
  KvStore, KvStoreLaws, HexLaws, Write, StoreKey, ReadResult, found, not_found,
}
use orange_sdk.Store.Types.{PaymentId, TxMetadata, id_eq, id_beq_iff}
use orange_sdk.Store.Ids.{to_string_inj}
use orange_sdk.Store.World.{
  Backend, Store, metadata_key, put, persist, write_or_panic, kv_write, lookup,
}

-- "We do not allow writes to fail".
abbrev pub Reliable : KvStore → Type 0
Reliable kv = (h : List Write) → kv.write_ok h ≡ true

abbrev pub wrote : Backend → PaymentId → TxMetadata → Store → Store
wrote api id m s = record s {
  tx_metadata = insert id m s.tx_metadata;
  writes = record { key = metadata_key api id; buf = api.encode_metadata m } ∷ s.writes;
}

-- What is on disk of an entry of the map.
abbrev pub on_disk : Backend → Option TxMetadata → ReadResult
on_disk api none = not_found
on_disk api (some m) = found (api.encode_metadata m)

-- Memory and disk hold the same entries.
pub record IsMirrored (api : Backend) (s : Store) : Type 0 where
  pub mirrors :
      (id : PaymentId) → api.kv.read s.writes (metadata_key api id) ≡ on_disk api (lookup id s)

module _ (api : Backend) where
  -- An update that is written takes effect; one whose write fails is a panic.
  pub put-persist :
      (id : PaymentId) (m : TxMetadata) (s : Store)
      → (put id m >> persist api id m) s
        ≡ (if api.kv.write_ok (wrote api id m s).writes then some (tt, wrote api id m s) else none)
  unfolding persist write_or_panic kv_write
  put-persist id m s = ground arith

  module _ (kv_laws : KvStoreLaws api.kv) (hex_laws : HexLaws api.hex)
      (reliable : Reliable api.kv) where
    metadata_key_inj : (a b : PaymentId) → metadata_key api a ≡ metadata_key api b → a ≡ b
    metadata_key_inj a b h = to_string_inj api.hex hex_laws a b (ap (λ (k : StoreKey). k.key) h)

    pub wrote-IsMirrored :
        (id : PaymentId) (m : TxMetadata) (s : Store)
        → IsMirrored api s
        → IsMirrored api (wrote api id m s)
    wrote-IsMirrored id m s h = record {
      mirrors = λ j. elim (Bool-cases (id == j)) [
        | inl same ↦
            rw (get-insert id j m s.tx_metadata, same)
              (rw (← (id_beq_iff id j).0 same) (kv_laws.read-write_self _ s.writes (reliable _)))
        | inr other ↦
            rw (get-insert id j m s.tx_metadata, other)
              (kv_laws.read-write_ne _ s.writes _ (reliable _)
                  (λ e. cc ((id_beq_iff id j).1 (metadata_key_inj id j e)))
                ∙ h.mirrors j)
      ];
    }
