-- ===== src/Store/Metadata.antt =====
-- The operations of `TxMetadataStore` on single entries (orange-sdk/src/store.rs). `ok` and `err`
-- are the method's own result; a failed write is a panic.
pub mod Effects
pub mod Mirror
pub mod Preimage
use orange_sdk.Prelude.{ℕ, Bool, ◌&&◌, if◌then◌else◌, Option, none, some, Result, ok, err, is_some}
use orange_sdk.Prelude.Assoc.{get, insert}
use orange_sdk.Prelude.Run.{Run, pure, panic, gets, modify, ◌>>=◌, ◌>>◌}
use orange_sdk.Store.Types.{
  PaymentId, TxMetadata, TxType, PaymentType, payment, payment_triggering_transfer_lightning,
  outgoing_lightning_bolt12, outgoing_lightning_bolt11,
}
use orange_sdk.Store.World.{Backend, Store, lookup, put, persist}

-- Whether the id had an entry before.
unfoldable pub do_set : Backend → PaymentId → TxMetadata → Run Store Bool
do_set api key value = do
  old ← gets (lookup key)
  put key value
  persist api key value
  pure (is_some old)

unfoldable pub upsert : Backend → PaymentId → TxMetadata → Run Store (Unit {0})
unfolding do_set
upsert api key value = do do_set api key value; pure tt

-- `insert` of the source, with its `debug_assert!(!had_old)`.
unfoldable pub insert_new : Backend → PaymentId → TxMetadata → Run Store (Unit {0})
unfolding do_set
insert_new api key value = do
  had_old ← do_set api key value
  if had_old && api.debug_assertions then panic else pure tt

-- The update of an entry that is a plain payment; any other entry is refused.
promote : Backend → PaymentId → TxMetadata → TxType → Run Store (Result (Unit {0}) (Unit {0}))
promote api id m (payment ty) = do
  put id (record m { ty = payment_triggering_transfer_lightning ty })
  persist api id (record m { ty = payment_triggering_transfer_lightning ty })
  pure (ok tt)
promote api id m _ = pure (err tt)

unfoldable pub set_tx_caused_rebalance :
    Backend → PaymentId → Run Store (Result (Unit {0}) (Unit {0}))
unfolding promote
set_tx_caused_rebalance api id s = elim (lookup id s) [
  | none ↦ some (err tt, s)
  | some m ↦ promote api id m m.ty s
]

-- Both entries change in memory under one lock, and are written after it.
promote_with_splice :
    Backend
    → PaymentId
    → TxMetadata
    → PaymentId
    → TxMetadata
    → TxType
    → Run Store (Result (Unit {0}) (Unit {0}))
promote_with_splice api id m splice_id splice_metadata (payment ty) = do
  put id (record m { ty = payment_triggering_transfer_lightning ty })
  put splice_id splice_metadata
  persist api id (record m { ty = payment_triggering_transfer_lightning ty })
  persist api splice_id splice_metadata
  pure (ok tt)
promote_with_splice api id m splice_id splice_metadata _ = pure (err tt)

-- The two writes run side by side in the source; they are made here in the order of their polls.
unfoldable pub set_tx_caused_rebalance_with_splice :
    Backend → PaymentId → PaymentId → TxMetadata → Run Store (Result (Unit {0}) (Unit {0}))
unfolding promote_with_splice
set_tx_caused_rebalance_with_splice api trigger_id splice_id splice_metadata s =
    elim (lookup trigger_id s) [
      | none ↦ some (err tt, s)
      | some m ↦ promote_with_splice api trigger_id m splice_id splice_metadata m.ty s
    ]

-- The arms of `set_preimage`: the type with its preimage set, `ok none` where nothing is to do.
unfoldable pub preimage_update : TxType → ℕ → Result (Option TxType) (Unit {0})
preimage_update (payment (outgoing_lightning_bolt12 none)) p =
    ok (some (payment (outgoing_lightning_bolt12 (some p))))
preimage_update (payment (outgoing_lightning_bolt12 (some _))) p = ok none
preimage_update (payment (outgoing_lightning_bolt11 none)) p =
    ok (some (payment (outgoing_lightning_bolt11 (some p))))
preimage_update (payment (outgoing_lightning_bolt11 (some _))) p = ok none
preimage_update (payment _) p = err tt
preimage_update _ p = ok none

set_updated :
    Backend
    → PaymentId
    → TxMetadata
    → Result (Option TxType) (Unit {0})
    → Run Store (Result (Unit {0}) (Unit {0}))
set_updated api id m (err e) = pure (err e)
set_updated api id m (ok none) = pure (ok tt)
set_updated api id m (ok (some ty)) = do
  put id (record m { ty = ty })
  persist api id (record m { ty = ty })
  pure (ok tt)

unfoldable pub set_preimage : Backend → PaymentId → ℕ → Run Store (Result (Unit {0}) (Unit {0}))
unfolding preimage_update set_updated
set_preimage api id preimage s = elim (lookup id s) [
  | none ↦ some (err tt, s)
  | some m ↦ set_updated api id m (preimage_update m.ty preimage) s
]
