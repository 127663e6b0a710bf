-- ===== src/Store/Metadata/Preimage.antt =====
-- The preimage of a payment is set once (`TxMetadataStore::set_preimage`).
use orange_sdk.Prelude.{ℕ, ◌≡◌, inl, inr, none, some, arith, ok}
use orange_sdk.Prelude.Assoc.{get-insert_self}
use orange_sdk.Store.Types.{
  PaymentId, TxMetadata, TxType, payment, outgoing_lightning_bolt12, outgoing_lightning_bolt11,
  outgoing_on_chain, id_eq,
}
use orange_sdk.Store.World.{Backend, Store, lookup}
use orange_sdk.Store.Wrote.{Reliable, wrote}
use orange_sdk.Store.Metadata.{preimage_update, set_updated, set_preimage}
use orange_sdk.Store.Metadata.Effects.{set_preimage_lem}

update_settles :
    (ty ty' : TxType) (p q : ℕ)
    → preimage_update ty p ≡ ok (some ty')
    → preimage_update ty' q ≡ ok none
unfolding preimage_update
update_settles (payment (outgoing_lightning_bolt12 none)) ty' p q h = ground arith
update_settles (payment (outgoing_lightning_bolt11 none)) ty' p q h = ground arith
update_settles (payment (outgoing_lightning_bolt12 (some _))) ty' p q h = ground arith
update_settles (payment (outgoing_lightning_bolt11 (some _))) ty' p q h = ground arith
update_settles (payment (outgoing_on_chain _)) ty' p q h = ground arith
update_settles _ ty' p q h = ground arith

settled_stays :
    (ty : TxType) (p q : ℕ) → preimage_update ty p ≡ ok none → preimage_update ty q ≡ ok none
unfolding preimage_update
settled_stays (payment (outgoing_lightning_bolt12 none)) p q h = ground arith
settled_stays (payment (outgoing_lightning_bolt11 none)) p q h = ground arith
settled_stays (payment (outgoing_lightning_bolt12 (some _))) p q h = ground arith
settled_stays (payment (outgoing_lightning_bolt11 (some _))) p q h = ground arith
settled_stays (payment (outgoing_on_chain _)) p q h = ground arith
settled_stays _ p q h = ground arith

module _ (api : Backend) (reliable : Reliable api.kv) where
  no_update :
      (id : PaymentId) (m : TxMetadata) (q : ℕ) (s : Store)
      → lookup id s ≡ some m
      → preimage_update m.ty q ≡ ok none
      → set_preimage api id q s ≡ some (ok tt, s)
  unfolding set_preimage
  no_update id m q s e is = rw (e, set_preimage) (rw (is, set_updated))

  -- Where no write fails, the first preimage stands: after a call that returned `Ok`, a call for
  -- the same payment with any preimage returns `Ok` and changes nothing, in memory or on disk.
  pub set_preimage_once :
      (id : PaymentId) (p q : ℕ) (s s' : Store)
      → set_preimage api id p s ≡ some (ok tt, s')
      → set_preimage api id q s' ≡ some (ok tt, s')
  set_preimage_once id p q s s' h = elim (set_preimage_lem api reliable id p s) [
    | inl (m, ty, e, is, done) ↦
        let now : s' ≡ wrote api id (record m { ty = ty }) s = ground arith in
        rw now (
          no_update id (record m { ty = ty }) q _ (get-insert_self id _ s.tx_metadata)
            (update_settles m.ty ty p q is))
    | inr (inl (m, e, is, done)) ↦
        let now : s' ≡ s = ground arith in rw now (no_update id m q s e (settled_stays m.ty p q is))
    | inr (inr done) ↦ ground arith
  ]
