-- ===== src/Store/Mpp/Writes.antt =====
-- A report of a leg returns, and writes one entry or none (`record_mpp_leg` in
-- orange-sdk/src/store.rs).
use orange_sdk.Prelude.{
  ℕ, ◌≡◌, refl, inl, inr, ◌⊎◌, Bool, true, false, Option, none, some, arith, Bool-cases,
  Option-cases, ◌==◌,
}
use orange_sdk.Prelude.Run.{Returns, Returns-of_eq}
use orange_sdk.Store.Types.{
  PaymentId, TxMetadata, TxType, mpp_payment, MppPayment, MppOutcome, id_eq,
}
use orange_sdk.Store.World.{Backend, Store, lookup}
use orange_sdk.Store.Wrote.{wrote, Reliable}
use orange_sdk.Store.Mpp.{
  apply_leg, settle, settle_fees, tag_outcome, record_on, record_surface, record_mpp_leg,
}
use orange_sdk.Store.Mpp.Once.{store_settled_lem}

module _ (api : Backend) where
  -- What a call that returned did to the entries.
  abbrev pub Writes : Store → Option (PaymentId × MppOutcome) → Store → Type 0
  Writes s _ s' = (s' ≡ s) ⊎ ((id : PaymentId) × (m : TxMetadata) × (s' ≡ wrote api id m s))

  settle_fees-some :
      (p : MppPayment) (a b : Option ℕ) (x : ℕ)
      → (out : Option MppOutcome) × (q : MppPayment) × (settle_fees p a b (some x) ≡ some (out, q))
  unfolding settle_fees
  settle_fees-some p (some a) (some b) x = (_, _, refl)
  settle_fees-some p (some a) none x = (_, _, refl)
  settle_fees-some p none b x = (_, _, refl)

  settles_known :
      (p : MppPayment) (x : ℕ)
      → p.preimage ≡ some x
      → (out : Option MppOutcome) × (q : MppPayment) × (settle p ≡ some (out, q))
  unfolding settle
  settles_known p x e = elim (Bool-cases p.failed) [
    | inl f ↦ (some (MppOutcome.failed p.lightning_leg), record p { finalized = true }, rw f)
    | inr f ↦
        (let (out, q, h) = settle_fees-some p p.trusted_fee_msat p.lightning_fee_msat x in
          (out, q, ground (arith, f, e, h)))
  ]

  settles :
      (t : Bool) (success : Option (ℕ × ℕ)) (p : MppPayment)
      → (out : Option MppOutcome) × (q : MppPayment) × (settle (apply_leg t success p)
          ≡ some (out, q))
  unfolding settle apply_leg
  settles t none p = (some (MppOutcome.failed p.lightning_leg), _, refl)
  settles true (some (fee, x)) p = settles_known (apply_leg true (some (fee, x)) p) x refl
  settles false (some (fee, x)) p = settles_known (apply_leg false (some (fee, x)) p) x refl

  -- The leg's own entry and the shared one decide whether anything is written.
  record_on-Writes :
      (reliable : Reliable api.kv) (id : PaymentId) (t : Bool) (success : Option (ℕ × ℕ))
      (m : TxMetadata) (ty : TxType) (s : Store)
      → Returns (Writes s) (record_on api id t success m ty s)
  unfolding record_on
  record_on-Writes reliable id t success m (mpp_payment p) s =
      (let (out, q, e) = settles t success p in
        elim (Bool-cases p.finalized) [
          | inl done ↦ Returns-of_eq (Writes s) {a = none} {s = s} (ground (arith, done)) (inl refl)
          | inr open_yet ↦
              let settled = record m { ty = mpp_payment q } in
              Returns-of_eq (Writes s) {a = tag_outcome id out} {s = wrote api id settled s}
                (ground (
                  arith,
                  open_yet,
                  e,
                  store_settled_lem api id m out q s,
                  reliable (wrote api id settled s).writes,
                ))
                (inr (id, settled, refl))
        ])
  record_on-Writes reliable id t success m (TxType.trusted_to_lightning _ _ _) s = inl refl
  record_on-Writes reliable id t success m _ s = inl refl

  record_surface-Writes :
      (reliable : Reliable api.kv) (leg : PaymentId) (success : Option (ℕ × ℕ))
      (sid : Option PaymentId) (s : Store)
      → Returns (Writes s) (record_surface api leg success sid s)
  unfolding record_surface
  record_surface-Writes reliable leg success none s = inl refl
  record_surface-Writes reliable leg success (some id) s = elim (Option-cases (lookup id s)) [
    | inl e ↦ Returns-of_eq (Writes s) {a = none} {s = s} (ground (arith, e)) (inl refl)
    | inr (m, e) ↦
        rw (e, record_surface) (record_on-Writes reliable id (leg == id) success m m.ty s)
  ]

  -- Where no write fails, a report of a leg returns, and writes one entry or none.
  pub record_mpp_leg-Writes :
      (reliable : Reliable api.kv) (leg : PaymentId) (success : Option (ℕ × ℕ)) (s : Store)
      → Returns (Writes s) (record_mpp_leg api leg success s)
  unfolding record_mpp_leg
  record_mpp_leg-Writes reliable leg success s = record_surface-Writes reliable leg success _ s
