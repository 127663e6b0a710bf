-- ===== src/Store/Metadata/Effects.antt =====
-- What each operation of `TxMetadataStore` on single entries does, where the writes succeed.
use orange_sdk.Prelude.{
  ℕ, ◌≡◌, refl, inl, inr, ◌⊎◌, false, Option, none, some, ◌∷◌, arith, Option-cases, Result, ok, err,
  is_some, ◌&&◌, if◌then◌else◌,
}
use orange_sdk.Store.Types.{
  PaymentId, TxMetadata, TxType, PaymentType, payment, payment_triggering_transfer_lightning,
  is_payment, trusted_to_lightning,
}
use orange_sdk.Store.World.{Backend, Store, metadata_key, lookup, persist, write_or_panic, kv_write}
use orange_sdk.Store.Wrote.{Reliable, wrote, put-persist}
use orange_sdk.Store.Metadata.{
  do_set, insert_new, promote, set_tx_caused_rebalance, promote_with_splice,
  set_tx_caused_rebalance_with_splice, preimage_update, set_updated, set_preimage,
}

-- The entry of a payment that has triggered a rebalance: the time and the payment type are kept.
abbrev pub triggering : TxMetadata → PaymentType → TxMetadata
triggering m t = record m { ty = payment_triggering_transfer_lightning t }

-- The state after both updates of `set_tx_caused_rebalance_with_splice`, then both writes.
abbrev pub spliced : Backend → PaymentId → TxMetadata → PaymentId → TxMetadata → Store → Store
spliced api id m splice sm s = wrote api splice sm (wrote api id m s)

-- An entry of the id may be inserted: it has none, or debug assertions are left out.
abbrev pub IsNew : Backend → PaymentId → Store → Type 0
IsNew api id s = (lookup id s ≡ none) ⊎ (api.debug_assertions ≡ false)

module _ (api : Backend) (reliable : Reliable api.kv) where
  -- What `do_set` does, as one update.
  pub do_set_lem :
      (id : PaymentId) (m : TxMetadata) (s : Store)
      → do_set api id m s ≡ some (is_some (lookup id s), wrote api id m s)
  unfolding do_set
  do_set_lem id m s = ground (arith, put-persist api id m s, reliable (wrote api id m s).writes)

  -- The assertion of `insert` fails exactly on an id that has an entry, where assertions are made.
  pub insert_new_lem :
      (id : PaymentId) (m : TxMetadata) (s : Store)
      → insert_new api id m s ≡ (
          if is_some (lookup id s) && api.debug_assertions
          then none
          else some (tt, wrote api id m s))
  unfolding insert_new
  insert_new_lem id m s = ground (arith, do_set_lem id m s)

  pub insert_new-wrote :
      (id : PaymentId) (m : TxMetadata) (s : Store)
      → IsNew api id s
      → insert_new api id m s ≡ some (tt, wrote api id m s)
  insert_new-wrote id m s (inl fresh) = ground (arith, insert_new_lem id m s, fresh)
  insert_new-wrote id m s (inr release) = ground (arith, insert_new_lem id m s, release)

  promote_lem :
      (id : PaymentId) (m : TxMetadata) (ty : TxType) (s : Store)
      → ((t : PaymentType) × (ty ≡ payment t)
          × (promote api id m ty s ≡ some (ok tt, wrote api id (triggering m t) s)))
        ⊎ ((is_payment ty ≡ false) × (promote api id m ty s ≡ some (err tt, s)))
  unfolding promote
  promote_lem id m (payment t) s = inl (
    t,
    refl,
    ground (
      arith,
      put-persist api id (triggering m t) s,
      reliable (wrote api id (triggering m t) s).writes,
    ),
  )
  promote_lem id m (trusted_to_lightning _ _ _) s = inr (refl, refl)
  promote_lem id m _ s = inr (refl, refl)

  -- A payment's entry is promoted, with its time and payment type kept; any other call is refused
  -- and changes nothing.
  pub set_tx_caused_rebalance_lem :
      (id : PaymentId) (s : Store)
      → ((m : TxMetadata) × (t : PaymentType) × (lookup id s ≡ some m)
          × (m.ty ≡ payment t)
          × (set_tx_caused_rebalance api id s ≡ some (ok tt, wrote api id (triggering m t) s)))
        ⊎ (((m : TxMetadata) → lookup id s ≡ some m → is_payment m.ty ≡ false)
            × (set_tx_caused_rebalance api id s ≡ some (err tt, s)))
  unfolding set_tx_caused_rebalance
  set_tx_caused_rebalance_lem id s = elim (Option-cases (lookup id s)) [
    | inl e ↦ inr (λ m h. cc, rw (e, set_tx_caused_rebalance))
    | inr (m, e) ↦ elim (promote_lem id m m.ty s) [
      | inl (t, is, done) ↦ inl (m, t, e, is, rw (e, set_tx_caused_rebalance) done)
      | inr (isnt, refused) ↦ inr (λ m' h. ground arith, rw (e, set_tx_caused_rebalance) refused)
    ]
  ]

  persist_lem :
      (id : PaymentId) (m : TxMetadata) (s : Store)
      → persist api id m s
        ≡ some (
          tt,
          record s {
            writes = record { key = metadata_key api id; buf = api.encode_metadata m } ∷ s.writes;
          },
        )
  unfolding persist write_or_panic kv_write
  persist_lem id m s = rw (reliable _)

  promote_with_splice_lem :
      (id : PaymentId) (m : TxMetadata) (splice : PaymentId) (sm : TxMetadata) (ty : TxType)
      (s : Store)
      → ((t : PaymentType) × (ty ≡ payment t)
          × (promote_with_splice api id m splice sm ty s
              ≡ some (ok tt, spliced api id (triggering m t) splice sm s)))
        ⊎ ((is_payment ty ≡ false)
            × (promote_with_splice api id m splice sm ty s ≡ some (err tt, s)))
  unfolding promote_with_splice
  promote_with_splice_lem id m splice sm (payment t) s =
      let m' = triggering m t in
      inl (
        t,
        refl,
        ground (
          arith,
          persist_lem id m' (record (wrote api id m' s) {
            tx_metadata = (spliced api id m' splice sm s).tx_metadata;
            writes = s.writes;
          }),
          persist_lem splice sm
              (record (spliced api id m' splice sm s) { writes = (wrote api id m' s).writes }),
        ),
      )
  promote_with_splice_lem id m splice sm (trusted_to_lightning _ _ _) s = inr (refl, refl)
  promote_with_splice_lem id m splice sm _ s = inr (refl, refl)

  -- Where no write fails: a trigger that is a plain payment is promoted and the splice entry
  -- stored, in memory and on disk, and the result is `Ok`; any other trigger, or none, is an error
  -- that changes nothing.
  pub set_tx_caused_rebalance_with_splice_lem :
      (id splice : PaymentId) (sm : TxMetadata) (s : Store)
      → ((m : TxMetadata) × (t : PaymentType) × (lookup id s ≡ some m)
          × (m.ty ≡ payment t)
          × (set_tx_caused_rebalance_with_splice api id splice sm s
              ≡ some (ok tt, spliced api id (triggering m t) splice sm s)))
        ⊎ (((m : TxMetadata) → lookup id s ≡ some m → is_payment m.ty ≡ false)
            × (set_tx_caused_rebalance_with_splice api id splice sm s ≡ some (err tt, s)))
  unfolding set_tx_caused_rebalance_with_splice
  set_tx_caused_rebalance_with_splice_lem id splice sm s = elim (Option-cases (lookup id s)) [
    | inl e ↦ inr (λ m h. cc, rw (e, set_tx_caused_rebalance_with_splice))
    | inr (m, e) ↦ elim (promote_with_splice_lem id m splice sm m.ty s) [
      | inl (t, is, done) ↦ inl (m, t, e, is, rw (e, set_tx_caused_rebalance_with_splice) done)
      | inr (isnt, refused) ↦
          inr (λ m' h. ground arith, rw (e, set_tx_caused_rebalance_with_splice) refused)
    ]
  ]

  set_updated_lem :
      (id : PaymentId) (m : TxMetadata) (u : Result (Option TxType) (Unit {0})) (s : Store)
      → ((ty : TxType) × (u ≡ ok (some ty))
          × (set_updated api id m u s ≡ some (ok tt, wrote api id (record m { ty = ty }) s)))
        ⊎ ((u ≡ ok none) × (set_updated api id m u s ≡ some (ok tt, s)))
        ⊎ ((u ≡ err tt) × (set_updated api id m u s ≡ some (err tt, s)))
  unfolding set_updated
  set_updated_lem id m (ok (some ty)) s = inl (
    ty,
    refl,
    ground (
      arith,
      put-persist api id (record m { ty = ty }) s,
      reliable (wrote api id (record m { ty = ty }) s).writes,
    ),
  )
  set_updated_lem id m (ok none) s = inr (inl (refl, refl))
  set_updated_lem id m (err tt) s = inr (inr (refl, refl))

  pub set_preimage_lem :
      (id : PaymentId) (p : ℕ) (s : Store)
      → ((m : TxMetadata) × (ty : TxType) × (lookup id s ≡ some m)
          × (preimage_update m.ty p ≡ ok (some ty))
          × (set_preimage api id p s ≡ some (ok tt, wrote api id (record m { ty = ty }) s)))
        ⊎ ((m : TxMetadata) × (lookup id s ≡ some m)
            × (preimage_update m.ty p ≡ ok none)
            × (set_preimage api id p s ≡ some (ok tt, s)))
        ⊎ (set_preimage api id p s ≡ some (err tt, s))
  unfolding set_preimage
  set_preimage_lem id p s = elim (Option-cases (lookup id s)) [
    | inl e ↦ inr (inr (rw (e, set_preimage)))
    | inr (m, e) ↦ elim (set_updated_lem id m (preimage_update m.ty p) s) [
      | inl (ty, is, done) ↦ inl (m, ty, e, is, rw (e, set_preimage) done)
      | inr (inl (is, done)) ↦ inr (inl (m, e, is, rw (e, set_preimage) done))
      | inr (inr (is, done)) ↦ inr (inr (rw (e, set_preimage) done))
    ]
  ]
