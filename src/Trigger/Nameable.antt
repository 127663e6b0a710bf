-- ===== src/Trigger/Nameable.antt =====
-- What the trigger has seen of the trusted payments can be named as the cause of a rebalance.
use orange_sdk.Prelude.{
  ℕ, ◌≡◌, refl, inl, inr, arith, Option, none, some, true, Bool-cases, List, [], ◌∷◌, ◌++◌, All,
  All-append, ◌&&◌, ◌∙◌, ap,
}
use orange_sdk.Prelude.Run.{Returns, Returns-of_eq, Returns->>=}
use orange_sdk.Prelude.Assoc.{get-insert_self, get-insert_ne}
use orange_sdk.Store.Types.{
  TxMetadata, TxType, PaymentType, payment, is_payment, is_completed, trusted, PaymentId, id_eq,
  incoming_lightning,
}
use orange_sdk.Store.World.{Backend, Store, lookup}
use orange_sdk.Store.Wrote.{Reliable, wrote}
use orange_sdk.Store.Metadata.Effects.{insert_new-wrote}
use orange_sdk.Trigger.{
  Payment, Seen, see_known, is_later, see_received, received_metadata, see_payment, see_payments,
}

-- The entry of the trusted payment is that of a plain payment.
pub record HasPayment (id : ℕ) (s : Store) : Type 0 where
  pub entry : TxMetadata
  pub kind : PaymentType
  pub found : lookup (trusted id) s ≡ some entry
  pub is_plain : entry.ty ≡ payment kind

abbrev pub LatestHas : Store → Option (ℕ × ℕ) → Type 0
LatestHas s none = Unit
LatestHas s (some (time, id)) = HasPayment id s

-- All that has been seen can be named.
pub record IsNameable (seen : Seen) (s : Store) : Type 0 where
  pub new_have : All (λ (x : ℕ × ℕ). HasPayment x.1 s) seen.new_txn
  pub latest_has : LatestHas s seen.latest_tx

payment_kind : (ty : TxType) → is_payment ty ≡ true → (t : PaymentType) × (ty ≡ payment t)
payment_kind (payment t) h = (t, refl)
payment_kind (TxType.trusted_to_lightning _ _ _) h = cc
payment_kind _ h = cc

All-map {ℓ} :
    {A : Type ℓ} (P Q : A → Type 0) (xs : List A) → ((x : A) → P x → Q x) → All P xs → All Q xs
All-map P Q [] f h = tt
All-map P Q (x ∷ xs) f h = (f x h.0, All-map P Q xs f h.1)

module _ (api : Backend) where
  -- A new entry leaves those that are there.
  HasPayment-wrote :
      (id j : ℕ) (m : TxMetadata) (s : Store)
      → lookup (trusted j) s ≡ none
      → HasPayment id s
      → HasPayment id (wrote api (trusted j) m s)
  HasPayment-wrote id j m s e h = record {
    entry = h.entry;
    kind = h.kind;
    found =
        get-insert_ne (trusted j) (trusted id) m s.tx_metadata
          (λ same. cc (h.found, e, ap (λ (k : PaymentId). lookup k s) same))
        ∙ h.found;
    is_plain = h.is_plain;
  }

  IsNameable-wrote :
      (j : ℕ) (m : TxMetadata) (seen : Seen) (s : Store)
      → lookup (trusted j) s ≡ none
      → IsNameable seen s
      → IsNameable seen (wrote api (trusted j) m s)
  IsNameable-wrote j m seen s e h = record {
    new_have =
        All-map (λ x. HasPayment x.1 s) (λ x. HasPayment x.1 (wrote api (trusted j) m s))
          seen.new_txn (λ x. HasPayment-wrote x.1 j m s e) h.new_have;
    latest_has = latest seen.latest_tx h.latest_has;
  }
    where
      latest : (o : Option (ℕ × ℕ)) → LatestHas s o → LatestHas (wrote api (trusted j) m s) o
      latest none h = tt
      latest (some (time, id)) h = HasPayment-wrote id j m s e h

  see_known-IsNameable :
      (p : Payment) (m : TxMetadata) (seen : Seen) (s : Store)
      → lookup (trusted p.id) s ≡ some m
      → IsNameable seen s
      → IsNameable (see_known p m seen) s
  unfolding see_known
  see_known-IsNameable p m seen s e h =
      elim (Bool-cases (is_payment m.ty && is_later m.time seen.latest_tx)) [
        | inl new ↦
            let (t, is) = payment_kind m.ty (ground arith) in
            rw new (record {
              new_have = h.new_have;
              latest_has = record { entry = m; kind = t; found = e; is_plain = is };
            })
        | inr old ↦ rw old h
      ]

  module _ (reliable : Reliable api.kv) where
    abbrev Nameable : Seen → Store → Type 0
    Nameable seen s = IsNameable seen s

    see_received-IsNameable :
        (p : Payment) (seen : Seen) (o : Option TxMetadata) (s : Store)
        → lookup (trusted p.id) s ≡ o
        → IsNameable seen s
        → Returns Nameable (see_received api p seen o s)
    unfolding see_received
    see_received-IsNameable p seen (some m) s e h = see_known-IsNameable p m seen s e h
    see_received-IsNameable p seen none s e h =
        let m = received_metadata p in
        let t = IsNameable-wrote p.id m seen s e h in
        Returns-of_eq Nameable {a = record seen { new_txn = seen.new_txn ++ (p.amount, p.id) ∷ [] }}
          {s = wrote api (trusted p.id) m s}
          (ground (arith, insert_new-wrote api reliable (trusted p.id) m s (inl e)))
          (record {
            new_have =
                All-append (λ (x : ℕ × ℕ). HasPayment x.1 (wrote api (trusted p.id) m s))
                  seen.new_txn ((p.amount, p.id) ∷ []) t.new_have
                  (
                    record {
                      entry = m;
                      kind = incoming_lightning;
                      found = get-insert_self (trusted p.id) m s.tx_metadata;
                      is_plain = refl;
                    },
                    tt,
                  );
            latest_has = t.latest_has;
          })

    see_payment-IsNameable :
        (p : Payment) (seen : Seen) (s : Store)
        → IsNameable seen s
        → Returns Nameable (see_payment api p seen s)
    unfolding see_payment
    see_payment-IsNameable p seen s h = elim (Bool-cases p.outbound) [
      | inl out ↦ rw out h
      | inr inbound ↦ elim (Bool-cases (is_completed p.status)) [
        | inl done ↦
            rw (inbound, done) (see_received-IsNameable p seen (lookup (trusted p.id) s) s refl h)
        | inr open_yet ↦ rw (inbound, open_yet) h
      ]
    ]

    pub see_payments-IsNameable :
        (ps : List Payment) (seen : Seen) (s : Store)
        → IsNameable seen s
        → Returns Nameable (see_payments api ps seen s)
    unfolding see_payments
    see_payments-IsNameable [] seen s h = h
    see_payments-IsNameable (p ∷ ps) seen s h =
        Returns->>= Nameable Nameable (see_payment api p seen) (see_payments api ps) s
          (see_payment-IsNameable p seen s h)
          (λ seen' s' h'. see_payments-IsNameable ps seen' s' h')
