-- ===== src/Store/Mpp/Orders.antt =====
-- The combined outcome does not depend on which leg reports first (`record_mpp_leg`).
use orange_sdk.Prelude.{
  ℕ, ◌≡◌, refl, true, false, Option, none, some, List, [], ◌∷◌, arith, ◌==◌, Bool-cases, inl, inr,
  ◌∙◌,
}
use orange_sdk.Prelude.Run.{Returns, Returns-of_eq}
use orange_sdk.Prelude.Assoc.{get-insert, get-insert_self}
use orange_sdk.Store.Types.{
  PaymentId, TxMetadata, mpp_payment, MppPayment, MppOutcome, id_eq, id_beq_iff,
}
use orange_sdk.Store.World.{Backend, Store, lookup}
use orange_sdk.Store.Wrote.{Reliable, wrote, put-persist}
use orange_sdk.Store.Mpp.{saturating_add_u64, apply_leg, settle, tag_outcome, record_mpp_leg}
use orange_sdk.Store.Mpp.Once.{record_all, collect}

-- The entry of a payment with the fields of its multi-path payment given anew.
abbrev pub with_mpp : TxMetadata → MppPayment → TxMetadata
with_mpp m p = record m { ty = mpp_payment p }

-- `leg` is a leg of the payment surfaced under `id`, whose shared entry is `m`, with the fields
-- `p`.
pub record IsLeg (leg id : PaymentId) (m : TxMetadata) (p : MppPayment) (s : Store) : Type 0 where
  pub own : TxMetadata
  pub own_mpp : MppPayment
  pub has_own : lookup leg s ≡ some own
  pub own_ty : own.ty ≡ mpp_payment own_mpp
  pub names : own_mpp.surface_id ≡ id
  pub has_shared : lookup id s ≡ some m
  pub shared_ty : m.ty ≡ mpp_payment p

module _ (api : Backend) (reliable : Reliable api.kv) where
  -- One call on an entry that is not finalised, by what `settle` makes of it.
  pub record_mpp_leg_lem :
      (leg id : PaymentId) (m : TxMetadata) (p q : MppPayment) (s : Store)
      (success : Option (ℕ × ℕ)) (out : Option MppOutcome)
      → IsLeg leg id m p s
      → p.finalized ≡ false
      → settle (apply_leg (leg == id) success p) ≡ some (out, q)
      → record_mpp_leg api leg success s ≡ some (tag_outcome id out, wrote api id (with_mpp m q) s)
  unfolding record_mpp_leg
  record_mpp_leg_lem leg id m p q s success out l f e =
      ground (
        arith,
        put-persist api id (with_mpp m q) s,
        reliable (wrote api id (with_mpp m q) s).writes,
      )

  -- After a call for the one leg, the other leg is a leg of the updated entry.
  IsLeg-wrote :
      (leg id : PaymentId) (m : TxMetadata) (p q : MppPayment) (s : Store)
      → IsLeg leg id m p s
      → p.surface_id ≡ id
      → q.surface_id ≡ p.surface_id
      → IsLeg leg id (with_mpp m q) q (wrote api id (with_mpp m q) s)
  IsLeg-wrote leg id m p q s l sid same = elim (Bool-cases (id == leg)) [
    | inl is ↦ record {
      own = with_mpp m q;
      own_mpp = q;
      has_own = rw (get-insert id leg (with_mpp m q) s.tx_metadata, is);
      own_ty = refl;
      names = same ∙ sid;
      has_shared = get-insert_self id (with_mpp m q) s.tx_metadata;
      shared_ty = refl;
    }
    | inr isnt ↦ record {
      own = l.own;
      own_mpp = l.own_mpp;
      has_own = rw (get-insert id leg (with_mpp m q) s.tx_metadata, isnt) l.has_own;
      own_ty = l.own_ty;
      names = l.names;
      has_shared = get-insert_self id (with_mpp m q) s.tx_metadata;
      shared_ty = refl;
    }
  ]

  -- Two calls in turn.
  record_two :
      (leg₁ leg₂ id : PaymentId) (m : TxMetadata) (p q r : MppPayment) (s : Store)
      (success₁ success₂ : Option (ℕ × ℕ)) (out₁ out₂ : Option MppOutcome)
      → IsLeg leg₁ id m p s
      → IsLeg leg₂ id m p s
      → p.surface_id ≡ id
      → q.surface_id ≡ p.surface_id
      → p.finalized ≡ false
      → q.finalized ≡ false
      → settle (apply_leg (leg₁ == id) success₁ p) ≡ some (out₁, q)
      → settle (apply_leg (leg₂ == id) success₂ q) ≡ some (out₂, r)
      → Returns
          (λ out _. out ≡ collect (tag_outcome id out₁) (collect (tag_outcome id out₂) []))
          (record_all api ((leg₁, success₁) ∷ (leg₂, success₂) ∷ []) s)
  unfolding record_all
  record_two leg₁ leg₂ id m p q r s success₁ success₂ out₁ out₂ l₁ l₂ sid same f g e₁ e₂ =
      let done : List (PaymentId × MppOutcome) =
        collect (tag_outcome id out₁) (collect (tag_outcome id out₂) []) in
      let returns : record_all api ((leg₁, success₁) ∷ (leg₂, success₂) ∷ []) s
          ≡ some (done, wrote api id (with_mpp (with_mpp m q) r) (wrote api id (with_mpp m q) s)) =
        ground (
          arith,
          record_mpp_leg_lem leg₁ id m p q s success₁ out₁ l₁ f e₁,
          record_mpp_leg_lem leg₂ id (with_mpp m q) q r (wrote api id (with_mpp m q) s) success₂
              out₂ (IsLeg-wrote leg₂ id m p q s l₂ sid same) g e₂,
        ) in
      Returns-of_eq (λ out _. out ≡ done) returns refl

-- Nothing has been recorded of the payment surfaced under `id`.
pub record IsFresh (id : PaymentId) (p : MppPayment) : Type 0 where
  pub surfaced : p.surface_id ≡ id
  pub no_trusted_fee : p.trusted_fee_msat ≡ none
  pub no_lightning_fee : p.lightning_fee_msat ≡ none
  pub not_failed : p.failed ≡ false
  pub not_finalized : p.finalized ≡ false

module _ (api : Backend) (reliable : Reliable api.kv) where
  record_finalized :
      (leg id : PaymentId) (m : TxMetadata) (p : MppPayment) (s : Store) (success : Option (ℕ × ℕ))
      → IsLeg leg id m p s
      → p.finalized ≡ true
      → record_mpp_leg api leg success s ≡ some (none, s)
  unfolding record_mpp_leg
  record_finalized leg id m p s success l f = ground arith

  id_beq_refl : (id : PaymentId) → (id == id) ≡ true
  id_beq_refl id = (id_beq_iff id id).1 refl

  -- Where no write fails and both legs of a payment of which nothing was reported succeed with the
  -- same preimage, the reports yield one outcome, the payment's success with the hash, the preimage
  -- and the (saturated) sum of the two fees, and it is the same whichever leg reports first.
  pub both_legs_succeed :
      (id leg : PaymentId) (m : TxMetadata) (p : MppPayment) (s : Store) (f g preimage : ℕ)
      → IsLeg id id m p s
      → IsLeg leg id m p s
      → (leg == id) ≡ false
      → IsFresh id p
      → let done : List (PaymentId × MppOutcome) =
          (id, MppOutcome.succeeded p.lightning_leg preimage (saturating_add_u64 f g)) ∷ [] in
        Returns
          (λ out _. out ≡ done)
          (record_all api ((id, some (f, preimage)) ∷ (leg, some (g, preimage)) ∷ []) s)
        × Returns
            (λ out _. out ≡ done)
            (record_all api ((leg, some (g, preimage)) ∷ (id, some (f, preimage)) ∷ []) s)
  unfolding settle apply_leg
  both_legs_succeed id leg m p s f g preimage own other ne fresh =
      let both = record p {
        trusted_fee_msat = some f;
        lightning_fee_msat = some g;
        preimage = some preimage;
        finalized = true;
      } in
      let won : Option MppOutcome =
        some (MppOutcome.succeeded p.lightning_leg preimage (saturating_add_u64 f g)) in
      (
        record_two api reliable id leg id m p
            (record p { trusted_fee_msat = some f; preimage = some preimage }) both s
            (some (f, preimage)) (some (g, preimage)) none won own other fresh.surfaced refl
            fresh.not_finalized fresh.not_finalized (ground (arith, id_beq_refl id)) (ground arith),
        record_two api reliable leg id id m p
            (record p { lightning_fee_msat = some g; preimage = some preimage }) both s
            (some (g, preimage)) (some (f, preimage)) none won other own fresh.surfaced refl
            fresh.not_finalized fresh.not_finalized (ground arith) (ground (arith, id_beq_refl id)),
      )

  -- Where no write fails and the payment is not yet finalised, a report of a failure settles it as
  -- failed, with its hash, also where the other leg had succeeded before; and a report that comes
  -- right after it, of success or of failure, yields nothing and changes nothing.
  pub failed_leg_settles :
      (leg id : PaymentId) (m : TxMetadata) (p : MppPayment) (s : Store) (later : PaymentId)
      (success : Option (ℕ × ℕ))
      → IsLeg leg id m p s
      → IsLeg later id m p s
      → p.surface_id ≡ id
      → p.finalized ≡ false
      → Returns
          (λ r s'.
            (r ≡ some (id, MppOutcome.failed p.lightning_leg))
            × (record_mpp_leg api later success s' ≡ some (none, s')))
          (record_mpp_leg api leg none s)
  unfolding settle apply_leg
  failed_leg_settles leg id m p s later success l l' sid f =
      let q = record p { failed = true; finalized = true } in
      let lost : Option MppOutcome = some (MppOutcome.failed p.lightning_leg) in
      Returns-of_eq
        (λ r s'.
          (r ≡ some (id, MppOutcome.failed p.lightning_leg))
          × (record_mpp_leg api later success s' ≡ some (none, s')))
        (record_mpp_leg_lem api reliable leg id m p q s none lost l f refl)
        (
          refl,
          record_finalized later id (with_mpp m q) q (wrote api id (with_mpp m q) s) success
              (IsLeg-wrote api reliable later id m p q s l' sid refl) refl,
        )
