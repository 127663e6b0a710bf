-- ===== src/Store/Mpp/Once.antt =====
-- The combined outcome of a multi-path payment is produced at most once (`record_mpp_leg`).
use orange_sdk.Prelude.{
  ℕ, ◌+◌, ◌≤◌, ◌≡◌, refl, inl, inr, ◌⊎◌, Bool, true, false, Option, none, some, List, [], ◌∷◌,
  arith, Bool-cases, Option-cases, ◌==◌, if◌then◌else◌,
}
use orange_sdk.Prelude.Run.{Run, pure, >>=-eq-some, ◌>>=◌}
use orange_sdk.Prelude.Assoc.{get-insert}
use orange_sdk.Store.Types.{
  PaymentId, TxMetadata, TxType, mpp_payment, MppPayment, MppOutcome, id_eq, id_beq_iff,
}
use orange_sdk.Store.World.{Backend, Store, lookup}
use orange_sdk.Store.Wrote.{wrote, put-persist}
use orange_sdk.Store.Mpp.{
  apply_leg, settle, tag_outcome, store_settled, record_on, record_surface, record_mpp_leg,
}

-- Whether the combined event of a payment has been produced.
abbrev pub ty_finalized : TxType → Bool
ty_finalized (mpp_payment p) = p.finalized
ty_finalized _ = false

abbrev pub entry_finalized : Option TxMetadata → Bool
entry_finalized none = false
entry_finalized (some m) = ty_finalized m.ty

pub is_finalized : PaymentId → Store → Bool
is_finalized id s = entry_finalized (lookup id s)

settle_finalizes :
    (p q : MppPayment) (o : MppOutcome) → settle p ≡ some (some o, q) → q.finalized ≡ true
unfolding settle
settle_finalizes p q o h = ground arith

-- A call that changes the state wrote one entry, that of an unfinalised payment, which is
-- finalised if the call has an outcome; the outcome carries that payment's id.
pub Recorded : Backend → Store → Option (PaymentId × MppOutcome) → Store → Type 0
Recorded api s r s' =
    ((r ≡ none) × (s' ≡ s))
    ⊎ ((id : PaymentId) × (m : TxMetadata) × (s' ≡ wrote api id m s)
        × (is_finalized id s ≡ false)
        × ((r ≡ none) ⊎ ((o : MppOutcome) × (r ≡ some (id, o)) × (ty_finalized m.ty ≡ true))))

module _ (api : Backend) where
  pub store_settled_lem :
      (id : PaymentId) (m : TxMetadata) (out : Option MppOutcome) (q : MppPayment) (s : Store)
      → store_settled api id m (some (out, q)) s ≡ (
          if api.kv.write_ok (wrote api id (record m { ty = mpp_payment q }) s).writes
          then some (tag_outcome id out, wrote api id (record m { ty = mpp_payment q }) s)
          else none)
  unfolding store_settled
  store_settled_lem id m out q s =
      ground (arith, put-persist api id (record m { ty = mpp_payment q }) s)

  store_settled-Recorded :
      (id : PaymentId) (m : TxMetadata) (o : Option (Option MppOutcome × MppPayment)) (s s' : Store)
      (r : Option (PaymentId × MppOutcome))
      → ((out : MppOutcome) (q : MppPayment) → o ≡ some (some out, q) → q.finalized ≡ true)
      → is_finalized id s ≡ false
      → store_settled api id m o s ≡ some (r, s')
      → Recorded api s r s'
  unfolding Recorded
  store_settled-Recorded id m none s s' r f u h = unfold store_settled in cc
  store_settled-Recorded id m (some (none, q)) s s' r f u h = inr (
    id,
    record m { ty = mpp_payment q },
    ground (arith, store_settled_lem id m none q s),
    u,
    inl (ground (arith, store_settled_lem id m none q s)),
  )
  store_settled-Recorded id m (some (some out, q)) s s' r f u h = inr (
    id,
    record m { ty = mpp_payment q },
    ground (arith, store_settled_lem id m (some out) q s),
    u,
    inr (out, ground (arith, store_settled_lem id m (some out) q s), f out q refl),
  )

  record_on-Recorded :
      (id : PaymentId) (t : Bool) (success : Option (ℕ × ℕ)) (m : TxMetadata) (ty : TxType)
      (s s' : Store) (r : Option (PaymentId × MppOutcome))
      → lookup id s ≡ some m
      → m.ty ≡ ty
      → record_on api id t success m ty s ≡ some (r, s')
      → Recorded api s r s'
  unfolding record_on Recorded is_finalized
  record_on-Recorded id t success m (mpp_payment p) s s' r e e' h = elim (Bool-cases p.finalized) [
    | inl done ↦ inl (ground arith, ground arith)
    | inr open_yet ↦
        store_settled-Recorded id m (settle (apply_leg t success p)) s s' r
          (λ out q e''. settle_finalizes _ q out e'') (ground arith) (ground arith)
  ]
  record_on-Recorded id t success m (TxType.trusted_to_lightning _ _ _) s s' r e e' h = inl (cc, cc)
  record_on-Recorded id t success m _ s s' r e e' h = inl (cc, cc)

  record_surface-Recorded :
      (leg : PaymentId) (success : Option (ℕ × ℕ)) (sid : Option PaymentId) (s s' : Store)
      (r : Option (PaymentId × MppOutcome))
      → record_surface api leg success sid s ≡ some (r, s')
      → Recorded api s r s'
  unfolding record_surface Recorded
  record_surface-Recorded leg success none s s' r h = inl (cc, cc)
  record_surface-Recorded leg success (some id) s s' r h = elim (Option-cases (lookup id s)) [
    | inl e ↦ inl (ground arith, ground arith)
    | inr (m, e) ↦
        record_on-Recorded id (leg == id) success m m.ty s s' r e refl (rw (e, record_surface) at h)
  ]

  pub record_mpp_leg-Recorded :
      (leg : PaymentId) (success : Option (ℕ × ℕ)) (s s' : Store)
      (r : Option (PaymentId × MppOutcome))
      → record_mpp_leg api leg success s ≡ some (r, s')
      → Recorded api s r s'
  unfolding record_mpp_leg
  record_mpp_leg-Recorded leg success s s' r h = record_surface-Recorded leg success _ s s' r h

-- A sequence of calls, and the outcomes that they returned.
abbrev pub collect :
    Option (PaymentId × MppOutcome) → List (PaymentId × MppOutcome) → List (PaymentId × MppOutcome)
collect none rest = rest
collect (some o) rest = o ∷ rest

unfoldable pub record_all :
    Backend → List (PaymentId × Option (ℕ × ℕ)) → Run Store (List (PaymentId × MppOutcome))
record_all api [] = pure []
record_all api ((leg, success) ∷ calls) = do
  r ← record_mpp_leg api leg success
  rest ← record_all api calls
  pure (collect r rest)

-- How many outcomes of the list are of the payment.
abbrev pub count_outcomes : PaymentId → List (PaymentId × MppOutcome) → ℕ
count_outcomes id [] = 0
count_outcomes id ((j, o) ∷ rest) = (if j == id then 1 else 0) + count_outcomes id rest

-- One if the combined event has been produced, zero if it is to come.
abbrev pub produced : PaymentId → Store → ℕ
produced id s = if is_finalized id s then 1 else 0

module _ (api : Backend) where
  lookup-wrote :
      (id j : PaymentId) (m : TxMetadata) (s : Store)
      → lookup j (wrote api id m s) ≡ (if id == j then some m else lookup j s)
  lookup-wrote id j m s = get-insert id j m s.tx_metadata

  -- One call: what it produces is counted once, and is never undone.
  produced-step :
      (id : PaymentId) (r : Option (PaymentId × MppOutcome)) (s s' : Store)
      → Recorded api s r s'
      → count_outcomes id (collect r []) + produced id s ≤ produced id s'
  unfolding Recorded is_finalized
  produced-step id r s s' (inl (e, same)) = rw (e, same) (omega arith)
  produced-step id r s s' (inr (j, m, now, yet, inl e)) =
      rw (e, now) (ground (arith, lookup-wrote j id m s, id_beq_iff j id))
  produced-step id r s s' (inr (j, m, now, yet, inr (o, e, fin))) =
      rw (e, now) (ground (arith, lookup-wrote j id m s, id_beq_iff j id))

  count-collect :
      (id : PaymentId) (r : Option (PaymentId × MppOutcome)) (rest : List (PaymentId × MppOutcome))
      → count_outcomes id (collect r rest)
        ≡ count_outcomes id (collect r []) + count_outcomes id rest
  count-collect id none rest = omega arith
  count-collect id (some (j, o)) rest = omega arith

  produced-all :
      (id : PaymentId) (calls : List (PaymentId × Option (ℕ × ℕ))) (s s' : Store)
      (out : List (PaymentId × MppOutcome))
      → record_all api calls s ≡ some (out, s')
      → count_outcomes id out + produced id s ≤ produced id s'
  unfolding record_all
  produced-all id [] s s' out h = ground arith
  produced-all id ((leg, success) ∷ calls) s s' out h =
      let (r, t, e, k) = >>=-eq-some (record_mpp_leg api leg success) _ s h in
      let (rest, t', e', k') = >>=-eq-some (record_all api calls) _ t k in
      let now : out ≡ collect r rest = ground arith in
      let stays : s' ≡ t' = ground arith in
      rw (now, stays)
        (omega (
          arith,
          count-collect id r rest,
          produced-step id r s t (record_mpp_leg-Recorded api leg success s t r e),
          produced-all id calls t t' rest e',
        ))

  produced-le : (id : PaymentId) (s : Store) → produced id s ≤ 1
  produced-le id s = ground arith

  -- However the legs of the payments report, in any order and as often as they like, each payment
  -- has at most one combined outcome, and none at all if its entry was finalised before.
  pub record_all-once :
      (id : PaymentId) (calls : List (PaymentId × Option (ℕ × ℕ))) (s s' : Store)
      (out : List (PaymentId × MppOutcome))
      → record_all api calls s ≡ some (out, s')
      → (count_outcomes id out ≤ 1) × (is_finalized id s ≡ true → count_outcomes id out ≡ 0)
  record_all-once id calls s s' out h =
      let all = produced-all id calls s s' out h in
      (omega (arith, all, produced-le id s'), λ fin. ground (arith, all, produced-le id s'))
