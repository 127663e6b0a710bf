-- ===== src/Spark/Payments/Final.antt =====
-- A payment that reached a final status stays there, and a status is announced once
-- (`apply_payment_update` in orange-sdk/src/trusted_wallet/spark/spark_store.rs).
use orange_sdk.Prelude.{
  ℕ, ◌≡◌, ◌⊎◌, ◌∙◌, refl, sym, ap, Bool, true, false, Bool-cases, inl, inr, Option, some, List, ◌∷◌,
  Result, ok, arith, codes, nat_eq, nat_beq_iff, Text,
}
use orange_sdk.Prelude.Act.{return, try, >>=-eq-ok, ◌>>=◌}
use orange_sdk.Platform.{StoreKey}
use orange_sdk.Platform.Kv.{Calls, write, ok_or}
use orange_sdk.Spark.{SparkApi, SparkLaws, StorageError, serialization, Payment}
use orange_sdk.Spark.Cells.{spark_key, write_data}
use orange_sdk.Spark.Payments.{
  get_payment_by_id, decode_payment, write_payment, apply_over, apply_payment_update, is_refused,
  should_emit, stored_status,
}

module _ (api : SparkApi) (laws : SparkLaws api) where
  -- The status under which a payment is stored.
  unfoldable pub status_of : Text → Calls → Result (Option ℕ) StorageError
  unfolding get_payment_by_id stored_status
  status_of id h = stored_status (get_payment_by_id api id h).0

  apply_payment_update-lem :
      (q : Payment) (h : Calls)
      → apply_payment_update api q h ≡ (try (status_of q.id h) >>= apply_over api q) h
  unfolding apply_payment_update status_of
  apply_payment_update-lem q h = refl

  decode_written :
      (k : StoreKey) (d : List ℕ) (q : Payment) (h h' : Calls)
      → h' ≡ write k d ∷ h
      → api.kv.is_ok (write k d ∷ h) ≡ true
      → api.payment_json.from_slice d ≡ some q
      → decode_payment api (api.kv.read h' k) ≡ ok q
  unfolding decode_payment
  decode_written k d q h h' eh w s = rw (eh, laws.kv.read-write_self k d h w) (ground (arith, s))

  write_payment-ok :
      (q : Payment) (h h' : Calls)
      → write_payment api q h ≡ (ok tt, h')
      → status_of q.id h' ≡ ok (some q.status)
  unfolding write_payment status_of get_payment_by_id stored_status
  write_payment-ok q h h' e =
      (let k : StoreKey = spark_key (codes "payment") q.id in
        let (d, t, e1, e2) =
          >>=-eq-ok (try (ok_or serialization (api.payment_json.to_vec q)))
            (λ d. write_data api (codes "payment") q.id d) h e in
        let enc : api.payment_json.to_vec q ≡ some d = ground (arith, e1) in
        let w : api.kv.is_ok (write k d ∷ t) ≡ true = ground (arith, e2) in
        let eh : h' ≡ write k d ∷ t = ground (arith, e2, w) in
        ap stored_status
          (decode_written k d q t h' eh w (laws.payment_json.from_slice-to_vec q d enc)))

  -- An update over a known status: it is refused, or its payment is what is stored.
  apply_over-ok :
      (q : Payment) (o : Option ℕ) (h h' : Calls) (b : Bool)
      → apply_over api q o h ≡ (ok b, h')
      → ((is_refused api o q.status ≡ true) × (b ≡ false) × (h' ≡ h))
        ⊎ ((is_refused api o q.status ≡ false)
            × (b ≡ should_emit o q.status)
            × (status_of q.id h' ≡ ok (some q.status)))
  unfolding apply_over
  apply_over-ok q o h h' b e = elim (Bool-cases (is_refused api o q.status)) [
    | inl yes_ ↦ inl (yes_, ground (arith, rw yes_ at e), ground (arith, rw yes_ at e))
    | inr no_ ↦
        (let (a, t, e1, e2) =
            >>=-eq-ok (write_payment api q) (λ _. return (should_emit o q.status)) h
              (rw no_ at e) in
          inr (no_, ground (arith, e2), write_payment-ok q h h' (rw e1 (ground (arith, e2)))))
  ]

  -- An update that returned, from the status that was stored.
  apply_payment_update-ok :
      (q : Payment) (h h' : Calls) (b : Bool)
      → apply_payment_update api q h ≡ (ok b, h')
      → (o : Option ℕ) × (status_of q.id h ≡ ok o) × (apply_over api q o h ≡ (ok b, h'))
  apply_payment_update-ok q h h' b e =
      (let (o, t, e1, e2) =
          >>=-eq-ok (try (status_of q.id h)) (apply_over api q) h
            (sym (apply_payment_update-lem q h) ∙ e) in
        (o, ground (arith, e1), rw (ap (λ r. r.1) e1) e2))

  -- Where a payment was written it is read back: if a payment is stored with a final status, then
  -- an update of it that returns announces nothing and leaves it with that status.
  pub apply_payment_update-final :
      (q : Payment) (s : ℕ) (h h' : Calls) (b : Bool)
      → status_of q.id h ≡ ok (some s)
      → api.is_final s ≡ true
      → apply_payment_update api q h ≡ (ok b, h')
      → (b ≡ false) × (status_of q.id h' ≡ ok (some s))
  unfolding is_refused should_emit
  apply_payment_update-final q s h h' b st f e =
      (let (o, so, eo) = apply_payment_update-ok q h h' b e in
        let os : o ≡ some s = ground (arith, st, so) in
        elim (apply_over-ok q (some s) h h' b (rw os at eo)) [
          | inl (r, bf, hh) ↦ (bf, rw (hh, st))
          | inr (r, be, w) ↦
              (ground (arith, r, be, f), ground (arith, r, w, f, nat_beq_iff s q.status))
        ])

  -- Where a payment was written it is read back: of two updates to the same payment in turn, with
  -- the same status, that both return, the second announces nothing.
  pub apply_payment_update-once :
      (q more : Payment) (h h' h'' : Calls) (b b' : Bool)
      → more.id ≡ q.id
      → more.status ≡ q.status
      → apply_payment_update api q h ≡ (ok b, h')
      → apply_payment_update api more h' ≡ (ok b', h'')
      → b' ≡ false
  unfolding is_refused should_emit
  apply_payment_update-once q more h h' h'' b b' i v e e' =
      (let (o, so, eo) = apply_payment_update-ok q h h' b e in
        let (o', so', eo') = apply_payment_update-ok more h' h'' b' e' in
        let st : status_of q.id h' ≡ ok o' = rw (← i) so' in
        elim (apply_over-ok q o h h' b eo) [
          | inl (r, bf, hh) ↦
              (let same : o' ≡ o = ground (arith, rw hh at st, so) in
                elim (apply_over-ok more o' h' h'' b' eo') [
                  | inl (r', bf', hh') ↦ bf'
                  | inr (r', be, w) ↦ ground (arith, r, rw (v, same) at r')
                ])
          | inr (r, be, w) ↦
              (let now : o' ≡ some q.status = ground (arith, st, w) in
                elim (apply_over-ok more o' h' h'' b' eo') [
                  | inl (r', bf', hh') ↦ bf'
                  | inr (r', be', w') ↦
                      ground (arith, rw now at be', v, nat_beq_iff q.status more.status)
                ])
        ])
