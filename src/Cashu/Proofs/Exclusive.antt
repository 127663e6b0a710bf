-- ===== src/Cashu/Proofs/Exclusive.antt =====
-- A proof that one operation reserved cannot be reserved by another (`reserve_proofs` in
-- orange-sdk/src/trusted_wallet/cashu/cashu_store.rs).
use orange_sdk.Prelude.{
  ℕ, ◌≡◌, ◌≢◌, refl, ap, sym, subst, Bool, true, false, ◌&&◌, ◌||◌, Bool-cases, Option-cases, inl,
  inr, none, some, List, [], ◌∷◌, Result, ok, err, arith, ◌==◌, nat_eq, nat_beq_iff,
}
use orange_sdk.Prelude.Act.{
  Ends, Ends-Reads, Ends-if, ◌>>=◌, >>=-eq-ok, map_err, return, throw, asks,
}
use orange_sdk.Cashu.{
  CashuApi, CashuLaws, CashuKvDatabase, CdkError, ProofInfo, into_cdk, proof_not_unspent,
}
use orange_sdk.Cashu.Proofs.{
  contains, commit_proofs, reload_uncertain_proofs, set_committed, persist_proofs,
}
use orange_sdk.Cashu.Proofs.Updates.{
  reserve_one, reserve_if, reserve_each, reserve_committed, reserve_proofs, hash_set, is_stale,
}
use orange_sdk.Cashu.Proofs.Committed.{reload-clean}
use orange_sdk.Cashu.Proofs.Operations.{reserve_if-Reads, reserve_each-Reads}

abbrev pub is_err : {A E : Type 0} → Result A E → Bool
is_err (ok a) = false
is_err (err e) = true

-- Whether a proof with the `y` stands among the proofs, and is reserved for the operation.
unfoldable pub is_owned_by : ℕ → ℕ → List ProofInfo → Bool
is_owned_by y op [] = false
is_owned_by y op (p ∷ ps) =
    p.y == y && (elim p.used_by_operation [ none ↦ false | some o ↦ o == op ])
    || is_owned_by y op ps

unfoldable pub stands : ℕ → List ProofInfo → Bool
stands y [] = false
stands y (p ∷ ps) = p.y == y || stands y ps

contains-hash_set : (y : ℕ) (ys : List ℕ) → contains y (hash_set ys) ≡ contains y ys
unfolding contains hash_set
contains-hash_set y [] = refl
contains-hash_set y (z ∷ ys) =
    ground (arith, contains-hash_set y ys, contains-hash_set z ys, nat_beq_iff z y)

contains_nil : (y : ℕ) → contains y [] ≡ true → ⊥
unfolding contains
contains_nil y c = ground (arith, c)

module _ (api : CashuApi) (laws : CashuLaws api) where
  -- The turn of a proof that another operation owns.
  reserve_if-owned :
      (y op other : ℕ) (ys : List ℕ) (p : ProofInfo) (db : CashuKvDatabase)
      → (p.y == y && (elim p.used_by_operation [ none ↦ false | some o ↦ o == other ])) ≡ true
      → contains y ys ≡ true
      → other ≢ op
      → is_err (reserve_if api (contains p.y ys) op p db).0 ≡ true
  unfolding reserve_if reserve_one
  reserve_if-owned y op other ys p db h c ne = elim (Option-cases p.used_by_operation) [
    | inl n ↦ ground (arith, n, h)
    | inr (o, e) ↦ ground (
      arith,
      e,
      h,
      ne,
      nat_beq_iff other op,
      nat_beq_iff o other,
      nat_beq_iff o op,
      nat_beq_iff p.y y,
      c,
    )
  ]

  reserve_each-owned :
      (y other op : ℕ) (ys : List ℕ) (ps : List ProofInfo) (db : CashuKvDatabase)
      → is_owned_by y other ps ≡ true
      → contains y ys ≡ true
      → other ≢ op
      → Ends (λ r s. is_err r ≡ true) (reserve_each api op ys ps db)
  unfolding reserve_each is_owned_by
  reserve_each-owned y other op ys [] db h c ne = ground (arith, h)
  reserve_each-owned y other op ys (p ∷ ps) db h c ne =
      Ends-Reads (λ r s. is_err r ≡ true) (reserve_if api (contains p.y ys) op p)
        (λ q. reserve_each api op ys ps >>= λ rest. return (q ∷ rest)) db
        (reserve_if-Reads api laws (contains p.y ys) op p db)
        (λ q e. elim (Bool-cases (is_owned_by y other ps)) [
          | inl more ↦
              Ends-Reads (λ r s. is_err r ≡ true) (reserve_each api op ys ps)
                (λ rest. return (q ∷ rest)) db (reserve_each-Reads api laws op ys ps db)
                (λ rest er. absurd (
                  ground (
                    arith,
                    ap (λ r. is_err r.0) er,
                    (reserve_each-owned y other op ys ps db more c ne).end,
                  )))
                (λ x er. refl)
          | inr last ↦ absurd (
              ground (
                arith,
                ap (λ r. is_err r.0) e,
                reserve_if-owned y op other ys p db (ground (arith, h, last)) c ne,
              ))
        ])
        (λ x e. refl)

  -- The proofs that a reservation returned.
  reserve_if-owns :
      (op : ℕ) (p q : ProofInfo) (db t : CashuKvDatabase)
      → reserve_if api true op p db ≡ (ok q, t)
      → (q.y ≡ p.y) × (q.used_by_operation ≡ some op)
  unfolding reserve_if reserve_one
  reserve_if-owns op p q db t e = ground (arith, e)

  reserve_if-stays :
      (op : ℕ) (p q : ProofInfo) (db t : CashuKvDatabase)
      → reserve_if api false op p db ≡ (ok q, t)
      → q.y ≡ p.y
  unfolding reserve_if
  reserve_if-stays op p q db t e = ground (arith, e)

  -- Where the head of the list is owned if it is the proof meant, and the rest too.
  owned-cons :
      (y op : ℕ) (q : ProofInfo) (rest : List ProofInfo)
      → (q.y ≡ y → q.used_by_operation ≡ some op)
      → (stands y rest ≡ true → is_owned_by y op rest ≡ true)
      → stands y (q ∷ rest) ≡ true
      → is_owned_by y op (q ∷ rest) ≡ true
  unfolding is_owned_by stands
  owned-cons y op q rest h k st = ground (arith, h, k, st, nat_beq_iff q.y y, nat_beq_iff op op)

  stands_none : (y : ℕ) (qs : List ProofInfo) → stands y qs ≡ true → [] ≡ qs → ⊥
  unfolding stands
  stands_none y [] st e = ground (arith, st)
  stands_none y (q ∷ qs) st e = ground (arith, e)

  owned :
      (y op : ℕ) (ys : List ℕ) (p q : ProofInfo) (db t : CashuKvDatabase)
      → reserve_if api (contains p.y ys) op p db ≡ (ok q, t)
      → contains y ys ≡ true
      → q.y ≡ y
      → q.used_by_operation ≡ some op
  owned y op ys p q db t e c yq = elim (Bool-cases (contains p.y ys)) [
    | inl i ↦ (reserve_if-owns op p q db t (rw i at e)).1
    | inr o ↦ absurd (
        let py : q.y ≡ p.y = reserve_if-stays op p q db t (rw o at e) in
        let cy : contains y ys ≡ false =
          subst (λ z. contains z ys ≡ false) (ground (arith, py, yq)) o in
        ground (arith, cy, c))
  ]

  reserve_each-owns :
      (y op : ℕ) (ys : List ℕ) (ps qs : List ProofInfo) (db t : CashuKvDatabase)
      → reserve_each api op ys ps db ≡ (ok qs, t)
      → contains y ys ≡ true
      → stands y qs ≡ true
      → is_owned_by y op qs ≡ true
  unfolding reserve_each
  reserve_each-owns y op ys [] qs db t e c st = absurd (stands_none y qs st (ground (arith, e)))
  reserve_each-owns y op ys (p ∷ ps) qs db t e c st =
      (let (q, t1, e1, e2) =
          >>=-eq-ok (reserve_if api (contains p.y ys) op p)
            (λ q. reserve_each api op ys ps >>= λ rest. return (q ∷ rest)) db e in
        let (rest, t2, e3, e4) =
          >>=-eq-ok (reserve_each api op ys ps) (λ rest. return (q ∷ rest)) t1 e2 in
        let eq : qs ≡ q ∷ rest = ground (arith, e4) in
        subst (λ qs. is_owned_by y op qs ≡ true) (sym eq)
          (owned-cons y op q rest (λ yq. owned y op ys p q db t1 e1 c yq)
            (reserve_each-owns y op ys ps rest t1 t2 e3 c)
            (subst (λ qs. stands y qs ≡ true) eq st)))

  commit_proofs-ok :
      (ps : List ProofInfo) (db t : CashuKvDatabase)
      → commit_proofs api ps db ≡ (ok tt, t)
      → (t.proofs_cache ≡ ps) × (t.proofs_cache_needs_reload ≡ false)
  unfolding commit_proofs
  commit_proofs-ok ps db t e =
      (let (a, s, e1, e2) =
          >>=-eq-ok (map_err into_cdk (persist_proofs api ps)) (λ _. set_committed api ps) db e in
        (
          ground (arith, ap (λ r. r.1.proofs_cache) e2),
          ground (arith, ap (λ r. r.1.proofs_cache_needs_reload) e2),
        ))

  reserve_committed-ok :
      (op : ℕ) (ys : List ℕ) (ps : List ProofInfo) (db t : CashuKvDatabase)
      → reserve_committed api op ys ps db ≡ (ok tt, t)
      → (qs : List ProofInfo) × (s : CashuKvDatabase) × (reserve_each api op (hash_set ys) ps db
          ≡ (ok qs, s))
        × (commit_proofs api qs s ≡ (ok tt, t))
  unfolding reserve_committed
  reserve_committed-ok op ys ps db t e = elim (Bool-cases (is_stale api ys ps)) [
    | inl st ↦ absurd (ground (arith, ap (λ r. is_err r.0) (rw st at e)))
    | inr fresh ↦
        >>=-eq-ok (reserve_each api op (hash_set ys) ps) (commit_proofs api) db (rw fresh at e)
  ]

  -- What a reservation that returned leaves behind.
  reserve_proofs-owns :
      (y op : ℕ) (ys : List ℕ) (db t : CashuKvDatabase)
      → reserve_proofs api ys op db ≡ (ok tt, t)
      → contains y ys ≡ true
      → stands y t.proofs_cache ≡ true
      → (is_owned_by y op t.proofs_cache ≡ true) × (t.proofs_cache_needs_reload ≡ false)
  unfolding reserve_proofs
  reserve_proofs-owns y op [] db t e c st = absurd (contains_nil y c)
  reserve_proofs-owns y op (z ∷ ys) db t e c st =
      (let (a, s, e1, e2) =
          >>=-eq-ok (map_err into_cdk (reload_uncertain_proofs api))
            (λ _. asks (λ db. db.proofs_cache) >>= λ ps. reserve_committed api op (z ∷ ys) ps) db
            e in
        let (qs, u, e3, e4) = reserve_committed-ok op (z ∷ ys) s.proofs_cache s t e2 in
        let (cache, clean) = commit_proofs-ok qs u t e4 in
        let cy : contains y (hash_set (z ∷ ys)) ≡ true =
          ground (arith, contains-hash_set y (z ∷ ys), c) in
        (
          subst (λ ps. is_owned_by y op ps ≡ true) (sym cache)
              (reserve_each-owns y op (hash_set (z ∷ ys)) s.proofs_cache qs s u e3 cy
                (subst (λ ps. stands y ps ≡ true) cache st)),
          clean,
        ))

  Refused : CashuKvDatabase → Result (Unit {0}) CdkError → CashuKvDatabase → Type 0
  Refused db r s = (is_err r ≡ true) × (s ≡ db)

  reserve_committed-Refused :
      (y other op : ℕ) (ys : List ℕ) (db : CashuKvDatabase)
      → is_owned_by y other db.proofs_cache ≡ true
      → contains y ys ≡ true
      → other ≢ op
      → Ends (Refused db) (reserve_committed api op ys db.proofs_cache db)
  unfolding reserve_committed Refused
  reserve_committed-Refused y other op ys db h c ne =
      Ends-if (Refused db) (is_stale api ys db.proofs_cache) (throw proof_not_unspent)
        (reserve_each api op (hash_set ys) db.proofs_cache >>= commit_proofs api) db
        (λ _. record { end = (refl, refl) })
        (λ _.
          Ends-Reads (Refused db) (reserve_each api op (hash_set ys) db.proofs_cache)
            (commit_proofs api) db (reserve_each-Reads api laws op (hash_set ys) db.proofs_cache db)
            (λ qs e. absurd (
              ground (
                arith,
                ap (λ r. is_err r.0) e,
                (reserve_each-owned y other op (hash_set ys) db.proofs_cache db h
                    (ground (arith, contains-hash_set y ys, c)) ne).end,
              )))
            (λ x e. (refl, refl)))

  -- If `reserve_proofs` returned `Ok` for one operation, then for another operation and any
  -- selection that shares a proof with the first one, `reserve_proofs` returns an error and
  -- changes neither the database nor the store.
  pub reserve_proofs-exclusive :
      (ys more : List ℕ) (op other y : ℕ) (db t : CashuKvDatabase)
      → reserve_proofs api ys op db ≡ (ok tt, t)
      → contains y ys ≡ true
      → stands y t.proofs_cache ≡ true
      → contains y more ≡ true
      → op ≢ other
      → Ends (λ r s. (is_err r ≡ true) × (s ≡ t)) (reserve_proofs api more other t)
  unfolding reserve_proofs Refused
  reserve_proofs-exclusive ys [] op other y db t e c st m ne = absurd (contains_nil y m)
  reserve_proofs-exclusive ys (z ∷ more) op other y db t e c st m ne =
      (let (own, clean) = reserve_proofs-owns y op ys db t e c st in
        Ends-Reads (λ r s. (is_err r ≡ true) × (s ≡ t))
          (map_err into_cdk (reload_uncertain_proofs api))
          (λ _. asks (λ db. db.proofs_cache) >>= λ ps. reserve_committed api other (z ∷ more) ps) t
          (record { same = ground (arith, reload-clean api t clean) })
          (λ a r. record { end = (reserve_committed-Refused y op other (z ∷ more) t own m ne).end })
          (λ x r. absurd (ground (arith, reload-clean api t clean, r))))
