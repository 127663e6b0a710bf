-- ===== src/Cashu/Proofs/Committed.antt =====
-- The cache of the proofs and the snapshot in the store agree after every operation on proofs
-- (orange-sdk/src/trusted_wallet/cashu/cashu_store.rs), whether it returned `Ok` or an error.
use orange_sdk.Prelude.{
  ◌⊎◌, ℕ, ◌≡◌, refl, Bool, true, false, Bool-cases, inl, inr, Option, none, some, List, [], ◌∷◌,
  Result, ok, err, if◌then◌else◌, arith,
}
use orange_sdk.Prelude.Act.{Ends, Ends->>=, Ends-map_err, Ends-of_eq, map_err}
use orange_sdk.Platform.{found}
use orange_sdk.Platform.Kv.{write}
use orange_sdk.Cashu.{
  CashuApi, CashuLaws, CashuKvDatabase, DatabaseError, ProofInfo, into_cdk, io, serialization,
}
use orange_sdk.Cashu.Records.{proofs_blob_key}
use orange_sdk.Cashu.Proofs.{
  decode_proofs, load_proofs_from_store, reload_uncertain_proofs, set_committed, persist_proofs,
  commit_proofs, read_proofs, ensure_unique_proof_ys, checked_proofs,
}

module _ (api : CashuApi) where
  -- What the store holds is what the cache holds, unless the cache is marked as uncertain.
  abbrev pub IsCommitted : CashuKvDatabase → Type 0
  IsCommitted db =
      (db.proofs_cache_needs_reload ≡ true)
      ⊎ (decode_proofs api (api.kv.read db.calls proofs_blob_key) ≡ ok db.proofs_cache)

  -- The cache is trusted after an operation that returned `Ok`.
  abbrev pub Commits : {A : Type 0} {E : Type 0} → Result A E → CashuKvDatabase → Type 0
  Commits r db =
      IsCommitted db × (elim r [ ok _ ↦ db.proofs_cache_needs_reload ≡ false | err _ ↦ Unit ])

  pub reload-clean :
      (db : CashuKvDatabase)
      → db.proofs_cache_needs_reload ≡ false
      → reload_uncertain_proofs api db ≡ (ok tt, db)
  unfolding reload_uncertain_proofs
  reload-clean db e = ground (arith, e)

  reload-loaded :
      (db : CashuKvDatabase) (ps : List ProofInfo)
      → db.proofs_cache_needs_reload ≡ true
      → decode_proofs api (api.kv.read db.calls proofs_blob_key) ≡ ok ps
      → reload_uncertain_proofs api db ≡ set_committed api ps db
  unfolding reload_uncertain_proofs load_proofs_from_store
  reload-loaded db ps e d = ground (arith, e, d)

  reload-failed :
      (db : CashuKvDatabase) (x : DatabaseError)
      → db.proofs_cache_needs_reload ≡ true
      → decode_proofs api (api.kv.read db.calls proofs_blob_key) ≡ err x
      → reload_uncertain_proofs api db ≡ (err x, db)
  unfolding reload_uncertain_proofs load_proofs_from_store
  reload-failed db x e d = ground (arith, e, d)

  pub reload-Commits :
      (db : CashuKvDatabase) → IsCommitted db → Ends Commits (reload_uncertain_proofs api db)
  reload-Commits db h =
      go db.proofs_cache_needs_reload refl
        (decode_proofs api (api.kv.read db.calls proofs_blob_key)) refl
    where
      go :
          (b : Bool)
          → db.proofs_cache_needs_reload ≡ b
          → (r : Result (List ProofInfo) DatabaseError)
          → decode_proofs api (api.kv.read db.calls proofs_blob_key) ≡ r
          → Ends Commits (reload_uncertain_proofs api db)
      go false e r er = Ends-of_eq Commits (reload-clean db e) (h, e)
      go true e (ok ps) er = Ends-of_eq Commits (reload-loaded db ps e er) (inr er, refl)
      go true e (err x) er = Ends-of_eq Commits (reload-failed db x e er) (h, tt)

  -- What reading the store's snapshot gives.
  unfoldable pub read_stored :
      {T : Type 0} → (List ProofInfo → T) → CashuKvDatabase → Result T DatabaseError
  read_stored f db = elim (decode_proofs api (api.kv.read db.calls proofs_blob_key)) [
    | ok ps ↦ ok (f ps)
    | err e ↦ err e
  ]

  read_proofs-lem :
      {T : Type 0} (f : List ProofInfo → T) (db : CashuKvDatabase)
      → IsCommitted db
      → read_proofs api f db ≡ (read_stored f db, (reload_uncertain_proofs api db).1)
  unfolding read_proofs read_stored reload_uncertain_proofs load_proofs_from_store
  read_proofs-lem f db h = ground (arith, h)

  reload-clears :
      {T : Type 0} (f : List ProofInfo → T) (db : CashuKvDatabase) (t : T)
      → read_stored f db ≡ ok t
      → (reload_uncertain_proofs api db).1.proofs_cache_needs_reload ≡ false
  unfolding read_stored reload_uncertain_proofs load_proofs_from_store
  reload-clears f db t e = ground (arith, e)

  Commits-of :
      {A E : Type 0} (r : Result A E) (db : CashuKvDatabase)
      → IsCommitted db
      → ((a : A) → r ≡ ok a → db.proofs_cache_needs_reload ≡ false)
      → Commits r db
  Commits-of (ok a) db h k = (h, k a refl)
  Commits-of (err e) db h k = (h, tt)

  -- If the cache of the proofs is what the store holds or is marked as uncertain, then a read of
  -- the proofs returns what the store holds, or the error of reading it; the cache is still what
  -- the store holds or marked; and after a read that returned `Ok` it is not marked.
  pub read_proofs-Stored :
      {T : Type 0} (f : List ProofInfo → T) (db : CashuKvDatabase)
      → IsCommitted db
      → Ends (λ r s. Commits r s × (r ≡ read_stored f db)) (read_proofs api f db)
  read_proofs-Stored f db h =
      Ends-of_eq (λ r s. Commits r s × (r ≡ read_stored f db)) (read_proofs-lem f db h)
        (
          Commits-of (read_stored f db) (reload_uncertain_proofs api db).1
              (reload-Commits db h).end.0 (reload-clears f db),
          refl,
        )

module _ (api : CashuApi) (laws : CashuLaws api) where
  decode_proofs-to_vec :
      (ps : List ProofInfo) (d : List ℕ)
      → ensure_unique_proof_ys ps ≡ ok tt
      → api.proofs_json.to_vec (record { schema_version = 1; proofs = ps }) ≡ some d
      → decode_proofs api (found d) ≡ ok ps
  unfolding decode_proofs checked_proofs
  decode_proofs-to_vec ps [] u e = absurd (laws.proofs_json.to_vec-ne-nil _ [] e refl)
  decode_proofs-to_vec ps (b ∷ d) u e =
      ground (arith, u, laws.proofs_json.from_slice-to_vec _ (b ∷ d) e)

  -- What holds after a write of a snapshot, before it becomes the cache.
  abbrev Persisted : {E : Type 0} → List ProofInfo → Result (Unit {0}) E → CashuKvDatabase → Type 0
  Persisted ps r db = elim r [
    | ok _ ↦ decode_proofs api (api.kv.read db.calls proofs_blob_key) ≡ ok ps
    | err _ ↦ IsCommitted api db
  ]

  -- The database after the call that writes a snapshot.
  abbrev written : List ℕ → CashuKvDatabase → CashuKvDatabase
  written d db = record db {
    calls = write proofs_blob_key d ∷ db.calls;
    proofs_cache_needs_reload = true;
  }

  persist_proofs-refused :
      (ps : List ProofInfo) (db : CashuKvDatabase) (x : DatabaseError)
      → ensure_unique_proof_ys ps ≡ err x
      → persist_proofs api ps db ≡ (err x, db)
  unfolding persist_proofs
  persist_proofs-refused ps db x u = ground (arith, u)

  persist_proofs-unencoded :
      (ps : List ProofInfo) (db : CashuKvDatabase)
      → ensure_unique_proof_ys ps ≡ ok tt
      → api.proofs_json.to_vec (record { schema_version = 1; proofs = ps }) ≡ none
      → persist_proofs api ps db ≡ (err serialization, db)
  unfolding persist_proofs
  persist_proofs-unencoded ps db u e = ground (arith, u, e)

  persist_proofs-written :
      (ps : List ProofInfo) (db : CashuKvDatabase) (d : List ℕ)
      → ensure_unique_proof_ys ps ≡ ok tt
      → api.proofs_json.to_vec (record { schema_version = 1; proofs = ps }) ≡ some d
      → persist_proofs api ps db ≡ (
        (if api.kv.is_ok (write proofs_blob_key d ∷ db.calls) then ok tt else err io),
        written d db,
      )
  unfolding persist_proofs
  persist_proofs-written ps db d u e = ground (arith, u, e)

  persist_proofs-Persisted :
      (ps : List ProofInfo) (db : CashuKvDatabase)
      → IsCommitted api db
      → Ends (Persisted ps) (persist_proofs api ps db)
  persist_proofs-Persisted ps db h =
      go (ensure_unique_proof_ys ps) refl
        (api.proofs_json.to_vec (record { schema_version = 1; proofs = ps })) refl
    where
      go :
          (u : Result (Unit {0}) DatabaseError)
          → ensure_unique_proof_ys ps ≡ u
          → (o : Option (List ℕ))
          → api.proofs_json.to_vec (record { schema_version = 1; proofs = ps }) ≡ o
          → Ends (Persisted ps) (persist_proofs api ps db)
      go (err x) eu o eo = Ends-of_eq (Persisted ps) (persist_proofs-refused ps db x eu) h
      go (ok _) eu none eo = Ends-of_eq (Persisted ps) (persist_proofs-unencoded ps db eu eo) h
      go (ok _) eu (some d) eo =
          elim (Bool-cases (api.kv.is_ok (write proofs_blob_key d ∷ db.calls))) [
            | inl w ↦
                Ends-of_eq (Persisted ps) {r = ok tt} {s = written d db}
                  (rw (persist_proofs-written ps db d eu eo, w))
                  (rw (laws.kv.read-write_self proofs_blob_key d db.calls w)
                    (decode_proofs-to_vec ps d eu eo))
            | inr w ↦
                Ends-of_eq (Persisted ps) {r = err io} {s = written d db}
                  (rw (persist_proofs-written ps db d eu eo, w)) (inl refl)
          ]

  pub commit_proofs-Commits :
      (ps : List ProofInfo) (db : CashuKvDatabase)
      → IsCommitted api db
      → Ends (Commits api) (commit_proofs api ps db)
  unfolding commit_proofs
  commit_proofs-Commits ps db h =
      Ends->>= (Persisted ps) (Commits api) (map_err into_cdk (persist_proofs api ps)) _ db
        (Ends-map_err (Persisted ps) (Persisted ps) into_cdk (persist_proofs api ps) db
          (persist_proofs-Persisted ps db h) (λ a s p. p) (λ e s p. p))
        (λ a s p. record { end = (inr p, refl) }) (λ e s p. (p, tt))
