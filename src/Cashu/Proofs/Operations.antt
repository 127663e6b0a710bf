-- ===== src/Cashu/Proofs/Operations.antt =====
-- Every operation on the proofs keeps the cache and the snapshot in the store in agreement
-- (orange-sdk/src/trusted_wallet/cashu/cashu_store.rs), whether it returned `Ok` or an error.
use orange_sdk.Prelude.{
  ℕ, ◌≡◌, ◌≢◌, refl, Bool, true, false, not, ap, codes, text_beq, List, [], ◌∷◌, arith, Text,
}
use orange_sdk.Prelude.Act.{
  Act, Ends, Ends->>=, Ends-map_err, Ends-Reads, Reads, Reads->>=, Ends-if, ◌>>=◌, map_err, return,
  throw, try,
}
use orange_sdk.Platform.{ReadResult, StoreKey}
use orange_sdk.Platform.Kv.{call, remove}
use orange_sdk.Cashu.{
  CashuApi, CashuLaws, CashuKvDatabase, CdkError, ProofInfo, ProofState, into_cdk, database, io,
  proof_not_unspent,
}
use orange_sdk.Cashu.Records.{proofs_blob_key, on_calls, cashu_key, proof_reservations_key}
use orange_sdk.Cashu.Proofs.{
  reload_uncertain_proofs, commit_proofs, reserved_proofs, legacy_reservations, contains,
}
use orange_sdk.Cashu.Proofs.Updates.{
  commit_changed, reserve_committed, update_proofs, update_proofs_state, reserve_proofs,
  reserve_one, reserve_if, reserve_each, release_proofs, release_owned, release_each, hash_set,
  set_states, proofs_beq, is_stale,
}
use orange_sdk.Cashu.Proofs.Upsert.{update_proofs_cache}
use orange_sdk.Cashu.Proofs.Committed.{IsCommitted, Commits, reload-Commits, commit_proofs-Commits}

module _ (api : CashuApi) (laws : CashuLaws api) where
  reload_cdk-Commits :
      (db : CashuKvDatabase)
      → IsCommitted api db
      → Ends (Commits api) (map_err into_cdk (reload_uncertain_proofs api) db)
  reload_cdk-Commits db h =
      Ends-map_err (Commits api) (Commits api) into_cdk (reload_uncertain_proofs api) db
        (reload-Commits api db h) (λ a s c. c) (λ e s c. c)

  -- A sequence that starts with the reload.
  reloaded-Commits :
      {A : Type 0} (f : Unit {0} → Act CashuKvDatabase CdkError A) (db : CashuKvDatabase)
      → IsCommitted api db
      → ((s : CashuKvDatabase)
          → IsCommitted api s
          → s.proofs_cache_needs_reload ≡ false
          → Ends (Commits api) (f tt s))
      → Ends (Commits api) ((map_err into_cdk (reload_uncertain_proofs api) >>= f) db)
  reloaded-Commits f db h k =
      Ends->>= (Commits api) (Commits api) (map_err into_cdk (reload_uncertain_proofs api)) f db
        (reload_cdk-Commits db h) (λ a s c. k s c.0 c.1) (λ e s c. c)

  commit_changed-Commits :
      (b : Bool) (ps : List ProofInfo) (db : CashuKvDatabase)
      → IsCommitted api db
      → db.proofs_cache_needs_reload ≡ false
      → Ends (Commits api) (commit_changed api b ps db)
  unfolding commit_changed
  commit_changed-Commits true ps db h f = commit_proofs-Commits api laws ps db h
  commit_changed-Commits false ps db h f = record { end = (h, f) }

  update_proofs-Commits :
      (added : List ProofInfo) (removed_ys : List ℕ) (db : CashuKvDatabase)
      → IsCommitted api db
      → Ends (Commits api) (update_proofs api added removed_ys db)
  unfolding update_proofs
  update_proofs-Commits added removed_ys db h = reloaded-Commits _ db h λ s c f.
      (let updated : List ProofInfo = update_proofs_cache s.proofs_cache added removed_ys in
        commit_changed-Commits (not (proofs_beq api updated s.proofs_cache)) updated s c f)

  update_proofs_state-Commits :
      (ys : List ℕ) (state : ProofState) (db : CashuKvDatabase)
      → IsCommitted api db
      → Ends (Commits api) (update_proofs_state api ys state db)
  unfolding update_proofs_state
  update_proofs_state-Commits ys state db h = reloaded-Commits _ db h λ s c f.
      (let (changed, updated) = set_states (hash_set ys) state s.proofs_cache in
        commit_changed-Commits changed updated s c f)

  reserved_proofs-Reads : (op : ℕ) (db : CashuKvDatabase) → Reads db (reserved_proofs api op db)
  unfolding reserved_proofs
  reserved_proofs-Reads op db =
      let r : ReadResult =
        api.kv.read db.calls (cashu_key proof_reservations_key (api.uuid_to_string op)) in
      Reads->>= (try (legacy_reservations api r)) _ db (record { same = refl })
        λ legacy. record { same = refl }

  reserve_one-Reads :
      (op : ℕ) (p : ProofInfo) (db : CashuKvDatabase) → Reads db (reserve_one api op p db)
  unfolding reserve_one
  reserve_one-Reads op p db = record { same = ground (arith, (reserved_proofs-Reads op db).same) }

  pub reserve_if-Reads :
      (b : Bool) (op : ℕ) (p : ProofInfo) (db : CashuKvDatabase)
      → Reads db (reserve_if api b op p db)
  unfolding reserve_if
  reserve_if-Reads true op p db = reserve_one-Reads op p db
  reserve_if-Reads false op p db = record { same = refl }

  pub reserve_each-Reads :
      (op : ℕ) (ys : List ℕ) (ps : List ProofInfo) (db : CashuKvDatabase)
      → Reads db (reserve_each api op ys ps db)
  unfolding reserve_each
  reserve_each-Reads op ys [] db = record { same = refl }
  reserve_each-Reads op ys (p ∷ ps) db =
      Reads->>= (reserve_if api (contains p.y ys) op p)
        (λ q. reserve_each api op ys ps >>= λ rest. return (q ∷ rest)) db
        (reserve_if-Reads (contains p.y ys) op p db)
        λ q.
          Reads->>= (reserve_each api op ys ps) (λ rest. return (q ∷ rest)) db
            (reserve_each-Reads op ys ps db) λ rest. record { same = refl }

  reserve_committed-IsCommitted :
      (op : ℕ) (ys : List ℕ) (ps : List ProofInfo) (db : CashuKvDatabase)
      → IsCommitted api db
      → Ends (λ r s. IsCommitted api s) (reserve_committed api op ys ps db)
  unfolding reserve_committed
  reserve_committed-IsCommitted op ys ps db h =
      Ends-if (λ r s. IsCommitted api s) (is_stale api ys ps) (throw proof_not_unspent)
        (reserve_each api op (hash_set ys) ps >>= commit_proofs api) db (λ _. record { end = h })
        λ _.
          Ends-Reads (λ r s. IsCommitted api s) (reserve_each api op (hash_set ys) ps)
            (commit_proofs api) db (reserve_each-Reads op (hash_set ys) ps db)
            (λ qs e. record { end = (commit_proofs-Commits api laws qs db h).end.0 }) (λ x e. h)

  reserve_proofs-IsCommitted :
      (ys : List ℕ) (op : ℕ) (db : CashuKvDatabase)
      → IsCommitted api db
      → Ends (λ r s. IsCommitted api s) (reserve_proofs api ys op db)
  unfolding reserve_proofs
  reserve_proofs-IsCommitted [] op db h = record { end = h }
  reserve_proofs-IsCommitted (y ∷ ys) op db h =
      Ends->>= (Commits api) (λ r s. IsCommitted api s)
        (map_err into_cdk (reload_uncertain_proofs api)) _ db (reload_cdk-Commits db h)
        (λ a s c. reserve_committed-IsCommitted op (y ∷ ys) s.proofs_cache s c.0) (λ e s c. c.0)

  -- A removal of another key.
  remove-IsCommitted :
      (k : StoreKey) (db : CashuKvDatabase)
      → k ≢ proofs_blob_key
      → IsCommitted api db
      → Ends (λ r s. IsCommitted api s) (on_calls (call api.kv (database io) (remove k)) db)
  remove-IsCommitted k db ne h = record {
    end = ground (arith, laws.kv.read-remove_ne k proofs_blob_key db.calls ne, h);
  }

  reservations-ne-blob : (k : Text) → cashu_key proof_reservations_key k ≢ proofs_blob_key
  unfolding text_beq
  reservations-ne-blob k e = ground (arith, ap (λ j. text_beq j.secondary (codes "proofs")) e)

  release_owned-IsCommitted :
      (op : ℕ) (owned : List ProofInfo) (db : CashuKvDatabase)
      → IsCommitted api db
      → Ends (λ r s. IsCommitted api s) (release_owned api op owned db)
  unfolding release_owned
  release_owned-IsCommitted op owned db h =
      let k : StoreKey = cashu_key proof_reservations_key (api.uuid_to_string op) in
      Ends->>= (Commits api) (λ r s. IsCommitted api s)
        (commit_proofs api (release_each api owned db.proofs_cache))
        (λ _. on_calls (call api.kv (database io) (remove k))) db
        (commit_proofs-Commits api laws (release_each api owned db.proofs_cache) db h)
        (λ a s c. remove-IsCommitted k s (reservations-ne-blob (api.uuid_to_string op)) c.0)
        (λ e s c. c.0)

  release_proofs-IsCommitted :
      (op : ℕ) (db : CashuKvDatabase)
      → IsCommitted api db
      → Ends (λ r s. IsCommitted api s) (release_proofs api op db)
  unfolding release_proofs
  release_proofs-IsCommitted op db h =
      Ends->>= (Commits api) (λ r s. IsCommitted api s)
        (map_err into_cdk (reload_uncertain_proofs api)) _ db (reload_cdk-Commits db h)
        (λ a s c.
          Ends-Reads (λ r t. IsCommitted api t) (reserved_proofs api op) (release_owned api op) s
            (reserved_proofs-Reads op s) (λ owned e. release_owned-IsCommitted op owned s c.0)
            (λ e r. c.0))
        (λ e s c. c.0)

  -- Whatever the store answers, if the cache of the proofs is what the store holds or is marked as
  -- uncertain, then the same is true after `update_proofs`, `update_proofs_state`,
  -- `reserve_proofs` and `release_proofs`, whether they return `Ok` or an error.
  pub operations-IsCommitted :
      (added : List ProofInfo) (removed_ys ys : List ℕ) (state : ProofState) (op : ℕ)
      (db : CashuKvDatabase)
      → IsCommitted api db
      → Ends (λ r s. IsCommitted api s) (update_proofs api added removed_ys db)
        × Ends (λ r s. IsCommitted api s) (update_proofs_state api ys state db)
        × Ends (λ r s. IsCommitted api s) (reserve_proofs api ys op db)
        × Ends (λ r s. IsCommitted api s) (release_proofs api op db)
  operations-IsCommitted added removed_ys ys state op db h = (
    record { end = (update_proofs-Commits added removed_ys db h).end.0 },
    record { end = (update_proofs_state-Commits ys state db h).end.0 },
    reserve_proofs-IsCommitted ys op db h,
    release_proofs-IsCommitted op db h,
  )
