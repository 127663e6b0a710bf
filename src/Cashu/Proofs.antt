-- ===== src/Cashu/Proofs.antt =====
-- The snapshot of the proofs in the store and its cache in memory: `load_proofs_from_store` to
-- `ensure_unique_proof_ys` in orange-sdk/src/trusted_wallet/cashu/cashu_store.rs.
pub mod Upsert
pub mod Updates
pub mod Committed
pub mod Operations
pub mod Exclusive
use orange_sdk.Prelude.{
  ℕ, Bool, true, false, Option, none, some, List, [], ◌∷◌, Text, Result, ok, err, if◌then◌else◌,
  text_beq, ◌||◌, not, ◌≡◌,
}
use orange_sdk.Prelude.Act.{Act, return, try, asks, modifies, map_err, ◌>>=◌, ◌>>◌}
use orange_sdk.Prelude.{◌==◌, nat_eq}
use orange_sdk.Platform.{ReadResult, found, not_found, read_error}
use orange_sdk.Platform.Kv.{call, write, ok_or}
use orange_sdk.Cashu.{
  CashuApi, CashuKvDatabase, DatabaseError, serialization, io, invalid_format, duplicate, CdkError,
  into_cdk, ProofInfo, ProofsBlob,
}
use orange_sdk.Cashu.Records.{cashu_key, proof_reservations_key, proofs_blob_key, on_calls}

-- `HashSet::contains`, on the set's elements in some order.
unfoldable pub contains : ℕ → List ℕ → Bool
contains y [] = false
contains y (z ∷ zs) = z == y || contains y zs

unfoldable pub contains_text : Text → List Text → Bool
contains_text s [] = false
contains_text s (t ∷ ts) = text_beq t s || contains_text s ts

unfoldable pub filter : (ProofInfo → Bool) → List ProofInfo → List ProofInfo
filter f [] = []
filter f (p ∷ ps) = let rest = filter f ps in if f p then p ∷ rest else rest

-- The loop of `ensure_unique_proof_ys`, with the set of the ys met so far.
unfoldable pub unique_from : List ℕ → List ProofInfo → Bool
unfolding contains
unique_from ys [] = true
unique_from ys (p ∷ ps) =
    let rest = unique_from (p.y ∷ ys) ps in if contains p.y ys then false else rest

unfoldable pub ensure_unique_proof_ys : List ProofInfo → Result (Unit {0}) DatabaseError
unfolding unique_from
ensure_unique_proof_ys proofs = if unique_from [] proofs then ok tt else err duplicate

-- What a blob holds, where its version is the one in use and no proof stands twice.
unfoldable pub checked_proofs : ProofsBlob → Result (List ProofInfo) DatabaseError
unfolding ensure_unique_proof_ys
checked_proofs blob =
    if blob.schema_version == 1
    then elim (ensure_unique_proof_ys blob.proofs) [ ok _ ↦ ok blob.proofs | err e ↦ err e ]
    else err invalid_format

module _ (api : CashuApi) where
  unfoldable pub decode_proofs : ReadResult → Result (List ProofInfo) DatabaseError
  unfolding checked_proofs
  decode_proofs (found []) = ok []
  decode_proofs (found (b ∷ d)) = elim (api.proofs_json.from_slice (b ∷ d)) [
    | none ↦ err serialization
    | some blob ↦ checked_proofs blob
  ]
  decode_proofs not_found = ok []
  decode_proofs read_error = err io

  unfoldable pub load_proofs_from_store : Act CashuKvDatabase DatabaseError (List ProofInfo)
  unfolding decode_proofs
  load_proofs_from_store db = (decode_proofs (api.kv.read db.calls proofs_blob_key), db)

  -- The snapshot that was read or written becomes the cache, which is trusted again.
  abbrev pub set_committed : {E : Type 0} → List ProofInfo → Act CashuKvDatabase E (Unit {0})
  set_committed proofs =
      modifies λ db. record db { proofs_cache = proofs; proofs_cache_needs_reload = false }

  unfoldable pub reload_uncertain_proofs : Act CashuKvDatabase DatabaseError (Unit {0})
  unfolding load_proofs_from_store
  reload_uncertain_proofs db =
      if db.proofs_cache_needs_reload
      then (do proofs ← load_proofs_from_store; set_committed proofs) db
      else (ok tt, db)

  unfoldable pub read_proofs :
      {T : Type 0} → (List ProofInfo → T) → Act CashuKvDatabase DatabaseError T
  unfolding reload_uncertain_proofs
  read_proofs read = do reload_uncertain_proofs; asks λ db. read db.proofs_cache

  unfoldable pub persist_proofs : List ProofInfo → Act CashuKvDatabase DatabaseError (Unit {0})
  unfolding ensure_unique_proof_ys
  persist_proofs proofs = do
    try (ensure_unique_proof_ys proofs)
    data_ ← try (
        ok_or serialization
          (api.proofs_json.to_vec (record { schema_version = 1; proofs = proofs })))
    modifies λ db. record db { proofs_cache_needs_reload = true }
    on_calls (call api.kv io (write proofs_blob_key data_))

  -- The end that the operations share: the snapshot is written, then becomes the cache.
  unfoldable pub commit_proofs : List ProofInfo → Act CashuKvDatabase CdkError (Unit {0})
  unfolding persist_proofs
  commit_proofs proofs = do map_err into_cdk (persist_proofs proofs); set_committed proofs

  -- The reservations that an older adapter kept for the operation.
  unfoldable pub legacy_reservations : ReadResult → Result (List Text) CdkError
  legacy_reservations (found data_) = elim (api.strings_json.from_slice data_) [
    | none ↦ err (into_cdk serialization)
    | some ys ↦ ok ys
  ]
  legacy_reservations not_found = ok []
  legacy_reservations read_error = err (into_cdk io)

  unfoldable pub is_reserved_by : ℕ → List Text → ProofInfo → Bool
  unfolding contains_text
  is_reserved_by operation_id legacy proof = elim proof.used_by_operation [
    | none ↦ contains_text (api.hex_encode_y proof.y) legacy
    | some owner ↦ owner == operation_id
  ]

  unfoldable pub reserved_proofs : ℕ → Act CashuKvDatabase CdkError (List ProofInfo)
  unfolding legacy_reservations is_reserved_by filter
  reserved_proofs operation_id = do
    r ← asks λ db.
        api.kv.read db.calls (cashu_key proof_reservations_key (api.uuid_to_string operation_id))
    legacy ← try (legacy_reservations r)
    asks λ db. filter (is_reserved_by operation_id legacy) db.proofs_cache
