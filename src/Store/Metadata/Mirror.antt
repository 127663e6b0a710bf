-- ===== src/Store/Metadata/Mirror.antt =====
-- Every operation of `TxMetadataStore` keeps memory and disk in step.
use orange_sdk.Prelude.{ℕ, ◌≡◌, false, Option, inl, inr, List, [], ◌∷◌, arith}
use orange_sdk.Prelude.Run.{Run, Returns, pure, Returns->>=, Returns-of_eq, ◌>>◌}
use orange_sdk.Platform.{KvStoreLaws, HexLaws}
use orange_sdk.Store.Types.{PaymentId, TxMetadata}
use orange_sdk.Store.World.{Backend, Store}
use orange_sdk.Store.Wrote.{Reliable, IsMirrored, wrote, wrote-IsMirrored}
use orange_sdk.Store.Metadata.{
  upsert, insert_new, set_tx_caused_rebalance, set_tx_caused_rebalance_with_splice, set_preimage,
}
use orange_sdk.Store.Metadata.Effects.{
  triggering, do_set_lem, set_tx_caused_rebalance_lem, set_tx_caused_rebalance_with_splice_lem,
  set_preimage_lem, insert_new-wrote,
}
use orange_sdk.Store.Mpp.{record_mpp_leg}
use orange_sdk.Store.Mpp.Writes.{Writes, record_mpp_leg-Writes}

-- A call of a method.
pub data StoreOp : Type 0 where
  upserts : PaymentId → TxMetadata → StoreOp
  inserts : PaymentId → TxMetadata → StoreOp
  promotes : PaymentId → StoreOp
  promotes_with_splice : PaymentId → PaymentId → TxMetadata → StoreOp
  sets_preimage : PaymentId → ℕ → StoreOp
  reports : PaymentId → Option (ℕ × ℕ) → StoreOp

-- The call, with its result left out.
unfoldable pub run_op : Backend → StoreOp → Run Store (Unit {0})
run_op api (upserts id m) = upsert api id m
run_op api (inserts id m) = insert_new api id m
run_op api (promotes id) = do set_tx_caused_rebalance api id; pure tt
run_op api (promotes_with_splice id splice m) = do
  set_tx_caused_rebalance_with_splice api id splice m
  pure tt
run_op api (sets_preimage id p) = do set_preimage api id p; pure tt
run_op api (reports leg success) = do record_mpp_leg api leg success; pure tt

unfoldable pub run_ops : Backend → List StoreOp → Run Store (Unit {0})
run_ops api [] = pure tt
run_ops api (op ∷ ops) = run_op api op >> run_ops api ops

module _ (api : Backend) (kv_laws : KvStoreLaws api.kv) (hex_laws : HexLaws api.hex)
    (reliable : Reliable api.kv) (release : api.debug_assertions ≡ false) where
  abbrev pub Mirrors : Unit {0} → Store → Type 0
  Mirrors _ s = IsMirrored api s

  saves :
      (id : PaymentId) (m : TxMetadata) (s : Store)
      → IsMirrored api s
      → IsMirrored api (wrote api id m s)
  saves = wrote-IsMirrored api kv_laws hex_laws reliable

  run_op-IsMirrored :
      (op : StoreOp) (s : Store) → IsMirrored api s → Returns Mirrors (run_op api op s)
  unfolding run_op upsert
  run_op-IsMirrored (upserts id m) s h =
      Returns-of_eq Mirrors (ground (arith, do_set_lem api reliable id m s)) (saves id m s h)
  run_op-IsMirrored (inserts id m) s h =
      Returns-of_eq Mirrors (insert_new-wrote api reliable id m s (inr release)) (saves id m s h)
  run_op-IsMirrored (promotes id) s h = elim (set_tx_caused_rebalance_lem api reliable id s) [
    | inl (m, t, e, is, done) ↦ Returns-of_eq Mirrors (ground arith) (saves id (triggering m t) s h)
    | inr (isnt, refused) ↦ Returns-of_eq Mirrors (ground arith) h
  ]
  run_op-IsMirrored (promotes_with_splice id splice sm) s h =
      elim (set_tx_caused_rebalance_with_splice_lem api reliable id splice sm s) [
        | inl (m, t, e, is, done) ↦
            Returns-of_eq Mirrors (ground arith)
              (saves splice sm (wrote api id (triggering m t) s) (saves id (triggering m t) s h))
        | inr (isnt, refused) ↦ Returns-of_eq Mirrors (ground arith) h
      ]
  run_op-IsMirrored (sets_preimage id p) s h = elim (set_preimage_lem api reliable id p s) [
    | inl (m, ty, e, is, done) ↦
        Returns-of_eq Mirrors (ground arith) (saves id (record m { ty = ty }) s h)
    | inr (inl (m, e, is, done)) ↦ Returns-of_eq Mirrors (ground arith) h
    | inr (inr done) ↦ Returns-of_eq Mirrors (ground arith) h
  ]
  run_op-IsMirrored (reports leg success) s h =
      Returns->>= (Writes api s) Mirrors (record_mpp_leg api leg success) (λ _. pure tt) s
        (record_mpp_leg-Writes api reliable leg success s)
        (λ r t w. elim w [ inl same ↦ rw same h | inr (id, m, e) ↦ rw e (saves id m s h) ])

  -- Where no write fails, in a release build every sequence of calls of the store's methods, reports
  -- of legs included, returns, and if memory and disk held the same entries before it then they hold
  -- the same entries after it.
  pub run_ops-IsMirrored :
      (ops : List StoreOp) (s : Store) → IsMirrored api s → Returns Mirrors (run_ops api ops s)
  unfolding run_ops
  run_ops-IsMirrored [] s h = h
  run_ops-IsMirrored (op ∷ ops) s h =
      Returns->>= Mirrors Mirrors (run_op api op) (λ _. run_ops api ops) s
        (run_op-IsMirrored op s h) (λ _ s' h'. run_ops-IsMirrored ops s' h')
