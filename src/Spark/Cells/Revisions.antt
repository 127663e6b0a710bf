-- ===== src/Spark/Cells/Revisions.antt =====
-- Revisions go up by one (`next_local_revision` in
-- orange-sdk/src/trusted_wallet/spark/spark_store.rs).
use orange_sdk.Prelude.{ℕ, ◌+◌, ◌%◌, ◌^◌, ◌≡◌, ◌<◌, ap, sym, true, ◌∷◌, ok, arith}
use orange_sdk.Prelude.Act.{return, >>=-eq-ok, ◌>>◌}
use orange_sdk.Platform.{StoreKey, found}
use orange_sdk.Platform.Kv.{Calls, write}
use orange_sdk.Spark.{SparkApi, SparkLaws}
use orange_sdk.Spark.Cells.{
  local_revision_key, decode_revision, read_revision, write_revision, next_local_revision,
}

module _ (api : SparkApi) (laws : SparkLaws api) where
  pub decode_revision-to_decimal :
      (n : ℕ) → n < 2 ^ 64 → decode_revision api (found (api.to_decimal n)) ≡ ok n
  unfolding decode_revision
  decode_revision-to_decimal n small =
      ground (arith, laws.is_utf8-to_decimal n, laws.parse_u64-to_decimal n small)

  write_revision-ok :
      (k : StoreKey) (n : ℕ) (h h' : Calls)
      → n < 2 ^ 64
      → write_revision api k n h ≡ (ok tt, h')
      → decode_revision api (api.kv.read h' k) ≡ ok n
  unfolding write_revision
  write_revision-ok k n h h' small e =
      (let w : api.kv.is_ok (write k (api.to_decimal n) ∷ h) ≡ true = ground (arith, e) in
        let eh : h' ≡ write k (api.to_decimal n) ∷ h = ground (arith, e, w) in
        rw (eh, laws.kv.read-write_self k (api.to_decimal n) h w)
          (decode_revision-to_decimal n small))

  moved :
      (h h' : Calls) (m n : ℕ)
      → h ≡ h'
      → m ≡ n
      → decode_revision api (api.kv.read h local_revision_key) ≡ ok m
      → decode_revision api (api.kv.read h' local_revision_key) ≡ ok n
  moved h h' m n eh en d = rw (← eh) (rw (← en) d)

  -- The number handed out is the one after the stored one, and is stored.
  pub next_local_revision-ok :
      (h h' : Calls) (n : ℕ)
      → next_local_revision api h ≡ (ok n, h')
      → (current : ℕ) × (decode_revision api (api.kv.read h local_revision_key) ≡ ok current)
        × (n ≡ (current + 1) % 2 ^ 64)
        × (decode_revision api (api.kv.read h' local_revision_key) ≡ ok n)
  unfolding next_local_revision read_revision
  next_local_revision-ok h h' n e =
      (let (current, t, e1, e2) =
          >>=-eq-ok (read_revision api local_revision_key)
            (λ current.
              write_revision api local_revision_key ((current + 1) % 2 ^ 64)
              >> return ((current + 1) % 2 ^ 64))
            h e in
        let (u, t2, e3, e4) =
          >>=-eq-ok (write_revision api local_revision_key ((current + 1) % 2 ^ 64))
            (λ _. return ((current + 1) % 2 ^ 64)) t e2 in
        let en : n ≡ (current + 1) % 2 ^ 64 = ground (arith, e4) in
        let stored : decode_revision api (api.kv.read t2 local_revision_key)
            ≡ ok ((current + 1) % 2 ^ 64) =
          write_revision-ok local_revision_key ((current + 1) % 2 ^ 64) t t2 (omega arith) e3 in
        (current, ground (arith, e1), en, moved t2 h' _ n (ap (λ r. r.1) e4) (sym en) stored))
