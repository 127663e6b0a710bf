-- ===== src/Spark/Sync/Outgoing.antt =====
-- The numbers of the changes in the outgoing queue (`add_outgoing_change` in
-- orange-sdk/src/trusted_wallet/spark/spark_store.rs).
use orange_sdk.Prelude.{
  ℕ, ◌+◌, ◌%◌, ◌^◌, ◌≡◌, ◌≢◌, ap, true, List, ◌∷◌, ok, arith, codes, text_beq, Text,
}
use orange_sdk.Prelude.Act.{return, try, >>=-eq-ok, ◌>>=◌, ◌>>◌}
use orange_sdk.Platform.{StoreKey}
use orange_sdk.Platform.Kv.{Calls, write, ok_or}
use orange_sdk.Spark.{SparkApi, SparkLaws, serialization, RecordChange}
use orange_sdk.Spark.Cells.{
  spark_key, local_revision_key, decode_revision, next_local_revision, write_data,
}
use orange_sdk.Spark.Cells.Revisions.{next_local_revision-ok}
use orange_sdk.Spark.Sync.{UnversionedRecordChange, add_outgoing_change}

module _ (api : SparkApi) (laws : SparkLaws api) where
  out-ne-revision : (k : Text) → spark_key (codes "sync_out") k ≢ local_revision_key
  unfolding text_beq
  out-ne-revision k e = ground (arith, ap (λ j. text_beq j.secondary (codes "sync_rev")) e)

  -- A write of an entry leaves the counter.
  counter-kept :
      (k : Text) (d : List ℕ) (h h' : Calls) (n : ℕ)
      → h' ≡ write (spark_key (codes "sync_out") k) d ∷ h
      → decode_revision api (api.kv.read h local_revision_key) ≡ ok n
      → decode_revision api (api.kv.read h' local_revision_key) ≡ ok n
  counter-kept k d h h' n eh e =
      rw
        (
          eh,
          laws.kv.read-write_ne (spark_key (codes "sync_out") k) local_revision_key d h
              (out-ne-revision k),
        )
        e

  add_outgoing_change-ok :
      (r : UnversionedRecordChange) (h h' : Calls) (n : ℕ)
      → add_outgoing_change api r h ≡ (ok n, h')
      → (current : ℕ) × (decode_revision api (api.kv.read h local_revision_key) ≡ ok current)
        × (n ≡ (current + 1) % 2 ^ 64)
        × (decode_revision api (api.kv.read h' local_revision_key) ≡ ok n)
  unfolding add_outgoing_change
  add_outgoing_change-ok r h h' n e =
      (let change : ℕ → RecordChange = λ v. record {
        id = r.id;
        schema_version = r.schema_version;
        updated_fields = r.updated_fields;
        local_revision = v;
      } in
        let (v, t, e1, e2) =
          >>=-eq-ok (next_local_revision api)
            (λ v. try (ok_or serialization (api.change_json.to_vec (change v))) >>= λ d.
              write_data api (codes "sync_out") (api.to_padded v) d >> return v)
            h e in
        let (d, t2, e3, e4) =
          >>=-eq-ok (try (ok_or serialization (api.change_json.to_vec (change v))))
            (λ d. write_data api (codes "sync_out") (api.to_padded v) d >> return v) t e2 in
        let (u, t3, e5, e6) =
          >>=-eq-ok (write_data api (codes "sync_out") (api.to_padded v) d) (λ _. return v) t2 e4 in
        let (current, read, next, stored) = next_local_revision-ok api laws h t v e1 in
        let k : StoreKey = spark_key (codes "sync_out") (api.to_padded v) in
        let w : api.kv.is_ok (write k d ∷ t2) ≡ true = ground (arith, e5) in
        let eh : h' ≡ write k d ∷ t = ground (arith, e3, e5, e6, w) in
        let en : v ≡ n = ground (arith, e6) in
        (
          current,
          read,
          ground (arith, en, next),
          counter-kept (api.to_padded v) d t h' n eh (ground (arith, stored, en)),
        ))

  -- Where what was written is read back, two changes added in turn that both return are numbered
  -- one after the other, modulo 2^64.
  pub add_outgoing_change-next :
      (r more : UnversionedRecordChange) (h h' h'' : Calls) (n n' : ℕ)
      → add_outgoing_change api r h ≡ (ok n, h')
      → add_outgoing_change api more h' ≡ (ok n', h'')
      → n' ≡ (n + 1) % 2 ^ 64
  add_outgoing_change-next r more h h' h'' n n' e e' =
      (let (c, rd, nx, st) = add_outgoing_change-ok r h h' n e in
        let (c', rd', nx', st') = add_outgoing_change-ok more h' h'' n' e' in
        ground (arith, st, rd', nx'))
