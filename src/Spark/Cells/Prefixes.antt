-- ===== src/Spark/Cells/Prefixes.antt =====
-- The keys that `sync_record_key` (orange-sdk/src/trusted_wallet/spark/spark_store.rs) makes of
-- texts with their lengths in front can be taken apart again.
use orange_sdk.Prelude.{◌≡◌, ◌≢◌, ◌≤◌, refl, List, [], ◌∷◌, ◌++◌, Text, arith, length, All}
use orange_sdk.Spark.{SparkApi, SparkLaws}
use orange_sdk.Spark.Cells.{join_parts, sync_record_key}

-- A text ends at its first `_`.
split_unique :
    (a b x y : Text)
    → All (λ c. c ≢ 95) a
    → All (λ c. c ≢ 95) b
    → a ++ (95 ∷ x) ≡ b ++ (95 ∷ y)
    → (a ≡ b) × (x ≡ y)
split_unique [] [] x y ha hb e = (refl, ground (arith, e))
split_unique [] (d ∷ b) x y ha hb e = absurd (hb.0 (ground (arith, e)))
split_unique (c ∷ a) [] x y ha hb e = absurd (ha.0 (ground (arith, e)))
split_unique (c ∷ a) (d ∷ b) x y ha hb e =
    (let (ab, xy) = split_unique a b x y ha.1 hb.1 (ground (arith, e)) in
      (ground (arith, ab, e), xy))

append_unique : (p q x y : Text) → length p ≡ length q → p ++ x ≡ q ++ y → (p ≡ q) × (x ≡ y)
append_unique [] [] x y l e = (refl, e)
append_unique [] (d ∷ q) x y l e = absurd (ground (arith, l))
append_unique (c ∷ p) [] x y l e = absurd (ground (arith, l))
append_unique (c ∷ p) (d ∷ q) x y l e =
    (let (pq, xy) = append_unique p q x y (omega (arith, l)) (ground (arith, e)) in
      (ground (arith, pq, e), xy))

module _ (api : SparkApi) (laws : SparkLaws api) where
  join_parts_injective :
      (ps qs : List Text)
      → length ps ≡ length qs
      → join_parts api.to_decimal ps ≡ join_parts api.to_decimal qs
      → ps ≡ qs
  unfolding join_parts
  join_parts_injective [] [] l e = refl
  join_parts_injective [] (q ∷ qs) l e = absurd (ground (arith, l))
  join_parts_injective (p ∷ ps) [] l e = absurd (ground (arith, l))
  join_parts_injective (p ∷ ps) (q ∷ qs) l e =
      (let (lens, tails) =
          split_unique (api.to_decimal (length p)) (api.to_decimal (length q))
            (p ++ join_parts api.to_decimal ps) (q ++ join_parts api.to_decimal qs)
            (laws.to_decimal_digits (length p)) (laws.to_decimal_digits (length q)) e in
        let (pq, rest) =
          append_unique p q (join_parts api.to_decimal ps) (join_parts api.to_decimal qs)
            (laws.to_decimal_injective (length p) (length q) lens) tails in
        let more : ps ≡ qs = join_parts_injective ps qs (omega (arith, l)) rest in
        ground (arith, pq, more))

  -- Where decimals hold no `_` and are read back, two lists of as many parts whose joined texts fit
  -- the longest key have the same key only if their parts are the same.
  pub sync_record_key-injective :
      (ps qs : List Text)
      → length ps ≡ length qs
      → length (join_parts api.to_decimal ps) ≤ api.key_max_len
      → length (join_parts api.to_decimal qs) ≤ api.key_max_len
      → sync_record_key api ps ≡ sync_record_key api qs
      → ps ≡ qs
  unfolding sync_record_key
  sync_record_key-injective ps qs l fp fq e =
      join_parts_injective ps qs l (ground (arith, fp, fq, e))
