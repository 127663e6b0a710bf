-- ===== src/Examples/SparkRuns.antt =====
-- Runs of the Spark wallet's storage.
use orange_sdk.Prelude.{
  ℕ, suc, ap, ◌≡◌, ◌≢◌, ◌≤◌, refl, arith, true, false, Option, none, some, List, [], ◌∷◌, Text,
  text_beq, ok, ltb, All, length,
}
use orange_sdk.Platform.Kv.{Calls}
use orange_sdk.Spark.{SparkApi, SparkLaws, Payment}
use orange_sdk.Spark.Cells.{join_parts}
use orange_sdk.Spark.Cells.Prefixes.{sync_record_key-injective}
use orange_sdk.Spark.Payments.{apply_payment_update}
use orange_sdk.Spark.Payments.Final.{status_of, apply_payment_update-final}
use orange_sdk.Spark.Sync.{UnversionedRecordChange, add_outgoing_change}
use orange_sdk.Examples.Fixtures.{tally, untally, untally-tally}
use orange_sdk.Examples.WalletKv.{wallet_kv, wallet_kv_laws, no_format, find_call}

tally_digits : (n : ℕ) → All (λ c. c ≢ 95) (tally n)
tally_digits ℕ.zero = ((λ e. ground (arith, e)), tt)
tally_digits (suc n) = ((λ e. ground (arith, e)), tally_digits n)

-- A payment is encoded where it has no details.
abbrev payment_code : Payment → Option (List ℕ)
payment_code p = elim p.details [
  | none ↦ some (p.status ∷ p.timestamp ∷ p.rest ∷ p.id)
  | some d ↦ none
]

abbrev code_payment : List ℕ → Option Payment
code_payment (s ∷ t ∷ r ∷ id) =
    some (record { id = id; status = s; timestamp = t; details = none; rest = r })
code_payment _ = none

abbrev spark_api : SparkApi
spark_api = record {
  kv = wallet_kv;
  payment_json = record { to_vec = payment_code; from_slice = code_payment };
  metadata_json = no_format;
  deposit_json = no_format;
  swap_json = no_format;
  record_json = no_format;
  change_json = record {
    to_vec = λ c. some (c.local_revision ∷ c.updated_fields ∷ c.schema_version);
    from_slice = λ d. none;
  };
  -- Statuses 0 and 1 are final.
  is_final = λ s. ltb s 2;
  key_max_len = 120;
  to_decimal = tally;
  to_padded = tally;
  sha256_hex = λ s. [];
  is_utf8 = λ d. true;
  parse_u64 = untally;
}

spark_laws : SparkLaws spark_api
spark_laws = record {
  kv = wallet_kv_laws;
  payment_json = record {
    from_slice-to_vec = λ p d e. ground (arith, e);
    to_vec-ne-nil = λ p d e n. ground (arith, e, n);
  };
  to_decimal_digits = tally_digits;
  parse_u64-to_decimal = λ n small. untally-tally n;
  to_decimal_injective = λ m n e. ground (arith, untally-tally m, untally-tally n, ap untally e);
  is_utf8-to_decimal = λ n. refl;
}

-- A payment that waits, completes, and then is said to fail.
abbrev at_status : ℕ → Payment
at_status s = record { id = 3 ∷ []; status = s; timestamp = 9; details = none; rest = 0 }

abbrev completed : Calls
completed =
    (apply_payment_update spark_api (at_status 0)
      ((apply_payment_update spark_api (at_status 2) []).1)).1

completed_status : status_of spark_api spark_laws (3 ∷ []) completed ≡ ok (some 0)
unfolding apply_payment_update status_of find_call text_beq
completed_status = refl

failed_run : apply_payment_update spark_api (at_status 1) completed ≡ (ok false, completed)
unfolding apply_payment_update status_of find_call text_beq
failed_run = refl

apply_payment_update-final_example :
    (false ≡ false) × (status_of spark_api spark_laws (3 ∷ []) completed ≡ ok (some 0))
apply_payment_update-final_example =
    apply_payment_update-final spark_api spark_laws (at_status 1) 0 completed completed false
      completed_status refl failed_run

first_run :
    apply_payment_update spark_api (at_status 2) []
    ≡ (ok true, (apply_payment_update spark_api (at_status 2) []).1)
unfolding apply_payment_update find_call text_beq
first_run = refl

second_run :
    apply_payment_update spark_api (at_status 2) (apply_payment_update spark_api (at_status 2) []).1
    ≡ (
      ok false,
      (apply_payment_update spark_api
          (at_status 2)
          ((apply_payment_update spark_api (at_status 2) []).1)).1,
    )
unfolding apply_payment_update find_call text_beq
second_run = refl

abbrev parts : List Text
parts = (1 ∷ []) ∷ (2 ∷ 3 ∷ []) ∷ []

short_key : length (join_parts tally parts) ≤ 120
unfolding join_parts
short_key = omega arith

sync_record_key-injective_example : parts ≡ parts
sync_record_key-injective_example =
    sync_record_key-injective spark_api spark_laws parts parts refl short_key short_key refl

abbrev change : UnversionedRecordChange
change = record {
  id = record { type = 1 ∷ []; data_id = 2 ∷ [] };
  schema_version = [];
  updated_fields = 0;
}

first_change :
    add_outgoing_change spark_api change [] ≡ (ok 1, (add_outgoing_change spark_api change []).1)
unfolding add_outgoing_change find_call text_beq
first_change = refl

second_change :
    add_outgoing_change spark_api change (add_outgoing_change spark_api change []).1
    ≡ (ok 2, (add_outgoing_change spark_api change (add_outgoing_change spark_api change []).1).1)
unfolding add_outgoing_change find_call text_beq
second_change = refl
