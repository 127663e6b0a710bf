-- ===== src/Examples/CashuFixtures.antt =====
-- Formats of the Cashu wallet's records, and a database for the runs.
use orange_sdk.Prelude.{
  ℕ, suc, ◌≡◌, ◌≢◌, refl, arith, Bool, true, false, Option, none, some, List, [], ◌∷◌, Text,
  if◌then◌else◌, text_beq, ap, ◌↔◌,
}
use orange_sdk.Platform.Kv.{CodecLaws}
use orange_sdk.Cashu.{
  CashuApi, CashuLaws, ProofInfo, ProofState, unspent, reserved, pending, other_state, ProofsBlob,
  MintQuote, WalletSaga, Transaction,
}
use orange_sdk.Examples.WalletKv.{wallet_kv, wallet_kv_laws, no_format, eq_by}

abbrev pub option_code : Option ℕ → ℕ
option_code none = 0
option_code (some n) = suc n

abbrev pub code_option : ℕ → Option ℕ
code_option ℕ.zero = none
code_option (suc n) = some n

abbrev pub state_code : ProofState → ℕ
state_code unspent = 0
state_code reserved = 1
state_code pending = 2
state_code (other_state n) = suc (suc (suc n))

abbrev pub code_state : ℕ → ProofState
code_state ℕ.zero = unspent
code_state (suc ℕ.zero) = reserved
code_state (suc (suc ℕ.zero)) = pending
code_state (suc (suc (suc n))) = other_state n

code_option_code : (o : Option ℕ) → code_option (option_code o) ≡ o
code_option_code none = refl
code_option_code (some n) = refl

code_state_code : (s : ProofState) → code_state (state_code s) ≡ s
code_state_code unspent = refl
code_state_code reserved = refl
code_state_code pending = refl
code_state_code (other_state n) = refl

abbrev pub proof_code : ProofInfo → List ℕ → List ℕ
proof_code p rest =
    p.y
    ∷ p.amount
    ∷ p.mint_url
    ∷ state_code p.state
    ∷ option_code p.spending_condition
    ∷ p.unit
    ∷ option_code p.used_by_operation
    ∷ option_code p.derivation_index
    ∷ p.rest
    ∷ rest

abbrev pub proofs_code : List ProofInfo → List ℕ
proofs_code [] = []
proofs_code (p ∷ ps) = proof_code p (proofs_code ps)

abbrev pub code_proofs : List ℕ → List ProofInfo
code_proofs (y ∷ a ∷ m ∷ s ∷ c ∷ u ∷ o ∷ d ∷ r ∷ rest) =
    record {
      y = y;
      amount = a;
      mint_url = m;
      state = code_state s;
      spending_condition = code_option c;
      unit = u;
      used_by_operation = code_option o;
      derivation_index = code_option d;
      rest = r;
    }
    ∷ code_proofs rest
code_proofs _ = []

code_proofs_code : (ps : List ProofInfo) → code_proofs (proofs_code ps) ≡ ps
code_proofs_code [] = refl
code_proofs_code (p ∷ ps) = rw (
  code_proofs_code ps,
  code_state_code p.state,
  code_option_code p.spending_condition,
  code_option_code p.used_by_operation,
  code_option_code p.derivation_index,
)

abbrev pub first : List ProofInfo → Option ProofInfo
first [] = none
first (p ∷ ps) = some p

pub proof_beq_iff :
    (p q : ProofInfo) → (text_beq (proofs_code (p ∷ [])) (proofs_code (q ∷ [])) ≡ true) ↔ (p ≡ q)
proof_beq_iff =
    eq_by (λ p. proofs_code (p ∷ [])) (λ d. first (code_proofs d))
      λ p. ap first (code_proofs_code (p ∷ []))

abbrev pub blob_code : ProofsBlob → List ℕ
blob_code blob = blob.schema_version ∷ proofs_code blob.proofs

abbrev pub code_blob : List ℕ → Option ProofsBlob
code_blob [] = none
code_blob (v ∷ d) = some (record { schema_version = v; proofs = code_proofs d })

blob_laws : CodecLaws (record { to_vec = λ b. some (blob_code b); from_slice = code_blob })
blob_laws = record {
  from_slice-to_vec = λ b d e. ground (arith, e, code_proofs_code b.proofs);
  to_vec-ne-nil = λ b d e n. ground (arith, e, n);
}

abbrev pub transaction_code : Transaction → List ℕ
transaction_code t = t.mint_url ∷ t.direction ∷ t.unit ∷ t.rest ∷ t.ys

abbrev pub code_transaction : List ℕ → Option Transaction
code_transaction (m ∷ d ∷ u ∷ r ∷ ys) =
    some (record { ys = ys; mint_url = m; direction = d; unit = u; rest = r })
code_transaction _ = none

-- A quote is encoded where nobody, or the operation with the empty name, uses it.
abbrev pub quote_code : MintQuote → Option (List ℕ)
quote_code q = elim q.used_by_operation [
  | none ↦ some (0 ∷ q.version ∷ q.amount_issued ∷ (if q.is_bolt12 then 1 else 0) ∷ q.rest ∷ q.id)
  | some s ↦ elim s [
    | [] ↦ some (1 ∷ q.version ∷ q.amount_issued ∷ (if q.is_bolt12 then 1 else 0) ∷ q.rest ∷ q.id)
    | b ∷ t ↦ none
  ]
]

abbrev pub code_bool : ℕ → Bool
code_bool ℕ.zero = false
code_bool (suc n) = true

abbrev pub code_user : ℕ → Option Text
code_user ℕ.zero = none
code_user (suc n) = some []

abbrev pub code_quote : List ℕ → Option MintQuote
code_quote (u ∷ v ∷ a ∷ b ∷ r ∷ id) = some (record {
  id = id;
  version = v;
  used_by_operation = code_user u;
  amount_issued = a;
  is_bolt12 = code_bool b;
  rest = r;
})
code_quote _ = none

quote_law : (q : MintQuote) (d : List ℕ) → quote_code q ≡ some d → code_quote d ≡ some q
quote_law q d e = ground (arith, e)

quote_not_empty : (q : MintQuote) (d : List ℕ) → quote_code q ≡ some d → d ≢ []
quote_not_empty q d e n = ground (arith, e, n)

abbrev pub code_saga : List ℕ → Option WalletSaga
code_saga (i ∷ v ∷ r ∷ []) = some (record { id = i; version = v; rest = r })
code_saga _ = none

abbrev pub code_u32 : List ℕ → Option ℕ
code_u32 (n ∷ []) = some n
code_u32 _ = none

abbrev pub cashu_api : CashuApi
cashu_api = record {
  kv = wallet_kv;
  proof_eq = record {
    beq = λ p q. text_beq (proofs_code (p ∷ [])) (proofs_code (q ∷ []));
    beq_iff = proof_beq_iff;
  };
  transaction_eq = record {
    beq = λ s t. text_beq (transaction_code s) (transaction_code t);
    beq_iff = eq_by transaction_code code_transaction λ t. refl;
  };
  proofs_json = record { to_vec = λ b. some (blob_code b); from_slice = code_blob };
  strings_json = no_format;
  mint_quote_json = record { to_vec = quote_code; from_slice = code_quote };
  melt_quote_json = no_format;
  saga_json = record {
    to_vec = λ s. some (s.id ∷ s.version ∷ s.rest ∷ []);
    from_slice = code_saga;
  };
  transaction_json = record {
    to_vec = λ t. some (transaction_code t);
    from_slice = code_transaction;
  };
  keyset_json = no_format;
  keysets_json = no_format;
  keys_json = no_format;
  mint_url_json = no_format;
  mint_info_json = no_format;
  u32_json = record { to_vec = λ n. some (n ∷ []); from_slice = code_u32 };
  uuid_to_string = λ id. [];
  id_to_string = λ id. id ∷ [];
  transaction_id = λ t. t.rest ∷ [];
  transaction_id_new = λ ys. ys;
  hex_encode_y = λ y. y ∷ [];
  hex_encode = λ s. s;
  hash_hex = λ url. url ∷ [];
  id_u32 = λ id. id ∷ [];
  id_from_str = λ s. none;
  verify_id = λ k. true;
}

pub cashu_laws : CashuLaws cashu_api
cashu_laws = record {
  kv = wallet_kv_laws;
  proofs_json = blob_laws;
  mint_quote_json = record { from_slice-to_vec = quote_law; to_vec-ne-nil = quote_not_empty };
  saga_json = record {
    from_slice-to_vec = λ s d e. ground (arith, e);
    to_vec-ne-nil = λ s d e n. ground (arith, e, n);
  };
  u32_json = record {
    from_slice-to_vec = λ s d e. ground (arith, e);
    to_vec-ne-nil = λ s d e n. ground (arith, e, n);
  };
}
