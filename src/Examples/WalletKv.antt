-- ===== src/Examples/WalletKv.antt =====
-- An in-memory key-value store with removal, for which the laws hold, and formats of numbers.
use orange_sdk.Prelude.{
  ◌≡◌, refl, arith, true, Option, none, some, [], ◌∷◌, Text, if◌then◌else◌, Bool-cases, inl, inr,
  text_beq, text_beq_iff, ap, ◌↔◌,
}
use orange_sdk.Platform.{StoreKey, ReadResult, found, not_found}
use orange_sdk.Platform.Kv.{Kv, KvLaws, Calls, write, remove, Codec}
use orange_sdk.Examples.Fixtures.{key_beq, key_beq_iff}

-- The newest call on the key.
unfoldable pub find_call : Calls → StoreKey → ReadResult
unfolding key_beq
find_call [] k = not_found
find_call (write j d ∷ h) k = if key_beq j k then found d else find_call h k
find_call (remove j ∷ h) k = if key_beq j k then not_found else find_call h k

abbrev pub wallet_kv : Kv
wallet_kv = record { is_ok = λ _. true; read = find_call; list = λ _ _ _. some [] }

pub wallet_kv_laws : KvLaws wallet_kv
unfolding find_call
wallet_kv_laws = record {
  read-write_self = λ k d h _. rw ((key_beq_iff k k).1 refl);
  read-write_ne = λ j k d h ne. elim (Bool-cases (key_beq j k)) [
    | inl same ↦ absurd (ne ((key_beq_iff j k).0 same))
    | inr other ↦ rw other
  ];
  read-remove_self = λ k h _. rw ((key_beq_iff k k).1 refl);
  read-remove_ne = λ j k h ne. elim (Bool-cases (key_beq j k)) [
    | inl same ↦ absurd (ne ((key_beq_iff j k).0 same))
    | inr other ↦ rw other
  ];
}

-- A format that encodes nothing, for records that a run does not touch.
abbrev pub no_format : {A : Type 0} → Codec A
no_format = record { to_vec = λ _. none; from_slice = λ _. none }

-- Equality of values by their encodings.
pub eq_by :
    {A : Type 0} (enc : A → Text) (dec : Text → Option A)
    → ((a : A) → dec (enc a) ≡ some a)
    → (a b : A) → (text_beq (enc a) (enc b) ≡ true) ↔ (a ≡ b)
eq_by enc dec law a b = (
  (λ e. ground (arith, law a, law b, ap dec ((text_beq_iff (enc a) (enc b)).0 e))),
  (λ e. (text_beq_iff (enc a) (enc b)).1 (ap enc e)),
)
