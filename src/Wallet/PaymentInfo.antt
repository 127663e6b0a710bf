-- ===== src/Wallet/PaymentInfo.antt =====
-- `PaymentInfo::build` (orange-sdk/src/lib.rs): payment instructions with the amount to be paid.
use orange_sdk.Prelude.{
  ℕ, ◌≤◌, ◌≡◌, ◌⊎◌, ◌↔◌, inl, inr, refl, arith, ◌||◌, Option, none, some, Result, ok, err, ltb,
  nat_beq, if◌then◌else◌, unwrap_or, not, ◌&&◌, Bool-cases,
}
use orange_sdk.Platform.{AmountApi}

-- `PaymentInstructions`, by what the code asks of it: the least and the greatest amount, or the
-- fixed lightning and on-chain amounts.
pub data PaymentInstructions : Type 0 where
  configurable_amount : Option ℕ → Option ℕ → PaymentInstructions
  fixed_amount : Option ℕ → Option ℕ → PaymentInstructions

pub data PaymentInfoBuildError : Type 0 where
  -- The amount given, and the fixed lightning and on-chain amounts.
  amount_mismatch : ℕ → Option ℕ → Option ℕ → PaymentInfoBuildError
  missing_amount : PaymentInfoBuildError
  -- The amount given, and the least and the greatest amount.
  amount_out_of_range : ℕ → Option ℕ → Option ℕ → PaymentInfoBuildError

pub record PaymentInfo : Type 0 where
  pub instructions : PaymentInstructions
  pub amount : ℕ

abbrev pub Built : Type 0
Built = Result PaymentInfo PaymentInfoBuildError

abbrev info : PaymentInstructions → ℕ → Built
info i amount = ok (record { instructions = i; amount = amount })

build_configurable : AmountApi → Option ℕ → Option ℕ → Option ℕ → Built
build_configurable api least greatest none = err missing_amount
build_configurable api least greatest (some amount) =
    if ltb amount (unwrap_or least 0) || ltb (unwrap_or greatest api.max_amount) amount
    then err (amount_out_of_range amount least greatest)
    else info (configurable_amount least greatest) amount

-- One fixed amount, of the one kind or the other.
build_one : PaymentInstructions → PaymentInfoBuildError → ℕ → ℕ → Built
build_one i e fixed amount = if not (nat_beq amount fixed) then err e else info i amount

build_fixed : Option ℕ → Option ℕ → Option ℕ → Built
unfolding build_one
build_fixed (some ln) none none = info (fixed_amount (some ln) none) ln
build_fixed (some ln) none (some amount) =
    build_one (fixed_amount (some ln) none) (amount_mismatch amount (some ln) none) ln amount
build_fixed none (some chain) none = info (fixed_amount none (some chain)) chain
build_fixed none (some chain) (some amount) =
    build_one (fixed_amount none (some chain)) (amount_mismatch amount none (some chain)) chain
      amount
build_fixed (some ln) (some chain) none =
    if nat_beq ln chain then info (fixed_amount (some ln) (some chain)) ln else err missing_amount
build_fixed (some ln) (some chain) (some amount) =
    if not (nat_beq ln amount) && not (nat_beq chain amount)
    then err (amount_mismatch amount (some ln) (some chain))
    else info (fixed_amount (some ln) (some chain)) amount
build_fixed none none none = err missing_amount
build_fixed none none (some amount) = info (fixed_amount none none) amount

unfoldable pub build : AmountApi → PaymentInstructions → Option ℕ → Built
unfolding build_configurable build_fixed
build api (configurable_amount least greatest) amount = build_configurable api least greatest amount
build api (fixed_amount ln chain) amount = build_fixed ln chain amount

-- The amounts that the instructions allow.
abbrev pub Allows : AmountApi → PaymentInstructions → ℕ → Type 0
Allows api (configurable_amount least greatest) a =
    (unwrap_or least 0 ≤ a) × (a ≤ unwrap_or greatest api.max_amount)
Allows api (fixed_amount (some ln) none) a = a ≡ ln
Allows api (fixed_amount none (some chain)) a = a ≡ chain
Allows api (fixed_amount (some ln) (some chain)) a = (a ≡ ln) ⊎ (a ≡ chain)
Allows api (fixed_amount none none) a = Unit

-- An amount that is given is taken exactly if the instructions allow it, and then it is the amount
-- of the result, with the instructions unchanged.
pub build_given :
    (api : AmountApi) (i : PaymentInstructions) (a : ℕ)
    → (build api i (some a) ≡ ok (record { instructions = i; amount = a })) ↔ Allows api i a
unfolding build
build_given api (configurable_amount least greatest) a = ground arith
build_given api (fixed_amount (some ln) none) a = ground arith
build_given api (fixed_amount none (some chain)) a = ground arith
build_given api (fixed_amount (some ln) (some chain)) a = ground arith
build_given api (fixed_amount none none) a = ground arith

-- A fixed amount of the instructions.
abbrev pub IsFixed : PaymentInstructions → ℕ → Type 0
IsFixed (configurable_amount least greatest) a = ⊥
IsFixed (fixed_amount ln chain) a = (ln ≡ some a) ⊎ (chain ≡ some a)

-- The instructions have one fixed amount, or two that agree.
abbrev pub Fixes : PaymentInstructions → ℕ → Type 0
Fixes i a = IsFixed i a × ((b : ℕ) → IsFixed i b → b ≡ a)

-- The result is the amount that the instructions fix, or the error says that they fix none.
abbrev pub IsDetermined : PaymentInstructions → Built → Type 0
IsDetermined i (err e) = (e ≡ missing_amount) × ((a : ℕ) → ¬ Fixes i a)
IsDetermined i (ok r) = (r.instructions ≡ i) × Fixes i r.amount

-- With no amount given, the result is the one fixed amount of the instructions, with the
-- instructions unchanged, where they have one or two that agree; otherwise, so also where two fixed
-- amounts differ, it is the error that the amount is missing.
pub build-IsDetermined :
    (api : AmountApi) (i : PaymentInstructions) → IsDetermined i (build api i none)
unfolding build
build-IsDetermined api (configurable_amount least greatest) = (refl, λ a h. h.0)
build-IsDetermined api (fixed_amount (some ln) none) =
    (refl, (inl refl, λ b h. elim h [ inl e ↦ ground (arith, e) | inr e ↦ ground (arith, e) ]))
build-IsDetermined api (fixed_amount none (some chain)) =
    (refl, (inr refl, λ b h. elim h [ inl e ↦ ground (arith, e) | inr e ↦ ground (arith, e) ]))
build-IsDetermined api (fixed_amount none none) =
    (refl, λ a h. elim h.0 [ inl e ↦ ground (arith, e) | inr e ↦ ground (arith, e) ])
build-IsDetermined api (fixed_amount (some ln) (some chain)) =
    elim (Bool-cases (nat_beq ln chain)) [
      | inl same ↦ rw same (
        refl,
        (inl refl, λ b h. elim h [ inl e ↦ ground (arith, e) | inr e ↦ ground (arith, e, same) ]),
      )
      | inr other ↦
          rw other (refl, λ a h. ground (arith, h.1 ln (inl refl), h.1 chain (inr refl), other))
    ]
