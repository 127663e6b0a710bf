-- ===== src/Prelude/Eq.antt =====
-- `PartialEq` as an interface, for the keys of the maps.
use mathlib.Core.Path.{◌≡◌}
use mathlib.Core.Logic.{◌↔◌}
use mathlib.Core.Bool.{Bool, true}
use Prim.Native.Nat.{ℕ}
use orange_sdk.Prelude.Tests.{nat_beq, nat_beq_iff}

infix 50 ◌==◌
-- `beq` is the method `eq`, and decides equality.
pub record PartialEq {ℓ} (Key : Type ℓ) : Type ℓ where
  pub beq : Key → Key → Bool
  pub beq_iff : (x y : Key) → (beq x y ≡ true) ↔ (x ≡ y)

abbrev pub ◌==◌ {ℓ} : {Key : Type ℓ} ⦃e : PartialEq Key⦄ → Key → Key → Bool
◌==◌ ⦃e⦄ = e.beq

instance abbrev pub nat_eq : PartialEq ℕ
nat_eq = record { beq = nat_beq; beq_iff = nat_beq_iff }
