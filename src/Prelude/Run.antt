-- ===== src/Prelude/Run.antt =====
-- Code that runs on a state and may panic: `none` is a panic (`expect`, `unwrap`, `panic!`).
use mathlib.Core.Option.{Option, none, some}
use mathlib.Core.Path.{◌≡◌, refl, sym, subst}

abbrev pub Run : Type 0 → Type 0 → Type 0
Run S A = S → Option (A × S)

module _ {S : Type 0} where
  abbrev pub pure : {A : Type 0} → A → Run S A
  pure a s = some (a, s)

  abbrev pub panic : {A : Type 0} → Run S A
  panic s = none

  abbrev pub gets : {A : Type 0} → (S → A) → Run S A
  gets f s = some (f s, s)

  abbrev pub modify : (S → S) → Run S (Unit {0})
  modify f s = some (tt, f s)

  infixl 5 ◌>>=◌ ◌>>◌
  abbrev pub ◌>>=◌ : {A B : Type 0} → Run S A → (A → Run S B) → Run S B
  ◌>>=◌ m f s = elim (m s) [ none ↦ none | some (a, s') ↦ f a s' ]

  abbrev pub ◌>>◌ : {A B : Type 0} → Run S A → Run S B → Run S B
  m >> k = m >>= λ _. k

-- The code returns, and its result and the state after it have the property.
abbrev pub Returns : {S A : Type 0} → (A → S → Type 0) → Option (A × S) → Type 0
Returns P none = ⊥
Returns P (some (a, s)) = P a s

-- To use a known result.
pub Returns-of_eq :
    {S A : Type 0} (P : A → S → Type 0) {a : A} {s : S} {o : Option (A × S)}
    → o ≡ some (a, s)
    → P a s
    → Returns P o
Returns-of_eq P e h = subst (Returns P) (sym e) h

module _ {S : Type 0} where
  -- A sequence returns if its parts do.
  pub Returns->>= :
      {A B : Type 0} (P : A → S → Type 0) (Q : B → S → Type 0) (m : Run S A) (f : A → Run S B)
      (s : S)
      → Returns P (m s)
      → ((a : A) (s' : S) → P a s' → Returns Q (f a s'))
      → Returns Q ((m >>= f) s)
  Returns->>= {A} P Q m f s h k = go (m s) h
    where
      go :
          (o : Option (A × S))
          → Returns P o
          → Returns Q (elim o [ none ↦ none | some (a, s') ↦ f a s' ])
      go none e = e
      go (some (a, s')) e = k a s' e

  -- The parts of a sequence that returned.
  pub >>=-eq-some :
      {A B : Type 0} (m : Run S A) (f : A → Run S B) (s : S) {b : B} {s' : S}
      → (m >>= f) s ≡ some (b, s')
      → (a : A) × (t : S) × (m s ≡ some (a, t)) × (f a t ≡ some (b, s'))
  >>=-eq-some {A} {B} m f s {b} {s'} h = go (m s) refl h
    where
      go :
          (o : Option (A × S))
          → m s ≡ o
          → ◌≡◌ {A = Option (B × S)} (elim o [ none ↦ none | some (a, t) ↦ f a t ]) (some (b, s'))
          → (a : A) × (t : S) × (m s ≡ some (a, t)) × (f a t ≡ some (b, s'))
      go none e k = cc
      go (some (a, t)) e k = (a, t, e, k)
