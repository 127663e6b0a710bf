-- ===== src/Prelude/Act.antt =====
-- Code that runs on a state and returns a `Result`: what was done before an error stays done, so
-- the state comes back beside the error too.
use mathlib.Core.Path.{◌≡◌, refl, sym, subst}
use mathlib.Core.Bool.{Bool, true, false}
use orange_sdk.Prelude.Tests.{if◌then◌else◌}
use orange_sdk.Prelude.Texts.{Result, ok, err}

abbrev pub Act : Type 0 → Type 0 → Type 0 → Type 0
Act S E A = S → Result A E × S

module _ {S E : Type 0} where
  abbrev pub return : {A : Type 0} → A → Act S E A
  return a s = (ok a, s)

  abbrev pub throw : {A : Type 0} → E → Act S E A
  throw e s = (err e, s)

  -- The `?` operator on a plain result.
  abbrev pub try : {A : Type 0} → Result A E → Act S E A
  try r s = (r, s)

  abbrev pub asks : {A : Type 0} → (S → A) → Act S E A
  asks f s = (ok (f s), s)

  abbrev pub modifies : (S → S) → Act S E (Unit {0})
  modifies f s = (ok tt, f s)

  -- The rest of a block, on the end of its first part.
  abbrev pub and_then : {A B : Type 0} → (A → Act S E B) → Result A E × S → Result B E × S
  and_then f (ok a, s) = f a s
  and_then f (err e, s) = (err e, s)

  infixl 5 ◌>>=◌ ◌>>◌
  abbrev pub ◌>>=◌ : {A B : Type 0} → Act S E A → (A → Act S E B) → Act S E B
  ◌>>=◌ m f s = and_then f (m s)

  abbrev pub ◌>>◌ : {A B : Type 0} → Act S E A → Act S E B → Act S E B
  m >> k = m >>= λ _. k

-- `map_err`, or the `From` of the `?` operator.
abbrev pub end_map_err : {S E F A : Type 0} → (E → F) → Result A E × S → Result A F × S
end_map_err f (ok a, s) = (ok a, s)
end_map_err f (err e, s) = (err (f e), s)

abbrev pub map_err : {S E F A : Type 0} → (E → F) → Act S E A → Act S F A
map_err f m s = end_map_err f (m s)

-- The result and the state that the code ends with have the property.
pub record Ends {S E A : Type 0} (Q : Result A E → S → Type 0) (p : Result A E × S) : Type 0 where
  pub end : Q p.0 p.1

module _ {S E : Type 0} where
  -- A sequence, whose first part may end in an error.
  pub Ends->>= :
      {A B : Type 0} (P : Result A E → S → Type 0) (Q : Result B E → S → Type 0) (m : Act S E A)
      (f : A → Act S E B) (s : S)
      → Ends P (m s)
      → ((a : A) (s' : S) → P (ok a) s' → Ends Q (f a s'))
      → ((e : E) (s' : S) → P (err e) s' → Q (err e) s')
      → Ends Q ((m >>= f) s)
  Ends->>= {A} P Q m f s h k l = go (m s) h
    where
      go : (p : Result A E × S) → Ends P p → Ends Q (and_then f p)
      go (ok a, s') h = k a s' h.end
      go (err e, s') h = record { end = l e s' h.end }

  -- The parts of a sequence that ended well.
  pub >>=-eq-ok :
      {A B : Type 0} (m : Act S E A) (f : A → Act S E B) (s : S) {b : B} {s' : S}
      → (m >>= f) s ≡ (ok b, s')
      → (a : A) × (t : S) × (m s ≡ (ok a, t)) × (f a t ≡ (ok b, s'))
  >>=-eq-ok {A} {B} m f s {b} {s'} h = go (m s) refl h
    where
      go :
          (p : Result A E × S)
          → m s ≡ p
          → and_then f p ≡ (ok b, s')
          → (a : A) × (t : S) × (m s ≡ (ok a, t)) × (f a t ≡ (ok b, s'))
      go (ok a, t) e k = (a, t, e, k)
      go (err x, t) e k = cc

pub Ends-map_err :
    {S E F A : Type 0} (P : Result A E → S → Type 0) (Q : Result A F → S → Type 0) (g : E → F)
    (m : Act S E A) (s : S)
    → Ends P (m s)
    → ((a : A) (s' : S) → P (ok a) s' → Q (ok a) s')
    → ((e : E) (s' : S) → P (err e) s' → Q (err (g e)) s')
    → Ends Q (map_err g m s)
Ends-map_err {S} {E} {F} {A} P Q g m s h k l = go (m s) h
  where
    go : (p : Result A E × S) → Ends P p → Ends Q (end_map_err g p)
    go (ok a, s') h = record { end = k a s' h.end }
    go (err e, s') h = record { end = l e s' h.end }

-- To use a known end.
pub Ends-of_eq :
    {S E A : Type 0} (Q : Result A E → S → Type 0) {r : Result A E} {s : S} {p : Result A E × S}
    → p ≡ (r, s)
    → Q r s
    → Ends Q p
Ends-of_eq Q e h = subst (Ends Q) (sym e) (record { end = h })

-- Code that only reads the state.
pub record Reads {S E A : Type 0} (s : S) (p : Result A E × S) : Type 0 where
  pub same : p.1 ≡ s

module _ {S E : Type 0} where
  pub Reads->>= :
      {A B : Type 0} (m : Act S E A) (f : A → Act S E B) (s : S)
      → Reads s (m s)
      → ((a : A) → Reads s (f a s))
      → Reads s ((m >>= f) s)
  Reads->>= {A} m f s h k = record { same = go (m s) h.same }
    where
      go : (p : Result A E × S) → p.1 ≡ s → (and_then f p).1 ≡ s
      go (ok a, t) h = rw h ((k a).same)
      go (err e, t) h = h

  -- A sequence whose first part only reads.
  pub Ends-Reads :
      {A B : Type 0} (Q : Result B E → S → Type 0) (m : Act S E A) (f : A → Act S E B) (s : S)
      → Reads s (m s)
      → ((a : A) → m s ≡ (ok a, s) → Ends Q (f a s))
      → ((e : E) → m s ≡ (err e, s) → Q (err e) s)
      → Ends Q ((m >>= f) s)
  Ends-Reads {A} Q m f s h k l = go (m s) refl h.same
    where
      go : (p : Result A E × S) → m s ≡ p → p.1 ≡ s → Ends Q (and_then f p)
      go (ok a, t) e h = subst (λ t. Ends Q (f a t)) (sym h) (k a (rw (e, h)))
      go (err x, t) e h = record { end = subst (Q (err x)) (sym h) (l x (rw (e, h))) }

-- What holds at every end of the code holds at the end it has.
pub Ends-at :
    {S E A : Type 0} (Q : Result A E → S → Type 0) {r : Result A E} {s : S} {p : Result A E × S}
    → p ≡ (r, s)
    → Ends Q p
    → Q r s
Ends-at Q e h = (subst (Ends Q) e h).end

pub Ends-if :
    {S E A : Type 0} (Q : Result A E → S → Type 0) (b : Bool) (m n : Act S E A) (s : S)
    → (b ≡ true → Ends Q (m s))
    → (b ≡ false → Ends Q (n s))
    → Ends Q ((if b then m else n) s)
Ends-if Q true m n s h k = h refl
Ends-if Q false m n s h k = k refl

pub Reads-if :
    {S E A : Type 0} (b : Bool) (m n : Act S E A) (s : S)
    → Reads s (m s)
    → Reads s (n s)
    → Reads s ((if b then m else n) s)
Reads-if true m n s h k = h
Reads-if false m n s h k = k

pub map_err-eq-ok :
    {S E F A : Type 0} (g : E → F) (m : Act S E A) (s : S) {a : A} {s' : S}
    → map_err g m s ≡ (ok a, s')
    → m s ≡ (ok a, s')
map_err-eq-ok {S} {E} {F} {A} g m s {a} {s'} h = go (m s) h
  where
    go : (p : Result A E × S) → end_map_err g p ≡ (ok a, s') → p ≡ (ok a, s')
    go (ok b, t) k = cc
    go (err x, t) k = cc
