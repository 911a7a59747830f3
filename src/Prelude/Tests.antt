-- ===== src/Prelude/Tests.antt =====
-- Boolean tests on the native numbers, the conditional, and the case splits on computed values.
use Prim.Native.Nat.{ℕ, compare, Ordering}
use mathlib.Core.Path.{◌≡◌, refl, sym, subst}
use mathlib.Core.Logic.{◌≢◌, ◌↔◌, ◌⊎◌, inl, inr}
use mathlib.Core.Bool.{Bool, true, false}
use mathlib.Core.Option.{Option, none, some}
use native.Mathlib.Omega.{arith}

abbrev pub ltb : ℕ → ℕ → Bool
ltb a b = elim (compare a b) [ Ordering.lt ↦ true | _ ↦ false ]

abbrev pub leb : ℕ → ℕ → Bool
leb a b = elim (compare a b) [ Ordering.gt ↦ false | _ ↦ true ]

infix 50 ◌==◌
abbrev pub ◌==◌ : ℕ → ℕ → Bool
a == b = elim (compare a b) [ Ordering.eq ↦ true | _ ↦ false ]

infix 1 if◌then◌else◌
abbrev pub if◌then◌else◌ {ℓ} : {A : Type ℓ} → Bool → A → A → A
if true then x else y = x
if false then x else y = y

pub ==_iff : (a b : ℕ) → ((a == b) ≡ true) ↔ (a ≡ b)
==_iff a b = ground arith

pub ==-refl : (a : ℕ) → (a == a) ≡ true
==-refl a = ground arith

pub ==-other : (a b : ℕ) → a ≢ b → (a == b) ≡ false
==-other a b other = ground (arith, ==_iff a b)

pub Bool-cases : (b : Bool) → (b ≡ true) ⊎ (b ≡ false)
Bool-cases true = inl refl
Bool-cases false = inr refl

module _ {ℓ} {A : Type ℓ} where
  pub Option-cases : (o : Option A) → (o ≡ none) ⊎ ((a : A) × (o ≡ some a))
  Option-cases none = inl refl
  Option-cases (some a) = inr (a, refl)

  abbrev pub is_some : Option A → Bool
  is_some none = false
  is_some (some a) = true

  -- The first value that is there.
  abbrev pub or_else : Option A → Option A → Option A
  or_else none o = o
  or_else (some a) o = some a

  -- What holds of the value, if there is one.
  abbrev pub AllSome {κ} : (A → Type κ) → Option A → Type κ
  AllSome P none = Unit
  AllSome P (some a) = P a

  pub AllSome-map {κ μ} :
      {P : A → Type κ} {Q : A → Type μ} (o : Option A)
      → ((a : A) → P a → Q a)
      → AllSome P o
      → AllSome Q o
  AllSome-map none f h = tt
  AllSome-map (some a) f h = f a h

  -- A write to one cell of a store that is a function.
  abbrev pub update : (ℕ → A) → ℕ → A → ℕ → A
  update f i v j = if j == i then v else f j

module _ {ℓ} {A : Type ℓ} where
  pub if-true : (b : Bool) (x y : A) → b ≡ true → (if b then x else y) ≡ x
  if-true b x y h = rw h

  pub if-false : (b : Bool) (x y : A) → b ≡ false → (if b then x else y) ≡ y
  if-false b x y h = rw h

module _ {ℓ} {A : Type ℓ} (f : ℕ → A) (i : ℕ) (v : A) where
  -- What holds of the new value, and of each old one at another index, holds of the updated store.
  pub update-others {κ} :
      (P : ℕ → A → Type κ) → P i v → ((j : ℕ) → j ≢ i → P j (f j)) → (j : ℕ) → P j (update f i v j)
  update-others P new old j = elim (Bool-cases (j == i)) [
    | inl same ↦ rw same (subst (λ k. P k v) (sym ((==_iff j i).0 same)) new)
    | inr other ↦ rw other (old j (λ e. ground (arith, ==_iff j i)))
  ]

  -- What holds of the new value, and of each old one, holds of the updated store.
  pub update-all {κ} :
      (P : ℕ → A → Type κ) → P i v → ((j : ℕ) → P j (f j)) → (j : ℕ) → P j (update f i v j)
  update-all P new old = update-others P new (λ j _. old j)
