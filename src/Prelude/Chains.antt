-- ===== src/Prelude/Chains.antt =====
-- Chains of steps that may give nothing.
use mathlib.Core.Path.{◌≡◌, refl, ap}
use mathlib.Core.Option.{Option, none, some}
use native.Mathlib.Omega.{arith}

infixl 5 ◌>>=◌
abbrev pub ◌>>=◌ {ℓ κ} : {A : Type ℓ} {B : Type κ} → Option A → (A → Option B) → Option B
◌>>=◌ m f = elim m [ none ↦ none | some a ↦ f a ]

module _ {ℓ κ} {A : Type ℓ} {B : Type κ} where
  -- A step that gives a value goes on with it.
  pub chain_some : {m : Option A} {a : A} (f : A → Option B) → m ≡ some a → (m >>= f) ≡ f a
  chain_some f h = ap (λ o. o >>= f) h

  -- A chain that gives a value has a first step that does.
  pub chain_parts :
      (m : Option A) (f : A → Option B) (b : B)
      → (m >>= f) ≡ some b
      → (a : A) × (m ≡ some a) × (f a ≡ some b)
  chain_parts none f b h = ground arith
  chain_parts (some a) f b h = (a, refl, h)
