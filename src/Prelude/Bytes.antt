-- ===== src/Prelude/Bytes.antt =====
-- The bytes of a memory, a function of the address, as a list.
use Prim.Native.Nat.{ℕ, zero, suc, ◌+◌, ◌<◌}
use mathlib.Core.Path.{◌≡◌, refl, ap, ◌∙◌}
use mathlib.Core.List.{List, [], ◌∷◌}
use native.Mathlib.Omega.{arith}
use kos_tool.Prelude.Lists.{length, All}

-- The `n` bytes from `at` on.
abbrev pub bytes_from : ℕ → ℕ → (ℕ → ℕ) → List ℕ
bytes_from zero at bytes = []
bytes_from (suc n) at bytes = bytes at ∷ bytes_from n (at + 1) bytes

pub length-bytes_from : (n at : ℕ) (f : ℕ → ℕ) → length (bytes_from n at f) ≡ n
length-bytes_from zero at f = refl
length-bytes_from (suc n) at f = ap suc (length-bytes_from n (at + 1) f)

pub bytes_from_eq :
    (n at at2 : ℕ) (f g : ℕ → ℕ)
    → ((k : ℕ) → k < n → f (at + k) ≡ g (at2 + k))
    → bytes_from n at f ≡ bytes_from n at2 g
bytes_from_eq zero at at2 f g same = refl
bytes_from_eq (suc n) at at2 f g same =
    let first : f at ≡ g at2 = ap f (omega arith) ∙ same 0 (omega arith) ∙ ap g (omega arith) in
    let rest =
      bytes_from_eq n (at + 1) (at2 + 1) f g
        (λ k h. ap f (omega arith) ∙ same (suc k) (omega arith) ∙ ap g (omega arith)) in
    ground (arith, first, rest)

pub bytes_from-All :
    (n at : ℕ) (f : ℕ → ℕ) → ((q : ℕ) → f q < 256) → All (λ b. b < 256) (bytes_from n at f)
bytes_from-All zero at f small = tt
bytes_from-All (suc n) at f small = (small at, bytes_from-All n (at + 1) f small)
