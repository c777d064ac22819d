-- ===== src/Serial/Io.antt =====
-- A program on a serial line: `serial_io_putchar` and `serial_io_getchar` of the loader, the
-- `write` and `read` of the tool. A read blocks until a byte is there.
use mathlib.Core.Path.{fun_ext}
use kos_tool.Prelude.{ℕ, zero, suc, ◌≡◌, refl, ap, List, [], ◌∷◌}
pub mod Meets
pub mod Stalls

-- `stuck` is a loop that has used up its fuel.
pub data Io (A : Type 0) : Type 0 where
  ret : A → Io A
  put : ℕ → Io A → Io A
  get : (ℕ → Io A) → Io A
  stuck : Io A

infixl 5 ◌>>=◌ ◌>>◌
abbrev pub ◌>>=◌ : {A B : Type 0} → Io A → (A → Io B) → Io B
ret a >>= f = f a
put x p >>= f = put x (p >>= f)
get k >>= f = get (λ x. k x >>= f)
stuck >>= f = stuck

abbrev pub ◌>>◌ : {A B : Type 0} → Io A → Io B → Io B
m >> k = m >>= λ _. k

abbrev pub put_byte : ℕ → Io (Unit {0})
put_byte x = put x (ret tt)

abbrev pub get_byte : Io ℕ
get_byte = get (λ x. ret x)

unfoldable pub put_all : List ℕ → Io (Unit {0})
put_all [] = ret tt
put_all (x ∷ xs) = put x (put_all xs)

unfoldable pub get_all : ℕ → Io (List ℕ)
get_all zero = ret []
get_all (suc n) = get (λ x. get_all n >>= λ xs. ret (x ∷ xs))

-- The order of chaining does not matter.
pub chain_assoc :
    {A B C : Type 0} (m : Io A) (f : A → Io B) (g : B → Io C)
    → ((m >>= f) >>= g) ≡ (m >>= λ x. f x >>= g)
chain_assoc (ret a) f g = refl
chain_assoc (put x p) f g = ap (put x) (chain_assoc p f g)
chain_assoc (get k) f g = ap get (fun_ext λ x. chain_assoc (k x) f g)
chain_assoc stuck f g = refl
