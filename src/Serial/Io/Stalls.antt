-- ===== src/Serial/Io/Stalls.antt =====
-- Two programs on a line that come to wait for each other.
use kos_tool.Prelude.{ℕ, List, [], ◌∷◌, ◌++◌}
use kos_tool.Serial.Io.{Io, put, get, ◌>>=◌}
use kos_tool.Serial.Io.Meets.{Meets, done, tool_puts, tool_gets, loader_puts, loader_gets}

-- The steps are those of `Meets`; at the end both programs read and both lines are empty.
pub data Stalls {A B : Type 0} : List ℕ → List ℕ → Io A → Io B → Type 0 where
  both_wait : {k : ℕ → Io A} {j : ℕ → Io B} → Stalls [] [] (get k) (get j)
  tool_puts_on :
      {down up : List ℕ} {x : ℕ} {p : Io A} {q : Io B}
      → Stalls (down ++ (x ∷ [])) up p q
      → Stalls down up (put x p) q
  tool_gets_on :
      {down up : List ℕ} {x : ℕ} {k : ℕ → Io A} {q : Io B}
      → Stalls down up (k x) q
      → Stalls down (x ∷ up) (get k) q
  loader_puts_on :
      {down up : List ℕ} {x : ℕ} {p : Io A} {q : Io B}
      → Stalls down (up ++ (x ∷ [])) p q
      → Stalls down up p (put x q)
  loader_gets_on :
      {down up : List ℕ} {x : ℕ} {p : Io A} {k : ℕ → Io B}
      → Stalls down up p (k x)
      → Stalls (x ∷ down) up p (get k)

-- An exchange that works, and then a stall.
pub Stalls-after :
    {A B C D : Type 0} {a : A} {b : B} {down up : List ℕ} {p : Io A} {q : Io B} (f : A → Io C)
    (g : B → Io D)
    → Meets a b down up p q
    → Stalls [] [] (f a) (g b)
    → Stalls down up (p >>= f) (q >>= g)
Stalls-after f g done next = next
Stalls-after f g (tool_puts m) next = tool_puts_on (Stalls-after f g m next)
Stalls-after f g (tool_gets m) next = tool_gets_on (Stalls-after f g m next)
Stalls-after f g (loader_puts m) next = loader_puts_on (Stalls-after f g m next)
Stalls-after f g (loader_gets m) next = loader_gets_on (Stalls-after f g m next)
