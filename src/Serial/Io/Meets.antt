-- ===== src/Serial/Io/Meets.antt =====
-- Two programs on the two ends of a line: the tool of host/src and the loader of client/common.
use kos_tool.Prelude.{ℕ, ◌≡◌, sym, subst, List, [], ◌∷◌, ◌++◌, length}
use kos_tool.Serial.Io.{Io, ret, put, get, ◌>>=◌, ◌>>◌, put_byte, get_byte, put_all, get_all}

-- The bytes on their way down to the loader and up to the tool, what is left of the programs, and
-- their results. A step takes the oldest byte of a line or adds the newest; at the end both
-- programs are done and no byte is left over.
pub data Meets {A B : Type 0} (a : A) (b : B) : List ℕ → List ℕ → Io A → Io B → Type 0 where
  done : Meets a b [] [] (ret a) (ret b)
  tool_puts :
      {down up : List ℕ} {x : ℕ} {p : Io A} {q : Io B}
      → Meets a b (down ++ (x ∷ [])) up p q
      → Meets a b down up (put x p) q
  tool_gets :
      {down up : List ℕ} {x : ℕ} {k : ℕ → Io A} {q : Io B}
      → Meets a b down up (k x) q
      → Meets a b down (x ∷ up) (get k) q
  loader_puts :
      {down up : List ℕ} {x : ℕ} {p : Io A} {q : Io B}
      → Meets a b down (up ++ (x ∷ [])) p q
      → Meets a b down up p (put x q)
  loader_gets :
      {down up : List ℕ} {x : ℕ} {p : Io A} {k : ℕ → Io B}
      → Meets a b down up p (k x)
      → Meets a b (x ∷ down) up p (get k)

-- From empty lines to empty lines.
abbrev pub Agree : {A B : Type 0} → Io A → Io B → A → B → Type 0
Agree p q a b = Meets a b [] [] p q

-- Two exchanges after each other.
pub Meets-then :
    {A B C D : Type 0} {a : A} {b : B} {c : C} {d : D} {down up : List ℕ} {p : Io A} {q : Io B}
    (f : A → Io C) (g : B → Io D)
    → Meets a b down up p q
    → Agree (f a) (g b) c d
    → Meets c d down up (p >>= f) (q >>= g)
Meets-then f g done next = next
Meets-then f g (tool_puts m) next = tool_puts (Meets-then f g m next)
Meets-then f g (tool_gets m) next = tool_gets (Meets-then f g m next)
Meets-then f g (loader_puts m) next = loader_puts (Meets-then f g m next)
Meets-then f g (loader_gets m) next = loader_gets (Meets-then f g m next)

-- One of the programs goes on without an exchange.
pub loader_ends :
    {A B D : Type 0} {a : A} {b : B} {down up : List ℕ} {p : Io A} {q : Io B} (g : B → D)
    → Meets a b down up p q
    → Meets a (g b) down up p (q >>= λ y. ret (g y))
loader_ends g done = done
loader_ends g (tool_puts m) = tool_puts (loader_ends g m)
loader_ends g (tool_gets m) = tool_gets (loader_ends g m)
loader_ends g (loader_puts m) = loader_puts (loader_ends g m)
loader_ends g (loader_gets m) = loader_gets (loader_ends g m)

pub tool_ends :
    {A B C : Type 0} {a : A} {b : B} {down up : List ℕ} {p : Io A} {q : Io B} (f : A → C)
    → Meets a b down up p q
    → Meets (f a) b down up (p >>= λ y. ret (f y)) q
tool_ends f done = done
tool_ends f (tool_puts m) = tool_puts (tool_ends f m)
tool_ends f (tool_gets m) = tool_gets (tool_ends f m)
tool_ends f (loader_puts m) = loader_puts (tool_ends f m)
tool_ends f (loader_gets m) = loader_gets (tool_ends f m)

pub byte_down : (x : ℕ) → Agree (put_byte x) get_byte tt x
byte_down x = tool_puts (loader_gets done)

pub byte_up : (x : ℕ) → Agree get_byte (put_byte x) x tt
byte_up x = loader_puts (tool_gets done)

pub bytes_down : (xs : List ℕ) → Agree (put_all xs) (get_all (length xs)) tt xs
unfolding put_all get_all
bytes_down [] = done
bytes_down (x ∷ xs) =
    tool_puts (loader_gets (loader_ends (λ (ys : List ℕ). x ∷ ys) (bytes_down xs)))

pub bytes_up : (xs : List ℕ) → Agree (get_all (length xs)) (put_all xs) xs tt
unfolding put_all get_all
bytes_up [] = done
bytes_up (x ∷ xs) = loader_puts (tool_gets (tool_ends (λ (ys : List ℕ). x ∷ ys) (bytes_up xs)))

-- The same, where a result is not looked at.
module _ {A B C D : Type 0} {a : A} {b : B} {c : C} {d : D} {down up : List ℕ} where
  pub tool_then :
      {p : Io A} {q : Io B} {r : Io C} (g : B → Io D)
      → Meets a b down up p q
      → Agree r (g b) c d
      → Meets c d down up (p >> r) (q >>= g)
  tool_then {r} g m next = Meets-then (λ _. r) g m next

  pub loader_then :
      {p : Io A} {q : Io B} {r : Io D} (f : A → Io C)
      → Meets a b down up p q
      → Agree (f a) r c d
      → Meets c d down up (p >>= f) (q >> r)
  loader_then {r} f m next = Meets-then f (λ _. r) m next

  pub both_then :
      {p : Io A} {q : Io B} {r : Io C} {s : Io D}
      → Meets a b down up p q
      → Agree r s c d
      → Meets c d down up (p >> r) (q >> s)
  both_then {r} {s} m next = Meets-then (λ _. r) (λ _. s) m next

-- The loader goes on and is done at once.
pub loader_last :
    {A B D : Type 0} {a : A} {b : B} {c : D} {down up : List ℕ} {p : Io A} {q : Io B} (g : B → Io D)
    → g b ≡ ret c
    → Meets a b down up p q
    → Meets a c down up p (q >>= g)
loader_last {a} {c} g e done = subst (λ q. Meets a c [] [] (ret a) q) (sym e) done
loader_last g e (tool_puts m) = tool_puts (loader_last g e m)
loader_last g e (tool_gets m) = tool_gets (loader_last g e m)
loader_last g e (loader_puts m) = loader_puts (loader_last g e m)
loader_last g e (loader_gets m) = loader_gets (loader_last g e m)

pub tool_last :
    {A B C : Type 0} {a : A} {b : B} {c : C} {down up : List ℕ} {p : Io A} {q : Io B} (f : A → Io C)
    → f a ≡ ret c
    → Meets a b down up p q
    → Meets c b down up (p >>= f) q
tool_last {b} {c} f e done = subst (λ p. Meets c b [] [] p (ret b)) (sym e) done
tool_last f e (tool_puts m) = tool_puts (tool_last f e m)
tool_last f e (tool_gets m) = tool_gets (tool_last f e m)
tool_last f e (loader_puts m) = loader_puts (tool_last f e m)
tool_last f e (loader_gets m) = loader_gets (tool_last f e m)
