-- ===== src/Client/Download/Cover.antt =====
-- The datagrams that SBIN and SBIQ send (client/common/core/commands.c) make up the memory that
-- was asked for.
use kos_tool.Prelude.{
  ℕ, zero, suc, ◌+◌, ◌-◌, ◌*◌, ◌%◌, ◌^◌, ◌≤◌, ◌<◌, ◌≡◌, refl, sym, ap, ◌∙◌, arith, List, [], ◌∷◌,
  ◌++◌, ltb, leb, add32, length, Bool-cases, inl, inr,
}
use native.Mathlib.Nat.{zero-add, suc-add}
use kos_tool.Divutil.Bounds.{udiv_const_near}
use kos_tool.Client.{Client, Request, dctool_major, read_bytes}
use kos_tool.Client.Download.{Chunk, chunks, packet_plan, plan_chunks}

-- The datagrams follow one another from `addr` on, each no longer than the payload and with as
-- many bytes as it says.
pub data Follow (payload : ℕ) : ℕ → List Chunk → Type 0 where
  end : {addr : ℕ} → Follow payload addr []
  next :
      {addr : ℕ} {c : Chunk} {cs : List Chunk}
      → c.address ≡ addr
      → c.size ≤ payload
      → length c.bytes ≡ c.size
      → Follow payload (add32 addr c.size) cs
      → Follow payload addr (c ∷ cs)

-- Their bytes, one behind the other.
unfoldable pub joined : List Chunk → List ℕ
joined [] = []
joined (c ∷ cs) = c.bytes ++ joined cs

length-read_bytes : (n : ℕ) (f : ℕ → ℕ) (i : ℕ) → length (read_bytes n f i) ≡ n
length-read_bytes zero f i = refl
length-read_bytes (suc n) f i = ap suc (length-read_bytes n f (i + 1))

read_bytes_ext :
    (n : ℕ) (f g : ℕ → ℕ) (i j : ℕ)
    → ((k x y : ℕ) → x ≡ i + k → y ≡ j + k → f x ≡ g y)
    → read_bytes n f i ≡ read_bytes n g j
read_bytes_ext zero f g i j h = refl
read_bytes_ext (suc n) f g i j h =
    ap (λ (x : ℕ). x ∷ read_bytes n f (i + 1)) (h 0 i j (omega arith) (omega arith))
    ∙ ap (λ (xs : List ℕ). g j ∷ xs)
        (read_bytes_ext n f g (i + 1) (j + 1)
          (λ k x y ex ey. h (k + 1) x y (omega arith) (omega arith)))

-- Reading on from where a first part ends.
read_bytes-append :
    (a b : ℕ) (f g : ℕ → ℕ) (i j : ℕ)
    → ((k x y : ℕ) → x ≡ i + a + k → y ≡ j + k → f x ≡ g y)
    → read_bytes (a + b) f i ≡ read_bytes a f i ++ read_bytes b g j
read_bytes-append zero b f g i j h =
    rw zero-add (read_bytes_ext b f g i j (λ k x y ex ey. h k x y (omega arith) ey))
read_bytes-append (suc a) b f g i j h = rw suc-add (
    ap (λ (rest : List ℕ). f i ∷ rest)
      (read_bytes-append a b f g (i + 1) j (λ k x y ex ey. h k x y (omega arith) ey)))

offset_wraps :
    (addr a k x y : ℕ)
    → x ≡ 0 + a + k
    → y ≡ 0 + k
    → (addr + x) % 2 ^ 32 ≡ (add32 addr a + y) % 2 ^ 32
offset_wraps addr a k x y ex ey = omega arith

-- Guest memory from an address on.
abbrev pub region : (ℕ → ℕ) → ℕ → ℕ → List ℕ
region memory addr n = read_bytes n (λ i. memory ((addr + i) % 2 ^ 32)) 0

region-append :
    (memory : ℕ → ℕ) (addr a b : ℕ)
    → region memory addr (a + b) ≡ region memory addr a ++ region memory (add32 addr a) b
region-append memory addr a b =
    read_bytes-append a b (λ i. memory ((addr + i) % 2 ^ 32))
      (λ i. memory ((add32 addr a + i) % 2 ^ 32)) 0 0
      (λ k x y ex ey. ap memory (offset_wraps addr a k x y ex ey))

region-split :
    (memory : ℕ → ℕ) (addr a left : ℕ)
    → a ≤ left
    → region memory addr a ++ region memory (add32 addr a) (left - a) ≡ region memory addr left
region-split memory addr a left h =
    sym (region-append memory addr a (left - a)) ∙ ap (region memory addr) (omega arith)

-- Enough packets carry the region, in order and without gap or overlap.
chunks-cover :
    (memory : ℕ → ℕ) (payload n addr left : ℕ)
    → left ≤ n * payload
    → Follow payload addr (chunks memory payload n addr left)
      × (joined (chunks memory payload n addr left) ≡ region memory addr left)
unfolding chunks joined
chunks-cover memory payload zero addr left h =
    let none_left : left ≡ 0 = omega arith in (end, rw none_left refl)
chunks-cover memory payload (suc n) addr left h = elim (Bool-cases (leb payload left)) [
  | inl e ↦
      let (follow, same) =
        chunks-cover memory payload n (add32 addr payload) (left - payload) (omega arith) in
      let fits : payload ≤ left = ground arith in
      rw e (
        next refl (omega arith) (length-read_bytes payload _ 0) follow,
        ap (λ (rest : List ℕ). region memory addr payload ++ rest) same
            ∙ region-split memory addr payload left fits,
      )
  | inr e ↦
      let (follow, same) =
        chunks-cover memory payload n (add32 addr left) (left - left) (omega arith) in
      rw e (
        next refl (ground arith) (length-read_bytes left _ 0) follow,
        ap (λ (rest : List ℕ). region memory addr left ++ rest) same
            ∙ region-split memory addr left left (omega arith),
      )
]

plan_is_enough :
    (size : ℕ) (s : Client)
    → size + 1439 < 2 ^ 32
    → size ≤ (packet_plan size s).1 * (packet_plan size s).0
unfolding packet_plan
plan_is_enough size s small = elim (Bool-cases (ltb (dctool_major s) 2)) [
  | inl e ↦ rw e (omega arith)
  | inr e ↦
      let sum : add32 size 1439 ≡ size + 1439 = omega arith in
      rw (e, sum) (omega (arith, (udiv_const_near (size + 1439) 1440 small (omega arith)).0))
]

plan_payload : (size : ℕ) (s : Client) → (packet_plan size s).0 ≤ 1440
unfolding packet_plan
plan_payload size s = ground arith

widen : (a b addr : ℕ) (cs : List Chunk) → a ≤ b → Follow a addr cs → Follow b addr cs
widen a b addr [] h f = end
widen a b addr (c ∷ cs) h (next at fits len rest) =
    next at (omega arith) len (widen a b (add32 addr c.size) cs h rest)

-- For a request of any size below 2 ^ 32 - 1439, the datagrams of SBIN follow one another from
-- the requested address on, each within the payload's limit of 1440 bytes, and their bytes are
-- the requested memory, for hosts of either version.
pub plan_chunks-cover :
    (req : Request) (s : Client)
    → req.size + 1439 < 2 ^ 32
    → Follow 1440 req.address (plan_chunks req s)
      × (joined (plan_chunks req s) ≡ region s.memory req.address req.size)
unfolding plan_chunks
plan_chunks-cover req s small =
    let (follow, same) =
      chunks-cover s.memory (packet_plan req.size s).0 (packet_plan req.size s).1 req.address
        req.size (plan_is_enough req.size s small) in
    (widen (packet_plan req.size s).0 1440 req.address _ (plan_payload req.size s) follow, same)
