-- ===== src/Client/Retval/Stale.antt =====
-- Which answers the client takes (client/common/core/commands.c): the one to its own request.
use kos_tool.Prelude.{
  ℕ, ◌+◌, ◌-◌, ◌/◌, ◌%◌, ◌^◌, ◌<◌, ◌≡◌, ◌≢◌, refl, ap, ◌∙◌, arith, true, some, [], ◌∷◌, leb, get_or,
  IsU32,
}
use kos_tool.Wire.{same_bytes, get_be32, seq_trailer, net_seq_magic}
use kos_tool.Client.{Client, Request, read_bytes}
use kos_tool.Client.Retval.{cmd_retval, echoed, deliver}

-- A datagram with `n` bytes of data and then the trailer of the number `seq`.
pub record IsReply (req : Request) (n seq : ℕ) : Type 0 where
  pub udp_length : req.udp_length ≡ 8 + 12 + n + 8
  pub trailer : (j : ℕ) → j < 8 → req.data_at (n + j) ≡ get_or (seq_trailer seq) j 0
  pub seq_fits : IsU32 seq

trailer_word :
    (a b c d seq : ℕ)
    → IsU32 seq
    → a ≡ seq / 2 ^ 24 % 256
    → b ≡ seq / 2 ^ 16 % 256
    → c ≡ seq / 2 ^ 8 % 256
    → d ≡ seq % 256
    → get_be32 (a ∷ b ∷ c ∷ d ∷ []) ≡ seq
trailer_word a b c d seq h ea eb ec ed = omega arith

at :
    (req : Request) (n seq j x : ℕ)
    → IsReply req n seq
    → j < 8
    → x ≡ n + j
    → req.data_at x ≡ get_or (seq_trailer seq) j 0
at req n seq j x r h e = ap req.data_at e ∙ r.trailer j h

reads :
    (req : Request) (n seq : ℕ)
    → IsReply req n seq
    → (same_bytes 4 (read_bytes 4 req.data_at n) net_seq_magic ≡ true)
      × (get_be32 (read_bytes 4 req.data_at (n + 4)) ≡ seq)
unfolding same_bytes
reads req n seq r =
    let b0 : req.data_at n ≡ b'K' = at req n seq 0 n r (omega arith) (omega arith) in
    let b1 : req.data_at (n + 1) ≡ b'S' = at req n seq 1 (n + 1) r (omega arith) (omega arith) in
    let b2 : req.data_at (n + 1 + 1) ≡ b'Q' =
      at req n seq 2 (n + 1 + 1) r (omega arith) (omega arith) in
    let b3 : req.data_at (n + 1 + 1 + 1) ≡ b'0' =
      at req n seq 3 (n + 1 + 1 + 1) r (omega arith) (omega arith) in
    (
      rw (b0, b1, b2, b3) refl,
      trailer_word _ _ _ _ seq r.seq_fits (at req n seq 4 (n + 4) r (omega arith) (omega arith))
          (at req n seq 5 (n + 4 + 1) r (omega arith) (omega arith))
          (at req n seq 6 (n + 4 + 1 + 1) r (omega arith) (omega arith))
          (at req n seq 7 (n + 4 + 1 + 1 + 1) r (omega arith) (omega arith)),
    )

-- The number is read from where the host put it.
echoed_lem :
    (req : Request) (n seq : ℕ) (s : Client)
    → IsReply req n seq
    → leb 0x0003_0000 s.tool_version ≡ true
    → echoed req s ≡ some seq
unfolding echoed
echoed_lem req n seq s r modern =
    let (magic, number) = reads req n seq r in
    let place : req.udp_length - 8 - 8 - 12 ≡ n = omega (arith, r.udp_length) in
    let long : leb 20 (req.udp_length - 8) ≡ true = ground (arith, r.udp_length) in
    rw (modern, long, place, magic) (ap some number)

-- For a host of version 3 or later, an answer with the number of another request than the one in
-- flight changes nothing, whatever it says.
pub cmd_retval_stale :
    (req : Request) (n seq : ℕ) (s : Client)
    → IsReply req n seq
    → leb 0x0003_0000 s.tool_version ≡ true
    → seq ≢ s.kos_syscall_seq
    → cmd_retval req s ≡ s
unfolding cmd_retval
cmd_retval_stale req n seq s r modern other = ground (arith, echoed_lem req n seq s r modern)

-- What an answer that is taken leaves: the result, the data without the trailer, the end of the wait.
pub record Delivered (req : Request) (n : ℕ) (t : Client) : Type 0 where
  pub value : t.syscall_retval ≡ req.address
  pub data_bytes : t.syscall_data ≡ some req.data_at
  pub data_length : t.syscall_data_len ≡ n
  pub wait_over : t.escape_loop ≡ true

-- For a host of version 3 or later and while a program runs, the answer with the number of the
-- request in flight is taken: its value, and exactly the data before its trailer.
pub cmd_retval_own :
    (req : Request) (n : ℕ) (s : Client)
    → IsReply req n s.kos_syscall_seq
    → leb 0x0003_0000 s.tool_version ≡ true
    → s.running ≡ true
    → Delivered req n (cmd_retval req s)
unfolding cmd_retval deliver
cmd_retval_own req n s r modern run =
    let number = echoed_lem req n s.kos_syscall_seq s r modern in
    let len = r.udp_length in
    record {
      value = ground arith;
      data_bytes = ground arith;
      data_length = ground arith;
      wait_over = ground arith;
    }
