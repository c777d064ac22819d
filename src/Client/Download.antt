-- ===== src/Client/Download.antt =====
-- client/common/core/commands.c: sending memory to the host, in chunks that it did not ask for
-- one by one.
use kos_tool.Prelude.{
  ℕ, zero, suc, ◌+◌, ◌-◌, ◌*◌, ◌/◌, ◌%◌, ◌^◌, Bool, true, false, List, [], ◌∷◌, ◌++◌, ltb, leb,
  if◌then◌else◌, add32,
}
use kos_tool.Divutil.{udiv_const}
use kos_tool.Client.{
  Client, Platform, Request, Event, emit, disp_info, disp_status, answer, command_bytes,
  dctool_major, read_bytes, net_bump_syscall_deadline,
}
pub mod Cover

-- NET_CMD_SENDBIN and NET_CMD_DONEBIN.
abbrev pub net_cmd_sendbin : List ℕ
net_cmd_sendbin = b'S' ∷ b'B' ∷ b'I' ∷ b'N' ∷ []

abbrev pub net_cmd_donebin : List ℕ
net_cmd_donebin = b'D' ∷ b'B' ∷ b'I' ∷ b'N' ∷ []

-- A datagram of the loop: the address, and the bytes.
pub record Chunk : Type 0 where
  pub address : ℕ
  pub bytes : List ℕ
  pub size : ℕ

-- The loop, with `n` packets and `bytes_left` bytes left. The pointer wraps at 2 ^ 32.
unfoldable pub chunks : (ℕ → ℕ) → ℕ → ℕ → ℕ → ℕ → List Chunk
chunks memory payload_size zero cmd_addr bytes_left = []
chunks memory payload_size (suc n) cmd_addr bytes_left =
    let bytes_thistime = if leb payload_size bytes_left then payload_size else bytes_left in
    record {
      address = cmd_addr;
      bytes = read_bytes bytes_thistime (λ i. memory ((cmd_addr + i) % 2 ^ 32)) 0;
      size = bytes_thistime;
    }
    ∷ chunks memory payload_size n (add32 cmd_addr bytes_thistime) (bytes_left - bytes_thistime)

-- `payload_size` and `numpackets`.
unfoldable pub packet_plan : ℕ → Client → ℕ × ℕ
packet_plan bytes_left s =
    if ltb (dctool_major s) 2
    then (1024, add32 bytes_left 1023 / 1024)
    else (1440, udiv_const (add32 bytes_left 1439) 1440)

unfoldable pub plan_chunks : Request → Client → List Chunk
unfolding chunks packet_plan
plan_chunks req s =
    let (payload_size, numpackets) = packet_plan req.size s in
    chunks s.memory payload_size numpackets req.address req.size

unfoldable pub send_chunks : Request → List Chunk → Client → Client
send_chunks req [] s = s
send_chunks req (c ∷ cs) s =
    send_chunks req cs (
      answer req req.ip_dest req.udp_dest (command_bytes net_cmd_sendbin c.address c.size c.bytes)
        s)

unfoldable pub cmd_sendbinq : Platform → Request → Client → Client
unfolding plan_chunks send_chunks
cmd_sendbinq p req s =
    let s1 = record (net_bump_syscall_deadline p s) { our_ip = req.ip_dest } in
    let sent = send_chunks req (plan_chunks req s1) s1 in
    answer req req.ip_dest req.udp_dest (command_bytes net_cmd_donebin 0 0 []) sent

unfoldable pub cmd_sendbin : Platform → Request → Client → Client
unfolding cmd_sendbinq
cmd_sendbin p req s =
    let s1 =
      if s.running
      then s
      else emit (disp_status "sending data...") (if s.booted then s else emit disp_info s) in
    let s2 = cmd_sendbinq p req s1 in if s2.running then s2 else emit (disp_status "idle...") s2
