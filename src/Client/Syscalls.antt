-- ===== src/Client/Syscalls.antt =====
-- client/common/network/network_syscalls.c: sending a numbered request, the bounded wait for its
-- answer with retransmission, and the exit notification. The calls themselves are in `Calls`.
use kos_tool.Prelude.{
  ℕ, zero, suc, ◌+◌, ◌-◌, ◌*◌, ◌/◌, ◌%◌, ◌^◌, Bool, true, false, ◌&&◌, ◌||◌, not, Option, none,
  some, List, [], ◌∷◌, ◌++◌, ltb, leb, ◌==◌, if◌then◌else◌, length, drop,
}
use kos_tool.Wire.{seq_trailer, command_len, same_bytes, net_inline_ret_magic}
use kos_tool.Divutil.{ms_to_ticks}
use kos_tool.Client.{
  Client, Platform, Frame, Event, tx, bb_start, bb_stop, emit, command_bytes, write_memory,
  read_bytes,
}
pub mod Calls
pub mod Numbering
pub mod Waiting

-- KOS_SYSCALL_SAVE_MAX, KOS_SYSCALL_RETRY_MS, KOS_SYSCALL_MAX_RETRIES,
-- PROGEXIT_RETRANSMIT_COUNT, and the three headers' length.
abbrev pub kos_syscall_save_max : ℕ
kos_syscall_save_max = 2048

abbrev pub kos_syscall_retry_ms : ℕ
kos_syscall_retry_ms = 600

abbrev pub kos_syscall_max_retries : ℕ
kos_syscall_max_retries = 6

abbrev pub progexit_retransmit_count : ℕ
progexit_retransmit_count = 5

abbrev pub headers_len : ℕ
headers_len = 42

abbrev pub net_syscall_exit : List ℕ
net_syscall_exit = b'D' ∷ b'C' ∷ b'0' ∷ b'0' ∷ []

unfoldable pub host_supports_dedup : Client → Bool
host_supports_dedup s = leb 0x0003_0000 s.tool_version

-- `kos_syscall_next_seq++`, and 1 where that wraps to 0.
abbrev pub next_seq : ℕ → ℕ
next_seq n = if (n + 1) % 2 ^ 32 == 0 then 1 else (n + 1) % 2 ^ 32

-- The frame of a request: the command, then the trailer with its number.
abbrev pub request_frame : List ℕ → ℕ → Client → Frame
request_frame command seq s = record {
  ether_dest = s.tool_mac;
  ip_dest = s.tool_ip;
  ip_src = s.our_ip;
  packet_id = 0;
  udp_dest = s.tool_port;
  udp_src = s.kosload_syscall_port;
  payload = command ++ seq_trailer seq;
}

unfoldable pub build_send_packet : List ℕ → Client → Client
build_send_packet command s =
    let frame = request_frame command s.kos_syscall_next_seq s in
    record (emit (tx frame) (emit bb_start s)) {
      kos_syscall_seq = s.kos_syscall_next_seq;
      kos_syscall_next_seq = next_seq s.kos_syscall_next_seq;
      saved_frame =
          if leb (headers_len + length frame.payload) kos_syscall_save_max
          then some frame
          else none;
    }

-- The end of the wait without an answer.
abbrev pub give_up : Client → Client
give_up s = record s {
  kos_syscall_timeout_ticks = 0;
  syscall_retval = 0xffff_ffff;
  syscall_data = none;
  syscall_data_len = 0;
}

-- One `bb->loop(0)` under a deadline: the deadline of the attempt and the state after it.
unfoldable pub attempt : Platform → ℕ → Client → ℕ × Client
attempt p timeout s =
    let deadline = (s.ticks + timeout) % 2 ^ 64 in
    let after = p.loop (record s { escape_loop = false; loop_deadline_ticks = deadline }) in
    (deadline, record after { loop_deadline_ticks = 0 })

-- The `for` loop, with the retransmissions that are left. The saved frame is sent again as it is.
unfoldable pub retry_loop : Platform → ℕ → ℕ → Client → Client
retry_loop p timeout zero s =
    let (deadline, after) = attempt p timeout s in
    if ltb after.ticks deadline then after else give_up after
retry_loop p timeout (suc left) s =
    let (deadline, after) = attempt p timeout s in
    elim (ltb after.ticks deadline) [
      | true ↦ after
      | false ↦ elim after.saved_frame [
        | none ↦ give_up after
        | some frame ↦ retry_loop p timeout left (emit (tx frame) after)
      ]
    ]

-- `timeout_ticks`, at least 1.
unfoldable pub wait_ticks : Platform → ℕ
wait_ticks p =
    let t = ms_to_ticks p.ticks_per_second kos_syscall_retry_ms in if t == 0 then 1 else t

unfoldable pub kos_syscall_wait_for_retval : Platform → Client → Client
unfolding host_supports_dedup
kos_syscall_wait_for_retval p s =
    if not p.lossy
    then p.loop s
    else if not (host_supports_dedup s)
    then p.loop s
    else if not p.has_get_ticks || (p.ticks_per_second == 0)
    then p.loop s
    else retry_loop p (wait_ticks p) kos_syscall_max_retries
        (record s { kos_syscall_timeout_ticks = wait_ticks p })

-- `assign_wrkmem` answers -1: the mark of an IP loader.
unfoldable pub assign_wrkmem : ℕ → ℕ
assign_wrkmem user_buffer = 0xffff_ffff

unfoldable pub send_times : ℕ → List ℕ → Client → Client
send_times zero command s = s
send_times (suc n) command s = send_times n command (build_send_packet command s)

unfoldable pub progexit : ℕ → Client → Client
unfolding send_times build_send_packet
progexit ret_code s =
    send_times progexit_retransmit_count (command_bytes net_syscall_exit ret_code 0 [])
      (emit bb_stop s)
