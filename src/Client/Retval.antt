-- ===== src/Client/Retval.antt =====
-- client/common/core/commands.c: the answer to a system call. The trailer at the end of the
-- payload, if there is one, is the number of the request that it answers.
use kos_tool.Prelude.{
  ℕ, zero, suc, ◌+◌, ◌-◌, ◌*◌, ◌/◌, ◌%◌, ◌^◌, Bool, true, false, ◌&&◌, ◌||◌, not, Option, none,
  some, List, [], ◌∷◌, ◌++◌, ltb, leb, ◌==◌, if◌then◌else◌,
}
use kos_tool.Wire.{same_bytes, get_be32, net_seq_magic, net_seq_trailer_len, command_len}
use kos_tool.Client.{
  Client, Platform, Request, Event, emit, bb_stop, answer, command_bytes, read_bytes,
}
use kos_tool.Client.Control.{udp_h_len}
pub mod Stale

-- The number in the trailer: `none` where there is no trailer or the host sends none. The
-- trailer lies behind the command header, so at `command->data - 12 + n - 8`.
unfoldable pub echoed : Request → Client → Option ℕ
echoed req s =
    let udp_payload_len = req.udp_length - udp_h_len in
    let at = udp_payload_len - net_seq_trailer_len - command_len in
    if leb 0x0003_0000 s.tool_version && leb (command_len + net_seq_trailer_len) udp_payload_len
    then (if same_bytes 4 (read_bytes 4 req.data_at at) net_seq_magic
        then some (get_be32 (read_bytes 4 req.data_at (at + 4)))
        else none)
    else none

-- From `bb->stop()` on; `trailer_len` is 8 if the trailer was ours and 0 if there was none.
-- `syscall_data` is a copy of the bytes; the code keeps a pointer to them in the receive buffer, which
-- the caller reads before the next frame arrives.
unfoldable pub deliver : ℕ → Request → Client → Client
deliver trailer_len req s =
    let udp_payload_len = req.udp_length - udp_h_len in
    let data_len = if ltb command_len udp_payload_len then udp_payload_len - command_len else 0 in
    record (answer req req.ip_dest req.udp_dest (command_bytes req.id req.address req.size [])
      (emit bb_stop s)) {
        syscall_retval = req.address;
        syscall_data = some req.data_at;
        syscall_data_len = if leb trailer_len data_len then data_len - trailer_len else data_len;
        escape_loop = true;
      }

unfoldable pub cmd_retval : Request → Client → Client
unfolding echoed deliver
cmd_retval req s =
    if not s.running || ltb req.udp_length udp_h_len then s else elim (echoed req s) [
      | none ↦ deliver 0 req s
      | some seq ↦ if seq == s.kos_syscall_seq then deliver net_seq_trailer_len req s else s
    ]
