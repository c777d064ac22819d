-- ===== src/Client.antt =====
-- The client firmware's network loader: the globals of client/common/core/commands.c,
-- client/common/network/network_syscalls.c and client/common/network/entry.c as one record, what
-- the hardware below sees as a list of events (newest first), and the packets in and out.
-- The handlers of the commands and the system calls are in the modules below.
use Prim.Native.String.{String}
use kos_tool.Prelude.{
  ℕ, zero, suc, ◌+◌, ◌-◌, ◌*◌, ◌/◌, ◌%◌, ◌^◌, Bool, true, false, Option, none, some, List, [], ◌∷◌,
  ◌++◌, ltb, ◌==◌, if◌then◌else◌, take, length, sub32,
}
use kos_tool.Wire.{be32}
pub mod Syscalls
pub mod Upload
pub mod Download
pub mod Control
pub mod Retval
pub mod Receive

-- A frame that the client sends: the arguments of `make_ether`, `make_ip` and `make_udp`, and the
-- UDP payload. The headers' bytes are those of `Packet`.
pub record Frame : Type 0 where
  pub ether_dest : List ℕ
  pub ip_dest : ℕ
  pub ip_src : ℕ
  pub packet_id : ℕ
  pub udp_dest : ℕ
  pub udp_src : ℕ
  pub payload : List ℕ

-- A received command datagram, its fields in host byte order. `data` is the receive buffer from
-- `command->data` on: it can be read past the datagram, and then holds what was there before.
pub record Request : Type 0 where
  pub ether_src : List ℕ
  pub ip_src : ℕ
  pub ip_dest : ℕ
  pub packet_id : ℕ
  pub udp_src : ℕ
  pub udp_dest : ℕ
  pub udp_length : ℕ
  pub id : List ℕ
  pub address : ℕ
  pub size : ℕ
  pub data_at : ℕ → ℕ

-- What the code does to the adapter (`bb`), the target (`target_ops_t`) and the display.
pub data Event : Type 0 where
  tx : Frame → Event
  bb_stop bb_start bb_init : Event
  disp_info : Event
  disp_status : String → Event
  cache_block_purge : ℕ → ℕ → Event
  reboot : Event
  set_console_enabled : Bool → Event
  cdfs_redir_enable fw_update_prepare : Event
  execute : ℕ → Event
  restart_timer screensaver_reset screensaver_wake : Event
  set_rtc : ℕ → Event
  pmcr : ℕ → List ℕ → Event

-- `kosload_info_t`, the fields that the commands write; addresses and ports as they lie in memory.
pub record Info : Type 0 where
  pub capabilities : ℕ
  pub host_capabilities : ℕ
  pub console_ip : List ℕ
  pub console_port : List ℕ
  pub host_ip : List ℕ
  pub host_port : List ℕ
  pub argc : ℕ
  pub argv_data : ℕ → ℕ

pub record Client : Type 0 where
  pub our_ip : ℕ
  pub tool_ip : ℕ
  pub tool_mac : List ℕ
  pub tool_port : ℕ
  pub tool_version : ℕ
  pub cached_dest : Bool
  pub payload1024 : Bool
  pub load_address : ℕ
  pub load_size : ℕ
  pub bin_map : ℕ → ℕ
  pub booted : Bool
  pub running : Bool
  pub escape_loop : Bool
  pub syscall_retval : ℕ
  -- Where `syscall_data` points; `none` is the null pointer.
  pub syscall_data : Option (ℕ → ℕ)
  pub syscall_data_len : ℕ
  pub kosload_syscall_port : ℕ
  pub kos_syscall_seq : ℕ
  pub kos_syscall_next_seq : ℕ
  -- `kos_syscall_save_pkt`; `none` for a length of 0.
  pub saved_frame : Option Frame
  pub loop_deadline_ticks : ℕ
  pub kos_syscall_timeout_ticks : ℕ
  -- What `get_ticks` gives now.
  pub ticks : ℕ
  pub info : Info
  pub memory : ℕ → ℕ
  pub trace : List Event

-- The build's constants, the target's optional operations and what the shared code leaves to the
-- drivers: `bb->loop(0)`, which receives until something sets `escape_loop` or the deadline
-- passes, and the run of a loaded program are functions of the state.
pub record Platform : Type 0 where
  pub max_ram_bytes : ℕ
  pub detect_ram_size : ℕ
  pub has_cdfs_redir : Bool
  pub has_fw_update_prepare : Bool
  pub has_get_ticks : Bool
  pub ticks_per_second : ℕ
  pub lossy : Bool
  -- `LOADER_NAME " " KOSLOAD_VERSION_STRING " using "`, and the adapter's name.
  pub banner : List ℕ
  pub adapter_name : List ℕ
  pub installed_adapter : ℕ
  pub loop : Client → Client
  pub run_program : ℕ → Client → Client

abbrev pub emit : Event → Client → Client
emit e s = record s { trace = e ∷ s.trace }

abbrev pub be16 : ℕ → List ℕ
be16 v = (v / 256 % 256) ∷ (v % 256) ∷ []

-- A command as it lies on the wire: id, address, size, data.
abbrev pub command_bytes : List ℕ → ℕ → ℕ → List ℕ → List ℕ
command_bytes id address size data_bytes = id ++ be32 address ++ be32 size ++ data_bytes

-- DCTOOL_MAJOR: `(tool_version & 0x00ff0000) >> 16`.
abbrev pub dctool_major : Client → ℕ
dctool_major s = s.tool_version / 2 ^ 16 % 256

-- The bytes of a buffer from an offset on.
abbrev pub read_bytes : ℕ → (ℕ → ℕ) → ℕ → List ℕ
read_bytes zero buf i = []
read_bytes (suc n) buf i = buf i ∷ read_bytes n buf (i + 1)

-- memcpy of `n` bytes to guest address `addr`; addresses wrap at 2 ^ 32.
abbrev pub write_memory : (ℕ → ℕ) → ℕ → ℕ → (ℕ → ℕ) → ℕ → ℕ
write_memory memory addr n src a = if ltb (sub32 a addr) n then src (sub32 a addr) else memory a

-- `bb->tx` of an answer to a request, from the address `ip_src` and port `udp_src`.
abbrev pub answer : Request → ℕ → ℕ → List ℕ → Client → Client
answer req ip_src udp_src payload = emit (
    tx (record {
      ether_dest = req.ether_src;
      ip_dest = req.ip_src;
      ip_src = ip_src;
      packet_id = req.packet_id;
      udp_dest = req.udp_src;
      udp_src = udp_src;
      payload = payload;
    }))

-- `net_bump_syscall_deadline` of network_syscalls.c.
unfoldable pub net_bump_syscall_deadline : Platform → Client → Client
net_bump_syscall_deadline p s =
    if s.loop_deadline_ticks == 0
    then s
    else if p.has_get_ticks
    then record s { loop_deadline_ticks = (s.ticks + s.kos_syscall_timeout_ticks) % 2 ^ 64 }
    else s
