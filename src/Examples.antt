-- ===== src/Examples.antt =====
-- Concrete values for the theorems of the other modules: a target, the state of its client, an image
-- and the requests of its upload. The modules below apply the theorems to them and hold tests.
use kos_tool.Prelude.{
  ℕ, ◌+◌, ◌*◌, ◌^◌, ◌≡◌, ◌<◌, refl, arith, true, false, none, List, [], ◌∷◌, min, replicate,
}
use kos_tool.Client.{Client, Platform, Request}
use kos_tool.Client.Upload.Transfer.{Image, IsChunkOf, IsLoadOf}
mod Serial
mod Lease
mod Upload
mod Syscalls
mod Transfers
mod Numbers
mod Binary
mod Frames

-- A target whose receive loop waits for its deadline and gets nothing.
abbrev pub target : Platform
target = record {
  max_ram_bytes = 16 * 2 ^ 20;
  detect_ram_size = 16 * 2 ^ 20;
  has_cdfs_redir = true;
  has_fw_update_prepare = false;
  has_get_ticks = true;
  ticks_per_second = 1000;
  lossy = true;
  banner = [];
  adapter_name = [];
  installed_adapter = 1;
  loop = λ s. record s { ticks = s.loop_deadline_ticks };
  run_program = λ address s. s;
}

-- A client that a host of version 3.0.0 talks to.
abbrev pub client : Client
client = record {
  our_ip = 0xc0a8_0102;
  tool_ip = 0xc0a8_0101;
  tool_mac = 1 ∷ 2 ∷ 3 ∷ 4 ∷ 5 ∷ 6 ∷ [];
  tool_port = 53535;
  tool_version = 0x0003_0000;
  cached_dest = false;
  payload1024 = false;
  load_address = 0;
  load_size = 0;
  bin_map = λ _. 0;
  booted = true;
  running = true;
  escape_loop = false;
  syscall_retval = 0;
  syscall_data = none;
  syscall_data_len = 0;
  kosload_syscall_port = 53535;
  kos_syscall_seq = 7;
  kos_syscall_next_seq = 8;
  saved_frame = none;
  loop_deadline_ticks = 0;
  kos_syscall_timeout_ticks = 0;
  ticks = 5;
  info = record {
    capabilities = 0;
    host_capabilities = 0;
    console_ip = [];
    console_port = [];
    host_ip = [];
    host_port = [];
    argc = 0;
    argv_data = λ _. 9;
  };
  memory = λ _. 0;
  trace = [];
}

abbrev pub request : Request
request = record {
  ether_src = 9 ∷ 9 ∷ 9 ∷ 9 ∷ 9 ∷ 9 ∷ [];
  ip_src = 0xc0a8_0105;
  ip_dest = 0xc0a8_0102;
  packet_id = 0;
  udp_src = 40000;
  udp_dest = 53535;
  udp_length = 20;
  id = b'L' ∷ b'B' ∷ b'I' ∷ b'N' ∷ [];
  address = 0x8c01_0000;
  size = 2000;
  data_at = λ j. j + 1;
}

-- An image of two chunks, the second one short.
abbrev pub image : Image
image = record {
  base = 0x8c01_0000;
  size = 2000;
  byte_at = λ j. j + 1;
  base_fits = omega arith;
  size_fits = omega arith;
}

pub request-IsLoadOf : IsLoadOf target image request
request-IsLoadOf = record {
  load_address = refl;
  load_size = refl;
  detected = omega arith;
  in_ram = omega arith;
}

abbrev pub chunk0 : Request
chunk0 = record request { size = 1440 }

abbrev pub chunk1 : Request
chunk1 = record request { address = 0x8c01_05a0; size = 560; data_at = λ j. 1440 + j + 1 }

pub chunk0-IsChunkOf : IsChunkOf image 0 chunk0
chunk0-IsChunkOf = record {
  start = omega arith;
  address = refl;
  extent = refl;
  content = λ j h. omega arith;
}

pub chunk1-IsChunkOf : IsChunkOf image 1 chunk1
chunk1-IsChunkOf = record {
  start = omega arith;
  address = refl;
  extent = refl;
  content = λ j h. refl;
}
