-- ===== src/Serial/Commands.antt =====
-- The commands of the serial protocol: `serial_transport_loop` of
-- client/common/serial/serial_transport.c, one command at a time, and what
-- host/src/transport/serial.c sends for them.
use kos_tool.Prelude.{
  ℕ, zero, suc, ◌%◌, ◌^◌, min, Bool, true, false, List, [], ◌∷◌, length, get_or, ltb, leb, ◌==◌,
  if◌then◌else◌, add32, sub32,
}
use kos_tool.Serial.Io.{Io, ret, ◌>>=◌, ◌>>◌, put_byte, get_byte, put_all, get_all}
use kos_tool.Serial.Loader.{
  Lzo, put_uint, get_uint, load_data_block_general, send_data_block_uncompressed,
  send_data_block_compressed,
}

abbrev pub serial_cmd_execute : ℕ
serial_cmd_execute = b'A'

abbrev pub serial_cmd_load_begin : ℕ
serial_cmd_load_begin = b'B'

abbrev pub serial_cmd_download : ℕ
serial_cmd_download = b'F'

abbrev pub serial_cmd_download_q : ℕ
serial_cmd_download_q = b'G'

abbrev pub serial_cmd_cdfs_redir : ℕ
serial_cmd_cdfs_redir = b'H'

abbrev pub serial_cmd_capabilities : ℕ
serial_cmd_capabilities = b'I'

abbrev pub serial_cmd_speed : ℕ
serial_cmd_speed = b'S'

abbrev pub serial_cmd_setrtc : ℕ
serial_cmd_setrtc = b'W'

abbrev pub serial_cmd_reboot : ℕ
serial_cmd_reboot = b'R'

abbrev pub serial_default_speed : ℕ
serial_default_speed = 57600

abbrev pub kosload_max_argv_data : ℕ
kosload_max_argv_data = 256

-- What the loop does to the target, newest first in a trace.
pub data Act : Type 0 where
  execute : ℕ → Act
  set_console_enabled : ℕ → Act
  flush fw_update_prepare cdfs_redir_enable reboot : Act
  serial_init : ℕ → Act
  set_rtc : ℕ → Act

-- The globals: `kosload_info`'s fields, the memory and the trace. An index of `argv_data` past the
-- array is a write past it.
pub record Loader : Type 0 where
  pub argc : ℕ
  pub argv_data : ℕ → ℕ
  pub baud_rate : ℕ
  pub capabilities : ℕ
  pub host_capabilities : ℕ
  pub has_fw_update_prepare : Bool
  pub memory : ℕ → ℕ
  pub trace : List Act

abbrev pub log : Act → Loader → Loader
log a s = record s { trace = a ∷ s.trace }

-- Bytes stored from an address on, and the bytes from an address on.
abbrev pub store_all : List ℕ → ℕ → (ℕ → ℕ) → (ℕ → ℕ)
store_all bytes at memory =
    λ a. if ltb (sub32 a at) (length bytes) then get_or bytes (sub32 a at) 0 else memory a

abbrev pub bytes_at : ℕ → ℕ → (ℕ → ℕ) → List ℕ
bytes_at zero at memory = []
bytes_at (suc n) at memory = memory at ∷ bytes_at n (add32 at 1) memory

-- The flags in the console word: bit 31 for arguments, bit 30 for a firmware update.
abbrev pub flag_argv : ℕ → Bool
flag_argv console = leb (2 ^ 31) (console % 2 ^ 32)

abbrev pub flag_fw_update : ℕ → Bool
flag_fw_update console = leb (2 ^ 30) (console % 2 ^ 31)

-- The rest of the console word.
abbrev pub console_bits : ℕ → ℕ
console_bits console = console % 2 ^ 30

-- The arguments after `argc`: at most 256 bytes are taken, and the last is made zero.
unfoldable pub take_argv : ℕ → Loader → Io Loader
take_argv prog_argc s = if prog_argc == 0 then ret s else (do
  argv_data_len ← get_uint
  let len = min argv_data_len kosload_max_argv_data
  bytes ← get_all len
  ret (record s {
    argc = prog_argc;
    argv_data =
        λ i. if i == sub32 len 1 then 0 else if ltb i len then get_or bytes i 0 else s.argv_data i;
  }))

-- `execute` after the words and the arguments.
unfoldable pub start_program : ℕ → ℕ → Loader → Loader
start_program addr console s =
    let ready =
      if flag_fw_update console
      then if s.has_fw_update_prepare then log fw_update_prepare (log flush s) else log flush s
      else log flush (log (set_console_enabled (console_bits console)) s) in
    log (execute addr) ready

unfoldable pub on_execute : Loader → Io Loader
on_execute s = do
  addr ← get_uint
  console ← get_uint
  let cleared = record s { argc = 0; argv_data = λ i. if i == 0 then 0 else s.argv_data i }
  t ← (if flag_argv console then (get_uint >>= λ n. take_argv n cleared) else ret cleared)
  ret (start_program addr console t)

unfoldable pub on_load : Lzo → Loader → Io Loader
on_load lzo s = do
  addr ← get_uint
  size ← get_uint
  bytes ← load_data_block_general lzo size size
  ret (record s { memory = store_all bytes addr s.memory })

unfoldable pub on_send_plain : Loader → Io Loader
on_send_plain s = do
  addr ← get_uint
  size ← get_uint
  send_data_block_uncompressed (bytes_at size addr s.memory)
  ret s

-- The third word is the address of the work memory; 0 sends the block as it is.
unfoldable pub on_send : Lzo → ℕ → Loader → Io Loader
on_send lzo tries s = do
  addr ← get_uint
  size ← get_uint
  wrkmem ← get_uint
  send_data_block_compressed lzo (if wrkmem == 0 then false else true) tries
      (bytes_at size addr s.memory)
  ret s

unfoldable pub on_speed : Loader → Io Loader
on_speed s = do
  speed ← get_uint
  probe ← get_uint
  put_uint probe
  ret (record (log (serial_init speed) (log flush s)) { baud_rate = speed })

unfoldable pub on_capabilities : Loader → Io Loader
on_capabilities s = do
  host_capabilities ← get_uint
  put_uint s.capabilities
  ret (record s { host_capabilities = host_capabilities })

unfoldable pub on_setrtc : Loader → Io Loader
on_setrtc s = do timestamp ← get_uint; ret (log (set_rtc timestamp) s)

-- The `switch`; `version` is what `serial_io_puts` sends for the name.
unfoldable pub on_command : Lzo → ℕ → List ℕ → ℕ → Loader → Io Loader
on_command lzo tries version cmd s =
    if cmd == serial_cmd_execute
    then on_execute s
    else if cmd == serial_cmd_load_begin
    then on_load lzo s
    else if cmd == b'D'
    then on_send_plain s
    else if cmd == b'E'
    then on_send_plain s
    else if cmd == serial_cmd_download
    then on_send lzo tries s
    else if cmd == serial_cmd_download_q
    then on_send lzo tries s
    else if cmd == serial_cmd_cdfs_redir
    then ret (log cdfs_redir_enable s)
    else if cmd == serial_cmd_speed
    then on_speed s
    else if cmd == serial_cmd_setrtc
    then on_setrtc s
    else if cmd == serial_cmd_capabilities
    then on_capabilities s
    else if cmd == b'V'
    then (put_all version >> ret s)
    else if cmd == serial_cmd_reboot
    then ret (log reboot s)
    else ret (log (serial_init serial_default_speed) s)

-- One pass of the loop: the command, its echo and what it does.
unfoldable pub serial_transport_loop : Lzo → ℕ → List ℕ → Loader → Io Loader
serial_transport_loop lzo tries version s = do
  cmd ← get_byte
  put_byte cmd
  on_command lzo tries version cmd s
