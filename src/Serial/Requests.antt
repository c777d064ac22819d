-- ===== src/Serial/Requests.antt =====
-- What host/src/transport/serial.c sends for a request of the tool.
use kos_tool.Prelude.{
  ℕ, zero, suc, ◌+◌, ◌-◌, ◌*◌, ◌%◌, ◌^◌, Bool, true, false, ◌&&◌, List, [], ◌∷◌, ◌++◌, length,
  get_or, ltb, leb, ◌==◌, if◌then◌else◌, add32,
}
use kos_tool.Serial.Io.{Io, ret, put, get, stuck, ◌>>=◌, ◌>>◌, put_byte, get_byte, put_all, get_all}
use kos_tool.Serial.Loader.{Lzo}
use kos_tool.Serial.Tool.{send_uint, recv_uint, lzo_send_data, lzo_recv_data}
use kos_tool.Serial.Commands.{
  serial_cmd_execute, serial_cmd_load_begin, serial_cmd_download, serial_cmd_download_q,
  serial_cmd_cdfs_redir, serial_cmd_capabilities, serial_cmd_speed, serial_cmd_setrtc,
}
pub mod Served
pub mod Executed

-- A command byte and the reading of its echo.
unfoldable pub command : ℕ → Io ℕ
command c = do put_byte c; get_byte

unfoldable pub serial_send_data : Lzo → ℕ → List ℕ → ℕ → Io (Unit {0})
serial_send_data lzo tries bytes dest_addr = do
  command serial_cmd_load_begin
  send_uint dest_addr
  send_uint (length bytes)
  lzo_send_data lzo tries bytes

abbrev pub lzo_wrkmem_size : ℕ
lzo_wrkmem_size = 65536

-- The work memory that is asked for: none where the range to read meets it.
unfoldable pub wrkmem_for : ℕ → ℕ → ℕ → ℕ
wrkmem_for wrkmem_addr src_addr size =
    if ltb src_addr (add32 wrkmem_addr lzo_wrkmem_size) && ltb wrkmem_addr (add32 src_addr size)
    then 0
    else wrkmem_addr

unfoldable pub serial_recv_data : Lzo → ℕ → ℕ → ℕ → Bool → Io (List ℕ)
serial_recv_data lzo wrkmem_addr src_addr size quiet = do
  command (if quiet then serial_cmd_download_q else serial_cmd_download)
  send_uint src_addr
  send_uint size
  send_uint (wrkmem_for wrkmem_addr src_addr size)
  lzo_recv_data lzo size size

-- The console word: the flag of the console, the arguments' and the firmware update's.
abbrev pub console_flags : Bool → Bool → Bool → ℕ
console_flags console_enabled send_argv send_fw_update =
    (if console_enabled then 1 else 0)
    + (if send_argv then 2 ^ 31 else 0)
    + (if send_fw_update then 2 ^ 30 else 0)

-- `argv_data` is the arguments' text, each closed by a zero.
unfoldable pub send_arguments : Bool → ℕ → List ℕ → Io (Unit {0})
send_arguments send_argv prog_argc argv_data =
    if send_argv
    then (do send_uint prog_argc; send_uint (length argv_data); put_all argv_data)
    else ret tt

unfoldable pub serial_execute : ℕ → Bool → Bool → Bool → ℕ → List ℕ → Bool → Io (Unit {0})
serial_execute addr console_enabled cdfs_redir supports_argv prog_argc argv_data send_fw_update = do
  let send_argv = ltb 0 prog_argc && supports_argv
  (if cdfs_redir then command serial_cmd_cdfs_redir else ret 0)
  command serial_cmd_execute
  send_uint addr
  send_uint (console_flags console_enabled send_argv send_fw_update)
  send_arguments send_argv prog_argc argv_data

-- The result is what the loader sends back for the probe at the new speed.
unfoldable pub serial_change_speed : ℕ → Io ℕ
serial_change_speed wire_speed = do
  command serial_cmd_speed
  send_uint wire_speed
  send_uint 0xdeadbeef
  recv_uint

unfoldable pub serial_set_rtc : ℕ → Io (Unit {0})
serial_set_rtc timestamp = do command serial_cmd_setrtc; send_uint timestamp; ret tt

-- The capability query of `serial_init`.
unfoldable pub query_capabilities : ℕ → Io ℕ
query_capabilities kostool_capabilities = do
  command serial_cmd_capabilities
  send_uint kostool_capabilities
  recv_uint
