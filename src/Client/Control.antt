-- ===== src/Client/Control.antt =====
-- client/common/core/commands.c: the commands that start a program, ask for the version and the
-- capabilities, or reach the clock, the maple bus and the performance counters.
use Prim.Native.String.{String}
use kos_tool.Prelude.{
  ℕ, zero, suc, ◌+◌, ◌-◌, ◌*◌, ◌/◌, ◌%◌, ◌^◌, Bool, true, false, ◌&&◌, ◌||◌, not, Option, none,
  some, List, [], ◌∷◌, ◌++◌, ltb, leb, ◌==◌, if◌then◌else◌, length, min, codes,
}
use kos_tool.Wire.{be32, get_be32, command_len}
use kos_tool.Client.{
  Client, Platform, Request, Info, Event, emit, bb_start, bb_stop, bb_init, disp_info, disp_status,
  reboot, set_console_enabled, cdfs_redir_enable, fw_update_prepare, execute, restart_timer,
  screensaver_reset, set_rtc, pmcr, answer, command_bytes, dctool_major, be16, read_bytes,
}
pub mod Execute
pub mod Replies

-- KOSLOAD_MAX_ARGV_DATA and UDP_H_LEN.
abbrev pub kosload_max_argv_data : ℕ
kosload_max_argv_data = 256

abbrev pub udp_h_len : ℕ
udp_h_len = 8

unfoldable pub cmd_reboot : Client → Client
cmd_reboot s = emit reboot (record s { booted = false; running = false })

-- The length of the data behind the command header; 32-bit subtraction of the UDP header first.
abbrev pub data_length : Request → ℕ
data_length req =
    let udp_payload = (req.udp_length + 2 ^ 32 - udp_h_len) % 2 ^ 32 in
    if ltb command_len udp_payload then udp_payload - command_len else 0

abbrev set_byte : ℕ → ℕ → (ℕ → ℕ) → ℕ → ℕ
set_byte at v m i = if i == at then v else m i

-- `memcpy(argv_data, command->data + 4, n); argv_data[n - 1] = '\0';`
abbrev pub copy_argv : ℕ → Request → (ℕ → ℕ) → ℕ → ℕ
copy_argv n req m = set_byte (n - 1) 0 (λ i. if ltb i n then req.data_at (4 + i) else m i)

-- The block that fills `argc` and `argv_data`.
unfoldable pub extract_argv : Request → Info → Info
extract_argv req info =
    let cleared = record info { argc = 0; argv_data = set_byte 0 0 info.argv_data } in
    let prog_argc = get_be32 (read_bytes 4 req.data_at 0) in
    let argv_data_len = data_length req - 4 in
    if ltb (data_length req) 5
    then cleared
    else if ltb 0 prog_argc && ltb 0 argv_data_len
    then record cleared {
      argc = prog_argc;
      argv_data = copy_argv (min argv_data_len kosload_max_argv_data) req cleared.argv_data;
    }
    else cleared

-- KOSLOAD_EXEC_CONSOLE, KOSLOAD_EXEC_CDFS and KOSLOAD_EXEC_FW_UPDATE: bits 0, 1 and 2.
abbrev pub exec_flag : ℕ → ℕ → Bool
exec_flag bit size = size / 2 ^ bit % 2 == 1

-- The addresses that the host announced by sending the command.
unfoldable pub adopt_host : Request → Client → Client
adopt_host req s = record s {
  tool_ip = req.ip_src;
  tool_port = req.udp_src;
  tool_mac = req.ether_src;
  our_ip = req.ip_dest;
  info = record s.info {
    console_ip = be32 req.ip_dest;
    console_port = be16 s.kosload_syscall_port;
    host_ip = be32 req.ip_src;
    host_port = be16 req.udp_src;
  };
}

abbrev prepare : Platform → Request → Client → Client
prepare p req s =
    if exec_flag 2 req.size
    then if p.has_fw_update_prepare then emit fw_update_prepare s else s
    else let console = emit (set_console_enabled (exec_flag 0 req.size)) s in
      if exec_flag 1 req.size && p.has_cdfs_redir then emit cdfs_redir_enable console else console

-- The handler before the program runs, and after.
unfoldable pub before_program : Platform → Request → Client → Client
unfolding adopt_host extract_argv
before_program p req s =
    let s1 = adopt_host req (emit bb_stop s) in
    let s2 = answer req s1.our_ip req.udp_dest (command_bytes req.id req.address req.size []) s1 in
    let s3 = record s2 { info = extract_argv req s2.info } in
    let s4 =
      if s3.booted
      then emit
          (disp_status (if exec_flag 2 req.size then "updating firmware..." else "executing...")) s3
      else emit disp_info s3 in
    emit (execute req.address) (record (prepare p req s4) { running = true })

unfoldable pub after_program : Client → Client
after_program s =
    let s1 = emit bb_start (emit bb_init (emit bb_stop (emit restart_timer s))) in
    emit screensaver_reset
      (emit (disp_status "idle...") (emit disp_info (record s1 { running = false })))

unfoldable pub cmd_execute : Platform → Request → Client → Client
cmd_execute p req s =
    if s.running then s else after_program (p.run_program req.address (before_program p req s))

-- An answer that comes from where the request went.
abbrev reply : Request → ℕ → ℕ → List ℕ → Client → Client
reply req address size data_bytes =
    answer req req.ip_dest req.udp_dest (command_bytes req.id address size data_bytes)

unfoldable pub cmd_capabilities : Request → Client → Client
cmd_capabilities req s =
    answer req s.our_ip s.kosload_syscall_port (command_bytes req.id s.info.capabilities 0 [])
      (record s { info = record s.info { host_capabilities = req.address } })

-- The texts end with a NUL, which the length counts.
unfoldable pub cmd_version : Platform → Request → Client → Client
cmd_version p req s =
    let s1 = record s { tool_version = req.address } in
    let s2 = record s1 {
      kosload_syscall_port = if ltb (dctool_major s1) 2 then 31313 else req.udp_dest;
    } in
    let text = p.banner ++ p.adapter_name ++ (0 ∷ []) in
    answer req s2.our_ip s2.kosload_syscall_port
      (command_bytes req.id p.installed_adapter (length text) text) s2

-- `maple_docmd` is the bus driver's, here the response that is not MAPLE_RESPONSE_AGAIN: the loop
-- ends with one.
unfoldable pub cmd_maple : (List ℕ → ℕ → ℕ) → Request → Client → Client
cmd_maple response req s =
    let res = response (read_bytes 4 req.data_at 0) in
    let n = if ltb (res 0) 128 then (res 3 + 1) * 4 else 4 in
    reply req req.address n (read_bytes n res 0) s

unfoldable pub cmd_setrtc : Request → Client → Client
cmd_setrtc req s = reply req req.address req.size [] (emit (set_rtc req.address) s)

-- The performance counters. `read_array` and `getconfig_array` are what PMCR_Read and
-- PMCR_Get_Config give for a channel; the texts are copied with their NUL.
abbrev pub ok_message : List ℕ
ok_message = codes "OK" ++ (0 ∷ [])

abbrev pub invalid_read_message : List ℕ
invalid_read_message = codes "PMCR: chan 1 or 2 only." ++ (0 ∷ [])

abbrev pub invalid_function_message : List ℕ
invalid_function_message = codes "PMCR: I, E, B, R, G, S, or D only." ++ (0 ∷ [])

abbrev pub invalid_option_message : List ℕ
invalid_option_message = codes "PMCR: chan 1, 2, or 3 (both) only." ++ (0 ∷ [])

abbrev pub invalid_mode_message : List ℕ
invalid_mode_message = codes "PMCR modes: 0x1-0x29." ++ (0 ∷ [])

abbrev pub invalid_count_type_message : List ℕ
invalid_count_type_message = codes "PMCR count: 0 or 1 only." ++ (0 ∷ [])

abbrev pub invalid_reset_type_message : List ℕ
invalid_reset_type_message = codes "PMCR reset: 0 or 1 only." ++ (0 ∷ [])

abbrev bad_mode : ℕ → Bool
bad_mode mode = (mode == 0) || ltb 0x29 mode

abbrev bad_channel : ℕ → ℕ → Bool
bad_channel top channel = (channel == 0) || ltb top channel

-- The answer's text and the counter operation that is done, if any.
unfoldable pub pmcr_request : (ℕ → List ℕ) → (ℕ → List ℕ) → (ℕ → ℕ) → List ℕ × Option Event
pmcr_request read_array getconfig_array d =
    if bad_channel 3 (d 1)
    then (invalid_option_message, none)
    else if d 0 == b'I'
    then (if bad_mode (d 2)
        then (invalid_mode_message, none)
        else if ltb 1 (d 3)
        then (invalid_count_type_message, none)
        else (ok_message, some (pmcr (d 0) (read_bytes 3 d 1))))
    else if d 0 == b'E'
    then (if bad_mode (d 2)
        then (invalid_mode_message, none)
        else if ltb 1 (d 3)
        then (invalid_count_type_message, none)
        else if ltb 1 (d 4)
        then (invalid_reset_type_message, none)
        else (ok_message, some (pmcr (d 0) (read_bytes 4 d 1))))
    else if d 0 == b'B'
    then (if bad_mode (d 2)
        then (invalid_mode_message, none)
        else if ltb 1 (d 3)
        then (invalid_count_type_message, none)
        else (ok_message, some (pmcr (d 0) (read_bytes 3 d 1))))
    else if d 0 == b'R'
    then (if bad_channel 2 (d 1)
        then (invalid_read_message, none)
        else (read_array (d 1), some (pmcr (d 0) (read_bytes 1 d 1))))
    else if d 0 == b'G'
    then (if bad_channel 2 (d 1)
        then (invalid_read_message, none)
        else (getconfig_array (d 1), some (pmcr (d 0) (read_bytes 1 d 1))))
    else if (d 0 == b'S') || (d 0 == b'D')
    then (ok_message, some (pmcr (d 0) (read_bytes 1 d 1)))
    else (invalid_function_message, none)

unfoldable pub cmd_pmcr : (ℕ → List ℕ) → (ℕ → List ℕ) → Request → Client → Client
unfolding pmcr_request
cmd_pmcr read_array getconfig_array req s =
    let (text, operation) = pmcr_request read_array getconfig_array req.data_at in
    reply req req.address (length text) text (elim operation [ none ↦ s | some e ↦ emit e s ])
