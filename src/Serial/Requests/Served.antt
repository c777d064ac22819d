-- ===== src/Serial/Requests/Served.antt =====
-- A request of host/src/transport/serial.c and the loader's pass of
-- client/common/serial/serial_transport.c that serves it.
use kos_tool.Prelude.{
  ℕ, zero, suc, ◌+◌, ◌%◌, ◌^◌, ◌<◌, ◌≡◌, refl, subst, ap, Bool, true, false, List, length, arith,
}
use kos_tool.Serial.Io.{ret, ◌>>◌}
use kos_tool.Serial.Io.Meets.{
  done, tool_puts, tool_gets, loader_puts, loader_gets, Agree, loader_ends, tool_then, loader_last,
}
use kos_tool.Serial.Loader.{Lzo, IsLzo, send_data_block_compressed}
use kos_tool.Serial.Tool.{send_uint, lzo_recv_data}
use kos_tool.Serial.Blocks.{uint_down, uint_up, lzo_send_data-load_data_block_general}
use kos_tool.Serial.Sending.{send_data_block_compressed-lzo_recv_data}
use kos_tool.Serial.Commands.{
  Loader, serial_transport_loop, on_command, on_load, on_send, on_speed, on_capabilities, on_setrtc,
  store_all, bytes_at, log, serial_init, flush, set_rtc,
}
use kos_tool.Serial.Requests.{
  command, serial_send_data, serial_recv_data, serial_change_speed, serial_set_rtc,
  query_capabilities, wrkmem_for,
}

module _ (lzo : Lzo) (is : IsLzo lzo) (tries : ℕ) (version : List ℕ) (s : Loader) where
  -- Over LZO that restores what it compressed, for an address and a length of 32 bits: the host's
  -- upload and one pass of the loader's loop agree on every byte of the line, and the loader's
  -- memory then holds the host's bytes from the address on, all else unchanged.
  pub serial_send_data-loop :
      (bytes : List ℕ) (addr : ℕ)
      → addr < 2 ^ 32
      → length bytes < 2 ^ 32
      → Agree
          (serial_send_data lzo (suc tries) bytes addr)
          (serial_transport_loop lzo (suc tries) version s)
          tt
          (record s { memory = store_all bytes addr s.memory })
  unfolding serial_send_data command serial_transport_loop on_command on_load
  serial_send_data-loop bytes addr low short = tool_puts (
      loader_gets (
        loader_puts (
          tool_gets (
            tool_then _ (uint_down addr low) (
              tool_then _ (uint_down (length bytes) short) (
                loader_ends (λ (l : List ℕ). record s { memory = store_all l addr s.memory })
                  (lzo_send_data-load_data_block_general lzo is tries bytes)))))))

  length-bytes_at : (n at : ℕ) → length (bytes_at n at s.memory) ≡ n
  length-bytes_at zero at = refl
  length-bytes_at (suc n) at = ap suc (length-bytes_at n ((at + 1) % 2 ^ 32))

  block_sent :
      (wrkmem : Bool) (addr size : ℕ)
      → 0 < size
      → size < 2 ^ 32
      → Agree
          (lzo_recv_data lzo size size)
          (do
            send_data_block_compressed lzo wrkmem (suc tries) (bytes_at size addr s.memory)
            ret s)
          (bytes_at size addr s.memory)
          s
  block_sent wrkmem addr size some_bytes short =
      let bytes = bytes_at size addr s.memory in
      loader_last _ refl (
        subst
          (λ n.
            Agree (lzo_recv_data lzo n n) (send_data_block_compressed lzo wrkmem (suc tries) bytes)
              bytes tt)
          (length-bytes_at size addr)
          (send_data_block_compressed-lzo_recv_data lzo is tries wrkmem bytes
            (omega (arith, length-bytes_at size addr)) (omega (arith, length-bytes_at size addr))))

  sent :
      (wrkmem_addr addr size : ℕ)
      → wrkmem_addr < 2 ^ 32
      → addr < 2 ^ 32
      → 0 < size
      → size < 2 ^ 32
      → Agree
          (do
            send_uint addr
            send_uint size
            send_uint (wrkmem_for wrkmem_addr addr size)
            lzo_recv_data lzo size size)
          (on_send lzo (suc tries) s)
          (bytes_at size addr s.memory)
          s
  unfolding on_send wrkmem_for
  sent wrkmem_addr addr size wrk low some_bytes short = tool_then _ (uint_down addr low) (
      tool_then _ (uint_down size short) (
        tool_then _ (uint_down (wrkmem_for wrkmem_addr addr size) (ground arith))
          (block_sent _ addr size some_bytes short)))

  -- A download of at least a byte over the serial line gives the host the bytes of the loader's memory at
  -- the address and leaves the loader's state as it was.
  pub serial_recv_data-loop :
      (wrkmem_addr addr size : ℕ) (quiet : Bool)
      → wrkmem_addr < 2 ^ 32
      → addr < 2 ^ 32
      → 0 < size
      → size < 2 ^ 32
      → Agree
          (serial_recv_data lzo wrkmem_addr addr size quiet)
          (serial_transport_loop lzo (suc tries) version s)
          (bytes_at size addr s.memory)
          s
  unfolding serial_recv_data command serial_transport_loop on_command on_send
  serial_recv_data-loop wrkmem_addr addr size true wrk low some_bytes short =
      tool_puts (
        loader_gets (loader_puts (tool_gets (sent wrkmem_addr addr size wrk low some_bytes short))))
  serial_recv_data-loop wrkmem_addr addr size false wrk low some_bytes short =
      tool_puts (
        loader_gets (loader_puts (tool_gets (sent wrkmem_addr addr size wrk low some_bytes short))))

  -- The host reads back the word it sent, and the loader has flushed and opened the line at the speed.
  pub serial_change_speed-loop :
      (wire_speed : ℕ)
      → wire_speed < 2 ^ 32
      → Agree
          (serial_change_speed wire_speed)
          (serial_transport_loop lzo (suc tries) version s)
          0xdeadbeef
          (record (log (serial_init wire_speed) (log flush s)) { baud_rate = wire_speed })
  unfolding serial_change_speed command serial_transport_loop on_command on_speed
  serial_change_speed-loop wire_speed low = tool_puts (
      loader_gets (
        loader_puts (
          tool_gets (
            tool_then _ (uint_down wire_speed low) (
              tool_then _ (uint_down 0xdeadbeef (omega arith))
                (loader_last _ refl (uint_up 0xdeadbeef (omega arith))))))))

  -- Each side learns the other's capabilities.
  pub query_capabilities-loop :
      (kostool_capabilities : ℕ)
      → kostool_capabilities < 2 ^ 32
      → s.capabilities < 2 ^ 32
      → Agree
          (query_capabilities kostool_capabilities)
          (serial_transport_loop lzo (suc tries) version s)
          s.capabilities
          (record s { host_capabilities = kostool_capabilities })
  unfolding query_capabilities command serial_transport_loop on_command on_capabilities
  query_capabilities-loop kostool_capabilities low mine = tool_puts (
      loader_gets (
        loader_puts (
          tool_gets (
            tool_then _ (uint_down kostool_capabilities low)
              (loader_last _ refl (uint_up s.capabilities mine))))))

  -- The loader sets its clock to the host's timestamp.
  pub serial_set_rtc-loop :
      (timestamp : ℕ)
      → timestamp < 2 ^ 32
      → Agree
          (serial_set_rtc timestamp)
          (serial_transport_loop lzo (suc tries) version s)
          tt
          (log (set_rtc timestamp) s)
  unfolding serial_set_rtc command serial_transport_loop on_command on_setrtc
  serial_set_rtc-loop timestamp low =
      tool_puts (loader_gets (loader_puts (tool_gets (tool_then _ (uint_down timestamp low) done))))
