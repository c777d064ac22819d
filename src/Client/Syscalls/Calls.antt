-- ===== src/Client/Syscalls/Calls.antt =====
-- client/common/network/network_syscalls.c: the calls that a loaded program makes. Each builds its
-- command, sends it and waits; the value is the new state and the result. A path is the list of
-- its bytes without the final NUL. Numbers are 32-bit patterns.
use kos_tool.Prelude.{
  ℕ, ◌+◌, ◌-◌, ◌/◌, ◌%◌, ◌^◌, ◌&&◌, none, some, List, [], ◌∷◌, ◌++◌, ltb, leb, ◌==◌, if◌then◌else◌,
}
use kos_tool.Wire.{be32, same_bytes, net_inline_ret_magic, net_payload_size}
use kos_tool.Client.{Client, Platform, write_memory, read_bytes, dctool_major}
use kos_tool.Client.Syscalls.{build_send_packet, kos_syscall_wait_for_retval, host_supports_dedup}

-- NET_WRITE_INLINE_MAX, sizeof(kosload_stat_t), sizeof(dc_dirent_t), sizeof(net_command_3int_t).
abbrev pub net_write_inline_max : ℕ
net_write_inline_max = 512

abbrev pub stat_size : ℕ
stat_size = 60

abbrev pub dirent_size : ℕ
dirent_size = 268

abbrev pub command_3int_size : ℕ
command_3int_size = 16

-- The four characters of a system call's id, "DC" and two digits.
abbrev pub dc_id : ℕ → ℕ → List ℕ
dc_id tens ones = b'D' ∷ b'C' ∷ (b'0' + tens) ∷ (b'0' + ones) ∷ []

-- `build_send_packet(…); kos_syscall_wait_for_retval();`
unfoldable pub call : Platform → List ℕ → Client → Client
call p command s = kos_syscall_wait_for_retval p (build_send_packet command s)

abbrev pub result : Client → Client × ℕ
result s = (s, s.syscall_retval)

-- `append_inline_ret_magic`, for a host that knows it.
abbrev pub inline_hint : Client → List ℕ
inline_hint s = if host_supports_dedup s then net_inline_ret_magic else []

-- `copy_inline_ret(dst, count)`.
unfoldable pub copy_inline_ret : ℕ → ℕ → Client → Client
copy_inline_ret dst count s = elim s.syscall_data [
  | none ↦ s
  | some received ↦
      if (s.syscall_data_len == 4 + count)
        && same_bytes 4 (read_bytes 4 received 0) net_inline_ret_magic
      then record s { memory = write_memory s.memory dst count (λ i. received (4 + i)) }
      else s
]

unfoldable pub read : Platform → ℕ → ℕ → ℕ → Client → Client × ℕ
read p fd buf count s = result (call p (dc_id 0 3 ++ be32 fd ++ be32 buf ++ be32 count) s)

-- The bytes that go along with a short write to a host that takes them.
abbrev pub write_inline : ℕ → ℕ → Client → List ℕ
write_inline buf count s =
    if host_supports_dedup s
      && (ltb 0 count
          && (leb count net_write_inline_max && leb count (net_payload_size - command_3int_size)))
    then read_bytes count (λ i. s.memory ((buf + i) % 2 ^ 32)) 0
    else []

unfoldable pub write : Platform → ℕ → ℕ → ℕ → Client → Client × ℕ
write p fd buf count s =
    let id = if ltb (dctool_major s) 2 then b'D' ∷ b'D' ∷ b'0' ∷ b'2' ∷ [] else dc_id 0 2 in
    result (call p (id ++ be32 fd ++ be32 buf ++ be32 count ++ write_inline buf count s) s)

unfoldable pub open_file : Platform → List ℕ → ℕ → ℕ → Client → Client × ℕ
open_file p pathname flags mode s =
    result (call p (dc_id 0 4 ++ be32 flags ++ be32 mode ++ pathname ++ (0 ∷ [])) s)

unfoldable pub close : Platform → ℕ → Client → Client × ℕ
close p fd s = result (call p (dc_id 0 5 ++ be32 fd) s)

unfoldable pub creat : Platform → List ℕ → ℕ → Client → Client × ℕ
creat p pathname mode s = result (call p (dc_id 0 6 ++ be32 mode ++ pathname ++ (0 ∷ [])) s)

unfoldable pub link : Platform → List ℕ → List ℕ → Client → Client × ℕ
link p oldpath newpath s =
    result (call p (dc_id 0 7 ++ oldpath ++ (0 ∷ []) ++ newpath ++ (0 ∷ [])) s)

unfoldable pub unlink : Platform → List ℕ → Client → Client × ℕ
unlink p pathname s = result (call p (dc_id 0 8 ++ pathname ++ (0 ∷ [])) s)

unfoldable pub chdir : Platform → List ℕ → Client → Client × ℕ
chdir p path s = result (call p (dc_id 0 9 ++ path ++ (0 ∷ [])) s)

unfoldable pub chmod : Platform → List ℕ → ℕ → Client → Client × ℕ
chmod p path mode s = result (call p (dc_id 1 0 ++ be32 mode ++ path ++ (0 ∷ [])) s)

unfoldable pub mkdir : Platform → List ℕ → ℕ → Client → Client × ℕ
mkdir p path mode s = result (call p (dc_id 2 3 ++ be32 mode ++ path ++ (0 ∷ [])) s)

unfoldable pub lseek : Platform → ℕ → ℕ → ℕ → Client → Client × ℕ
lseek p fd offset whence s = result (call p (dc_id 1 1 ++ be32 fd ++ be32 offset ++ be32 whence) s)

-- `(int)syscall_retval >= 0 && host_supports_dedup()`: the inlined result is copied.
abbrev pub take_inline : ℕ → ℕ → Client → Client
take_inline dst count s =
    if ltb s.syscall_retval (2 ^ 31) && host_supports_dedup s
    then copy_inline_ret dst count s
    else s

unfoldable pub fstat : Platform → ℕ → ℕ → Client → Client × ℕ
fstat p fd buf s = result (
    take_inline buf stat_size
      (call p (dc_id 0 1 ++ be32 fd ++ be32 buf ++ be32 stat_size ++ inline_hint s) s))

-- `*t = syscall_retval`, in the target's byte order; `store` gives the bytes of a word there.
unfoldable pub time : Platform → (ℕ → ℕ → ℕ) → ℕ → Client → Client × ℕ
time p store t s =
    let after = call p (dc_id 1 2 ++ be32 t) s in
    result (
      if t == 0
      then after
      else record after { memory = write_memory after.memory t 4 (store after.syscall_retval) })

unfoldable pub stat : Platform → List ℕ → ℕ → Client → Client × ℕ
stat p pathname buf s = result (
    take_inline buf stat_size
      (call p (dc_id 1 3 ++ be32 buf ++ be32 stat_size ++ pathname ++ (0 ∷ []) ++ inline_hint s) s))

-- `times` are the two words at `buf`; with a null `buf` the two fields keep what the transmit
-- buffer held, `stale`.
unfoldable pub utime : Platform → List ℕ → ℕ → ℕ × ℕ → List ℕ → Client → Client × ℕ
utime p filename buf times stale s =
    let fields = if buf == 0 then stale else be32 times.0 ++ be32 times.1 in
    result (call p (dc_id 1 4 ++ be32 buf ++ fields ++ filename ++ (0 ∷ [])) s)

unfoldable pub opendir : Platform → List ℕ → Client → Client × ℕ
opendir p name s = result (call p (dc_id 1 6 ++ name ++ (0 ∷ [])) s)

unfoldable pub closedir : Platform → ℕ → Client → Client × ℕ
closedir p dir s = result (call p (dc_id 1 7 ++ be32 dir) s)

-- `our_dir` is the address of the private entry; the result is that address or null.
unfoldable pub readdir : Platform → ℕ → ℕ → Client → Client × ℕ
readdir p our_dir dir s =
    let after =
      call p (dc_id 1 8 ++ be32 dir ++ be32 our_dir ++ be32 dirent_size ++ inline_hint s) s in
    if after.syscall_retval == 0 then (after, 0) else (
      if host_supports_dedup after then copy_inline_ret our_dir dirent_size after else after,
      our_dir,
    )

-- `in_size` is the high half of `size_pack` and `out_size` the low one.
unfoldable pub gdbpacket : Platform → ℕ → ℕ → ℕ → Client → Client × ℕ
gdbpacket p in_buf size_pack out_buf s =
    let in_size = size_pack / 65536 in
    let out_size = size_pack % 65536 in
    let sent = read_bytes in_size (λ i. s.memory ((in_buf + i) % 2 ^ 32)) 0 in
    let after = call p (dc_id 2 0 ++ be32 in_size ++ be32 out_size ++ sent) s in
    result (elim after.syscall_data [
      | none ↦ after
      | some received ↦
          if leb after.syscall_retval out_size
          then record after {
            memory = write_memory after.memory out_buf after.syscall_retval received;
          }
          else after
    ])

unfoldable pub rewinddir : Platform → ℕ → Client → Client × ℕ
rewinddir p dir s = result (call p (dc_id 2 1 ++ be32 dir) s)

-- The host's address and port, and the console's address.
unfoldable pub gethostinfo : Client → ℕ × ℕ × ℕ
gethostinfo s = (s.tool_ip, s.tool_port, s.our_ip)
