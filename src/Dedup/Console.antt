-- ===== src/Dedup/Console.antt =====
-- host/src/console.c: sending one command with its trailer (`net_send_cmd`), and one round of the
-- console loop (`do_network_console`) around the cache of dedup.c. What a system call does on the
-- host is the argument `handle`: from the host's world and the request it gives the world after
-- it and the commands that it sends, in order.
use kos_tool.Prelude.{
  ℕ, ◌+◌, ◌-◌, Bool, ◌&&◌, ◌||◌, Option, none, some, List, [], ◌∷◌, ◌++◌, ltb, if◌then◌else◌,
  length, drop, take, replicate, ◌/◌, ◌*◌,
}
use kos_tool.Wire.{same_bytes, be32, get_be32, seq_trailer, net_seq_trailer_len}
use kos_tool.Dedup.{
  State, dedup_extract_seq, dedup_try_replay, dedup_is_stale, dedup_begin_capture,
  dedup_capture_pkt, dedup_end_capture, dedup_current_seq, dedup_is_capturing,
}

-- NET_CMD_RETVAL, NET_SYSCALL_EXIT, NET_SYSCALL_PROGEXIT.
abbrev pub net_cmd_retval : List ℕ
net_cmd_retval = b'R' ∷ b'E' ∷ b'T' ∷ b'V' ∷ []

abbrev pub net_syscall_exit : List ℕ
net_syscall_exit = b'D' ∷ b'C' ∷ b'0' ∷ b'0' ∷ []

abbrev pub net_syscall_progexit : List ℕ
net_syscall_progexit = b'D' ∷ b'C' ∷ b'2' ∷ b'2' ∷ []

pub record Cmd : Type 0 where
  pub cmd : List ℕ
  pub addr : ℕ
  pub size : ℕ
  pub payload : List ℕ

-- The wire bytes: at most 2048 - 12 - 8 of data, and the trailer on a RETVAL during a capture.
unfoldable pub net_wire : Cmd → State → List ℕ
unfolding dedup_is_capturing dedup_current_seq
net_wire c s =
    let body = c.cmd ++ be32 c.addr ++ be32 c.size ++ take 2028 c.payload in
    if dedup_is_capturing s && same_bytes 4 c.cmd net_cmd_retval
    then body ++ seq_trailer (dedup_current_seq s)
    else body

-- A send that succeeds is also captured. The waits before a RETVAL on two adapters are left out.
unfoldable pub net_send_cmd : Cmd → State → State × List ℕ
net_send_cmd c s = (dedup_capture_pkt (net_wire c s) s, net_wire c s)

-- NET_CMD_SENDBIN and NET_CMD_SENDBINQ.
abbrev pub net_cmd_sendbin : List ℕ
net_cmd_sendbin = b'S' ∷ b'B' ∷ b'I' ∷ b'N' ∷ []

abbrev pub net_cmd_sendbinq : List ℕ
net_cmd_sendbinq = b'S' ∷ b'B' ∷ b'I' ∷ b'Q' ∷ []

-- `(wire_size + 3) & ~3`, filled up with zeros; for a Wii loader only.
abbrev pub padded : Bool → List ℕ → List ℕ
padded wii b = if wii then b ++ replicate ((length b + 3) / 4 * 4 - length b) 0 else b

-- The transport's `send_cmd` (host/src/transport/network.c): at most 2048 - 12 - 3 of data, and a
-- request that pulls guest memory is never captured.
unfoldable pub send_cmd : Bool → Cmd → State → State × List ℕ
send_cmd wii c s =
    let wire = padded wii (c.cmd ++ be32 c.addr ++ be32 c.size ++ take 2033 c.payload) in
    (
      if same_bytes 4 c.cmd net_cmd_sendbinq || same_bytes 4 c.cmd net_cmd_sendbin
          then s
          else dedup_capture_pkt wire s,
      wire,
    )

-- A handler sends by the one or by the other.
pub data Send : Type 0 where
  reply : Cmd → Send
  bulk : Bool → Cmd → Send

unfoldable pub send_one : Send → State → State × List ℕ
unfolding net_send_cmd send_cmd
send_one (reply c) s = net_send_cmd c s
send_one (bulk wii c) s = send_cmd wii c s

unfoldable pub send_all : List Send → State → State × List (List ℕ)
send_all [] s = (s, [])
send_all (c ∷ cs) s =
    let (s', sent) = send_one c s in let (s'', rest) = send_all cs s' in (s'', sent ∷ rest)

-- `buffer[pkt_len] = '\0'` in the 2048-byte buffer.
abbrev pub terminated : List ℕ → List ℕ
terminated pkt = if ltb (length pkt) 2048 then pkt ++ (0 ∷ []) else take 2047 pkt ++ (0 ∷ [])

-- What one round does: the number of the request that it ran, if it was a tagged one, whether a
-- request ran at all, what it put on the wire, and the exit code when the program ended.
pub record Round (H : Type 0) : Type 0 where
  pub cache : State
  pub world : H
  pub ran : Option ℕ
  pub sent : List (List ℕ)
  pub exit_code : Option ℕ

module _ {H : Type 0} (handle : H → List ℕ → H × List Send) where
  abbrev pub idle : State → H → List (List ℕ) → Round H
  idle s h sent = record { cache = s; world = h; ran = none; sent = sent; exit_code = none }

  -- From `buffer[pkt_len] = '\0'` to the end of the loop's body. `tag` is the request's number
  -- when `dedup_active` is set.
  unfoldable pub dispatch : Option ℕ → List ℕ → State → H → Round H
  dispatch tag pkt s h =
      if same_bytes 4 (terminated pkt) net_syscall_exit
        || same_bytes 4 (terminated pkt) net_syscall_progexit
      then record {
        cache = s;
        world = h;
        ran = none;
        sent = [];
        exit_code = some (get_be32 (drop 4 (terminated pkt)));
      }
      else (let (h', cmds) = handle h (terminated pkt) in
          let (s', sent) = send_all cmds s in
          record {
            cache = elim tag [ none ↦ s' | some _ ↦ dedup_end_capture s' ];
            world = h';
            ran = tag;
            sent = sent;
            exit_code = none;
          })

  unfoldable pub serve_tagged : ℕ → List ℕ → ℕ → State → H → Round H
  serve_tagged seq pkt now s h = elim (dedup_try_replay seq now s) [
    | some sent ↦ idle s h sent
    | none ↦
        if dedup_is_stale seq s
        then idle s h []
        else dispatch (some seq) (take (length pkt - net_seq_trailer_len) pkt)
            (dedup_begin_capture seq now s) h
  ]

  -- One packet of the loop, received at time `now`.
  unfoldable pub console_round : List ℕ → ℕ → State → H → Round H
  console_round pkt now s h =
      if ltb (length pkt) 4 then idle s h [] else elim (dedup_extract_seq pkt (length pkt)) [
        | none ↦ dispatch none pkt s h
        | some seq ↦ serve_tagged seq pkt now s h
      ]
