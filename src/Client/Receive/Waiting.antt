-- ===== src/Client/Receive/Waiting.antt =====
-- What a datagram can do to a program that waits for the answer to its system call
-- (client/common/network/net.c and client/common/core/commands.c).
use kos_tool.Prelude.{
  ℕ, ◌≤◌, ◌≡◌, ◌≢◌, refl, ◌∙◌, arith, Bool, true, List, [], ◌∷◌, ◌==◌, ◌||◌, ◌&&◌, Bool-cases, inl,
  inr, if◌then◌else◌,
}
use kos_tool.Client.{
  Client, Platform, Request, emit, disp_info, disp_status, screensaver_wake,
  net_bump_syscall_deadline,
}
use kos_tool.Client.Upload.{cmd_loadbin, cmd_partbin, cmd_donebin, open_transfer, size_limit}
use kos_tool.Client.Download.{Chunk, cmd_sendbinq, cmd_sendbin, send_chunks, plan_chunks}
use kos_tool.Client.Control.{
  cmd_reboot, cmd_execute, cmd_capabilities, cmd_version, cmd_maple, cmd_pmcr, cmd_setrtc,
}
use kos_tool.Client.Receive.{
  Devices, Command, partbin, maple, pmcr, donebin, retval, loadbin, sendbinq, sendbin, execute,
  version, capabilities, setrtc, reboot, unknown, handle, process_udp, command_of,
}

-- The state of the wait is the same: the result, the data, the number in flight, the end of the loop.
pub record SameWait (s t : Client) : Type 0 where
  pub value : t.syscall_retval ≡ s.syscall_retval
  pub data_bytes : t.syscall_data ≡ s.syscall_data
  pub data_length : t.syscall_data_len ≡ s.syscall_data_len
  pub number : t.kos_syscall_seq ≡ s.kos_syscall_seq
  pub goes_on : t.escape_loop ≡ s.escape_loop

send_chunks-SameWait :
    (req : Request) (cs : List Chunk) (s : Client) → SameWait s (send_chunks req cs s)
unfolding send_chunks
send_chunks-SameWait req [] s = record {
  value = refl;
  data_bytes = refl;
  data_length = refl;
  number = refl;
  goes_on = refl;
}
send_chunks-SameWait req (c ∷ cs) s =
    let w = send_chunks-SameWait req cs _ in
    record {
      value = w.value;
      data_bytes = w.data_bytes;
      data_length = w.data_length;
      number = w.number;
      goes_on = w.goes_on;
    }

-- The answer to a system call, and a LBIN that is refused, are left out.
abbrev pub IsHarmless : Platform → Command → Request → Client → Type 0
IsHarmless p c req s = (c ≢ retval) × (c ≡ loadbin → req.size ≤ size_limit p s)

same : (s : Client) → SameWait s s
same s = record {
  value = refl;
  data_bytes = refl;
  data_length = refl;
  number = refl;
  goes_on = refl;
}

join : (s t u : Client) → SameWait s t → SameWait t u → SameWait s u
join s t u a b = record {
  value = b.value ∙ a.value;
  data_bytes = b.data_bytes ∙ a.data_bytes;
  data_length = b.data_length ∙ a.data_length;
  number = b.number ∙ a.number;
  goes_on = b.goes_on ∙ a.goes_on;
}

bump-SameWait : (p : Platform) (s : Client) → SameWait s (net_bump_syscall_deadline p s)
unfolding net_bump_syscall_deadline
bump-SameWait p s = record {
  value = ground arith;
  data_bytes = ground arith;
  data_length = ground arith;
  number = ground arith;
  goes_on = ground arith;
}

cmd_partbin-SameWait :
    (p : Platform) (req : Request) (s : Client) → SameWait s (cmd_partbin p req s)
unfolding cmd_partbin
cmd_partbin-SameWait p req s =
    let w = bump-SameWait p s in
    record {
      value = ground (arith, w.value);
      data_bytes = ground (arith, w.data_bytes);
      data_length = ground (arith, w.data_length);
      number = ground (arith, w.number);
      goes_on = ground (arith, w.goes_on);
    }

cmd_donebin-SameWait :
    (p : Platform) (req : Request) (s : Client) → SameWait s (cmd_donebin p req s)
unfolding cmd_donebin
cmd_donebin-SameWait p req s =
    let w = bump-SameWait p s in
    record {
      value = ground (arith, w.value);
      data_bytes = ground (arith, w.data_bytes);
      data_length = ground (arith, w.data_length);
      number = ground (arith, w.number);
      goes_on = ground (arith, w.goes_on);
    }

cmd_maple-SameWait :
    (response : List ℕ → ℕ → ℕ) (req : Request) (s : Client) → SameWait s (cmd_maple response req s)
unfolding cmd_maple
cmd_maple-SameWait response req s = record {
  value = refl;
  data_bytes = refl;
  data_length = refl;
  number = refl;
  goes_on = refl;
}

cmd_pmcr-SameWait :
    (read_array getconfig_array : ℕ → List ℕ) (req : Request) (s : Client)
    → SameWait s (cmd_pmcr read_array getconfig_array req s)
unfolding cmd_pmcr
cmd_pmcr-SameWait read_array getconfig_array req s = record {
  value = ground arith;
  data_bytes = ground arith;
  data_length = ground arith;
  number = ground arith;
  goes_on = ground arith;
}

-- A LBIN whose size is let through.
cmd_loadbin-SameWait :
    (p : Platform) (text : ℕ) (req : Request) (s : Client)
    → req.size ≤ size_limit p s
    → SameWait s (cmd_loadbin p text req s)
unfolding cmd_loadbin open_transfer net_bump_syscall_deadline
cmd_loadbin-SameWait p text req s fits = record {
  value = ground arith;
  data_bytes = ground arith;
  data_length = ground arith;
  number = ground arith;
  goes_on = ground arith;
}

cmd_sendbinq-SameWait :
    (p : Platform) (req : Request) (s : Client) → SameWait s (cmd_sendbinq p req s)
unfolding cmd_sendbinq
cmd_sendbinq-SameWait p req s =
    let start = record (net_bump_syscall_deadline p s) { our_ip = req.ip_dest } in
    let w = send_chunks-SameWait req (plan_chunks req start) start in
    let v = bump-SameWait p s in
    record {
      value = w.value ∙ v.value;
      data_bytes = w.data_bytes ∙ v.data_bytes;
      data_length = w.data_length ∙ v.data_length;
      number = w.number ∙ v.number;
      goes_on = w.goes_on ∙ v.goes_on;
    }

abbrev sending : Client → Client
sending s =
    if s.running
    then s
    else emit (disp_status "sending data...") (if s.booted then s else emit disp_info s)

sending-SameWait : (s : Client) → SameWait s (sending s)
sending-SameWait s = record {
  value = ground arith;
  data_bytes = ground arith;
  data_length = ground arith;
  number = ground arith;
  goes_on = ground arith;
}

idle-SameWait : (s : Client) → SameWait s (if s.running then s else emit (disp_status "idle...") s)
idle-SameWait s = record {
  value = ground arith;
  data_bytes = ground arith;
  data_length = ground arith;
  number = ground arith;
  goes_on = ground arith;
}

cmd_sendbin-SameWait :
    (p : Platform) (req : Request) (s : Client) → SameWait s (cmd_sendbin p req s)
unfolding cmd_sendbin
cmd_sendbin-SameWait p req s =
    let sent = cmd_sendbinq p req (sending s) in
    join s (sending s) _ (sending-SameWait s)
      (join (sending s) sent _ (cmd_sendbinq-SameWait p req (sending s)) (idle-SameWait sent))

-- While a program runs, whatever command arrives for it but the answer to a system call, and unless it
-- is a LBIN that is refused: the wait for the answer goes on as it was.
handle-SameWait :
    (p : Platform) (d : Devices) (c : Command) (req : Request) (s : Client)
    → s.running ≡ true
    → IsHarmless p c req s
    → SameWait s (handle p d c req s)
unfolding handle cmd_execute cmd_version cmd_capabilities cmd_setrtc cmd_reboot
handle-SameWait p d partbin req s run h = cmd_partbin-SameWait p req s
handle-SameWait p d maple req s run h = cmd_maple-SameWait d.maple req s
handle-SameWait p d pmcr req s run h = cmd_pmcr-SameWait d.read_array d.getconfig_array req s
handle-SameWait p d donebin req s run h = cmd_donebin-SameWait p req s
handle-SameWait p d retval req s run h = absurd (h.0 refl)
handle-SameWait p d loadbin req s run h = cmd_loadbin-SameWait p d.text req s (h.1 refl)
handle-SameWait p d sendbinq req s run h = cmd_sendbinq-SameWait p req s
handle-SameWait p d sendbin req s run h = cmd_sendbin-SameWait p req s
handle-SameWait p d execute req s run h = record {
  value = ground arith;
  data_bytes = ground arith;
  data_length = ground arith;
  number = ground arith;
  goes_on = ground arith;
}
handle-SameWait p d version req s run h = record {
  value = refl;
  data_bytes = refl;
  data_length = refl;
  number = refl;
  goes_on = refl;
}
handle-SameWait p d capabilities req s run h = record {
  value = refl;
  data_bytes = refl;
  data_length = refl;
  number = refl;
  goes_on = refl;
}
handle-SameWait p d setrtc req s run h = record {
  value = refl;
  data_bytes = refl;
  data_length = refl;
  number = refl;
  goes_on = refl;
}
handle-SameWait p d reboot req s run h = record {
  value = refl;
  data_bytes = refl;
  data_length = refl;
  number = refl;
  goes_on = refl;
}
handle-SameWait p d unknown req s run h = same s

-- A command whose size is let through stays so where only the screensaver woke.
abbrev pub IsNoAnswer : Platform → Request → Client → Type 0
IsNoAnswer p req s = IsHarmless p (command_of req.id) req s

-- While a program runs, a command datagram of whatever id, but for the answer to a system call
-- and for a LBIN that is refused, leaves the wait for that answer as it was: the result, the
-- data, the number in flight and the end of the loop.
pub process_udp-SameWait :
    (p : Platform) (d : Devices) (to_us : Bool) (req : Request) (s : Client)
    → s.running ≡ true
    → IsNoAnswer p req s
    → SameWait s (process_udp p d to_us req s)
unfolding process_udp
process_udp-SameWait p d to_us req s run h =
    elim (Bool-cases (((req.udp_dest == 31313) || (req.udp_dest == 53535)) && to_us)) [
      | inl e ↦ rw e (
          join s (emit screensaver_wake s) _ (woken s)
            (handle-SameWait p d (command_of req.id) req (emit screensaver_wake s) run h))
      | inr e ↦ rw e (handle-SameWait p d (command_of req.id) req s run h)
    ]
  where
    woken : (s : Client) → SameWait s (emit screensaver_wake s)
    woken s = record {
      value = refl;
      data_bytes = refl;
      data_length = refl;
      number = refl;
      goes_on = refl;
    }
