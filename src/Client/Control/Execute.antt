-- ===== src/Client/Control/Execute.antt =====
-- Starting a program (client/common/core/commands.c).
use kos_tool.Prelude.{ℕ, ◌-◌, ◌≤◌, ◌<◌, ◌≡◌, arith, true, false, List, min}
use kos_tool.Client.{Client, Platform, Request, Info}
use kos_tool.Client.Syscalls.{request_frame}
use kos_tool.Client.Control.{
  cmd_execute, before_program, after_program, extract_argv, adopt_host, data_length,
  kosload_max_argv_data,
}

-- Where a program's arguments lie after the extraction: inside the buffer of 256 bytes, and with
-- a NUL behind them if there are any.
pub record SafeArgv (old new : Info) : Type 0 where
  pub outside : (i : ℕ) → kosload_max_argv_data ≤ i → new.argv_data i ≡ old.argv_data i
  pub terminated : 0 < new.argc → (i : ℕ) × (i < kosload_max_argv_data) × (new.argv_data i ≡ 0)
  pub empty : new.argc ≡ 0 → new.argv_data 0 ≡ 0

-- For every datagram, of whatever length: the extraction writes nothing outside the buffer, and
-- leaves a terminated string where it reports arguments and an empty one where it reports none.
pub extract_argv-SafeArgv : (req : Request) (info : Info) → SafeArgv info (extract_argv req info)
unfolding extract_argv
extract_argv-SafeArgv req info = record {
  outside = λ i h. ground arith;
  terminated =
      λ h. (min (data_length req - 4) kosload_max_argv_data - 1, ground arith, ground arith);
  empty = λ h. ground arith;
}

-- A program that is started by a host has its system calls sent to that host, from the address
-- that the host used for the client.
pub before_program-request_frame :
    (p : Platform) (req : Request) (command : List ℕ) (seq : ℕ) (s : Client)
    → request_frame command seq (before_program p req s) ≡ record (request_frame command seq s) {
      ether_dest = req.ether_src;
      ip_dest = req.ip_src;
      ip_src = req.ip_dest;
      udp_dest = req.udp_src;
    }
unfolding before_program adopt_host
before_program-request_frame p req command seq s = ground arith

-- EXEC changes nothing while a program runs, starts the program with the flag set, and leaves the
-- flag clear after any program.
pub cmd_execute_lem :
    (p : Platform) (req : Request) (s : Client)
    → (s.running ≡ true → cmd_execute p req s ≡ s)
      × (s.running ≡ false → (cmd_execute p req s).running ≡ false)
      × ((before_program p req s).running ≡ true)
unfolding cmd_execute before_program after_program
cmd_execute_lem p req s = (λ h. ground arith, λ h. ground arith, ground arith)
