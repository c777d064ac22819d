-- ===== src/Serial/Syscalls/Session.antt =====
-- Sessions of system calls over the serial line: client/common/serial/serial_syscalls.c and
-- `do_serial_console` of host/src/console.c; reads, and the reads that are too long.
use kos_tool.Prelude.{
  ℕ, zero, suc, ◌-◌, ◌^◌, ◌<◌, ◌≡◌, Bool, true, ◌||◌, List, [], ◌∷◌, length, All, ltb, ◌==◌, arith,
}
use kos_tool.Serial.Io.{Io, ret, ◌>>=◌, ◌>>◌}
use kos_tool.Serial.Io.Meets.{done, Agree, Meets-then, loader_ends}
use kos_tool.Serial.Io.Stalls.{
  Stalls, both_wait, tool_puts_on, tool_gets_on, loader_puts_on, loader_gets_on, Stalls-after,
}
use kos_tool.Serial.Loader.{Lzo, IsLzo, get_uint, put_uint, load_data_block_general, load_block}
use kos_tool.Serial.Tool.{send_uint}
use kos_tool.Serial.Blocks.{uint_up}
use kos_tool.Serial.Syscalls
use kos_tool.Serial.Syscalls.{Line}
use kos_tool.Serial.Syscalls.Serving.{Files, dispatch, do_serial_console, answer, ser_syscall_read}
use kos_tool.Serial.Syscalls.Served.{line, round}
use kos_tool.Serial.Syscalls.Calls.{
  SystemCall, perform_call, outcome, IsFitCall, OutcomeFits, call_served,
}

-- A program's calls one after another, and what they mean.
abbrev pub perform_all : Line → List SystemCall → Io (List (List ℕ × ℕ))
perform_all l [] = ret []
perform_all l (c ∷ calls) = do
  result ← perform_call l c
  results ← perform_all l calls
  ret (result ∷ results)

abbrev pub effects : {F : Type 0} → Files F → List SystemCall → F → F × List (List ℕ × ℕ)
effects fs [] f = (f, [])
effects fs (c ∷ calls) f =
    let rest = effects fs calls (outcome fs c f).0 in (rest.0, (outcome fs c f).1 ∷ rest.1)

-- What the host sends fits, call after call.
abbrev pub ResultsFit : {F : Type 0} → Files F → List SystemCall → F → Type 0
ResultsFit fs [] f = Unit
ResultsFit fs (c ∷ calls) f = OutcomeFits fs c f × ResultsFit fs calls (outcome fs c f).0

module _ {F : Type 0} (fs : Files F) (lzo : Lzo) (is : IsLzo lzo) (wrkmem : Bool) (tries : ℕ)
    (other : ℕ → F → Io F) where
  -- Over LZO that restores what it compressed: for any list of write, read, open, close, creat,
  -- link, unlink, chdir, chmod, mkdir, lseek, time, utime, stat and fstat calls whose words and
  -- results fit 32 bits, whose paths are accepted, whose writes are of at most 32 MiB and whose
  -- reads are of 1 byte to 32 MiB, where the host's reads fill their buffer and its statuses have
  -- thirteen words: the loader's requests and the host's console agree on every byte of the line,
  -- the host's files end in the state that the calls make one after another, and each call
  -- returns its own result, with the bytes read or the fields of the status.
  pub do_serial_console-perform_all :
      (calls : List SystemCall) (f : F)
      → All IsFitCall calls
      → ResultsFit fs calls f
      → Agree
          (do_serial_console fs lzo (suc tries) other (length calls) f)
          (perform_all (line fs lzo is wrkmem tries other) calls)
          (effects fs calls f).0
          (effects fs calls f).1
  unfolding do_serial_console round
  do_serial_console-perform_all [] f fits results = done
  do_serial_console-perform_all (c ∷ calls) f fits results =
      Meets-then (do_serial_console fs lzo (suc tries) other (length calls))
        (λ v. perform_all (line fs lzo is wrkmem tries other) calls >>= λ vs. ret (v ∷ vs))
        (call_served fs lzo is wrkmem tries other c f fits.0 results.0)
        (loader_ends (λ (vs : List (List ℕ × ℕ)). (outcome fs c f).1 ∷ vs)
          (do_serial_console-perform_all calls (outcome fs c f).0 fits.1 results.1))

  -- What is left of a read after its request.
  refused_read : ℕ → Io (List ℕ × ℕ)
  refused_read count = do
    bytes ← load_data_block_general lzo (suc count) (suc count)
    result ← get_uint
    ret (bytes, result)

  refused-Stalls :
      (count : ℕ) (f : F)
      → Stalls [] [] (answer fs lzo (suc tries) (f, 2 ^ 32 - 1)) (refused_read count)
  unfolding refused_read load_data_block_general load_block get_uint send_uint
  refused-Stalls count f = tool_puts_on (
      loader_gets_on (
        tool_puts_on (
          loader_gets_on
            (tool_puts_on (loader_gets_on (tool_puts_on (loader_gets_on both_wait)))))))

  -- For a descriptor and a count of 32 bits, a read of more than 32 MiB stalls: the host's round
  -- and the loader's call come to wait for each other's bytes with nothing on the line.
  pub read-Stalls :
      (fd count : ℕ) (f : F)
      → fd < 2 ^ 32
      → 33554432 < count
      → count < 2 ^ 32
      → Stalls [] []
          (round fs lzo is wrkmem tries other f)
          (Syscalls.read (line fs lzo is wrkmem tries other) fd count)
  unfolding round dispatch ser_syscall_read Syscalls.read refused_read
  read-Stalls fd zero f low long short = absurd (omega arith)
  read-Stalls fd (suc count) f low long short =
      let refused : ((suc count == 0) || ltb 33554432 (suc count)) ≡ true = ground arith in
      loader_puts_on (
        tool_gets_on (
          Stalls-after _ (λ _. put_uint (suc count) >> refused_read count) (uint_up fd low)
            (Stalls-after _ (λ _. refused_read count) (uint_up (suc count) short)
              (rw refused (refused-Stalls count f)))))
