-- ===== src/Serial/Requests/Executed.antt =====
-- `serial_execute` of host/src/transport/serial.c and the loader's 'A' command in
-- client/common/serial/serial_transport.c.
use kos_tool.Prelude.{
  ℕ, ◌+◌, ◌-◌, ◌^◌, min, ◌≤◌, ◌<◌, ◌≡◌, refl, sym, subst, Bool, true, false, ◌&&◌, List, [], ◌∷◌,
  ◌++◌, ◌∙◌, length, ltb, ◌==◌, if◌then◌else◌, sub32, arith, get_or,
}
use kos_tool.Serial.Io.{Io, ret, ◌>>=◌, ◌>>◌, put_all, get_all}
use kos_tool.Serial.Io.Meets.{
  done, tool_puts, tool_gets, loader_puts, loader_gets, Agree, tool_then, loader_ends, bytes_down,
}
use kos_tool.Serial.Loader.{Lzo, get_uint}
use kos_tool.Serial.Tool.{send_uint}
use kos_tool.Serial.Blocks.{uint_down}
use kos_tool.Serial.Commands.{
  Loader, Act, execute, flush, set_console_enabled, fw_update_prepare, serial_transport_loop,
  on_command, on_execute, take_argv, start_program, flag_argv, flag_fw_update, console_bits,
}
use kos_tool.Serial.Requests.{command, serial_execute, send_arguments, console_flags}

-- The loader before the arguments, and with them.
abbrev pub cleared : Loader → Loader
cleared s = record s { argc = 0; argv_data = λ i. if i == 0 then 0 else s.argv_data i }

abbrev pub with_argv : ℕ → List ℕ → Loader → Loader
with_argv prog_argc argv s = record s {
  argc = prog_argc;
  argv_data = λ i.
      if i == length argv - 1
      then 0
      else if ltb i (length argv)
      then get_or argv i 0
      else s.argv_data i;
}

-- Each flag is read back from the console word.
flags_read :
    (console send_argv fw : Bool)
    → (console_flags console send_argv fw < 2 ^ 32)
      × (flag_argv (console_flags console send_argv fw) ≡ send_argv)
      × (flag_fw_update (console_flags console send_argv fw) ≡ fw)
      × (console_bits (console_flags console send_argv fw) ≡ (if console then 1 else 0))
flags_read true true true = ground arith
flags_read true true false = ground arith
flags_read true false true = ground arith
flags_read true false false = ground arith
flags_read false true true = ground arith
flags_read false true false = ground arith
flags_read false false true = ground arith
flags_read false false false = ground arith

-- `start_program` reads the console word through its flags only.
start_program_word :
    (addr : ℕ) (console send_argv fw : Bool) (s : Loader)
    → start_program addr (console_flags console send_argv fw) s
      ≡ start_program addr ((if console then 1 else 0) + (if fw then 2 ^ 30 else 0)) s
unfolding start_program
start_program_word addr true true true s = refl
start_program_word addr true true false s = refl
start_program_word addr true false fw s = ground arith
start_program_word addr false true true s = refl
start_program_word addr false true false s = refl
start_program_word addr false false fw s = ground arith

-- The array after `len` bytes, with the byte `last` made zero.
abbrev stored : ℕ → ℕ → ℕ → List ℕ → Loader → Loader
stored prog_argc len last bytes s = record s {
  argc = prog_argc;
  argv_data = λ i. if i == last then 0 else if ltb i len then get_or bytes i 0 else s.argv_data i;
}

bytes_taken :
    (prog_argc len last : ℕ) (argv : List ℕ) (s : Loader)
    → length argv ≡ len
    → length argv - 1 ≡ last
    → Agree
        (put_all argv)
        (do bytes ← get_all len; ret (stored prog_argc len last bytes s))
        tt
        (with_argv prog_argc argv s)
bytes_taken prog_argc len last argv s whole end =
    subst
      (λ n.
        Agree (put_all argv) (do bytes ← get_all n; ret (stored prog_argc n last bytes s)) tt
          (with_argv prog_argc argv s))
      whole
      (subst
        (λ e.
          Agree (put_all argv)
            (do bytes ← get_all (length argv); ret (stored prog_argc (length argv) e bytes s)) tt
            (with_argv prog_argc argv s))
        end
        (loader_ends (λ bytes. stored prog_argc (length argv) (length argv - 1) bytes s)
          (bytes_down argv)))

-- `take_argv` where there are arguments.
abbrev taking : ℕ → Loader → Io Loader
taking prog_argc s = do
  argv_data_len ← get_uint
  let len = min argv_data_len 256
  bytes ← get_all len
  ret (stored prog_argc len (sub32 len 1) bytes s)

take_argv_some : (n : ℕ) (s : Loader) → 0 < n → take_argv n s ≡ taking n s
unfolding take_argv
take_argv_some n s h = let some_args : (n == 0) ≡ false = ground arith in rw some_args refl

argv_taken :
    (prog_argc : ℕ) (argv : List ℕ) (s : Loader)
    → 0 < prog_argc
    → prog_argc < 2 ^ 32
    → 0 < length argv
    → length argv ≤ 256
    → Agree
        (send_arguments true prog_argc argv)
        (get_uint >>= λ n. take_argv n s)
        tt
        (with_argv prog_argc argv s)
unfolding send_arguments
argv_taken prog_argc argv s some_args few some_bytes fits = tool_then _ (uint_down prog_argc few) (
    subst (λ p. Agree (send_uint (length argv) >> put_all argv) p tt (with_argv prog_argc argv s))
      (sym (take_argv_some prog_argc s some_args))
      (tool_then _ (uint_down (length argv) (omega arith)) (
        bytes_taken prog_argc (min (length argv) 256) (sub32 (min (length argv) 256) 1) argv s
          (omega arith) (omega arith))))

-- The state from which the program starts.
abbrev pub before_start : Bool → ℕ → List ℕ → Loader → Loader
before_start send_argv prog_argc argv s =
    if send_argv then with_argv prog_argc argv (cleared s) else cleared s

arguments_taken :
    (send_argv : Bool) (prog_argc : ℕ) (argv : List ℕ) (s : Loader)
    → (send_argv ≡ true → 0 < prog_argc)
    → prog_argc < 2 ^ 32
    → 0 < length argv
    → length argv ≤ 256
    → Agree
        (send_arguments send_argv prog_argc argv)
        (if send_argv then (get_uint >>= λ n. take_argv n (cleared s)) else ret (cleared s))
        tt
        (before_start send_argv prog_argc argv s)
unfolding send_arguments
arguments_taken true prog_argc argv s some_args few some_bytes fits =
    argv_taken prog_argc argv (cleared s) (some_args refl) few some_bytes fits
arguments_taken false prog_argc argv s some_args few some_bytes fits = done

-- What is done to start the program, newest first: the firmware's preparation where it is asked for
-- and there, the flush, and the jump; without it the console is set before the flush.
abbrev pub starting : ℕ → Bool → Bool → Bool → List Act
starting addr console true true = execute addr ∷ fw_update_prepare ∷ flush ∷ []
starting addr console true false = execute addr ∷ flush ∷ []
starting addr console false prepare =
    execute addr ∷ flush ∷ set_console_enabled (if console then 1 else 0) ∷ []

abbrev started : ℕ → Bool → Bool → Loader → Loader
started addr console fw s = record s {
  trace = starting addr console fw s.has_fw_update_prepare ++ s.trace;
}

start_program-started :
    (addr : ℕ) (console fw prepare : Bool) (s : Loader)
    → s.has_fw_update_prepare ≡ prepare
    → start_program addr ((if console then 1 else 0) + (if fw then 2 ^ 30 else 0)) s
      ≡ started addr console fw s
unfolding start_program
start_program-started addr true true true s h = rw h refl
start_program-started addr true true false s h = rw h refl
start_program-started addr true false prepare s h = refl
start_program-started addr false true true s h = rw h refl
start_program-started addr false true false s h = rw h refl
start_program-started addr false false prepare s h = refl

-- The arguments leave the rest of the loader.
kept :
    (send_argv : Bool) (prog_argc : ℕ) (argv : List ℕ) (s : Loader) (addr : ℕ) (console fw : Bool)
    → started addr console fw (before_start send_argv prog_argc argv s)
      ≡ record (before_start send_argv prog_argc argv s) {
        trace = starting addr console fw s.has_fw_update_prepare ++ s.trace;
      }
kept true prog_argc argv s addr console fw = refl
kept false prog_argc argv s addr console fw = refl

-- Without CD redirection, for an address and a count of 32 bits and 1 to 256 bytes of arguments:
-- the host's command and one pass of the loader's loop agree on every byte of the line. The
-- loader then executes the address, for a firmware update after the flush and the preparation
-- that the target may have, else after the console is set as the host asked and the flush; it has
-- the arguments just where there are some and the loader supports them, otherwise a count of 0
-- and a zero as their first byte, and nothing else of it changed.
pub serial_execute-loop :
    (lzo : Lzo) (tries : ℕ) (version : List ℕ) (s : Loader) (addr prog_argc : ℕ)
    (console supports fw : Bool) (argv : List ℕ)
    → addr < 2 ^ 32
    → prog_argc < 2 ^ 32
    → 0 < length argv
    → length argv ≤ 256
    → Agree
        (serial_execute addr console false supports prog_argc argv fw)
        (serial_transport_loop lzo tries version s)
        tt
        (record (before_start (ltb 0 prog_argc && supports) prog_argc argv s) {
          trace = starting addr console fw s.has_fw_update_prepare ++ s.trace;
        })
unfolding serial_execute command serial_transport_loop on_command on_execute
serial_execute-loop lzo tries version s addr prog_argc console supports fw argv low few some_bytes
      fits =
    let send_argv = ltb 0 prog_argc && supports in
    let (word, has_argv, has_fw, rest) = flags_read console send_argv fw in
    let t = before_start send_argv prog_argc argv s in
    subst
      (λ u.
        Agree (serial_execute addr console false supports prog_argc argv fw)
          (serial_transport_loop lzo tries version s) tt u)
      (start_program_word addr console send_argv fw t
        ∙ start_program-started addr console fw t.has_fw_update_prepare t refl
        ∙ kept send_argv prog_argc argv s addr console fw)
      (tool_puts (
        loader_gets (
          loader_puts (
            tool_gets (
              tool_then _ (uint_down addr low) (
                tool_then _ (uint_down (console_flags console send_argv fw) word) (
                  loader_ends
                    (λ (u : Loader). start_program addr (console_flags console send_argv fw) u)
                    (subst
                      (λ (b : Bool).
                        Agree (send_arguments send_argv prog_argc argv)
                          (if b
                            then (get_uint >>= λ n. take_argv n (cleared s))
                            else ret (cleared s))
                          tt t)
                      (sym has_argv)
                      (arguments_taken send_argv prog_argc argv s (λ h. ground arith) few some_bytes
                        fits)))))))))
