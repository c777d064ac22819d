-- ===== src/Serial/Syscalls/Calls.antt =====
-- The calls of client/common/serial/serial_syscalls.c that store bytes or a status too, with their
-- handlers in host/src/console.c.
use kos_tool.Prelude.{
  ℕ, zero, suc, ◌%◌, ◌^◌, ◌≤◌, ◌<◌, ◌≡◌, refl, sym, subst, Bool, false, ◌||◌, List, [], ◌∷◌, length,
  get_or, All, ltb, ◌==◌, arith,
}
use kos_tool.Serial.Io.{Io, ret, ◌>>=◌, ◌>>◌}
use kos_tool.Serial.Io.Meets.{
  done, tool_gets, loader_puts, Agree, loader_ends, tool_then, loader_then,
}
use kos_tool.Serial.Loader.{Lzo, IsLzo, get_uint, load_data_block_general}
use kos_tool.Serial.Tool.{lzo_send_data}
use kos_tool.Serial.Blocks.{uint_up, uint_down, lzo_send_data-load_data_block_general}
use kos_tool.Serial.Syscalls
use kos_tool.Serial.Syscalls.{Line, get_stat}
use kos_tool.Serial.Syscalls.Serving.{
  Files, dispatch, answer, send_words, ser_syscall_read, ser_syscall_fstat, ser_syscall_stat,
}
use kos_tool.Serial.Syscalls.Served.{
  Request, perform, effect, IsFit, IsPath, line, round, path_up, request_served, answer_down,
}

-- A call whose result is one word, a read, and the two that ask for a status.
pub data SystemCall : Type 0 where
  one_word : Request → SystemCall
  read_call : ℕ → ℕ → SystemCall
  fstat_call : ℕ → SystemCall
  stat_call : List ℕ → SystemCall

-- What the program does for it, with the bytes or words that are stored.
abbrev pub perform_call : Line → SystemCall → Io (List ℕ × ℕ)
perform_call l (one_word c) = do result ← perform l c; ret ([], result)
perform_call l (read_call fd count) = Syscalls.read l fd count
perform_call l (fstat_call fd) = Syscalls.fstat l fd
perform_call l (stat_call path) = Syscalls.stat l path

-- The fields of a status that the program keeps of the host's words, some of them 16 bits wide.
abbrev pub status_fields : List ℕ → List ℕ
status_fields ws =
    (get_or ws 0 0 % 65536)
    ∷ (get_or ws 1 0 % 65536)
    ∷ get_or ws 2 0
    ∷ (get_or ws 3 0 % 65536)
    ∷ (get_or ws 4 0 % 65536)
    ∷ (get_or ws 5 0 % 65536)
    ∷ (get_or ws 6 0 % 65536)
    ∷ get_or ws 7 0
    ∷ get_or ws 8 0
    ∷ get_or ws 9 0
    ∷ get_or ws 10 0
    ∷ get_or ws 11 0
    ∷ get_or ws 12 0
    ∷ []

-- What it means: the host's function, and what the program stores and gets.
abbrev pub outcome : {F : Type 0} → Files F → SystemCall → F → F × (List ℕ × ℕ)
outcome fs (one_word c) f = ((effect fs c f).0, ([], (effect fs c f).1))
outcome fs (read_call fd count) f = fs.read_file fd count f
outcome fs (fstat_call fd) f = (f, (status_fields (fs.status_of fd f).0, (fs.status_of fd f).1))
outcome fs (stat_call path) f = (
  f,
  (
    status_fields (fs.status_at (fs.resolve_path path) f).0,
    (fs.status_at (fs.resolve_path path) f).1,
  ),
)

abbrev pub IsFitCall : SystemCall → Type 0
IsFitCall (one_word c) = IsFit c
IsFitCall (read_call fd count) = (fd < 2 ^ 32) × (0 < count) × (count ≤ 33554432)
IsFitCall (fstat_call fd) = fd < 2 ^ 32
IsFitCall (stat_call path) = IsPath path

-- Thirteen words.
abbrev pub IsStatus : List ℕ → Type 0
IsStatus ws = (length ws ≡ 13) × All (λ w. w < 2 ^ 32) ws

-- What the host sends fits: the result is a word, a read fills its buffer, a status is one.
abbrev pub OutcomeFits : {F : Type 0} → Files F → SystemCall → F → Type 0
OutcomeFits fs (one_word c) f = (effect fs c f).1 < 2 ^ 32
OutcomeFits fs (read_call fd count) f =
    (length (fs.read_file fd count f).1.0 ≡ count) × ((fs.read_file fd count f).1.1 < 2 ^ 32)
OutcomeFits fs (fstat_call fd) f = IsStatus (fs.status_of fd f).0 × ((fs.status_of fd f).1 < 2 ^ 32)
OutcomeFits fs (stat_call path) f =
    IsStatus (fs.status_at (fs.resolve_path path) f).0
    × ((fs.status_at (fs.resolve_path path) f).1 < 2 ^ 32)

-- So many words.
unfoldable get_words : ℕ → Io (List ℕ)
get_words zero = ret []
get_words (suc n) = do w ← get_uint; ws ← get_words n; ret (w ∷ ws)

get_stat-get_words : (l : Line) → get_stat l ≡ (get_words 13 >>= λ ws. ret (status_fields ws))
unfolding get_stat get_words get_uint
get_stat-get_words l = refl

module _ {F : Type 0} (fs : Files F) (lzo : Lzo) (is : IsLzo lzo) (wrkmem : Bool) (tries : ℕ)
    (other : ℕ → F → Io F) where
  words_down :
      (ws : List ℕ)
      → All (λ w. w < 2 ^ 32) ws
      → Agree (send_words fs lzo (suc tries) ws) (get_words (length ws)) tt ws
  unfolding send_words get_words
  words_down [] low = done
  words_down (w ∷ ws) (low, lows) =
      tool_then _ (uint_down w low) (loader_ends (λ (vs : List ℕ). w ∷ vs) (words_down ws lows))

  status_down :
      (ws : List ℕ)
      → IsStatus ws
      → Agree
          (send_words fs lzo (suc tries) ws)
          (get_stat (line fs lzo is wrkmem tries other))
          tt
          (status_fields ws)
  status_down ws (whole, low) =
      subst (λ q. Agree (send_words fs lzo (suc tries) ws) q tt (status_fields ws))
        (sym (get_stat-get_words (line fs lzo is wrkmem tries other)))
        (loader_ends status_fields (
          subst (λ n. Agree (send_words fs lzo (suc tries) ws) (get_words n) tt ws) whole
            (words_down ws low)))

  -- A status and the result after it.
  status_answered :
      (f : F) (ws : List ℕ) (result : ℕ)
      → IsStatus ws
      → result < 2 ^ 32
      → Agree {B = List ℕ × ℕ}
          (do send_words fs lzo (suc tries) ws; answer fs lzo (suc tries) (f, result))
          (do ds ← get_stat (line fs lzo is wrkmem tries other); got ← get_uint; ret (ds, got))
          f
          (status_fields ws, result)
  status_answered f ws result is_status low = tool_then _ (status_down ws is_status) (
      loader_ends (λ (got : ℕ). (status_fields ws, got))
        (answer_down fs lzo is wrkmem tries other (f, result) low))

  -- A read of 1 byte to 32 MiB, where the host's files fill the buffer: the program gets its bytes and its
  -- result.
  ser_syscall_read-read :
      (fd count : ℕ) (f : F)
      → fd < 2 ^ 32
      → 0 < count
      → count ≤ 33554432
      → length (fs.read_file fd count f).1.0 ≡ count
      → (fs.read_file fd count f).1.1 < 2 ^ 32
      → Agree
          (round fs lzo is wrkmem tries other f)
          (Syscalls.read (line fs lzo is wrkmem tries other) fd count)
          (fs.read_file fd count f).0
          (fs.read_file fd count f).1
  unfolding round dispatch ser_syscall_read Syscalls.read
  ser_syscall_read-read fd count f low some_bytes fits whole small =
      let fine : (count == 0 || ltb 33554432 count) ≡ false = ground arith in
      loader_puts (
        tool_gets (
          loader_then _ (uint_up fd low) (
            loader_then _ (uint_up count (omega arith)) (
              rw fine (
                subst
                  (λ n.
                    Agree
                      (do
                        lzo_send_data lzo (suc tries) (fs.read_file fd count f).1.0
                        answer fs lzo (suc tries)
                            ((fs.read_file fd count f).0, (fs.read_file fd count f).1.1))
                      (do
                        bytes ← load_data_block_general lzo n n
                        result ← get_uint
                        ret (bytes, result))
                      (fs.read_file fd count f).0 (fs.read_file fd count f).1)
                  whole
                  (tool_then _
                    (lzo_send_data-load_data_block_general lzo is tries
                      (fs.read_file fd count f).1.0)
                    (loader_ends (λ (result : ℕ). ((fs.read_file fd count f).1.0, result))
                      (answer_down fs lzo is wrkmem tries other
                        ((fs.read_file fd count f).0, (fs.read_file fd count f).1.1) small))))))))

  pub call_served :
      (c : SystemCall) (f : F)
      → IsFitCall c
      → OutcomeFits fs c f
      → Agree
          (round fs lzo is wrkmem tries other f)
          (perform_call (line fs lzo is wrkmem tries other) c)
          (outcome fs c f).0
          (outcome fs c f).1
  unfolding round dispatch ser_syscall_fstat ser_syscall_stat Syscalls.fstat Syscalls.stat
  call_served (one_word c) f fits fit =
      loader_ends (λ (result : ℕ). ([], result))
        (request_served fs lzo is wrkmem tries other c f fits fit)
  call_served (read_call fd count) f fits fit =
      ser_syscall_read-read fd count f fits.0 fits.1 fits.2 fit.0 fit.1
  call_served (fstat_call fd) f fits fit = loader_puts (
      tool_gets
        (loader_then _ (uint_up fd fits) (status_answered f _ (fs.status_of fd f).1 fit.0 fit.1)))
  call_served (stat_call path) f fits fit = loader_puts (
      tool_gets (
        loader_then _ (path_up fs lzo is wrkmem tries other path fits)
          (status_answered f _ (fs.status_at (fs.resolve_path path) f).1 fit.0 fit.1)))
