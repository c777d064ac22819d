-- ===== src/Serial/Syscalls/Served.antt =====
-- Each system call of client/common/serial/serial_syscalls.c with its handler in
-- host/src/console.c: what the program gets and what the host does.
use kos_tool.Prelude.{
  ℕ, suc, ◌^◌, ◌≤◌, ◌<◌, ◌≡◌, refl, sym, subst, Bool, false, ◌||◌, Option, none, some, List, [],
  ◌∷◌, length, ltb, ◌==◌, if◌then◌else◌, arith,
}
use kos_tool.Serial.Io.{Io, ◌>>=◌, ◌>>◌, get_byte, chain_assoc}
use kos_tool.Serial.Io.Meets.{tool_gets, loader_puts, Agree, tool_ends, loader_then, tool_last}
use kos_tool.Serial.Loader.{Lzo, IsLzo, get_uint, put_uint}
use kos_tool.Serial.Blocks.{uint_down, uint_up}
use kos_tool.Serial.Sending.{send_data_block_compressed-lzo_recv_data}
use kos_tool.Serial.Syscalls
use kos_tool.Serial.Syscalls.{Line, put_path}
use kos_tool.Serial.Syscalls.Serving.{
  Files, ser_recv_uint, dispatch, answer, recv_path, ser_syscall_write, ser_syscall_open,
  ser_syscall_close, ser_syscall_creat, ser_syscall_link, ser_syscall_unlink, ser_syscall_chdir,
  ser_syscall_chmod, ser_syscall_mkdir, ser_syscall_lseek, ser_syscall_time, ser_syscall_utime,
}

-- A call whose result is one word.
pub data Request : Type 0 where
  write : ℕ → List ℕ → Request
  open_call : List ℕ → ℕ → ℕ → Request
  close : ℕ → Request
  creat : List ℕ → ℕ → Request
  link : List ℕ → List ℕ → Request
  unlink : List ℕ → Request
  chdir : List ℕ → Request
  chmod mkdir : List ℕ → ℕ → Request
  lseek : ℕ → ℕ → ℕ → Request
  time : Request
  utime : List ℕ → Option (ℕ × ℕ) → Request

-- What the program does for it.
abbrev pub perform : Line → Request → Io ℕ
perform l (write fd buf) = Syscalls.write l fd buf
perform l (open_call path flags mode) = Syscalls.open_call l path flags mode
perform l (close fd) = Syscalls.close l fd
perform l (creat path mode) = Syscalls.creat l path mode
perform l (link path1 path2) = Syscalls.link l path1 path2
perform l (unlink path) = Syscalls.unlink l path
perform l (chdir path) = Syscalls.chdir l path
perform l (chmod path mode) = Syscalls.chmod l path mode
perform l (mkdir path mode) = Syscalls.mkdir l path mode
perform l (lseek fd offset whence) = Syscalls.lseek l fd offset whence
perform l time = Syscalls.time l
perform l (utime path times) = Syscalls.utime l path times

-- What it means: the host's function, at the resolved path.
abbrev pub effect : {F : Type 0} → Files F → Request → F → F × ℕ
effect fs (write fd buf) f = if length buf == 0 then (f, 0) else fs.out fd buf f
effect fs (open_call path flags mode) f =
    fs.open_file (fs.resolve_path path) (fs.translate_open_flags flags) mode f
effect fs (close fd) f = fs.close_file fd f
effect fs (creat path mode) f = fs.create_file (fs.resolve_path path) mode f
effect fs (link path1 path2) f = fs.link_files (fs.resolve_path path1) (fs.resolve_path path2) f
effect fs (unlink path) f = fs.unlink_file (fs.resolve_path path) f
effect fs (chdir path) f = fs.change_dir (fs.resolve_path path) f
effect fs (chmod path mode) f = fs.change_mode (fs.resolve_path path) mode f
effect fs (mkdir path mode) f = fs.make_dir (fs.resolve_path path) mode f
effect fs (lseek fd offset whence) f = fs.seek fd offset whence f
effect fs time f = (f, fs.now f)
effect fs (utime path times) f = fs.set_times (fs.resolve_path path) times f

-- A path that both sides take; words and buffers that do.
abbrev pub IsPath : List ℕ → Type 0
IsPath path = (0 < length path) × (length path ≤ 4096)

abbrev pub IsFit : Request → Type 0
IsFit (write fd buf) = (fd < 2 ^ 32) × (length buf ≤ 33554432)
IsFit (open_call path flags mode) = IsPath path × (flags < 2 ^ 32) × (mode < 2 ^ 32)
IsFit (close fd) = fd < 2 ^ 32
IsFit (creat path mode) = IsPath path × (mode < 2 ^ 32)
IsFit (link path1 path2) = IsPath path1 × IsPath path2
IsFit (unlink path) = IsPath path
IsFit (chdir path) = IsPath path
IsFit (chmod path mode) = IsPath path × (mode < 2 ^ 32)
IsFit (mkdir path mode) = IsPath path × (mode < 2 ^ 32)
IsFit (lseek fd offset whence) = (fd < 2 ^ 32) × (offset < 2 ^ 32) × (whence < 2 ^ 32)
IsFit time = Unit
IsFit (utime path none) = IsPath path
IsFit (utime path (some (actime, modtime))) = IsPath path × (actime < 2 ^ 32) × (modtime < 2 ^ 32)

module _ {F : Type 0} (fs : Files F) (lzo : Lzo) (is : IsLzo lzo) (wrkmem : Bool) (tries : ℕ)
    (other : ℕ → F → Io F) where
  abbrev pub line : Line
  line = record { lzo = lzo; wrkmem = wrkmem; tries = suc tries }

  pub path_up :
      (path : List ℕ)
      → IsPath path
      → Agree (recv_path fs lzo (suc tries)) (put_path line path) (some path) tt
  unfolding recv_path
  path_up path fits =
      let fine : (length path == 0 || ltb 4096 (length path)) ≡ false = ground arith in
      loader_then _ (uint_up (length path) (omega (arith, fits.1))) (
        rw fine (
          tool_ends (λ (p : List ℕ). some p)
            (send_data_block_compressed-lzo_recv_data lzo is tries wrkmem path fits.0
              (omega (arith, fits.1)))))

  pub answer_down :
      (r : F × ℕ) → r.1 < 2 ^ 32 → Agree (answer fs lzo (suc tries) r) get_uint r.0 r.1
  answer_down r low = tool_last _ refl (uint_down r.1 low)

  unfoldable pub round : F → Io F
  round f = do command ← get_byte; dispatch fs lzo (suc tries) other command f

  write_served :
      (fd : ℕ) (buf : List ℕ) (f : F)
      → IsFit (write fd buf)
      → (effect fs (write fd buf) f).1 < 2 ^ 32
      → Agree
          (round f)
          (Syscalls.write line fd buf)
          (effect fs (write fd buf) f).0
          (effect fs (write fd buf) f).1
  unfolding round dispatch ser_syscall_write Syscalls.write
  write_served fd [] f fits low = loader_puts (
      tool_gets (
        loader_then _ (uint_up fd fits.0)
          (loader_then _ (uint_up 0 (omega arith)) (answer_down (f, 0) low))))
  write_served fd (b ∷ buf) f fits low =
      let some_bytes : (length (b ∷ buf) == 0) ≡ false = ground arith in
      let fine : ltb 33554432 (length (b ∷ buf)) ≡ false = ground arith in
      loader_puts (
        tool_gets (
          loader_then _ (uint_up fd fits.0) (
            loader_then _ (uint_up (length (b ∷ buf)) (omega (arith, fits.1))) (
              rw (some_bytes, fine)
                (loader_then _
                  (send_data_block_compressed-lzo_recv_data lzo is tries wrkmem (b ∷ buf)
                    (omega arith) (omega (arith, fits.1)))
                  (answer_down (fs.out fd (b ∷ buf) f) (rw some_bytes at low)))))))

  -- The handler's parts after the path.
  abbrev given_times : F → List ℕ → Io F
  given_times f path = do
    actime ← ser_recv_uint
    modtime ← ser_recv_uint
    answer fs lzo (suc tries) (fs.set_times (fs.resolve_path path) (some (actime, modtime)) f)

  abbrev times_of : F → List ℕ → Io F
  times_of f path = do
    has_times ← ser_recv_uint
    if has_times == 0
        then answer fs lzo (suc tries) (fs.set_times (fs.resolve_path path) none f)
        else given_times f path

  utime_served :
      (path : List ℕ) (times : Option (ℕ × ℕ)) (f : F)
      → IsFit (utime path times)
      → (effect fs (utime path times) f).1 < 2 ^ 32
      → Agree
          (round f)
          (Syscalls.utime line path times)
          (effect fs (utime path times) f).0
          (effect fs (utime path times) f).1
  unfolding round dispatch ser_syscall_utime Syscalls.utime
  utime_served path none f fits low = loader_puts (
      tool_gets (
        loader_then _ (path_up path fits)
          (loader_then _ (uint_up 0 (omega arith)) (answer_down _ low))))
  utime_served path (some (actime, modtime)) f fits low = loader_puts (
      tool_gets (
        loader_then _ (path_up path fits.0) (
          subst
            (λ q.
              Agree (times_of f path) q (effect fs (utime path (some (actime, modtime))) f).0
                (effect fs (utime path (some (actime, modtime))) f).1)
            (sym
              (chain_assoc (put_uint 1) (λ _. put_uint actime >> put_uint modtime) (λ _. get_uint)))
            (loader_then _ (uint_up 1 (omega arith)) (
              subst
                (λ q.
                  Agree (given_times f path) q (effect fs (utime path (some (actime, modtime))) f).0
                    (effect fs (utime path (some (actime, modtime))) f).1)
                (sym (chain_assoc (put_uint actime) (λ _. put_uint modtime) (λ _. get_uint)))
                (loader_then _ (uint_up actime fits.1)
                  (loader_then _ (uint_up modtime fits.2) (answer_down _ low))))))))

  pub request_served :
      (c : Request) (f : F)
      → IsFit c
      → (effect fs c f).1 < 2 ^ 32
      → Agree (round f) (perform line c) (effect fs c f).0 (effect fs c f).1
  unfolding round dispatch ser_syscall_open ser_syscall_close ser_syscall_creat ser_syscall_link
      ser_syscall_unlink ser_syscall_chdir ser_syscall_chmod ser_syscall_mkdir ser_syscall_lseek
      ser_syscall_time Syscalls.open_call Syscalls.close Syscalls.creat Syscalls.link
      Syscalls.unlink Syscalls.chdir Syscalls.chmod Syscalls.mkdir Syscalls.lseek Syscalls.time
  request_served (write fd buf) f fits low = write_served fd buf f fits low
  request_served (close fd) f fits low =
      loader_puts
        (tool_gets (loader_then _ (uint_up fd fits) (answer_down (fs.close_file fd f) low)))
  request_served (open_call path flags mode) f fits low = loader_puts (
      tool_gets (
        loader_then _ (path_up path fits.0) (
          loader_then _ (uint_up flags fits.1)
            (loader_then _ (uint_up mode fits.2) (answer_down _ low)))))
  request_served (creat path mode) f fits low = loader_puts (
      tool_gets (
        loader_then _ (path_up path fits.0)
          (loader_then _ (uint_up mode fits.1) (answer_down _ low))))
  request_served (link path1 path2) f fits low = loader_puts (
      tool_gets (
        loader_then _ (path_up path1 fits.0)
          (loader_then _ (path_up path2 fits.1) (answer_down _ low))))
  request_served (unlink path) f fits low =
      loader_puts (tool_gets (loader_then _ (path_up path fits) (answer_down _ low)))
  request_served (chdir path) f fits low =
      loader_puts (tool_gets (loader_then _ (path_up path fits) (answer_down _ low)))
  request_served (chmod path mode) f fits low = loader_puts (
      tool_gets (
        loader_then _ (path_up path fits.0)
          (loader_then _ (uint_up mode fits.1) (answer_down _ low))))
  request_served (mkdir path mode) f fits low = loader_puts (
      tool_gets (
        loader_then _ (path_up path fits.0)
          (loader_then _ (uint_up mode fits.1) (answer_down _ low))))
  request_served (lseek fd offset whence) f fits low = loader_puts (
      tool_gets (
        loader_then _ (uint_up fd fits.0) (
          loader_then _ (uint_up offset fits.1)
            (loader_then _ (uint_up whence fits.2) (answer_down _ low)))))
  request_served time f fits low = loader_puts (tool_gets (answer_down (f, fs.now f) low))
  request_served (utime path times) f fits low = utime_served path times f fits low
