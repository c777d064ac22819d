-- ===== src/Serial/Syscalls/Serving.antt =====
-- System calls over the serial line, the tool's side: the `ser_syscall_*` handlers of
-- host/src/console.c and their dispatch. The files below are a parameter.
use kos_tool.Prelude.{
  ℕ, zero, suc, ◌-◌, ◌^◌, Bool, ◌||◌, Option, none, some, List, [], ◌∷◌, ltb, ◌==◌, if◌then◌else◌,
}
use kos_tool.Serial.Io.{Io, ret, ◌>>=◌, ◌>>◌, get_byte}
use kos_tool.Serial.Loader.{Lzo}
use kos_tool.Serial.Tool.{send_uint, recv_uint, lzo_send_data, lzo_recv_data}

abbrev pub max_path_len : ℕ
max_path_len = 4096

abbrev pub max_syscall_size : ℕ
max_syscall_size = 33554432

-- The helpers of host/src/console.c repeat those of host/src/transport/serial.c.
abbrev pub ser_send_uint : ℕ → Io Bool
ser_send_uint = send_uint

abbrev pub ser_recv_uint : Io ℕ
ser_recv_uint = recv_uint

abbrev pub ser_send_data : Lzo → ℕ → List ℕ → Io (Unit {0})
ser_send_data = lzo_send_data

abbrev pub ser_recv_data : Lzo → ℕ → Io (List ℕ)
ser_recv_data lzo total = lzo_recv_data lzo total total

-- The host's files, in a state `F`: each call gives the new state and its result as the word that
-- is sent. `out` is a write to a file, or to the console where the descriptor says so.
pub record Files (F : Type 0) : Type 0 where
  pub resolve_path : List ℕ → List ℕ
  pub translate_open_flags : ℕ → ℕ
  pub out : ℕ → List ℕ → F → F × ℕ
  pub read_file : ℕ → ℕ → F → F × (List ℕ × ℕ)
  pub open_file : List ℕ → ℕ → ℕ → F → F × ℕ
  pub create_file : List ℕ → ℕ → F → F × ℕ
  pub close_file : ℕ → F → F × ℕ
  pub link_files : List ℕ → List ℕ → F → F × ℕ
  pub unlink_file : List ℕ → F → F × ℕ
  pub change_dir : List ℕ → F → F × ℕ
  pub change_mode : List ℕ → ℕ → F → F × ℕ
  pub make_dir : List ℕ → ℕ → F → F × ℕ
  pub seek : ℕ → ℕ → ℕ → F → F × ℕ
  pub now : F → ℕ
  pub status_of : ℕ → F → List ℕ × ℕ
  pub status_at : List ℕ → F → List ℕ × ℕ
  pub set_times : List ℕ → Option (ℕ × ℕ) → F → F × ℕ

module _ {F : Type 0} (fs : Files F) (lzo : Lzo) (tries : ℕ) where
  -- The answer: the result is sent, and the new state is left.
  abbrev pub answer : F × ℕ → Io F
  answer r = do ser_send_uint r.1; ret r.0

  -- A path, `none` for a length that is refused: then nothing more is read.
  unfoldable pub recv_path : Io (Option (List ℕ))
  recv_path = do
    namelen ← ser_recv_uint
    if namelen == 0 || ltb max_path_len namelen
        then ret none
        else (ser_recv_data lzo namelen >>= λ path. ret (some path))

  -- A path and what follows it; the answer to a refused length is -1.
  abbrev pub with_path : F → (List ℕ → Io F) → Io F
  with_path f rest =
      recv_path >>= λ o. elim o [ none ↦ answer (f, 2 ^ 32 - 1) | some path ↦ rest path ]

  unfoldable pub ser_syscall_write : F → Io F
  ser_syscall_write f = do
    fd ← ser_recv_uint
    count ← ser_recv_uint
    (if count == 0
        then answer (f, 0)
        else if ltb max_syscall_size count
        then answer (f, 2 ^ 32 - 1)
        else (ser_recv_data lzo count >>= λ bytes. answer (fs.out fd bytes f)))

  -- The buffer of `count` bytes is sent whole, whatever was read.
  unfoldable pub ser_syscall_read : F → Io F
  ser_syscall_read f = do
    fd ← ser_recv_uint
    count ← ser_recv_uint
    (if count == 0 || ltb max_syscall_size count then answer (f, 2 ^ 32 - 1) else (do
      let (g, done) = fs.read_file fd count f
      ser_send_data lzo tries done.0
      answer (g, done.1)))

  unfoldable pub ser_syscall_open : F → Io F
  ser_syscall_open f = with_path f (λ path. do
    flags ← ser_recv_uint
    mode ← ser_recv_uint
    answer (fs.open_file (fs.resolve_path path) (fs.translate_open_flags flags) mode f))

  unfoldable pub ser_syscall_close : F → Io F
  ser_syscall_close f = do fd ← ser_recv_uint; answer (fs.close_file fd f)

  unfoldable pub ser_syscall_creat : F → Io F
  ser_syscall_creat f =
      with_path f
        (λ path. do mode ← ser_recv_uint; answer (fs.create_file (fs.resolve_path path) mode f))

  unfoldable pub ser_syscall_link : F → Io F
  ser_syscall_link f = with_path f (λ path1.
      with_path f
        (λ path2. answer (fs.link_files (fs.resolve_path path1) (fs.resolve_path path2) f)))

  unfoldable pub ser_syscall_unlink : F → Io F
  ser_syscall_unlink f = with_path f (λ path. answer (fs.unlink_file (fs.resolve_path path) f))

  unfoldable pub ser_syscall_chdir : F → Io F
  ser_syscall_chdir f = with_path f (λ path. answer (fs.change_dir (fs.resolve_path path) f))

  unfoldable pub ser_syscall_chmod : F → Io F
  ser_syscall_chmod f =
      with_path f
        (λ path. do mode ← ser_recv_uint; answer (fs.change_mode (fs.resolve_path path) mode f))

  unfoldable pub ser_syscall_mkdir : F → Io F
  ser_syscall_mkdir f =
      with_path f
        (λ path. do mode ← ser_recv_uint; answer (fs.make_dir (fs.resolve_path path) mode f))

  unfoldable pub ser_syscall_lseek : F → Io F
  ser_syscall_lseek f = do
    fd ← ser_recv_uint
    offset ← ser_recv_uint
    whence ← ser_recv_uint
    answer (fs.seek fd offset whence f)

  unfoldable pub ser_syscall_time : F → Io F
  ser_syscall_time f = answer (f, fs.now f)

  unfoldable pub ser_syscall_utime : F → Io F
  ser_syscall_utime f = with_path f (λ path. do
    has_times ← ser_recv_uint
    (if has_times == 0 then answer (fs.set_times (fs.resolve_path path) none f) else (do
      actime ← ser_recv_uint
      modtime ← ser_recv_uint
      answer (fs.set_times (fs.resolve_path path) (some (actime, modtime)) f))))

  -- The words of a status.
  unfoldable pub send_words : List ℕ → Io (Unit {0})
  send_words [] = ret tt
  send_words (w ∷ ws) = ser_send_uint w >> send_words ws

  unfoldable pub ser_syscall_fstat : F → Io F
  ser_syscall_fstat f = do
    fd ← ser_recv_uint
    send_words (fs.status_of fd f).0
    answer (f, (fs.status_of fd f).1)

  unfoldable pub ser_syscall_stat : F → Io F
  ser_syscall_stat f = with_path f (λ path. do
    send_words (fs.status_at (fs.resolve_path path) f).0
    answer (f, (fs.status_at (fs.resolve_path path) f).1))

  -- The `switch` of `do_serial_console`; `other` is what it does for the numbers that are not here.
  unfoldable pub dispatch : (ℕ → F → Io F) → ℕ → F → Io F
  dispatch other command f =
      if command == 1
      then ser_syscall_fstat f
      else if command == 2
      then ser_syscall_write f
      else if command == 3
      then ser_syscall_read f
      else if command == 4
      then ser_syscall_open f
      else if command == 5
      then ser_syscall_close f
      else if command == 6
      then ser_syscall_creat f
      else if command == 7
      then ser_syscall_link f
      else if command == 8
      then ser_syscall_unlink f
      else if command == 9
      then ser_syscall_chdir f
      else if command == 10
      then ser_syscall_chmod f
      else if command == 11
      then ser_syscall_lseek f
      else if command == 12
      then ser_syscall_time f
      else if command == 13
      then ser_syscall_stat f
      else if command == 14
      then ser_syscall_utime f
      else if command == 23
      then ser_syscall_mkdir f
      else other command f

  -- `do_serial_console` for a number of calls.
  unfoldable pub do_serial_console : (ℕ → F → Io F) → ℕ → F → Io F
  do_serial_console other zero f = ret f
  do_serial_console other (suc calls) f = do
    command ← get_byte
    g ← dispatch other command f
    do_serial_console other calls g
