-- ===== src/Serial/Syscalls.antt =====
-- System calls over the serial line, the program's side: client/common/serial/serial_syscalls.c.
-- A path is its bytes with the zero that ends it; what a call stores is part of its result.
use kos_tool.Prelude.{
  ℕ, zero, suc, ◌+◌, ◌*◌, ◌/◌, ◌%◌, ◌^◌, Bool, true, false, ◌&&◌, not, Option, none, some, List, [],
  ◌∷◌, length, leb, ◌==◌, if◌then◌else◌,
}
use kos_tool.Serial.Io.{Io, ret, ◌>>=◌, ◌>>◌, put_byte}
use kos_tool.Serial.Loader.{
  Lzo, put_uint, get_uint, load_data_block_general, send_data_block_compressed,
}
pub mod Serving
pub mod Served
pub mod Calls
pub mod Session

-- SERIAL_SYSCALL_EXIT and the numbers after it.
pub data Call : Type 0 where
  sys_fstat sys_write sys_read sys_open sys_close sys_creat sys_link sys_unlink sys_chdir : Call
  sys_chmod sys_lseek sys_time sys_utime sys_closedir sys_rewinddir sys_mkdir : Call
  sys_gdbpacket sys_progexit sys_stat sys_opendir sys_readdir : Call

abbrev pub number : Call → ℕ
number sys_fstat = 1
number sys_write = 2
number sys_read = 3
number sys_open = 4
number sys_close = 5
number sys_creat = 6
number sys_link = 7
number sys_unlink = 8
number sys_chdir = 9
number sys_chmod = 10
number sys_lseek = 11
number sys_time = 12
number sys_stat = 13
number sys_utime = 14
number sys_opendir = 16
number sys_closedir = 17
number sys_readdir = 18
number sys_gdbpacket = 20
number sys_rewinddir = 21
number sys_progexit = 22
number sys_mkdir = 23

-- The parameters of the transfers: LZO, whether work memory is assigned, the answers to a piece.
pub record Line : Type 0 where
  pub lzo : Lzo
  pub wrkmem : Bool
  pub tries : ℕ

module _ (l : Line) where
  -- `send_data_block_compressed` of a path, after its length.
  abbrev pub put_path : List ℕ → Io (Unit {0})
  put_path path = do put_uint (length path); send_data_block_compressed l.lzo l.wrkmem l.tries path

  unfoldable pub progexit : ℕ → Io (Unit {0})
  progexit ret_code = do put_byte (number sys_progexit); put_uint ret_code

  unfoldable pub read : ℕ → ℕ → Io (List ℕ × ℕ)
  read fd count = do
    put_byte (number sys_read)
    put_uint fd
    put_uint count
    bytes ← load_data_block_general l.lzo count count
    result ← get_uint
    ret (bytes, result)

  unfoldable pub write : ℕ → List ℕ → Io ℕ
  write fd buf = do
    put_byte (number sys_write)
    put_uint fd
    put_uint (length buf)
    (if length buf == 0 then ret tt else send_data_block_compressed l.lzo l.wrkmem l.tries buf)
    get_uint

  unfoldable pub open_call : List ℕ → ℕ → ℕ → Io ℕ
  open_call pathname flags mode = do
    put_byte (number sys_open)
    put_path pathname
    put_uint flags
    put_uint mode
    get_uint

  unfoldable pub close : ℕ → Io ℕ
  close fd = do put_byte (number sys_close); put_uint fd; get_uint

  unfoldable pub creat : List ℕ → ℕ → Io ℕ
  creat pathname mode = do put_byte (number sys_creat); put_path pathname; put_uint mode; get_uint

  unfoldable pub link : List ℕ → List ℕ → Io ℕ
  link oldpath newpath = do put_byte (number sys_link); put_path oldpath; put_path newpath; get_uint

  unfoldable pub unlink : List ℕ → Io ℕ
  unlink pathname = do put_byte (number sys_unlink); put_path pathname; get_uint

  unfoldable pub chdir : List ℕ → Io ℕ
  chdir path = do put_byte (number sys_chdir); put_path path; get_uint

  unfoldable pub chmod : List ℕ → ℕ → Io ℕ
  chmod path mode = do put_byte (number sys_chmod); put_path path; put_uint mode; get_uint

  unfoldable pub mkdir : List ℕ → ℕ → Io ℕ
  mkdir path mode = do put_byte (number sys_mkdir); put_path path; put_uint mode; get_uint

  unfoldable pub lseek : ℕ → ℕ → ℕ → Io ℕ
  lseek fd offset whence = do
    put_byte (number sys_lseek)
    put_uint fd
    put_uint offset
    put_uint whence
    get_uint

  unfoldable pub time : Io ℕ
  time = do put_byte (number sys_time); get_uint

  -- `none` for a null pointer.
  unfoldable pub utime : List ℕ → Option (ℕ × ℕ) → Io ℕ
  utime filename times = do
    put_byte (number sys_utime)
    put_path filename
    elim times [
      | none ↦ put_uint 0
      | some (actime, modtime) ↦ (do put_uint 1; put_uint actime; put_uint modtime)
    ]
    get_uint

  unfoldable pub opendir : List ℕ → Io ℕ
  opendir name = do put_byte (number sys_opendir); put_path name; get_uint

  unfoldable pub closedir : ℕ → Io ℕ
  closedir dir = do put_byte (number sys_closedir); put_uint dir; get_uint

  unfoldable pub rewinddir : ℕ → Io ℕ
  rewinddir dir = do put_byte (number sys_rewinddir); put_uint dir; get_uint

  -- The thirteen words of a file's status, in the order of the line; the first, second, fourth,
  -- fifth, sixth and seventh are kept as 16 bits.
  unfoldable pub get_stat : Io (List ℕ)
  get_stat = do
    dev ← get_uint
    ino ← get_uint
    mode ← get_uint
    nlink ← get_uint
    uid ← get_uint
    gid ← get_uint
    rdev ← get_uint
    size ← get_uint
    blksize ← get_uint
    blocks ← get_uint
    atime ← get_uint
    mtime ← get_uint
    ctime ← get_uint
    ret (
        (dev % 65536)
        ∷ (ino % 65536)
        ∷ mode
        ∷ (nlink % 65536)
        ∷ (uid % 65536)
        ∷ (gid % 65536)
        ∷ (rdev % 65536)
        ∷ size
        ∷ blksize
        ∷ blocks
        ∷ atime
        ∷ mtime
        ∷ ctime
        ∷ [])

  unfoldable pub fstat : ℕ → Io (List ℕ × ℕ)
  fstat fd = do
    put_byte (number sys_fstat)
    put_uint fd
    ds ← get_stat
    result ← get_uint
    ret (ds, result)

  unfoldable pub stat : List ℕ → Io (List ℕ × ℕ)
  stat pathname = do
    put_byte (number sys_stat)
    put_path pathname
    ds ← get_stat
    result ← get_uint
    ret (ds, result)
