-- ===== src/Examples/Serial.antt =====
-- The theorems on the serial line at concrete values.
use kos_tool.Prelude.{
  ℕ, zero, suc, ◌+◌, ◌≡◌, refl, ap, Bool, true, false, ◌&&◌, Option, none, some, List, [], ◌∷◌,
  length, replicate, ◌==◌, if◌then◌else◌, arith, codes, Bool-cases, inl, inr,
}
use kos_tool.Serial.Io.{Io}
use kos_tool.Serial.Io.Meets.{Agree}
use kos_tool.Serial.Io.Stalls.{Stalls}
use kos_tool.Serial.Loader.{Lzo, IsLzo, load_data_block_general, send_data_block_compressed}
use kos_tool.Serial.Tool.{lzo_send_data, lzo_recv_data}
use kos_tool.Serial.Blocks.{lzo_send_data-load_data_block_general}
use kos_tool.Serial.Sending.{send_data_block_compressed-lzo_recv_data}
use kos_tool.Serial.Commands.{
  Loader, execute, flush, set_console_enabled, serial_transport_loop, store_all,
}
use kos_tool.Serial.Requests.{serial_send_data, serial_execute}
use kos_tool.Serial.Requests.Served.{serial_send_data-loop}
use kos_tool.Serial.Requests.Executed.{serial_execute-loop, with_argv, cleared}
use kos_tool.Serial.Syscalls
use kos_tool.Serial.Syscalls.Serving.{Files, do_serial_console}
use kos_tool.Serial.Syscalls.Served.{write, open_call, close, line, round}
use kos_tool.Serial.Syscalls.Calls.{SystemCall, one_word, read_call, fstat_call}
use kos_tool.Serial.Syscalls.Session.{perform_all, do_serial_console-perform_all, read-Stalls}

-- A packer that shortens runs of zeros.
abbrev all_zero : List ℕ → Bool
all_zero [] = true
all_zero (b ∷ bs) = (b == 0) && all_zero bs

abbrev pack : List ℕ → List ℕ
pack bs = if all_zero bs then 0 ∷ length bs ∷ [] else 1 ∷ bs

abbrev unpack : List ℕ → Option (List ℕ)
unpack (zero ∷ n ∷ []) = some (replicate n 0)
unpack (suc zero ∷ bs) = some bs
unpack _ = none

abbrev packer : Lzo
packer = record { compress = pack; decompress = unpack }

zeros : (bs : List ℕ) → all_zero bs ≡ true → replicate (length bs) 0 ≡ bs
zeros [] h = refl
zeros (b ∷ bs) h = ground (arith, zeros bs)

packer-IsLzo : IsLzo packer
packer-IsLzo = record {
  round_trip = λ bs. elim (Bool-cases (all_zero bs)) [
    | inl e ↦ rw e (ap (λ (l : List ℕ). some l) (zeros bs e))
    | inr e ↦ rw e refl
  ];
}

abbrev image : List ℕ
image = 0 ∷ 0 ∷ 0 ∷ 0 ∷ []

lzo_send_data-load_data_block_general_example :
    Agree (lzo_send_data packer 1 image) (load_data_block_general packer 4 4) tt image
lzo_send_data-load_data_block_general_example =
    lzo_send_data-load_data_block_general packer packer-IsLzo 0 image

send_data_block_compressed-lzo_recv_data_example :
    Agree
      (lzo_recv_data packer 20 20)
      (send_data_block_compressed packer true 3 (replicate 20 0))
      (replicate 20 0)
      tt
send_data_block_compressed-lzo_recv_data_example =
    send_data_block_compressed-lzo_recv_data packer packer-IsLzo 2 true (replicate 20 0)
      (omega arith) (omega arith)

abbrev idle : Loader
idle = record {
  argc = 0;
  argv_data = λ i. 0;
  baud_rate = 57600;
  capabilities = 0;
  host_capabilities = 0;
  has_fw_update_prepare = false;
  memory = λ a. 7;
  trace = [];
}

serial_send_data-loop_example :
    Agree
      (serial_send_data packer 1 image 0x8c010000)
      (serial_transport_loop packer 1 [] idle)
      tt
      (record idle { memory = store_all image 0x8c010000 (λ a. 7) })
serial_send_data-loop_example =
    serial_send_data-loop packer packer-IsLzo 0 [] idle image 0x8c010000 (omega arith) (omega arith)

abbrev arguments : List ℕ
arguments = b'a' ∷ 0 ∷ b'b' ∷ 0 ∷ []

serial_execute-loop_example :
    Agree
      (serial_execute 0x8c010000 true false true 2 arguments false)
      (serial_transport_loop packer 1 [] idle)
      tt
      (record (with_argv 2 arguments (cleared idle)) {
        trace = execute 0x8c010000 ∷ flush ∷ set_console_enabled 1 ∷ [];
      })
serial_execute-loop_example =
    serial_execute-loop packer 1 [] idle 0x8c010000 2 true true false arguments (omega arith)
      (omega arith) (omega arith) (omega arith)

-- A host whose state is the next descriptor.
abbrev files : Files ℕ
files = record {
  resolve_path = λ path. path;
  translate_open_flags = λ flags. flags;
  out = λ fd bytes f. (f, length bytes);
  read_file = λ fd count f. (f, (replicate count 0, count));
  open_file = λ path flags mode f. (f + 1, f);
  create_file = λ path mode f. (f + 1, f);
  close_file = λ fd f. (f, 0);
  link_files = λ path1 path2 f. (f, 0);
  unlink_file = λ path f. (f, 0);
  change_dir = λ path f. (f, 0);
  change_mode = λ path mode f. (f, 0);
  make_dir = λ path mode f. (f, 0);
  seek = λ fd offset whence f. (f, offset);
  now = λ f. 1000;
  status_of = λ fd f. ((65537 ∷ 65537 ∷ 70000 ∷ replicate 10 1), 0);
  status_at = λ path f. ([], 0);
  set_times = λ path times f. (f, 0);
}

abbrev others : ℕ → ℕ → Io ℕ
others command f = Io.ret f

abbrev session : List SystemCall
session =
    one_word (open_call (codes "log") 1 438)
    ∷ one_word (write 3 image)
    ∷ read_call 3 2
    ∷ fstat_call 3
    ∷ one_word (close 3)
    ∷ []

do_serial_console-perform_all_example :
    Agree
      (do_serial_console files packer 1 others 5 3)
      (perform_all (line files packer packer-IsLzo false 0 others) session)
      4
      (([], 3)
        ∷ ([], length image)
        ∷ ((0 ∷ 0 ∷ []), 2)
        ∷ ((1 ∷ 1 ∷ 70000 ∷ replicate 10 1), 0)
        ∷ ([], 0)
        ∷ [])
do_serial_console-perform_all_example =
    do_serial_console-perform_all files packer packer-IsLzo false 0 others session 3 (ground arith)
      (ground arith)

read-Stalls_example :
    Stalls [] []
      (round files packer packer-IsLzo false 0 others 3)
      (Syscalls.read (line files packer packer-IsLzo false 0 others) 3 40_000_000)
read-Stalls_example =
    read-Stalls files packer packer-IsLzo false 0 others 3 40_000_000 3 (omega arith) (omega arith)
      (omega arith)
