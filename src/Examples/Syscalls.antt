-- ===== src/Examples/Syscalls.antt =====
-- System calls and other commands: the theorems on them at concrete requests.
use kos_tool.Prelude.{ℕ, ◌≡◌, refl, arith, true, some, List, [], ◌∷◌, get_or}
use kos_tool.Wire.{same_bytes, seq_trailer}
use kos_tool.Client.{Request, Frame}
use kos_tool.Client.Syscalls.{
  request_frame, kos_syscall_wait_for_retval, kos_syscall_max_retries, host_supports_dedup,
}
use kos_tool.Client.Syscalls.Numbering.{IsNumbered, numbers_from}
use kos_tool.Client.Syscalls.Waiting.{IsSilent, GaveUp, kos_syscall_wait_for_retval_silent}
use kos_tool.Client.Retval.{cmd_retval}
use kos_tool.Client.Retval.Stale.{IsReply, Delivered, cmd_retval_stale, cmd_retval_own}
use kos_tool.Client.Receive.{Devices, command_of, process_udp}
use kos_tool.Client.Receive.Waiting.{SameWait, IsNoAnswer, process_udp-SameWait}
use kos_tool.Examples.{target, client, request}

client-IsNumbered : IsNumbered client
client-IsNumbered = record { fits = omega arith; positive = omega arith }

abbrev close_command : List ℕ
close_command = b'D' ∷ b'C' ∷ b'0' ∷ b'5' ∷ 0 ∷ 0 ∷ 0 ∷ 3 ∷ []

the_numbers : numbers_from 2 0xffff_ffff [] ≡ some 1 ∷ some 0xffff_ffff ∷ []
unfolding numbers_from
the_numbers = refl

target-IsSilent : IsSilent target
target-IsSilent = record { late = λ s. omega arith; still = λ s. refl }

abbrev frame : Frame
frame = request_frame close_command 8 client

kos_syscall_wait_for_retval_silent_example :
    GaveUp
      (record client { saved_frame = some frame })
      (kos_syscall_wait_for_retval target (record client { saved_frame = some frame }))
      kos_syscall_max_retries
      frame
unfolding host_supports_dedup
kos_syscall_wait_for_retval_silent_example =
    kos_syscall_wait_for_retval_silent target frame (record client { saved_frame = some frame })
      target-IsSilent refl refl refl (omega arith) refl

-- An answer with two bytes of data, to the request of a number.
abbrev answer_to : ℕ → Request
answer_to seq = record request {
  udp_length = 30;
  address = 42;
  data_at = λ i. get_or (1 ∷ 2 ∷ seq_trailer seq) i 0;
}

answer_six : IsReply (answer_to 6) 2 6
answer_six = record { udp_length = refl; trailer = λ j h. ground arith; seq_fits = omega arith }

answer_seven : IsReply (answer_to 7) 2 7
answer_seven = record { udp_length = refl; trailer = λ j h. ground arith; seq_fits = omega arith }

cmd_retval_stale_example : cmd_retval (answer_to 6) client ≡ client
cmd_retval_stale_example =
    cmd_retval_stale (answer_to 6) 2 6 client answer_six refl (λ e. omega arith)

cmd_retval_own_example : Delivered (answer_to 7) 2 (cmd_retval (answer_to 7) client)
cmd_retval_own_example = cmd_retval_own (answer_to 7) 2 client answer_seven refl refl

abbrev init_request : ℕ → ℕ
init_request i = get_or (b'I' ∷ 1 ∷ 0x23 ∷ 1 ∷ []) i 0

abbrev devices : Devices
devices = record { text = 0; maple = λ _ _. 0; read_array = λ _. []; getconfig_array = λ _. [] }

request-IsNoAnswer : IsNoAnswer target request client
unfolding command_of same_bytes
request-IsNoAnswer = (λ e. ground arith, λ e. omega arith)

process_udp-SameWait_example : SameWait client (process_udp target devices true request client)
process_udp-SameWait_example =
    process_udp-SameWait target devices true request client refl request-IsNoAnswer
