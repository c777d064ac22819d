-- ===== src/Client/Syscalls/Numbering.antt =====
-- The numbers of the client's requests (client/common/network/network_syscalls.c) as the host
-- reads them (host/src/dedup.c).
use kos_tool.Prelude.{
  ℕ, zero, suc, ◌<◌, ◌≡◌, refl, ap, ◌∙◌, arith, Option, some, List, [], ◌∷◌, length, IsU32,
}
use kos_tool.Dedup.{dedup_extract_seq}
use kos_tool.Dedup.Replay.{dedup_extract_seq-seq_trailer}
use kos_tool.Client.{Client, Frame, Event, tx}
use kos_tool.Client.Syscalls.{build_send_packet, next_seq, send_times}

-- The counter stands for a number that the host takes as one: 32 bits and never 0, the value that
-- a request without a number has in the client.
pub record IsNumbered (s : Client) : Type 0 where
  pub fits : IsU32 s.kos_syscall_next_seq
  pub positive : 0 < s.kos_syscall_next_seq

-- The frames that a list of events sends, newest first.
unfoldable pub sent : List Event → List Frame
sent [] = []
sent (tx f ∷ es) = f ∷ sent es
sent (_ ∷ es) = sent es

-- The numbers that the host reads from frames.
unfoldable pub numbers : List Frame → List (Option ℕ)
numbers [] = []
numbers (f ∷ fs) = dedup_extract_seq f.payload (length f.payload) ∷ numbers fs

-- For a counter that is 32 bits and not 0: a request sends one frame more, the host reads the
-- client's current number from it, and the counter moves on to a number that is again 32 bits and
-- not 0.
pub build_send_packet_lem :
    (command : List ℕ) (s : Client)
    → IsNumbered s
    → (numbers (sent (build_send_packet command s).trace)
        ≡ some (build_send_packet command s).kos_syscall_seq ∷ numbers (sent s.trace))
      × ((build_send_packet command s).kos_syscall_seq ≡ s.kos_syscall_next_seq)
      × IsNumbered (build_send_packet command s)
unfolding build_send_packet sent numbers
build_send_packet_lem command s n = (
  ap (λ (x : Option ℕ). x ∷ numbers (sent s.trace))
      (dedup_extract_seq-seq_trailer command s.kos_syscall_next_seq n.fits),
  refl,
  record { fits = ground (arith, n.fits); positive = ground arith },
)

counter_moves :
    (command : List ℕ) (s : Client)
    → (build_send_packet command s).kos_syscall_next_seq ≡ next_seq s.kos_syscall_next_seq
unfolding build_send_packet
counter_moves command s = refl

-- The numbers of `n` requests after the number `first`, newest first.
unfoldable pub numbers_from : ℕ → ℕ → List (Option ℕ) → List (Option ℕ)
numbers_from zero first rest = rest
numbers_from (suc n) first rest = numbers_from n (next_seq first) (some first ∷ rest)

-- For a counter that is 32 bits and not 0: `n` copies of a notification are sent with `n` numbers
-- in a row, as the host reads them.
pub numbers-send_times :
    (n : ℕ) (command : List ℕ) (s : Client)
    → IsNumbered s
    → numbers (sent (send_times n command s).trace)
      ≡ numbers_from n s.kos_syscall_next_seq (numbers (sent s.trace))
unfolding send_times numbers_from
numbers-send_times zero command s n = refl
numbers-send_times (suc m) command s n =
    let (number, same, after) = build_send_packet_lem command s n in
    numbers-send_times m command (build_send_packet command s) after
    ∙ ap
        (λ (rest : List (Option ℕ)).
          numbers_from m (build_send_packet command s).kos_syscall_next_seq rest)
        (number ∙ ap (λ (k : ℕ). some k ∷ numbers (sent s.trace)) same)
    ∙ ap (λ (k : ℕ). numbers_from m k (some s.kos_syscall_next_seq ∷ numbers (sent s.trace)))
        (counter_moves command s)
