-- ===== src/Client/Syscalls/Waiting.antt =====
-- The bounded wait of client/common/network/network_syscalls.c.
use kos_tool.Prelude.{
  ℕ, zero, suc, ◌+◌, ◌%◌, ◌^◌, ◌≤◌, ◌<◌, ◌≡◌, refl, sym, ap, ◌∙◌, arith, true, false, none, some,
  List, ◌∷◌, ltb,
}
use mathlib.Core.Path.{subst}
use kos_tool.Client.{Client, Platform, Frame, Event, tx, emit}
use kos_tool.Client.Syscalls.{
  retry_loop, attempt, kos_syscall_wait_for_retval, wait_ticks, host_supports_dedup,
  kos_syscall_max_retries,
}

-- A link on which nothing arrives: `bb->loop(0)` runs to its deadline and changes the clock only.
pub record IsSilent (p : Platform) : Type 0 where
  pub late : (s : Client) → s.loop_deadline_ticks ≤ (p.loop s).ticks
  pub still : (s : Client) → p.loop s ≡ record s { ticks = (p.loop s).ticks }

-- The events of `n` copies of a frame.
unfoldable pub copies : ℕ → Frame → List Event → List Event
copies zero f es = es
copies (suc n) f es = copies n f (tx f ∷ es)

-- One attempt on such a link: it runs to its deadline and leaves the rest.
attempt_silent :
    (p : Platform) (timeout : ℕ) (s : Client)
    → IsSilent p
    → (ltb (attempt p timeout s).1.ticks (attempt p timeout s).0 ≡ false)
      × ((attempt p timeout s).1.saved_frame ≡ s.saved_frame)
      × ((attempt p timeout s).1.trace ≡ s.trace)
      × ((attempt p timeout s).1.loop_deadline_ticks ≡ 0)
unfolding attempt
attempt_silent p timeout s q =
    let armed = record s {
      escape_loop = false;
      loop_deadline_ticks = (s.ticks + timeout) % 2 ^ 64;
    } in
    (
      ground (arith, q.late armed),
      ap (λ (c : Client). c.saved_frame) (q.still armed),
      ap (λ (c : Client). c.trace) (q.still armed),
      refl,
    )

-- How a wait without an answer ends.
pub record GaveUp (s t : Client) (n : ℕ) (frame : Frame) : Type 0 where
  pub resent : t.trace ≡ copies n frame s.trace
  pub failed : t.syscall_retval ≡ 0xffff_ffff
  pub no_data : t.syscall_data ≡ none
  pub no_length : t.syscall_data_len ≡ 0
  pub no_deadline : t.loop_deadline_ticks ≡ 0
  pub no_timeout : t.kos_syscall_timeout_ticks ≡ 0

retry_loop_again :
    (p : Platform) (timeout n : ℕ) (frame : Frame) (s : Client)
    → ltb (attempt p timeout s).1.ticks (attempt p timeout s).0 ≡ false
    → (attempt p timeout s).1.saved_frame ≡ some frame
    → retry_loop p timeout (suc n) s
      ≡ retry_loop p timeout n (emit (tx frame) (attempt p timeout s).1)
unfolding retry_loop
retry_loop_again p timeout n frame s late saved = ground arith

retry_loop_silent :
    (p : Platform) (timeout n : ℕ) (frame : Frame) (s : Client)
    → IsSilent p
    → s.saved_frame ≡ some frame
    → GaveUp s (retry_loop p timeout n s) n frame
unfolding retry_loop copies
retry_loop_silent p timeout zero frame s q e =
    let (late, kept, quiet, off) = attempt_silent p timeout s q in
    rw late (record {
      resent = quiet;
      failed = refl;
      no_data = refl;
      no_length = refl;
      no_deadline = off;
      no_timeout = refl;
    })
retry_loop_silent p timeout (suc n) frame s q e =
    let (late, kept, quiet, off) = attempt_silent p timeout s q in
    let after = (attempt p timeout s).1 in
    let again = retry_loop_silent p timeout n frame (emit (tx frame) after) q (kept ∙ e) in
    subst (λ (t : Client). GaveUp s t (suc n) frame)
      (sym (retry_loop_again p timeout n frame s late (kept ∙ e)))
      (record {
        resent = again.resent ∙ ap (λ (es : List Event). copies n frame (tx frame ∷ es)) quiet;
        failed = again.failed;
        no_data = again.no_data;
        no_length = again.no_length;
        no_deadline = again.no_deadline;
        no_timeout = again.no_timeout;
      })

waits_in_loop :
    (p : Platform) (s : Client)
    → p.lossy ≡ true
    → host_supports_dedup s ≡ true
    → p.has_get_ticks ≡ true
    → 0 < p.ticks_per_second
    → kos_syscall_wait_for_retval p s
      ≡ retry_loop p
          (wait_ticks p)
          kos_syscall_max_retries
          (record s { kos_syscall_timeout_ticks = wait_ticks p })
unfolding kos_syscall_wait_for_retval
waits_in_loop p s lossy dedup clock positive = ground arith

-- On a lossy adapter with a clock and for a host of version 3 or later, a saved request that
-- nothing answers ends: the same frame, its number included, is sent six more times, and the call
-- returns -1 with no data.
pub kos_syscall_wait_for_retval_silent :
    (p : Platform) (frame : Frame) (s : Client)
    → IsSilent p
    → p.lossy ≡ true
    → host_supports_dedup s ≡ true
    → p.has_get_ticks ≡ true
    → 0 < p.ticks_per_second
    → s.saved_frame ≡ some frame
    → GaveUp s (kos_syscall_wait_for_retval p s) kos_syscall_max_retries frame
kos_syscall_wait_for_retval_silent p frame s q lossy dedup clock positive saved =
    let g =
      retry_loop_silent p (wait_ticks p) kos_syscall_max_retries frame
        (record s { kos_syscall_timeout_ticks = wait_ticks p }) q saved in
    subst (λ (t : Client). GaveUp s t kos_syscall_max_retries frame)
      (sym (waits_in_loop p s lossy dedup clock positive))
      (record {
        resent = g.resent;
        failed = g.failed;
        no_data = g.no_data;
        no_length = g.no_length;
        no_deadline = g.no_deadline;
        no_timeout = g.no_timeout;
      })
