-- ===== src/Client/Control/Replies.antt =====
-- Which performance counter requests are carried out (client/common/core/commands.c).
use kos_tool.Prelude.{ℕ, ◌≤◌, ◌<◌, ◌≡◌, ◌⊎◌, arith, some, List}
use kos_tool.Client.{Event}
use kos_tool.Client.Control.{pmcr_request}

-- A counter operation's channel, and for the three that start a counter its mode and its count type.
abbrev pub IsInRange : (ℕ → ℕ) → Type 0
IsInRange d =
    (0 < d 1)
    × (d 1 ≤ 3)
    × ((d 0 ≡ b'I') ⊎ ((d 0 ≡ b'E') ⊎ (d 0 ≡ b'B')) → (0 < d 2) × (d 2 ≤ 41) × (d 3 ≤ 1))
    × ((d 0 ≡ b'R') ⊎ (d 0 ≡ b'G') → d 1 ≤ 2)

-- Whatever a request says, a performance counter is touched only for a channel, a mode and a
-- count type that exist, and for reading a single channel.
pub pmcr_request-IsInRange :
    (read_array getconfig_array : ℕ → List ℕ) (d : ℕ → ℕ) (e : Event)
    → (pmcr_request read_array getconfig_array d).1 ≡ some e
    → IsInRange d
unfolding pmcr_request
pmcr_request-IsInRange read_array getconfig_array d e h =
    (ground arith, ground arith, λ k. (ground arith, ground arith, ground arith), λ k. ground arith)
