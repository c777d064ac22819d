-- ===== src/Dhcp/Options/Within.antt =====
-- The searches of client/common/network/dhcp.c read no byte past the packet's length.
use kos_tool.Prelude.{ℕ, zero, suc, ◌+◌, ◌-◌, ◌<◌, ◌≡◌, refl, arith}
use kos_tool.Dhcp.Options.{
  message_type_from, kos_net_dhcp_get_message_type, word_from, kos_net_dhcp_get_32bit, next_option,
}

module _ (f g : ℕ → ℕ) (len : ℕ) (same : (j : ℕ) → j < len → f j ≡ g j) where
  next_option_within : (i : ℕ) → i + 1 < len → next_option f i ≡ next_option g i
  next_option_within i h = ground (arith, same i, same (i + 1))

  message_type_from_within :
      (fuel i : ℕ) → message_type_from fuel f len i ≡ message_type_from fuel g len i
  unfolding message_type_from
  message_type_from_within zero i = refl
  message_type_from_within (suc fuel) i = ground (
    arith,
    same i,
    same (i + 1),
    same (i + 2),
    message_type_from_within fuel (next_option f i),
    message_type_from_within fuel (i + 1),
  )

  word_from_within : (opt fuel i : ℕ) → word_from fuel f opt len i ≡ word_from fuel g opt len i
  unfolding word_from
  word_from_within opt zero i = refl
  word_from_within opt (suc fuel) i = ground (
    arith,
    same i,
    same (i + 1),
    same (i + 2),
    same (i + 3),
    same (i + 4),
    same (i + 5),
    word_from_within opt fuel (next_option f i),
    word_from_within opt fuel (i + 1),
  )

-- The results of both searches depend only on the bytes within the packet's length: two buffers
-- that agree there give the same.
pub dhcp_searches_within :
    (f g : ℕ → ℕ) (len opt : ℕ)
    → ((j : ℕ) → j + 236 < len → f j ≡ g j)
    → (kos_net_dhcp_get_message_type f len ≡ kos_net_dhcp_get_message_type g len)
      × (kos_net_dhcp_get_32bit f opt len ≡ kos_net_dhcp_get_32bit g opt len)
unfolding kos_net_dhcp_get_message_type kos_net_dhcp_get_32bit
dhcp_searches_within f g len opt same = (
  message_type_from_within f g (len - 236) within len 4,
  word_from_within f g (len - 236) within opt len 4,
)
  where
    within : (j : ℕ) → j < len - 236 → f j ≡ g j
    within j h = same j (omega arith)
