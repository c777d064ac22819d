-- ===== src/Checksum/ByteOrder.antt =====
-- One checksum for both byte orders (client/common/network/checksum.c, RFC 1071 section 2B): what
-- a little-endian and a big-endian machine store are the same two bytes.
use kos_tool.Prelude.{
  ℕ, zero, suc, ◌+◌, ◌-◌, ◌*◌, ◌/◌, ◌%◌, ◌≤◌, ◌<◌, ◌≡◌, refl, arith, Bool, true, false, List, [],
  ◌∷◌, All, IsByte, add32,
}
use kos_tool.Checksum.{
  little, big, word, stored, fold, fold_carries, add_words, add_odd, checksum, checksum_udp,
}
use kos_tool.Checksum.Fold.{fold_carries-Folded, eq_of_residue, fold_lem}

-- The sums over the same bytes, read in the two orders.
pub record Swapped (l b bound : ℕ) : Type 0 where
  pub residue : l % 65535 ≡ 256 * b % 65535
  pub zero_left : l ≡ 0 → b ≡ 0
  pub zero_right : b ≡ 0 → l ≡ 0
  pub low_left : l ≤ bound
  pub low_right : b ≤ bound

Swapped-word :
    (l b n b0 b1 : ℕ)
    → IsByte b0
    → IsByte b1
    → n < 65536
    → Swapped l b (n * 65535)
    → Swapped (add32 l (word little b0 b1)) (add32 b (word big b0 b1)) (suc n * 65535)
Swapped-word l b n b0 b1 h0 h1 small s = record {
  residue = omega (arith, s.residue, s.low_left, s.low_right);
  zero_left = λ e. omega (arith, s.zero_left (omega (arith, s.low_left)), s.low_left);
  zero_right = λ e. omega (arith, s.zero_right (omega (arith, s.low_right)), s.low_right);
  low_left = omega (arith, s.low_left);
  low_right = omega (arith, s.low_right);
}

Swapped-widen : (l b n m : ℕ) → n ≤ m → Swapped l b (n * 65535) → Swapped l b (m * 65535)
Swapped-widen l b n m h s = record {
  residue = s.residue;
  zero_left = s.zero_left;
  zero_right = s.zero_right;
  low_left = omega (arith, s.low_left);
  low_right = omega (arith, s.low_right);
}

-- The two machines read the same bytes and stand at the same place behind them.
abbrev Together : ℕ × List ℕ → ℕ × List ℕ → ℕ → Type 0
Together p q m = Swapped p.0 q.0 (m * 65535) × (p.1 ≡ q.1) × All IsByte q.1

add_words-Together :
    (count n m : ℕ) (buf : List ℕ) (l b : ℕ)
    → All IsByte buf
    → count + n ≤ m
    → m ≤ 65536
    → Swapped l b (n * 65535)
    → Together (add_words little count buf l) (add_words big count buf b) m
unfolding add_words
add_words-Together zero n m buf l b bytes le small s =
    (Swapped-widen l b n m (omega arith) s, refl, bytes)
add_words-Together (suc count) n m (b0 ∷ b1 ∷ buf) l b (h0, (h1, bytes)) le small s =
    add_words-Together count (suc n) m buf _ _ bytes (omega arith) small
      (Swapped-word l b n b0 b1 h0 h1 (omega arith) s)
add_words-Together (suc count) n m (b0 ∷ []) l b bytes le small s =
    (Swapped-widen l b n m (omega arith) s, refl, bytes)
add_words-Together (suc count) n m [] l b bytes le small s =
    (Swapped-widen l b n m (omega arith) s, refl, tt)

add_odd-Together :
    (is_odd : Bool) (p q : ℕ × List ℕ) (m : ℕ)
    → m < 65536
    → Together p q m
    → Swapped (add_odd little is_odd p) (add_odd big is_odd q) (suc m * 65535)
add_odd-Together false (l, buf) (b, buf') m small (s, same, bytes) =
    Swapped-widen l b m (suc m) (omega arith) s
add_odd-Together true (l, buf) (b, []) m small (s, same, bytes) =
    rw same (Swapped-word l b m 0 0 (omega arith) (omega arith) small s)
add_odd-Together true (l, buf) (b, b0 ∷ buf') m small (s, same, bytes) =
    rw same (Swapped-word l b m b0 0 bytes.0 (omega arith) small s)

-- The folded sums have their bytes exchanged, so the stored bytes agree.
stored-fold :
    (l b m : ℕ) → m ≤ 65537 → Swapped l b (m * 65535) → stored little (fold l) ≡ stored big (fold b)
stored-fold l b m small s =
    let fl = fold_carries-Folded l (omega (arith, s.low_left)) in
    let fb = fold_carries-Folded b (omega (arith, s.low_right)) in
    let swapped : fold_carries 3 l ≡ fold_carries 3 b % 256 * 256 + fold_carries 3 b / 256 =
      eq_of_residue _ _ fl.small (omega (arith, fb.small))
        (omega (arith, fl.same_residue, fb.same_residue, s.residue))
        (λ e. omega (arith, fb.zero_sum (s.zero_left (fl.zero_result e))))
        (λ e. fl.zero_sum (s.zero_right (fb.zero_result (omega (arith, fb.small))))) in
    rw (fold_lem l (omega (arith, s.low_left)), fold_lem b (omega (arith, s.low_right)), swapped)
      (bytes_swapped (fold_carries 3 b) fb.small)
  where
    bytes_swapped :
        (r : ℕ)
        → r < 65536
        → stored little (65535 - (r % 256 * 256 + r / 256)) ≡ stored big (65535 - r)
    bytes_swapped r h = ground arith

none_yet : Swapped 0 0 (0 * 65535)
none_yet = record {
  residue = refl;
  zero_left = λ e. refl;
  zero_right = λ e. refl;
  low_left = omega arith;
  low_right = omega arith;
}

-- Over the same bytes, up to 65535 words of them, both byte orders store the same two bytes of
-- checksum.
pub stored-checksum :
    (buf : List ℕ) (count : ℕ) (is_odd : Bool)
    → All IsByte buf
    → count < 65536
    → stored little (checksum little buf count is_odd) ≡ stored big (checksum big buf count is_odd)
unfolding checksum
stored-checksum buf count is_odd bytes small = stored-fold _ _ (suc count) (omega arith) (
    add_odd-Together is_odd _ _ count small
      (add_words-Together count 0 count buf 0 0 bytes (omega arith) (omega arith) none_yet))

-- Over the same pseudo-header and payload, up to 65535 words in all, both byte orders store the
-- same two bytes of UDP checksum.
pub stored-checksum_udp :
    (pseudo buf : List ℕ) (count : ℕ) (is_odd : Bool)
    → All IsByte pseudo
    → All IsByte buf
    → count + 10 < 65536
    → stored little (checksum_udp little pseudo buf count is_odd)
      ≡ stored big (checksum_udp big pseudo buf count is_odd)
unfolding checksum_udp
stored-checksum_udp pseudo buf count is_odd head bytes small =
    let first = add_words-Together 10 0 10 pseudo 0 0 head (omega arith) (omega arith) none_yet in
    stored-fold _ _ (suc (count + 10)) (omega arith) (
      add_odd-Together is_odd _ _ (count + 10) small (
        add_words-Together count 10 (count + 10) buf _ _ bytes (omega arith) (omega arith) first.0))
