-- ===== src/Dedup/Serving.antt =====
-- The console loop runs a tagged request at most once, and answers a copy of it with the packets
-- of the first answer (host/src/console.c over host/src/dedup.c).
use kos_tool.Prelude.{
  ℕ, ◌+◌, ◌-◌, ◌^◌, ◌≤◌, ◌<◌, ◌≡◌, refl, arith, true, false, Option, none, some, List, [], ◌∷◌,
  ◌++◌, if◌then◌else◌, length, take, All, IsU32, inl, inr, Option-cases, Bool-cases,
}
use kos_tool.Wire.{be32}
use kos_tool.Dedup.{
  State, dedup_extract_seq, dedup_is_stale, dedup_begin_capture, dedup_capture_pkt,
  dedup_end_capture,
}
use kos_tool.Dedup.Replay.{dedup_is_stale-leb, dedup_is_stale_same}
use kos_tool.Dedup.Console.{
  Send, padded, reply, bulk, send_one, send_all, dispatch, serve_tagged, console_round, terminated,
}

-- What no capture changes.
pub record Kept (s t : State) : Type 0 where
  pub seq_same : t.seq ≡ s.seq
  pub valid_same : t.valid ≡ s.valid
  pub capturing_same : t.capturing ≡ s.capturing
  pub capture_seq_same : t.capture_seq ≡ s.capture_seq

Kept-refl : (s : State) → Kept s s
Kept-refl s = record {
  seq_same = refl;
  valid_same = refl;
  capturing_same = refl;
  capture_seq_same = refl;
}

dedup_capture_pkt-Kept : (p : List ℕ) (s : State) → Kept s (dedup_capture_pkt p s)
unfolding dedup_capture_pkt
dedup_capture_pkt-Kept p s = ground arith

send_one-Kept : (c : Send) (s : State) → Kept s (send_one c s).0
unfolding send_one
send_one-Kept (reply c) s = dedup_capture_pkt-Kept _ s
send_one-Kept (bulk wii c) s = ground (
  arith,
  dedup_capture_pkt-Kept (padded wii (c.cmd ++ be32 c.addr ++ be32 c.size ++ take 2033 c.payload))
      s,
)

send_all-Kept : (cs : List Send) (s : State) → Kept s (send_all cs s).0
unfolding send_all
send_all-Kept [] s = Kept-refl s
send_all-Kept (c ∷ cs) s = ground (arith, send_one-Kept c s, send_all-Kept cs (send_one c s).0)

module _ {H : Type 0} (handle : H → List ℕ → H × List Send) where
  dispatch-ran :
      (tag : Option ℕ) (pkt : List ℕ) (s : State) (h : H) (q : ℕ)
      → s.capturing ≡ true
      → (dispatch handle tag pkt s h).ran ≡ some q
      → (tag ≡ some q)
        × ((dispatch handle tag pkt s h).cache.seq ≡ s.capture_seq)
        × ((dispatch handle tag pkt s h).cache.valid ≡ true)
  unfolding dispatch dedup_end_capture
  dispatch-ran none pkt s h q on e = ground arith
  dispatch-ran (some t) pkt s h q on e =
      ground (arith, send_all-Kept (handle h (terminated pkt)).1 s)

  dispatch_idle :
      (tag : Option ℕ) (pkt : List ℕ) (s : State) (h : H)
      → (dispatch handle tag pkt s h).ran ≡ none
      → ((dispatch handle tag pkt s h).cache.seq ≡ s.seq)
        × ((dispatch handle tag pkt s h).cache.valid ≡ s.valid)
  unfolding dispatch
  dispatch_idle none pkt s h e = ground (arith, send_all-Kept (handle h (terminated pkt)).1 s)
  dispatch_idle (some t) pkt s h e = ground arith

  dispatch-none-ran : (pkt : List ℕ) (s : State) (h : H) → (dispatch handle none pkt s h).ran ≡ none
  unfolding dispatch
  dispatch-none-ran pkt s h = ground arith

  serve_tagged-ran :
      (seq : ℕ) (pkt : List ℕ) (now : ℕ) (s : State) (h : H) (q : ℕ)
      → (serve_tagged handle seq pkt now s h).ran ≡ some q
      → (seq ≡ q)
        × (dedup_is_stale seq s ≡ false)
        × ((serve_tagged handle seq pkt now s h).cache.seq ≡ seq)
        × ((serve_tagged handle seq pkt now s h).cache.valid ≡ true)
  unfolding serve_tagged dedup_begin_capture
  serve_tagged-ran seq pkt now s h q e = ground (
    arith,
    dispatch-ran (some seq) (take (length pkt - 8) pkt) (dedup_begin_capture seq now s) h q refl,
  )

  -- A round that ran a tagged request: the request was no copy of an old one, and the cache now
  -- stands for it.
  pub console_round-ran :
      (pkt : List ℕ) (now : ℕ) (s : State) (h : H) (q : ℕ)
      → (console_round handle pkt now s h).ran ≡ some q
      → (dedup_extract_seq pkt (length pkt) ≡ some q)
        × (dedup_is_stale q s ≡ false)
        × ((console_round handle pkt now s h).cache.seq ≡ q)
        × ((console_round handle pkt now s h).cache.valid ≡ true)
  unfolding console_round
  console_round-ran pkt now s h q e = elim (Option-cases (dedup_extract_seq pkt (length pkt))) [
    | inl none_tag ↦ ground (arith, none_tag, dispatch-none-ran pkt s h)
    | inr (seq, tag) ↦ ground (arith, tag, serve_tagged-ran seq pkt now s h q)
  ]

  -- Any other round leaves what the cache stands for.
  console_round_idle :
      (pkt : List ℕ) (now : ℕ) (s : State) (h : H)
      → (console_round handle pkt now s h).ran ≡ none
      → ((console_round handle pkt now s h).cache.seq ≡ s.seq)
        × ((console_round handle pkt now s h).cache.valid ≡ s.valid)
  unfolding console_round serve_tagged dedup_begin_capture
  console_round_idle pkt now s h e = elim (Option-cases (dedup_extract_seq pkt (length pkt))) [
    | inl none_tag ↦ ground (arith, none_tag, dispatch_idle none pkt s h)
    | inr (seq, tag) ↦ ground (
      arith,
      tag,
      dispatch_idle (some seq) (take (length pkt - 8) pkt) (dedup_begin_capture seq now s) h,
    )
  ]

  -- A tagged packet that is old for the cache changes nothing on the host.
  console_round_stale :
      (copy : List ℕ) (later : ℕ) (s : State) (h : H) (q : ℕ)
      → dedup_extract_seq copy (length copy) ≡ some q
      → dedup_is_stale q s ≡ true
      → (console_round handle copy later s h).world ≡ h
  unfolding console_round serve_tagged
  console_round_stale copy later s h q tag old = ground (arith, tag, old)

  -- Right after a tagged request with a 32-bit number ran, a copy of it changes nothing in the
  -- host's world, however late it comes.
  pub console_round_once :
      (pkt copy : List ℕ) (now later : ℕ) (s : State) (h : H) (q : ℕ)
      → IsU32 q
      → (console_round handle pkt now s h).ran ≡ some q
      → dedup_extract_seq copy (length copy) ≡ some q
      → (console_round handle copy later
          (console_round handle pkt now s h).cache
          (console_round handle pkt now s h).world).world
        ≡ (console_round handle pkt now s h).world
  console_round_once pkt copy now later s h q small e tag =
      let ran = console_round-ran pkt now s h q e in
      let old : dedup_is_stale q (console_round handle pkt now s h).cache ≡ true =
        ground (arith, ran, dedup_is_stale_same (console_round handle pkt now s h).cache) in
      console_round_stale copy later (console_round handle pkt now s h).cache
        (console_round handle pkt now s h).world q tag old

abbrev pub with_tag : Option ℕ → List ℕ → List ℕ
with_tag none later = later
with_tag (some q) later = q ∷ later

abbrev pub unless_exited : Option ℕ → List ℕ → List ℕ
unless_exited none later = later
unless_exited (some code) later = []

-- The loop over the packets that arrive, until the program ends: the tags of the requests run.
module _ {H : Type 0} (handle : H → List ℕ → H × List Send) where
  unfoldable pub executed : List (List ℕ × ℕ) → State → H → List ℕ
  executed [] s h = []
  executed ((pkt, now) ∷ rest) s h =
      let r = console_round handle pkt now s h in
      with_tag r.ran (unless_exited r.exit_code (executed rest r.cache r.world))

-- Every number is at least the bound, and above the one before it.
abbrev pub AscendsFrom : ℕ → List ℕ → Type 0
AscendsFrom n [] = Unit
AscendsFrom n (x ∷ xs) = (n ≤ x) × AscendsFrom (x + 1) xs

-- A tag, if there is one, is below 2^31.
abbrev pub HasSmallTag : List ℕ × ℕ → Type 0
HasSmallTag p = (q : ℕ) → dedup_extract_seq p.0 (length p.0) ≡ some q → q < 2 ^ 31

-- The numbers that are not old for the cache.
abbrev pub fresh_from : State → ℕ
fresh_from s = if s.valid then s.seq + 1 else 0

module _ {H : Type 0} (handle : H → List ℕ → H × List Send) where
  not_old :
      (q : ℕ) (s : State)
      → dedup_is_stale q s ≡ false
      → q < 2 ^ 31
      → s.seq < 2 ^ 31
      → fresh_from s ≤ q
  not_old q s new h low = elim (Bool-cases s.valid) [
    | inl v ↦ rw v (ground (arith, dedup_is_stale-leb q s v))
    | inr v ↦ rw v (omega arith)
  ]

  until_exit :
      (n : ℕ) (code : Option ℕ) (l : List ℕ)
      → AscendsFrom n l
      → AscendsFrom n (unless_exited code l)
  until_exit n none l h = h
  until_exit n (some c) l h = tt

  -- Over any sequence of datagrams whose tags are below 2^31, the tags of the requests that run
  -- go up strictly, from above the last one before.
  pub executed-AscendsFrom :
      (arrivals : List (List ℕ × ℕ)) (s : State) (h : H)
      → All HasSmallTag arrivals
      → s.seq < 2 ^ 31
      → AscendsFrom (fresh_from s) (executed handle arrivals s h)
  unfolding executed
  executed-AscendsFrom [] s h small low = tt
  executed-AscendsFrom ((pkt, now) ∷ rest) s h (tag, tags) low =
      elim (Option-cases (console_round handle pkt now s h).ran) [
        | inl none_ran ↦
            let same = console_round_idle handle pkt now s h none_ran in
            let bound : fresh_from (console_round handle pkt now s h).cache ≡ fresh_from s =
              rw (same.0, same.1) in
            rw (none_ran, ← bound)
              (until_exit _ _ _ (
                executed-AscendsFrom rest (console_round handle pkt now s h).cache
                  (console_round handle pkt now s h).world tags (omega (arith, same.0))))
        | inr (q, ran) ↦
            let facts = console_round-ran handle pkt now s h q ran in
            let bound : fresh_from (console_round handle pkt now s h).cache ≡ q + 1 =
              rw (facts.2, facts.3) in
            rw ran (
              not_old q s facts.1 (tag q facts.0) low,
              rw (← bound) (
                  until_exit _ _ _ (
                    executed-AscendsFrom rest (console_round handle pkt now s h).cache
                      (console_round handle pkt now s h).world tags
                      (omega (arith, facts.2, tag q facts.0)))),
            )
      ]
