-- ===== src/PartThree/Waits.antt =====
-- What a read of the first version gives, and where it waits.
use y_modem_protocol.Base.{
  ℕ, ◌+◌, ◌%◌, ◌^◌, ◌≤◌, ◌<◌, ◌≡◌, refl, ap, ◌∙◌, Bool, true, false, ◌&&◌, leb, ◌==◌, ==_ne,
  if◌then◌else◌, List, [], ◌∷◌, ◌++◌, length, min, length-take, arith, Bool-cases, inl, inr,
}
use y_modem_protocol.MyIo.Defs.{
  Kernel, Pair, paired, closed, peer_closed, Call, SocketInfo, is_paired, is_peer_closed, read_now,
  notify_drain,
}
use y_modem_protocol.MyIo.Steps.{counted_open, IsSound}
use y_modem_protocol.PartThree.Defs.{
  Reading, gave, waits, exit_failure, blocked, reading, wait_over, reading_on,
}

-- Where a call returns, it gives at least so many bytes; it may wait, but not in `read`.
abbrev pub GivesMin : {K : Type 0} → ℕ → Reading K → Type 0
GivesMin least (gave bytes s) = least ≤ length bytes
GivesMin least (waits s) = Unit {0}
GivesMin least exit_failure = ⊥
GivesMin least blocked = ⊥

not_gone : (p : Pair) → is_paired p ≡ true → is_peer_closed p ≡ false
not_gone (paired d) h = refl
not_gone closed h = refl
not_gone peer_closed h = cc

module _ {K : Type 0} (sys : Kernel K) where
  open sys use {contents, read, read_lem}

  length-read : (n : ℕ) (k : K) → length (read n k) ≡ min n (length (contents k))
  length-read n k = ap length (read_lem n k) ∙ length-take n (contents k)

  gives_now :
      (b : Bool) (n least : ℕ) (s : SocketInfo K)
      → IsSound sys s
      → is_paired s.pair ≡ true
      → 0 < least
      → least ≤ n
      → leb least s.total_written ≡ true
      → b ≡ false
      → GivesMin least (if b then gave [] s else gave (read n s.kernel) (read_now sys n s))
  gives_now true n least s i o p q h e = cc
  gives_now false n least s i o p q h e =
      ground (arith, length-read n s.kernel, counted_open sys i o)

  some_there :
      (n least : ℕ) (s : SocketInfo K)
      → IsSound sys s
      → is_paired s.pair ≡ true
      → 0 < least
      → wait_over least s ≡ true
      → (length (contents s.kernel) == 0 && is_paired s.pair) ≡ false
  unfolding wait_over
  some_there n least s i open_ p h = ground (arith, counted_open sys i open_)

  enough :
      (n least : ℕ) (s : SocketInfo K)
      → IsSound sys s
      → least ≤ n
      → wait_over least s ≡ true
      → is_paired s.pair ≡ true
      → least ≤ length (read n s.kernel)
  unfolding wait_over
  enough n least s i q h open_ = ground (arith, length-read n s.kernel, counted_open sys i open_)

  -- On a pair that is open, with right counters and without time limits, a read of at least one byte
  -- gives no fewer bytes than its minimum, whether it returns at once, in the state `s`, or behind
  -- its wait, in a state `t` in which the wait is over; and it does not wait in `read`.
  pub reading-GivesMin :
      (n least : ℕ) (others : List Call) (s t : SocketInfo K)
      → IsSound sys s
      → is_paired s.pair ≡ true
      → IsSound sys t
      → is_paired t.pair ≡ true
      → wait_over least t ≡ true
      → 0 < least
      → least ≤ n
      → GivesMin least (reading sys n least 0 0 s) × GivesMin least (reading_on sys n others t)
  unfolding reading reading_on
  reading-GivesMin n least others s t i open_s k open_t over p q = (
    rw (not_gone s.pair open_s)
        (elim (Bool-cases (s.max_total_can_read == 0 && leb least s.total_written)) [
          | inl now ↦ rw now (
              gives_now (least == 0 && s.total_written == 0) n least s i open_s p q (ground arith)
                (ground arith))
          | inr later ↦ rw later tt
        ]),
    rw (some_there n least t k open_t p over) (enough n least t k q over open_t),
  )

  nothing_there :
      (s : SocketInfo K)
      → IsSound sys s
      → is_paired s.pair ≡ true
      → s.total_written ≡ 0
      → (length (contents s.kernel) == 0) ≡ true
  nothing_there s i o none = ground (arith, counted_open sys i o)

  abbrev waiting : ℕ → ℕ → SocketInfo K → SocketInfo K
  waiting n least s = notify_drain (record s {
    max_total_can_read = (s.max_total_can_read + n) % 2 ^ 32;
    cv_read = s.cv_read ++ record { n = n; min = least } ∷ [];
  })

  -- A read with the minimum 0 that finds another one waiting on an empty pair waits at once in `read`,
  -- with the mutex: the condition of its wait holds from the start.
  pub none_wanted_blocks :
      (n : ℕ) (s : SocketInfo K)
      → IsSound sys s
      → is_paired s.pair ≡ true
      → 0 < s.max_total_can_read
      → s.total_written ≡ 0
      → (t : SocketInfo K) × (reading sys n 0 0 0 s ≡ waits t)
        × (wait_over 0 t ≡ true)
        × (reading_on sys n s.cv_read t ≡ blocked)
  unfolding reading reading_on wait_over notify_drain
  none_wanted_blocks n s i open_ busy none = (
    waiting n 0 s,
    rw (not_gone s.pair open_, ==_ne s.max_total_can_read 0 (omega arith)) refl,
    ground arith,
    rw (nothing_there s i open_ none, open_) refl,
  )
