-- ===== src/MyIo/Drain.antt =====
-- When a thread that waits in `myTcdrain` goes on.
use y_modem_protocol.Base.{
  ℕ, ◌+◌, ◌^◌, ◌%◌, ◌≤◌, ◌<◌, ◌≡◌, refl, ap, ◌⊎◌, inl, inr, Bool, true, false, ◌&&◌, leb, ◌==◌,
  if◌then◌else◌, List, [], ◌∷◌, ◌++◌, Bool-cases, arith,
}
use y_modem_protocol.MyIo.Defs.{
  Kernel, Pair, peer_closed, is_paired, is_peer_closed, Call, SocketInfo, gave, waits, notify_drain,
  draining, closing, writing, read_now, reading, reading_on,
}
use y_modem_protocol.MyIo.Steps.{
  claims, info_of, drained, Step, writes, drains, reads, goes_on, reader_closes, writer_closes,
  IsSound, counted_open,
}

module _ {K : Type 0} where
  -- The data are drained: they fit the reads that wait, or a descriptor is closed.
  abbrev pub IsDrained : SocketInfo K → Type 0
  IsDrained s = (s.total_written ≤ s.max_total_can_read) ⊎ (is_paired s.pair ≡ false)

  -- A step wakes the threads that wait in `myTcdrain`.
  abbrev pub WakesDrain : SocketInfo K → SocketInfo K → Type 0
  WakesDrain s t = (0 < s.cv_drain) × (t.cv_drain ≡ 0)

pub is_paired-open : (p : Pair) → is_paired p ≡ true → is_peer_closed p ≡ false
is_paired-open (Pair.paired d) e = refl
is_paired-open Pair.closed e = refl
is_paired-open peer_closed e = cc

module _ {K : Type 0} (sys : Kernel K) where
  -- No second read begins while one waits, and no read wants more than it has room for.
  abbrev pub OneReader : {s t : SocketInfo K} {put got : List ℕ} → Step sys s put got t → Type 0
  OneReader {s} (reads n min h) = (s.cv_read ≡ []) × (min ≤ n)
  OneReader _ = Unit {0}

  module _ (s : SocketInfo K) (i : IsSound sys s) where
    open i use {counted, claimed, fits, wakes}

    writing-IsDrained :
        (bytes : List ℕ) → WakesDrain s (writing sys bytes s) → IsDrained (writing sys bytes s)
    unfolding writing
    writing-IsDrained bytes w = ground arith

    draining-IsDrained : WakesDrain s (drained (draining s)) → IsDrained (drained (draining s))
    unfolding draining
    draining-IsDrained w = ground arith

    read_now-IsDrained : (n : ℕ) → WakesDrain s (read_now sys n s) → IsDrained (read_now sys n s)
    unfolding read_now
    read_now-IsDrained n w = ground arith

    abbrev Drains : SocketInfo K → Type 0
    Drains t = WakesDrain s t → IsDrained t

    at_once :
        (b : Bool) (n : ℕ) (bytes : List ℕ)
        → Drains (info_of (if b then gave [] s else gave bytes (read_now sys n s)))
    at_once true n bytes w = absurd (omega arith)
    at_once false n bytes w = read_now-IsDrained n w

    waiting-IsDrained :
        (n min : ℕ) (calls : List Call)
        → claims s.cv_read + n < 2 ^ 32
        → s.cv_read ≡ []
        → min ≤ n
        → (s.max_total_can_read == 0 && leb min s.total_written) ≡ false
        → Drains (
            notify_drain (record s {
              max_total_can_read = (s.max_total_can_read + n) % 2 ^ 32;
              cv_read = calls;
            }))
    unfolding notify_drain claims
    waiting-IsDrained n min calls h e m later w = ground (arith, ap claims e)

    reading-IsDrained :
        (n min : ℕ)
        → claims s.cv_read + n < 2 ^ 32
        → s.cv_read ≡ []
        → min ≤ n
        → Drains (info_of (reading sys n min s))
    unfolding reading
    reading-IsDrained n min h e m = elim (Bool-cases (is_peer_closed s.pair)) [
      | inl gone ↦ rw gone (λ w. absurd (omega arith))
      | inr there ↦
          rw there (elim (Bool-cases (s.max_total_can_read == 0 && leb min s.total_written)) [
            | inl now ↦ rw now (at_once (min == 0 && s.total_written == 0) n (sys.read n s.kernel))
            | inr later ↦ rw later (
                waiting-IsDrained n min (s.cv_read ++ record { n = n; min = min } ∷ []) h e m later)
          ])
    ]

    reading_on-IsDrained :
        (reset : Bool) (n : ℕ) (others : List Call)
        → WakesDrain s (reading_on sys reset n others s)
        → IsDrained (reading_on sys reset n others s)
    unfolding reading_on
    reading_on-IsDrained reset n others w = ground arith

    closing-IsDrained :
        (other : SocketInfo K)
        → WakesDrain s (closing sys s other).0
        → IsDrained (closing sys s other).0
    unfolding closing
    closing-IsDrained other w = ground arith

    peer_closing-IsDrained :
        (other : SocketInfo K) → s.cv_drain ≡ 0 → Drains (closing sys other s).1
    unfolding closing
    peer_closing-IsDrained other none w = absurd (omega arith)

  -- Draining is exact while a descriptor has one reader at a time, which has room for the bytes that it
  -- waits for: a step that wakes the threads waiting in `myTcdrain` leaves no more bytes than the
  -- reads that wait can take, or a descriptor is closed.
  pub OneReader-IsDrained :
      {s t : SocketInfo K} {put got : List ℕ} (st : Step sys s put got t)
      → IsSound sys s
      → OneReader st
      → 0 < s.cv_drain
      → t.cv_drain ≡ 0
      → IsDrained t
  OneReader-IsDrained {s} (writes bytes p) i o w z = writing-IsDrained s i bytes (w, z)
  OneReader-IsDrained {s} drains i o w z = draining-IsDrained s i (w, z)
  OneReader-IsDrained {s} (reads n min h) i o w z = reading-IsDrained s i n min h o.0 o.1 (w, z)
  OneReader-IsDrained {s} (goes_on reset front back c e f) i o w z =
      reading_on-IsDrained s i reset c.n (front ++ back) (w, z)
  OneReader-IsDrained {s} (reader_closes other e p) i o w z = closing-IsDrained s i other (w, z)
  OneReader-IsDrained {s} (writer_closes other e p q) i o w z =
      peer_closing-IsDrained s i other e (w, z)

  -- With a second reader it is not: while a read waits and the bytes that were written for it are more
  -- than it can take, another read that begins to wait wakes every thread in `myTcdrain`, although
  -- there are still more bytes than the two reads can take and no descriptor is closed.
  pub second_reader_wakes :
      (s : SocketInfo K) (n min : ℕ)
      → IsSound sys s
      → is_paired s.pair ≡ true
      → 0 < s.cv_drain
      → 0 < claims s.cv_read
      → claims s.cv_read + n < s.total_written
      → (t : SocketInfo K) × (reading sys n min s ≡ waits t)
        × (t.cv_drain ≡ 0)
        × (is_paired t.pair ≡ true)
        × (t.max_total_can_read < t.total_written)
        × (t.total_written ≡ s.total_written)
  unfolding reading notify_drain
  second_reader_wakes s n min i p d c more = (
    notify_drain (record s {
      max_total_can_read = (s.max_total_can_read + n) % 2 ^ 32;
      cv_read = s.cv_read ++ record { n = n; min = min } ∷ [];
    }),
    let parked = is_paired-open s.pair p in ground (arith, i.claimed),
    refl,
    p,
    omega (arith, i.claimed, counted_open sys i p, sys.contents-lt s.kernel),
    refl,
  )
