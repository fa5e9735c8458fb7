-- ===== src/MyIo/Steps.antt =====
-- Threads that read, write, drain and close one direction of a socket pair, in any order. A step is
-- what one of them does while it holds `socketInfoMutex`.
use y_modem_protocol.Base.{
  ℕ, ◌+◌, ◌^◌, ◌<◌, ◌≡◌, ◌⊎◌, inl, inr, Bool, true, false, List, [], ◌∷◌, ◌++◌, length, take,
}
use y_modem_protocol.MyIo.Defs.{
  Kernel, Pair, closed, peer_closed, is_paired, Call, SocketInfo, Reading, gave, waits, Draining,
  returned, waits_drain, draining, closing, writing, reading, waited_for, reading_on,
}

-- The bytes that waiting calls can take.
unfoldable pub claims : List Call → ℕ
claims [] = 0
claims (c ∷ calls) = c.n + claims calls

module _ {K : Type 0} where
  abbrev pub info_of : Reading K → SocketInfo K
  info_of (gave bytes s) = s
  info_of (waits s) = s

  abbrev pub bytes_of : Reading K → List ℕ
  bytes_of (gave bytes s) = bytes
  bytes_of (waits s) = []

  abbrev pub drained : Draining K → SocketInfo K
  drained (returned s) = s
  drained (waits_drain s) = s

module _ {K : Type 0} (sys : Kernel K) where
  open sys use {
    contents, accepted, accepted-le, write, contents-write, read, read_lem, rest, contents-rest,
    contents-lt,
  }

  -- One step, with the bytes that it sends and those that it gives to the reader. A write is made
  -- while the reader is not closed. Only after the writer is closed a read may meet ECONNRESET. A
  -- descriptor is closed after all other calls with it have returned. Behind the second close nobody
  -- has the object any more, so that only the first close is a step: both descriptors are a pair
  -- until then.
  pub data Step (s : SocketInfo K) : List ℕ → List ℕ → SocketInfo K → Type 0 where
    writes :
        (bytes : List ℕ)
        → is_paired s.pair ≡ true
        → Step s (take (accepted bytes s.kernel) bytes) [] (writing sys bytes s)
    drains : Step s [] [] (drained (draining s))
    reads :
        (n min : ℕ)
        → claims s.cv_read + n < 2 ^ 32
        → Step s [] (bytes_of (reading sys n min s)) (info_of (reading sys n min s))
    goes_on :
        (reset : Bool) (front back : List Call) (c : Call)
        → s.cv_read ≡ front ++ (c ∷ back)
        → (reset ≡ false) ⊎ (s.pair ≡ peer_closed)
        → Step s [] (waited_for sys reset c.n s) (reading_on sys reset c.n (front ++ back) s)
    reader_closes :
        (other : SocketInfo K)
        → s.cv_read ≡ []
        → is_paired s.pair ≡ true
        → Step s [] [] (closing sys s other).0
    writer_closes :
        (other : SocketInfo K)
        → s.cv_drain ≡ 0
        → is_paired s.pair ≡ true
        → is_paired other.pair ≡ true
        → Step s [] [] (closing sys other s).1

  -- The counters are right: `totalWritten` is what is in the system's buffer, unless the reader has
  -- closed its descriptor, by which the buffer is thrown away; `maxTotalCanRead` is
  -- what the waiting calls can take; and a thread waits in `draining` only while there are more bytes
  -- than that and neither descriptor is closed.
  pub record IsSound (s : SocketInfo K) : Type 0 where
    pub counted : (s.pair ≡ closed) ⊎ (s.total_written ≡ length (contents s.kernel))
    pub claimed : s.max_total_can_read ≡ claims s.cv_read
    pub fits : claims s.cv_read < 2 ^ 32
    pub wakes :
        (s.cv_drain ≡ 0) ⊎ ((is_paired s.pair ≡ true) × (s.max_total_can_read < s.total_written))

  -- The bytes of a pair whose reader has not closed.
  pub counted_open :
      {s : SocketInfo K}
      → IsSound s
      → is_paired s.pair ≡ true
      → s.total_written ≡ length (contents s.kernel)
  counted_open {s} i p = elim i.counted [ inl shut ↦ absurd (not_shut s.pair shut p) | inr e ↦ e ]
    where
      not_shut : (p : Pair) → p ≡ closed → is_paired p ≡ true → ⊥
      not_shut p e h = cc

  -- Steps in a row, with all the bytes that they send and give to readers.
  pub data Runs (s : SocketInfo K) : List ℕ → List ℕ → SocketInfo K → Type 0 where
    here : Runs s [] [] s
    next :
        {t u : SocketInfo K} {sent received put got sent' received' : List ℕ}
        → Runs s sent received t
        → Step t put got u
        → sent' ≡ sent ++ put
        → received' ≡ received ++ got
        → Runs s sent' received' u
