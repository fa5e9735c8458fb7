-- ===== src/MyIo/Ends.antt =====
-- Reads of a socket pair that return nothing, although its other end is open or its bytes are there.
use y_modem_protocol.Base.{
  ℕ, ◌+◌, ◌^◌, ◌%◌, ◌<◌, ◌≡◌, refl, ap, ◌∙◌, true, false, List, [], ◌∷◌, ◌++◌, lt→ltb, take, arith,
}
use y_modem_protocol.MyIo.Defs.{
  Kernel, peer_closed, is_paired, SocketInfo, gave, waits, closing, writing, reading, waited_for,
  reading_on, notify_drain,
}
use y_modem_protocol.MyIo.Drain.{is_paired-open}
use y_modem_protocol.MyIo.Steps.{claims, IsSound}

module _ {K : Type 0} (sys : Kernel K) where
  open sys use {contents, accepted, contents-write}

  -- `myRead` does not wait for its one byte: of an open pair with nothing written and no read that
  -- waits, the call gives no bytes once its wait of length 0 is over, the result that a closed pair
  -- gives, and the counters are what they were.
  pub read_of_empty :
      (s : SocketInfo K) (n : ℕ)
      → IsSound sys s
      → is_paired s.pair ≡ true
      → s.total_written ≡ 0
      → s.cv_read ≡ []
      → n < 2 ^ 32
      → (t : SocketInfo K) × (reading sys n 1 s ≡ waits t)
        × (waited_for sys false n t ≡ [])
        × ((reading_on sys false n [] t).total_written ≡ 0)
        × ((reading_on sys false n [] t).max_total_can_read ≡ 0)
        × (is_paired (reading_on sys false n [] t).pair ≡ true)
  unfolding reading reading_on notify_drain claims
  read_of_empty s n i p none alone small = (
    notify_drain (record s {
      max_total_can_read = (s.max_total_can_read + n) % 2 ^ 32;
      cv_read = s.cv_read ++ record { n = n; min = 1 } ∷ [];
    }),
    let parked = is_paired-open s.pair p in ground arith,
    rw none refl,
    ground arith,
    ground (arith, i.claimed, ap claims alone),
    ground arith,
  )

  closing_second :
      (s other : SocketInfo K)
      → is_paired other.pair ≡ true
      → (closing sys other s).1 ≡ record s { pair = peer_closed }
  unfolding closing
  closing_second s other p = rw (is_paired-open other.pair p) refl

  writing_some :
      (s : SocketInfo K) (bytes : List ℕ)
      → 0 < accepted bytes s.kernel
      → writing sys bytes s ≡ record s {
        kernel = sys.write bytes s.kernel;
        total_written = (s.total_written + accepted bytes s.kernel) % 2 ^ 32;
      }
  unfolding writing
  writing_some s bytes h = rw (lt→ltb 0 (accepted bytes s.kernel) h) refl

  -- What was written just before the writer closes its descriptor is lost: a read of the other end that
  -- begins after that gives no bytes, although those that the system has taken are still there.
  pub closed_before_read :
      (s other : SocketInfo K) (bytes : List ℕ) (n min : ℕ)
      → is_paired other.pair ≡ true
      → contents s.kernel ≡ []
      → 0 < accepted bytes s.kernel
      → let t = (closing sys other (writing sys bytes s)).1 in
        (reading sys n min t ≡ gave [] t)
        × (contents t.kernel ≡ take (accepted bytes s.kernel) bytes)
        × (t.total_written ≡ (s.total_written + accepted bytes s.kernel) % 2 ^ 32)
  unfolding reading
  closed_before_read s other bytes n min p empty some_bytes =
      rw (closing_second (writing sys bytes s) other p, writing_some s bytes some_bytes)
        (refl, contents-write bytes s.kernel ∙ rw empty refl, refl)
