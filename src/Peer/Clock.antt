-- ===== src/Peer/Clock.antt =====
-- The clock of a peer, and what the constructor sets (PeerY.h, PeerY.cpp).
use y_modem_protocol.Base.{ℕ, ◌+◌, ◌*◌, ◌-◌, ◌≤◌, ◌<◌, false, [], arith}
use y_modem_protocol.Base.Int.{pos}
use y_modem_protocol.Peer.Defs.{Peer, minus_one}
use y_modem_protocol.Peer.Transfer.{million}

-- A `timeval`: seconds and microseconds.
pub record Timeval : Type 0 where
  pub sec : ℕ
  pub usec : ℕ

-- The members that are given no value by the caller; `sec_start` stands apart, as the result of
-- `gettimeofday` at the construction.
abbrev pub new_peer : Peer
new_peer = record {
  result = [];
  err_cnt = 0;
  transferring_file = minus_one;
  kb_can = false;
  absolute_timeout = pos 0;
  hold_timeout = pos 0;
  log = [];
}

abbrev pub sec_start : Timeval → ℕ
sec_start constructed = constructed.sec

-- `elapsed_usecs()`, for a clock that does not go back behind `sec_start`.
unfoldable pub elapsed_usecs : ℕ → Timeval → ℕ
elapsed_usecs start now = (now.sec - start) * million + now.usec

-- The microseconds of a time.
abbrev pub usecs : Timeval → ℕ
usecs t = t.sec * million + t.usec

-- For a clock that does not go back, `elapsed_usecs` is right within one second: it gives no less than
-- the time since the peer was constructed, and less than a second more. Of two calls the later one
-- gives no smaller result.
pub elapsed_usecs_bounds :
    (constructed now later : Timeval)
    → constructed.usec < million
    → usecs constructed ≤ usecs now
    → constructed.sec ≤ now.sec
    → now.usec < million
    → later.usec < million
    → usecs now ≤ usecs later
    → (usecs now - usecs constructed ≤ elapsed_usecs (sec_start constructed) now)
      × (elapsed_usecs (sec_start constructed) now < usecs now - usecs constructed + million)
      × (elapsed_usecs (sec_start constructed) now ≤ elapsed_usecs (sec_start constructed) later)
unfolding elapsed_usecs
elapsed_usecs_bounds c n l a b e d f g = (omega arith, omega arith, omega arith)
