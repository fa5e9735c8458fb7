-- ===== src/PartThree/Defs.antt =====
-- `reading` of Ensc351Part3-soln/src/myIO.cpp, without CIRCBUF. The rest of `socketInfoClass` has
-- the text of the library's.
use y_modem_protocol.Base.{
  ℕ, ◌+◌, ◌%◌, ◌^◌, Bool, not, ◌&&◌, ◌||◌, leb, ◌==◌, if◌then◌else◌, List, [], ◌∷◌, ◌++◌, length,
}
use y_modem_protocol.MyIo.Defs.{
  Kernel, is_paired, is_peer_closed, Call, SocketInfo, sub32, notify_drain, read_now,
}

-- How a call goes on: it returns bytes; it waits at `cvRead`; it ends the process; or it waits in
-- `read`, where it keeps the mutex, so that no other call on the descriptor goes on.
pub data Reading (K : Type 0) : Type 0 where
  gave : List ℕ → SocketInfo K → Reading K
  waits : SocketInfo K → Reading K
  exit_failure blocked : Reading K

module _ {K : Type 0} where
  -- The condition of `cvRead.wait`.
  unfoldable pub wait_over : ℕ → SocketInfo K → Bool
  wait_over min s = leb min s.total_written || not (is_paired s.pair)

module _ {K : Type 0} (sys : Kernel K) where
  open sys use {contents, read, rest}

  -- `reading`, until it returns, waits, or ends the process.
  unfoldable pub reading : ℕ → ℕ → ℕ → ℕ → SocketInfo K → Reading K
  unfolding read_now notify_drain
  reading n min time timeout s =
      if is_peer_closed s.pair
      then gave [] s
      else if s.max_total_can_read == 0 && leb min s.total_written
      then (if min == 0 && s.total_written == 0
          then gave [] s
          else gave (read n s.kernel) (read_now sys n s))
      else if not (time == 0) || not (timeout == 0)
      then exit_failure
      else waits (
          notify_drain (record s {
            max_total_can_read = (s.max_total_can_read + n) % 2 ^ 32;
            cv_read = s.cv_read ++ record { n = n; min = min } ∷ [];
          }))

  -- The rest of `reading` when the wait is over; `others` are the calls that still wait. A `read` waits
  -- while nothing is there and the other descriptor is not closed.
  unfoldable pub reading_on : ℕ → List Call → SocketInfo K → Reading K
  reading_on n others s =
      let bytes = read n s.kernel in
      if length (contents s.kernel) == 0 && is_paired s.pair
      then blocked
      else gave bytes (record s {
        kernel = rest n s.kernel;
        total_written = sub32 s.total_written (length bytes);
        max_total_can_read = sub32 s.max_total_can_read n;
        cv_read = others;
      })
