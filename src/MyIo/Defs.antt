-- ===== src/MyIo/Defs.antt =====
-- The class `socketInfoClass` of Ensc351ymodLib/myIO.cpp, without CIRCBUF: what one descriptor of a
-- socket pair knows of the bytes on their way to it. The system's buffer is behind an interface.
use y_modem_protocol.Base.{
  ℕ, ◌+◌, ◌-◌, ◌%◌, ◌^◌, ◌≤◌, ◌<◌, ◌≡◌, Bool, true, false, not, ◌&&◌, ltb, leb, ◌==◌, if◌then◌else◌,
  List, [], ◌∷◌, ◌++◌, length, take, drop,
}

-- One direction of a socket pair in the system. `accepted` is the result of `write`, which may be
-- less than the number of bytes given; a `read` takes what is there, up to the number asked for; a
-- `close` of the reading descriptor throws away what is there. No call fails, but for a `read` with
-- ECONNRESET.
pub record Kernel (K : Type 0) : Type 0 where
  pub contents : K → List ℕ
  pub accepted : List ℕ → K → ℕ
  pub write : List ℕ → K → K
  pub read : ℕ → K → List ℕ
  pub rest : ℕ → K → K
  pub close : K → K
  pub contents-write :
      (bytes : List ℕ) (k : K)
      → contents (write bytes k) ≡ contents k ++ take (accepted bytes k) bytes
  pub accepted-le : (bytes : List ℕ) (k : K) → accepted bytes k ≤ length bytes
  pub read_lem : (n : ℕ) (k : K) → read n k ≡ take n (contents k)
  pub contents-rest : (n : ℕ) (k : K) → contents (rest n k) ≡ drop n (contents k)
  pub contents-close : (k : K) → contents (close k) ≡ []
  pub contents-lt : (k : K) → length (contents k) < 2 ^ 32

-- `int pair`: a descriptor, -1 or -2.
pub data Pair : Type 0 where
  paired : ℕ → Pair
  closed peer_closed : Pair

-- `pair >= 0`
abbrev pub is_paired : Pair → Bool
is_paired (paired d) = true
is_paired _ = false

-- `-2 == pair`
abbrev pub is_peer_closed : Pair → Bool
is_peer_closed peer_closed = true
is_peer_closed _ = false

-- A call of `reading` that waits for bytes.
pub record Call : Type 0 where
  pub n : ℕ
  pub min : ℕ

-- `cv_drain` is the number of the threads that wait at `cvDrain`, `cv_read` has those at `cvRead`.
pub record SocketInfo (K : Type 0) : Type 0 where
  pub total_written : ℕ
  pub max_total_can_read : ℕ
  pub pair : Pair
  pub cv_drain : ℕ
  pub cv_read : List Call
  pub kernel : K

-- A difference of two `unsigned`.
abbrev pub sub32 : ℕ → ℕ → ℕ
sub32 a b = (a + 2 ^ 32 - b) % 2 ^ 32

-- How a call of `reading` goes on: it returns bytes, or waits.
pub data Reading (K : Type 0) : Type 0 where
  gave : List ℕ → SocketInfo K → Reading K
  waits : SocketInfo K → Reading K

-- How a call of `draining` goes on: it returns, or waits.
pub data Draining (K : Type 0) : Type 0 where
  returned waits_drain : SocketInfo K → Draining K

module _ {K : Type 0} where
  -- The constructor.
  abbrev pub new_info : ℕ → K → SocketInfo K
  new_info pair_init k = record {
    total_written = 0;
    max_total_can_read = 0;
    pair = paired pair_init;
    cv_drain = 0;
    cv_read = [];
    kernel = k;
  }

  -- `cvDrain.notify_all()`: whoever waits there goes on, and returns without another test.
  unfoldable pub notify_drain : SocketInfo K → SocketInfo K
  notify_drain s = record s { cv_drain = 0 }

  unfoldable pub draining : SocketInfo K → Draining K
  draining s =
      if is_paired s.pair && ltb s.max_total_can_read s.total_written
      then waits_drain (record s { cv_drain = s.cv_drain + 1 })
      else returned s

module _ {K : Type 0} (sys : Kernel K) where
  open sys use {accepted, write, read, rest, close}

  -- `closing`, on the object of the descriptor and on that of the paired one. What was written to the
  -- descriptor and not read is thrown away; what was written by it stays for the paired one.
  unfoldable pub closing : SocketInfo K → SocketInfo K → SocketInfo K × SocketInfo K
  unfolding notify_drain
  closing s other =
      let own = record s { pair = closed; kernel = close s.kernel } in
      if is_peer_closed s.pair then (record s { kernel = close s.kernel }, other) else (
        if ltb s.max_total_can_read s.total_written then notify_drain own else own,
        record other { pair = peer_closed },
      )

  -- A `notify_one` of `cvRead` changes no state: the wait for a read is timed, so that a call that
  -- waits may go on at any time.
  unfoldable pub writing : List ℕ → SocketInfo K → SocketInfo K
  writing bytes s =
      let written = accepted bytes s.kernel in
      let sent = record s { kernel = write bytes s.kernel } in
      if ltb 0 written
      then record sent { total_written = (s.total_written + written) % 2 ^ 32 }
      else sent

  -- A read at once, of `n` bytes at most.
  unfoldable pub read_now : ℕ → SocketInfo K → SocketInfo K
  unfolding notify_drain
  read_now n s =
      let bytes_read = length (read n s.kernel) in
      let taken = record s {
        kernel = rest n s.kernel;
        total_written = sub32 s.total_written bytes_read;
      } in
      if ltb 0 bytes_read && leb taken.total_written s.max_total_can_read
      then notify_drain taken
      else taken

  -- `reading`, until it returns or waits at `cvRead`.
  unfoldable pub reading : ℕ → ℕ → SocketInfo K → Reading K
  unfolding read_now notify_drain
  reading n min s =
      if is_peer_closed s.pair
      then gave [] s
      else if s.max_total_can_read == 0 && leb min s.total_written
      then (if min == 0 && s.total_written == 0
          then gave [] s
          else gave (read n s.kernel) (read_now n s))
      else waits (
          notify_drain (record s {
            max_total_can_read = (s.max_total_can_read + n) % 2 ^ 32;
            cv_read = s.cv_read ++ record { n = n; min = min } ∷ [];
          }))

  -- What a call takes when its wait at `cvRead` is over; `reset` is ECONNRESET.
  abbrev pub waited_for : Bool → ℕ → SocketInfo K → List ℕ
  waited_for reset n s = if ltb 0 s.total_written && not reset then read n s.kernel else []

  -- The rest of `reading` then; `others` are the calls that still wait.
  unfoldable pub reading_on : Bool → ℕ → List Call → SocketInfo K → SocketInfo K
  reading_on reset n others s =
      let left = record s { max_total_can_read = sub32 s.max_total_can_read n; cv_read = others } in
      if ltb 0 s.total_written && not reset
      then record left {
        kernel = rest n s.kernel;
        total_written = sub32 s.total_written (length (read n s.kernel));
      }
      else left
