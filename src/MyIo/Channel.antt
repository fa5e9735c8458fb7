-- ===== src/MyIo/Channel.antt =====
-- One direction of a socket pair without its counters: a queue of bytes, the calls of `reading` that
-- wait, the threads that wait in `draining`, and which descriptor is closed.
use y_modem_protocol.Base.{
  ℕ, ◌+◌, ◌≡◌, ◌≢◌, Bool, true, false, ◌&&◌, ltb, leb, ◌==◌, if◌then◌else◌, List, [], ◌∷◌, ◌++◌,
  length, take, drop, inl, inr,
}
use y_modem_protocol.MyIo.Defs.{
  Kernel, Pair, closed, peer_closed, is_paired, is_peer_closed, Call, SocketInfo,
}
use y_modem_protocol.MyIo.Steps.{claims, IsSound}

pub record Channel : Type 0 where
  pub queue : List ℕ
  pub waiting : List Call
  pub pair : Pair
  pub drainers : ℕ

-- More bytes are in the queue than the waiting calls can take.
abbrev pub is_behind : Channel → Bool
is_behind c = ltb (claims c.waiting) (length c.queue)

-- A read of `min` bytes at least need not wait.
abbrev pub is_ready : ℕ → Channel → Bool
is_ready min c = claims c.waiting == 0 && leb min (length c.queue)

-- A step of a channel. A drain returns at once or waits; a read gets nothing after the writer's
-- close, takes bytes from the front, or waits, by which the threads that drain go on; a read at once
-- that leaves nothing lets them go on too; a waiting call takes bytes from the front or meets
-- ECONNRESET. The reader's close throws the queue away and lets the threads that drain go on.
pub data ChannelStep (c : Channel) (put got : List ℕ) (d : Channel) : Type 0 where
  puts :
      is_paired c.pair ≡ true
      → got ≡ []
      → d ≡ record c { queue = c.queue ++ put }
      → ChannelStep c put got d
  drains_now :
      (is_paired c.pair && is_behind c) ≡ false
      → put ≡ []
      → got ≡ []
      → d ≡ c
      → ChannelStep c put got d
  drains_later :
      (is_paired c.pair && is_behind c) ≡ true
      → put ≡ []
      → got ≡ []
      → d ≡ record c { drainers = c.drainers + 1 }
      → ChannelStep c put got d
  reads_nothing :
      is_peer_closed c.pair ≡ true → put ≡ [] → got ≡ [] → d ≡ c → ChannelStep c put got d
  reads_now :
      (n min : ℕ)
      → is_peer_closed c.pair ≡ false
      → is_ready min c ≡ true
      → put ≡ []
      → got ≡ take n c.queue
      → d ≡ record c {
        queue = drop n c.queue;
        drainers = if length (drop n c.queue) == 0 then 0 else c.drainers;
      }
      → ChannelStep c put got d
  reads_later :
      (n min : ℕ)
      → is_peer_closed c.pair ≡ false
      → is_ready min c ≡ false
      → put ≡ []
      → got ≡ []
      → d ≡ record c { waiting = c.waiting ++ record { n = n; min = min } ∷ []; drainers = 0 }
      → ChannelStep c put got d
  waited :
      (front back : List Call) (call : Call)
      → c.waiting ≡ front ++ (call ∷ back)
      → put ≡ []
      → got ≡ take call.n c.queue
      → d ≡ record c { waiting = front ++ back; queue = drop call.n c.queue }
      → ChannelStep c put got d
  was_reset :
      (front back : List Call) (call : Call)
      → c.waiting ≡ front ++ (call ∷ back)
      → c.pair ≡ peer_closed
      → put ≡ []
      → got ≡ []
      → d ≡ record c { waiting = front ++ back }
      → ChannelStep c put got d
  reader_ends :
      c.waiting ≡ []
      → is_paired c.pair ≡ true
      → put ≡ []
      → got ≡ []
      → d ≡ record c { queue = []; pair = closed; drainers = 0 }
      → ChannelStep c put got d
  writer_ends :
      c.drainers ≡ 0
      → is_paired c.pair ≡ true
      → put ≡ []
      → got ≡ []
      → d ≡ record c { pair = peer_closed }
      → ChannelStep c put got d

module _ {K : Type 0} (sys : Kernel K) where
  open sys use {
    contents, accepted, contents-write, read, read_lem, rest, contents-rest, contents-close,
  }

  -- What the object of a descriptor says of its channel.
  abbrev pub view : SocketInfo K → Channel
  view s = record {
    queue = contents s.kernel;
    waiting = s.cv_read;
    pair = s.pair;
    drainers = s.cv_drain;
  }

  -- While the reader is not closed, `totalWritten` is the number of the bytes in the buffer.
  pub counted_unless :
      {s : SocketInfo K}
      → IsSound sys s
      → s.pair ≢ closed
      → s.total_written ≡ length (contents s.kernel)
  counted_unless i still = elim i.counted [ inl shut ↦ absurd (still shut) | inr e ↦ e ]
