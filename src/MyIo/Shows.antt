-- ===== src/MyIo/Shows.antt =====
-- A step of the threads on one direction of a socket pair is a step of a channel without counters.
use y_modem_protocol.Base.{
  ℕ, ◌≡◌, ◌≢◌, refl, ap, ◌∙◌, true, ◌&&◌, ltb, List, [], take, Bool-cases, inl, inr, arith,
}
use y_modem_protocol.MyIo.Defs.{
  Kernel, closed, peer_closed, is_paired, SocketInfo, notify_drain, draining, closing, writing,
}
use y_modem_protocol.MyIo.Steps.{
  drained, Step, writes, drains, reads, goes_on, reader_closes, writer_closes, IsSound,
}
use y_modem_protocol.MyIo.Sound.{Step-IsSound}
use y_modem_protocol.MyIo.Channel.{
  is_behind, ChannelStep, puts, drains_now, drains_later, reader_ends, writer_ends, view,
}
use y_modem_protocol.MyIo.Reads.{ShowsStep, counts, reading-Shows, reading_on-Shows}

module _ {K : Type 0} (sys : Kernel K) where
  open sys use {
    contents, accepted, contents-write, read, read_lem, rest, contents-rest, contents-close,
  }

  module _ (s : SocketInfo K) (i : IsSound sys s) (still : s.pair ≢ closed) where
    -- A buffer that holds other bytes, as the channel sees it.
    with_queue :
        {a b : List ℕ}
        → a ≡ b
        → record (view sys s) { queue = a } ≡ record (view sys s) { queue = b }
    with_queue e = ap (λ q. record (view sys s) { queue = q }) e

    writing-Shows :
        (bytes : List ℕ)
        → is_paired s.pair ≡ true
        → ShowsStep sys s i still (take (accepted bytes s.kernel) bytes) [] (writing sys bytes s)
    unfolding writing
    writing-Shows bytes p = elim (Bool-cases (ltb 0 (accepted bytes s.kernel))) [
      | inl some_bytes ↦ rw some_bytes (puts p refl (with_queue (contents-write bytes s.kernel)))
      | inr nothing ↦ rw nothing (puts p refl (with_queue (contents-write bytes s.kernel)))
    ]

    is_behind_lem : is_behind (view sys s) ≡ ltb s.max_total_can_read s.total_written
    is_behind_lem = rw (counts sys s i still, i.claimed) refl

    draining-Shows : ShowsStep sys s i still [] [] (drained (draining s))
    unfolding draining
    draining-Shows =
        elim (Bool-cases (is_paired s.pair && ltb s.max_total_can_read s.total_written)) [
          | inl b ↦
              rw b (drains_later (ap (λ x. is_paired s.pair && x) is_behind_lem ∙ b) refl refl refl)
          | inr b ↦
              rw b (drains_now (ap (λ x. is_paired s.pair && x) is_behind_lem ∙ b) refl refl refl)
        ]

    view-closing :
        (other : SocketInfo K)
        → is_paired s.pair ≡ true
        → view sys (closing sys s other).0 ≡ record (view sys s) {
          queue = contents (sys.close s.kernel);
          pair = closed;
          drainers = 0;
        }
    unfolding closing notify_drain
    view-closing other p = ground (arith, i.wakes)

    closing-Shows :
        (other : SocketInfo K)
        → s.cv_read ≡ []
        → is_paired s.pair ≡ true
        → ShowsStep sys s i still [] [] (closing sys s other).0
    closing-Shows other none p = reader_ends none p refl refl (
        view-closing other p
        ∙ ap (λ q. record (view sys s) { queue = q; pair = closed; drainers = 0 })
            (contents-close s.kernel))

    peer_closing-view :
        (other : SocketInfo K)
        → is_paired other.pair ≡ true
        → view sys (closing sys other s).1 ≡ record (view sys s) { pair = peer_closed }
    unfolding closing
    peer_closing-view other p = ground arith

  -- While the reader of a socket pair has not closed its descriptor, every step of a reader, a
  -- writer, a thread that drains or one that closes, with the right counters, is a step of a queue
  -- of bytes that has no counters, and leaves the right counters: what a write sends goes to the
  -- end; a read that need not wait, or one whose wait is over, takes what it gives from the front; a
  -- drain waits just when neither descriptor is closed and more is in the queue than the waiting
  -- reads can take; and the threads that drain go on when a read that need not wait leaves nothing,
  -- when a read begins to wait, and when the reader closes, which throws the queue away.
  pub Step-ChannelStep :
      {s t : SocketInfo K} {put got : List ℕ}
      → Step sys s put got t
      → IsSound sys s
      → s.pair ≢ closed
      → ChannelStep (view sys s) put got (view sys t) × IsSound sys t
  Step-ChannelStep {s} {t} {put} {got} st i still = (shows st, Step-IsSound sys st i)
    where
      shows :
          {t : SocketInfo K} {put got : List ℕ}
          → Step sys s put got t
          → ChannelStep (view sys s) put got (view sys t)
      shows (writes bytes p) = writing-Shows s i still bytes p
      shows drains = draining-Shows s i still
      shows (reads n min h) = reading-Shows sys s i still n min
      shows (goes_on reset front back c e w) = reading_on-Shows sys s i still reset front back c e w
      shows (reader_closes other e p) = closing-Shows s i still other e p
      shows (writer_closes other e p q) =
          writer_ends e p refl refl (peer_closing-view s i still other q)
