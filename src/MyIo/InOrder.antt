-- ===== src/MyIo/InOrder.antt =====
-- The bytes that go through one direction of a socket pair, over any run of its threads.
use y_modem_protocol.Base.{
  ℕ, ◌≡◌, ◌≢◌, refl, sym, ap, ◌∙◌, Bool, true, not, ◌&&◌, leb, ◌==◌, if◌then◌else◌, List, [], ◌++◌,
  length, append_assoc, append-nil, take, take-append-drop, Bool-cases, inl, inr, arith,
}
use y_modem_protocol.MyIo.Defs.{
  Kernel, closed, is_paired, is_peer_closed, SocketInfo, reading, reading_on,
}
use y_modem_protocol.MyIo.Steps.{
  claims, bytes_of, Step, writes, drains, reads, goes_on, reader_closes, writer_closes, IsSound,
  Runs, here, next,
}
use y_modem_protocol.MyIo.Pairs.{draining-pair, writing-pair, reading-pair}
use y_modem_protocol.MyIo.Channel.{
  Channel, ChannelStep, puts, drains_now, drains_later, reads_nothing, reads_now, reads_later,
  waited, was_reset, reader_ends, writer_ends, counted_unless,
}
use y_modem_protocol.MyIo.Shows.{Step-ChannelStep}
use y_modem_protocol.MyIo.Reads.{empty_queue, take_empty}

-- Only the reader's close throws bytes away.
ChannelStep-conserves :
    {c d : Channel} {put got : List ℕ}
    → ChannelStep c put got d
    → d.pair ≢ closed
    → c.queue ++ put ≡ got ++ d.queue
ChannelStep-conserves (puts p f g) o = rw (f, g) refl
ChannelStep-conserves {c} (drains_now b e f g) o = rw (e, f, g) (append-nil c.queue)
ChannelStep-conserves {c} (drains_later b e f g) o = rw (e, f, g) (append-nil c.queue)
ChannelStep-conserves {c} (reads_nothing b e f g) o = rw (e, f, g) (append-nil c.queue)
ChannelStep-conserves {c} (reads_now n min b r e f g) o =
    rw (e, f, g) (append-nil c.queue ∙ sym (take-append-drop n c.queue))
ChannelStep-conserves {c} (reads_later n min b r e f g) o = rw (e, f, g) (append-nil c.queue)
ChannelStep-conserves {c} (waited front back call h e f g) o =
    rw (e, f, g) (append-nil c.queue ∙ sym (take-append-drop call.n c.queue))
ChannelStep-conserves {c} (was_reset front back call h p e f g) o =
    rw (e, f, g) (append-nil c.queue)
ChannelStep-conserves (reader_ends h p e f g) o = absurd (o (ap (λ x. x.pair) g))
ChannelStep-conserves {c} (writer_ends h p e f g) o = rw (e, f, g) (append-nil c.queue)

module _ {K : Type 0} (sys : Kernel K) where
  open sys use {contents, read_lem}

  paired-open : (s : SocketInfo K) → is_paired s.pair ≡ true → s.pair ≢ closed
  paired-open s p e = cc

  reading_on-pair :
      (reset : Bool) (n : ℕ) (calls : List _) (s : SocketInfo K)
      → (reading_on sys reset n calls s).pair ≡ s.pair
  unfolding reading_on
  reading_on-pair reset n calls s = ground arith

  -- A reader that has closed does not open again.
  Step-open :
      {s t : SocketInfo K} {put got : List ℕ}
      → Step sys s put got t
      → t.pair ≢ closed
      → s.pair ≢ closed
  Step-open {s} (writes bytes p) o e = o (writing-pair sys bytes s ∙ e)
  Step-open {s} drains o e = o (draining-pair s ∙ e)
  Step-open {s} (reads n min h) o e = o (reading-pair sys n min s ∙ e)
  Step-open {s} (goes_on reset front back c q w) o e =
      o (reading_on-pair reset c.n (front ++ back) s ∙ e)
  Step-open {s} (reader_closes other q p) o e = paired-open s p e
  Step-open {s} (writer_closes other q p r) o e = paired-open s p e

  Runs-queue :
      {s t : SocketInfo K} {sent received : List ℕ}
      → IsSound sys s
      → contents s.kernel ≡ []
      → Runs sys s sent received t
      → t.pair ≢ closed
      → (sent ≡ received ++ contents t.kernel) × IsSound sys t
  Runs-queue i empty here o = (sym empty, i)
  Runs-queue {s} {t} i empty (next {t = mid} {sent} {received} {put} {got} r st e f) o =
      let still = Step-open st o in
      let (order, sound) = Runs-queue i empty r still in
      let (shown, after) = Step-ChannelStep sys st sound still in
      (
        e
            ∙ ap (λ x. x ++ put) order
            ∙ append_assoc received (contents mid.kernel) put
            ∙ ap (λ x. received ++ x) (ChannelStep-conserves shown o)
            ∙ sym (append_assoc received got (contents t.kernel))
            ∙ ap (λ x. x ++ contents t.kernel) (sym f),
        after,
      )

  module _ (s : SocketInfo K) (n min : ℕ) where
    -- What a call of `reading` gives at once, by the counters.
    abbrev given : List ℕ
    given =
        if not (is_peer_closed s.pair) && s.max_total_can_read == 0 && leb min s.total_written
        then take n (contents s.kernel)
        else []

    given_lem :
        (s.total_written ≡ 0 → [] ≡ take n (contents s.kernel))
        → bytes_of (reading sys n min s) ≡ given
    unfolding reading
    given_lem nothing = elim (Bool-cases (is_peer_closed s.pair)) [
      | inl gone ↦ rw gone refl
      | inr there ↦
          rw there (elim (Bool-cases (s.max_total_can_read == 0 && leb min s.total_written)) [
            | inl now ↦ rw now (elim (Bool-cases (min == 0 && s.total_written == 0)) [
              | inl none ↦ rw none (nothing (ground arith))
              | inr bytes ↦ rw bytes (read_lem n s.kernel)
            ])
            | inr later ↦ rw later refl
          ])
    ]

    no_bytes : length (contents s.kernel) ≡ 0 → [] ≡ take n (contents s.kernel)
    no_bytes e = take_empty n ∙ ap (take n) (sym (empty_queue (contents s.kernel) e))

  -- What a call of `reading` gives at once.
  reading-gives :
      (s : SocketInfo K) (n min : ℕ)
      → IsSound sys s
      → s.pair ≢ closed
      → bytes_of (reading sys n min s) ≡ (
          if not (is_peer_closed s.pair)
            && claims s.cv_read == 0
            && leb min (length (contents s.kernel))
          then take n (contents s.kernel)
          else [])
  reading-gives s n min i o =
      given_lem s n min (λ none. no_bytes s n min (sym counts ∙ none))
      ∙ rw (sym counts, sym i.claimed) refl
    where
      counts : s.total_written ≡ length (contents s.kernel)
      counts = counted_unless sys i o

  -- In every run of threads on one direction of a socket pair that starts with the right counters
  -- and an empty buffer, up to any state in which the reader has not closed its descriptor, the
  -- bytes that were sent are those that the readers got, followed by those that are unread, in
  -- order: none is lost, doubled or overtaken, as long as the reader does not close. `totalWritten`
  -- is the number of those unread, and the next call of `reading` gives the first of them at once,
  -- up to the number that it asks for, unless the writer has closed, other calls wait for bytes or
  -- there are fewer than its minimum; then it gives none at once.
  pub Runs-in_order :
      {s t : SocketInfo K} {sent received : List ℕ}
      → IsSound sys s
      → contents s.kernel ≡ []
      → Runs sys s sent received t
      → t.pair ≢ closed
      → (n min : ℕ)
      → (unread : List ℕ) × (sent ≡ received ++ unread)
        × (t.total_written ≡ length unread)
        × (bytes_of (reading sys n min t) ≡ (
            if not (is_peer_closed t.pair) && claims t.cv_read == 0 && leb min (length unread)
            then take n unread
            else []))
  Runs-in_order {s} {t} i empty r o n min =
      let (order, sound) = Runs-queue i empty r o in
      (contents t.kernel, order, counted_unless sys sound o, reading-gives t n min sound o)
