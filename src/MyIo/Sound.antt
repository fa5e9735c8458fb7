-- ===== src/MyIo/Sound.antt =====
-- The counters and the waiting threads of a socket pair, under every step.
use y_modem_protocol.Base.{
  ℕ, ◌+◌, ◌-◌, ◌^◌, ◌%◌, ◌<◌, ◌≡◌, ap, ◌∙◌, ◌⊎◌, inl, inr, Bool, true, false, ◌&&◌, leb, ◌==◌, List,
  [], ◌∷◌, ◌++◌, length, take, min, length-append, length-take, length-drop, arith, if◌then◌else◌,
  Bool-cases,
}
use y_modem_protocol.MyIo.Defs.{
  Kernel, peer_closed, is_paired, is_peer_closed, Call, SocketInfo, gave, notify_drain, draining,
  closing, writing, read_now, reading, reading_on,
}
use y_modem_protocol.MyIo.Steps.{
  claims, info_of, drained, Step, writes, drains, reads, goes_on, reader_closes, writer_closes,
  IsSound,
}

claims-append : (xs ys : List Call) → claims (xs ++ ys) ≡ claims xs + claims ys
unfolding claims
claims-append [] ys = omega arith
claims-append (c ∷ xs) ys = omega (arith, claims-append xs ys)

claims-add : (xs : List Call) (c : Call) → claims (xs ++ c ∷ []) ≡ claims xs + c.n
unfolding claims
claims-add xs c = claims-append xs (c ∷ []) ∙ omega arith

claims-remove :
    (front back : List Call) (c : Call)
    → claims (front ++ (c ∷ back)) ≡ c.n + claims (front ++ back)
unfolding claims
claims-remove front back c = omega (arith, claims-append front (c ∷ back), claims-append front back)

module _ {K : Type 0} (sys : Kernel K) where
  open sys use {
    contents, accepted, accepted-le, write, contents-write, read, read_lem, rest, contents-rest,
    contents-lt,
  }

  pub length-read : (n : ℕ) (k : K) → length (read n k) ≡ min n (length (contents k))
  length-read n k = ap length (read_lem n k) ∙ length-take n (contents k)

  pub length-rest : (n : ℕ) (k : K) → length (contents (rest n k)) ≡ length (contents k) - n
  length-rest n k = ap length (contents-rest n k) ∙ length-drop n (contents k)

  length-write :
      (bytes : List ℕ) (k : K)
      → length (contents (write bytes k)) ≡ length (contents k) + accepted bytes k
  length-write bytes k =
      ap length (contents-write bytes k)
      ∙ length-append (contents k) (take (accepted bytes k) bytes)
      ∙ omega (arith, length-take (accepted bytes k) bytes, accepted-le bytes k)

  module _ (s : SocketInfo K) (i : IsSound sys s) where
    open i use {counted, claimed, fits, wakes}

    writing-IsSound : (bytes : List ℕ) → is_paired s.pair ≡ true → IsSound sys (writing sys bytes s)
    unfolding writing
    writing-IsSound bytes p =
        ground (arith, length-write bytes s.kernel, contents-lt (write bytes s.kernel))

    draining-IsSound : IsSound sys (drained (draining s))
    unfolding draining
    draining-IsSound = ground arith

    read_now-IsSound : (n : ℕ) → s.max_total_can_read ≡ 0 → IsSound sys (read_now sys n s)
    unfolding read_now
    read_now-IsSound n none =
        ground (arith, length-read n s.kernel, length-rest n s.kernel, contents-lt s.kernel)

    waiting-IsSound :
        (n min : ℕ)
        → claims s.cv_read + n < 2 ^ 32
        → IsSound sys (
            notify_drain (record s {
              max_total_can_read = (s.max_total_can_read + n) % 2 ^ 32;
              cv_read = s.cv_read ++ record { n = n; min = min } ∷ [];
            }))
    unfolding notify_drain
    waiting-IsSound n min h = ground (arith, claims-add s.cv_read (record { n = n; min = min }))

    reading_on-IsSound :
        (reset : Bool) (front back : List Call) (c : Call)
        → s.cv_read ≡ front ++ (c ∷ back)
        → (reset ≡ false) ⊎ (s.pair ≡ peer_closed)
        → IsSound sys (reading_on sys reset c.n (front ++ back) s)
    unfolding reading_on
    reading_on-IsSound reset front back c e w = ground (
      arith,
      ap claims e,
      claims-remove front back c,
      length-read c.n s.kernel,
      length-rest c.n s.kernel,
      contents-lt s.kernel,
    )

    closing-IsSound :
        (other : SocketInfo K) → is_paired s.pair ≡ true → IsSound sys (closing sys s other).0
    unfolding closing
    closing-IsSound other p = ground arith

    peer_closing-IsSound :
        (other : SocketInfo K)
        → s.cv_drain ≡ 0
        → is_paired s.pair ≡ true
        → IsSound sys (closing sys other s).1
    unfolding closing
    peer_closing-IsSound other none p = ground arith

    at_once :
        (b : Bool) (n : ℕ)
        → s.max_total_can_read ≡ 0
        → IsSound sys (info_of (if b then gave [] s else gave (read n s.kernel) (read_now sys n s)))
    at_once true n none = i
    at_once false n none = read_now-IsSound n none

    reading-IsSound :
        (n min : ℕ) → claims s.cv_read + n < 2 ^ 32 → IsSound sys (info_of (reading sys n min s))
    unfolding reading
    reading-IsSound n min h = elim (Bool-cases (is_peer_closed s.pair)) [
      | inl gone ↦ rw gone i
      | inr there ↦
          rw there (elim (Bool-cases (s.max_total_can_read == 0 && leb min s.total_written)) [
            | inl now ↦ rw now (at_once (min == 0 && s.total_written == 0) n (ground arith))
            | inr later ↦ rw later (waiting-IsSound n min h)
          ])
    ]

  -- Every step of a reader, a writer, a thread that drains or one that closes keeps the counters of
  -- a socket pair right, up to the close by the reader, which throws the bytes away, and never
  -- leaves a thread waiting in `myTcdrain` when the bytes that are left fit the reads that wait, or
  -- when a descriptor is closed: no wake-up is lost.
  pub Step-IsSound :
      {s t : SocketInfo K} {put got : List ℕ} → Step sys s put got t → IsSound sys s → IsSound sys t
  Step-IsSound {s} (writes bytes p) i = writing-IsSound s i bytes p
  Step-IsSound {s} drains i = draining-IsSound s i
  Step-IsSound {s} (reads n min h) i = reading-IsSound s i n min h
  Step-IsSound {s} (goes_on reset front back c e w) i =
      reading_on-IsSound s i reset front back c e w
  Step-IsSound {s} (reader_closes other e p) i = closing-IsSound s i other p
  Step-IsSound {s} (writer_closes other e p q) i = peer_closing-IsSound s i other e p
