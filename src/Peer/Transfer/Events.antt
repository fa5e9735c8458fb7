-- ===== src/Peer/Transfer/Events.antt =====
-- The loop of `transferCommon` as the events that its rounds post, step by step.
use y_modem_protocol.Base.{
  ℕ, ◌-◌, ◌≤◌, ◌<◌, ◌≡◌, ◌≢◌, Bool, true, false, List, [], ◌∷◌, Option, none, some, ◌/◌, ◌%◌,
}
use y_modem_protocol.Base.Int.{ℤ, pos, negsuc, ◌-ℤ◌}
use y_modem_protocol.Peer.Defs.{tm, ser, kb_c}
use y_modem_protocol.Peer.Transfer.{
  StateMgr, Round, Selected, interrupted, nothing, ready, after_cancel, million, to_tenths,
}

-- The timeout is ahead, or not.
abbrev pub IsAhead : ℤ → ℕ → Type 0
IsAhead (pos due) now = now < due
IsAhead (negsuc n) now = ⊥

abbrev pub IsDue : ℤ → ℕ → Type 0
IsDue (pos due) now = due ≤ now
IsDue (negsuc n) now = Unit {0}

-- The microseconds that are left until the timeout.
abbrev pub left_until : ℤ → ℕ → ℕ
left_until (pos due) now = due - now
left_until (negsuc n) now = 0

module _ {A M : Type 0} (chart : StateMgr A M) where
  open chart use {is_running, peer_of, on_peer, post, post_stopped}

  -- What `select` gives in a round that begins with the machine `m`, which waits for what is left.
  abbrev pub told : Round A → M → Selected
  told t m =
      let left = left_until (peer_of m).absolute_timeout t.now in
      t.select (left / million) (left % million)

  -- What `myReadcond` gives then.
  abbrev pub read : Round A → M → Option ℕ
  unfolding ◌-ℤ◌
  read t m = t.readcond (to_tenths ((peer_of m).absolute_timeout -ℤ pos t.now))

  -- What a round does that has found the medium ready, or not: it posts SER for a byte that is read.
  pub data Heard (t : Round A) (m : M) : Bool → M → Type 0 where
    silent : Heard t m false m
    no_byte : read t m ≡ none → Heard t m true m
    received :
        {n : M} (c : ℕ)
        → read t m ≡ some c
        → post (t.answers (ser c)) (ser c) m ≡ some n
        → Heard t m true n

  -- What it does that has found the console ready, or not: it posts KB_C for `&c`, and then notes it.
  pub data Typed (t : Round A) (m : M) : Bool → M → Type 0 where
    no_key : Typed t m false m
    other_keys : ((more : List ℕ) → t.keys ≢ b'&' ∷ b'c' ∷ more) → Typed t m true m
    cancelled :
        {n k : M} (more : List ℕ)
        → t.keys ≡ b'&' ∷ b'c' ∷ more
        → post (t.answers kb_c) kb_c m ≡ some n
        → k ≡ on_peer after_cancel n
        → Typed t m true k

  -- A round: it is interrupted; nothing comes, and the timeout is ahead, or is due and posted; or the
  -- medium and the console are looked at, in that order.
  pub data Step (t : Round A) (m : M) : M → Type 0 where
    broken_off : told t m ≡ interrupted → Step t m m
    early : told t m ≡ nothing → IsAhead (peer_of m).absolute_timeout t.now → Step t m m
    timed_out :
        {n : M}
        → told t m ≡ nothing
        → IsDue (peer_of m).absolute_timeout t.now
        → post (t.answers tm) tm m ≡ some n
        → Step t m n
    came :
        {n k : M} (medium console : Bool)
        → told t m ≡ ready medium console
        → Heard t m medium n
        → Typed t n console k
        → Step t m k

  -- Rounds while the chart runs.
  pub data Steps : List (Round A) → M → M → Type 0 where
    over : {m : M} → Steps [] m m
    off : {ts : List (Round A)} {m : M} → is_running m ≡ false → Steps ts m m
    next :
        {t : Round A} {ts : List (Round A)} {m n k : M}
        → is_running m ≡ true
        → Step t m n
        → Steps ts n k
        → Steps (t ∷ ts) m k
