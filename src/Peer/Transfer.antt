-- ===== src/Peer/Transfer.antt =====
-- `PeerY::transferCommon` (PeerY.cpp): the loop that waits for the medium, the keyboard and the
-- timeout, and posts events to a chart. The chart is behind an interface.
pub mod Events
pub mod Steps
pub mod Rounds
use y_modem_protocol.Base.{
  ℕ, zero, suc, ◌+◌, ◌-◌, ◌*◌, ◌/◌, ◌%◌, ◌^◌, ◌≡◌, Bool, true, false, ◌&&◌, ◌==◌, if◌then◌else◌,
  List, [], ◌∷◌, Option, none, some,
}
use y_modem_protocol.Base.Int.{ℤ, pos, negsuc, ◌-ℤ◌, ltb_ℤ, pos_part}
use y_modem_protocol.Peer.Defs.{Peer, Message, tm, ser, kb_c, slept, act}

-- What the loop uses of a `StateMgr`, whose state is an `M`, and whose handlers are given answers of
-- the system, an `A`. `post` gives `none` for an exception or an exit of the process.
pub record StateMgr (A M : Type 0) : Type 0 where
  pub is_running : M → Bool
  pub peer_of : M → Peer
  pub on_peer : (Peer → Peer) → M → M
  pub post : A → Message → M → Option M
  pub post_stopped : (a : A) (msg : Message) (m : M) → is_running m ≡ false → post a msg m ≡ none
  pub running_on_peer : (f : Peer → Peer) (m : M) → is_running (on_peer f m) ≡ is_running m

-- The result of `select`: -1 with EINTR or with another error, 0, or whether the medium and the
-- console are ready.
pub data Selected : Type 0 where
  interrupted failed nothing : Selected
  ready : Bool → Bool → Selected

-- What the system answers in one round of the loop: `elapsed_usecs()`, `select` for its `tv_sec` and
-- `tv_usec`, `myReadcond` for its timeout in tenths of a second (`none` if no byte is read), the
-- bytes that the reads from the console get, and what the handlers of an event ask for.
pub record Round (A : Type 0) : Type 0 where
  pub now : ℕ
  pub select : ℕ → ℕ → Selected
  pub readcond : ℕ → Option ℕ
  pub keys : List ℕ
  pub answers : Message → A

-- How a round, or the loop, ends: with the machine as it then is, by `exit`, or by an exception (or
-- the exit) of a handler.
pub data Ended (M : Type 0) : Type 0 where
  ended : M → Ended M
  exit_failure thrown : Ended M

abbrev pub million : ℕ
million = 1000000

-- `time_left`
unfoldable pub time_left : ℤ → ℕ → ℕ
unfolding ◌-ℤ◌
time_left absolute now = if ltb_ℤ (pos now) absolute then pos_part (absolute -ℤ pos now) else 0

-- `unsigned timeout = (absoluteTimeout - now) / 1000 / 100`: a division of a signed number, and a
-- conversion of it to 32 bits.
abbrev pub to_tenths : ℤ → ℕ
to_tenths (pos n) = n / 1000 / 100 % 2 ^ 32
to_tenths (negsuc n) = (2 ^ 32 - (n + 1) / 1000 / 100 % 2 ^ 32) % 2 ^ 32

abbrev pub then_do : {M : Type 0} → Ended M → (M → Ended M) → Ended M
then_do (ended m) f = f m
then_do exit_failure f = exit_failure
then_do thrown f = thrown

abbrev pub of_post : {M : Type 0} → Option M → Ended M
of_post none = thrown
of_post (some m) = ended m

-- `KbCan = true`, and the delay.
unfoldable pub after_cancel : Peer → Peer
unfolding act
after_cancel p = act (slept 100) (record p { kb_can = true })

module _ {A M : Type 0} (chart : StateMgr A M) where
  open chart use {is_running, peer_of, on_peer, post}

  -- The branch of the medium: `read` is what `myReadcond` gave.
  unfoldable pub on_medium : Round A → Option ℕ → M → Ended M
  on_medium t none m = ended m
  on_medium t (some c) m = of_post (post (t.answers (ser c)) (ser c) m)

  -- The branch of the console: `&c` posts KB_C, and other keys are read and forgotten.
  unfoldable pub on_keys : Round A → List ℕ → M → Ended M
  on_keys t (k ∷ l ∷ more) m =
      if k == b'&' && l == b'c'
      then then_do (of_post (post (t.answers kb_c) kb_c m)) (λ n. ended (on_peer after_cancel n))
      else ended m
  on_keys t keys m = ended m

  unfoldable pub on_ready : Round A → Bool → Bool → M → Ended M
  unfolding on_medium on_keys ◌-ℤ◌
  on_ready t medium console m =
      then_do
        (if medium
          then on_medium t (t.readcond (to_tenths ((peer_of m).absolute_timeout -ℤ pos t.now))) m
          else ended m)
        (λ n. if console then on_keys t t.keys n else ended n)

  unfoldable pub on_selected : Round A → Selected → M → Ended M
  unfolding on_ready
  on_selected t interrupted m = ended m
  on_selected t failed m = exit_failure
  on_selected t nothing m =
      if ltb_ℤ (pos t.now) (peer_of m).absolute_timeout
      then ended m
      else of_post (post (t.answers tm) tm m)
  on_selected t (ready medium console) m = on_ready t medium console m

  -- One round of the loop.
  unfoldable pub round : Round A → M → Ended M
  unfolding on_selected time_left
  round t m =
      let left = time_left (peer_of m).absolute_timeout t.now in
      on_selected t (t.select (left / million) (left % million)) m

  -- The loop, for as many rounds as the list has.
  unfoldable pub transfer_loop : List (Round A) → M → Ended M
  unfolding round
  transfer_loop [] m = ended m
  transfer_loop (t ∷ ts) m =
      if is_running m then then_do (round t m) (transfer_loop ts) else ended m
