-- ===== src/Receiver/Cancel.antt =====
-- CAN characters that come to the receiver: two in a row, and one alone.
use y_modem_protocol.Base.{
  ℕ, ◌+◌, ◌≡◌, ◌≢◌, refl, ap, ◌∙◌, false, [], ◌∷◌, ◌++◌, if◌then◌else◌, Option, none, some, arith,
}
use y_modem_protocol.Base.Int.{pos, ◌+ℤ◌}
use y_modem_protocol.Peer.Defs.{
  ser, can, purged, snd_cancelled, tm_2char, act, push_timeout, pop_timeout,
}
use y_modem_protocol.Receiver.Defs.{
  Receiver, Answers, on_peer, purge, clear_can_now, close_transferred_file,
}
use y_modem_protocol.Receiver.Chart.{
  State, first_byte_stat, first_byte_data, eot_data, are_we_done, can_state, cond_data, cond_check,
  cond_open, cond_eot, cond_stat, add,
}
use y_modem_protocol.Receiver.Machine.{parent_is_non_can, resumed, posted, post_event}
use y_modem_protocol.Receiver.Settled.{Remembers}
use y_modem_protocol.Receiver.Runs.{at, stopped, post_all}

-- The states in which the receiver waits for a character.
abbrev pub Waits : State → Type 0
Waits first_byte_stat = Unit {0}
Waits first_byte_data = Unit {0}
Waits eot_data = Unit {0}
Waits are_we_done = Unit {0}
Waits _ = ⊥

-- The history state after a CAN.
abbrev pub remembered : State → Option State → Option State
remembered st h = if parent_is_non_can st then some st else h

first_can :
    (a : Answers) (st : State) (h : Option State) (r : Receiver)
    → Waits st
    → post_event a (ser can) (at st h r)
      ≡ posted (at can_state (remembered st h) (on_peer (push_timeout a.elapsed tm_2char) r))
unfolding post_event
first_can a first_byte_stat h r w = ground arith
first_can a first_byte_data h r w = ground arith
first_can a eot_data h r w = ground arith
first_can a are_we_done h r w = ground arith
first_can a can_state h r w = absurd w
first_can a cond_data h r w = absurd w
first_can a cond_check h r w = absurd w
first_can a cond_open h r w = absurd w
first_can a cond_eot h r w = absurd w
first_can a cond_stat h r w = absurd w

-- Two CANs in a row, wherever the receiver waits, end the transfer: the file is closed, the line is
-- cleared of further CANs, nothing is sent and the result says so.
pub two_cans_end :
    (a b : Answers) (st : State) (h : Option State) (r : Receiver)
    → Waits st
    → post_all ((a, ser can) ∷ (b, ser can) ∷ []) (at st h r)
      ≡ posted (
          stopped (remembered st h) (
            add snd_cancelled (
              clear_can_now
                (close_transferred_file b.close_ok (on_peer (push_timeout a.elapsed tm_2char) r)))))
unfolding post_event
two_cans_end a b st h r w = rw (first_can a st h r w) refl

back_from_can :
    (b : Answers) (c : ℕ) (h : Option State) (r : Receiver)
    → Remembers h
    → c ≢ can
    → r.kb_can ≡ false
    → post_event b (ser c) (at can_state h r)
      ≡ posted (at (resumed h) h (on_peer pop_timeout (purge r)))
unfolding post_event
back_from_can b c none r p other k = ground arith
back_from_can b c (some first_byte_stat) r p other k = ground arith
back_from_can b c (some are_we_done) r p other k = ground arith
back_from_can b c (some first_byte_data) r p other k = absurd p
back_from_can b c (some eot_data) r p other k = absurd p
back_from_can b c (some can_state) r p other k = absurd p
back_from_can b c (some cond_data) r p other k = absurd p
back_from_can b c (some cond_check) r p other k = absurd p
back_from_can b c (some cond_open) r p other k = absurd p
back_from_can b c (some cond_eot) r p other k = absurd p
back_from_can b c (some cond_stat) r p other k = absurd p

never_data : (h : Option State) → Remembers h → resumed h ≢ first_byte_data
never_data none p e = cc
never_data (some first_byte_stat) p e = cc
never_data (some are_we_done) p e = cc
never_data (some first_byte_data) p e = absurd p
never_data (some eot_data) p e = cc
never_data (some can_state) p e = cc
never_data (some cond_data) p e = cc
never_data (some cond_check) p e = cc
never_data (some cond_open) p e = cc
never_data (some cond_eot) p e = cc
never_data (some cond_stat) p e = cc

abbrev pub pushed : Answers → Receiver → Receiver
pushed a r = on_peer (push_timeout a.elapsed tm_2char) r

timeout_set : (a b : ℕ) → pos a +ℤ pos b ≡ pos (a + b)
unfolding ◌+ℤ◌
timeout_set a b = ground arith

-- The receiver while it waits for a second CAN: the timeout is 0.4 seconds off, and the old one is kept.
abbrev pub alert : Answers → Receiver → Receiver
alert a r =
    on_peer
      (λ p. record p {
        hold_timeout = p.absolute_timeout;
        absolute_timeout = pos (a.elapsed + 400000);
      })
      r

pushed_lem : (a : Answers) (r : Receiver) → pushed a r ≡ alert a r
unfolding push_timeout
pushed_lem a r =
    ap (λ t. on_peer (λ p. record p { hold_timeout = p.absolute_timeout; absolute_timeout = t }) r)
      (timeout_set a.elapsed 400000)

-- The receiver after a single CAN and another character: as it was, but for a purge of the line and
-- the timeout that is kept.
abbrev pub purged_once : Receiver → Receiver
purged_once r =
    on_peer (λ p. record p { hold_timeout = p.absolute_timeout; log = p.log ++ purged ∷ [] }) r

popped_lem : (a : Answers) (r : Receiver) → on_peer pop_timeout (purge (pushed a r)) ≡ purged_once r
unfolding push_timeout pop_timeout purge act
popped_lem a r = refl

alerted :
    (a : Answers) (st : State) (h : Option State) (r : Receiver)
    → Waits st
    → post_event a (ser can) (at st h r) ≡ posted (at can_state (remembered st h) (alert a r))
alerted a st h r w =
    first_can a st h r w ∙ ap (λ x. posted (at can_state (remembered st h) x)) (pushed_lem a r)

back_again :
    (a b : Answers) (c : ℕ) (h : Option State) (r : Receiver)
    → Remembers h
    → c ≢ can
    → r.kb_can ≡ false
    → post_all ((b, ser c) ∷ []) (at can_state h (pushed a r))
      ≡ posted (at (resumed h) h (purged_once r))
back_again a b c h r p other k =
    rw (back_from_can b c h (pushed a r) p other (unfold push_timeout in k))
      (ap (λ x. posted (at (resumed h) h x)) (popped_lem a r))

-- Without a keyboard cancel, a single CAN makes the receiver wait for a second one, for 0.4 seconds.
-- When another character comes, the line is purged, and it was a glitch for FirstByteStat and
-- AreWeDone: the receiver is back where it was, with the timeout, errors, result and file that it
-- had. It is none for the states in which data are received: from there the receiver comes to the
-- state that the history names, FirstByteStat or AreWeDone, with the file still open.
pub lone_can :
    (a b : Answers) (c : ℕ) (st : State) (h : Option State) (r : Receiver)
    → Waits st
    → Remembers h
    → c ≢ can
    → r.kb_can ≡ false
    → (post_event a (ser can) (at st h r) ≡ posted (at can_state (remembered st h) (alert a r)))
      × (post_all ((a, ser can) ∷ (b, ser c) ∷ []) (at st h r)
          ≡ posted (
              at
                (if parent_is_non_can st then st else resumed h)
                (remembered st h)
                (purged_once r)))
      × (resumed h ≢ first_byte_data)
lone_can a b c first_byte_stat h r w p other k = (
  alerted a first_byte_stat h r w,
  rw (first_can a first_byte_stat h r w) (back_again a b c (some first_byte_stat) r tt other k),
  never_data h p,
)
lone_can a b c first_byte_data h r w p other k = (
  alerted a first_byte_data h r w,
  rw (first_can a first_byte_data h r w) (back_again a b c h r p other k),
  never_data h p,
)
lone_can a b c eot_data h r w p other k = (
  alerted a eot_data h r w,
  rw (first_can a eot_data h r w) (back_again a b c h r p other k),
  never_data h p,
)
lone_can a b c are_we_done h r w p other k = (
  alerted a are_we_done h r w,
  rw (first_can a are_we_done h r w) (back_again a b c (some are_we_done) r tt other k),
  never_data h p,
)
lone_can a b c can_state h r w p other k = absurd w
lone_can a b c cond_data h r w p other k = absurd w
lone_can a b c cond_check h r w p other k = absurd w
lone_can a b c cond_open h r w p other k = absurd w
lone_can a b c cond_eot h r w p other k = absurd w
lone_can a b c cond_stat h r w p other k = absurd w
