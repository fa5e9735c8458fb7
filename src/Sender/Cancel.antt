-- ===== src/Sender/Cancel.antt =====
-- Cancelling: by CAN characters from the receiver, and from the keyboard.
use y_modem_protocol.Base.{
  ℕ, ◌≡◌, ◌≢◌, ◌⊎◌, refl, true, false, is_some, List, [], ◌∷◌, Option, some, arith,
}
use y_modem_protocol.Base.Int.{pos, ◌-ℤ◌}
use y_modem_protocol.Peer.Defs.{
  Message, ser, tm, can, ack, nak, rcv_cancelled, tm_char, Action, wrote, slept, push_timeout,
  pop_timeout, add_result,
}
use y_modem_protocol.Sender.Defs.{Sender, Answers, on_peer, clear_can_now}
use y_modem_protocol.Sender.Chart.{State, stat_c, eot1, acknakstat, can_state, close_file}
use y_modem_protocol.Sender.Machine.{posted, post_event}
use y_modem_protocol.Sender.Runs.{at, stopped, post_all}

-- Where the first CAN leads: to CAN, with the state it left in the history and a short timeout.
first_can :
    (a : Answers) (st : State) (h : Option State) (s : Sender)
    → st ≢ can_state
    → post_event a (ser can) (at st h s)
      ≡ posted (at can_state (some st) (on_peer (push_timeout a.elapsed tm_char) s))
unfolding post_event
first_can a stat_c h s d = ground arith
first_can a can_state h s d = absurd (d refl)
first_can a _ h s d = ground arith

-- Two CANs in a row, in any state but CAN, end the transfer: the file is closed, the line is cleared
-- of further CANs and the result says so. No character is sent.
pub two_cans :
    (a b : Answers) (st : State) (h : Option State) (s : Sender)
    → st ≢ can_state
    → post_all ((a, ser can) ∷ (b, ser can) ∷ []) (at st h s)
      ≡ posted (
          stopped (some st) (
            on_peer
              (λ p. add_result rcv_cancelled (clear_can_now p))
              (close_file (on_peer (push_timeout a.elapsed tm_char) s))))
unfolding post_event
two_cans a b st h s d = rw (first_can a st h s d) refl

-- Without a keyboard cancel, a single CAN between other characters, in any state but CAN, is a glitch:
-- the sender is back in its state, with the timeout that it had, and has done nothing.
pub one_can_resumes :
    (a b : Answers) (c : ℕ) (st : State) (h : Option State) (s : Sender)
    → st ≢ can_state
    → c ≢ can
    → s.kb_can ≡ false
    → post_all ((a, ser can) ∷ (b, ser c) ∷ []) (at st h s)
      ≡ posted (at st (some st) (on_peer (λ p. record p { hold_timeout = p.absolute_timeout }) s))
unfolding post_event push_timeout pop_timeout
one_can_resumes a b c st h s d other k = rw (first_can a st h s d) (ground arith)

-- The states in which a keyboard cancel waits for the receiver's next answer: not StatC and CAN,
-- EOT1 only when no C is expected any more, ACKNAKSTAT only with a file.
abbrev pub Cancellable : State → Sender → Type 0
Cancellable stat_c s = ⊥
Cancellable can_state s = ⊥
Cancellable acknakstat s = is_some s.file_name ≡ true
Cancellable eot1 s = s.first_blk ≡ false
Cancellable _ s = Unit {0}

-- The messages that end the wait.
abbrev pub Answer : Message → Type 0
Answer (ser c) = (c ≡ ack) ⊎ ((c ≡ nak) ⊎ (c ≡ b'C'))
Answer tm = Unit {0}
Answer _ = ⊥

-- The sender after the keyboard cancel: it notes it, and waits 14.6 seconds less.
abbrev pub noted : Sender → Sender
noted s =
    on_peer (λ p. record p { kb_can = true; absolute_timeout = p.absolute_timeout -ℤ pos 14600000 })
      s

-- Eight CANs, in four bursts 300 ms apart.
abbrev pub can_log : List Action
can_log =
    wrote (can ∷ can ∷ [])
    ∷ slept 300
    ∷ wrote (can ∷ can ∷ [])
    ∷ slept 300
    ∷ wrote (can ∷ can ∷ [])
    ∷ slept 300
    ∷ wrote (can ∷ can ∷ [])
    ∷ []
