-- ===== src/Sender/Loop.antt =====
-- The sender's chart under the loop of `transferCommon`, as `SenderY::sendFiles` runs it.
use y_modem_protocol.Base.{
  ℕ, ◌≤◌, ◌≡◌, refl, ap, ◌∙◌, false, List, ◌∷◌, Option, none, some, is_some, if◌then◌else◌,
}
use y_modem_protocol.Base.Int.{pos}
use y_modem_protocol.Peer.Defs.{Peer, Message, tm, timeout, kb_cancelled}
use y_modem_protocol.Peer.Transfer.{
  StateMgr, Round, nothing, ended, then_do, of_post, transfer_loop,
}
use y_modem_protocol.Peer.Transfer.Rounds.{loop_due, loop_stopped}
use y_modem_protocol.Sender.Defs.{Sender, Answers}
use y_modem_protocol.Sender.Chart.{
  State, stat_c, acknak, eot1, one, eoteot, acknakstat, can_state, give_up,
}
use y_modem_protocol.Sender.Machine.{
  Machine, Posted, posted, not_running, process_exit, post_in, post_event,
}
use y_modem_protocol.Sender.Runs.{at, stopped}

-- An exception leaves `postEvent`, and an exit ends the process.
abbrev pub delivered : Posted → Option Machine
delivered (posted m) = some m
delivered not_running = none
delivered process_exit = none

abbrev pub change_peer : (Peer → Peer) → Machine → Machine
change_peer f m = record m { ctx = record m.ctx { peer = f m.ctx.peer } }

pub stopped-delivered :
    (a : Answers) (msg : Message) (m : Machine)
    → is_some m.active ≡ false
    → delivered (post_event a msg m) ≡ none
unfolding post_event
stopped-delivered a msg m e = in_state m.active e
  where
    in_state : (st : Option _) → is_some st ≡ false → delivered (post_in st a msg m) ≡ none
    in_state none h = refl
    in_state (some st) h = cc

-- The chart of the sender behind the interface of the loop.
abbrev pub sender_chart : StateMgr Answers Machine
sender_chart = record {
  is_running = λ m. is_some m.active;
  peer_of = λ m. m.ctx.peer;
  on_peer = change_peer;
  post = λ a msg m. delivered (post_event a msg m);
  post_stopped = stopped-delivered;
  running_on_peer = λ f m. refl;
}

-- The states below NON_CAN.
abbrev pub IsNonCan : State → Type 0
IsNonCan can_state = ⊥
IsNonCan _ = Unit {0}

tm_ends :
    (a : Answers) (st : State) (h : Option State) (s : Sender)
    → IsNonCan st
    → post_event a tm (at st h s)
      ≡ posted (stopped h (give_up (if s.kb_can then kb_cancelled else timeout) s))
unfolding post_event
tm_ends a stat_c h s w = refl
tm_ends a acknak h s w = refl
tm_ends a eot1 h s w = refl
tm_ends a one h s w = refl
tm_ends a eoteot h s w = refl
tm_ends a acknakstat h s w = refl
tm_ends a can_state h s w = absurd w

-- The sender gives up at the first timeout: a round of the loop that is due and in which nothing comes
-- ends it, from every state but CAN. The CANs are sent, the file is closed, and the result is a
-- cancel if the keyboard asked for one, and else a timeout.
pub first_timeout_ends :
    (t : Round Answers) (ts : List (Round Answers)) (due : ℕ) (st : State) (h : Option State)
    (s : Sender)
    → IsNonCan st
    → s.absolute_timeout ≡ pos due
    → due ≤ t.now
    → t.select 0 0 ≡ nothing
    → transfer_loop sender_chart (t ∷ ts) (at st h s)
      ≡ ended (stopped h (give_up (if s.kb_can then kb_cancelled else timeout) s))
first_timeout_ends t ts due st h s w d late quiet =
    loop_due sender_chart t ts (at st h s) due refl d late quiet
    ∙ ap (λ p. then_do (of_post (delivered p)) (transfer_loop sender_chart ts))
        (tm_ends (t.answers tm) st h s w)
    ∙ loop_stopped sender_chart ts _ refl
