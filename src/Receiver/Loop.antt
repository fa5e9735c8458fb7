-- ===== src/Receiver/Loop.antt =====
-- The receiver's chart under the loop of `transferCommon`, as `ReceiverY::receiveFiles` runs it.
use y_modem_protocol.Base.{◌≡◌, refl, sym, Bool, false, List, Option, none, some, is_some, subst}
use y_modem_protocol.Peer.Defs.{Peer, Message, kb_c, tm, ser}
use y_modem_protocol.Peer.Transfer.{StateMgr, Round, ended, transfer_loop}
use y_modem_protocol.Peer.Transfer.Events.{
  Heard, silent, no_byte, received, Typed, no_key, other_keys, cancelled, Step, broken_off, early,
  timed_out, came, Steps, over, off, next,
}
use y_modem_protocol.Peer.Transfer.Steps.{transfer_loop-Steps}
use y_modem_protocol.Receiver.Defs.{Answers}
use y_modem_protocol.Receiver.Machine.{
  Machine, Posted, posted, not_running, exception, undelivered, post_in, post_event,
}
use y_modem_protocol.Receiver.Settled.{IsSettled, SettledPost, post_event-IsSettled}

-- An exception leaves `postEvent`, and that of a chart that is not running too.
abbrev pub delivered : Posted → Option Machine
delivered (posted m) = some m
delivered not_running = none
delivered exception = none
delivered undelivered = none

abbrev pub change_peer : (Peer → Peer) → Machine → Machine
change_peer f m = record m { ctx = record m.ctx { peer = f m.ctx.peer } }

pub stopped-delivered :
    (a : Answers) (msg : Message) (m : Machine)
    → is_some m.active ≡ false
    → delivered (post_event a msg m) ≡ none
unfolding post_event
stopped-delivered a msg m e = in_state m.active e
  where
    in_state : (st : Option _) → is_some st ≡ false → delivered (post_in st a msg m) ≡ none
    in_state none h = refl
    in_state (some st) h = cc

-- The chart of the receiver behind the interface of the loop.
abbrev pub receiver_chart : StateMgr Answers Machine
receiver_chart = record {
  is_running = λ m. is_some m.active;
  peer_of = λ m. m.ctx.peer;
  on_peer = change_peer;
  post = λ a msg m. delivered (post_event a msg m);
  post_stopped = stopped-delivered;
  running_on_peer = λ f m. refl;
}

delivered-IsSettled :
    (p : Posted) (n : Machine) → SettledPost p → delivered p ≡ some n → IsSettled n
delivered-IsSettled (posted m) n s e = let same : m ≡ n = cc in subst IsSettled same s
delivered-IsSettled not_running n s e = cc
delivered-IsSettled exception n s e = cc
delivered-IsSettled undelivered n s e = cc

Heard-IsSettled :
    {t : Round Answers} {m n : Machine} {medium : Bool}
    → Heard receiver_chart t m medium n
    → IsSettled m
    → IsSettled n
Heard-IsSettled silent s = s
Heard-IsSettled (no_byte e) s = s
Heard-IsSettled {t} {m} {n} (received c read e) s =
    delivered-IsSettled _ n (post_event-IsSettled (t.answers (ser c)) (ser c) m s) e

Typed-IsSettled :
    {t : Round Answers} {m n : Machine} {console : Bool}
    → Typed receiver_chart t m console n
    → IsSettled m
    → IsSettled n
Typed-IsSettled no_key s = s
Typed-IsSettled (other_keys e) s = s
Typed-IsSettled {t} {m} (cancelled {n = before} more keys e f) s =
    subst IsSettled (sym f)
      (delivered-IsSettled _ before (post_event-IsSettled (t.answers kb_c) kb_c m s) e)

Step-IsSettled :
    {t : Round Answers} {m n : Machine} → Step receiver_chart t m n → IsSettled m → IsSettled n
Step-IsSettled (broken_off e) s = s
Step-IsSettled (early e ahead) s = s
Step-IsSettled {t} {m} {n} (timed_out e due p) s =
    delivered-IsSettled _ n (post_event-IsSettled (t.answers tm) tm m s) p
Step-IsSettled (came medium console e heard typed) s =
    Typed-IsSettled typed (Heard-IsSettled heard s)

Steps-IsSettled :
    {ts : List (Round Answers)} {m n : Machine}
    → Steps receiver_chart ts m n
    → IsSettled m
    → IsSettled n
Steps-IsSettled over s = s
Steps-IsSettled (off e) s = s
Steps-IsSettled (next on step steps) s = Steps-IsSettled steps (Step-IsSettled step s)

-- The loop of `transferCommon` keeps the receiver settled, whatever comes from the medium, the
-- keyboard and the clock: between two rounds no transient state that posts CONT is active, and the
-- history of NON_CAN names no state in which data are received.
pub transfer_loop-IsSettled :
    (ts : List (Round Answers)) (m n : Machine)
    → IsSettled m
    → transfer_loop receiver_chart ts m ≡ ended n
    → IsSettled n
transfer_loop-IsSettled ts m n s e = Steps-IsSettled (transfer_loop-Steps receiver_chart ts m n e) s
