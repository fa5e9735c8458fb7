-- ===== src/Receiver/Settled.antt =====
-- What is active between two events, and what NON_CAN's history can name.
use y_modem_protocol.Base.{ℕ, zero, suc, true, false, Option, none, some, arith}
use y_modem_protocol.Peer.Defs.{Message, cont, ser, tm, kb_c}
use y_modem_protocol.Receiver.Defs.{Receiver, Answers}
use y_modem_protocol.Receiver.Chart.{
  State, first_byte_stat, first_byte_data, eot_data, are_we_done, can_state, cond_data, cond_check,
  cond_open, cond_eot, cond_stat,
}
use y_modem_protocol.Receiver.Machine.{
  Machine, Fired, fired, failed, fire_in, deliver, Posted, posted, post_in, post_event,
}
use y_modem_protocol.Receiver.Runs.{at}

-- No transient state that posts CONT.
abbrev pub Calm : Option State → Type 0
Calm (some cond_check) = ⊥
Calm (some cond_open) = ⊥
Calm (some cond_eot) = ⊥
Calm (some cond_stat) = ⊥
Calm _ = Unit {0}

abbrev Transient : Option State → Type 0
Transient (some cond_check) = Unit {0}
Transient (some cond_open) = Unit {0}
Transient (some cond_eot) = Unit {0}
Transient (some cond_stat) = Unit {0}
Transient _ = ⊥

-- The history names no state in which a file is open.
abbrev pub Remembers : Option State → Type 0
Remembers none = Unit {0}
Remembers (some first_byte_stat) = Unit {0}
Remembers (some are_we_done) = Unit {0}
Remembers (some _) = ⊥

abbrev pub IsSettled : Machine → Type 0
IsSettled m = Calm m.active × Remembers m.history

abbrev Sound : Fired → Type 0
Sound failed = Unit {0}
Sound (fired m false) = IsSettled m
Sound (fired m true) = Transient m.active × Remembers m.history

Calm-Sound :
    (a : Answers) (msg : Message) (st : State) (h : Option State) (r : Receiver)
    → Calm (some st)
    → Remembers h
    → Sound (fire_in (some st) a msg (at st h r))
unfolding fire_in
Calm-Sound a msg cond_check h r c p = absurd c
Calm-Sound a msg cond_open h r c p = absurd c
Calm-Sound a msg cond_eot h r c p = absurd c
Calm-Sound a msg cond_stat h r c p = absurd c
Calm-Sound a cont first_byte_stat h r c p = (tt, p)
Calm-Sound a tm first_byte_stat h r c p = ground arith
Calm-Sound a kb_c first_byte_stat h r c p = (tt, p)
Calm-Sound a (ser b) first_byte_stat h r c p = ground arith
Calm-Sound a cont first_byte_data h r c p = (tt, p)
Calm-Sound a tm first_byte_data h r c p = ground arith
Calm-Sound a kb_c first_byte_data h r c p = (tt, p)
Calm-Sound a (ser b) first_byte_data h r c p = ground arith
Calm-Sound a cont eot_data h r c p = (tt, p)
Calm-Sound a tm eot_data h r c p = ground arith
Calm-Sound a kb_c eot_data h r c p = (tt, p)
Calm-Sound a (ser b) eot_data h r c p = ground arith
Calm-Sound a cont are_we_done h r c p = (tt, p)
Calm-Sound a tm are_we_done h r c p = (tt, p)
Calm-Sound a kb_c are_we_done h r c p = (tt, p)
Calm-Sound a (ser b) are_we_done h r c p = ground arith
Calm-Sound a cont can_state h r c p = (tt, p)
Calm-Sound a tm can_state none r c p = ground arith
Calm-Sound a (ser b) can_state none r c p = ground arith
Calm-Sound a kb_c can_state h r c p = (tt, p)
Calm-Sound a tm can_state (some first_byte_stat) r c p = ground arith
Calm-Sound a tm can_state (some are_we_done) r c p = ground arith
Calm-Sound a tm can_state (some first_byte_data) r c p = absurd p
Calm-Sound a tm can_state (some eot_data) r c p = absurd p
Calm-Sound a tm can_state (some can_state) r c p = absurd p
Calm-Sound a tm can_state (some cond_data) r c p = absurd p
Calm-Sound a tm can_state (some cond_check) r c p = absurd p
Calm-Sound a tm can_state (some cond_open) r c p = absurd p
Calm-Sound a tm can_state (some cond_eot) r c p = absurd p
Calm-Sound a tm can_state (some cond_stat) r c p = absurd p
Calm-Sound a (ser b) can_state (some first_byte_stat) r c p = ground arith
Calm-Sound a (ser b) can_state (some are_we_done) r c p = ground arith
Calm-Sound a (ser b) can_state (some first_byte_data) r c p = absurd p
Calm-Sound a (ser b) can_state (some eot_data) r c p = absurd p
Calm-Sound a (ser b) can_state (some can_state) r c p = absurd p
Calm-Sound a (ser b) can_state (some cond_data) r c p = absurd p
Calm-Sound a (ser b) can_state (some cond_check) r c p = absurd p
Calm-Sound a (ser b) can_state (some cond_open) r c p = absurd p
Calm-Sound a (ser b) can_state (some cond_eot) r c p = absurd p
Calm-Sound a (ser b) can_state (some cond_stat) r c p = absurd p
Calm-Sound a cont cond_data h r c p = (tt, p)
Calm-Sound a tm cond_data h r c p = ground arith
Calm-Sound a kb_c cond_data h r c p = (tt, p)
Calm-Sound a (ser b) cond_data h r c p = (tt, p)

Transient-Sound :
    (a : Answers) (st : Option State) (h : Option State) (r : Receiver)
    → Transient st
    → Remembers h
    → Sound (fire_in st a cont (record { active = st; history = h; ctx = r }))
unfolding fire_in
Transient-Sound a (some cond_check) h r c p = ground arith
Transient-Sound a (some cond_open) h r c p = ground arith
Transient-Sound a (some cond_eot) h r c p = ground arith
Transient-Sound a (some cond_stat) h r c p = ground arith
Transient-Sound a none h r c p = absurd c
Transient-Sound a (some first_byte_stat) h r c p = absurd c
Transient-Sound a (some first_byte_data) h r c p = absurd c
Transient-Sound a (some eot_data) h r c p = absurd c
Transient-Sound a (some are_we_done) h r c p = absurd c
Transient-Sound a (some can_state) h r c p = absurd c
Transient-Sound a (some cond_data) h r c p = absurd c

abbrev pub SettledPost : Posted → Type 0
SettledPost (posted m) = IsSettled m
SettledPost _ = Unit {0}

deliver-SettledPost : (n : ℕ) (a : Answers) (f : Fired) → Sound f → SettledPost (deliver n a f)
unfolding deliver
deliver-SettledPost n a failed s = tt
deliver-SettledPost n a (fired m false) s = s
deliver-SettledPost zero a (fired m true) s = tt
deliver-SettledPost (suc n) a (fired m true) s =
    deliver-SettledPost n a (fire_in m.active a cont m)
      (Transient-Sound a m.active m.history m.ctx s.0 s.1)

post_in-SettledPost :
    (a : Answers) (msg : Message) (st : Option State) (h : Option State) (r : Receiver)
    → Calm st
    → Remembers h
    → SettledPost (post_in st a msg (record { active = st; history = h; ctx = r }))
unfolding post_in
post_in-SettledPost a msg none h r c p = tt
post_in-SettledPost a msg (some st) h r c p =
    deliver-SettledPost 3 a (fire_in (some st) a msg (at st h r)) (Calm-Sound a msg st h r c p)

-- Between two events none of the four transient states that post CONT to themselves is active
-- (CondTransientCheck, CondTransientOpen, CondTransientEOT and CondlTransientStat; CondTransientData,
-- which waits for a timeout, may be), and the history of NON_CAN names FirstByteStat, AreWeDone or
-- nothing: never a state in which data are received. Every event keeps that.
pub post_event-IsSettled :
    (a : Answers) (msg : Message) (m : Machine) → IsSettled m → SettledPost (post_event a msg m)
unfolding post_event
post_event-IsSettled a msg m s = post_in-SettledPost a msg m.active m.history m.ctx s.0 s.1
