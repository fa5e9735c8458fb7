-- ===== src/Receiver/Fuel.antt =====
-- The CONT messages of the transient states.
use y_modem_protocol.Base.{ℕ, zero, suc, ◌≤◌, ◌<◌, ◌≢◌, true, false, Option, none, some, arith}
use y_modem_protocol.Peer.Defs.{Message, cont}
use y_modem_protocol.Receiver.Defs.{Receiver, Answers}
use y_modem_protocol.Receiver.Chart.{
  State, cond_check, cond_open, cond_eot, cond_stat, Reaction, ignored, throws, internal, external,
}
use y_modem_protocol.Receiver.Machine.{
  Machine, move, on_entry, posts_cont, Fired, fired, failed, settle, fire_in, deliver, on_message,
  undelivered, post_in, post_event,
}

-- How many messages a state still posts at most.
abbrev rank : Option State → ℕ
rank (some cond_stat) = 3
rank (some cond_check) = 2
rank (some cond_open) = 1
rank (some cond_eot) = 1
rank _ = 0

abbrev Fine : ℕ → Fired → Type 0
Fine n failed = Unit {0}
Fine n (fired m false) = Unit {0}
Fine n (fired m true) = (0 < rank m.active) × (rank m.active ≤ n)

posts_cont-rank :
    (st : Option State) (h : Option State) (r : Receiver)
    → Fine 3 (fired (record { active = st; history = h; ctx = r }) (posts_cont st))
posts_cont-rank none h r = tt
posts_cont-rank (some cond_check) h r = (omega arith, omega arith)
posts_cont-rank (some cond_open) h r = (omega arith, omega arith)
posts_cont-rank (some cond_eot) h r = (omega arith, omega arith)
posts_cont-rank (some cond_stat) h r = (omega arith, omega arith)
posts_cont-rank (some _) h r = tt

settle-Fine : (a : Answers) (st : State) (m : Machine) (r : Reaction) → Fine 3 (settle a st m r)
unfolding settle
settle-Fine a st m ignored = tt
settle-Fine a st m throws = tt
settle-Fine a st m (internal r) = tt
settle-Fine a st m (external t r) =
    let to = move st m.history t in posts_cont-rank to.0 to.1 (on_entry a to.0 r)

cont-Fine :
    (n : ℕ) (a : Answers) (st : Option State) (m : Machine)
    → rank st ≤ suc n
    → Fine n (fire_in st a cont m)
unfolding fire_in
cont-Fine n a none m h = tt
cont-Fine n a (some cond_check) m h = ground arith
cont-Fine n a (some cond_open) m h = ground arith
cont-Fine n a (some cond_eot) m h = ground arith
cont-Fine n a (some cond_stat) m h = ground arith
cont-Fine n a (some _) m h = tt

deliver-Fine : (n : ℕ) (a : Answers) (f : Fired) → Fine n f → deliver n a f ≢ undelivered
unfolding deliver
deliver-Fine n a failed h e = cc
deliver-Fine n a (fired m false) h e = cc
deliver-Fine zero a (fired m true) h e = absurd (omega (arith, h.0, h.1))
deliver-Fine (suc n) a (fired m true) h e =
    deliver-Fine n a (fire_in m.active a cont m) (cont-Fine n a m.active m h.1) e

post_in-delivered :
    (a : Answers) (msg : Message) (st : Option State) (m : Machine)
    → post_in st a msg m ≢ undelivered
unfolding post_in fire_in
post_in-delivered a msg none m e = cc
post_in-delivered a msg (some st) m e =
    deliver-Fine 3 a _ (settle-Fine a st m (on_message st a msg m.ctx)) e

-- Every event is handled to its end: at most three CONT messages follow it.
pub post_event-delivered :
    (a : Answers) (msg : Message) (m : Machine) → post_event a msg m ≢ undelivered
unfolding post_event
post_event-delivered a msg m e = post_in-delivered a msg m.active m e
