-- ===== src/Receiver/Machine.antt =====
-- How the chart of the receiver is driven. The transient states post CONT to themselves when they
-- are entered, and `postEvent` delivers what was posted before it returns.
use y_modem_protocol.Base.{ℕ, zero, suc, Bool, true, false, if◌then◌else◌, Option, none, some}
use y_modem_protocol.Base.Int.{negsuc}
use y_modem_protocol.Peer.Defs.{
  Message, cont, tm, kb_c, ser, tm_soh, clear_errors, set_timeout, send_byte,
}
use y_modem_protocol.Receiver.Defs.{Receiver, Answers, on_peer}
use y_modem_protocol.Receiver.Chart.{
  State, first_byte_stat, first_byte_data, eot_data, are_we_done, can_state, cond_data, cond_check,
  cond_open, cond_eot, cond_stat, Target, leaf, data_cancelable, non_can, final_state, Reaction,
  ignored, throws, internal, external, or_super, top_level_on_message, non_can_on_message,
  data_on_message, first_byte_data_on_ser, eot_data_on_ser, cond_data_on_kb_c, cond_data_on_tm,
  cond_data_on_ser, first_byte_stat_on_ser, cond_check_on_cont, cond_open_on_cont, cond_eot_on_cont,
  cond_stat_on_cont, are_we_done_on_tm, are_we_done_on_ser, can_on_ser, can_on_tm,
}

-- The `onMessage` of the active state, with the super classes behind it.
unfoldable pub on_message : State → Answers → Message → Receiver → Reaction
unfolding or_super data_on_message first_byte_data_on_ser eot_data_on_ser cond_data_on_kb_c
    cond_data_on_tm cond_data_on_ser first_byte_stat_on_ser cond_check_on_cont cond_open_on_cont
    cond_eot_on_cont cond_stat_on_cont are_we_done_on_tm are_we_done_on_ser can_on_ser can_on_tm
on_message first_byte_data a (ser c) r =
    or_super (first_byte_data_on_ser a c r) (data_on_message a (ser c) r)
on_message first_byte_data a m r = data_on_message a m r
on_message eot_data a (ser c) r = or_super (eot_data_on_ser a c r) (data_on_message a (ser c) r)
on_message eot_data a m r = data_on_message a m r
on_message cond_data a kb_c r = or_super (cond_data_on_kb_c r) (non_can_on_message a kb_c r)
on_message cond_data a tm r = or_super (cond_data_on_tm a r) (non_can_on_message a tm r)
on_message cond_data a (ser c) r = or_super (cond_data_on_ser r) (non_can_on_message a (ser c) r)
on_message first_byte_stat a (ser c) r =
    or_super (first_byte_stat_on_ser a c r) (non_can_on_message a (ser c) r)
on_message cond_check a cont r = or_super (cond_check_on_cont a r) (non_can_on_message a cont r)
on_message cond_open a cont r = or_super (cond_open_on_cont a r) (non_can_on_message a cont r)
on_message cond_eot a cont r = or_super (cond_eot_on_cont a r) (non_can_on_message a cont r)
on_message cond_stat a cont r = or_super (cond_stat_on_cont a r) (non_can_on_message a cont r)
on_message are_we_done a tm r = or_super (are_we_done_on_tm r) (non_can_on_message a tm r)
on_message are_we_done a (ser c) r =
    or_super (are_we_done_on_ser a c r) (non_can_on_message a (ser c) r)
on_message can_state a (ser c) r = or_super (can_on_ser a c r) (top_level_on_message (ser c) r)
on_message can_state a tm r = or_super (can_on_tm r) (top_level_on_message tm r)
on_message can_state a m r = top_level_on_message m r
on_message st a m r = non_can_on_message a m r

-- `active` is `none` in the final state. `history` is NON_CAN's history state.
pub record Machine : Type 0 where
  pub active : Option State
  pub history : Option State
  pub ctx : Receiver

-- Whether the parent of a state is NON_CAN, which keeps history; DataCancelable keeps none.
abbrev pub parent_is_non_can : State → Bool
parent_is_non_can first_byte_data = false
parent_is_non_can eot_data = false
parent_is_non_can can_state = false
parent_is_non_can _ = true

-- The first substate of NON_CAN, without history.
abbrev pub resumed : Option State → State
resumed none = first_byte_stat
resumed (some st) = st

-- The state and the history after a transition. The history state is the active state if its own
-- parent keeps history, and else it stays as it was.
unfoldable pub move : State → Option State → Target → Option State × Option State
move from history (leaf can_state) =
    (some can_state, if parent_is_non_can from then some from else history)
move from history (leaf st) = (some st, history)
move from history data_cancelable = (some first_byte_data, history)
move from history non_can = (some (resumed history), history)
move from history final_state = (none, history)

-- The entry actions that change the context, and whether the entry posts CONT.
abbrev pub on_entry : Answers → Option State → Receiver → Receiver
on_entry a (some cond_data) r = on_peer (set_timeout a.elapsed 0) r
on_entry a _ r = r

abbrev pub posts_cont : Option State → Bool
posts_cont (some cond_check) = true
posts_cont (some cond_open) = true
posts_cont (some cond_eot) = true
posts_cont (some cond_stat) = true
posts_cont _ = false

-- How a call of `postEvent` ends. `undelivered` is the model's fuel at its end.
pub data Posted : Type 0 where
  posted : Machine → Posted
  not_running exception undelivered : Posted

-- What a message leads to: the machine, and whether CONT was posted.
pub data Fired : Type 0 where
  fired : Machine → Bool → Fired
  failed : Fired

unfoldable pub settle : Answers → State → Machine → Reaction → Fired
unfolding move
settle a st m ignored = fired m false
settle a st m throws = failed
settle a st m (internal r) = fired (record m { ctx = r }) false
settle a st m (external t r) =
    let (active, history) = move st m.history t in
    fired (record { active = active; history = history; ctx = on_entry a active r })
      (posts_cont active)

-- `fireMessage`: nothing is active in the final state.
unfoldable pub fire_in : Option State → Answers → Message → Machine → Fired
unfolding on_message settle
fire_in none a msg m = fired m false
fire_in (some st) a msg m = settle a st m (on_message st a msg m.ctx)

-- `sendPostedMessages`: every message in the queue is CONT.

unfoldable pub deliver : ℕ → Answers → Fired → Posted
deliver fuel a failed = exception
deliver fuel a (fired m false) = posted m
deliver zero a (fired m true) = undelivered
deliver (suc fuel) a (fired m true) = deliver fuel a (fire_in m.active a cont m)

-- The longest chain is from CondlTransientStat to FirstByteData, three messages.
unfoldable pub post_in : Option State → Answers → Message → Machine → Posted
unfolding fire_in deliver
post_in none a msg m = not_running
post_in (some st) a msg m = deliver 3 a (fire_in (some st) a msg m)

unfoldable pub post_event : Answers → Message → Machine → Posted
unfolding post_in
post_event a msg m = post_in m.active a msg m

-- `start`: the entry action of the top level, then FirstByteStat is active.
unfoldable pub top_level_on_entry : Answers → Receiver → Receiver
top_level_on_entry a r =
    on_peer (λ p. record p { kb_can = false })
      (on_peer (set_timeout a.elapsed tm_soh) (
        on_peer clear_errors (record (on_peer (send_byte r.ncg_byte) r) { close_prob = negsuc 0 })))

unfoldable pub start : Answers → Receiver → Posted
unfolding top_level_on_entry
start a r =
    posted (record { active = some first_byte_stat; history = none; ctx = top_level_on_entry a r })
