-- ===== src/Sender/Machine.antt =====
-- How the chart of the sender is driven: the `onMessage` of the states, the change of the active
-- state, `StateMgr::postEvent` and the entry at the start.
use y_modem_protocol.Base.{false, Option, none, some}
use y_modem_protocol.Peer.Defs.{Message, tm, kb_c, ser, tm_vl, clear_errors, set_timeout}
use y_modem_protocol.Sender.Defs.{Sender, Answers, on_peer, prep_stat_blk}
use y_modem_protocol.Sender.Chart.{
  State, stat_c, acknak, eot1, one, eoteot, acknakstat, can_state, Target, leaf, non_can,
  final_state, Reaction, ignored, exits, internal, external, or_super, top_level_on_message,
  non_can_on_message, acknak_on_ser, eot1_on_ser, one_on_ser, eoteot_on_ser, stat_c_on_ser,
  stat_c_on_kb_c, acknakstat_on_ser, can_on_kb_c, can_on_ser, can_on_tm,
}

-- The `onMessage` of the active state, with the super classes behind it.
unfoldable pub on_message : State → Answers → Message → Sender → Reaction
unfolding or_super non_can_on_message acknak_on_ser eot1_on_ser one_on_ser eoteot_on_ser
    stat_c_on_ser stat_c_on_kb_c acknakstat_on_ser can_on_kb_c can_on_ser can_on_tm
on_message acknak a (ser c) s = or_super (acknak_on_ser a c s) (non_can_on_message a (ser c) s)
on_message eot1 a (ser c) s = or_super (eot1_on_ser a c s) (non_can_on_message a (ser c) s)
on_message one a (ser c) s = or_super (one_on_ser a c s) (non_can_on_message a (ser c) s)
on_message eoteot a (ser c) s = or_super (eoteot_on_ser a c s) (non_can_on_message a (ser c) s)
on_message stat_c a (ser c) s = or_super (stat_c_on_ser a c s) (non_can_on_message a (ser c) s)
on_message stat_c a kb_c s = or_super (stat_c_on_kb_c s) (non_can_on_message a kb_c s)
on_message acknakstat a (ser c) s =
    or_super (acknakstat_on_ser a c s) (non_can_on_message a (ser c) s)
on_message can_state a kb_c s = or_super (can_on_kb_c s) (top_level_on_message kb_c s)
on_message can_state a (ser c) s = or_super (can_on_ser c s) (top_level_on_message (ser c) s)
on_message can_state a tm s = or_super (can_on_tm s) (top_level_on_message tm s)
on_message can_state a m s = top_level_on_message m s
on_message st a m s = non_can_on_message a m s

-- `active` is `none` in the final state, when the machine no longer runs. `history` is the state in
-- which NON_CAN was left.
pub record Machine : Type 0 where
  pub active : Option State
  pub history : Option State
  pub ctx : Sender

-- The first substate of NON_CAN, without history.
abbrev pub resumed : Option State → State
resumed none = stat_c
resumed (some st) = st

-- Only CAN is entered by leaving NON_CAN, which keeps the state that was active there.
unfoldable pub move : State → Option State → Target → Option State × Option State
move from history (leaf can_state) = (some can_state, some from)
move from history (leaf st) = (some st, history)
move from history non_can = (some (resumed history), history)
move from history final_state = (none, history)

-- How a call of `postEvent` ends: the machine after it, the exception "Not Running", or the end of
-- the process.
pub data Posted : Type 0 where
  posted : Machine → Posted
  not_running process_exit : Posted

unfoldable pub settle : State → Machine → Reaction → Posted
unfolding move
settle st m ignored = posted m
settle st m exits = process_exit
settle st m (internal s) = posted (record m { ctx = s })
settle st m (external t s) =
    let (active, history) = move st m.history t in
    posted (record { active = active; history = history; ctx = s })

unfoldable pub post_in : Option State → Answers → Message → Machine → Posted
unfolding on_message settle
post_in none a msg m = not_running
post_in (some st) a msg m = settle st m (on_message st a msg m.ctx)

unfoldable pub post_event : Answers → Message → Machine → Posted
unfolding post_in
post_event a msg m = post_in m.active a msg m

-- `start`: the entry action of the top level, then StatC is active.
unfoldable pub top_level_on_entry : Answers → Sender → Option Sender
top_level_on_entry a s = elim (prep_stat_blk a s) [
  | none ↦ none
  | some t ↦
      some
        (on_peer (λ p. set_timeout a.elapsed tm_vl (record (clear_errors p) { kb_can = false })) t)
]

unfoldable pub start : Answers → Sender → Posted
unfolding top_level_on_entry
start a s = elim (top_level_on_entry a s) [
  | none ↦ process_exit
  | some t ↦ posted (record { active = some stat_c; history = none; ctx = t })
]
