-- ===== src/Receiver/Chart.antt =====
-- yReceiverSS.cpp: the handlers of the states of the receiver's chart. A message that a handler does
-- not take goes on to the handler of its super class.
use y_modem_protocol.Base.{
  ℕ, Bool, true, false, not, ◌&&◌, ◌||◌, ltb, leb, ◌==◌, if◌then◌else◌, Option, none, some,
}
use y_modem_protocol.Base.Int.{pos, negsuc}
use y_modem_protocol.Peer.Defs.{
  is_minus_one, Outcome, done, end_of_session, kb_cancelled, kb_cancelled_delayed,
  kb_cancelled_immediate, excessive_errors, excessive_eots, excessive_errors_at_stat, creat_error,
  close_error, loss_of_synchronization, loss_of_sync_at_stat_blk, snd_cancelled, Message, cont, tm,
  kb_c, ser, ack, nak, soh, can, eot, err_b, tm_soh, tm_2char, send_byte, add_result, count_error,
  clear_errors, set_timeout, push_timeout, pop_timeout,
}
use y_modem_protocol.Receiver.Defs.{
  Receiver, Answers, on_peer, purge, get_rest_blk, write_chunk, open_file_for_transfer,
  close_transferred_file, clear_can_now, cans, check_for_another_file,
}

-- The states without substates; `first_byte_data` and `eot_data` are those of DataCancelable.
pub data State : Type 0 where
  first_byte_stat first_byte_data eot_data are_we_done can_state : State
  cond_data cond_check cond_open cond_eot cond_stat : State

pub data Target : Type 0 where
  leaf : State → Target
  data_cancelable non_can final_state : Target

-- What a handler does: nothing, an internal transition, a transition to a target, or to let an
-- exception of `stoi` through.
pub data Reaction : Type 0 where
  ignored throws : Reaction
  internal : Receiver → Reaction
  external : Target → Receiver → Reaction

-- `super::onMessage(mesg)` at the end of a handler.
unfoldable pub or_super : Reaction → Reaction → Reaction
or_super ignored up = up
or_super r up = r

unfoldable pub external_if : Target → Option Receiver → Reaction
external_if t none = throws
external_if t (some r) = external t r

abbrev pub soh_timeout : Answers → Receiver → Receiver
soh_timeout a r = on_peer (set_timeout a.elapsed tm_soh) r

abbrev pub send : ℕ → Receiver → Receiver
send b r = on_peer (send_byte b) r

abbrev pub add : Outcome → Receiver → Receiver
add o r = on_peer (add_result o) r

abbrev pub another_error : Receiver → Receiver
another_error r = on_peer count_error r

-- `!closeProb`
abbrev pub closed_well : Receiver → Bool
closed_well r = elim r.close_prob [ pos n ↦ n == 0 | negsuc n ↦ false ]

unfoldable pub top_level_on_kb_c : Receiver → Reaction
top_level_on_kb_c r = internal (on_peer (λ p. record p { kb_can = true }) r)

unfoldable pub top_level_on_ser : Receiver → Reaction
top_level_on_ser r =
    external final_state
      (add (if r.kb_can then kb_cancelled_delayed else excessive_errors) (cans (purge r)))

unfoldable pub top_level_on_tm : Receiver → Reaction
top_level_on_tm r =
    external final_state (add (if r.kb_can then kb_cancelled else excessive_errors) (cans r))

unfoldable pub top_level_on_message : Message → Receiver → Reaction
unfolding top_level_on_kb_c top_level_on_ser top_level_on_tm
top_level_on_message kb_c r = top_level_on_kb_c r
top_level_on_message (ser c) r = top_level_on_ser r
top_level_on_message tm r = top_level_on_tm r
top_level_on_message cont r = ignored

unfoldable pub non_can_on_ser : Answers → ℕ → Receiver → Reaction
non_can_on_ser a c r =
    if not r.kb_can && not (c == can)
    then internal (purge r)
    else if c == can
    then external (leaf can_state) (on_peer (push_timeout a.elapsed tm_2char) r)
    else ignored

unfoldable pub non_can_on_tm : Answers → Receiver → Reaction
non_can_on_tm a r =
    if ltb r.err_cnt err_b && not r.kb_can
    then internal (
        soh_timeout a
          (another_error (send (if is_minus_one r.transferring_file then r.ncg_byte else nak) r)))
    else ignored

unfoldable pub non_can_on_message : Answers → Message → Receiver → Reaction
unfolding or_super non_can_on_ser non_can_on_tm top_level_on_message
non_can_on_message a (ser c) r = or_super (non_can_on_ser a c r) (top_level_on_message (ser c) r)
non_can_on_message a tm r = or_super (non_can_on_tm a r) (top_level_on_message tm r)
non_can_on_message a m r = top_level_on_message m r

unfoldable pub data_on_ser : Answers → ℕ → Receiver → Reaction
data_on_ser a c r =
    let received = get_rest_blk a.got r in
    if not r.kb_can && c == soh
    then external (leaf cond_data) (
        if received.good_blk1st
        then record (on_peer clear_errors received) { another_file = 0 }
        else another_error received)
    else ignored

unfoldable pub data_on_message : Answers → Message → Receiver → Reaction
unfolding or_super data_on_ser non_can_on_message
data_on_message a (ser c) r = or_super (data_on_ser a c r) (non_can_on_message a (ser c) r)
data_on_message a m r = non_can_on_message a m r

unfoldable pub first_byte_data_on_ser : Answers → ℕ → Receiver → Reaction
first_byte_data_on_ser a c r =
    if not r.kb_can && c == eot
    then external (leaf eot_data) (soh_timeout a (another_error (send nak (purge r))))
    else ignored

unfoldable pub eot_data_on_ser : Answers → ℕ → Receiver → Reaction
eot_data_on_ser a c r =
    if c == eot then external (leaf cond_eot) (close_transferred_file a.close_ok r) else ignored

unfoldable pub cond_data_on_kb_c : Receiver → Reaction
cond_data_on_kb_c r = external final_state (add kb_cancelled_immediate (cans r))

-- What is sent for the block, and the chunk written if it is new.
unfoldable pub answer_block : Receiver → Receiver
answer_block r =
    let answered =
      if r.good_blk
      then (if r.another_file == 0 then send ack r else send b'C' (send ack r))
      else send nak r in
    if r.good_blk1st then write_chunk answered else answered

unfoldable pub cond_data_on_tm : Answers → Receiver → Reaction
cond_data_on_tm a r =
    if not r.sync_loss && ltb r.err_cnt err_b
    then external data_cancelable (soh_timeout a (answer_block r))
    else if r.sync_loss || leb err_b r.err_cnt
    then external final_state (
        add (if r.sync_loss then loss_of_synchronization else excessive_errors)
          (close_transferred_file a.close_ok (cans r)))
    else ignored

unfoldable pub cond_data_on_ser : Receiver → Reaction
cond_data_on_ser r = internal (purge r)

unfoldable pub first_byte_stat_on_ser : Answers → ℕ → Receiver → Reaction
first_byte_stat_on_ser a c r =
    let received = get_rest_blk a.got r in
    if c == eot && closed_well r && leb err_b r.err_cnt
    then external final_state (add excessive_eots (cans r))
    else if c == eot && closed_well r && ltb r.err_cnt err_b
    then internal (soh_timeout a (another_error (send r.ncg_byte (send ack r))))
    else if not r.kb_can && c == soh
    then external (leaf cond_stat) (
        if closed_well received
        then record (on_peer clear_errors received) { close_prob = negsuc 0 }
        else received)
    else ignored

unfoldable pub cond_check_on_cont : Answers → Receiver → Reaction
unfolding external_if
cond_check_on_cont a r =
    if r.another_file == 0
    then external (leaf are_we_done) (soh_timeout a (send ack r))
    else external_if (leaf cond_open) (open_file_for_transfer a.creat r)

unfoldable pub cond_open_on_cont : Answers → Receiver → Reaction
cond_open_on_cont a r =
    if not (is_minus_one r.transferring_file)
    then external (leaf first_byte_data) (soh_timeout a (send r.ncg_byte (send ack r)))
    else external final_state (add creat_error (cans r))

unfoldable pub cond_eot_on_cont : Answers → Receiver → Reaction
cond_eot_on_cont a r =
    if closed_well r
    then external (leaf first_byte_stat)
        (soh_timeout a (on_peer clear_errors (add done (send r.ncg_byte (send ack r)))))
    else external final_state (add close_error (cans r))

unfoldable pub cond_stat_on_cont : Answers → Receiver → Reaction
cond_stat_on_cont a r =
    if not r.sync_loss && ltb r.err_cnt err_b && not r.good_blk
    then external (leaf first_byte_stat) (soh_timeout a (another_error (send nak r)))
    else if not r.sync_loss && ltb r.err_cnt err_b && r.good_blk
    then external (leaf cond_check) (check_for_another_file r)
    else if r.sync_loss || leb err_b r.err_cnt
    then external final_state
        (add (if r.sync_loss then loss_of_sync_at_stat_blk else excessive_errors_at_stat) (cans r))
    else ignored

unfoldable pub are_we_done_on_tm : Receiver → Reaction
are_we_done_on_tm r = external final_state (add end_of_session r)

unfoldable pub are_we_done_on_ser : Answers → ℕ → Receiver → Reaction
are_we_done_on_ser a c r =
    if not r.kb_can && c == soh
    then external (leaf cond_stat) (another_error (get_rest_blk a.got r))
    else ignored

unfoldable pub can_on_ser : Answers → ℕ → Receiver → Reaction
can_on_ser a c r =
    if not (c == can) && not r.kb_can
    then external non_can (on_peer pop_timeout (purge r))
    else if c == can
    then external final_state
        (add snd_cancelled (clear_can_now (close_transferred_file a.close_ok r)))
    else ignored

unfoldable pub can_on_tm : Receiver → Reaction
can_on_tm r = if not r.kb_can then external non_can (on_peer pop_timeout r) else ignored
