-- ===== src/Sender/Chart.antt =====
-- ySenderSS.cpp: the state chart of the sender. A state is a class, and a message that its handler
-- does not take goes on to its super class. Entering NON_CAN from CAN goes to the state that was
-- left for CAN (`myHistory`); the calls of the state manager that run no code of the chart are the
-- function `move`.
use y_modem_protocol.Base.{
  ℕ, ◌-◌, Bool, true, false, not, ◌&&◌, ◌||◌, ltb, leb, ◌==◌, if◌then◌else◌, [], ◌∷◌, Option, none,
  some, is_some,
}
use y_modem_protocol.Base.Int.{pos, negsuc}
use y_modem_protocol.Peer.Defs.{
  is_minus_one, Outcome, done, kb_cancelled, kb_cancelled_open_err, kb_cancelled_from_stat_c,
  timeout, excessive_naks, open_error, end_of_session, rcv_cancelled, Message, tm, kb_c, ser, ack,
  nak, can, eot, err_b, tm_vl, tm_2char, tm_char, send_byte, add_result, count_error, clear_errors,
  set_timeout, reduce_timeout, push_timeout, pop_timeout,
}
use y_modem_protocol.Sender.Defs.{
  Sender, Answers, on_peer, prep_stat_blk, send_blk_prep_next, resend_blk, close_transferred_file,
  clear_can_now, cans,
}

-- The states without substates.
pub data State : Type 0 where
  stat_c acknak eot1 one eoteot acknakstat can_state : State

pub data Target : Type 0 where
  leaf : State → Target
  non_can final_state : Target

-- What a handler does: nothing, an internal transition, a transition to a target, or the `exit` of
-- the process.
pub data Reaction : Type 0 where
  ignored exits : Reaction
  internal : Sender → Reaction
  external : Target → Sender → Reaction

-- `super::onMessage(mesg)` at the end of a handler.
unfoldable pub or_super : Reaction → Reaction → Reaction
or_super ignored up = up
or_super r up = r

-- A transition whose effect calls `prepStatBlk`.
unfoldable pub external_if : Target → Option Sender → Reaction
external_if t none = exits
external_if t (some s) = external t s

abbrev pub has_bytes : Sender → Bool
has_bytes s = elim s.bytes_rd [ pos n ↦ not (n == 0) | negsuc n ↦ true ]

abbrev pub vl : Answers → Sender → Sender
vl a s = on_peer (set_timeout a.elapsed tm_vl) s

abbrev pub close_file : Sender → Sender
close_file s = on_peer (λ p. (close_transferred_file p).0) s

-- `ctx.cans(); ctx.closeTransferredFile(); ctx.result += o;`
unfoldable pub give_up : Outcome → Sender → Sender
give_up o s = on_peer (add_result o) (close_file (on_peer cans s))

unfoldable pub top_level_on_tm : Sender → Reaction
top_level_on_tm s = external final_state (give_up (if s.kb_can then kb_cancelled else timeout) s)

unfoldable pub top_level_on_ser : ℕ → Sender → Reaction
top_level_on_ser c s =
    if s.kb_can && (c == ack || c == nak || c == b'C')
    then external final_state (give_up kb_cancelled s)
    else ignored

unfoldable pub top_level_on_message : Message → Sender → Reaction
unfolding top_level_on_tm top_level_on_ser
top_level_on_message tm s = top_level_on_tm s
top_level_on_message (ser c) s = top_level_on_ser c s
top_level_on_message _ s = ignored

unfoldable pub non_can_on_ser : Answers → ℕ → Sender → Reaction
non_can_on_ser a c s =
    if c == nak && leb err_b s.err_cnt
    then external final_state (give_up excessive_naks s)
    else if c == can
    then external (leaf can_state) (on_peer (push_timeout a.elapsed tm_char) s)
    else ignored

unfoldable pub non_can_on_kb_c : Sender → Reaction
non_can_on_kb_c s =
    if not s.kb_can
    then internal (on_peer (λ p. reduce_timeout (tm_vl - tm_2char) (record p { kb_can = true })) s)
    else ignored

unfoldable pub non_can_on_message : Answers → Message → Sender → Reaction
unfolding or_super non_can_on_ser non_can_on_kb_c top_level_on_message
non_can_on_message a (ser c) s = or_super (non_can_on_ser a c s) (top_level_on_message (ser c) s)
non_can_on_message a kb_c s = or_super (non_can_on_kb_c s) (top_level_on_message kb_c s)
non_can_on_message a m s = top_level_on_message m s

unfoldable pub acknak_on_ser : Answers → ℕ → Sender → Reaction
acknak_on_ser a c s =
    if (c == nak || c == b'C' && s.first_blk) && ltb s.err_cnt err_b && not s.kb_can
    then internal (vl a (on_peer count_error (resend_blk s)))
    else if c == ack && not (has_bytes s) && not s.kb_can
    then external (leaf eot1) (vl a (close_file (on_peer (λ p. clear_errors (send_byte eot p)) s)))
    else if c == ack && has_bytes s && not s.kb_can
    then internal
        (record (vl a (on_peer clear_errors (send_blk_prep_next a s))) { first_blk = false })
    else ignored

unfoldable pub eot1_on_ser : Answers → ℕ → Sender → Reaction
unfolding external_if
eot1_on_ser a c s =
    if c == b'C' && s.first_blk && ltb s.err_cnt err_b
    then internal (vl a (on_peer (λ p. count_error (send_byte eot p)) s))
    else if c == ack && not s.kb_can
    then external_if (leaf stat_c)
        (elim (prep_stat_blk a s) [ some t ↦ some (vl a t) | none ↦ none ])
    else if c == nak && not s.kb_can
    then external (leaf eoteot)
        (record (vl a (on_peer (λ p. clear_errors (send_byte eot p)) s)) { first_blk = false })
    else ignored

unfoldable pub one_on_ser : Answers → ℕ → Sender → Reaction
one_on_ser a c s =
    if c == b'C' && not (has_bytes s) && not s.kb_can
    then external (leaf eot1) (close_file (on_peer clear_errors (vl a (on_peer (send_byte eot) s))))
    else if c == b'C' && has_bytes s && not s.kb_can
    then external (leaf acknak) (on_peer clear_errors (vl a (send_blk_prep_next a s)))
    else if c == nak && not s.kb_can
    then external (leaf acknakstat) (vl a (on_peer count_error (resend_blk s)))
    else ignored

unfoldable pub eoteot_on_ser : Answers → ℕ → Sender → Reaction
unfolding external_if
eoteot_on_ser a c s =
    if c == nak && not s.kb_can && ltb s.err_cnt err_b
    then internal (vl a (on_peer (λ p. count_error (send_byte eot p)) s))
    else if c == ack && not s.kb_can
    then external_if (leaf stat_c) (elim (prep_stat_blk a (on_peer (add_result done) s)) [
      | some t ↦ some (vl a t)
      | none ↦ none
    ])
    else ignored

unfoldable pub stat_c_on_ser : Answers → ℕ → Sender → Reaction
stat_c_on_ser a c s =
    if c == b'C' && is_some s.file_name && is_minus_one s.transferring_file
    then external final_state (on_peer (λ p. add_result open_error (cans p)) s)
    else if c == b'C' && not (is_minus_one s.transferring_file)
    then external (leaf acknakstat) (vl a (on_peer clear_errors (send_blk_prep_next a s)))
    else ignored

unfoldable pub stat_c_on_kb_c : Sender → Reaction
stat_c_on_kb_c s =
    if is_minus_one s.transferring_file
    then external final_state (on_peer (λ p. record p { result = kb_cancelled_open_err ∷ [] }) s)
    else external final_state
        (on_peer (λ p. record p { result = kb_cancelled_from_stat_c ∷ [] }) (close_file s))

unfoldable pub acknakstat_on_ser : Answers → ℕ → Sender → Reaction
acknakstat_on_ser a c s =
    if c == ack && is_some s.file_name && not s.kb_can
    then external (leaf one) (vl a (record s { first_blk = true }))
    else if (c == nak || c == b'C') && not s.kb_can
    then internal (vl a (on_peer count_error (resend_blk s)))
    else if c == ack && not (is_some s.file_name)
    then external final_state (on_peer (add_result end_of_session) s)
    else ignored

unfoldable pub can_on_kb_c : Sender → Reaction
can_on_kb_c s = internal (on_peer (λ p. record p { kb_can = true }) s)

unfoldable pub can_on_ser : ℕ → Sender → Reaction
can_on_ser c s =
    if not (c == can) && not s.kb_can
    then external non_can (on_peer pop_timeout s)
    else if c == can
    then external final_state
        (on_peer (λ p. add_result rcv_cancelled (clear_can_now p)) (close_file s))
    else ignored

unfoldable pub can_on_tm : Sender → Reaction
can_on_tm s = if not s.kb_can then external non_can (on_peer pop_timeout s) else ignored
