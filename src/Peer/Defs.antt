-- ===== src/Peer/Defs.antt =====
-- The members of `PeerY` and its operations. A call that writes to the medium, or that waits for or
-- discards what came from it, is a step of the peer's log; a `PE` wrapper that meets an error ends
-- the process, so the model is of the runs where those calls succeed.
use y_modem_protocol.Base.{ℕ, ◌+◌, ◌*◌, ◌%◌, ◌^◌, Bool, true, false, List, [], ◌∷◌, ◌++◌}
use y_modem_protocol.Base.Int.{ℤ, pos, ◌+ℤ◌, ◌-ℤ◌}

-- The control characters.
abbrev pub soh : ℕ
soh = 0x01

abbrev pub eot : ℕ
eot = 0x04

abbrev pub ack : ℕ
ack = 0x06

abbrev pub nak : ℕ
nak = 0x15

abbrev pub can : ℕ
can = 0x18

abbrev pub ctrl_z : ℕ
ctrl_z = 0x1A

abbrev pub can_len : ℕ
can_len = 8

-- `errB`, the number of errors in a row that are allowed.
abbrev pub err_b : ℕ
err_b = 10

-- The timeouts under FAST_SIM, as the `int` that `tm` is given: 15, 0.9, 0.4 and 0.2 times
-- UNITS_PER_SEC, which is 10.
abbrev pub tm_vl : ℕ
tm_vl = 150

abbrev pub tm_soh : ℕ
tm_soh = 9

abbrev pub tm_2char : ℕ
tm_2char = 4

abbrev pub tm_char : ℕ
tm_char = 2

abbrev pub usecs_per_unit : ℕ
usecs_per_unit = 100000

-- `int transferringFileD`: a descriptor from the system, or one of the two negative marks.
pub data Descriptor : Type 0 where
  fd : ℕ → Descriptor
  minus_one minus_two : Descriptor

-- `transferringFileD > -1`
abbrev pub is_open : Descriptor → Bool
is_open (fd n) = true
is_open _ = false

-- `transferringFileD == -1`
abbrev pub is_minus_one : Descriptor → Bool
is_minus_one minus_one = true
is_minus_one _ = false

-- The pieces of text of `result`.
pub data Outcome : Type 0 where
  done end_of_session : Outcome
  kb_cancelled kb_cancelled_delayed kb_cancelled_immediate kb_cancelled_open_err : Outcome
  kb_cancelled_from_stat_c : Outcome
  timeout excessive_naks excessive_errors excessive_eots excessive_errors_at_stat : Outcome
  open_error creat_error close_error loss_of_synchronization loss_of_sync_at_stat_blk : Outcome
  rcv_cancelled snd_cancelled : Outcome

-- What a peer does at the medium, at its files and in time, in order: `created` is a call of `creat`
-- with that name, which may fail, `stored` has bytes written to it, and `slept` is in milliseconds.
pub data Action : Type 0 where
  wrote : List ℕ → Action
  drained dumped purged cleared closed : Action
  created stored : List ℕ → Action
  slept : ℕ → Action

pub record Peer : Type 0 where
  pub result : List Outcome
  pub err_cnt : ℕ
  pub transferring_file : Descriptor
  pub kb_can : Bool
  pub absolute_timeout : ℤ
  pub hold_timeout : ℤ
  pub log : List Action

pub data Message : Type 0 where
  cont tm kb_c : Message
  ser : ℕ → Message

unfoldable pub act : Action → Peer → Peer
act a p = record p { log = p.log ++ a ∷ [] }

-- The logging of `reportInfo` is left out.
unfoldable pub send_byte : ℕ → Peer → Peer
unfolding act
send_byte byte p = act (wrote (byte ∷ [])) p

unfoldable pub add_result : Outcome → Peer → Peer
add_result o p = record p { result = p.result ++ o ∷ [] }

-- `++errCnt`, on an `unsigned`.
unfoldable pub count_error : Peer → Peer
count_error p = record p { err_cnt = (p.err_cnt + 1) % 2 ^ 32 }

unfoldable pub clear_errors : Peer → Peer
clear_errors p = record p { err_cnt = 0 }

-- `elapsed` is what `elapsed_usecs()` returns at the call.
unfoldable pub set_timeout : ℕ → ℕ → Peer → Peer
unfolding ◌+ℤ◌
set_timeout elapsed units p = record p {
  absolute_timeout = pos elapsed +ℤ pos (units * usecs_per_unit);
}

unfoldable pub reduce_timeout : ℕ → Peer → Peer
unfolding ◌-ℤ◌
reduce_timeout units p = record p {
  absolute_timeout = p.absolute_timeout -ℤ pos (units * usecs_per_unit);
}

unfoldable pub push_timeout : ℕ → ℕ → Peer → Peer
unfolding ◌+ℤ◌
push_timeout elapsed units p = record p {
  hold_timeout = p.absolute_timeout;
  absolute_timeout = pos elapsed +ℤ pos (units * usecs_per_unit);
}

unfoldable pub pop_timeout : Peer → Peer
pop_timeout p = record p { absolute_timeout = p.hold_timeout }
