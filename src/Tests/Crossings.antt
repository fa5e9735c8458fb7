-- ===== src/Tests/Crossings.antt =====
-- The theorems on both peers together, at concrete inputs.
use y_modem_protocol.Base.{refl, [], ◌∷◌, none, take, drop, length-append, arith}
use y_modem_protocol.Crc.Defs.{chunk_sz}
use y_modem_protocol.Text.Defs.{decimal}
use y_modem_protocol.Block.Layout.{block, crc_of}
use y_modem_protocol.Block.Stat.{stat_chunk, Fits, length-stat_chunk}
use y_modem_protocol.Peer.Defs.{fd, minus_one, ser, ack}
use y_modem_protocol.Sender.Defs.{Sender, Answers}
use y_modem_protocol.Sender.Sending.{Sending, next_chunk}
use y_modem_protocol.Sender.WholeFile.{Acks, last, more}
use y_modem_protocol.Sender.FirstBlocks.{Prepared}
use y_modem_protocol.Receiver.Defs.{Receiver}
use y_modem_protocol.Receiver.Session.{Waiting}
use y_modem_protocol.Receiver.Transfer.{Receiving}
use y_modem_protocol.Crossing.{line_bytes}
use y_modem_protocol.Crossing.Whole.{on_medium, Sends, Receives, whole_file_crosses}
use y_modem_protocol.Tests.Data.{
  file_130, name_a, blank, receiver_with, sender_with, delivers, reads,
}

abbrev nothing : Answers
nothing = reads []

abbrev first_bytes : Answers
first_bytes = reads (take chunk_sz file_130)

abbrev two_bytes : Answers
two_bytes = reads (take chunk_sz (drop chunk_sz file_130))

-- Block 1 of the file is prepared, and block 0 was the last one received.
abbrev sending_peer : Sender
sending_peer = sender_with 0 blank (block 1 (next_chunk file_130)) 1

abbrev receiving_peer : Receiver
receiving_peer = receiver_with (fd 3) 0 0

first_prepared : Sending file_130 sending_peer
first_prepared = record {
  s_name = refl;
  s_cancel = refl;
  s_file = refl;
  s_num = omega arith;
  s_buf0 = refl;
  s_buf1 = refl;
  s_read = refl;
  s_block = λ more. refl;
}

file_open_there : Receiving 0 0 file_130 receiving_peer
file_open_there = record {
  array = refl;
  file_open = refl;
  no_cancel = refl;
  in_sync = refl;
  num_last = refl;
  errors = refl;
  few_errors = omega arith;
  left = λ more. refl;
}

later_acks : Acks (drop chunk_sz file_130) ((nothing, ser ack) ∷ (nothing, ser ack) ∷ [])
later_acks = more nothing (drop chunk_sz file_130) _ (omega arith) refl (last nothing)

all_acks : Acks file_130 ((two_bytes, ser ack) ∷ (nothing, ser ack) ∷ (nothing, ser ack) ∷ [])
all_acks = more two_bytes file_130 _ (omega arith) refl later_acks

name-Fits : Fits name_a 130
unfolding decimal
name-Fits = omega arith

abbrev stat_peer : Sender
stat_peer = sender_with 0 (block 0 (stat_chunk name_a 130)) blank 0

stat-Prepared : Prepared 3 (stat_chunk name_a 130) stat_peer
stat-Prepared = record {
  p_name = refl;
  p_cancel = refl;
  p_file = refl;
  p_num = refl;
  p_stat = refl;
  p_buf0 = omega (
    arith,
    length-append (stat_chunk name_a 130) (crc_of (stat_chunk name_a 130)),
    length-stat_chunk name_a 130 name-Fits,
  );
  p_buf1 = refl;
}

abbrev waiting_peer : Receiver
waiting_peer = receiver_with minus_one 0 255

between_files : Waiting waiting_peer
between_files = record {
  w_array = refl;
  w_cancel = refl;
  w_sync = refl;
  w_num = refl;
  w_errors = omega arith;
}

whole_file_crosses_example :
    Sends
      ((first_bytes, ser b'C')
        ∷ (nothing, ser ack)
        ∷ (two_bytes, ser b'C')
        ∷ (nothing, ser ack)
        ∷ (nothing, ser ack)
        ∷ [])
      none
      (on_medium name_a file_130)
      stat_peer
    × Receives
        (delivers [])
        none
        name_a
        file_130
        (line_bytes (on_medium name_a file_130))
        waiting_peer
whole_file_crosses_example =
    whole_file_crosses name_a file_130 3 3 first_bytes nothing two_bytes
      ((nothing, ser ack) ∷ (nothing, ser ack) ∷ []) (delivers []) none none stat_peer waiting_peer
      (omega arith) (omega arith) (omega arith, tt) name-Fits (omega arith) stat-Prepared refl refl
      later_acks between_files refl refl
