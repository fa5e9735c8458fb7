-- ===== src/Tests/Data.antt =====
-- The peers, blocks and files of the examples.
use y_modem_protocol.Base.{ℕ, true, false, List, [], ◌∷◌, some, replicate}
use y_modem_protocol.Base.Int.{pos, negsuc}
use y_modem_protocol.Crc.Defs.{little_endian}
use y_modem_protocol.Peer.Defs.{Peer, Descriptor, fd}
use y_modem_protocol.Receiver.Defs.{Receiver}
use y_modem_protocol.Sender.Defs.{Sender}

abbrev pub chunk_a : List ℕ
chunk_a = replicate 128 b'a'

-- A file of a whole chunk and two bytes more.
abbrev pub file_130 : List ℕ
file_130 = replicate 130 b'a'

abbrev pub name_a : List ℕ
name_a = b'a' ∷ []

abbrev pub blank : List ℕ
blank = replicate 133 0

abbrev pub peer_with : Descriptor → ℕ → Peer
peer_with d errs = record {
  result = [];
  err_cnt = errs;
  transferring_file = d;
  kb_can = false;
  absolute_timeout = pos 0;
  hold_timeout = pos 0;
  log = [];
}

abbrev pub receiver_with : Descriptor → ℕ → ℕ → Receiver
receiver_with d errs num = record {
  peer = peer_with d errs;
  order = little_endian;
  close_prob = negsuc 0;
  another_file = 0;
  ncg_byte = b'C';
  good_blk = false;
  good_blk1st = false;
  sync_loss = false;
  bytes_remaining = pos 130;
  rcv_blk = replicate 163 0;
  num_last_good_blk = num;
}

abbrev pub sender_with : ℕ → List ℕ → List ℕ → ℕ → Sender
sender_with errs buf0 buf1 num = record {
  peer = peer_with (fd 3) errs;
  order = little_endian;
  bytes_rd = pos 128;
  file_name = some name_a;
  first_blk = false;
  file_names = name_a ∷ [];
  file_name_index = 1;
  blk_buf0 = buf0;
  blk_buf1 = buf1;
  blk_num = num;
}

-- What the system answers to the receiver, and to the sender.
abbrev pub delivers : List ℕ → y_modem_protocol.Receiver.Defs.Answers
delivers got = record { elapsed = 0; got = got; creat = some 3; close_ok = true }

abbrev pub reads : List ℕ → y_modem_protocol.Sender.Defs.Answers
reads got = record { elapsed = 0; opened = some 3; size = 130; got = got }
