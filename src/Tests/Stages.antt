-- ===== src/Tests/Stages.antt =====
-- The theorems on the first stage of the sender, at concrete inputs.
use y_modem_protocol.Base.{
  ℕ, ◌+◌, ◌/◌, ◌%◌, ◌≤◌, ◌≡◌, ◌≢◌, inl, refl, true, false, List, [], ◌∷◌, ◌++◌, some, length, drop,
  replicate, arith,
}
use y_modem_protocol.Crc.Defs.{
  little_endian, crc_register, updcrc, updcrc_loop, updcrc_round, crc_bytes,
}
use y_modem_protocol.Text.Defs.{filename, decimal}
use y_modem_protocol.Block.Layout.{padded}
use y_modem_protocol.Peer.Defs.{fd, wrote, can, done, open_error}
use y_modem_protocol.Receiver.Damage.{Refused}
use y_modem_protocol.PartOne.Defs.{SenderY, File, can_len, gen_blk, send_files}
use y_modem_protocol.PartOne.Layout.{swapped_crc-Refused}
use y_modem_protocol.PartOne.Files.{IsSendable, all_acts, last_block, send_files_lem}
use y_modem_protocol.Tests.Data.{receiver_with, blank}

abbrev one_byte : List ℕ
one_byte = b'a' ∷ []

crc_one : crc_register (padded one_byte) ≡ 37390
unfolding crc_register updcrc updcrc_loop updcrc_round crc_bytes
crc_one = refl

apart : crc_register (padded one_byte) / 256 ≢ crc_register (padded one_byte) % 256
apart e = omega (arith, e, crc_one)

swapped_crc-Refused_example :
    Refused (drop 1 (gen_blk little_endian one_byte 1 blank)) (receiver_with (fd 3) 0 0)
swapped_crc-Refused_example =
    swapped_crc-Refused one_byte blank 1 (receiver_with (fd 3) 0 0) (omega arith) refl apart refl
      refl (inl refl)

abbrev stage : SenderY
stage = record {
  order = little_endian;
  result = [];
  bytes_rd = 0;
  blk_buf = blank;
  blk_num = 0;
  log = [];
}

-- A file `/a`, of one byte, and one that is not there.
abbrev file_one : File
file_one = record {
  name = b'/' ∷ b'a' ∷ [];
  opens = true;
  size = 1;
  reads = one_byte ∷ [] ∷ [];
  closes = true;
}

abbrev file_none : File
file_none = record { name = b'b' ∷ []; opens = false; size = 0; reads = []; closes = true }

abbrev both : List (File × List (List ℕ))
both = (file_one, one_byte ∷ []) ∷ (file_one, one_byte ∷ []) ∷ []

one_fits : length (filename file_one.name) + 1 + length (decimal 1) ≤ 128
unfolding filename decimal
one_fits = omega arith

none_fits : 1 + length (decimal 0) ≤ 128
unfolding decimal
none_fits = omega arith

one-IsSendable : IsSendable file_one (one_byte ∷ [])
one-IsSendable = record {
  opens = refl;
  closes = refl;
  reads = refl;
  chunks = (omega arith, omega arith, tt);
  fits = one_fits;
}

send_files_lem_example :
    ((t : SenderY) × (send_files true 0 (file_one ∷ file_one ∷ []) stage ≡ some t)
      × (t.log ≡ all_acts little_endian both ++ wrote last_block ∷ [])
      × (t.result ≡ done ∷ done ∷ []))
    × ((t : SenderY) × (send_files true 0 (file_one ∷ file_one ∷ file_none ∷ []) stage ≡ some t)
        × (t.log ≡ all_acts little_endian both ++ wrote (replicate can_len can) ∷ [])
        × (t.result ≡ done ∷ done ∷ open_error ∷ []))
send_files_lem_example =
    send_files_lem both file_none [] 0 stage (one-IsSendable, (one-IsSendable, tt)) refl none_fits
