-- ===== src/Tests/NextFiles.antt =====
-- The theorems on the sender between two files, at concrete inputs.
use y_modem_protocol.Base.{◌+◌, ◌<◌, ◌≡◌, refl, [], ◌∷◌, none, some, length, replicate, arith}
use y_modem_protocol.Crc.Defs.{chunk_sz}
use y_modem_protocol.Text.Defs.{filename, decimal}
use y_modem_protocol.Block.Layout.{block}
use y_modem_protocol.Block.Stat.{stat_chunk}
use y_modem_protocol.Peer.Defs.{ser, ack, done, end_of_session}
use y_modem_protocol.Sender.Defs.{Sender, Answers, name_at}
use y_modem_protocol.Sender.Chart.{stat_c, eoteot}
use y_modem_protocol.Sender.Machine.{posted, post_event}
use y_modem_protocol.Sender.Runs.{at, stopped, post_all}
use y_modem_protocol.Sender.Resend.{sends}
use y_modem_protocol.Sender.FirstBlocks.{Prepared}
use y_modem_protocol.Sender.NextFile.{next-Prepared, last_file_ends}
use y_modem_protocol.Tests.Data.{name_a, blank, sender_with, reads}

abbrev answers : Answers
answers = reads []

-- A sender with its file still to come, and one that has sent it.
abbrev fresh_sender : Sender
fresh_sender = record (sender_with 0 blank blank 0) { file_name_index = 0 }

abbrev used_sender : Sender
used_sender = sender_with 0 blank blank 3

size_fits : length (filename name_a) + 1 + length (decimal 130) < 128
unfolding decimal filename
size_fits = omega arith

next_name : name_at 0 (name_a ∷ []) ≡ some name_a
unfolding name_at
next_name = refl

no_name : name_at 1 (name_a ∷ []) ≡ none
unfolding name_at
no_name = refl

next-Prepared_example :
    (t : Sender) × (post_event answers (ser ack) (at eoteot none fresh_sender)
      ≡ posted (at stat_c none t))
    × Prepared 3 (stat_chunk (filename name_a) 130) t
    × (t.log ≡ [])
    × (t.result ≡ done ∷ [])
next-Prepared_example =
    next-Prepared answers name_a 3 none fresh_sender refl next_name refl (omega arith) size_fits
      refl refl

last_file_ends_example :
    (t : Sender) × (post_all
        ((answers, ser ack) ∷ (answers, ser b'C') ∷ (answers, ser ack) ∷ [])
        (at eoteot none used_sender)
      ≡ posted (stopped none t))
    × (t.log ≡ sends (block 0 (replicate chunk_sz 0)))
    × (t.result ≡ done ∷ end_of_session ∷ [])
last_file_ends_example = last_file_ends answers answers answers none used_sender refl no_name refl
