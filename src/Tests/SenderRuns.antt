-- ===== src/Tests/SenderRuns.antt =====
-- The theorems on the sender, at concrete inputs.
use y_modem_protocol.Base.{◌≡◌, refl, [], ◌∷◌, ◌++◌, none, take, drop, replicate, arith}
use y_modem_protocol.Crc.Defs.{chunk_sz}
use y_modem_protocol.Block.Layout.{block}
use y_modem_protocol.Peer.Defs.{minus_one, ser, ack, eot, closed, wrote}
use y_modem_protocol.Sender.Defs.{Sender, Answers, send_blk_prep_next, resend_blk}
use y_modem_protocol.Sender.Chart.{acknak, acknakstat, eot1}
use y_modem_protocol.Sender.Machine.{posted}
use y_modem_protocol.Sender.Runs.{at, post_all}
use y_modem_protocol.Sender.Resend.{sends, logged, resend_blk-send_blk_prep_next}
use y_modem_protocol.Sender.Naks.{naks, resent_all, current, repeat, stat_never_gives_up}
use y_modem_protocol.Sender.Sending.{Sending, next_chunk}
use y_modem_protocol.Sender.WholeFile.{Acks, last, more, transmission, sends_file}
use y_modem_protocol.Sender.FirstBlocks.{Prepared}
use y_modem_protocol.Peer.Defs.{closed}
use y_modem_protocol.Tests.Data.{chunk_a, file_130, blank, sender_with, reads}

abbrev sender : Sender
sender = sender_with 0 blank (block 1 chunk_a) 1

abbrev nothing : Answers
nothing = reads []

resend_blk-send_blk_prep_next_example :
    let t = send_blk_prep_next nothing sender in
    (t.log ≡ sends (block 1 chunk_a))
    × (resend_blk t ≡ logged (sends (block 1 chunk_a)) t)
    × (resend_blk (resend_blk t) ≡ logged (sends (block 1 chunk_a)) (resend_blk t))
resend_blk-send_blk_prep_next_example = resend_blk-send_blk_prep_next nothing sender (omega arith)

stat_never_gives_up_example :
    (post_all (naks (replicate 12 nothing)) (at acknakstat none sender)
      ≡ posted (at acknakstat none (resent_all (replicate 12 nothing) sender)))
    × ((resent_all (replicate 12 nothing) sender).log ≡ repeat 12 (sends (current sender)))
stat_never_gives_up_example = stat_never_gives_up (replicate 12 nothing) none sender refl

-- The sender once the first block of a file of 130 bytes is prepared.
sending : Sending file_130 (sender_with 0 blank (block 1 (next_chunk file_130)) 1)
sending = record {
  s_name = refl;
  s_cancel = refl;
  s_file = refl;
  s_num = omega arith;
  s_buf0 = refl;
  s_buf1 = refl;
  s_read = refl;
  s_block = λ more. refl;
}

abbrev two_bytes : Answers
two_bytes = reads (take chunk_sz (drop chunk_sz file_130))

acks : Acks file_130 ((two_bytes, ser ack) ∷ (nothing, ser ack) ∷ (nothing, ser ack) ∷ [])
acks =
    more two_bytes file_130 _ (omega arith) refl
      (more nothing (drop chunk_sz file_130) _ (omega arith) refl (last nothing))

sends_file_example :
    (t : Sender) × (post_all
        ((two_bytes, ser ack) ∷ (nothing, ser ack) ∷ (nothing, ser ack) ∷ [])
        (at acknak none (sender_with 0 blank (block 1 (next_chunk file_130)) 1))
      ≡ posted (at eot1 none t))
    × (t.log ≡ transmission 2 1 file_130 ++ (wrote (eot ∷ []) ∷ closed ∷ []))
    × (t.transferring_file ≡ minus_one)
sends_file_example =
    sends_file file_130 ((two_bytes, ser ack) ∷ (nothing, ser ack) ∷ (nothing, ser ack) ∷ []) none
      (sender_with 0 blank (block 1 (next_chunk file_130)) 1) acks sending

abbrev first_bytes : Answers
first_bytes = reads (take chunk_sz file_130)

prepared : Prepared 3 chunk_a (sender_with 0 (block 0 chunk_a) blank 0)
prepared = record {
  p_name = refl;
  p_cancel = refl;
  p_file = refl;
  p_num = refl;
  p_stat = refl;
  p_buf0 = refl;
  p_buf1 = refl;
}
