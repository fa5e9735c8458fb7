-- ===== src/Tests/Mediums.antt =====
-- The theorems on the mediums and on Part 2, at concrete inputs.
use y_modem_protocol.Base.{
  ℕ, ◌-◌, ◌<◌, ◌≡◌, inl, inr, refl, List, [], ◌∷◌, ◌++◌, some, length, take, drop, replicate, arith,
}
use y_modem_protocol.Crc.Defs.{little_endian}
use y_modem_protocol.Peer.Defs.{fd, ack, nak, eot, soh}
use y_modem_protocol.Receiver.Accept.{rest_of}
use y_modem_protocol.Receiver.Damage.{Refused}
use y_modem_protocol.Medium.Defs.{Medium, passed, new_medium, msg_from_term2, msg_from_term1}
use y_modem_protocol.Medium.Arrays.{flipped, omitted}
use y_modem_protocol.Medium.Stream.{IsInStep, stepped}
use y_modem_protocol.Medium.Passed.{msg_from_term2-passed}
use y_modem_protocol.Medium.Invariant.{KeepsStep, messages-KeepsStep}
use y_modem_protocol.Medium.Bytes.{HasCounted, becomes_all, pass_bytes, pass_bytes-becomes}
use y_modem_protocol.Medium.Damage.{pass_reads, bytes_of, IsCalm, corrupted_block-Refused}
use y_modem_protocol.PartTwo.Receiver.{ReceiverY, new_receiver, receive_data}
use y_modem_protocol.PartTwo.Stored.{on_line, acked_and_stored, stores_every_block}
use y_modem_protocol.PartTwo.Sender.{SenderY, resend_loop}
use y_modem_protocol.PartTwo.Resent.{sends, times, resends_without_bound}
use y_modem_protocol.PartTwo.Places.{block_below}
use y_modem_protocol.Tests.Data.{chunk_a, receiver_with, blank}

-- A medium that has passed on `n` bytes, the first places of an error still ahead.
abbrev medium_at : ℕ → Medium
medium_at n = record new_medium { from_t2_byte_count = n }

abbrev five : List ℕ
five = 1 ∷ 2 ∷ 3 ∷ 4 ∷ 5 ∷ []

in_step : (n : ℕ) → n < 264 → IsInStep (medium_at n)
in_step n h = record {
  corrupt_ahead = h;
  corrupt_near = omega arith;
  drop_ahead = omega arith;
  drop_near = omega arith;
}

-- The fourth byte has the place 264.
msg_from_term2-passed_example :
    msg_from_term2 five (medium_at 260)
    ≡ passed (1 ∷ 2 ∷ 3 ∷ 251 ∷ 5 ∷ []) [] (stepped 5 (medium_at 260))
unfolding flipped omitted
msg_from_term2-passed_example =
    msg_from_term2-passed five (medium_at 260) (in_step 260 (omega arith)) (omega arith)
      (omega arith) (omega arith) (omega arith)

messages-KeepsStep_example :
    KeepsStep (msg_from_term2 five (medium_at 260))
    × KeepsStep (msg_from_term1 five (medium_at 260))
    × IsInStep new_medium
messages-KeepsStep_example =
    messages-KeepsStep five (medium_at 260) (in_step 260 (omega arith)) (omega arith) (omega arith)

-- The byte to come has the place 659.
abbrev at_drop : Medium
at_drop = record new_medium { from_t2_byte_count = 658; corrupt_threshold = 1054 }

-- Eight ACKs: a NAK for the sixth, nothing for the seventh, and glitch byte 0 before the fourth.
abbrev eight : List ℕ
eight = replicate 8 ack

pass_bytes-becomes_example :
    ((pass_bytes eight new_medium).0 ≡ ack ∷ ack ∷ ack ∷ 0 ∷ ack ∷ ack ∷ nak ∷ ack ∷ [])
    × HasCounted 8 ((pass_bytes eight new_medium).1)
unfolding becomes_all
pass_bytes-becomes_example =
    pass_bytes-becomes eight 0 new_medium (record { t1_count = refl; sent = refl; glitches = refl })
      (omega arith)

-- A block behind its SOH, in three reads, of which the last byte of the chunk is changed.
abbrev behind_soh : List ℕ
behind_soh = rest_of 1 chunk_a

abbrev three_reads : List (List ℕ)
three_reads = take 70 behind_soh ∷ take 61 (drop 70 behind_soh) ∷ drop 131 behind_soh ∷ []

calm : IsCalm 132 (medium_at 134)
calm = record {
  in_step = in_step 134 (omega arith);
  no_drop = omega arith;
  small = omega arith;
  no_glitch = inr (refl, omega arith);
}

corrupted_block-Refused_example :
    Refused ((pass_reads three_reads (medium_at 134)).0) (receiver_with (fd 3) 0 0)
unfolding bytes_of
corrupted_block-Refused_example =
    corrupted_block-Refused three_reads (medium_at 134) 1 b'a' (replicate 127 b'a') []
      (receiver_with (fd 3) 0 0)
      (omega arith, omega arith, (omega arith, omega arith, (omega arith, omega arith, tt))) calm
      refl refl refl (omega arith) refl refl (inl refl)

stores_every_block_example :
    (t : ReceiverY) × (receive_data 3
        (on_line ((1, chunk_a) ∷ (1, chunk_a) ∷ []) (eot ∷ eot ∷ []))
        (new_receiver little_endian blank)
      ≡ some (eot ∷ [], t))
    × (t.log ≡ acked_and_stored ((1, chunk_a) ∷ (1, chunk_a) ∷ []))
    × (length t.rcv_blk ≡ 133)
stores_every_block_example =
    stores_every_block ((1, chunk_a) ∷ (1, chunk_a) ∷ []) eot (eot ∷ [])
      (new_receiver little_endian blank) (omega arith, refl, (omega arith, refl, tt)) (omega arith)
      refl

abbrev sender_two : SenderY
sender_two = record {
  order = little_endian;
  result = [];
  err_cnt = 0;
  transferring_file = fd 3;
  bytes_rd = 128;
  file_names = (b'a' ∷ []) ∷ [];
  file_name_index = 1;
  blk_num = 1;
  blk_buf = blank;
  sent_buf = blank;
  log = [];
}

-- Twenty NAKs, twice the bound.
resends_without_bound_example :
    (t : SenderY) × (resend_loop (replicate 20 nak ++ (ack ∷ [])) sender_two ≡ some ([], t))
    × (t.log ≡ times 20 (sends blank))
    × (t.err_cnt ≡ 0)
resends_without_bound_example =
    resends_without_bound 20 ack [] sender_two (omega arith) (omega arith)

abbrev at_394 : y_modem_protocol.PartTwo.Medium.Medium
at_394 = record { byte_count = 394; ack_received = 0 }

block_below_example :
    (n : y_modem_protocol.PartTwo.Medium.Medium) × (y_modem_protocol.PartTwo.Medium.msg_from_term2
        (eot ∷ [])
        []
        at_394
      ≡ y_modem_protocol.PartTwo.Medium.passed (eot ∷ []) n)
    × (n.byte_count ≡ 395)
    × (y_modem_protocol.PartTwo.Medium.msg_from_term2 (soh ∷ []) behind_soh n
        ≡ y_modem_protocol.PartTwo.Medium.below (n.byte_count - 395))
block_below_example = block_below eot behind_soh at_394 (omega arith) (omega arith) (omega arith)
