-- ===== src/Tests/ReceiverRuns.antt =====
-- The receiver's theorems on blocks and files, at concrete inputs.
use y_modem_protocol.Base.{
  ℕ, zero, suc, ◌≡◌, inl, refl, ap, List, [], ◌∷◌, ◌++◌, none, some, length, drop, replicate,
  AreBytes, write_at, arith,
}
use y_modem_protocol.Base.Int.{pos}
use y_modem_protocol.Crc.Defs.{chunk_sz}
use y_modem_protocol.Crc.Chunk.{crc_register-lt}
use y_modem_protocol.Text.Defs.{stoi, decimal}
use y_modem_protocol.Block.Defs.{complement}
use y_modem_protocol.Block.Layout.{padded, crc_of}
use y_modem_protocol.Block.Stat.{stat_chunk, Fits}
use y_modem_protocol.Peer.Defs.{fd, minus_one, Message, ser, tm, soh, created, wrote, ack}
use y_modem_protocol.Receiver.Defs.{Receiver, Answers, stat_name, stat_size}
use y_modem_protocol.Receiver.Chart.{first_byte_data, first_byte_stat}
use y_modem_protocol.Receiver.Machine.{posted, post_event}
use y_modem_protocol.Receiver.Runs.{at}
use y_modem_protocol.Receiver.Accept.{rest_of}
use y_modem_protocol.Receiver.Blocks.{get_rest_blk-next}
use y_modem_protocol.Receiver.Damage.{
  wrong_length, Refused, changed_bytes-Refused, Accepted, get_rest_blk-Accepted,
}
use y_modem_protocol.Receiver.Write.{piece}
use y_modem_protocol.Receiver.StatBlock.{stat_block-read}
use y_modem_protocol.Receiver.Session.{Waiting, receives_file}
use y_modem_protocol.Receiver.Transfer.{Receiving}
use y_modem_protocol.Receiver.Once.{Line, quiet, fresh, again, damaged, Stores, post_all-Stores}
use y_modem_protocol.Tests.Data.{chunk_a, file_130, name_a, receiver_with, delivers}

-- The first block, nothing but SOH, the first block again, the second block.
abbrev first_got : List ℕ
first_got = rest_of 1 (padded (piece file_130))

abbrev second_got : List ℕ
second_got = rest_of 2 (padded (piece (drop chunk_sz file_130)))

abbrev line_events : List (Answers × Message)
line_events =
    (delivers first_got, ser soh)
    ∷ (delivers [], tm)
    ∷ (delivers [], ser soh)
    ∷ (delivers [], tm)
    ∷ (delivers (rest_of 1 chunk_a), ser soh)
    ∷ (delivers [], tm)
    ∷ (delivers second_got, ser soh)
    ∷ (delivers [], tm)
    ∷ []

Line-of : Line 0 0 file_130 line_events
Line-of = fresh (delivers first_got) (delivers []) 0 0 file_130 _ (omega arith) refl (
    damaged (delivers []) (delivers []) 1 0 (drop chunk_sz file_130) _
      (wrong_length (λ e. absurd (omega (arith, e)))) (omega arith)
      (again (delivers (rest_of 1 chunk_a)) (delivers []) 1 1 (drop chunk_sz file_130) chunk_a _
        refl refl (omega arith)
        (fresh (delivers second_got) (delivers []) 1 2 (drop chunk_sz file_130) [] (omega arith)
          refl (quiet 2 0))))

receiving : Receiving 0 0 file_130 (receiver_with (fd 3) 0 0)
receiving = record {
  array = refl;
  file_open = refl;
  no_cancel = refl;
  in_sync = refl;
  num_last = refl;
  errors = refl;
  few_errors = omega arith;
  left = λ more. refl;
}

post_all-Stores_example : Stores line_events none file_130 (receiver_with (fd 3) 0 0)
post_all-Stores_example =
    post_all-Stores 0 0 file_130 line_events none (receiver_with (fd 3) 0 0) (omega arith) Line-of
      receiving

fits : Fits name_a 130
unfolding decimal
fits = omega arith

abbrev waiting_receiver : Receiver
waiting_receiver = receiver_with minus_one 0 255

waiting : Waiting waiting_receiver
waiting = record {
  w_array = refl;
  w_cancel = refl;
  w_sync = refl;
  w_num = refl;
  w_errors = omega arith;
}

abbrev stat_answers : Answers
stat_answers = delivers (rest_of 0 (stat_chunk name_a (length file_130)))

receives_file_example :
    (t : Receiver) × (post_event stat_answers (ser soh) (at first_byte_stat none waiting_receiver)
      ≡ posted (at first_byte_data none t))
    × (t.log ≡ created name_a ∷ wrote (ack ∷ []) ∷ wrote (b'C' ∷ []) ∷ [])
    × Stores line_events none file_130 t
receives_file_example =
    receives_file stat_answers name_a file_130 3 line_events none waiting_receiver (omega arith)
      (omega arith, tt) fits (omega arith) waiting refl refl Line-of

changed_bytes-Refused_example :
    Refused
      (1
        ∷ complement 1
        ∷ ((b'x' ∷ b'y' ∷ replicate 126 0) ++ crc_of (b'a' ∷ b'y' ∷ replicate 126 0)))
      (receiver_with (fd 3) 0 0)
changed_bytes-Refused_example =
    changed_bytes-Refused 1 b'a' b'y' b'x' b'y' [] (replicate 126 0) (receiver_with (fd 3) 0 0) refl
      (omega arith) (omega arith) (omega arith) (omega arith) (inl (λ e. omega (arith, e))) refl
      refl (inl refl)

abbrev got_1 : List ℕ
got_1 = rest_of 1 (replicate 128 0)

zeros-AreBytes : (n : ℕ) (ys : List ℕ) → AreBytes ys → AreBytes (replicate n 0 ++ ys)
zeros-AreBytes zero ys h = h
zeros-AreBytes (suc n) ys h = (omega arith, zeros-AreBytes n ys h)

crc_of-AreBytes : (chunk : List ℕ) → AreBytes (crc_of chunk)
crc_of-AreBytes chunk =
    (omega (arith, crc_register-lt chunk), (omega (arith, crc_register-lt chunk), tt))

got_1-AreBytes : AreBytes got_1
got_1-AreBytes = (
  omega arith,
  (omega arith, zeros-AreBytes 128 (crc_of (replicate 128 0)) (crc_of-AreBytes (replicate 128 0))),
)

get_rest_blk-Accepted_example : Accepted got_1 (receiver_with (fd 3) 0 0)
get_rest_blk-Accepted_example =
    get_rest_blk-Accepted got_1 (receiver_with (fd 3) 0 0) got_1-AreBytes refl (
      ap (λ x. x.good_blk)
        (get_rest_blk-next 1 (replicate 128 0) (receiver_with (fd 3) 0 0) refl refl refl))

stat_block-read_example :
    let read = write_at 1 (rest_of 0 (stat_chunk name_a 130)) (replicate 163 0) in
    (stat_name read ≡ name_a) × (stoi (stat_size read) ≡ some (pos 130))
stat_block-read_example = stat_block-read name_a 130 (replicate 163 0) fits (omega arith, tt) refl
