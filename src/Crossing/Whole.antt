-- ===== src/Crossing/Whole.antt =====
-- A file from its stat block to EOT, through both charts.
use y_modem_protocol.Base.{
  ℕ, suc, ◌^◌, ◌<◌, ◌≡◌, refl, sym, ap, ap₂, ◌∙◌, subst, List, [], ◌∷◌, ◌++◌, append_assoc, Option,
  some, length, get_or, take, drop, take-append, drop-append, length-drop, arith,
}
use y_modem_protocol.Crc.Defs.{chunk_sz}
use y_modem_protocol.Text.Decimal.{IsText}
use y_modem_protocol.Block.Defs.{blk_sz_crc, rest_blk_sz_crc}
use y_modem_protocol.Block.Layout.{block}
use y_modem_protocol.Block.Stat.{stat_chunk, Fits, length-stat_chunk}
use y_modem_protocol.Peer.Defs.{Action, created, wrote, Message, ser, ack}
use y_modem_protocol.Sender.Defs.{Sender}
use y_modem_protocol.Sender.Chart.{stat_c, acknak, eot1}
use y_modem_protocol.Sender.Machine.{posted}
use y_modem_protocol.Sender.Runs.{at, then_post, post_all, post_all-append}
use y_modem_protocol.Sender.Resend.{sends}
use y_modem_protocol.Sender.Sending.{next_chunk}
use y_modem_protocol.Sender.WholeFile.{Acks, transmission, block_count, end_of_file, sends_file}
use y_modem_protocol.Sender.FirstBlocks.{Prepared, starts_file}
use y_modem_protocol.Receiver.Defs.{Receiver, Answers}
use y_modem_protocol.Receiver.Chart.{first_byte_stat, first_byte_data}
use y_modem_protocol.Receiver.Accept.{rest_of}
use y_modem_protocol.Receiver.Files.{errors_kept}
use y_modem_protocol.Receiver.Session.{Waiting, receives_file}
use y_modem_protocol.Receiver.Once.{Line, Stores}
use y_modem_protocol.Crossing.{line_bytes, feed, feed-Line, line_bytes-sends, length-rest_of}

-- What the sender puts on the medium for a file: the stat block, the data blocks, and EOT.
abbrev pub on_medium : List ℕ → List ℕ → List Action
on_medium base file =
    sends (block 0 (stat_chunk base (length file)))
    ++ (transmission (block_count (length file)) 1 file ++ end_of_file)

-- The answers with which `getRestBlk` gets the rest of the first block of some bytes.
abbrev pub first_rest : Answers → List ℕ → Answers
first_rest x bytes = record x { got = take rest_blk_sz_crc (drop 1 bytes) }

-- The sender's half.
abbrev pub Sends :
    (acks : List (y_modem_protocol.Sender.Defs.Answers × Message))
    → Option y_modem_protocol.Sender.Chart.State
    → List Action
    → Sender
    → Type 0
Sends events h sent s =
    (t : Sender) × (post_all events (at stat_c h s) ≡ posted (at eot1 h t))
    × (t.log ≡ s.log ++ sent)

-- The receiver's half.
abbrev pub Receives :
    Answers
    → Option y_modem_protocol.Receiver.Chart.State
    → List ℕ
    → List ℕ
    → List ℕ
    → Receiver
    → Type 0
Receives x h base file bytes r =
    (u : Receiver) × (y_modem_protocol.Receiver.Machine.post_event (first_rest x bytes)
        (ser (get_or bytes 0 0)) (y_modem_protocol.Receiver.Runs.at first_byte_stat h r)
      ≡ y_modem_protocol.Receiver.Machine.posted
          (y_modem_protocol.Receiver.Runs.at first_byte_data h u))
    × (u.log ≡ r.log ++ (created base ∷ wrote (ack ∷ []) ∷ wrote (r.ncg_byte ∷ []) ∷ []))
    × Stores (feed x (block_count (length file)) (drop blk_sz_crc bytes)) h file u

named_file_sent :
    (base file : List ℕ) (f : ℕ) (a b c : y_modem_protocol.Sender.Defs.Answers)
    (acks : List (y_modem_protocol.Sender.Defs.Answers × Message))
    (h : Option y_modem_protocol.Sender.Chart.State) (s : Sender)
    → Prepared f (stat_chunk base (length file)) s
    → 0 < length file
    → a.got ≡ take chunk_sz file
    → c.got ≡ take chunk_sz (drop chunk_sz file)
    → Acks (drop chunk_sz file) acks
    → Sends ((a, ser b'C') ∷ (b, ser ack) ∷ (c, ser b'C') ∷ acks) h (on_medium base file) s
named_file_sent base file f a b c acks h s p ne first second later =
    let (m, run1, log1, num, sending) =
      starts_file a b c f (stat_chunk base (length file)) file h s p ne first second in
    let (t, run2, log2, closed_there) = sends_file (drop chunk_sz file) acks h m later sending in
    (
      t,
      post_all-append ((a, ser b'C') ∷ (b, ser ack) ∷ (c, ser b'C') ∷ []) acks (at stat_c h s)
          ∙ ap (λ q. then_post q (post_all acks)) run1
          ∙ run2,
      log2
          ∙ ap₂ (λ l k. l ++ (transmission n k (drop chunk_sz file) ++ end_of_file)) log1 num
          ∙ append_assoc s.log (stat ++ first_data) (later_data ++ end_of_file)
          ∙ ap (λ l. s.log ++ l)
              (append_assoc stat first_data (later_data ++ end_of_file)
                ∙ ap (λ l. stat ++ l) (sym (append_assoc first_data later_data end_of_file))
                ∙ ap (λ k. stat ++ (transmission k 1 file ++ end_of_file)) (sym count)),
    )
  where
    n : ℕ
    n = block_count (length (drop chunk_sz file))

    stat : List Action
    stat = sends (block 0 (stat_chunk base (length file)))

    first_data : List Action
    first_data = sends (block 1 (next_chunk file))

    later_data : List Action
    later_data = transmission n 2 (drop chunk_sz file)

    count : block_count (length file) ≡ suc n
    count = omega (arith, ne, length-drop chunk_sz file)

sent_file_received :
    (base file : List ℕ) (g : ℕ) (x : Answers) (h : Option y_modem_protocol.Receiver.Chart.State)
    (r : Receiver)
    → 0 < length base
    → IsText base
    → Fits base (length file)
    → length file < 2 ^ 31
    → Waiting r
    → errors_kept r ≡ 0
    → x.creat ≡ some g
    → Receives x h base file (line_bytes (on_medium base file)) r
sent_file_received base file g x h r ne text fits small w none_yet creat =
    subst (λ b. Receives x h base file b r) (sym bytes)
      (receives_file (first_rest x (block 0 chunk ++ rest)) base file g
        (feed x n (drop rest_blk_sz_crc (rest_of 0 chunk ++ rest))) h r ne text fits small w
        (take-append (rest_of 0 chunk) rest rest_blk_sz_crc (sym (length-rest_of 0 chunk len)))
        creat
        (subst (λ b. Line 0 (errors_kept r) file (feed x n b))
          (sym
            (drop-append (rest_of 0 chunk) rest rest_blk_sz_crc (sym (length-rest_of 0 chunk len))))
          (subst (λ e. Line 0 e file (feed x n rest)) (sym none_yet)
            (feed-Line x n 0 file end_of_file refl))))
  where
    n : ℕ
    n = block_count (length file)

    chunk : List ℕ
    chunk = stat_chunk base (length file)

    len : length chunk ≡ chunk_sz
    len = length-stat_chunk base (length file) fits

    rest : List ℕ
    rest = line_bytes (transmission n 1 file ++ end_of_file)

    bytes : line_bytes (on_medium base file) ≡ block 0 chunk ++ rest
    bytes = line_bytes-sends 0 chunk (transmission n 1 file ++ end_of_file) len

-- A file that is not empty crosses from its stat block to EOT. The sender, with the file open and its
-- stat block prepared, a C, an ACK and a C coming for the first blocks and then one ACK for each
-- block, puts `on_medium` on the medium. The receiver that gets those bytes between two files, no
-- error counted, creates a file of the name and stores the bytes of the file in it, in order and each
-- once, and no others; if the name has no NUL and leaves room for the size, which is below 2^31, and
-- `creat` succeeds.
pub whole_file_crosses :
    (base file : List ℕ) (f g : ℕ) (a b c : y_modem_protocol.Sender.Defs.Answers)
    (acks : List (y_modem_protocol.Sender.Defs.Answers × Message)) (x : Answers)
    (hs : Option y_modem_protocol.Sender.Chart.State)
    (hr : Option y_modem_protocol.Receiver.Chart.State) (s : Sender) (r : Receiver)
    → 0 < length file
    → 0 < length base
    → IsText base
    → Fits base (length file)
    → length file < 2 ^ 31
    → Prepared f (stat_chunk base (length file)) s
    → a.got ≡ take chunk_sz file
    → c.got ≡ take chunk_sz (drop chunk_sz file)
    → Acks (drop chunk_sz file) acks
    → Waiting r
    → errors_kept r ≡ 0
    → x.creat ≡ some g
    → Sends ((a, ser b'C') ∷ (b, ser ack) ∷ (c, ser b'C') ∷ acks) hs (on_medium base file) s
      × Receives x hr base file (line_bytes (on_medium base file)) r
whole_file_crosses base file f g a b c acks x hs hr s r ne named text fits small p first second
      later w none_yet creat =
    (
      named_file_sent base file f a b c acks hs s p ne first second later,
      sent_file_received base file g x hr r named text fits small w none_yet creat,
    )
