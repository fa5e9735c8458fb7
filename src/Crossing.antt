-- ===== src/Crossing.antt =====
-- The two peers together: what the sender's chart puts on a medium without errors is what the
-- receiver's chart gets.
pub mod Whole
use y_modem_protocol.Base.{
  ℕ, zero, suc, ◌+◌, ◌-◌, ◌/◌, ◌%◌, ◌<◌, ◌≤◌, ◌≡◌, refl, sym, ap, ◌∙◌, subst, List, [], ◌∷◌, ◌++◌,
  append_assoc, Option, none, some, length, get_or, take, drop, take-append, drop-append,
  length-append, length-drop, length-take, arith,
}
use y_modem_protocol.Crc.Defs.{chunk_sz}
use y_modem_protocol.Block.Defs.{blk_sz_crc, rest_blk_sz_crc}
use y_modem_protocol.Block.Layout.{block, padded, crc_of, length-padded}
use y_modem_protocol.Peer.Defs.{Action, wrote, Message, ser, tm}
use y_modem_protocol.Sender.Defs.{Sender, last_byte}
use y_modem_protocol.Sender.Chart.{acknak, eot1}
use y_modem_protocol.Sender.Resend.{sends}
use y_modem_protocol.Sender.Sending.{next_chunk, Sending}
use y_modem_protocol.Sender.WholeFile.{Acks, transmission, block_count, end_of_file, sends_file}
use y_modem_protocol.Receiver.Defs.{Receiver, Answers}
use y_modem_protocol.Receiver.Chart.{first_byte_data}
use y_modem_protocol.Receiver.Runs.{stored_bytes}
use y_modem_protocol.Receiver.Accept.{rest_of}
use y_modem_protocol.Receiver.Transfer.{Receiving}
use y_modem_protocol.Receiver.Once.{Line, quiet, fresh, Stores, post_all-Stores}

-- The bytes that a log has written to the medium.
abbrev pub line_bytes : List Action → List ℕ
line_bytes [] = []
line_bytes (wrote bytes ∷ acts) = bytes ++ line_bytes acts
line_bytes (_ ∷ acts) = line_bytes acts

-- The receiver's events for `k` blocks from the medium: for each, its first byte is read by the loop
-- on events, the rest by `getRestBlk`, and the timeout lets the receiver answer.
abbrev pub feed : Answers → ℕ → List ℕ → List (Answers × Message)
feed a zero bytes = []
feed a (suc k) bytes =
    (record a { got = take rest_blk_sz_crc (drop 1 bytes) }, ser (get_or bytes 0 0))
    ∷ (a, tm)
    ∷ feed a k (drop blk_sz_crc bytes)

take_then_last :
    (n : ℕ) (xs rest : List ℕ)
    → length xs ≡ suc n
    → take n xs ++ (get_or xs n 0 ∷ rest) ≡ xs ++ rest
take_then_last n [] rest h = absurd (omega arith)
take_then_last zero (x ∷ []) rest h = refl
take_then_last zero (x ∷ y ∷ xs) rest h = absurd (omega arith)
take_then_last (suc n) (x ∷ xs) rest h = ap (◌∷◌ x) (take_then_last n xs rest (omega arith))

pub length-rest_of :
    (num : ℕ) (chunk : List ℕ)
    → length chunk ≡ chunk_sz
    → length (rest_of num chunk) ≡ rest_blk_sz_crc
length-rest_of num chunk len = omega (arith, length-append chunk (crc_of chunk))

length-next_chunk : (file : List ℕ) → length (next_chunk file) ≡ chunk_sz
length-next_chunk file =
    length-padded (take chunk_sz file) (omega (arith, length-take chunk_sz file))

-- A block goes over the medium whole.
pub line_bytes-sends :
    (num : ℕ) (chunk : List ℕ) (acts : List Action)
    → length chunk ≡ chunk_sz
    → line_bytes (sends (block num chunk) ++ acts) ≡ block num chunk ++ line_bytes acts
unfolding last_byte
line_bytes-sends num chunk acts len =
    take_then_last rest_blk_sz_crc (block num chunk) (line_bytes acts)
      (ap suc (length-rest_of num chunk len))

pub feed-Line :
    (a : Answers) (k last : ℕ) (file : List ℕ) (acts : List Action)
    → k ≡ block_count (length file)
    → Line last 0 file (feed a k (line_bytes (transmission k ((last + 1) % 256) file ++ acts)))
feed-Line a zero last [] acts e = quiet last 0
feed-Line a zero last (x ∷ file) acts e = absurd (omega arith)
feed-Line a (suc k) last file acts e =
    subst (λ b. Line last 0 file (feed a (suc k) b)) (sym bytes)
      (fresh (record a { got = take rest_blk_sz_crc (whole ++ rest) }) a last 0 file
        (feed a k (drop rest_blk_sz_crc (whole ++ rest))) (omega arith)
        (take-append whole rest rest_blk_sz_crc
          (sym (length-rest_of num (next_chunk file) (length-next_chunk file))))
        (subst (λ b. Line num 0 (drop chunk_sz file) (feed a k b))
          (sym (
            drop-append whole rest rest_blk_sz_crc
              (sym (length-rest_of num (next_chunk file) (length-next_chunk file)))))
          (feed-Line a k num (drop chunk_sz file) acts
            (omega (arith, e, length-drop chunk_sz file)))))
  where
    num : ℕ
    num = (last + 1) % 256

    whole : List ℕ
    whole = rest_of num (next_chunk file)

    following : List Action
    following = transmission k ((num + 1) % 256) (drop chunk_sz file)

    rest : List ℕ
    rest = line_bytes (following ++ acts)

    bytes : line_bytes (transmission (suc k) num file ++ acts) ≡ block num (next_chunk file) ++ rest
    bytes =
        ap line_bytes (append_assoc (sends (block num (next_chunk file))) following acts)
        ∙ line_bytes-sends num (next_chunk file) (following ++ acts) (length-next_chunk file)

-- A file crosses: if the sender has the first block prepared, its number is the one that the receiver
-- expects, and one ACK comes for each block, then the receiver that gets what the sender writes from
-- there on stores the bytes of the file, in order and each once, and no others.
pub file_crosses :
    (file : List ℕ) (acks : List (y_modem_protocol.Sender.Defs.Answers × Message)) (a : Answers)
    (last : ℕ) (hs : Option y_modem_protocol.Sender.Chart.State)
    (hr : Option y_modem_protocol.Receiver.Chart.State) (s : Sender) (r : Receiver)
    → Acks file acks
    → Sending file s
    → Receiving last 0 file r
    → s.blk_num ≡ (last + 1) % 256
    → last < 256
    → (t : Sender) × (sent : List Action) × (y_modem_protocol.Sender.Runs.post_all acks
          (y_modem_protocol.Sender.Runs.at acknak hs s)
        ≡ y_modem_protocol.Sender.Machine.posted (y_modem_protocol.Sender.Runs.at eot1 hs t))
      × (t.log ≡ s.log ++ sent)
      × Stores (feed a (block_count (length file)) (line_bytes sent)) hr file r
file_crosses file acks a last hs hr s r w sending receiving num small =
    let (t, run, log, closed_there) = sends_file file acks hs s w sending in
    (
      t,
      transmission (block_count (length file)) s.blk_num file ++ end_of_file,
      run,
      log,
      post_all-Stores last 0 file
          (feed a (block_count (length file))
            (line_bytes (transmission (block_count (length file)) s.blk_num file ++ end_of_file)))
          hr r small
          (subst
            (λ n. Line last 0 file (
              feed a (block_count (length file))
                (line_bytes (transmission (block_count (length file)) n file ++ end_of_file))))
            (sym num) (feed-Line a (block_count (length file)) last file end_of_file refl))
          receiving,
    )
