-- ===== src/Sender/WholeFile.antt =====
-- From the first data block of a file to its EOT.
use y_modem_protocol.Base.{
  ℕ, zero, suc, ◌+◌, ◌/◌, ◌%◌, ◌<◌, ◌≡◌, refl, sym, ap, ap₂, ◌∙◌, true, false, List, [], ◌∷◌, ◌++◌,
  append_assoc, Option, length, take, drop, length-take, length-drop, ==_ne, arith,
}
use y_modem_protocol.Crc.Defs.{chunk_sz}
use y_modem_protocol.Block.Layout.{block}
use y_modem_protocol.Peer.Defs.{
  minus_one, is_open, Action, wrote, closed, Message, ser, ack, eot, clear_errors, set_timeout,
  send_byte, act,
}
use y_modem_protocol.Sender.Defs.{Sender, Answers, on_peer, close_transferred_file}
use y_modem_protocol.Sender.Chart.{State, acknak, eot1, has_bytes, vl, close_file}
use y_modem_protocol.Sender.Machine.{posted, post_event}
use y_modem_protocol.Sender.Runs.{at, post_all}
use y_modem_protocol.Sender.Resend.{sends, send_blk_prep_next_log, send_blk_prep_next-blk_num}
use y_modem_protocol.Sender.Sending.{next_chunk, Sending, sent_next, ack_sends, sent_next-Sending}

-- The ACKs that come while `file` is to be sent, one for each block before the last and one for it;
-- each finds the bytes behind the block that it releases.
pub data Acks : List ℕ → List (Answers × Message) → Type 0 where
  last : (a : Answers) → Acks [] ((a, ser ack) ∷ [])
  more :
      (a : Answers) (file : List ℕ) (events : List (Answers × Message))
      → 0 < length file
      → a.got ≡ take chunk_sz (drop chunk_sz file)
      → Acks (drop chunk_sz file) events
      → Acks file ((a, ser ack) ∷ events)

-- What goes over the line for `k` blocks of a file from the number `num` on.
abbrev pub transmission : ℕ → ℕ → List ℕ → List Action
transmission zero num file = []
transmission (suc k) num file =
    sends (block num (next_chunk file)) ++ transmission k ((num + 1) % 256) (drop chunk_sz file)

-- The number of blocks of a file.
abbrev pub block_count : ℕ → ℕ
block_count size = (size + 127) / 128

pub has_bytes-Sending :
    (file : List ℕ) (s : Sender) → Sending file s → 0 < length file → has_bytes s ≡ true
has_bytes-Sending file s w h =
    rw (w.s_read, ==_ne (length (take chunk_sz file)) 0 (omega (arith, length-take chunk_sz file)))
      refl

pub sent_next_log :
    (a : Answers) (file : List ℕ) (s : Sender)
    → Sending file s
    → 0 < length file
    → (sent_next a s).log ≡ s.log ++ sends (block s.blk_num (next_chunk file))
unfolding clear_errors set_timeout
sent_next_log a file s w h = send_blk_prep_next_log a s ∙ ap (λ b. s.log ++ sends b) (w.s_block h)

-- The sender that has sent the first EOT.
abbrev eot_sent : Answers → Sender → Sender
eot_sent a s = vl a (close_file (on_peer (λ p. clear_errors (send_byte eot p)) s))

ack_ends :
    (a : Answers) (h : Option State) (s : Sender)
    → s.kb_can ≡ false
    → has_bytes s ≡ false
    → post_event a (ser ack) (at acknak h s) ≡ posted (at eot1 h (eot_sent a s))
unfolding post_event
ack_ends a h s k b = rw (b, k) refl

eot_sent_facts :
    (a : Answers) (s : Sender)
    → is_open s.transferring_file ≡ true
    → ((eot_sent a s).log ≡ s.log ++ (wrote (eot ∷ []) ∷ closed ∷ []))
      × ((eot_sent a s).transferring_file ≡ minus_one)
unfolding clear_errors send_byte act set_timeout close_transferred_file
eot_sent_facts a s o = rw o (append_assoc s.log (wrote (eot ∷ []) ∷ []) (closed ∷ []), refl)

abbrev pub end_of_file : List Action
end_of_file = wrote (eot ∷ []) ∷ closed ∷ []

-- The log after a block and what follows it.
joined :
    (a : Answers) (file : List ℕ) (s : Sender)
    → Sending file s
    → 0 < length file
    → (sent_next a s).log
        ++ (transmission
              (block_count (length (drop chunk_sz file)))
              (sent_next a s).blk_num
              (drop chunk_sz file)
            ++ end_of_file)
      ≡ s.log ++ (transmission (block_count (length file)) s.blk_num file ++ end_of_file)
joined a file s w ne =
    ap₂ (λ l n. l ++ (transmission k n (drop chunk_sz file) ++ end_of_file))
      (sent_next_log a file s w ne) (send_blk_prep_next-blk_num a s)
    ∙ append_assoc s.log blk (rest ++ end_of_file)
    ∙ ap (λ l. s.log ++ l) (sym (append_assoc blk rest end_of_file))
    ∙ ap (λ m. s.log ++ (transmission m s.blk_num file ++ end_of_file)) (sym count)
  where
    k : ℕ
    k = block_count (length (drop chunk_sz file))

    blk : List Action
    blk = sends (block s.blk_num (next_chunk file))

    rest : List Action
    rest = transmission k ((s.blk_num + 1) % 256) (drop chunk_sz file)

    count : block_count (length file) ≡ suc k
    count = omega (arith, length-drop chunk_sz file)

-- With the first block prepared and the file open, with one ACK for each block, the whole file goes
-- out: its blocks in order, each once, numbered from the first one on with the wrap after 255, the
-- last one filled up; then EOT, and the file is closed.
pub sends_file :
    (file : List ℕ) (events : List (Answers × Message)) (h : Option State) (s : Sender)
    → Acks file events
    → Sending file s
    → (t : Sender) × (post_all events (at acknak h s) ≡ posted (at eot1 h t))
      × (t.log
          ≡ s.log
            ++ (transmission (block_count (length file)) s.blk_num file
                ++ (wrote (eot ∷ []) ∷ closed ∷ [])))
      × (t.transferring_file ≡ minus_one)
sends_file _ _ h s (last a) w =
    let (log, file) = eot_sent_facts a s w.s_file in
    (eot_sent a s, rw (ack_ends a h s w.s_cancel (rw w.s_read refl)) refl, log, file)
sends_file file _ h s (more a _ events ne got acks) w =
    let (t, run, log, closed_there) =
      sends_file (drop chunk_sz file) events h (sent_next a s) acks
        (sent_next-Sending a file s w got) in
    (
      t,
      rw (ack_sends a h s w.s_cancel (has_bytes-Sending file s w ne)) run,
      log ∙ joined a file s w ne,
      closed_there,
    )
