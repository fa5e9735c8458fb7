-- ===== src/Sender/FirstBlocks.antt =====
-- From the stat block of a file to its first data block.
use y_modem_protocol.Base.{
  ℕ, ◌+◌, ◌%◌, ◌<◌, ◌≡◌, refl, ap, ap₂, ◌∙◌, true, false, is_some, List, [], ◌∷◌, ◌++◌,
  append_assoc, Option, length, take, drop, arith,
}
use y_modem_protocol.Crc.Defs.{chunk_sz}
use y_modem_protocol.Block.Defs.{blk_sz_crc}
use y_modem_protocol.Block.Layout.{block}
use y_modem_protocol.Peer.Defs.{
  fd, ser, ack, is_open, is_minus_one, tm_vl, clear_errors, set_timeout,
}
use y_modem_protocol.Sender.Defs.{Sender, Answers, on_peer, blk_buf, send_blk_prep_next}
use y_modem_protocol.Sender.Chart.{State, stat_c, acknakstat, one, acknak, has_bytes, vl}
use y_modem_protocol.Sender.Machine.{posted, post_event}
use y_modem_protocol.Sender.Runs.{at, post_all}
use y_modem_protocol.Sender.Resend.{sends, send_blk_prep_next_log, send_blk_prep_next-blk_num}
use y_modem_protocol.Sender.Sending.{
  next_chunk, Sending, sent_next, prepared-Sending, on_peer-Sending, sent_next-Sending,
}
use y_modem_protocol.Sender.WholeFile.{has_bytes-Sending, sent_next_log}

-- The sender in StatC, with a file open and the stat block prepared.
pub record Prepared (f : ℕ) (chunk : List ℕ) (s : Sender) : Type 0 where
  pub p_name : is_some s.file_name ≡ true
  pub p_cancel : s.kb_can ≡ false
  pub p_file : s.transferring_file ≡ fd f
  pub p_num : s.blk_num ≡ 0
  pub p_stat : s.blk_buf0 ≡ block 0 chunk
  pub p_buf0 : length s.blk_buf0 ≡ blk_sz_crc
  pub p_buf1 : length s.blk_buf1 ≡ blk_sz_crc

-- A block is sent with the next one prepared, and the timeout set.
abbrev pub sent_on : Answers → Sender → Sender
sent_on a s = vl a (on_peer clear_errors (send_blk_prep_next a s))

-- An ACK for the stat block.
abbrev acknowledged : Answers → Sender → Sender
acknowledged b s = vl b (record s { first_blk = true })

pub stat_sent :
    (a : Answers) (h : Option State) (s : Sender)
    → is_minus_one s.transferring_file ≡ false
    → post_event a (ser b'C') (at stat_c h s) ≡ posted (at acknakstat h (sent_on a s))
unfolding post_event
stat_sent a h s o = ground arith

stat_acknowledged :
    (b : Answers) (h : Option State) (s : Sender)
    → is_some s.file_name ≡ true
    → s.kb_can ≡ false
    → post_event b (ser ack) (at acknakstat h s) ≡ posted (at one h (acknowledged b s))
unfolding post_event
stat_acknowledged b h s n k = rw (n, k) refl

first_sent :
    (c : Answers) (h : Option State) (s : Sender)
    → s.kb_can ≡ false
    → has_bytes s ≡ true
    → post_event c (ser b'C') (at one h s) ≡ posted (at acknak h (sent_on c s))
unfolding post_event clear_errors set_timeout
first_sent c h s k b = rw (b, k) refl

sent_on-Sending :
    (a : Answers) (file : List ℕ) (s : Sender)
    → Sending file (sent_next a s)
    → Sending file (sent_on a s)
sent_on-Sending a file s w =
    on_peer-Sending file (λ p. p) (sent_next a s) (send_blk_prep_next a s).first_blk refl refl w

stat_log :
    (a : Answers) (f : ℕ) (chunk : List ℕ) (s : Sender)
    → Prepared f chunk s
    → (sent_on a s).log ≡ s.log ++ sends (block 0 chunk)
unfolding clear_errors set_timeout
stat_log a f chunk s p =
    send_blk_prep_next_log a s
    ∙ ap (λ l. s.log ++ sends l) (ap (λ n. blk_buf (n % 2) s) p.p_num ∙ p.p_stat)

-- The stat block goes out on the receiver's C, the first data block on the C after the ACK for it;
-- then the rest of the file is what `Sending` is about.
pub starts_file :
    (a b c : Answers) (f : ℕ) (chunk file : List ℕ) (h : Option State) (s : Sender)
    → Prepared f chunk s
    → 0 < length file
    → a.got ≡ take chunk_sz file
    → c.got ≡ take chunk_sz (drop chunk_sz file)
    → (t : Sender) × (post_all ((a, ser b'C') ∷ (b, ser ack) ∷ (c, ser b'C') ∷ []) (at stat_c h s)
        ≡ posted (at acknak h t))
      × (t.log ≡ s.log ++ (sends (block 0 chunk) ++ sends (block 1 (next_chunk file))))
      × (t.blk_num ≡ 2)
      × Sending (drop chunk_sz file) t
unfolding clear_errors set_timeout
starts_file a b c f chunk file h s p ne first second =
    let w1 : Sending file (sent_on a s) = sent_on-Sending a file s (
      prepared-Sending a file s p.p_name p.p_cancel (ap is_open p.p_file) (omega (arith, p.p_num))
        p.p_buf0 p.p_buf1 first) in
    let w2 : Sending file (acknowledged b (sent_on a s)) =
      on_peer-Sending file (set_timeout b.elapsed tm_vl) (sent_on a s) true refl refl w1 in
    let num : (acknowledged b (sent_on a s)).blk_num ≡ 1 =
      send_blk_prep_next-blk_num a s ∙ ap (λ n. (n + 1) % 256) p.p_num in
    (
      sent_on c (acknowledged b (sent_on a s)),
      rw
          (
            stat_sent a h s (ap is_minus_one p.p_file),
            stat_acknowledged b h (sent_on a s) w1.s_name w1.s_cancel,
            first_sent c h (acknowledged b (sent_on a s)) w2.s_cancel
                (has_bytes-Sending file (acknowledged b (sent_on a s)) w2 ne),
          )
          refl,
      sent_next_log c file (acknowledged b (sent_on a s)) w2 ne
          ∙ ap₂ (λ l n. l ++ sends (block n (next_chunk file))) (stat_log a f chunk s p) num
          ∙ append_assoc s.log (sends (block 0 chunk)) (sends (block 1 (next_chunk file))),
      send_blk_prep_next-blk_num c (acknowledged b (sent_on a s)) ∙ ap (λ n. (n + 1) % 256) num,
      sent_on-Sending c (drop chunk_sz file) (acknowledged b (sent_on a s))
          (sent_next-Sending c file (acknowledged b (sent_on a s)) w2 second),
    )
