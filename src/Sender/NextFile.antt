-- ===== src/Sender/NextFile.antt =====
-- The next file to send: `prepStatBlk`, when the chart starts and when a file has been sent.
use y_modem_protocol.Base.{
  ℕ, ◌+◌, ◌<◌, ◌≡◌, refl, false, is_some, List, [], ◌∷◌, ◌++◌, Option, none, some, length,
  replicate, append_assoc, length-append, arith,
}
use y_modem_protocol.Crc.Defs.{chunk_sz}
use y_modem_protocol.Text.Defs.{filename}
use y_modem_protocol.Block.Defs.{blk_sz_crc, gen_stat_blk}
use y_modem_protocol.Block.Layout.{block, crc_of}
use y_modem_protocol.Block.Stat.{
  stat_chunk, Fits, gen_stat_blk_lem, gen_stat_blk_empty, length-stat_chunk,
}
use y_modem_protocol.Peer.Defs.{
  fd, minus_two, done, end_of_session, add_result, ser, ack, clear_errors, set_timeout, tm_vl,
}
use y_modem_protocol.Sender.Defs.{
  Sender, Answers, on_peer, name_at, open_file_to_transfer, gen_stat_blk_in, prep_stat_blk,
  send_blk_prep_next, send_last_byte, send_most_blk,
}
use y_modem_protocol.Sender.Chart.{State, stat_c, eoteot, acknakstat, vl}
use y_modem_protocol.Sender.Machine.{posted, post_event, top_level_on_entry, start}
use y_modem_protocol.Sender.Runs.{at, stopped, post_all}
use y_modem_protocol.Sender.Resend.{sends, send_blk_prep_next_log}
use y_modem_protocol.Sender.FirstBlocks.{Prepared, sent_on, stat_sent}

-- The sender whose next file is open and in the stat block.
abbrev pub with_file : ℕ → List ℕ → ℕ → Sender → Sender
with_file f name size s = record (on_peer (λ p. record p { transferring_file = fd f }) s) {
  blk_num = 0;
  file_name = some name;
  file_name_index = s.file_name_index + 1;
  blk_buf0 = block 0 (stat_chunk (filename name) size);
}

abbrev named : List ℕ → Sender → Sender
named name s = record s {
  blk_num = 0;
  file_name = some name;
  file_name_index = s.file_name_index + 1;
}

abbrev opened : ℕ → Sender → Sender
opened f s = on_peer (λ p. record p { transferring_file = fd f }) s

open_file_to_transfer_lem :
    (a : Answers) (f : ℕ) (s : Sender) → a.opened ≡ some f → open_file_to_transfer a s ≡ opened f s
unfolding open_file_to_transfer
open_file_to_transfer_lem a f s o = rw (o, open_file_to_transfer) refl

gen_stat_blk_in_lem :
    (a : Answers) (name blk : List ℕ) (s : Sender)
    → gen_stat_blk s.order name a.size s.blk_buf0 ≡ some blk
    → gen_stat_blk_in a name s ≡ some (record s { blk_buf0 = blk })
unfolding gen_stat_blk_in
gen_stat_blk_in_lem a name blk s e = rw (e, gen_stat_blk_in) refl

prep_stat_blk_lem :
    (a : Answers) (name : List ℕ) (f : ℕ) (s : Sender)
    → name_at s.file_name_index s.file_names ≡ some name
    → a.opened ≡ some f
    → 0 < length name
    → Fits (filename name) a.size
    → length s.blk_buf0 ≡ blk_sz_crc
    → prep_stat_blk a s ≡ some (with_file f name a.size s)
unfolding prep_stat_blk
prep_stat_blk_lem a name f s e o ne fits len =
    rw (e, prep_stat_blk, open_file_to_transfer_lem a f (named name s) o)
      (gen_stat_blk_in_lem a name (block 0 (stat_chunk (filename name) a.size))
        (opened f (named name s)) (gen_stat_blk_lem s.order name s.blk_buf0 a.size ne fits len))

-- The sender that has no file left.
abbrev pub no_file : Sender → Sender
no_file s = record (on_peer (λ p. record p { transferring_file = minus_two }) s) {
  blk_num = 0;
  file_name = none;
  blk_buf0 = block 0 (replicate chunk_sz 0);
}

prep_stat_blk-no_file :
    (a : Answers) (s : Sender)
    → name_at s.file_name_index s.file_names ≡ none
    → length s.blk_buf0 ≡ blk_sz_crc
    → prep_stat_blk a s ≡ some (no_file s)
unfolding prep_stat_blk
prep_stat_blk-no_file a s e len =
    rw
      (
        e,
        prep_stat_blk,
        gen_stat_blk_in_lem a [] (block 0 (replicate chunk_sz 0))
            (record (on_peer (λ p. record p { transferring_file = minus_two }) s) { blk_num = 0 })
            (gen_stat_blk_empty s.order s.blk_buf0 a.size len),
      )
      refl

with_file-Prepared :
    (f : ℕ) (name : List ℕ) (size : ℕ) (s : Sender)
    → s.kb_can ≡ false
    → Fits (filename name) size
    → length s.blk_buf1 ≡ blk_sz_crc
    → Prepared f (stat_chunk (filename name) size) (with_file f name size s)
with_file-Prepared f name size s k fits len = record {
  p_name = refl;
  p_cancel = k;
  p_file = refl;
  p_num = refl;
  p_stat = refl;
  p_buf0 = omega (
    arith,
    length-append (stat_chunk (filename name) size) (crc_of (stat_chunk (filename name) size)),
    length-stat_chunk (filename name) size fits,
  );
  p_buf1 = len;
}

-- The sender at the start, and after the ACK for the second EOT.
abbrev started : Answers → Sender → Sender
started a t =
    on_peer (λ p. set_timeout a.elapsed tm_vl (record (clear_errors p) { kb_can = false })) t

start_lem :
    (a : Answers) (s t : Sender)
    → prep_stat_blk a s ≡ some t
    → start a s ≡ posted (at stat_c none (started a t))
unfolding start
start_lem a s t e = rw (e, start, top_level_on_entry) refl

next_lem :
    (a : Answers) (h : Option State) (s t : Sender)
    → s.kb_can ≡ false
    → prep_stat_blk a (on_peer (add_result done) s) ≡ some t
    → post_event a (ser ack) (at eoteot h s) ≡ posted (at stat_c h (vl a t))
unfolding post_event
next_lem a h s t k e = rw (e, k) refl

-- When the chart starts with a file that opens, and a name that leaves room for the size, the sender
-- waits in StatC with the file open and its stat block prepared, and has sent nothing.
pub start-Prepared :
    (a : Answers) (name : List ℕ) (f : ℕ) (s : Sender)
    → name_at s.file_name_index s.file_names ≡ some name
    → a.opened ≡ some f
    → 0 < length name
    → Fits (filename name) a.size
    → length s.blk_buf0 ≡ blk_sz_crc
    → length s.blk_buf1 ≡ blk_sz_crc
    → (t : Sender) × (start a s ≡ posted (at stat_c none t))
      × Prepared f (stat_chunk (filename name) a.size) t
      × (t.log ≡ s.log)
unfolding set_timeout clear_errors
start-Prepared a name f s e o ne fits b0 b1 =
    let t = with_file f name a.size s in
    (
      started a t,
      start_lem a s t (prep_stat_blk_lem a name f s e o ne fits b0),
      with_file-Prepared f name a.size (started a s) refl fits b1,
      refl,
    )

-- When the second EOT is acknowledged, the sender notes that the file is done, and is ready for the
-- next one, if it opens and its name leaves room for the size.
pub next-Prepared :
    (a : Answers) (name : List ℕ) (f : ℕ) (h : Option State) (s : Sender)
    → s.kb_can ≡ false
    → name_at s.file_name_index s.file_names ≡ some name
    → a.opened ≡ some f
    → 0 < length name
    → Fits (filename name) a.size
    → length s.blk_buf0 ≡ blk_sz_crc
    → length s.blk_buf1 ≡ blk_sz_crc
    → (t : Sender) × (post_event a (ser ack) (at eoteot h s) ≡ posted (at stat_c h t))
      × Prepared f (stat_chunk (filename name) a.size) t
      × (t.log ≡ s.log)
      × (t.result ≡ s.result ++ done ∷ [])
unfolding set_timeout add_result
next-Prepared a name f h s k e o ne fits b0 b1 =
    let u = on_peer (add_result done) s in
    (
      vl a (with_file f name a.size u),
      next_lem a h s (with_file f name a.size u) k (prep_stat_blk_lem a name f u e o ne fits b0),
      with_file-Prepared f name a.size (vl a u) k fits b1,
      refl,
      refl,
    )

end_acknowledged :
    (c : Answers) (h : Option State) (s : Sender)
    → is_some s.file_name ≡ false
    → post_event c (ser ack) (at acknakstat h s)
      ≡ posted (stopped h (on_peer (add_result end_of_session) s))
unfolding post_event
end_acknowledged c h s n = rw n refl

-- When the last file is done, the sender answers the next C with a stat block of NULs, and its ACK
-- ends the session.
pub last_file_ends :
    (a b c : Answers) (h : Option State) (s : Sender)
    → s.kb_can ≡ false
    → name_at s.file_name_index s.file_names ≡ none
    → length s.blk_buf0 ≡ blk_sz_crc
    → (t : Sender) × (post_all ((a, ser ack) ∷ (b, ser b'C') ∷ (c, ser ack) ∷ []) (at eoteot h s)
        ≡ posted (stopped h t))
      × (t.log ≡ s.log ++ sends (block 0 (replicate chunk_sz 0)))
      × (t.result ≡ s.result ++ (done ∷ end_of_session ∷ []))
unfolding set_timeout add_result clear_errors send_blk_prep_next send_last_byte send_most_blk
last_file_ends a b c h s k e len =
    let u = vl a (no_file (on_peer (add_result done) s)) in
    (
      on_peer (add_result end_of_session) (sent_on b u),
      rw
          (
            next_lem a h s (no_file (on_peer (add_result done) s)) k
                (prep_stat_blk-no_file a (on_peer (add_result done) s) e len),
            stat_sent b h u refl,
            end_acknowledged c h (sent_on b u) refl,
          )
          refl,
      send_blk_prep_next_log b u,
      append_assoc s.result (done ∷ []) (end_of_session ∷ []),
    )
