-- ===== src/Sender/Sending.antt =====
-- A file goes out block by block, one for each ACK.
use y_modem_protocol.Base.{
  ℕ, zero, suc, ◌+◌, ◌%◌, ◌<◌, ◌≡◌, refl, sym, ap, ◌∙◌, subst, Bool, true, false, is_some, List,
  Option, length, take, drop, length-take, arith,
}
use y_modem_protocol.Base.Int.{pos}
use y_modem_protocol.Crc.Defs.{chunk_sz, ByteOrder}
use y_modem_protocol.Block.Defs.{blk_sz_crc, gen_blk}
use y_modem_protocol.Block.Layout.{block, padded, gen_blk_lem, length-gen_blk}
use y_modem_protocol.Peer.Defs.{Peer, ser, ack, tm_vl, is_open, clear_errors, set_timeout}
use y_modem_protocol.Sender.Defs.{
  Sender, Answers, on_peer, blk_buf, gen_blk_in, last_byte, send_most_blk, send_last_byte,
  send_blk_prep_next,
}
use y_modem_protocol.Sender.Chart.{State, acknak, has_bytes, vl}
use y_modem_protocol.Sender.Machine.{posted, post_event}
use y_modem_protocol.Sender.Runs.{at}
use y_modem_protocol.Sender.Resend.{prep}

-- The chunk that the next bytes of a file make.
abbrev pub next_chunk : List ℕ → List ℕ
next_chunk file = padded (take chunk_sz file)

-- What the sender is while the bytes `file` are still to be sent: the block of the next bytes is
-- prepared in the buffer of its number.
pub record Sending (file : List ℕ) (s : Sender) : Type 0 where
  pub s_name : is_some s.file_name ≡ true
  pub s_cancel : s.kb_can ≡ false
  pub s_file : is_open s.transferring_file ≡ true
  pub s_num : s.blk_num < 256
  pub s_buf0 : length s.blk_buf0 ≡ blk_sz_crc
  pub s_buf1 : length s.blk_buf1 ≡ blk_sz_crc
  pub s_read : s.bytes_rd ≡ pos (length (take chunk_sz file))
  pub s_block : 0 < length file → blk_buf (s.blk_num % 2) s ≡ block s.blk_num (next_chunk file)

-- What `genBlk` makes of the next bytes of the file.
filled :
    (order : ByteOrder) (got file blk : List ℕ) (num : ℕ)
    → got ≡ take chunk_sz file
    → length blk ≡ blk_sz_crc
    → 0 < length file
    → gen_blk order got num blk ≡ block num (next_chunk file)
filled order got file blk num e len more =
    ap (λ g. gen_blk order g num blk) e
    ∙ gen_blk_lem order (take chunk_sz file) blk num (omega (arith, length-take chunk_sz file))
        (omega (arith, length-take chunk_sz file)) len

-- The parts of the sender after the next block is generated.
gen_blk_in-Sending :
    (a : Answers) (i : ℕ) (file : List ℕ) (s : Sender)
    → i < 2
    → i ≡ s.blk_num % 2
    → is_some s.file_name ≡ true
    → s.kb_can ≡ false
    → is_open s.transferring_file ≡ true
    → s.blk_num < 256
    → length s.blk_buf0 ≡ blk_sz_crc
    → length s.blk_buf1 ≡ blk_sz_crc
    → a.got ≡ take chunk_sz file
    → Sending file (gen_blk_in a i s)
unfolding gen_blk_in
gen_blk_in-Sending a zero file s p e name k open_there num b0 b1 got = record {
  s_name = name;
  s_cancel = k;
  s_file = open_there;
  s_num = num;
  s_buf0 = length-gen_blk s.order a.got s.blk_num s.blk_buf0 ∙ b0;
  s_buf1 = b1;
  s_read = ap (λ g. pos (length g)) got;
  s_block = λ more.
      ap (λ n. blk_buf n (gen_blk_in a 0 s)) (sym e)
      ∙ filled s.order a.got file s.blk_buf0 s.blk_num got b0 more;
}
gen_blk_in-Sending a (suc i) file s p e name k open_there num b0 b1 got = record {
  s_name = name;
  s_cancel = k;
  s_file = open_there;
  s_num = num;
  s_buf0 = b0;
  s_buf1 = length-gen_blk s.order a.got s.blk_num s.blk_buf1 ∙ b1;
  s_read = ap (λ g. pos (length g)) got;
  s_block = λ more.
      ap (λ n. blk_buf n (gen_blk_in a (suc i) s)) (sym e)
      ∙ filled s.order a.got file s.blk_buf1 s.blk_num got b1 more;
}

same_buf :
    (i : ℕ) (f : Peer → Peer) (b : Bool) (s : Sender)
    → blk_buf i (record (on_peer f s) { first_blk = b }) ≡ blk_buf i s
same_buf zero f b s = refl
same_buf (suc i) f b s = refl

pub on_peer-Sending :
    (file : List ℕ) (f : Peer → Peer) (s : Sender) (b : Bool)
    → (f s.peer).kb_can ≡ s.kb_can
    → (f s.peer).transferring_file ≡ s.transferring_file
    → Sending file s
    → Sending file (record (on_peer f s) { first_blk = b })
on_peer-Sending file f s b k d w = record {
  s_name = w.s_name;
  s_cancel = k ∙ w.s_cancel;
  s_file = ap is_open d ∙ w.s_file;
  s_num = w.s_num;
  s_buf0 = w.s_buf0;
  s_buf1 = w.s_buf1;
  s_read = w.s_read;
  s_block = λ more. same_buf (s.blk_num % 2) f b s ∙ w.s_block more;
}

-- The answer to an ACK: the block is sent, and the next one prepared.
abbrev pub sent_next : Answers → Sender → Sender
sent_next a s = record (vl a (on_peer clear_errors (send_blk_prep_next a s))) { first_blk = false }

pub ack_sends :
    (a : Answers) (h : Option State) (s : Sender)
    → s.kb_can ≡ false
    → has_bytes s ≡ true
    → post_event a (ser ack) (at acknak h s) ≡ posted (at acknak h (sent_next a s))
unfolding post_event
ack_sends a h s k b = rw (b, k) refl

-- The sender while a block is on its way.
abbrev counted : Sender → Sender
counted s = record (on_peer (send_most_blk (blk_buf (s.blk_num % 2) s)) s) {
  blk_num = (s.blk_num + 1) % 256;
}

abbrev finish : Answers → ℕ → Peer → Peer
finish a byte p = set_timeout a.elapsed tm_vl (clear_errors (send_last_byte byte p))

sent_next-prep :
    (a : Answers) (s : Sender)
    → is_some s.file_name ≡ true
    → sent_next a s
      ≡ record (on_peer
          (finish a (last_byte (blk_buf (s.blk_num % 2) s)))
          (gen_blk_in a ((s.blk_num + 1) % 256 % 2) (counted s))) { first_blk = false }
unfolding send_blk_prep_next
sent_next-prep a s e =
    ap
      (λ b.
        record (on_peer (finish a (last_byte (blk_buf (s.blk_num % 2) s)))
          (prep b a ((s.blk_num + 1) % 256 % 2) (counted s))) { first_blk = false })
      e

pub prepared-Sending :
    (a : Answers) (file : List ℕ) (s : Sender)
    → is_some s.file_name ≡ true
    → s.kb_can ≡ false
    → is_open s.transferring_file ≡ true
    → s.blk_num < 256
    → length s.blk_buf0 ≡ blk_sz_crc
    → length s.blk_buf1 ≡ blk_sz_crc
    → a.got ≡ take chunk_sz file
    → Sending file (sent_next a s)
unfolding clear_errors set_timeout send_last_byte send_most_blk
prepared-Sending a file s name k o num b0 b1 got =
    let blk = blk_buf (s.blk_num % 2) s in
    subst (Sending file) (sym (sent_next-prep a s name)) (
      on_peer-Sending file (finish a (last_byte blk))
        (gen_blk_in a ((s.blk_num + 1) % 256 % 2) (counted s)) false refl refl
        (gen_blk_in-Sending a ((s.blk_num + 1) % 256 % 2) file (counted s) (omega arith) refl name k
          o (omega arith) b0 b1 got))

pub sent_next-Sending :
    (a : Answers) (file : List ℕ) (s : Sender)
    → Sending file s
    → a.got ≡ take chunk_sz (drop chunk_sz file)
    → Sending (drop chunk_sz file) (sent_next a s)
sent_next-Sending a file s w got =
    prepared-Sending a (drop chunk_sz file) s w.s_name w.s_cancel w.s_file w.s_num w.s_buf0 w.s_buf1
      got
