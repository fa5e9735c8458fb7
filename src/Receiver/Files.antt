-- ===== src/Receiver/Files.antt =====
-- From a stat block to the receiver that takes in the file.
use y_modem_protocol.Base.{
  ℕ, ◌<◌, ◌≡◌, ◌≢◌, refl, sym, ap, ◌∙◌, subst, Bool, true, false, if◌then◌else◌, ==_ne, List,
  Option, some, length, write_at, arith,
}
use y_modem_protocol.Base.Int.{pos, negsuc}
use y_modem_protocol.Crc.Defs.{chunk_sz}
use y_modem_protocol.Text.Defs.{stoi}
use y_modem_protocol.Block.Defs.{data_pos, buf_sz}
use y_modem_protocol.Peer.Defs.{
  fd, is_minus_one, created, cont, ser, soh, ack, err_b, act, clear_errors,
}
use y_modem_protocol.Receiver.Defs.{
  Receiver, Answers, on_peer, byte_at, stat_name, stat_size, with_size, get_rest_blk,
  open_file_for_transfer, check_for_another_file,
}
use y_modem_protocol.Receiver.Chart.{
  State, first_byte_stat, first_byte_data, cond_stat, cond_check, cond_open, soh_timeout, send,
  closed_well,
}
use y_modem_protocol.Receiver.Machine.{posted, fired, fire_in, deliver, post_event}
use y_modem_protocol.Receiver.Runs.{at}
use y_modem_protocol.Receiver.Accept.{rest_of, read_in}
use y_modem_protocol.Receiver.Blocks.{get_rest_blk-next}

-- The errors that still count when a stat block is read in.
abbrev pub errors_kept : Receiver → ℕ
errors_kept r = if closed_well r then 0 else r.err_cnt

-- `x` is `r` with a good block read in, while it waited for a stat block.
pub record StatRead (got : List ℕ) (r x : Receiver) : Type 0 where
  pub x_array : x.rcv_blk ≡ write_at 1 got r.rcv_blk
  pub x_cancel : x.kb_can ≡ false
  pub x_sync : x.sync_loss ≡ false
  pub x_good : x.good_blk ≡ true
  pub x_num : x.num_last_good_blk ≡ 0
  pub x_errors : x.err_cnt ≡ errors_kept r
  pub x_log : x.log ≡ r.log
  pub x_ncg : x.ncg_byte ≡ r.ncg_byte

abbrev pub with_file : ℕ → ℕ → Receiver → Receiver
with_file f n x =
    record (on_peer
      (λ p. act (created (stat_name x.rcv_blk)) (record p { transferring_file = fd f })) x) {
        bytes_remaining = pos n;
      }

-- The receiver that has opened the file.
abbrev pub opened : Answers → ℕ → ℕ → Receiver → Receiver
opened a f n x =
    soh_timeout a (send x.ncg_byte (send ack (with_file f n (check_for_another_file x))))

stat_checked :
    (a : Answers) (h : Option State) (x : Receiver)
    → x.sync_loss ≡ false
    → x.err_cnt < err_b
    → x.good_blk ≡ true
    → fire_in (some cond_stat) a cont (at cond_stat h x)
      ≡ fired (at cond_check h (check_for_another_file x)) true
unfolding fire_in
stat_checked a h x s e g = rw (s, g) (ground arith)

file_named :
    (a : Answers) (h : Option State) (y z : Receiver)
    → y.another_file ≢ 0
    → open_file_for_transfer a.creat y ≡ some z
    → fire_in (some cond_check) a cont (at cond_check h y) ≡ fired (at cond_open h z) true
unfolding fire_in
file_named a h y z ne e = rw (==_ne y.another_file 0 ne, e) refl

file_opened :
    (a : Answers) (h : Option State) (z : Receiver)
    → is_minus_one z.transferring_file ≡ false
    → fire_in (some cond_open) a cont (at cond_open h z)
      ≡ fired (at first_byte_data h (soh_timeout a (send z.ncg_byte (send ack z)))) false
unfolding fire_in
file_opened a h z e = rw e refl

open_file-opened :
    (c : Option ℕ) (f n : ℕ) (x : Receiver)
    → c ≡ some f
    → stoi (stat_size x.rcv_blk) ≡ some (pos n)
    → open_file_for_transfer c x ≡ some (with_file f n x)
unfolding open_file_for_transfer
open_file-opened c f n x e size =
    ap (λ o. open_file_for_transfer o x) e
    ∙ ap
        (λ o. with_size o (
          on_peer (λ p. act (created (stat_name x.rcv_blk)) (record p { transferring_file = fd f }))
            x))
        size

pub stat_answered :
    (a : Answers) (f n : ℕ) (h : Option State) (x : Receiver)
    → x.sync_loss ≡ false
    → x.err_cnt < err_b
    → x.good_blk ≡ true
    → byte_at data_pos x ≢ 0
    → a.creat ≡ some f
    → stoi (stat_size x.rcv_blk) ≡ some (pos n)
    → deliver 3 a (fired (at cond_stat h x) true) ≡ posted (at first_byte_data h (opened a f n x))
unfolding deliver check_for_another_file act
stat_answered a f n h x s e g ne c size =
    ap (deliver 2 a) (stat_checked a h x s e g)
    ∙ ap (deliver 1 a) (
        file_named a h (check_for_another_file x) (with_file f n (check_for_another_file x)) ne
          (open_file-opened a.creat f n (check_for_another_file x) c size))
    ∙ ap (deliver 0 a) (file_opened a h (with_file f n (check_for_another_file x)) refl)

-- The receiver after a good block.
abbrev good_read : List ℕ → Receiver → Receiver
good_read got r = record (read_in got r) {
  good_blk = true;
  good_blk1st = true;
  num_last_good_blk = 0;
}

abbrev perhaps_cleared : Bool → Receiver → Receiver
perhaps_cleared b g = if b then record (on_peer clear_errors g) { close_prob = negsuc 0 } else g

good_read-StatRead :
    (b : Bool) (got : List ℕ) (r : Receiver)
    → closed_well r ≡ b
    → r.kb_can ≡ false
    → r.sync_loss ≡ false
    → StatRead got r (perhaps_cleared b (good_read got r))
unfolding clear_errors
good_read-StatRead true got r w c s = record {
  x_array = refl;
  x_cancel = c;
  x_sync = s;
  x_good = refl;
  x_num = refl;
  x_errors = rw w refl;
  x_log = refl;
  x_ncg = refl;
}
good_read-StatRead false got r w c s = record {
  x_array = refl;
  x_cancel = c;
  x_sync = s;
  x_good = refl;
  x_num = refl;
  x_errors = rw w refl;
  x_log = refl;
  x_ncg = refl;
}

pub stat_read :
    (a : Answers) (chunk : List ℕ) (h : Option State) (r : Receiver)
    → length chunk ≡ chunk_sz
    → length r.rcv_blk ≡ buf_sz
    → r.kb_can ≡ false
    → r.sync_loss ≡ false
    → r.num_last_good_blk ≡ 255
    → a.got ≡ rest_of 0 chunk
    → (x : Receiver) × StatRead a.got r x
      × (post_event a (ser soh) (at first_byte_stat h r)
          ≡ deliver 3 a (fired (at cond_stat h x) true))
unfolding post_event
stat_read a chunk h r len k c s n got = (
  perhaps_cleared (closed_well r) (good_read a.got r),
  good_read-StatRead (closed_well r) a.got r refl c s,
  rw (read, c) refl,
)
  where
    read : get_rest_blk a.got r ≡ good_read a.got r
    read =
        subst (λ b. get_rest_blk b r ≡ good_read b r) (sym got)
          (get_rest_blk-next 0 chunk r len k (omega (arith, n)))
