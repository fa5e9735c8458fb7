-- ===== src/Receiver/Defs.antt =====
-- ReceiverY.h and ReceiverY.cpp of Ensc351ymodLib, without ALLOW_DEEMED_GOOD.
use y_modem_protocol.Base.{
  ℕ, ◌+◌, ◌%◌, Bool, true, false, not, ◌&&◌, ◌||◌, ltb, ◌==◌, if◌then◌else◌, List, Option, none,
  some, length, get_or, take, drop, replicate, write_at,
}
use y_modem_protocol.Base.Int.{ℤ, pos, negsuc, ◌+ℤ◌, ◌-ℤ◌, ltb_ℤ, pos_part}
use y_modem_protocol.Crc.Defs.{ByteOrder, chunk_sz, load16, crc16ns}
use y_modem_protocol.Text.Defs.{c_string, stoi}
use y_modem_protocol.Block.Defs.{rest_blk_sz_crc, data_pos, past_chunk, complement}
use y_modem_protocol.Peer.Defs.{
  Peer, Descriptor, fd, minus_one, is_open, is_minus_one, wrote, purged, cleared, closed, created,
  stored, act, can, can_len,
}

-- `peer` is the base class.
pub record Receiver : Type 0 where
  pub peer : Peer
  pub open peer use *
  pub order : ByteOrder
  pub close_prob : ℤ
  pub another_file : ℕ
  pub ncg_byte : ℕ
  pub good_blk : Bool
  pub good_blk1st : Bool
  pub sync_loss : Bool
  pub bytes_remaining : ℤ
  pub rcv_blk : List ℕ
  pub num_last_good_blk : ℕ

-- What the system answers while one event is handled: the time since the peer was constructed, the
-- bytes that `myReadcond` delivers to `getRestBlk`, the result of `creat` (`none` is -1), and
-- whether `close` succeeds.
pub record Answers : Type 0 where
  pub elapsed : ℕ
  pub got : List ℕ
  pub creat : Option ℕ
  pub close_ok : Bool

abbrev pub on_peer : (Peer → Peer) → Receiver → Receiver
on_peer f r = record r { peer = f r.peer }

-- `rcvBlk[i]`
abbrev pub byte_at : ℕ → Receiver → ℕ
byte_at i r = get_or r.rcv_blk i 0

-- `purge()`; its loop is `Peer.Loops.purge_calls`.
unfoldable pub purge : Receiver → Receiver
unfolding act
purge r = on_peer (act purged) r

-- A block that is to be refused: the line is purged.
unfoldable pub refuse : Receiver → Receiver
unfolding purge
refuse r = purge (record r { good_blk = false; good_blk1st = false })

-- A whole block whose number and complement match.
unfoldable pub check_block : Receiver → Receiver
unfolding refuse
check_block r =
    let num = byte_at 1 r in
    let first = num == (r.num_last_good_blk + 1) % 256 in
    let crc_bytes = crc16ns r.order (drop data_pos r.rcv_blk) in
    if not first && (is_minus_one r.transferring_file || not (num == r.num_last_good_blk))
    then purge (record r { good_blk1st = first; sync_loss = true; good_blk = false })
    else if not (load16 r.order (drop past_chunk r.rcv_blk) == crc_bytes)
    then refuse r
    else if not first
    then record r { good_blk = true; good_blk1st = false }
    else record r { good_blk = true; good_blk1st = true; num_last_good_blk = num }

-- `got` are the bytes that came within the character timeout, at most BUF_SZ - 1.
unfoldable pub get_rest_blk : List ℕ → Receiver → Receiver
unfolding check_block refuse
get_rest_blk got r =
    let read = record r { rcv_blk = write_at 1 got r.rcv_blk } in
    if ltb (length got) rest_blk_sz_crc
    then record read { good_blk = false; good_blk1st = false }
    else if ltb rest_blk_sz_crc (length got)
    then refuse read
    else if not (byte_at 2 read == complement (byte_at 1 read))
    then refuse read
    else check_block read

-- `CHUNK_SZ` bytes, or what is left of the file if that is less.
unfoldable pub write_chunk : Receiver → Receiver
unfolding act ◌+ℤ◌ ◌-ℤ◌
write_chunk r =
    let left = r.bytes_remaining -ℤ pos chunk_sz in
    let write_size = if ltb_ℤ left (pos 0) then pos chunk_sz +ℤ left else pos chunk_sz in
    let counted = record r { bytes_remaining = left } in
    if ltb_ℤ (pos 0) r.bytes_remaining
    then (if ltb_ℤ (pos 0) write_size
        then on_peer (act (stored (take (pos_part write_size) (drop data_pos r.rcv_blk)))) counted
        else counted)
    else r

-- The name in a stat block.
abbrev pub stat_name : List ℕ → List ℕ
stat_name blk = c_string (drop data_pos blk)

-- The text behind the name and its NUL.
abbrev pub stat_size : List ℕ → List ℕ
stat_size blk = c_string (drop (data_pos + length (stat_name blk) + 1) blk)

-- The result of `creat`: a descriptor, or -1.
abbrev pub descriptor : Option ℕ → Descriptor
descriptor none = minus_one
descriptor (some n) = fd n

-- `none` is an exception of `stoi`.
abbrev pub with_size : Option ℤ → Receiver → Option Receiver
with_size none r = none
with_size (some n) r = some (record r { bytes_remaining = n })

unfoldable pub open_file_for_transfer : Option ℕ → Receiver → Option Receiver
unfolding act
open_file_for_transfer answer r = with_size (stoi (stat_size r.rcv_blk)) (
    on_peer
      (λ p.
        act (created (stat_name r.rcv_blk)) (record p { transferring_file = descriptor answer }))
      r)

-- `myClose` gives 0 or -1.
unfoldable pub close_transferred_file : Bool → Receiver → Receiver
unfolding act
close_transferred_file ok r =
    if is_open r.transferring_file
    then (if ok
        then record (on_peer (λ p. act closed (record p { transferring_file = minus_one })) r) {
          close_prob = pos 0;
          num_last_good_blk = 255;
        }
        else record r { close_prob = negsuc 0 })
    else r

-- `PeerY::clearCan(TM_2CHAR)`; its loop is `Peer.Loops.clear_can`.
unfoldable pub clear_can_now : Receiver → Receiver
unfolding act
clear_can_now r = on_peer (act cleared) r

unfoldable pub cans : Receiver → Receiver
unfolding act
cans r = on_peer (act (wrote (replicate can_len can))) r

unfoldable pub check_for_another_file : Receiver → Receiver
check_for_another_file r = record r { another_file = byte_at data_pos r }
