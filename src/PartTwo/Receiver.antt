-- ===== src/PartTwo/Receiver.antt =====
-- ReceiverY.h and ReceiverY.cpp of Ensc351Part2. A `PE_NOT` that gets another number of bytes than
-- it wants ends the process.
use y_modem_protocol.Base.{
  ℕ, zero, suc, ◌+◌, Bool, true, false, not, leb, ◌==◌, if◌then◌else◌, List, [], ◌∷◌, ◌++◌, Option,
  none, some, length, get_or, take, drop, replicate, write_at,
}
use y_modem_protocol.Base.Int.{ℤ, pos, negsuc}
use y_modem_protocol.Crc.Defs.{ByteOrder, chunk_sz, load16, crc16ns}
use y_modem_protocol.Text.Defs.{c_string}
use y_modem_protocol.Block.Defs.{rest_blk_sz_crc, data_pos, past_chunk, complement}
use y_modem_protocol.Peer.Defs.{
  Descriptor, fd, minus_one, is_open, is_minus_one, Outcome, done, creat_error, close_error, Action,
  wrote, closed, created, stored, soh, ack, nak, can,
}

-- `CAN_LEN` of Part 2.
abbrev pub can_len : ℕ
can_len = 2

-- `order` is that of the machine. `log` has the calls that write to the medium and to files.
pub record ReceiverY : Type 0 where
  pub order : ByteOrder
  pub result : List Outcome
  pub transferring_file : Descriptor
  pub close_prob : ℤ
  pub another_file : ℕ
  pub ncg_byte : ℕ
  pub good_blk : Bool
  pub good_blk1st : Bool
  pub sync_loss : Bool
  pub rcv_blk : List ℕ
  pub num_last_good_blk : ℕ
  pub log : List Action

-- The constructor; `blk` is the array as it then is.
abbrev pub new_receiver : ByteOrder → List ℕ → ReceiverY
new_receiver order blk = record {
  order = order;
  result = [];
  transferring_file = minus_one;
  close_prob = pos 1;
  another_file = 0xFF;
  ncg_byte = b'C';
  good_blk = false;
  good_blk1st = false;
  sync_loss = false;
  rcv_blk = blk;
  num_last_good_blk = 0;
  log = [];
}

unfoldable pub act : Action → ReceiverY → ReceiverY
act a r = record r { log = r.log ++ a ∷ [] }

unfoldable pub send_byte : ℕ → ReceiverY → ReceiverY
unfolding act
send_byte b r = act (wrote (b ∷ [])) r

-- The end of `getRestBlk`, for a block whose complement and CRC match: `blkNum` is compared with
-- `m_numLastGoodBlk + 1`, an `int`.
abbrev pub number_block : ℕ → ReceiverY → ReceiverY
number_block num r =
    let next = num == r.num_last_good_blk + 1 in
    record r {
      good_blk = true;
      sync_loss = not next;
      good_blk1st = next;
      num_last_good_blk = if next then num else r.num_last_good_blk;
    }

-- `getRestBlk`, for the `REST_BLK_SZ_CRC` bytes read.
unfoldable pub get_rest_blk : List ℕ → ReceiverY → ReceiverY
get_rest_blk got r =
    let read = record r {
      rcv_blk = write_at 1 got r.rcv_blk;
      good_blk = true;
      good_blk1st = true;
    } in
    let num = get_or read.rcv_blk 1 0 in
    let bad = record read { good_blk = false } in
    if not (num == complement (get_or read.rcv_blk 2 0))
    then bad
    else if not (
        load16 r.order (drop past_chunk read.rcv_blk)
        == crc16ns r.order (drop data_pos read.rcv_blk))
    then bad
    else number_block num read

unfoldable pub write_chunk : ReceiverY → ReceiverY
unfolding act
write_chunk r = act (stored (take chunk_sz (drop data_pos r.rcv_blk))) r

unfoldable pub open_file_for_transfer : Option ℕ → ReceiverY → ReceiverY
unfolding act
open_file_for_transfer answer r =
    act (created (c_string (drop data_pos r.rcv_blk)))
      (record r { transferring_file = elim answer [ some n ↦ fd n | none ↦ minus_one ] })

-- The second part of the result: whether `errno` is returned.
unfoldable pub close_transferred_file : Bool → ReceiverY → ReceiverY × Bool
unfolding act
close_transferred_file ok r =
    if is_open r.transferring_file
    then (if ok
        then (
          act closed (record r {
            close_prob = pos 0;
            num_last_good_blk = 255;
            transferring_file = minus_one;
          }),
          false,
        )
        else (record r { close_prob = negsuc 0 }, true))
    else (r, false)

unfoldable pub cans : ReceiverY → ReceiverY
unfolding act
cans r = act (wrote (replicate can_len can)) r

abbrev pub check_for_another_file : ReceiverY → ReceiverY
check_for_another_file r = record r { another_file = get_or r.rcv_blk data_pos 0 }

-- A read of one byte into the front of the array.
abbrev pub read_first : ℕ → ReceiverY → ReceiverY
read_first b r = record r { rcv_blk = write_at 0 (b ∷ []) r.rcv_blk }

-- The body of the inner loop, behind `getRestBlk`.
unfoldable pub answer_block : ReceiverY → ReceiverY
unfolding send_byte write_chunk
answer_block r = if r.good_blk then write_chunk (send_byte ack r) else send_byte nak r

-- The inner loop, on the bytes of the medium, up to the first byte that is not SOH, which is read too:
-- what is left of the bytes, and the receiver. `none` is the end of the process, or of the model's
-- fuel, which the number of bytes bounds.
unfoldable pub receive_data : ℕ → List ℕ → ReceiverY → Option (List ℕ × ReceiverY)
receive_data fuel [] r = none
receive_data zero (b ∷ line) r = none
receive_data (suc fuel) (b ∷ line) r =
    let more =
      receive_data fuel (drop rest_blk_sz_crc line)
        (answer_block (get_rest_blk (take rest_blk_sz_crc line) (read_first b r))) in
    if b == soh
    then (if leb rest_blk_sz_crc (length line) then more else none)
    else some (line, read_first b r)

-- The end of a file: NAK for the byte that ended the loop, a second byte, the close.
abbrev pub end_file : Bool → List ℕ → ReceiverY → Option (List ℕ × ReceiverY)
end_file ok [] r = none
end_file ok (b ∷ line) r =
    let (closed_, failed) = close_transferred_file ok (read_first b (send_byte nak r)) in
    some (
      if failed then (line, record closed_ { result = close_error ∷ [] }) else (
        line,
        let acked = send_byte ack closed_ in record acked { result = acked.result ++ done ∷ [] },
      ))

-- The condition of the outer loop: ask for a stat block and read it, and whether there is a file.
unfoldable pub stat_block : List ℕ → ReceiverY → Option (List ℕ × ReceiverY)
stat_block [] r = none
stat_block (b ∷ line) r =
    if leb rest_blk_sz_crc (length line)
    then some (
      drop rest_blk_sz_crc line,
      check_for_another_file
          (get_rest_blk (take rest_blk_sz_crc line) (read_first b (send_byte r.ncg_byte r))),
    )
    else none

abbrev pub and_then :
    Option (List ℕ × ReceiverY) → (List ℕ → ReceiverY → Option ReceiverY) → Option ReceiverY
and_then none f = none
and_then (some (line, r)) f = f line r

-- `receiveFiles`; the results of `creat` and `close` for one file after another are a list, and
-- `none` is the end of the process, or the wish for more than the lists have. The text that is cut
-- off the result at the end is left out.
unfoldable pub receive_files : List (Option ℕ × Bool) → List ℕ → ReceiverY → Option ReceiverY
unfolding stat_block open_file_for_transfer cans send_byte
receive_files [] line r =
    and_then (stat_block line r)
      (λ l s. if s.another_file == 0 then some (send_byte ack s) else none)
receive_files ((creat, ok) ∷ files) line r =
    let next = receive_files files in
    and_then (stat_block line r) (λ l s.
      let opened = open_file_for_transfer creat s in
      if s.another_file == 0
      then some (send_byte ack s)
      else if is_minus_one opened.transferring_file
      then some (let told = cans opened in record told { result = creat_error ∷ [] })
      else and_then (receive_data (length l) l (send_byte s.ncg_byte (send_byte ack opened)))
          (λ l' t. and_then (end_file ok l' t) next))
