-- ===== src/Sender/Defs.antt =====
-- SenderY.h and SenderY.cpp of Ensc351ymodLib.
use y_modem_protocol.Base.{
  ℕ, zero, suc, ◌+◌, ◌-◌, ◌%◌, Bool, if◌then◌else◌, List, [], ◌∷◌, Option, none, some, length,
  get_or, take, replicate, is_some,
}
use y_modem_protocol.Base.Int.{ℤ, pos}
use y_modem_protocol.Crc.Defs.{ByteOrder}
use y_modem_protocol.Block.Defs.{gen_blk, gen_stat_blk, blk_sz_crc}
use y_modem_protocol.Peer.Defs.{
  Peer, fd, minus_one, minus_two, is_open, is_minus_one, wrote, drained, dumped, cleared, closed,
  slept, act, can,
}

-- `peer` is the base class.
pub record Sender : Type 0 where
  pub peer : Peer
  pub open peer use *
  pub order : ByteOrder
  pub bytes_rd : ℤ
  pub file_name : Option (List ℕ)
  pub first_blk : Bool
  pub file_names : List (List ℕ)
  pub file_name_index : ℕ
  pub blk_buf0 : List ℕ
  pub blk_buf1 : List ℕ
  pub blk_num : ℕ

-- What the system answers while one event is handled: the time since the peer was constructed, the
-- result of `open` (`none` is -1), the size from `stat`, and the bytes that `read` delivers.
pub record Answers : Type 0 where
  pub elapsed : ℕ
  pub opened : Option ℕ
  pub size : ℕ
  pub got : List ℕ

abbrev pub on_peer : (Peer → Peer) → Sender → Sender
on_peer f s = record s { peer = f s.peer }

-- `blkBufs[i]`
abbrev pub blk_buf : ℕ → Sender → List ℕ
blk_buf zero s = s.blk_buf0
blk_buf (suc i) s = s.blk_buf1

abbrev pub set_blk_buf : ℕ → List ℕ → Sender → Sender
set_blk_buf zero blk s = record s { blk_buf0 = blk }
set_blk_buf (suc i) blk s = record s { blk_buf1 = blk }

-- All but the last byte go to the medium; the last byte is `last_byte blk`.
unfoldable pub send_most_blk : List ℕ → Peer → Peer
unfolding act
send_most_blk blk p = act (wrote (take (blk_sz_crc - 1) blk)) p

unfoldable pub last_byte : List ℕ → ℕ
last_byte blk = get_or blk (blk_sz_crc - 1) 0

-- Wait until the medium has taken the rest of the block, dump the glitches, write the byte.
unfoldable pub send_last_byte : ℕ → Peer → Peer
unfolding act
send_last_byte byte p = act (wrote (byte ∷ [])) (act dumped (act drained p))

-- `genBlk(blkBufs[i])`.
unfoldable pub gen_blk_in : Answers → ℕ → Sender → Sender
gen_blk_in a i s = record (set_blk_buf i (gen_blk s.order a.got s.blk_num (blk_buf i s)) s) {
  bytes_rd = pos (length a.got);
}

unfoldable pub open_file_to_transfer : Answers → Sender → Sender
open_file_to_transfer a s = elim a.opened [
  | some n ↦ on_peer (λ p. record p { transferring_file = fd n }) s
  | none ↦ on_peer (λ p. record p { transferring_file = minus_one }) s
]

-- `genStatBlk(blkBufs[0], name)`.
unfoldable pub gen_stat_blk_in : Answers → List ℕ → Sender → Option Sender
gen_stat_blk_in a name s = elim (gen_stat_blk s.order name a.size s.blk_buf0) [
  | some blk ↦ some (record s { blk_buf0 = blk })
  | none ↦ none
]

-- `fileNames[i]`
unfoldable pub name_at : ℕ → List (List ℕ) → Option (List ℕ)
name_at i [] = none
name_at zero (name ∷ names) = some name
name_at (suc i) (name ∷ names) = name_at i names

-- `none` is the `exit(-1)` of `genStatBlk`.
unfoldable pub prep_stat_blk : Answers → Sender → Option Sender
prep_stat_blk a s = elim (name_at s.file_name_index s.file_names) [
  | some name ↦
      (let next = record s {
        blk_num = 0;
        file_name = some name;
        file_name_index = s.file_name_index + 1;
      } in
        let tried = open_file_to_transfer a next in
        if is_minus_one tried.transferring_file then some tried else gen_stat_blk_in a name tried)
  | none ↦
      (let last =
          on_peer (λ p. record p { transferring_file = minus_two }) (record s { blk_num = 0 }) in
        elim (gen_stat_blk_in a [] last) [
          | some t ↦ some (record t { file_name = none })
          | none ↦ none
        ])
]

-- The block goes out while the next one is prepared, if there is a file.
unfoldable pub send_blk_prep_next : Answers → Sender → Sender
unfolding send_most_blk last_byte gen_blk_in send_last_byte
send_blk_prep_next a s =
    let blk = blk_buf (s.blk_num % 2) s in
    let most = on_peer (send_most_blk blk) s in
    let counted = record most { blk_num = (s.blk_num + 1) % 256 } in
    let prepared =
      if is_some s.file_name then gen_blk_in a (counted.blk_num % 2) counted else counted in
    on_peer (send_last_byte (last_byte blk)) prepared

-- `(uint8_t)(blkNum-1)`
abbrev pub previous : ℕ → ℕ
previous n = (n + 255) % 256

unfoldable pub resend_blk : Sender → Sender
unfolding send_most_blk last_byte send_last_byte
resend_blk s =
    let blk = blk_buf (previous s.blk_num % 2) s in
    on_peer (λ p. send_last_byte (last_byte blk) (send_most_blk blk p)) s

-- The second part of the result is the return value: 0 if the file was closed now.
unfoldable pub close_transferred_file : Peer → Peer × ℕ
unfolding act
close_transferred_file p =
    if is_open p.transferring_file
    then (act closed (record p { transferring_file = minus_one }), 0)
    else (p, 1)

-- `PeerY::clearCan(TM_CHAR)`; its loop is `Peer.Loops.clear_can`.
unfoldable pub clear_can_now : Peer → Peer
unfolding act
clear_can_now p = act cleared p

-- The loop of `cans`: `left` bursts of two CAN characters, 300 ms apart.
unfoldable pub can_bursts : ℕ → Peer → Peer
unfolding act
can_bursts zero p = p
can_bursts (suc zero) p = act (wrote (replicate 2 can)) p
can_bursts (suc (suc left)) p =
    can_bursts (suc left) (act (slept 300) (act (wrote (replicate 2 can)) p))

unfoldable pub cans : Peer → Peer
unfolding can_bursts
cans p = can_bursts 4 p
