-- ===== src/PartOne/Defs.antt =====
-- SenderY.h, SenderY.cpp and PeerY.cpp of Ensc351Part1. The medium is a file, whose writes take all the
-- bytes that they are given. `updcrc` and `crc16ns` are the ones of Crc/Defs.
use y_modem_protocol.Base.{
  ℕ, ◌+◌, ◌-◌, ◌/◌, ◌%◌, ◌^◌, Bool, true, false, ltb, ◌==◌, if◌then◌else◌, List, [], ◌∷◌, ◌++◌,
  Option, none, some, length, take, drop, replicate, write_at,
}
use y_modem_protocol.Crc.Defs.{ByteOrder, chunk_sz, crc16ns}
use y_modem_protocol.Text.Defs.{filename, decimal}
use y_modem_protocol.Block.Defs.{complement, data_pos, blk_sz_crc}
use y_modem_protocol.Peer.Defs.{
  Outcome, done, open_error, Action, wrote, closed, soh, eot, can, ctrl_z,
}

abbrev pub can_len : ℕ
can_len = 2

-- `order` is that of the machine. `log` has the writes to the medium and the closes of files.
pub record SenderY : Type 0 where
  pub order : ByteOrder
  pub result : List Outcome
  pub bytes_rd : ℕ
  pub blk_buf : List ℕ
  pub blk_num : ℕ
  pub log : List Action

-- A file and what the system answers for it: whether `open` succeeds, `st_size`, what the reads give,
-- one after another, and whether `close` succeeds. A read that fails ends the process, and the list.
pub record File : Type 0 where
  pub name : List ℕ
  pub opens : Bool
  pub size : ℕ
  pub reads : List (List ℕ)
  pub closes : Bool

-- The value of `crc16ns`, its high byte first.
unfoldable pub put_crc : ByteOrder → List ℕ → List ℕ
put_crc order blk =
    let my_crc16ns = crc16ns order (drop data_pos blk) in
    write_at (blk_sz_crc - 2) (my_crc16ns / 2 ^ 8 ∷ my_crc16ns % 256 ∷ []) blk

-- `strncpy(&blkBuf[pos], text, n)`: the text, as far as it fits, filled up with NULs.
abbrev pub put_text : ℕ → ℕ → List ℕ → List ℕ → List ℕ
put_text pos n text blk = write_at pos (take n (text ++ replicate n 0)) blk

-- `genStatBlk` on a block of 133 bytes; `is_end` is the comparison of the pointers `fileName == ""`.
-- `none`: the name is so long that the number of bytes of the second `strncpy` is negative, which as a
-- `size_t` is beyond all memory.
unfoldable pub gen_stat_blk : ByteOrder → Bool → List ℕ → ℕ → ℕ → Option (List ℕ)
unfolding put_crc
gen_stat_blk order is_end name st_size blk_num =
    let cleared = replicate blk_sz_crc 0 in
    let headed = write_at 0 (soh ∷ blk_num ∷ complement blk_num ∷ []) cleared in
    let file_name = filename name in
    let named = put_text 3 (blk_sz_crc - 3) file_name headed in
    let ended = write_at (3 + length file_name) (0 ∷ []) named in
    let start = length file_name + 4 in
    let sized = put_text start (blk_sz_crc - start) (decimal (st_size % 2 ^ 32)) ended in
    if ltb blk_sz_crc start
    then none
    else some (if is_end then write_at 3 (replicate chunk_sz 0) sized else put_crc order sized)

-- `genBlk`: `got` is what `myRead` put at the data of the block, and its length is `bytesRd`.
unfoldable pub gen_blk : ByteOrder → List ℕ → ℕ → List ℕ → List ℕ
unfolding put_crc
gen_blk order got blk_num blk =
    let filled = write_at data_pos got blk in
    let headed = write_at 0 (soh ∷ blk_num ∷ complement blk_num ∷ []) filled in
    put_crc order (
      if ltb (length got) chunk_sz
      then write_at (length got + 3) (replicate (chunk_sz - length got) ctrl_z) headed
      else headed)

unfoldable pub act : Action → SenderY → SenderY
act a s = record s { log = s.log ++ a ∷ [] }

unfoldable pub send_byte : ℕ → SenderY → SenderY
unfolding act
send_byte byte s = act (wrote (byte ∷ [])) s

unfoldable pub cans : SenderY → SenderY
unfolding act
cans s = act (wrote (replicate can_len can)) s

unfoldable pub send_blk : SenderY → SenderY
unfolding act
send_blk s = act (wrote s.blk_buf) s

-- `genBlk(blkBuf)`
abbrev pub gen_next : List ℕ → SenderY → SenderY
gen_next got s = record s {
  blk_buf = gen_blk s.order got s.blk_num s.blk_buf;
  bytes_rd = length got;
}

-- The rest of `statBlk`, for what `genStatBlk` leaves.
abbrev pub send_stat : Option (List ℕ) → SenderY → Option SenderY
send_stat none s = none
send_stat (some blk) s = some (send_blk (record s { blk_buf = blk; blk_num = 1 }))

-- `genStatBlk` counts `blkNum`, which is 0 before it, up.
unfoldable pub stat_blk : Bool → List ℕ → ℕ → SenderY → Option SenderY
unfolding send_blk
stat_blk is_end name st_size s = send_stat (gen_stat_blk s.order is_end name st_size 0) s

-- The `while (bytesRd)` loop, on the reads that are left. `none`: there are no more reads.
unfoldable pub data_loop : List (List ℕ) → SenderY → Option SenderY
unfolding send_blk
data_loop [] s = if s.bytes_rd == 0 then some s else none
data_loop (got ∷ reads) s =
    let more =
      data_loop reads (gen_next got (send_blk (record s { blk_num = (s.blk_num + 1) % 256 }))) in
    if s.bytes_rd == 0 then some s else more

-- Two EOTs and the close; an error of `close` ends the process.
abbrev pub finish_file : Bool → SenderY → Option SenderY
finish_file false s = none
finish_file true s =
    let told = act closed (send_byte eot (send_byte eot s)) in
    some (record told { result = told.result ++ done ∷ [] })

abbrev pub and_then : Option SenderY → (SenderY → Option SenderY) → Option SenderY
and_then none f = none
and_then (some s) f = f s

abbrev pub first_read : List (List ℕ) → SenderY → Option SenderY
first_read [] s = none
first_read (got ∷ reads) s = data_loop reads (gen_next got s)

-- A file that is open. Its name is no empty string, so that it is no pointer to one.
unfoldable pub send_file : File → SenderY → Option SenderY
unfolding stat_blk data_loop send_byte
send_file f s =
    and_then (stat_blk false f.name f.size s)
      (λ t. and_then (first_read f.reads t) (finish_file f.closes))

-- `sendFiles`. `is_end` is whether the compiler gives both `""` one address, `st_size` the size that is
-- there when `stat("")` has failed. The comma that is cut off the result is left out.
unfoldable pub send_files : Bool → ℕ → List File → SenderY → Option SenderY
unfolding stat_blk send_file cans
send_files is_end st_size [] s = stat_blk is_end [] st_size s
send_files is_end st_size (f ∷ files) s =
    let more = send_files is_end st_size files in
    if f.opens
    then and_then (send_file f s) more
    else some (let told = cans s in record told { result = told.result ++ open_error ∷ [] })
