-- ===== src/Block/Defs.antt =====
-- The positions in a block (PeerY.h), and the sender's two ways to fill one (SenderY.cpp). The
-- arguments that stand for other code are the bytes that `myRead` delivered and the size that `stat`
-- reported.
use y_modem_protocol.Base.{
  ℕ, ◌+◌, ◌-◌, ◌%◌, ltb, if◌then◌else◌, List, [], ◌∷◌, ◌++◌, Option, none, some, length, take, drop,
  replicate, write_at,
}
use y_modem_protocol.Crc.Defs.{ByteOrder, chunk_sz, store16, crc16ns}
use y_modem_protocol.Text.Defs.{filename, decimal}
use y_modem_protocol.Peer.Defs.{soh, ctrl_z}

abbrev pub soh_oh : ℕ
soh_oh = 1

abbrev pub data_pos : ℕ
data_pos = 3

abbrev pub past_chunk : ℕ
past_chunk = 131

abbrev pub blk_sz_crc : ℕ
blk_sz_crc = 133

abbrev pub rest_blk_sz_crc : ℕ
rest_blk_sz_crc = 132

-- `BUF_SZ`: a block and 30 bytes for glitches.
abbrev pub buf_sz : ℕ
buf_sz = 163

-- `~b` on a `uint8_t`.
abbrev pub complement : ℕ → ℕ
complement b = 255 - b

-- `crc16ns((uint16_t*)&blkBuf[PAST_CHUNK], &blkBuf[DATA_POS])`.
unfoldable pub put_crc : ByteOrder → List ℕ → List ℕ
put_crc order blk = write_at past_chunk (store16 order (crc16ns order (drop data_pos blk))) blk

-- `genBlk`: `got` is what `myRead` put at the data of the block, and its length is `bytesRd`.
unfoldable pub gen_blk : ByteOrder → List ℕ → ℕ → List ℕ → List ℕ
gen_blk order got blk_num blk =
    if ltb 0 (length got)
    then (let filled = write_at data_pos got blk in
        let headed = write_at 0 (soh ∷ blk_num ∷ complement blk_num ∷ []) filled in
        let pad_size = (chunk_sz + 256 - length got) % 256 in
        put_crc order (write_at (data_pos + length got) (replicate pad_size ctrl_z) headed))
    else blk

-- `index` behind the name and its NUL, `DATA_POS` if there is no name.
abbrev pub name_end : List ℕ → ℕ
name_end base = data_pos + (length base + 1)

-- The bytes that `snprintf` leaves in `space` bytes: the digits that fit, and a NUL.
abbrev pub printed : ℕ → ℕ → List ℕ
printed space size = take (space - 1) (decimal size) ++ 0 ∷ []

-- `uint8_t padSize = CHUNK_SZ + DATA_POS - index`, for an index of at most 132.
abbrev pub stat_pad : ℕ → ℕ
stat_pad index = (past_chunk + 256 - index) % 256

-- The end of `genStatBlk`, from `index` on.
unfoldable pub finish_stat : ByteOrder → ℕ → List ℕ → List ℕ
finish_stat order index blk =
    let padded = write_at index (replicate (stat_pad index) 0) blk in
    put_crc order (write_at 0 (soh ∷ []) padded)

-- `genStatBlk`: `none` is `exit(-1)`. A write past the array is left out.
unfoldable pub gen_stat_blk : ByteOrder → List ℕ → ℕ → List ℕ → Option (List ℕ)
gen_stat_blk order name size blk =
    let headed = write_at soh_oh (0 ∷ complement 0 ∷ []) blk in
    let base = filename name in
    let space = chunk_sz + data_pos - name_end base in
    let needed = length (decimal size) in
    if ltb 0 (length name)
    then if ltb chunk_sz (length base + 1 + 1)
      then none
      else if ltb space needed
      then none
      else some (
          finish_stat order (name_end base + (needed + 1)) (
            write_at (name_end base) (printed space size)
              (write_at data_pos (base ++ 0 ∷ []) headed)))
    else some (finish_stat order data_pos headed)
