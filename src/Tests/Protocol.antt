-- ===== src/Tests/Protocol.antt =====
-- The theorems on the CRC, the blocks, the text and the loops, at concrete inputs.
use y_modem_protocol.Base.{
  ℕ, ◌+◌, ◌-◌, ◌%◌, ◌<◌, ◌≡◌, ◌≢◌, refl, List, [], ◌∷◌, none, some, length, replicate, arith,
}
use y_modem_protocol.Crc.Defs.{chunk_sz, updcrc, little_endian}
use y_modem_protocol.Crc.Register.{bits_of, push_bits, updcrc-push_bits}
use y_modem_protocol.Text.Defs.{filename, decimal}
use y_modem_protocol.Block.Defs.{blk_sz_crc, gen_blk, gen_stat_blk, name_end, stat_pad}
use y_modem_protocol.Block.Layout.{block, padded, gen_blk_lem}
use y_modem_protocol.Block.Stat.{stat_chunk, Fits, gen_stat_blk_lem, gen_stat_blk_overrun}
use y_modem_protocol.Tests.Data.{name_a, blank}

updcrc-push_bits_example : updcrc b'a' 4660 ≡ push_bits (bits_of b'a') 4660 % 65536
updcrc-push_bits_example = updcrc-push_bits b'a' 4660

gen_blk_lem_example : gen_blk little_endian name_a 1 blank ≡ block 1 (padded name_a)
gen_blk_lem_example = gen_blk_lem little_endian name_a blank 1 (omega arith) (omega arith) refl

abbrev path_a : List ℕ
path_a = b'/' ∷ b'a' ∷ []

Fits-130 : Fits (filename path_a) 130
unfolding decimal filename
Fits-130 = omega arith

gen_stat_blk_lem_example :
    gen_stat_blk little_endian path_a 130 blank ≡ some (block 0 (stat_chunk (filename path_a) 130))
gen_stat_blk_lem_example =
    gen_stat_blk_lem little_endian path_a blank 130 (omega arith) Fits-130 refl

abbrev long_name : List ℕ
long_name = replicate 124 b'a'

fills : length (filename long_name) + 1 + length (decimal 130) ≡ chunk_sz
unfolding decimal filename
fills = refl

gen_stat_blk_overrun_example :
    let index = name_end (filename long_name) + (length (decimal 130) + 1) in
    (gen_stat_blk little_endian long_name 130 blank ≢ none)
    × (index ≡ blk_sz_crc - 1)
    × (blk_sz_crc < index + stat_pad index)
gen_stat_blk_overrun_example =
    gen_stat_blk_overrun little_endian long_name blank 130 (omega arith) fills
