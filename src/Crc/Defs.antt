-- ===== src/Crc/Defs.antt =====
-- crc.c: `updcrc`, `crc16ns` and `my_htons`.
use Prim.Native.Nat.{bit_xor}
use y_modem_protocol.Base.{
  ℕ, zero, suc, ◌+◌, ◌*◌, ◌/◌, ◌%◌, ◌^◌, ◌==◌, if◌then◌else◌, List, [], ◌∷◌, get_or,
}

-- `CHUNK_SZ`.
abbrev pub chunk_sz : ℕ
chunk_sz = 128

-- Bit `k` of `x`, as the tests `crc & 0x8000` (bit 15) and `c & 0400` (bit 8) read it.
abbrev pub bit : ℕ → ℕ → ℕ
bit k x = x / 2 ^ k % 2

-- One round of the loop of `updcrc`: shift the register, take in a bit of `c`, and reduce if the
-- bit that bit 15 held was set. `c2` is `c <<= 1`.
unfoldable pub updcrc_round : ℕ → ℕ → ℕ
updcrc_round c2 crc =
    let shifted = crc * 2 % 2 ^ 32 + bit 8 c2 in
    if bit 15 crc == 1 then bit_xor shifted 0x1021 else shifted

-- `for (count=8; --count>=0;)`.
unfoldable pub updcrc_loop : ℕ → ℕ → ℕ → ℕ
updcrc_loop zero c crc = crc
updcrc_loop (suc count) c crc = updcrc_loop count (c * 2) (updcrc_round (c * 2) crc)

-- The result is an `unsigned short`.
unfoldable pub updcrc : ℕ → ℕ → ℕ
updcrc c crc = updcrc_loop 8 c crc % 2 ^ 16

-- The loop of `crc16ns` over the bytes from `cp` on; `0377 & b` is `b % 256`.
unfoldable pub crc_bytes : ℕ → List ℕ → ℕ → ℕ
crc_bytes zero cp oldcrc = oldcrc
crc_bytes (suc wcj) [] oldcrc = oldcrc
crc_bytes (suc wcj) (b ∷ cp) oldcrc = crc_bytes wcj cp (updcrc (b % 256) oldcrc)

pub data ByteOrder : Type 0 where
  little_endian big_endian : ByteOrder

-- The bytes of a `uint16_t` in memory, and the `uint16_t` that two bytes in memory are.
unfoldable pub store16 : ByteOrder → ℕ → List ℕ
store16 little_endian n = n % 256 ∷ n / 256 ∷ []
store16 big_endian n = n / 256 ∷ n % 256 ∷ []

unfoldable pub load16 : ByteOrder → List ℕ → ℕ
load16 little_endian bytes = get_or bytes 0 0 + get_or bytes 1 0 * 256
load16 big_endian bytes = get_or bytes 0 0 * 256 + get_or bytes 1 0

unfoldable pub my_htons : ByteOrder → ℕ → ℕ
unfolding store16
my_htons order n = get_or (store16 order n) 0 0 * 2 ^ 8 + get_or (store16 order n) 1 0

-- The register after the chunk and two bytes of zeros.
unfoldable pub crc_register : List ℕ → ℕ
crc_register buf = updcrc 0 (updcrc 0 (crc_bytes chunk_sz buf 0))

-- The value left at `crc16nsP`.
unfoldable pub crc16ns : ByteOrder → List ℕ → ℕ
unfolding crc_register my_htons
crc16ns order buf = my_htons order (crc_register buf % 2 ^ 16)
