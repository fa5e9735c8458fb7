-- ===== src/Crc/Chunk.antt =====
-- The CRC of a whole chunk: what it tells apart, and the order of its bytes in memory.
use y_modem_protocol.Base.{
  ℕ, zero, suc, ◌+◌, ◌/◌, ◌%◌, ◌≡◌, ◌<◌, ◌≤◌, ap, refl, ◌≢◌, ◌⊎◌, sym, ◌∙◌, List, [], ◌∷◌, ◌++◌,
  length, arith,
}
use native.Mathlib.Nat.{zero-add, suc-add}
use y_modem_protocol.Crc.Defs.{
  updcrc, crc_bytes, crc_register, chunk_sz, ByteOrder, little_endian, big_endian, store16, load16,
  crc16ns,
}
use y_modem_protocol.Crc.Register.{updcrc-lt}
use y_modem_protocol.Crc.Detect.{updcrc_injective, updcrc_byte_ne, updcrc_word_ne}

crc_bytes-lt : (n : ℕ) (cp : List ℕ) (r : ℕ) → r < 65536 → crc_bytes n cp r < 65536
unfolding crc_bytes
crc_bytes-lt zero cp r h = h
crc_bytes-lt (suc n) [] r h = h
crc_bytes-lt (suc n) (b ∷ cp) r h = crc_bytes-lt n cp (updcrc (b % 256) r) (updcrc-lt (b % 256) r)

crc_bytes_ne :
    (n : ℕ) (cp : List ℕ) (r s : ℕ)
    → r < 65536
    → s < 65536
    → r ≢ s
    → crc_bytes n cp r ≢ crc_bytes n cp s
unfolding crc_bytes
crc_bytes_ne zero cp r s p q d = d
crc_bytes_ne (suc n) [] r s p q d = d
crc_bytes_ne (suc n) (b ∷ cp) r s p q d =
    crc_bytes_ne n cp (updcrc (b % 256) r) (updcrc (b % 256) s) (updcrc-lt (b % 256) r)
      (updcrc-lt (b % 256) s) (λ e. d (updcrc_injective (b % 256) r s p q e))

crc_bytes-append :
    (pre cp : List ℕ) (n r : ℕ)
    → crc_bytes (length pre + n) (pre ++ cp) r ≡ crc_bytes n cp (crc_bytes (length pre) pre r)
unfolding crc_bytes
crc_bytes-append [] cp n r = rw zero-add
crc_bytes-append (b ∷ pre) cp n r =
    rw (suc-add (length pre) n) (crc_bytes-append pre cp n (updcrc (b % 256) r))

register_ne :
    (pre : List ℕ) (a b : List ℕ) (n : ℕ)
    → length pre + n ≡ chunk_sz
    → ((r : ℕ) → r < 65536 → crc_bytes n a r ≢ crc_bytes n b r)
    → crc_register (pre ++ a) ≢ crc_register (pre ++ b)
unfolding crc_register
register_ne pre a b n len apart e = apart r (crc_bytes-lt (length pre) pre 0 (omega arith)) inner
  where
    r : ℕ
    r = crc_bytes (length pre) pre 0

    tail_of : (xs : List ℕ) → crc_bytes chunk_sz (pre ++ xs) 0 ≡ crc_bytes n xs r
    tail_of xs = rw (← len) (crc_bytes-append pre xs n 0)

    below : (xs : List ℕ) → crc_bytes chunk_sz (pre ++ xs) 0 < 65536
    below xs = crc_bytes-lt chunk_sz (pre ++ xs) 0 (omega arith)

    inner : crc_bytes n a r ≡ crc_bytes n b r
    inner =
        sym (tail_of a)
        ∙ updcrc_injective 0 _ _ (below a) (below b)
            (updcrc_injective 0 _ _ (updcrc-lt 0 _) (updcrc-lt 0 _) e)
        ∙ tail_of b

-- A chunk with one byte changed has another CRC.
pub crc_register-byte_ne :
    (pre post : List ℕ) (a b : ℕ)
    → length pre + suc (length post) ≡ chunk_sz
    → a < 256
    → b < 256
    → a ≢ b
    → crc_register (pre ++ (a ∷ post)) ≢ crc_register (pre ++ (b ∷ post))
crc_register-byte_ne pre post a b len p q d =
    register_ne pre (a ∷ post) (b ∷ post) (suc (length post)) len (
      unfold crc_bytes in
      λ r h.
        crc_bytes_ne (length post) post _ _ (updcrc-lt (a % 256) r) (updcrc-lt (b % 256) r)
          (updcrc_byte_ne (a % 256) (b % 256) r (omega arith) (omega arith) (omega arith)))

-- A chunk of 128 bytes with two adjacent bytes changed, both or one of them, has another CRC.
pub crc_register-word_ne :
    (pre post : List ℕ) (a c b d : ℕ)
    → length pre + suc (suc (length post)) ≡ chunk_sz
    → a < 256
    → c < 256
    → b < 256
    → d < 256
    → (a ≢ b) ⊎ (c ≢ d)
    → crc_register (pre ++ (a ∷ c ∷ post)) ≢ crc_register (pre ++ (b ∷ d ∷ post))
crc_register-word_ne pre post a c b d len p q u v apart =
    register_ne pre (a ∷ c ∷ post) (b ∷ d ∷ post) (suc (suc (length post))) len (
      unfold crc_bytes in
      λ r h. crc_bytes_ne (length post) post _ _ (updcrc-lt (c % 256) _) (updcrc-lt (d % 256) _) (
        updcrc_word_ne (a % 256) (c % 256) (b % 256) (d % 256) r (omega arith) (omega arith)
          (omega arith) (omega arith) (omega arith)))

pub crc_register-lt : (buf : List ℕ) → crc_register buf < 65536
unfolding crc_register
crc_register-lt buf = updcrc-lt 0 _

-- On either kind of machine the CRC lies in memory with its high byte first.
pub store16-crc16ns :
    (order : ByteOrder) (buf : List ℕ)
    → store16 order (crc16ns order buf) ≡ crc_register buf / 256 ∷ crc_register buf % 256 ∷ []
unfolding store16 crc16ns
store16-crc16ns little_endian buf = ground (arith, crc_register-lt buf)
store16-crc16ns big_endian buf = ground (arith, crc_register-lt buf)

pub load16-store16 : (order : ByteOrder) (n : ℕ) → load16 order (store16 order n) ≡ n
unfolding load16 store16
load16-store16 little_endian n = omega arith
load16-store16 big_endian n = omega arith

crc_bytes-prefix :
    (n : ℕ) (cp rest : List ℕ) (r : ℕ)
    → n ≤ length cp
    → crc_bytes n (cp ++ rest) r ≡ crc_bytes n cp r
unfolding crc_bytes
crc_bytes-prefix zero cp rest r h = refl
crc_bytes-prefix (suc n) [] rest r h = absurd (omega arith)
crc_bytes-prefix (suc n) (b ∷ cp) rest r h =
    crc_bytes-prefix n cp rest (updcrc (b % 256) r) (omega arith)

-- Only the chunk counts, not what lies behind it.
pub crc_register-append :
    (chunk rest : List ℕ)
    → length chunk ≡ chunk_sz
    → crc_register (chunk ++ rest) ≡ crc_register chunk
unfolding crc_register
crc_register-append chunk rest len =
    ap (λ r. updcrc 0 (updcrc 0 r)) (crc_bytes-prefix chunk_sz chunk rest 0 (omega arith))
