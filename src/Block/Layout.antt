-- ===== src/Block/Layout.antt =====
-- What the two functions leave in a block.
use y_modem_protocol.Base.{
  ℕ, ◌+◌, ◌-◌, ◌/◌, ◌%◌, ◌≤◌, ◌<◌, ◌≡◌, refl, sym, ap, ◌∙◌, ltb, List, [], ◌∷◌, ◌++◌, length, take,
  drop, replicate, write_at, arith, append_assoc, length-append, lt→ltb, length-take, length-drop,
  length-replicate, overwrite-append, write_at-append, write_at-append_end, take-append-drop,
  length-write_at, inl, inr, Bool-cases,
}
use y_modem_protocol.Crc.Defs.{ByteOrder, chunk_sz, store16, crc16ns, crc_register}
use y_modem_protocol.Crc.Chunk.{store16-crc16ns, crc_register-append}
use y_modem_protocol.Peer.Defs.{soh, ctrl_z}
use y_modem_protocol.Block.Defs.{put_crc, gen_blk, complement, data_pos, past_chunk, blk_sz_crc}

-- The CRC of a chunk as it goes over the line.
abbrev pub crc_of : List ℕ → List ℕ
crc_of chunk = crc_register chunk / 256 ∷ crc_register chunk % 256 ∷ []

-- The block of the protocol: SOH, the number, its complement, the chunk, the CRC's high and low byte.
abbrev pub block : ℕ → List ℕ → List ℕ
block num chunk = soh ∷ num ∷ complement num ∷ (chunk ++ crc_of chunk)

-- A chunk of the file, filled up with CTRL-Z.
abbrev pub padded : List ℕ → List ℕ
padded got = got ++ replicate (chunk_sz - length got) ctrl_z

pub length-padded : (got : List ℕ) → length got ≤ chunk_sz → length (padded got) ≡ chunk_sz
length-padded got h = omega (
  arith,
  length-append got (replicate (chunk_sz - length got) ctrl_z),
  length-replicate (chunk_sz - length got) ctrl_z,
)

-- Putting the CRC behind a chunk of 128 bytes.
pub put_crc_lem :
    (order : ByteOrder) (a b c : ℕ) (chunk old : List ℕ)
    → length chunk ≡ chunk_sz
    → length old ≡ 2
    → put_crc order (a ∷ b ∷ c ∷ (chunk ++ old)) ≡ a ∷ b ∷ c ∷ (chunk ++ crc_of chunk)
unfolding put_crc
put_crc_lem order a b c chunk old len two =
    ap (λ t. write_at past_chunk t (a ∷ b ∷ c ∷ (chunk ++ old)))
      (store16-crc16ns order (chunk ++ old)
        ∙ ap (λ r. r / 256 ∷ r % 256 ∷ []) (crc_register-append chunk old len))
    ∙ write_at-append_end (a ∷ b ∷ c ∷ chunk) (crc_of chunk) old past_chunk (omega arith) (sym two)

-- An array of 130 bytes is cut where the data ends and where the CRC starts.
abbrev pub Parts : ℕ → List ℕ → Type 0
Parts n rest =
    (m1 : List ℕ) × (m2 : List ℕ) × (m3 : List ℕ) × (rest ≡ m1 ++ (m2 ++ m3))
    × (length m1 ≡ n)
    × (length m2 ≡ chunk_sz - n)
    × (length m3 ≡ 2)

pub cut : (n : ℕ) (rest : List ℕ) → length rest ≡ 130 → n ≤ chunk_sz → Parts n rest
cut n rest len h = (
  take n rest,
  take (chunk_sz - n) (drop n rest),
  drop (chunk_sz - n) (drop n rest),
  rw (take-append-drop (chunk_sz - n) (drop n rest), take-append-drop n rest),
  omega (arith, length-take n rest),
  omega (arith, length-take (chunk_sz - n) (drop n rest), length-drop n rest),
  omega (arith, length-drop (chunk_sz - n) (drop n rest), length-drop n rest),
)

pad_mod : (n : ℕ) → 0 < n → n ≤ chunk_sz → (chunk_sz + 256 - n) % 256 ≡ chunk_sz - n
pad_mod n p q = omega arith

gen_blk_parts :
    (order : ByteOrder) (got m1 m2 m3 : List ℕ) (num a b c : ℕ)
    → 0 < length got
    → length got ≤ chunk_sz
    → length m1 ≡ length got
    → length m2 ≡ chunk_sz - length got
    → length m3 ≡ 2
    → gen_blk order got num (a ∷ b ∷ c ∷ (m1 ++ (m2 ++ m3))) ≡ block num (padded got)
unfolding gen_blk
gen_blk_parts order got m1 m2 m3 num a b c p q l1 l2 l3 =
    rw
      (
        lt→ltb 0 (length got) p,
        pad_mod (length got) p q,
        overwrite-append got m1 (m2 ++ m3) (sym l1),
      )
      (ap (put_crc order) (
          write_at-append (soh ∷ num ∷ complement num ∷ got)
            (replicate (chunk_sz - length got) ctrl_z) m2 m3 (data_pos + length got) (omega arith)
            (omega (arith, length-replicate (chunk_sz - length got) ctrl_z))
          ∙ ap (λ t. soh ∷ num ∷ complement num ∷ t)
              (sym (append_assoc got (replicate (chunk_sz - length got) ctrl_z) m3)))
        ∙ put_crc_lem order soh num (complement num) (padded got) m3 (length-padded got q) l3)

-- `genBlk` turns any array of 133 bytes into the block of the bytes that were read, if there are
-- any, and at most 128.
pub gen_blk_lem :
    (order : ByteOrder) (got blk : List ℕ) (num : ℕ)
    → 0 < length got
    → length got ≤ chunk_sz
    → length blk ≡ blk_sz_crc
    → gen_blk order got num blk ≡ block num (padded got)
unfolding gen_blk
gen_blk_lem order got [] num p q len = absurd (omega arith)
gen_blk_lem order got (a ∷ []) num p q len = absurd (omega arith)
gen_blk_lem order got (a ∷ b ∷ []) num p q len = absurd (omega arith)
gen_blk_lem order got (a ∷ b ∷ c ∷ rest) num p q len =
    let (m1, m2, m3, e, l1, l2, l3) = cut (length got) rest (omega arith) q in
    rw e (gen_blk_parts order got m1 m2 m3 num a b c p q l1 l2 l3)

length-put_crc : (order : ByteOrder) (blk : List ℕ) → length (put_crc order blk) ≡ length blk
unfolding put_crc
length-put_crc order blk =
    length-write_at past_chunk (store16 order (crc16ns order (drop data_pos blk))) blk

-- The array keeps its length.
pub length-gen_blk :
    (order : ByteOrder) (got : List ℕ) (num : ℕ) (blk : List ℕ)
    → length (gen_blk order got num blk) ≡ length blk
unfolding gen_blk
length-gen_blk order got num blk = elim (Bool-cases (ltb 0 (length got))) [
  | inl some_read ↦ rw some_read (
      length-put_crc order _
      ∙ length-write_at (data_pos + length got)
          (replicate ((chunk_sz + 256 - length got) % 256) ctrl_z) _
      ∙ length-write_at 0 (soh ∷ num ∷ complement num ∷ []) (write_at data_pos got blk)
      ∙ length-write_at data_pos got blk)
  | inr none_read ↦ rw none_read refl
]
