-- ===== src/PartOne/Layout.antt =====
-- What the first stage of the sender leaves in a block, and what a receiver makes of it.
use y_modem_protocol.Base.{
  ℕ, ◌+◌, ◌-◌, ◌/◌, ◌%◌, ◌≤◌, ◌≡◌, ◌≢◌, ◌⊎◌, inl, inr, refl, sym, ap, ◌∙◌, false, ltb, List, [],
  ◌∷◌, ◌++◌, length, get_or, drop, replicate, write_at, arith, append_assoc, length-replicate,
  append-nil, overwrite-append, write_at-append, write_at-append_end, Bool-cases, if◌then◌else◌,
}
use y_modem_protocol.Crc.Defs.{
  ByteOrder, little_endian, big_endian, chunk_sz, crc16ns, crc_register, my_htons, store16,
}
use y_modem_protocol.Crc.Chunk.{crc_register-append, crc_register-lt}
use y_modem_protocol.Block.Defs.{complement, blk_sz_crc, buf_sz}
use y_modem_protocol.Block.Layout.{crc_of, padded, length-padded, cut}
use y_modem_protocol.Peer.Defs.{soh, ctrl_z, is_minus_one}
use y_modem_protocol.Receiver.Defs.{Receiver}
use y_modem_protocol.Receiver.Blocks.{next_num}
use y_modem_protocol.Receiver.Damage.{Refused, wrong_crc, Damaged-Refused}
use y_modem_protocol.PartOne.Defs.{put_crc, gen_blk}

-- The two bytes behind a chunk.
abbrev pub line_crc : ByteOrder → List ℕ → List ℕ
line_crc little_endian chunk = crc_register chunk % 256 ∷ crc_register chunk / 256 ∷ []
line_crc big_endian chunk = crc_of chunk

-- A block of the first stage.
abbrev pub block : ByteOrder → ℕ → List ℕ → List ℕ
block order num chunk = soh ∷ num ∷ complement num ∷ (chunk ++ line_crc order chunk)

pub length-line_crc : (order : ByteOrder) (chunk : List ℕ) → length (line_crc order chunk) ≡ 2
length-line_crc little_endian chunk = refl
length-line_crc big_endian chunk = refl

high_first :
    (order : ByteOrder) (chunk : List ℕ)
    → crc16ns order chunk / 256 ∷ crc16ns order chunk % 256 ∷ [] ≡ line_crc order chunk
unfolding crc16ns my_htons store16
high_first little_endian chunk = ground (arith, crc_register-lt chunk)
high_first big_endian chunk = ground (arith, crc_register-lt chunk)

crc16ns-front :
    (order : ByteOrder) (chunk rest : List ℕ)
    → length chunk ≡ chunk_sz
    → crc16ns order (chunk ++ rest) ≡ crc16ns order chunk
unfolding crc16ns
crc16ns-front order chunk rest len = rw (crc_register-append chunk rest len)

pub put_crc_lem :
    (order : ByteOrder) (a b c : ℕ) (chunk old : List ℕ)
    → length chunk ≡ chunk_sz
    → length old ≡ 2
    → put_crc order (a ∷ b ∷ c ∷ (chunk ++ old)) ≡ a ∷ b ∷ c ∷ (chunk ++ line_crc order chunk)
unfolding put_crc
put_crc_lem order a b c chunk old len two =
    ap (λ n. write_at (blk_sz_crc - 2) (n / 256 ∷ n % 256 ∷ []) (a ∷ b ∷ c ∷ (chunk ++ old)))
      (crc16ns-front order chunk old len)
    ∙ ap (λ t. write_at (blk_sz_crc - 2) t (a ∷ b ∷ c ∷ (chunk ++ old))) (high_first order chunk)
    ∙ write_at-append_end (a ∷ b ∷ c ∷ chunk) (line_crc order chunk) old (blk_sz_crc - 2)
        (omega arith) (omega (arith, length-line_crc order chunk))

no_bytes : (xs : List ℕ) → length xs ≡ 0 → xs ≡ []
no_bytes [] e = refl
no_bytes (x ∷ xs) e = absurd (omega arith)

fill_any :
    (got m2 m3 : List ℕ) (a b c : ℕ)
    → length got ≤ chunk_sz
    → length m2 ≡ chunk_sz - length got
    → (if ltb (length got) chunk_sz
        then write_at
            (length got + 3)
            (replicate (chunk_sz - length got) ctrl_z)
            (a ∷ b ∷ c ∷ (got ++ (m2 ++ m3)))
        else a ∷ b ∷ c ∷ (got ++ (m2 ++ m3)))
      ≡ a ∷ b ∷ c ∷ (padded got ++ m3)
fill_any got m2 m3 a b c h l2 = elim (Bool-cases (ltb (length got) chunk_sz)) [
  | inl less ↦ rw less (
      write_at-append (a ∷ b ∷ c ∷ got) (replicate (chunk_sz - length got) ctrl_z) m2 m3
        (length got + 3) (omega arith)
        (omega (arith, length-replicate (chunk_sz - length got) ctrl_z))
      ∙ ap (λ t. a ∷ b ∷ c ∷ t)
          (sym (append_assoc got (replicate (chunk_sz - length got) ctrl_z) m3)))
  | inr full ↦
      rw
        (
          full,
          no_bytes m2 (none_left full),
          no_bytes (replicate (chunk_sz - length got) ctrl_z) (none_filled full),
        )
        (ap (λ t. a ∷ b ∷ c ∷ (t ++ m3)) (sym (append-nil got)))
]
  where
    none_left : ltb (length got) chunk_sz ≡ false → length m2 ≡ 0
    none_left full = ground arith

    none_filled :
        ltb (length got) chunk_sz ≡ false → length (replicate (chunk_sz - length got) ctrl_z) ≡ 0
    none_filled full = length-replicate (chunk_sz - length got) ctrl_z ∙ sym l2 ∙ none_left full

gen_blk_parts :
    (order : ByteOrder) (got m1 m2 m3 : List ℕ) (num a b c : ℕ)
    → length got ≤ chunk_sz
    → length m1 ≡ length got
    → length m2 ≡ chunk_sz - length got
    → length m3 ≡ 2
    → gen_blk order got num (a ∷ b ∷ c ∷ (m1 ++ (m2 ++ m3))) ≡ block order num (padded got)
unfolding gen_blk
gen_blk_parts order got m1 m2 m3 num a b c q l1 l2 l3 =
    rw (overwrite-append got m1 (m2 ++ m3) (sym l1)) (
      ap (put_crc order) (fill_any got m2 m3 soh num (complement num) q l2)
      ∙ put_crc_lem order soh num (complement num) (padded got) m3 (length-padded got q) l3)

-- `genBlk` of the first stage turns any array of 133 bytes into SOH, the number, its complement, the
-- bytes that were read, at most 128 and filled up with CTRL-Z, and the CRC: its high byte first on
-- a machine with the high byte first in memory, its low byte first on the other kind.
pub gen_blk_lem :
    (order : ByteOrder) (got blk : List ℕ) (num : ℕ)
    → length got ≤ chunk_sz
    → length blk ≡ blk_sz_crc
    → gen_blk order got num blk ≡ block order num (padded got)
gen_blk_lem order got [] num q len = absurd (omega arith)
gen_blk_lem order got (a ∷ []) num q len = absurd (omega arith)
gen_blk_lem order got (a ∷ b ∷ []) num q len = absurd (omega arith)
gen_blk_lem order got (a ∷ b ∷ c ∷ rest) num q len =
    let (m1, m2, m3, e, l1, l2, l3) = cut (length got) rest (omega arith) q in
    rw e (gen_blk_parts order got m1 m2 m3 num a b c q l1 l2 l3)

swapped_ne :
    (chunk : List ℕ)
    → crc_register chunk / 256 ≢ crc_register chunk % 256
    → line_crc little_endian chunk ≢ crc_of chunk
swapped_ne chunk d e = d (sym (ap (λ l. get_or l 0 0) e))

-- On a machine with the low byte first in memory, no data block of the first stage passes the library's
-- receiver, unless the two bytes of its CRC are equal: a receiver that waits for that block refuses it.
pub swapped_crc-Refused :
    (got blk : List ℕ) (num : ℕ) (r : Receiver)
    → length got ≤ chunk_sz
    → length blk ≡ blk_sz_crc
    → crc_register (padded got) / 256 ≢ crc_register (padded got) % 256
    → length r.rcv_blk ≡ buf_sz
    → is_minus_one r.transferring_file ≡ false
    → (num ≡ next_num r) ⊎ (num ≡ r.num_last_good_blk)
    → Refused (drop 1 (gen_blk little_endian got num blk)) r
swapped_crc-Refused got blk num r q len apart k file n =
    rw (gen_blk_lem little_endian got blk num q len) (
      Damaged-Refused _ r k file (
        wrong_crc num _ _ (padded got) refl (length-padded got q) n (omega arith)
          (omega (arith, crc_register-lt (padded got))) (swapped_ne (padded got) apart)))
