-- ===== src/Block/Stat.antt =====
-- What `genStatBlk` leaves in a block: the name and the size, when there is room for them, and the
-- case in which its room check lets a write past the array through.
use y_modem_protocol.Base.{
  ℕ, ◌+◌, ◌-◌, ◌<◌, ◌≡◌, ◌≢◌, refl, sym, ap, ◌∙◌, List, [], ◌∷◌, ◌++◌, none, some, length,
  replicate, write_at, arith, append_assoc, length-append, length-replicate, overwrite-append,
  write_at-append, take_all, split_at, lt→ltb, le→ltb,
}
use y_modem_protocol.Crc.Defs.{ByteOrder, chunk_sz}
use y_modem_protocol.Text.Defs.{filename, decimal}
use y_modem_protocol.Text.Decimal.{decimal-pos}
use y_modem_protocol.Peer.Defs.{soh}
use y_modem_protocol.Block.Defs.{
  put_crc, gen_stat_blk, finish_stat, stat_pad, name_end, complement, data_pos, blk_sz_crc,
}
use y_modem_protocol.Block.Layout.{block, crc_of, put_crc_lem}

-- The chunk of a stat block: the name, a NUL, the size in decimal, and NULs.
abbrev pub stat_text : List ℕ → ℕ → List ℕ
stat_text base size = (base ++ 0 ∷ []) ++ (decimal size ++ 0 ∷ [])

abbrev pub stat_chunk : List ℕ → ℕ → List ℕ
stat_chunk base size = stat_text base size ++ replicate (chunk_sz - length (stat_text base size)) 0

-- The name, its NUL, the digits and one NUL more fit into the chunk.
abbrev pub Fits : List ℕ → ℕ → Type 0
Fits base size = length base + 1 + length (decimal size) < chunk_sz

pub length-stat_text :
    (base : List ℕ) (size : ℕ)
    → length (stat_text base size) ≡ length base + 1 + (length (decimal size) + 1)
length-stat_text base size = omega (
  arith,
  length-append (base ++ 0 ∷ []) (decimal size ++ 0 ∷ []),
  length-append base (0 ∷ []),
  length-append (decimal size) (0 ∷ []),
)

pub length-stat_chunk :
    (base : List ℕ) (size : ℕ) → Fits base size → length (stat_chunk base size) ≡ chunk_sz
length-stat_chunk base size fits = omega (
  arith,
  length-append (stat_text base size) (replicate (chunk_sz - length (stat_text base size)) 0),
  length-replicate {A = ℕ} (chunk_sz - length (stat_text base size)) 0,
  length-stat_text base size,
)

finish_stat_lem :
    (order : ByteOrder) (done m3 old : List ℕ) (index a n c : ℕ)
    → length done + length m3 ≡ chunk_sz
    → index ≡ data_pos + length done
    → length old ≡ 2
    → finish_stat order index (a ∷ n ∷ c ∷ (done ++ (m3 ++ old)))
      ≡ soh
        ∷ n
        ∷ c
        ∷ ((done ++ replicate (length m3) 0) ++ crc_of (done ++ replicate (length m3) 0))
finish_stat_lem order done m3 old index a n c len place two =
    unfold finish_stat in
    rw pad (
      ap (λ t. put_crc order (write_at 0 (soh ∷ []) t))
        (write_at-append (a ∷ n ∷ c ∷ done) (replicate (length m3) 0) m3 old index (omega arith)
          zeros)
      ∙ ap (λ t. put_crc order (soh ∷ n ∷ c ∷ t))
          (sym (append_assoc done (replicate (length m3) 0) old))
      ∙ put_crc_lem order soh n c (done ++ replicate (length m3) 0) old
          (omega (arith, length-append done (replicate (length m3) 0), zeros)) two)
  where
    zeros : length (replicate {A = ℕ} (length m3) 0) ≡ length m3
    zeros = length-replicate (length m3) 0

    pad : stat_pad index ≡ length m3
    pad = omega arith

-- The array cut at the ends of the name, of the size and of the chunk.
gen_stat_blk_parts :
    (order : ByteOrder) (name m1 m2 m3 old : List ℕ) (size a n c : ℕ)
    → 0 < length name
    → Fits (filename name) size
    → length m1 ≡ length (filename name) + 1
    → length m2 ≡ length (decimal size) + 1
    → length m1 + length m2 + length m3 ≡ chunk_sz
    → length old ≡ 2
    → gen_stat_blk order name size (a ∷ n ∷ c ∷ (m1 ++ (m2 ++ (m3 ++ old))))
      ≡ some (block 0 (stat_chunk (filename name) size))
unfolding gen_stat_blk
gen_stat_blk_parts order name m1 m2 m3 old size a n c h fits l1 l2 len two =
    rw
      (
        lt→ltb 0 (length name) h,
        le→ltb chunk_sz (length base + 1 + 1) (omega arith),
        le→ltb (chunk_sz + data_pos - name_end base) (length (decimal size)) (omega arith),
        take_all (chunk_sz + data_pos - name_end base - 1) (decimal size) (omega arith),
        overwrite-append (base ++ 0 ∷ []) m1 (m2 ++ (m3 ++ old)) (omega (arith, len_base)),
        write_at-append (a ∷ 0 ∷ complement 0 ∷ (base ++ 0 ∷ [])) (decimal size ++ 0 ∷ []) m2
            (m3 ++ old) (name_end base) (omega (arith, len_base)) (omega (arith, len_size)),
        ← append_assoc (base ++ 0 ∷ []) (decimal size ++ 0 ∷ []) (m3 ++ old),
      )
      (ap some (
        finish_stat_lem order (stat_text base size) m3 old
          (name_end base + (length (decimal size) + 1)) a 0 (complement 0) total
          (omega (arith, length-stat_text base size)) two
        ∙ ap (λ k. block 0 (stat_text base size ++ replicate k 0)) (omega (arith, total))))
  where
    base : List ℕ
    base = filename name

    len_base : length (base ++ 0 ∷ []) ≡ length base + 1
    len_base = length-append base (0 ∷ [])

    len_size : length (decimal size ++ 0 ∷ []) ≡ length (decimal size) + 1
    len_size = length-append (decimal size) (0 ∷ [])

    total : length (stat_text base size) + length m3 ≡ chunk_sz
    total = omega (arith, length-stat_text base size)

-- For a name that leaves room for its NUL, the size and one NUL more, `genStatBlk` turns any array of
-- 133 bytes into block 0 of the name, a NUL, the size in decimal and NULs.
pub gen_stat_blk_lem :
    (order : ByteOrder) (name blk : List ℕ) (size : ℕ)
    → 0 < length name
    → Fits (filename name) size
    → length blk ≡ blk_sz_crc
    → gen_stat_blk order name size blk ≡ some (block 0 (stat_chunk (filename name) size))
gen_stat_blk_lem order name [] size h fits len = absurd (omega arith)
gen_stat_blk_lem order name (a ∷ []) size h fits len = absurd (omega arith)
gen_stat_blk_lem order name (a ∷ n ∷ []) size h fits len = absurd (omega arith)
gen_stat_blk_lem order name (a ∷ n ∷ c ∷ rest) size h fits len =
    let (m1, r1, e1, l1) = split_at (length (filename name) + 1) rest (omega arith) in
    let k1 : length r1 + length m1 ≡ 130 = omega (arith, ap length e1, length-append m1 r1) in
    let (m2, r2, e2, l2) = split_at (length (decimal size) + 1) r1 (omega arith) in
    let k2 : length r2 + length m2 ≡ length r1 = omega (arith, ap length e2, length-append m2 r2) in
    let (m3, old, e3, l3) = split_at (length r2 - 2) r2 (omega arith) in
    let k3 : length old + length m3 ≡ length r2 =
      omega (arith, ap length e3, length-append m3 old) in
    rw (e1, e2, e3)
      (gen_stat_blk_parts order name m1 m2 m3 old size a n c h fits l1 l2 (omega arith)
        (omega arith))

-- For the empty name `genStatBlk` turns any array of 133 bytes into block 0 of 128 NULs.
pub gen_stat_blk_empty :
    (order : ByteOrder) (blk : List ℕ) (size : ℕ)
    → length blk ≡ blk_sz_crc
    → gen_stat_blk order [] size blk ≡ some (block 0 (replicate chunk_sz 0))
unfolding gen_stat_blk
gen_stat_blk_empty order [] size len = absurd (omega arith)
gen_stat_blk_empty order (a ∷ []) size len = absurd (omega arith)
gen_stat_blk_empty order (a ∷ n ∷ []) size len = absurd (omega arith)
gen_stat_blk_empty order (a ∷ n ∷ c ∷ rest) size len =
    let (m3, old, e, l) = split_at chunk_sz rest (omega arith) in
    let k : length old + length m3 ≡ 130 = omega (arith, ap length e, length-append m3 old) in
    rw e (
      ap some (
        finish_stat_lem order [] m3 old data_pos a 0 (complement 0) (omega (arith, l)) refl
          (omega arith)
        ∙ ap (λ k. block 0 (replicate k 0)) l))

-- The room check compares the digits alone: where digits and name with one NUL fill the chunk, the
-- block is not refused, and the fill behind it runs past the end of the array.
pub gen_stat_blk_overrun :
    (order : ByteOrder) (name blk : List ℕ) (size : ℕ)
    → 0 < length name
    → length (filename name) + 1 + length (decimal size) ≡ chunk_sz
    → let index = name_end (filename name) + (length (decimal size) + 1) in
      (gen_stat_blk order name size blk ≢ none)
      × (index ≡ blk_sz_crc - 1)
      × (blk_sz_crc < index + stat_pad index)
unfolding gen_stat_blk
gen_stat_blk_overrun order name blk size h full = (
  rw
      (
        lt→ltb 0 (length name) h,
        le→ltb chunk_sz (length (filename name) + 1 + 1) (omega (arith, decimal-pos size)),
        le→ltb (chunk_sz + data_pos - name_end (filename name)) (length (decimal size))
            (omega arith),
      )
      (λ e. cc),
  omega arith,
  omega arith,
)
