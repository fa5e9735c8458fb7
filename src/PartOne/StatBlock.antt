-- ===== src/PartOne/StatBlock.antt =====
-- The stat blocks of the first stage.
use native.Mathlib.Nat.{zero-add, suc-add}
use y_modem_protocol.Base.{
  ℕ, zero, suc, ◌+◌, ◌-◌, ◌%◌, ◌^◌, ◌≤◌, ◌≡◌, refl, sym, ap, ◌∙◌, true, false, le→ltb, List, [],
  ◌∷◌, ◌++◌, append_assoc, some, length, take, replicate, write_at, arith, length-append,
  length-replicate, write_at-append, write_at-append_end,
}
use y_modem_protocol.Crc.Defs.{ByteOrder, chunk_sz}
use y_modem_protocol.Text.Defs.{filename, decimal}
use y_modem_protocol.Block.Defs.{complement}
use y_modem_protocol.Peer.Defs.{soh}
use y_modem_protocol.PartOne.Defs.{put_crc, put_text, gen_stat_blk}
use y_modem_protocol.PartOne.Layout.{block, put_crc_lem}

abbrev pub nulls : ℕ → List ℕ
nulls n = replicate n 0

-- A file's name and size in a chunk.
abbrev pub stat_chunk : List ℕ → List ℕ → List ℕ
stat_chunk base digits = base ++ 0 ∷ (digits ++ nulls (127 - length base - length digits))

nulls-append : (m n : ℕ) → nulls (m + n) ≡ nulls m ++ nulls n
nulls-append zero n = rw zero-add refl
nulls-append (suc m) n = rw suc-add (ap (◌∷◌ 0) (nulls-append m n))

take-nulls : (m n : ℕ) → m ≤ n → take m (nulls n) ≡ nulls m
take-nulls zero n h = refl
take-nulls (suc m) zero h = absurd (omega arith)
take-nulls (suc m) (suc n) h = ap (◌∷◌ 0) (take-nulls m n (omega arith))

-- A text that fits, in the form that `strncpy` writes it.
fit_text :
    (n k m : ℕ) (text : List ℕ)
    → length text + m ≡ n
    → n ≤ k
    → take n (text ++ nulls k) ≡ text ++ nulls m
fit_text n k m [] h l = take-nulls n k l ∙ ap nulls (omega (arith, h))
fit_text zero k m (b ∷ text) h l = absurd (omega arith)
fit_text (suc n) k m (b ∷ text) h l = ap (◌∷◌ b) (fit_text n k m text (omega arith) (omega arith))

abbrev head_of : List ℕ → List ℕ
head_of rest = soh ∷ 0 ∷ complement 0 ∷ rest

-- The name, its NUL, and the size, written over NULs.
abbrev room : List ℕ → List ℕ → ℕ
room base digits = 127 - length base - length digits

named_lem :
    (base : List ℕ) (m : ℕ)
    → length base + suc m ≡ 130
    → write_at (3 + length base) (0 ∷ []) (put_text 3 130 base (head_of (nulls 130)))
      ≡ head_of (base ++ 0 ∷ nulls m)
named_lem base m h =
    ap (λ t. write_at (3 + length base) (0 ∷ []) (write_at 3 t (head_of (nulls 130))))
      (fit_text 130 130 (suc m) base h (omega arith))
    ∙ ap (write_at (3 + length base) (0 ∷ [])) (
        write_at-append_end (head_of []) (base ++ nulls (suc m)) (nulls 130) 3 refl
          (omega (arith, h, length-append base (nulls (suc m)), length-replicate {A = ℕ} m 0)))
    ∙ write_at-append (head_of base) (0 ∷ []) (0 ∷ []) (nulls m) (3 + length base) (omega arith)
        refl

last_nulls :
    (base digits : List ℕ) (r : ℕ)
    → (base ++ 0 ∷ []) ++ (digits ++ nulls (r + 2))
      ≡ (base ++ 0 ∷ (digits ++ nulls r)) ++ 0 ∷ 0 ∷ []
last_nulls base digits r = rw (nulls-append r 2) (simp append_assoc)

sized_lem :
    (base digits : List ℕ) (m : ℕ)
    → length base + suc m ≡ 130
    → length base + 1 + length digits ≤ chunk_sz
    → put_text (length base + 4) (133 - (length base + 4)) digits (head_of (base ++ 0 ∷ nulls m))
      ≡ head_of (stat_chunk base digits ++ 0 ∷ 0 ∷ [])
sized_lem base digits m h fits =
    let k = 133 - (length base + 4) in
    let r = room base digits in
    ap (λ t. write_at (length base + 4) t (head_of (base ++ 0 ∷ nulls m)))
      (fit_text k k (r + 2) digits (omega arith) (omega arith))
    ∙ ap (λ t. write_at (length base + 4) (digits ++ nulls (r + 2)) (head_of t))
        (sym (append_assoc base (0 ∷ []) (nulls m)))
    ∙ write_at-append_end (head_of (base ++ 0 ∷ [])) (digits ++ nulls (r + 2)) (nulls m)
        (length base + 4) (omega (arith, length-append base (0 ∷ [])))
        (omega (
          arith,
          h,
          length-append digits (nulls (r + 2)),
          length-replicate {A = ℕ} (r + 2) 0,
          length-replicate {A = ℕ} m 0,
        ))
    ∙ ap head_of (last_nulls base digits r)

gen_stat_blk_parts :
    (order : ByteOrder) (name : List ℕ) (st_size : ℕ)
    → length (filename name) + 1 + length (decimal (st_size % 2 ^ 32)) ≤ chunk_sz
    → gen_stat_blk order false name st_size 0
      ≡ some (
          put_crc order
            (head_of (stat_chunk (filename name) (decimal (st_size % 2 ^ 32)) ++ 0 ∷ 0 ∷ [])))
unfolding gen_stat_blk
gen_stat_blk_parts order name st_size fits =
    let base = filename name in
    let digits = decimal (st_size % 2 ^ 32) in
    let m = 129 - length base in
    rw (le→ltb 133 (length base + 4) (omega arith)) (
      ap (λ t. some (put_crc order (put_text (length base + 4) (133 - (length base + 4)) digits t)))
        (named_lem base m (omega arith))
      ∙ ap (λ t. some (put_crc order t)) (sized_lem base digits m (omega arith) fits))

pub length-stat_chunk :
    (base digits : List ℕ)
    → length base + 1 + length digits ≤ chunk_sz
    → length (stat_chunk base digits) ≡ chunk_sz
length-stat_chunk base digits fits =
    let r = room base digits in
    omega (
      arith,
      fits,
      length-append base (0 ∷ (digits ++ nulls r)),
      length-append digits (nulls r),
      length-replicate {A = ℕ} r 0,
    )

-- `genStatBlk` of the first stage: when the name, its NUL and the size fit in the chunk, the block has
-- number 0, and in its chunk the name without its directories, a NUL, the size, and NULs.
pub gen_stat_blk_lem :
    (order : ByteOrder) (name : List ℕ) (st_size : ℕ)
    → length (filename name) + 1 + length (decimal (st_size % 2 ^ 32)) ≤ chunk_sz
    → gen_stat_blk order false name st_size 0
      ≡ some (block order 0 (stat_chunk (filename name) (decimal (st_size % 2 ^ 32))))
gen_stat_blk_lem order name st_size fits =
    let base = filename name in
    let digits = decimal (st_size % 2 ^ 32) in
    gen_stat_blk_parts order name st_size fits
    ∙ ap some (
        put_crc_lem order soh 0 255 (stat_chunk base digits) (0 ∷ 0 ∷ [])
          (length-stat_chunk base digits fits) refl)

-- The block at the end of the batch: NULs, the CRC of which is 0.
pub last_stat_blk :
    (order : ByteOrder) (st_size : ℕ)
    → 1 + length (decimal (st_size % 2 ^ 32)) ≤ chunk_sz
    → gen_stat_blk order true [] st_size 0 ≡ some (head_of (nulls 128 ++ 0 ∷ 0 ∷ []))
unfolding gen_stat_blk filename
last_stat_blk order st_size fits =
    let digits = decimal (st_size % 2 ^ 32) in
    ap (λ t. some (write_at 3 (nulls 128) (put_text 4 129 digits t))) (named_lem [] 129 refl)
    ∙ ap (λ t. some (write_at 3 (nulls 128) t)) (sized_lem [] digits 129 refl fits)
    ∙ ap some (
        write_at-append (head_of []) (nulls 128) (stat_chunk [] digits) (0 ∷ 0 ∷ []) 3 refl
          (sym (length-stat_chunk [] digits fits)))
