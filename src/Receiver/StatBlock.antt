-- ===== src/Receiver/StatBlock.antt =====
-- The stat block in the receiver's array.
use y_modem_protocol.Base.{
  ℕ, zero, suc, ◌+◌, ◌-◌, ◌^◌, ◌≡◌, refl, sym, ap, ◌∙◌, ltb, if◌then◌else◌, List, [], ◌∷◌, ◌++◌,
  append_assoc, none, some, length, drop, replicate, write_at, length-append, drop-append, arith,
}
use native.Mathlib.Nat.{zero-add, suc-add}
use y_modem_protocol.Base.Int.{pos}
use y_modem_protocol.Crc.Defs.{chunk_sz}
use y_modem_protocol.Text.Defs.{c_string, decimal, stoi}
use y_modem_protocol.Text.Decimal.{IsText, c_string-append, decimal-IsText, stoi-decimal}
use y_modem_protocol.Block.Defs.{data_pos, buf_sz, blk_sz_crc, rest_blk_sz_crc}
use y_modem_protocol.Block.Layout.{crc_of}
use y_modem_protocol.Block.Stat.{stat_chunk, stat_text, Fits, length-stat_chunk}
use y_modem_protocol.Receiver.Defs.{stat_name, stat_size}
use y_modem_protocol.Receiver.Accept.{rest_of, read_whole}

abbrev pub Laid : List ℕ → ℕ → List ℕ → Type 0
Laid base size blk =
    (more : List ℕ) × (drop data_pos blk ≡ base ++ (0 ∷ (decimal size ++ (0 ∷ more))))

pub stat-Laid :
    (base : List ℕ) (size : ℕ) (blk : List ℕ)
    → Fits base size
    → length blk ≡ buf_sz
    → Laid base size (write_at 1 (rest_of 0 (stat_chunk base size)) blk)
stat-Laid base size blk fits k =
    let (b, e) = read_whole (rest_of 0 (stat_chunk base size)) blk whole k in
    (
      fill ++ (crc_of (stat_chunk base size) ++ drop blk_sz_crc blk),
      ap (drop data_pos) e ∙ simp append_assoc,
    )
  where
    whole : length (rest_of 0 (stat_chunk base size)) ≡ rest_blk_sz_crc
    whole = omega (
      arith,
      length-append (stat_chunk base size) (crc_of (stat_chunk base size)),
      length-stat_chunk base size fits,
    )

    fill : List ℕ
    fill = replicate (chunk_sz - length (stat_text base size)) 0

drop_add : (n m : ℕ) (xs : List ℕ) → drop (n + m) xs ≡ drop m (drop n xs)
drop_add zero m xs = rw zero-add
drop_add (suc n) zero [] = rw (suc-add n zero) refl
drop_add (suc n) (suc m) [] = rw (suc-add n (suc m)) refl
drop_add (suc n) m (x ∷ xs) = rw (suc-add n m) (drop_add n m xs)

-- From the stat block of a name without NULs that leaves room for the size, read into an array of
-- BUF_SZ bytes, `openFileForTransfer` reads back the name, and the size if it is below 2^31; for any
-- larger size `stoi` throws.
pub stat_block-read :
    (base : List ℕ) (size : ℕ) (blk : List ℕ)
    → Fits base size
    → IsText base
    → length blk ≡ buf_sz
    → let read = write_at 1 (rest_of 0 (stat_chunk base size)) blk in
      (stat_name read ≡ base)
      × (stoi (stat_size read) ≡ (if ltb size (2 ^ 31) then some (pos size) else none))
stat_block-read base size blk fits text k =
    let (more, e) = stat-Laid base size blk fits k in
    let name : stat_name read ≡ base =
      ap c_string e ∙ c_string-append base (decimal size ++ (0 ∷ more)) text in
    let behind : drop (data_pos + (length base + 1)) read ≡ decimal size ++ (0 ∷ more) =
      drop_add data_pos (length base + 1) read
      ∙ ap (drop (length base + 1))
          (e ∙ sym (append_assoc base (0 ∷ []) (decimal size ++ (0 ∷ more))))
      ∙ drop-append (base ++ 0 ∷ []) (decimal size ++ (0 ∷ more)) (length base + 1)
          (sym (length-append base (0 ∷ []))) in
    let digits : stat_size read ≡ decimal size =
      ap (λ x. c_string (drop (data_pos + length x + 1) read)) name
      ∙ ap (λ m. c_string (drop m read)) (omega arith)
      ∙ ap c_string behind
      ∙ c_string-append (decimal size) more (decimal-IsText size) in
    (name, ap stoi digits ∙ stoi-decimal size)
  where
    read : List ℕ
    read = write_at 1 (rest_of 0 (stat_chunk base size)) blk
