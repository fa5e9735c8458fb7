-- ===== src/Receiver/Damage.antt =====
-- Damaged blocks at `getRestBlk`.
use y_modem_protocol.Base.{
  ℕ, suc, ◌+◌, ◌%◌, ◌<◌, ◌≡◌, ◌≢◌, ◌⊎◌, inl, inr, refl, sym, ap, ap₂, ◌∙◌, subst, true, false, not,
  ◌&&◌, ◌||◌, ltb, ◌==◌, List, [], ◌∷◌, ◌++◌, length, get_or, drop, split_at, length-append,
  AreBytes, lt→ltb, ==_refl, ==_ne, ==_iff, Bool-cases, arith,
}
use y_modem_protocol.Crc.Defs.{chunk_sz, crc_register}
use y_modem_protocol.Crc.Chunk.{crc_register-word_ne, crc_register-byte_ne, crc_register-lt}
use y_modem_protocol.Block.Defs.{rest_blk_sz_crc, buf_sz, blk_sz_crc, complement}
use y_modem_protocol.Block.Layout.{crc_of}
use y_modem_protocol.Peer.Defs.{is_minus_one}
use y_modem_protocol.Receiver.Defs.{Receiver, purge, refuse, get_rest_blk}
use y_modem_protocol.Receiver.Accept.{
  rest_of, read_in, judged, checked, get_rest_blk-judged, checked_crc, checked-false,
}
use y_modem_protocol.Receiver.Blocks.{next_num}

-- What can be wrong with the bytes behind SOH, for a receiver whose last block was `last`: their
-- count, the complement of the number, or the CRC.
pub data Damaged (last : ℕ) (got : List ℕ) : Type 0 where
  wrong_length : length got ≢ rest_blk_sz_crc → Damaged last got
  wrong_complement :
      (num cnum hi lo : ℕ) (chunk : List ℕ)
      → got ≡ num ∷ cnum ∷ (chunk ++ (hi ∷ lo ∷ []))
      → length chunk ≡ chunk_sz
      → cnum ≢ complement num
      → Damaged last got
  wrong_crc :
      (num hi lo : ℕ) (chunk : List ℕ)
      → got ≡ num ∷ complement num ∷ (chunk ++ (hi ∷ lo ∷ []))
      → length chunk ≡ chunk_sz
      → (num ≡ (last + 1) % 256) ⊎ (num ≡ last)
      → hi < 256
      → lo < 256
      → hi ∷ lo ∷ [] ≢ crc_of chunk
      → Damaged last got

-- The outcome of a refusal; the line is purged unless the block was too short.
abbrev pub Refused : List ℕ → Receiver → Type 0
Refused got r =
    (get_rest_blk got r ≡ record (read_in got r) { good_blk = false; good_blk1st = false })
    ⊎ (get_rest_blk got r ≡ refuse (read_in got r))

wrong_length-Refused : (got : List ℕ) (r : Receiver) → length got ≢ rest_blk_sz_crc → Refused got r
unfolding get_rest_blk
wrong_length-Refused got r d = elim (Bool-cases (ltb (length got) rest_blk_sz_crc)) [
  | inl short ↦ inl (rw short refl)
  | inr enough ↦ inr (rw (enough, lt→ltb rest_blk_sz_crc (length got) (ground arith)) refl)
]

known_num :
    (r : Receiver) (num : ℕ)
    → is_minus_one r.transferring_file ≡ false
    → (num ≡ next_num r) ⊎ (num ≡ r.num_last_good_blk)
    → (not (num == next_num r)
        && (is_minus_one r.transferring_file || not (num == r.num_last_good_blk)))
      ≡ false
known_num r num file (inl e) = rw ((==_iff num (next_num r)).1 e) refl
known_num r num file (inr e) = rw (file, (==_iff num r.num_last_good_blk).1 e) (ground arith)

-- With a file open and an array of BUF_SZ bytes, damaged bytes are refused: the block is neither good
-- nor new, no block number is kept and no loss of synchronization noted.
pub Damaged-Refused :
    (got : List ℕ) (r : Receiver)
    → length r.rcv_blk ≡ buf_sz
    → is_minus_one r.transferring_file ≡ false
    → Damaged r.num_last_good_blk got
    → Refused got r
Damaged-Refused got r k file (wrong_length d) = wrong_length-Refused got r d
Damaged-Refused got r k file (wrong_complement num cnum hi lo chunk e len d) = inr (
    rw e
      (get_rest_blk-judged num cnum chunk hi lo r len k ∙ rw (==_ne cnum (complement num) d) refl))
Damaged-Refused got r k file (wrong_crc num hi lo chunk e len n p q d) = inr (
    rw e (
      get_rest_blk-judged num (complement num) chunk hi lo r len k
      ∙ rw
          (
            ==_refl (complement num),
            known_num r num file n,
            checked-false r.order chunk hi lo (drop blk_sz_crc r.rcv_blk) len p q d,
          )
          refl))

crc_of_ne : (x y : List ℕ) → crc_register x ≢ crc_register y → crc_of x ≢ crc_of y
crc_of_ne x y d e = d (omega (arith, ap (λ l. get_or l 0 0) e, ap (λ l. get_or l 1 0) e))

-- With a file open and an array of BUF_SZ bytes, a block of the expected number in which two adjacent
-- bytes of the chunk have changed since its CRC was made, both or one of them, is refused.
pub changed_bytes-Refused :
    (num a c b d : ℕ) (pre post : List ℕ) (r : Receiver)
    → length pre + suc (suc (length post)) ≡ chunk_sz
    → a < 256
    → c < 256
    → b < 256
    → d < 256
    → (a ≢ b) ⊎ (c ≢ d)
    → length r.rcv_blk ≡ buf_sz
    → is_minus_one r.transferring_file ≡ false
    → (num ≡ next_num r) ⊎ (num ≡ r.num_last_good_blk)
    → Refused (num ∷ complement num ∷ ((pre ++ (b ∷ d ∷ post)) ++ crc_of (pre ++ (a ∷ c ∷ post)))) r
changed_bytes-Refused num a c b d pre post r len p q u v apart k file n =
    Damaged-Refused _ r k file (
      wrong_crc num _ _ (pre ++ (b ∷ d ∷ post)) refl
        (omega (arith, length-append pre (b ∷ d ∷ post))) n
        (omega (arith, crc_register-lt (pre ++ (a ∷ c ∷ post)))) (omega arith)
        (crc_of_ne (pre ++ (a ∷ c ∷ post)) (pre ++ (b ∷ d ∷ post))
          (crc_register-word_ne pre post a c b d len p q u v apart)))

-- The same for a single byte, at any place of the chunk.
pub changed_byte-Refused :
    (num a b : ℕ) (pre post : List ℕ) (r : Receiver)
    → length pre + suc (length post) ≡ chunk_sz
    → a < 256
    → b < 256
    → a ≢ b
    → length r.rcv_blk ≡ buf_sz
    → is_minus_one r.transferring_file ≡ false
    → (num ≡ next_num r) ⊎ (num ≡ r.num_last_good_blk)
    → Refused (num ∷ complement num ∷ ((pre ++ (b ∷ post)) ++ crc_of (pre ++ (a ∷ post)))) r
changed_byte-Refused num a b pre post r len p u apart k file n = Damaged-Refused _ r k file (
    wrong_crc num _ _ (pre ++ (b ∷ post)) refl (omega (arith, length-append pre (b ∷ post))) n
      (omega (arith, crc_register-lt (pre ++ (a ∷ post)))) (omega arith)
      (crc_of_ne (pre ++ (a ∷ post)) (pre ++ (b ∷ post))
        (crc_register-byte_ne pre post a b len p u apart)))

-- What an accepted block is.
abbrev pub Accepted : List ℕ → Receiver → Type 0
Accepted got r =
    (num : ℕ) × (chunk : List ℕ) × (got ≡ rest_of num chunk)
    × (length chunk ≡ chunk_sz)
    × ((num ≡ next_num r)
        ⊎ ((num ≡ r.num_last_good_blk) × (is_minus_one r.transferring_file ≡ false)))

judged-good :
    (num cnum : ℕ) (chunk : List ℕ) (hi lo : ℕ) (rest : List ℕ) (r : Receiver)
    → (judged num cnum chunk hi lo rest r).good_blk ≡ true
    → (cnum ≡ complement num)
      × (checked r.order chunk hi lo rest ≡ true)
      × ((num ≡ next_num r)
          ⊎ ((num ≡ r.num_last_good_blk) × (is_minus_one r.transferring_file ≡ false)))
unfolding refuse purge
judged-good num cnum chunk hi lo rest r e = ground arith

AreBytes-append : (xs ys : List ℕ) → AreBytes (xs ++ ys) → AreBytes ys
AreBytes-append [] ys h = h
AreBytes-append (x ∷ xs) ys h = AreBytes-append xs ys h.1

two_elements : (l : List ℕ) → length l ≡ 2 → (hi : ℕ) × (lo : ℕ) × (l ≡ hi ∷ lo ∷ [])
two_elements [] h = absurd (omega arith)
two_elements (hi ∷ []) h = absurd (omega arith)
two_elements (hi ∷ lo ∷ []) h = (hi, lo, refl)
two_elements (hi ∷ lo ∷ x ∷ rest) h = absurd (omega arith)

whole_block :
    (got : List ℕ)
    → length got ≡ rest_blk_sz_crc
    → (num : ℕ) × (cnum : ℕ) × (chunk : List ℕ) × (hi : ℕ) × (lo : ℕ) × (got
        ≡ num ∷ cnum ∷ (chunk ++ (hi ∷ lo ∷ [])))
      × (length chunk ≡ chunk_sz)
whole_block [] l = absurd (omega arith)
whole_block (num ∷ []) l = absurd (omega arith)
whole_block (num ∷ cnum ∷ more) l =
    let (chunk, end, e, n) = split_at chunk_sz more (omega arith) in
    let m : length chunk + length end ≡ length more =
      omega (arith, ap length e, length-append chunk end) in
    let (hi, lo, pair) = two_elements end (omega arith) in
    (num, cnum, chunk, hi, lo, ap (λ t. num ∷ cnum ∷ t) (e ∙ ap (λ t. chunk ++ t) pair), n)

Refused-bad : (got : List ℕ) (r : Receiver) → Refused got r → (get_rest_blk got r).good_blk ≢ true
unfolding refuse purge
Refused-bad got r (inl e) good = cc
Refused-bad got r (inr e) good = cc

-- Whatever bytes come into an array of BUF_SZ bytes, those that are accepted are a whole block with a
-- right complement and CRC, whose number is the next one, or the last one while a file is open.
pub get_rest_blk-Accepted :
    (got : List ℕ) (r : Receiver)
    → AreBytes got
    → length r.rcv_blk ≡ buf_sz
    → (get_rest_blk got r).good_blk ≡ true
    → Accepted got r
get_rest_blk-Accepted got r bytes k good = elim (Bool-cases (length got == rest_blk_sz_crc)) [
  | inl right ↦ from_parts (whole_block got ((==_iff (length got) rest_blk_sz_crc).0 right))
  | inr wrong ↦ absurd (Refused-bad got r (wrong_length-Refused got r (ground arith)) good)
]
  where
    from_parts :
        ((num : ℕ) × (cnum : ℕ) × (chunk : List ℕ) × (hi : ℕ) × (lo : ℕ) × (got
            ≡ num ∷ cnum ∷ (chunk ++ (hi ∷ lo ∷ [])))
          × (length chunk ≡ chunk_sz))
        → Accepted got r
    from_parts (num, cnum, chunk, hi, lo, e, len) =
        let bs : AreBytes (hi ∷ lo ∷ []) =
          AreBytes-append (num ∷ cnum ∷ chunk) (hi ∷ lo ∷ []) (subst AreBytes e bytes) in
        let (c, t, n) =
          judged-good num cnum chunk hi lo (drop blk_sz_crc r.rcv_blk)
            (read_in (num ∷ cnum ∷ (chunk ++ (hi ∷ lo ∷ []))) r)
            (ap (λ x. x.good_blk) (sym (get_rest_blk-judged num cnum chunk hi lo r len k))
              ∙ ap (λ g. (get_rest_blk g r).good_blk) (sym e)
              ∙ good) in
        (
          num,
          chunk,
          e
              ∙ ap₂ (λ x y. num ∷ x ∷ (chunk ++ y)) c
                  (checked_crc r.order chunk hi lo (drop blk_sz_crc r.rcv_blk) len bs.0 bs.1.0 t),
          len,
          n,
        )
