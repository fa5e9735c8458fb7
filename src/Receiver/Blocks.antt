-- ===== src/Receiver/Blocks.antt =====
-- The branches of `getRestBlk`: a new block, a block sent again, a lost block and a damaged one.
use y_modem_protocol.Base.{
  ℕ, ◌+◌, ◌%◌, ◌<◌, ◌≡◌, ◌≢◌, ◌⊎◌, inl, inr, refl, ◌∙◌, true, false, not, ◌||◌, ◌==◌, List, [], ◌∷◌,
  ◌++◌, length, drop, ==_refl, ==_ne, ==_iff, arith,
}
use y_modem_protocol.Crc.Defs.{chunk_sz}
use y_modem_protocol.Block.Defs.{buf_sz, blk_sz_crc, complement}
use y_modem_protocol.Peer.Defs.{is_minus_one}
use y_modem_protocol.Receiver.Defs.{Receiver, purge, get_rest_blk}
use y_modem_protocol.Receiver.Accept.{rest_of, read_in, get_rest_blk-judged, checked-true}

-- The number of the block after the last one.
abbrev pub next_num : Receiver → ℕ
next_num r = (r.num_last_good_blk + 1) % 256

-- For a chunk of 128 bytes and an array of BUF_SZ bytes, the block of the next number is accepted as
-- new, its number is kept, and nothing else changes.
pub get_rest_blk-next :
    (num : ℕ) (chunk : List ℕ) (r : Receiver)
    → length chunk ≡ chunk_sz
    → length r.rcv_blk ≡ buf_sz
    → num ≡ next_num r
    → get_rest_blk (rest_of num chunk) r ≡ record (read_in (rest_of num chunk) r) {
      good_blk = true;
      good_blk1st = true;
      num_last_good_blk = num;
    }
get_rest_blk-next num chunk r len k e =
    get_rest_blk-judged num (complement num) chunk _ _ r len k
    ∙ rw
        (
          ==_refl (complement num),
          (==_iff num (next_num r)).1 e,
          checked-true r.order chunk _ _ (drop blk_sz_crc r.rcv_blk) len refl,
        )
        refl

-- For a chunk of 128 bytes and an array of BUF_SZ bytes, a block of the last number is accepted, but
-- not as new, while a file is open.
pub get_rest_blk-again :
    (chunk : List ℕ) (r : Receiver)
    → length chunk ≡ chunk_sz
    → length r.rcv_blk ≡ buf_sz
    → r.num_last_good_blk < 256
    → is_minus_one r.transferring_file ≡ false
    → get_rest_blk (rest_of r.num_last_good_blk chunk) r
      ≡ record (read_in (rest_of r.num_last_good_blk chunk) r) {
        good_blk = true;
        good_blk1st = false;
      }
get_rest_blk-again chunk r len k small file =
    get_rest_blk-judged num (complement num) chunk _ _ r len k
    ∙ rw
        (
          ==_refl (complement num),
          ==_ne num (next_num r) (omega arith),
          file,
          ==_refl num,
          checked-true r.order chunk _ _ (drop blk_sz_crc r.rcv_blk) len refl,
        )
        refl
  where
    num : ℕ
    num = r.num_last_good_blk

lost_test :
    (r : Receiver) (num : ℕ)
    → (is_minus_one r.transferring_file ≡ true) ⊎ (num ≢ r.num_last_good_blk)
    → (is_minus_one r.transferring_file || not (num == r.num_last_good_blk)) ≡ true
lost_test r num (inl e) = rw e refl
lost_test r num (inr d) = rw (==_ne num r.num_last_good_blk d) (ground arith)

-- For 128 bytes of data and an array of BUF_SZ bytes, a block whose complement is right and whose
-- number is not the next one, nor the last one while a file is open, is a loss of synchronization,
-- whatever its data and its CRC.
pub get_rest_blk-lost :
    (num hi lo : ℕ) (chunk : List ℕ) (r : Receiver)
    → length chunk ≡ chunk_sz
    → length r.rcv_blk ≡ buf_sz
    → num ≢ next_num r
    → (is_minus_one r.transferring_file ≡ true) ⊎ (num ≢ r.num_last_good_blk)
    → let got = num ∷ complement num ∷ (chunk ++ (hi ∷ lo ∷ [])) in
      get_rest_blk got r
      ≡ purge (record (read_in got r) { good_blk = false; good_blk1st = false; sync_loss = true })
get_rest_blk-lost num hi lo chunk r len k other lost =
    get_rest_blk-judged num (complement num) chunk hi lo r len k
    ∙ rw (==_refl (complement num), ==_ne num (next_num r) other, lost_test r num lost) refl
