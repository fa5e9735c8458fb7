-- ===== src/PartTwo/Stored.antt =====
-- What the receiver of Part 2 stores.
use y_modem_protocol.Base.{
  ℕ, suc, ◌/◌, ◌%◌, ◌<◌, ◌≡◌, ◌≢◌, refl, sym, ap, ◌∙◌, true, leb, ◌==◌, ==_ne, List, [], ◌∷◌, ◌++◌,
  append_assoc, append-nil, some, length, length-append, length-write_at, write_at, overwrite,
  overwrite-append, take-append, drop-append, arith,
}
use y_modem_protocol.Crc.Defs.{chunk_sz, crc_register}
use y_modem_protocol.Block.Defs.{blk_sz_crc, rest_blk_sz_crc, complement}
use y_modem_protocol.Block.Layout.{crc_of, block}
use y_modem_protocol.Receiver.Accept.{rest_of, checked-true}
use y_modem_protocol.Peer.Defs.{Action, wrote, stored, soh, ack}
use y_modem_protocol.PartTwo.Receiver.{
  ReceiverY, act, send_byte, get_rest_blk, number_block, write_chunk, answer_block, read_first,
  receive_data,
}

complement_twice : (n : ℕ) → n < 256 → (n == complement (complement n)) ≡ true
complement_twice n h = ground arith

overwrite_all : (src dst : List ℕ) → length src ≡ length dst → overwrite src dst ≡ src
overwrite_all src dst h =
    ap (overwrite src) (sym (append-nil dst)) ∙ overwrite-append src dst [] h ∙ append-nil src

read_block :
    (b : ℕ) (got blk : List ℕ)
    → length got ≡ rest_blk_sz_crc
    → length blk ≡ blk_sz_crc
    → write_at 1 got (write_at 0 (b ∷ []) blk) ≡ b ∷ got
read_block b got [] l k = absurd (omega arith)
read_block b got (x ∷ old) l k = ap (λ t. b ∷ t) (overwrite_all got old (omega arith))

-- The receiver with a good block in its array.
abbrev holding : ℕ → List ℕ → ReceiverY → ReceiverY
holding num chunk r = record r { rcv_blk = block num chunk; good_blk = true; good_blk1st = true }

good_block :
    (num : ℕ) (chunk : List ℕ) (r : ReceiverY)
    → num < 256
    → length chunk ≡ chunk_sz
    → length r.rcv_blk ≡ blk_sz_crc
    → get_rest_blk (rest_of num chunk) (read_first soh r) ≡ number_block num (holding num chunk r)
unfolding get_rest_blk
good_block num chunk r small len array =
    rw
      (
        read_block soh (rest_of num chunk) r.rcv_blk
            (omega (arith, length-append chunk (crc_of chunk))) array,
        complement_twice num small,
        drop-append chunk (crc_of chunk) chunk_sz (sym len),
        checked-true r.order chunk (crc_register chunk / 256) (crc_register chunk % 256) [] len
            refl,
      )
      refl

-- What is done for a good block.
abbrev taken : ℕ → List ℕ → ReceiverY → ReceiverY
taken num chunk r = write_chunk (send_byte ack (number_block num (holding num chunk r)))

answer_good :
    (num : ℕ) (chunk : List ℕ) (r : ReceiverY)
    → num < 256
    → length chunk ≡ chunk_sz
    → length r.rcv_blk ≡ blk_sz_crc
    → answer_block (get_rest_blk (rest_of num chunk) (read_first soh r)) ≡ taken num chunk r
unfolding answer_block
answer_good num chunk r small len array =
    ap answer_block (good_block num chunk r small len array) ∙ refl

taken-log :
    (num : ℕ) (chunk : List ℕ) (r : ReceiverY)
    → length chunk ≡ chunk_sz
    → (taken num chunk r).log ≡ r.log ++ (wrote (ack ∷ []) ∷ stored chunk ∷ [])
unfolding write_chunk send_byte act
taken-log num chunk r len =
    append_assoc r.log (wrote (ack ∷ []) ∷ []) _
    ∙ ap (λ x. r.log ++ (wrote (ack ∷ []) ∷ stored x ∷ []))
        (take-append chunk (crc_of chunk) chunk_sz (sym len))

taken-array :
    (num : ℕ) (chunk : List ℕ) (r : ReceiverY)
    → length chunk ≡ chunk_sz
    → length (taken num chunk r).rcv_blk ≡ blk_sz_crc
unfolding write_chunk send_byte act
taken-array num chunk r len = omega (arith, length-append chunk (crc_of chunk))

-- One round of the loop.
one_block :
    (fuel num : ℕ) (chunk rest : List ℕ) (r : ReceiverY)
    → num < 256
    → length chunk ≡ chunk_sz
    → length r.rcv_blk ≡ blk_sz_crc
    → receive_data (suc fuel) (block num chunk ++ rest) r
      ≡ receive_data fuel rest (taken num chunk r)
unfolding receive_data
one_block fuel num chunk rest r small len array =
    let whole : length (rest_of num chunk) ≡ rest_blk_sz_crc =
      omega (arith, length-append chunk (crc_of chunk)) in
    rw
      (
        enough (rest_of num chunk) rest whole,
        take-append (rest_of num chunk) rest rest_blk_sz_crc (sym whole),
        drop-append (rest_of num chunk) rest rest_blk_sz_crc (sym whole),
        answer_good num chunk r small len array,
      )
      refl
  where
    enough :
        (xs ys : List ℕ)
        → length xs ≡ rest_blk_sz_crc
        → leb rest_blk_sz_crc (length (xs ++ ys)) ≡ true
    enough xs ys h = ground (arith, length-append xs ys)

-- A block is its number and its chunk.
abbrev pub AreBlocks : List (ℕ × List ℕ) → Type 0
AreBlocks [] = Unit {0}
AreBlocks ((num, chunk) ∷ blocks) = (num < 256) × (length chunk ≡ chunk_sz) × AreBlocks blocks

-- The bytes of blocks on the line, with what follows.
unfoldable pub on_line : List (ℕ × List ℕ) → List ℕ → List ℕ
on_line [] rest = rest
on_line ((num, chunk) ∷ blocks) rest = block num chunk ++ on_line blocks rest

unfoldable pub acked_and_stored : List (ℕ × List ℕ) → List Action
acked_and_stored [] = []
acked_and_stored ((num, chunk) ∷ blocks) = wrote (ack ∷ []) ∷ stored chunk ∷ acked_and_stored blocks

-- Every block that arrives whole is acknowledged and its whole chunk is stored, whatever its number:
-- a block that the sender repeats is stored again, and so is the fill of the last one. The inner
-- loop of `receiveFiles` takes them all, and ends behind the first byte that is not SOH.
pub stores_every_block :
    (blocks : List (ℕ × List ℕ)) (e : ℕ) (line : List ℕ) (r : ReceiverY)
    → AreBlocks blocks
    → e ≢ soh
    → length r.rcv_blk ≡ blk_sz_crc
    → (t : ReceiverY) × (receive_data (suc (length blocks)) (on_line blocks (e ∷ line)) r
        ≡ some (line, t))
      × (t.log ≡ r.log ++ acked_and_stored blocks)
      × (length t.rcv_blk ≡ blk_sz_crc)
unfolding receive_data on_line acked_and_stored
stores_every_block [] e line r are last array = (
  read_first e r,
  rw (==_ne e soh last) refl,
  sym (append-nil r.log),
  length-write_at 0 (e ∷ []) r.rcv_blk ∙ array,
)
stores_every_block ((num, chunk) ∷ blocks) e line r are last array =
    let (t, run, logged, array') =
      stores_every_block blocks e line (taken num chunk r) are.2 last
        (taken-array num chunk r are.1) in
    (
      t,
      one_block (suc (length blocks)) num chunk (on_line blocks (e ∷ line)) r are.0 are.1 array
          ∙ run,
      logged
          ∙ ap (λ x. x ++ acked_and_stored blocks) (taken-log num chunk r are.1)
          ∙ append_assoc r.log (wrote (ack ∷ []) ∷ stored chunk ∷ []) (acked_and_stored blocks),
      array',
    )
