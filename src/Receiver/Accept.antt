-- ===== src/Receiver/Accept.antt =====
-- What `getRestBlk` makes of the bytes that came: the blocks it accepts, and those it refuses.
use y_modem_protocol.Base.{
  ℕ, ◌+◌, ◌%◌, ◌<◌, ◌≡◌, ◌≢◌, inl, inr, refl, sym, ap, ap₂, ◌∙◌, Bool, true, false, not, ◌&&◌, ◌||◌,
  ◌==◌, if◌then◌else◌, List, [], ◌∷◌, ◌++◌, append_assoc, length, drop, write_at, split_at,
  length-append, overwrite, overwrite-append, drop-append, le→ltb, ==_refl, ==_iff, Bool-cases,
  arith,
}
use y_modem_protocol.Crc.Defs.{
  ByteOrder, little_endian, big_endian, chunk_sz, load16, store16, crc16ns,
}
use y_modem_protocol.Crc.Chunk.{load16-store16, store16-crc16ns, crc_register-append}
use y_modem_protocol.Block.Defs.{rest_blk_sz_crc, buf_sz, blk_sz_crc, complement}
use y_modem_protocol.Block.Layout.{crc_of}
use y_modem_protocol.Peer.Defs.{is_minus_one}
use y_modem_protocol.Receiver.Defs.{Receiver, byte_at, purge, refuse, check_block, get_rest_blk}

-- A block without its SOH.
abbrev pub rest_of : ℕ → List ℕ → List ℕ
rest_of num chunk = num ∷ complement num ∷ (chunk ++ crc_of chunk)

-- What is left of the array behind a block.
abbrev pub behind : Receiver → List ℕ
behind r = drop blk_sz_crc r.rcv_blk

load16-rest :
    (order : ByteOrder) (hi lo : ℕ) (rest : List ℕ)
    → load16 order (hi ∷ lo ∷ rest) ≡ load16 order (hi ∷ lo ∷ [])
unfolding load16
load16-rest little_endian hi lo rest = refl
load16-rest big_endian hi lo rest = refl

store16-load16 :
    (order : ByteOrder) (hi lo : ℕ)
    → hi < 256
    → lo < 256
    → store16 order (load16 order (hi ∷ lo ∷ [])) ≡ hi ∷ lo ∷ []
unfolding load16 store16
store16-load16 little_endian hi lo p q = ap₂ (λ x y. x ∷ y ∷ []) (omega arith) (omega arith)
store16-load16 big_endian hi lo p q = ap₂ (λ x y. x ∷ y ∷ []) (omega arith) (omega arith)

crc16ns-append :
    (order : ByteOrder) (chunk rest : List ℕ)
    → length chunk ≡ chunk_sz
    → crc16ns order (chunk ++ rest) ≡ crc16ns order chunk
unfolding crc16ns
crc16ns-append order chunk rest len = rw (crc_register-append chunk rest len)

-- The two bytes behind the chunk are its CRC: `checked` is the test of the code.
abbrev pub checked : ByteOrder → List ℕ → ℕ → ℕ → List ℕ → Bool
checked order chunk hi lo rest =
    load16 order (hi ∷ lo ∷ rest) == crc16ns order (chunk ++ (hi ∷ lo ∷ rest))

pub checked-true :
    (order : ByteOrder) (chunk : List ℕ) (hi lo : ℕ) (rest : List ℕ)
    → length chunk ≡ chunk_sz
    → hi ∷ lo ∷ [] ≡ crc_of chunk
    → checked order chunk hi lo rest ≡ true
checked-true order chunk hi lo rest len e =
    rw
      (
        load16-rest order hi lo rest,
        crc16ns-append order chunk (hi ∷ lo ∷ rest) len,
        e,
        ← store16-crc16ns order chunk,
        load16-store16 order (crc16ns order chunk),
      )
      (==_refl (crc16ns order chunk))

pub checked_crc :
    (order : ByteOrder) (chunk : List ℕ) (hi lo : ℕ) (rest : List ℕ)
    → length chunk ≡ chunk_sz
    → hi < 256
    → lo < 256
    → checked order chunk hi lo rest ≡ true
    → hi ∷ lo ∷ [] ≡ crc_of chunk
checked_crc order chunk hi lo rest len p q e =
    sym (store16-load16 order hi lo p q)
    ∙ ap (store16 order) (
        sym (load16-rest order hi lo rest)
        ∙ (==_iff _ _).0 e
        ∙ crc16ns-append order chunk (hi ∷ lo ∷ rest) len)
    ∙ store16-crc16ns order chunk

pub checked-false :
    (order : ByteOrder) (chunk : List ℕ) (hi lo : ℕ) (rest : List ℕ)
    → length chunk ≡ chunk_sz
    → hi < 256
    → lo < 256
    → hi ∷ lo ∷ [] ≢ crc_of chunk
    → checked order chunk hi lo rest ≡ false
checked-false order chunk hi lo rest len p q d =
    elim (Bool-cases (checked order chunk hi lo rest)) [
      | inl e ↦ absurd (d (checked_crc order chunk hi lo rest len p q e))
      | inr e ↦ e
    ]

-- The array after the bytes of a whole block are read into it.
pub read_whole :
    (got blk : List ℕ)
    → length got ≡ rest_blk_sz_crc
    → length blk ≡ buf_sz
    → (b : ℕ) × (write_at 1 got blk ≡ b ∷ (got ++ drop blk_sz_crc blk))
read_whole got [] l k = absurd (omega arith)
read_whole got (b ∷ old) l k =
    let (front, back, e, n) = split_at rest_blk_sz_crc old (omega arith) in
    (
      b,
      ap (λ t. b ∷ overwrite got t) e
          ∙ ap (◌∷◌ b) (overwrite-append got front back (l ∙ sym n))
          ∙ ap (λ t. b ∷ (got ++ t))
              (sym (ap (drop rest_blk_sz_crc) e ∙ drop-append front back rest_blk_sz_crc (sym n))),
    )

abbrev pub with_blk : List ℕ → Receiver → Receiver
with_blk blk r = record r { rcv_blk = blk }

-- The receiver once the bytes are in its array.
abbrev pub read_in : List ℕ → Receiver → Receiver
read_in got r = with_blk (write_at 1 got r.rcv_blk) r

-- The tests of `getRestBlk`, in order, on the parts of 132 bytes.
abbrev pub judged : ℕ → ℕ → List ℕ → ℕ → ℕ → List ℕ → Receiver → Receiver
judged num cnum chunk hi lo rest r =
    let first = num == (r.num_last_good_blk + 1) % 256 in
    if not (cnum == complement num)
    then refuse r
    else if not first && (is_minus_one r.transferring_file || not (num == r.num_last_good_blk))
    then purge (record r { good_blk1st = first; sync_loss = true; good_blk = false })
    else if not (checked r.order chunk hi lo rest)
    then refuse r
    else if not first
    then record r { good_blk = true; good_blk1st = false }
    else record r { good_blk = true; good_blk1st = true; num_last_good_blk = num }

-- The part of `getRestBlk` behind the tests of the length.
abbrev whole : Receiver → Receiver
whole r = if not (byte_at 2 r == complement (byte_at 1 r)) then refuse r else check_block r

whole-judged :
    (b num cnum : ℕ) (chunk : List ℕ) (hi lo : ℕ) (rest : List ℕ) (r : Receiver)
    → length chunk ≡ chunk_sz
    → let got = with_blk (b ∷ num ∷ cnum ∷ (chunk ++ (hi ∷ lo ∷ rest))) r in
      whole got ≡ judged num cnum chunk hi lo rest got
unfolding check_block
whole-judged b num cnum chunk hi lo rest r len =
    rw (drop-append chunk (hi ∷ lo ∷ rest) chunk_sz (sym len)) refl

pub get_rest_blk-judged :
    (num cnum : ℕ) (chunk : List ℕ) (hi lo : ℕ) (r : Receiver)
    → length chunk ≡ chunk_sz
    → length r.rcv_blk ≡ buf_sz
    → let got = num ∷ cnum ∷ (chunk ++ (hi ∷ lo ∷ [])) in
      get_rest_blk got r ≡ judged num cnum chunk hi lo (drop blk_sz_crc r.rcv_blk) (read_in got r)
unfolding get_rest_blk
get_rest_blk-judged num cnum chunk hi lo r len k =
    let (b, e) = read_whole got r.rcv_blk l k in
    let e' =
      e
      ∙ ap (λ t. b ∷ num ∷ cnum ∷ t)
          (append_assoc chunk (hi ∷ lo ∷ []) (drop blk_sz_crc r.rcv_blk)) in
    rw
      (
        le→ltb (length got) rest_blk_sz_crc (omega (arith, l)),
        le→ltb rest_blk_sz_crc (length got) (omega (arith, l)),
      )
      (ap (λ x. whole (with_blk x r)) e'
        ∙ whole-judged b num cnum chunk hi lo (drop blk_sz_crc r.rcv_blk) r len
        ∙ ap (λ x. judged num cnum chunk hi lo (drop blk_sz_crc r.rcv_blk) (with_blk x r)) (sym e'))
  where
    got : List ℕ
    got = num ∷ cnum ∷ (chunk ++ (hi ∷ lo ∷ []))

    l : length got ≡ rest_blk_sz_crc
    l = omega (arith, length-append chunk (hi ∷ lo ∷ []))
