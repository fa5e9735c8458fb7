-- ===== src/PartOne/DataLoop.antt =====
-- The loop of the first stage over the reads of a file.
use y_modem_protocol.Base.{
  ℕ, ◌+◌, ◌-◌, ◌/◌, ◌%◌, ◌^◌, ◌≤◌, ◌<◌, ◌≡◌, refl, sym, ap, ◌∙◌, Bool, true, false, ◌==◌, List, [],
  ◌∷◌, ◌++◌, append_assoc, append-nil, some, length, drop, replicate, write_at, arith,
  if◌then◌else◌, length-write_at,
}
use y_modem_protocol.Crc.Defs.{ByteOrder, chunk_sz, crc16ns}
use y_modem_protocol.Block.Defs.{complement, data_pos, blk_sz_crc}
use y_modem_protocol.Block.Layout.{padded}
use y_modem_protocol.Peer.Defs.{Action, wrote, soh, ctrl_z}
use y_modem_protocol.PartOne.Defs.{
  SenderY, put_crc, gen_blk, send_blk, gen_next, data_loop, first_read, act,
}
use y_modem_protocol.PartOne.Layout.{block, gen_blk_lem}

-- Reads that give bytes, as many as were asked for at most.
abbrev pub AreChunks : List (List ℕ) → Type 0
AreChunks [] = Unit {0}
AreChunks (got ∷ gots) = (0 < length got) × (length got ≤ chunk_sz) × AreChunks gots

-- The blocks of such reads, numbered from `num` on.
abbrev pub blocks : ByteOrder → ℕ → List (List ℕ) → List Action
blocks order num [] = []
blocks order num (got ∷ gots) =
    wrote (block order num (padded got)) ∷ blocks order ((num + 1) % 256) gots

length-put_crc : (order : ByteOrder) (blk : List ℕ) → length (put_crc order blk) ≡ length blk
unfolding put_crc
length-put_crc order blk =
    let crc = crc16ns order (drop data_pos blk) in
    length-write_at (blk_sz_crc - 2) (crc / 2 ^ 8 ∷ crc % 256 ∷ []) blk

length-fill :
    (b : Bool) (x : List ℕ) (i : ℕ) (src : List ℕ)
    → length (if b then write_at i src x else x) ≡ length x
length-fill true x i src = length-write_at i src x
length-fill false x i src = refl

length-gen_blk :
    (order : ByteOrder) (got : List ℕ) (num : ℕ) (blk : List ℕ)
    → length (gen_blk order got num blk) ≡ length blk
unfolding gen_blk
length-gen_blk order got num blk =
    length-put_crc order _
    ∙ length-fill _ _ (length got + 3) (replicate (chunk_sz - length got) ctrl_z)
    ∙ length-write_at 0 (soh ∷ num ∷ complement num ∷ []) (write_at data_pos got blk)
    ∙ length-write_at data_pos got blk

-- What a run of the loop leaves.
abbrev pub Leaves : List Action → SenderY → SenderY → Type 0
Leaves acts s t =
    (t.log ≡ s.log ++ acts)
    × (t.result ≡ s.result)
    × (t.order ≡ s.order)
    × (length t.blk_buf ≡ blk_sz_crc)

-- The sender when the block that is prepared has gone out.
abbrev sent_block : SenderY → SenderY
sent_block s = send_blk (record s { blk_num = (s.blk_num + 1) % 256 })

not_empty : (got : List ℕ) → 0 < length got → (length got == 0) ≡ false
not_empty got p = ground arith

one_round :
    (got next : List ℕ) (reads : List (List ℕ)) (s : SenderY)
    → 0 < length got
    → data_loop (next ∷ reads) (gen_next got s)
      ≡ data_loop reads (gen_next next (sent_block (gen_next got s)))
unfolding data_loop
one_round got next reads s p = rw (not_empty got p) refl

block_sent :
    (got : List ℕ) (s : SenderY)
    → length got ≤ chunk_sz
    → length s.blk_buf ≡ blk_sz_crc
    → Leaves (wrote (block s.order s.blk_num (padded got)) ∷ []) s (sent_block (gen_next got s))
unfolding send_blk act
block_sent got s q len = (
  ap (λ b. s.log ++ wrote b ∷ []) (gen_blk_lem s.order got s.blk_buf s.blk_num q len),
  refl,
  refl,
  length-gen_blk s.order got s.blk_num s.blk_buf ∙ len,
)

last_round : (s : SenderY) → data_loop [] (gen_next [] s) ≡ some (gen_next [] s)
unfolding data_loop
last_round s = refl

sent_num : (s : SenderY) → (sent_block s).blk_num ≡ (s.blk_num + 1) % 256
unfolding send_blk
sent_num s = refl

data_loop_lem :
    (got : List ℕ) (gots : List (List ℕ)) (s : SenderY)
    → AreChunks (got ∷ gots)
    → length s.blk_buf ≡ blk_sz_crc
    → (t : SenderY) × (data_loop (gots ++ ([] ∷ [])) (gen_next got s) ≡ some t)
      × Leaves (blocks s.order s.blk_num (got ∷ gots)) s t
unfolding send_blk act
data_loop_lem got [] s h len =
    let (log, result, order, buf) = block_sent got s h.1 len in
    let n = sent_block (gen_next got s) in
    (
      gen_next [] n,
      one_round got [] [] s h.0 ∙ last_round n,
      (log, result, order, length-gen_blk n.order [] n.blk_num n.blk_buf ∙ buf),
    )
data_loop_lem got (next ∷ gots) s h len =
    let n = sent_block (gen_next got s) in
    let (log, result, order, buf) = block_sent got s h.1 len in
    let (t, run, rest) = data_loop_lem next gots n h.2 buf in
    (
      t,
      one_round got next (gots ++ ([] ∷ [])) s h.0 ∙ run,
      (
        rest.0
            ∙ ap (λ x. x ++ blocks s.order ((s.blk_num + 1) % 256) (next ∷ gots)) log
            ∙ append_assoc s.log (wrote (block s.order s.blk_num (padded got)) ∷ []) _,
        rest.1 ∙ result,
        rest.2 ∙ order,
        rest.3,
      ),
    )

-- The reads of a file that is not empty, or of an empty one.
pub data_sent :
    (gots : List (List ℕ)) (s : SenderY)
    → AreChunks gots
    → length s.blk_buf ≡ blk_sz_crc
    → (t : SenderY) × (first_read (gots ++ ([] ∷ [])) s ≡ some t)
      × Leaves (blocks s.order s.blk_num gots) s t
data_sent [] s h len = (
  gen_next [] s,
  last_round s,
  (sym (append-nil s.log), refl, refl, length-gen_blk s.order [] s.blk_num s.blk_buf ∙ len),
)
data_sent (got ∷ gots) s h len = data_loop_lem got gots s h len
