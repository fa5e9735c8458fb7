-- ===== src/Receiver/Write.antt =====
-- What `writeChunk` stores: the chunk, cut to what is left of the file.
use y_modem_protocol.Base.{
  ℕ, ◌-◌, ◌<◌, min, ◌≡◌, refl, ap, ◌∙◌, true, List, ◌++◌, append_assoc, length, take, drop,
  write_at, length-append, length-take, take-append, if◌then◌else◌, replicate, arith,
}
use y_modem_protocol.Base.Int.{ℤ, ltb_ℤ, pos, ◌+ℤ◌, ◌-ℤ◌}
use y_modem_protocol.Crc.Defs.{chunk_sz}
use y_modem_protocol.Block.Defs.{data_pos, buf_sz, blk_sz_crc, rest_blk_sz_crc}
use y_modem_protocol.Block.Layout.{padded, length-padded, crc_of}
use y_modem_protocol.Peer.Defs.{stored, act, ctrl_z}
use y_modem_protocol.Receiver.Defs.{Receiver, on_peer, write_chunk}
use y_modem_protocol.Receiver.Accept.{rest_of, read_whole}

abbrev write_size : ℤ → ℤ
unfolding ◌+ℤ◌
write_size left = if ltb_ℤ left (pos 0) then pos chunk_sz +ℤ left else pos chunk_sz

write_size_lem : (n : ℕ) → write_size (pos n -ℤ pos chunk_sz) ≡ pos (min chunk_sz n)
unfolding ◌+ℤ◌ ◌-ℤ◌
write_size_lem n = ground arith

positive : (n : ℕ) → 0 < n → ltb_ℤ (pos 0) (pos n) ≡ true
positive n h = ground arith

-- With `n` bytes of the file left, the first `min 128 n` bytes of the chunk are stored.
pub write_chunk_lem :
    (n : ℕ) (r : Receiver)
    → 0 < n
    → r.bytes_remaining ≡ pos n
    → write_chunk r
      ≡ on_peer
          (act (stored (take (min chunk_sz n) (drop data_pos r.rcv_blk))))
          (record r { bytes_remaining = pos n -ℤ pos chunk_sz })
unfolding write_chunk
write_chunk_lem n r h e =
    rw (e, write_size_lem n, positive n h, positive (min chunk_sz n) (omega arith)) refl

-- The chunk that the sender makes of the next bytes of a file.
abbrev pub piece : List ℕ → List ℕ
piece file = take chunk_sz file

-- Of a block of the file, what is stored is the file's bytes without the fill.
pub stored_piece :
    (num : ℕ) (file blk : List ℕ)
    → length blk ≡ buf_sz
    → take
        (min chunk_sz (length file))
        (drop data_pos (write_at 1 (rest_of num (padded (piece file))) blk))
      ≡ piece file
stored_piece num file blk k =
    let (b, e) = read_whole (rest_of num (padded (piece file))) blk whole k in
    ap (λ t. take (min chunk_sz (length file)) (drop data_pos t)) e
    ∙ ap (take (min chunk_sz (length file))) (
        append_assoc (padded p) (crc_of (padded p)) behind
        ∙ append_assoc p fill (crc_of (padded p) ++ behind))
    ∙ take-append p (fill ++ (crc_of (padded p) ++ behind)) (min chunk_sz (length file))
        (omega (arith, len))
  where
    p : List ℕ
    p = piece file

    fill : List ℕ
    fill = replicate (chunk_sz - length p) ctrl_z

    behind : List ℕ
    behind = drop blk_sz_crc blk

    len : length p ≡ min chunk_sz (length file)
    len = length-take chunk_sz file

    whole : length (rest_of num (padded p)) ≡ rest_blk_sz_crc
    whole =
        omega (
          arith,
          length-append (padded p) (crc_of (padded p)),
          length-padded p (omega (arith, len)),
        )
