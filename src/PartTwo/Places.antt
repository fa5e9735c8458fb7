-- ===== src/PartTwo/Places.antt =====
-- Where the medium of Part 2 changes a byte.
use y_modem_protocol.Base.{
  ℕ, ◌+◌, ◌-◌, ◌≤◌, ◌<◌, ◌≡◌, ◌≢◌, refl, true, ltb, leb, ==_ne, le→ltb, if◌then◌else◌, Bool-cases,
  inl, inr, List, [], ◌∷◌, length, get_or, write_at, arith,
}
use y_modem_protocol.Base.Int.{pos, negsuc, ◌-ℤ◌}
use y_modem_protocol.Block.Defs.{blk_sz_crc, complement}
use y_modem_protocol.Peer.Defs.{soh, can}
use y_modem_protocol.PartTwo.Medium.{Medium, passed, below, corrupt_byte, msg_from_term2}

index_in_block :
    (n c : ℕ)
    → c < corrupt_byte
    → corrupt_byte ≤ c + 1 + n
    → pos n -ℤ pos (c + 1 + n - corrupt_byte) ≡ pos (corrupt_byte - 1 - c)
unfolding ◌-ℤ◌
index_in_block n c h k = ground arith

index_below :
    (n c : ℕ)
    → corrupt_byte ≤ c
    → pos n -ℤ pos (c + 1 + n - corrupt_byte) ≡ negsuc (c - corrupt_byte)
unfolding ◌-ℤ◌
index_below n c h = ground arith

-- From a count below 395, a block of up to 132 bytes behind its SOH leaves a count below 395, and a
-- byte of it is changed only at the index 394 less the count, and only if the block has that index;
-- the bytes before and behind it come through.
pub block_in_range :
    (rest : List ℕ) (m : Medium)
    → m.byte_count < corrupt_byte
    → length rest < blk_sz_crc
    → (n : Medium) × (n.byte_count < corrupt_byte)
      × (msg_from_term2 (soh ∷ []) rest m
          ≡ passed
              (soh
                ∷ (if ltb (corrupt_byte - 1 - m.byte_count) (length rest)
                    then write_at
                        (corrupt_byte - 1 - m.byte_count)
                        (complement (get_or rest (corrupt_byte - 1 - m.byte_count) 0) ∷ [])
                        rest
                    else rest))
              n)
unfolding msg_from_term2
block_in_range rest m h few =
    elim (Bool-cases (leb corrupt_byte (m.byte_count + 1 + length rest))) [
      | inl on ↦ (
        record m { byte_count = m.byte_count + 1 + length rest - corrupt_byte },
        ground arith,
        rw (on, index_in_block (length rest) m.byte_count h (ground arith)) refl,
      )
      | inr off ↦ (
        record m { byte_count = m.byte_count + 1 + length rest },
        ground arith,
        rw (off, le→ltb (corrupt_byte - 1 - m.byte_count) (length rest) (ground arith)) refl,
      )
    ]

-- A byte that is no block is counted without a test of the place. So an EOT can make the medium write
-- before its array: from a count of 394 or more, such a byte is passed on, and the next block is then
-- changed at a negative index, as far below 0 as the count is above 394.
pub block_below :
    (b : ℕ) (rest : List ℕ) (m : Medium)
    → b ≢ soh
    → b ≢ can
    → 394 ≤ m.byte_count
    → (n : Medium) × (msg_from_term2 (b ∷ []) [] m ≡ passed (b ∷ []) n)
      × (n.byte_count ≡ m.byte_count + 1)
      × (msg_from_term2 (soh ∷ []) rest n ≡ below (n.byte_count - corrupt_byte))
unfolding msg_from_term2
block_below b rest m other no_can h = (
  record m { byte_count = m.byte_count + 1 },
  rw (==_ne b can no_can, ==_ne b soh other) refl,
  refl,
  rw
      (
        reaches (m.byte_count + 1) (length rest) (omega arith),
        index_below (length rest) (m.byte_count + 1) (omega arith),
      )
      refl,
)
  where
    reaches : (c n : ℕ) → corrupt_byte ≤ c → leb corrupt_byte (c + 1 + n) ≡ true
    reaches c n k = ground arith
