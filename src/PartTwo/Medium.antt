-- ===== src/PartTwo/Medium.antt =====
-- Medium.h and Medium.cpp of Ensc351Part2, without SEND_EXTRA_ACKS.
use y_modem_protocol.Base.{
  ℕ, ◌+◌, ◌-◌, ◌%◌, ltb, leb, ◌==◌, if◌then◌else◌, List, [], ◌∷◌, length, get_or, write_at,
}
use y_modem_protocol.Base.Int.{ℤ, pos, negsuc, ◌-ℤ◌}
use y_modem_protocol.Block.Defs.{complement}
use y_modem_protocol.Peer.Defs.{soh, ack, nak, can}

-- `T2toT1_CORRUPT_BYTE`
abbrev pub corrupt_byte : ℕ
corrupt_byte = 395

-- `m_byteCount` and `m_ACKreceived`, `int`s that are never negative.
pub record Medium : Type 0 where
  pub byte_count : ℕ
  pub ack_received : ℕ

abbrev pub new_medium : Medium
new_medium = record { byte_count = 0; ack_received = 0 }

-- How a message ends: the socket was closed; bytes were passed on; or `bytesReceived` is written at a
-- negative index, `below k` for -(k + 1), which is before the array. The log file gets a copy.
pub data Message : Type 0 where
  socket_closed : Message
  passed : List ℕ → Medium → Message
  below : ℕ → Message

-- The corruption of the rest of a block, at `byteToCorrupt`.
abbrev pub corrupt_at : ℤ → ℕ → List ℕ → Medium → Message
corrupt_at (negsuc k) first rest m = below k
corrupt_at (pos i) first rest m =
    passed
      (first
        ∷ (if ltb i (length rest)
            then write_at i (complement (get_or rest i 0) ∷ []) rest
            else rest))
      m

-- A block: `rest` is what the second read gives, at most BLK_SZ_CRC - 1 bytes.
unfoldable pub pass_block : ℕ → List ℕ → Medium → Message
unfolding ◌-ℤ◌
pass_block first rest m =
    let count = m.byte_count + length rest in
    if leb corrupt_byte count
    then corrupt_at (pos (length rest) -ℤ pos (count - corrupt_byte)) first rest
        (record m { byte_count = count - corrupt_byte })
    else passed (first ∷ rest) (record m { byte_count = count })

-- `MsgFromTerm2`: `got` is the first read, of one byte, `rest` the second one, if there is one.
unfoldable pub msg_from_term2 : List ℕ → List ℕ → Medium → Message
unfolding pass_block
msg_from_term2 [] rest m = socket_closed
msg_from_term2 (first ∷ _) rest m =
    let counted = record m { byte_count = m.byte_count + 1 } in
    if first == can
    then passed (first ∷ rest) counted
    else if first == soh
    then pass_block first rest counted
    else passed (first ∷ []) counted

-- `MsgFromTerm1`: every tenth ACK at the front of a read becomes a NAK.
unfoldable pub msg_from_term1 : List ℕ → Medium → Message
msg_from_term1 [] m = socket_closed
msg_from_term1 (first ∷ more) m =
    if first == ack
    then (if (m.ack_received + 1) % 10 == 0
        then passed (nak ∷ more) (record m { ack_received = 0 })
        else passed (first ∷ more) (record m { ack_received = m.ack_received + 1 }))
    else passed (first ∷ more) m
