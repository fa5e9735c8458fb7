-- ===== src/Medium/Defs.antt =====
-- Medium.h and Medium.cpp of Ensc351Part6, with neither USE_PART2A_S2_TO_R1 nor USE_PART2A_R1_TO_S2
-- defined: the medium that drops, changes and adds bytes.
use y_modem_protocol.Base.{
  ℕ, suc, ◌+◌, ◌-◌, ◌%◌, ◌^◌, Bool, true, false, not, leb, ◌==◌, if◌then◌else◌, List, [], ◌∷◌, ◌++◌,
  length, take, drop, get_or, replicate, write_at,
}
use y_modem_protocol.Block.Defs.{complement}
use y_modem_protocol.Peer.Defs.{can, nak, ack}

-- The T2toT1 and T1toT2 constants.
abbrev pub corrupt_first_byte : ℕ
corrupt_first_byte = 264

abbrev pub corrupt_byte : ℕ
corrupt_byte = 790

abbrev pub drop_first_byte : ℕ
drop_first_byte = 659

abbrev pub drop_byte : ℕ
drop_byte = 790

abbrev pub glitch_bytes : ℕ
glitch_bytes = 35

abbrev pub t1_corrupt_byte : ℕ
t1_corrupt_byte = 6

abbrev pub t1_drop_byte : ℕ
t1_drop_byte = 7

abbrev pub t1_glitch_byte : ℕ
t1_glitch_byte = 4

abbrev pub t1_send_glitch_ack : ℕ
t1_send_glitch_ack = 50

-- `mediumBufSz`, and the number of bytes that are read from terminal 2 at once.
abbrev pub medium_buf_sz : ℕ
medium_buf_sz = 160

abbrev pub read_sz : ℕ
read_sz = 70

-- The counters are `unsigned int`, `glitch_count` is an `unsigned char`.
pub record Medium : Type 0 where
  pub from_t2_byte_count : ℕ
  pub corrupt_threshold : ℕ
  pub drop_threshold : ℕ
  pub from_t2_glitch : Bool
  pub glitch_count : ℕ
  pub from_t1_byte_count : ℕ
  pub sent_count : ℕ
  pub send_extra_ack : Bool

-- The constructor.
abbrev pub new_medium : Medium
new_medium = record {
  from_t2_byte_count = 0;
  corrupt_threshold = corrupt_first_byte;
  drop_threshold = drop_first_byte;
  from_t2_glitch = false;
  glitch_count = 0;
  from_t1_byte_count = 0;
  sent_count = 0;
  send_extra_ack = false;
}

-- How a `MsgFromTerm` ends: the socket was closed; or bytes were written to terminal 1 and to terminal
-- 2; or, behind such bytes, a `write` is asked for -1, as a `size_t` the largest number there is. The
-- log file gets a copy of every write.
pub data Message : Type 0 where
  socket_closed : Message
  passed oversized : List ℕ → List ℕ → Medium → Message

abbrev pub u32 : ℕ → ℕ
u32 n = n % 2 ^ 32

-- `numOfByteReceived-1-(fromT2ByteCount-threshold)`, which mixes `int` and `unsigned`.
abbrev pub index_of : ℕ → ℕ → ℕ → ℕ
index_of num count threshold = u32 (num + 2 ^ 32 - 1 + 2 ^ 32 - u32 (count + 2 ^ 32 - threshold))

-- `memmove(buf + i, buf + i + 1, mediumBufSz - 1 - i)`: the last byte of the array stays.
abbrev pub move_down : ℕ → List ℕ → List ℕ
move_down i buf = take i buf ++ (drop (suc i) buf ++ get_or buf (medium_buf_sz - 1) 0 ∷ [])

-- The array behind the corruption, the glitch bytes, and the medium.
unfoldable pub corrupting : ℕ → ℕ → List ℕ → Medium → List ℕ × ℕ × Medium
corrupting num count buf m =
    let i = index_of num count m.corrupt_threshold in
    if leb m.corrupt_threshold count
    then (
      write_at i (complement (get_or buf i 0) ∷ []) buf,
      if m.from_t2_glitch then glitch_bytes else 0,
      record m {
        corrupt_threshold = u32 (m.corrupt_threshold + corrupt_byte);
        from_t2_glitch = not m.from_t2_glitch;
      },
    )
    else (buf, 0, m)

-- The array behind the drop, `drop`, and the medium.
unfoldable pub dropping : ℕ → ℕ → List ℕ → Medium → List ℕ × ℕ × Medium
dropping num count buf m =
    if leb m.drop_threshold count
    then (
      move_down (index_of num count m.drop_threshold) buf,
      1,
      record m { drop_threshold = u32 (m.drop_threshold + drop_byte) },
    )
    else (buf, 0, m)

-- The writes: the first byte, an extra ACK to terminal 2, and the rest.
unfoldable pub write_out : ℕ → List ℕ → Medium → Message
write_out to_write buf m =
    let to2 = if m.send_extra_ack then ack ∷ [] else [] in
    let after = record m { send_extra_ack = false } in
    if to_write == 0
    then oversized (take 1 buf) to2 after
    else passed (take 1 buf ++ take (to_write - 1) (drop 1 buf)) to2 after

-- `MsgFromTerm2`, for the bytes that `myRead` gives, at most `read_sz`.
unfoldable pub msg_from_term2 : List ℕ → Medium → Message
msg_from_term2 [] m = socket_closed
msg_from_term2 (b ∷ bs) m =
    let num = length (b ∷ bs) in
    let count = u32 (m.from_t2_byte_count + num) in
    let buf = write_at 0 (b ∷ bs) (replicate medium_buf_sz can) in
    let (corrupted, glitches, n) =
      corrupting num count buf (record m { from_t2_byte_count = count }) in
    let (dropped, drops, k) = dropping num count corrupted n in
    write_out (num - drops + glitches) dropped k

-- What a byte that is not dropped does to terminal 2.
unfoldable pub send_on : ℕ → Medium → Message
send_on c m =
    let counted = record m { sent_count = u32 (m.sent_count + 1) } in
    let glitch = counted.sent_count % t1_glitch_byte == 0 in
    let added = record counted {
      glitch_count = if glitch then (m.glitch_count + 1) % 256 else m.glitch_count;
      send_extra_ack =
          if m.from_t1_byte_count % t1_send_glitch_ack == 0 then true else m.send_extra_ack;
    } in
    passed []
      ((if glitch then m.glitch_count ∷ [] else [])
        ++ (if m.from_t1_byte_count % t1_corrupt_byte == 0 then nak else c) ∷ [])
      added

-- `MsgFromTerm1`, for the byte that `myRead` gives.
unfoldable pub msg_from_term1 : List ℕ → Medium → Message
unfolding send_on
msg_from_term1 [] m = socket_closed
msg_from_term1 (c ∷ _) m =
    let counted = record m { from_t1_byte_count = u32 (m.from_t1_byte_count + 1) } in
    if counted.from_t1_byte_count % t1_drop_byte == 0
    then passed [] [] counted
    else send_on c counted
