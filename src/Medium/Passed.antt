-- ===== src/Medium/Passed.antt =====
-- One message from terminal 2, on every path of `MsgFromTerm2`.
use y_modem_protocol.Base.{
  ℕ, zero, suc, ◌+◌, ◌-◌, ◌^◌, ◌≤◌, ◌<◌, ◌≡◌, refl, ap, subst, ◌∙◌, true, false, not, ◌==◌,
  if◌then◌else◌, Bool-cases, inl, inr, List, [], ◌∷◌, ◌++◌, length, take, drop, replicate, write_at,
  arith,
}
use y_modem_protocol.Peer.Defs.{can, ack}
use y_modem_protocol.Medium.Defs.{
  Medium, Message, passed, oversized, u32, corrupt_byte, drop_byte, glitch_bytes, medium_buf_sz,
  read_sz, index_of, move_down, corrupting, dropping, write_out, msg_from_term2,
}
use y_modem_protocol.Medium.Arrays.{
  flipped, change, length-flipped, write-front, take_glitches, take_first,
}
use y_modem_protocol.Medium.Stream.{
  IsInStep, corrupts, drops_one, glitches, stepped, noised, change_lem, move_lem, length_lem,
}

empty_of_length : (xs : List ℕ) → length xs ≡ 0 → xs ≡ []
empty_of_length [] h = refl
empty_of_length (x ∷ xs) h = absurd (omega arith)

-- `msg_from_term2` of some bytes, for any count and array.
abbrev pipeline : List ℕ → ℕ → List ℕ → Medium → Message
pipeline got count buf m =
    let c = corrupting (length got) count buf (record m { from_t2_byte_count = count }) in
    let d = dropping (length got) count c.0 c.2 in write_out (length got - d.1 + c.1) d.0 d.2

pipeline_lem :
    (xs : List ℕ) (m : Medium)
    → 0 < length xs
    → msg_from_term2 xs m
      ≡ pipeline xs
          (u32 (m.from_t2_byte_count + length xs))
          (write_at 0 xs (replicate medium_buf_sz can))
          m
unfolding msg_from_term2
pipeline_lem [] m h = absurd (omega arith)
pipeline_lem (x ∷ xs) m h = refl

module _ (got : List ℕ) (m : Medium) (i : IsInStep m) (small : m.from_t2_byte_count + 2000 < 2 ^ 32)
    (some_bytes : 0 < length got) (few : length got ≤ read_sz) where
  open i use {corrupt_ahead, corrupt_near, drop_ahead, drop_near}

  abbrev count : ℕ
  count = m.from_t2_byte_count + length got

  abbrev counted : Medium
  counted = record m { from_t2_byte_count = count }

  abbrev after_corrupt : Medium
  after_corrupt = record counted {
    corrupt_threshold =
        if corrupts (length got) m then m.corrupt_threshold + corrupt_byte else m.corrupt_threshold;
    from_t2_glitch = if corrupts (length got) m then not m.from_t2_glitch else m.from_t2_glitch;
  }

  abbrev after_drop : Medium
  after_drop = record after_corrupt {
    drop_threshold =
        if drops_one (length got) m then m.drop_threshold + drop_byte else m.drop_threshold;
  }

  abbrev cans_behind : ℕ
  cans_behind = medium_buf_sz - length got

  corrupting-result :
      (buf : List ℕ)
      → corrupting (length got) count buf counted ≡ (
        if corrupts (length got) m
            then change (index_of (length got) count m.corrupt_threshold) buf
            else buf,
        glitches (length got) m,
        after_corrupt,
      )
  unfolding corrupting
  corrupting-result buf = elim (Bool-cases (corrupts (length got) m)) [
    | inl on ↦
        let u : u32 (m.corrupt_threshold + corrupt_byte) ≡ m.corrupt_threshold + corrupt_byte =
          omega arith in
        rw (on, u) refl
    | inr off ↦ rw off refl
  ]

  dropping-result :
      (buf : List ℕ)
      → dropping (length got) count buf after_corrupt ≡ (
        if drops_one (length got) m
            then move_down (index_of (length got) count m.drop_threshold) buf
            else buf,
        if drops_one (length got) m then 1 else 0,
        after_drop,
      )
  unfolding dropping
  dropping-result buf = elim (Bool-cases (drops_one (length got) m)) [
    | inl on ↦
        let u : u32 (m.drop_threshold + drop_byte) ≡ m.drop_threshold + drop_byte = omega arith in
        rw (on, u) refl
    | inr off ↦ rw off refl
  ]

  -- The end of `msg_from_term2`, behind each of its two changes.
  abbrev behind_drop : ℕ → List ℕ × ℕ × Medium → Message
  behind_drop g d = write_out (length got - d.1 + g) d.0 d.2

  abbrev behind_corrupt : List ℕ × ℕ × Medium → Message
  behind_corrupt c = behind_drop c.1 (dropping (length got) count c.0 c.2)

  abbrev drops : ℕ
  drops = if drops_one (length got) m then 1 else 0

  -- The array that is written from.
  abbrev array : List ℕ
  array =
      noised got m
      ++ replicate (if drops_one (length got) m then suc cans_behind else cans_behind) can

  array_lem :
      (if drops_one (length got) m
        then move_down (index_of (length got) count m.drop_threshold) (
            flipped m.corrupt_threshold (m.from_t2_byte_count + 1) got ++ replicate cans_behind can)
        else flipped m.corrupt_threshold (m.from_t2_byte_count + 1) got
          ++ replicate cans_behind can)
      ≡ array
  array_lem =
      let xs = flipped m.corrupt_threshold (m.from_t2_byte_count + 1) got in
      let same : length xs ≡ length got =
        length-flipped m.corrupt_threshold (m.from_t2_byte_count + 1) got in
      subst
        (λ n.
          (if drops_one n m
            then move_down (index_of n (m.from_t2_byte_count + n) m.drop_threshold)
                (xs ++ replicate cans_behind can)
            else xs ++ replicate cans_behind can)
          ≡ noised got m ++ replicate (if drops_one n m then suc cans_behind else cans_behind) can)
        same (move_lem xs cans_behind m i small (omega arith) (omega arith) (omega arith))

  noised-length : length (noised got m) ≡ length got - drops
  noised-length =
      let xs = flipped m.corrupt_threshold (m.from_t2_byte_count + 1) got in
      let same : length xs ≡ length got =
        length-flipped m.corrupt_threshold (m.from_t2_byte_count + 1) got in
      subst (λ n. length (noised got m) ≡ n - (if drops_one n m then 1 else 0)) same
        (length_lem xs cans_behind m i small (omega arith) (omega arith) (omega arith))

  written_lem :
      behind_corrupt (corrupting (length got) count (got ++ replicate cans_behind can) counted)
      ≡ write_out (length got - drops + glitches (length got) m) array after_drop
  written_lem =
      ap behind_corrupt (corrupting-result (got ++ replicate cans_behind can))
      ∙ ap
          (λ b. behind_drop (glitches (length got) m) (dropping (length got) count b after_corrupt))
          (change_lem got cans_behind m i small some_bytes few (omega arith))
      ∙ ap (behind_drop (glitches (length got) m)) (
          dropping-result (
            flipped m.corrupt_threshold (m.from_t2_byte_count + 1) got
            ++ replicate cans_behind can))
      ∙ ap (λ b. write_out (length got - drops + glitches (length got) m) b after_drop) array_lem

  message_lem :
      msg_from_term2 got m
      ≡ write_out (length got - drops + glitches (length got) m) array after_drop
  message_lem =
      pipeline_lem got m some_bytes
      ∙ ap (λ c. pipeline got c (write_at 0 got (replicate medium_buf_sz can)) m) no_wrap
      ∙ ap (λ b. pipeline got count b m) (write-front got medium_buf_sz cans_behind (omega arith))
      ∙ written_lem
    where
      no_wrap : u32 count ≡ count
      no_wrap = omega arith

  write_out-passed :
      (n : ℕ) (buf : List ℕ)
      → 0 < n
      → write_out n buf after_drop
        ≡ passed (take n buf) (if m.send_extra_ack then ack ∷ [] else []) (stepped (length got) m)
  unfolding write_out
  write_out-passed zero buf h = absurd (omega arith)
  write_out-passed (suc n) buf h = rw some_out (
      ap (λ t. passed t (if m.send_extra_ack then ack ∷ [] else []) (stepped (length got) m))
        (ap (λ k. take 1 buf ++ take k (drop 1 buf)) less ∙ take_first n buf))
    where
      some_out : (suc n == 0) ≡ false
      some_out = ground arith

      less : suc n - 1 ≡ n
      less = omega arith

  few_glitches : glitches (length got) m ≤ glitch_bytes
  few_glitches = ground arith

  -- What a message from terminal 2 brings to terminal 1, for a read of at most 70 bytes with the medium
  -- in step and its counter not near its limit: the bytes received, with the one whose place in the
  -- stream is the corruption's complemented and the one at the drop's place left out, and behind them
  -- the glitch bytes, 35 CANs with every second corruption. An extra ACK that is due goes to terminal
  -- 2. That is so unless there is nothing to pass on, one byte that is dropped without glitch bytes.
  pub msg_from_term2-passed :
      0 < length (noised got m) + glitches (length got) m
      → msg_from_term2 got m
        ≡ passed
            (noised got m ++ replicate (glitches (length got) m) can)
            (if m.send_extra_ack then ack ∷ [] else [])
            (stepped (length got) m)
  msg_from_term2-passed h =
      message_lem
      ∙ write_out-passed (length got - drops + glitches (length got) m) array
          (omega (arith, noised-length))
      ∙ ap (λ t. passed t (if m.send_extra_ack then ack ∷ [] else []) (stepped (length got) m))
          (take_glitches (noised got m) (glitches (length got) m) behind
            (length got - drops + glitches (length got) m) room (omega (arith, noised-length)))
    where
      behind : ℕ
      behind = if drops_one (length got) m then suc cans_behind else cans_behind

      room : glitches (length got) m ≤ behind
      room = ground (arith, few_glitches)

  -- A single byte that is to be dropped, without glitch bytes, is not left out: a CAN is passed on
  -- in its place, and behind it the medium asks `write` for -1 bytes.
  pub single_drop :
      length got ≡ 1
      → drops_one (length got) m ≡ true
      → glitches (length got) m ≡ 0
      → msg_from_term2 got m
        ≡ oversized (can ∷ []) (if m.send_extra_ack then ack ∷ [] else []) (stepped (length got) m)
  unfolding write_out
  single_drop one d g =
      message_lem
      ∙ ap (λ n. write_out n array after_drop) nothing
      ∙ ap (λ t. oversized t (if m.send_extra_ack then ack ∷ [] else []) (stepped (length got) m))
          first_can
    where
      dropped_one : drops ≡ 1
      dropped_one = ap (λ b. if b then 1 else 0) d

      nothing : length got - drops + glitches (length got) m ≡ 0
      nothing = omega (arith, dropped_one)

      none_left : length (noised got m) ≡ 0
      none_left = omega (arith, noised-length, dropped_one)

      first_can : take 1 array ≡ can ∷ []
      first_can =
          ap
            (λ x. take 1 (
              x
              ++ replicate (if drops_one (length got) m then suc cans_behind else cans_behind) can))
            (empty_of_length (noised got m) none_left)
          ∙ ap (λ b. take 1 (replicate (if b then suc cans_behind else cans_behind) can)) d
