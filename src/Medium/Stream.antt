-- ===== src/Medium/Stream.antt =====
-- What the medium passes on from terminal 2, by the places of the bytes in the stream.
use y_modem_protocol.Base.{
  ℕ, suc, ◌+◌, ◌-◌, ◌^◌, ◌≤◌, ◌<◌, ◌≡◌, inl, inr, sym, ap, ◌∙◌, Bool, false, not, leb,
  if◌then◌else◌, Bool-cases, List, ◌++◌, length, replicate, arith,
}
use y_modem_protocol.Peer.Defs.{can}
use y_modem_protocol.Medium.Defs.{
  Medium, corrupt_byte, drop_byte, glitch_bytes, medium_buf_sz, read_sz, index_of, move_down,
}
use y_modem_protocol.Medium.Arrays.{
  flipped, omitted, change, flipped_behind, omitted_behind, flipped_inside, omitted_inside,
  length-omitted, change-append, move_down-append,
}

-- The next bytes to change and to drop are ahead, no farther than the distance of two of them.
pub record IsInStep (m : Medium) : Type 0 where
  pub corrupt_ahead : m.from_t2_byte_count < m.corrupt_threshold
  pub corrupt_near : m.corrupt_threshold ≤ m.from_t2_byte_count + corrupt_byte
  pub drop_ahead : m.from_t2_byte_count < m.drop_threshold
  pub drop_near : m.drop_threshold ≤ m.from_t2_byte_count + drop_byte

-- What a read of `num` bytes does to the corruption and to the drop.
module _ (num : ℕ) (m : Medium) where
  abbrev pub corrupts : Bool
  corrupts = leb m.corrupt_threshold (m.from_t2_byte_count + num)

  abbrev pub drops_one : Bool
  drops_one = leb m.drop_threshold (m.from_t2_byte_count + num)

  -- The glitch bytes behind the bytes received.
  abbrev pub glitches : ℕ
  glitches = if corrupts then (if m.from_t2_glitch then glitch_bytes else 0) else 0

  -- The medium behind the read.
  abbrev pub stepped : Medium
  stepped = record m {
    from_t2_byte_count = m.from_t2_byte_count + num;
    corrupt_threshold =
        if corrupts then m.corrupt_threshold + corrupt_byte else m.corrupt_threshold;
    from_t2_glitch = if corrupts then not m.from_t2_glitch else m.from_t2_glitch;
    drop_threshold = if drops_one then m.drop_threshold + drop_byte else m.drop_threshold;
    send_extra_ack = false;
  }

-- The bytes received with the one at the place of the corruption complemented and the one at the place
-- of the drop left out.
abbrev pub noised : List ℕ → Medium → List ℕ
noised got m =
    omitted m.drop_threshold (m.from_t2_byte_count + 1)
      (flipped m.corrupt_threshold (m.from_t2_byte_count + 1) got)

index_of-lem :
    (num before thr : ℕ)
    → before < thr
    → thr ≤ before + num
    → before + num < 2 ^ 32
    → 0 < num
    → (index_of num (before + num) thr < num) × (before + 1 + index_of num (before + num) thr ≡ thr)
index_of-lem num before thr a b c d = (omega arith, omega arith)

module _ (xs : List ℕ) (k : ℕ) (m : Medium) (i : IsInStep m)
    (small : m.from_t2_byte_count + 2000 < 2 ^ 32) (some_bytes : 0 < length xs)
    (few : length xs ≤ read_sz) (full : length xs + k ≡ medium_buf_sz) where
  open i use {corrupt_ahead, corrupt_near, drop_ahead, drop_near}

  pub change_lem :
      (if corrupts (length xs) m
        then change
            (index_of (length xs) (m.from_t2_byte_count + length xs) m.corrupt_threshold)
            (xs ++ replicate k can)
        else xs ++ replicate k can)
      ≡ flipped m.corrupt_threshold (m.from_t2_byte_count + 1) xs ++ replicate k can
  change_lem = elim (Bool-cases (corrupts (length xs) m)) [
    | inl on ↦
        let at =
          index_of-lem (length xs) m.from_t2_byte_count m.corrupt_threshold corrupt_ahead
            (ground arith) (omega arith) some_bytes in
        let j = index_of (length xs) (m.from_t2_byte_count + length xs) m.corrupt_threshold in
        rw on (
          change-append j xs (replicate k can) at.0
          ∙ ap (λ t. t ++ replicate k can)
              (sym (flipped_inside j (m.from_t2_byte_count + 1) xs at.0)
                ∙ ap (λ c. flipped c (m.from_t2_byte_count + 1) xs) at.1))
    | inr off ↦ rw off (
        ap (λ t. t ++ replicate k can)
          (sym (flipped_behind m.corrupt_threshold (m.from_t2_byte_count + 1) xs (ground arith))))
  ]

  pub move_lem :
      (if drops_one (length xs) m
        then move_down
            (index_of (length xs) (m.from_t2_byte_count + length xs) m.drop_threshold)
            (xs ++ replicate k can)
        else xs ++ replicate k can)
      ≡ omitted m.drop_threshold (m.from_t2_byte_count + 1) xs
        ++ replicate (if drops_one (length xs) m then suc k else k) can
  move_lem = elim (Bool-cases (drops_one (length xs) m)) [
    | inl on ↦
        let at =
          index_of-lem (length xs) m.from_t2_byte_count m.drop_threshold drop_ahead (ground arith)
            (omega arith) some_bytes in
        let j = index_of (length xs) (m.from_t2_byte_count + length xs) m.drop_threshold in
        rw on (
          move_down-append j xs k at.0 (omega arith) full
          ∙ ap (λ t. t ++ replicate (suc k) can)
              (sym (omitted_inside j (m.from_t2_byte_count + 1) xs at.0)
                ∙ ap (λ d. omitted d (m.from_t2_byte_count + 1) xs) at.1))
    | inr off ↦ rw off (
        ap (λ t. t ++ replicate k can)
          (sym (omitted_behind m.drop_threshold (m.from_t2_byte_count + 1) xs (ground arith))))
  ]

  pub length_lem :
      length (omitted m.drop_threshold (m.from_t2_byte_count + 1) xs)
      ≡ length xs - (if drops_one (length xs) m then 1 else 0)
  length_lem = elim (Bool-cases (drops_one (length xs) m)) [
    | inl on ↦
        let at =
          index_of-lem (length xs) m.from_t2_byte_count m.drop_threshold drop_ahead (ground arith)
            (omega arith) some_bytes in
        let j = index_of (length xs) (m.from_t2_byte_count + length xs) m.drop_threshold in
        rw on (
          ap (λ d. length (omitted d (m.from_t2_byte_count + 1) xs)) (sym at.1)
          ∙ length-omitted j (m.from_t2_byte_count + 1) xs at.0)
    | inr off ↦ rw off (
        ap (λ t. length t)
          (omitted_behind m.drop_threshold (m.from_t2_byte_count + 1) xs (ground arith))
        ∙ omega arith)
  ]
