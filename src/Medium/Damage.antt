-- ===== src/Medium/Damage.antt =====
-- A block on its way through the medium to the receiver.
use y_modem_protocol.Base.{
  ℕ, suc, ◌+◌, ◌^◌, ◌≤◌, ◌<◌, ◌≡◌, ◌≢◌, ◌⊎◌, inl, inr, refl, sym, ap, subst, ◌∙◌, false, ◌==◌,
  if◌then◌else◌, Bool-cases, List, [], ◌∷◌, ◌++◌, append_assoc, append-nil, length, length-append,
  arith, replicate,
}
use y_modem_protocol.Block.Defs.{buf_sz, complement}
use y_modem_protocol.Block.Layout.{crc_of}
use y_modem_protocol.Crc.Defs.{chunk_sz}
use y_modem_protocol.Peer.Defs.{is_minus_one, can, ack}
use y_modem_protocol.Receiver.Defs.{Receiver}
use y_modem_protocol.Receiver.Damage.{Refused, changed_byte-Refused}
use y_modem_protocol.Receiver.Blocks.{next_num}
use y_modem_protocol.Medium.Defs.{Medium, Message, passed, read_sz, corrupt_byte, msg_from_term2}
use y_modem_protocol.Medium.Arrays.{
  flipped, flipped_before, flipped_behind, length-flipped, omitted_behind,
}
use y_modem_protocol.Medium.Stream.{IsInStep, corrupts, glitches, stepped, noised}
use y_modem_protocol.Medium.Passed.{msg_from_term2-passed}

-- The medium reads one piece after another: what terminal 1 gets, and the medium.
abbrev pub pass_on : Message → Medium → (Medium → List ℕ × Medium) → List ℕ × Medium
pass_on (passed to1 to2 n) m more = (to1 ++ (more n).0, (more n).1)
pass_on _ m more = ([], m)

unfoldable pub pass_reads : List (List ℕ) → Medium → List ℕ × Medium
pass_reads [] m = ([], m)
pass_reads (got ∷ reads) m = pass_on (msg_from_term2 got m) m (pass_reads reads)

unfoldable pub bytes_of : List (List ℕ) → List ℕ
bytes_of [] = []
bytes_of (got ∷ reads) = got ++ bytes_of reads

-- Every piece is a read of `MsgFromTerm2`.
abbrev pub AreReads : List (List ℕ) → Type 0
AreReads [] = Unit {0}
AreReads (got ∷ reads) = (0 < length got) × (length got ≤ read_sz) × AreReads reads

flipped-append :
    (c pos : ℕ) (xs ys : List ℕ)
    → flipped c pos (xs ++ ys) ≡ flipped c pos xs ++ flipped c (pos + length xs) ys
unfolding flipped
flipped-append c pos [] ys = ap (λ p. flipped c p ys) (omega arith)
flipped-append c pos (x ∷ xs) ys =
    ap (λ t. (if pos == c then complement x else x) ∷ t)
      (flipped-append c (suc pos) xs ys
        ∙ ap (λ p. flipped c (suc pos) xs ++ flipped c p ys) (omega arith))

flipped_at :
    (pos a : ℕ) (pre post : List ℕ)
    → flipped (pos + length pre) pos (pre ++ (a ∷ post)) ≡ pre ++ (complement a ∷ post)
unfolding flipped
flipped_at pos a [] post = ground (arith, flipped_before (pos + 0) (suc pos) post)
flipped_at pos a (x ∷ pre) post =
    let here : (pos == pos + suc (length pre)) ≡ false = ground arith in
    let moved : pos + suc (length pre) ≡ suc pos + length pre = omega arith in
    rw here (
      ap (λ t. x ∷ t)
        (ap (λ c. flipped c (suc pos) (pre ++ (a ∷ post))) moved ∙ flipped_at (suc pos) a pre post))

add_swap : (a b : ℕ) → a + b + 1 ≡ a + 1 + b
add_swap a b = omega arith

-- No drop in the bytes to come, and at most one corruption, without glitch bytes.
pub record IsCalm (total : ℕ) (m : Medium) : Type 0 where
  pub in_step : IsInStep m
  pub no_drop : m.from_t2_byte_count + total < m.drop_threshold
  pub small : m.from_t2_byte_count + total + 2000 < 2 ^ 32
  pub no_glitch :
      (m.from_t2_byte_count + total < m.corrupt_threshold)
      ⊎ ((m.from_t2_glitch ≡ false)
          × (m.from_t2_byte_count + total < m.corrupt_threshold + corrupt_byte))

module _ (got : List ℕ) (rest : ℕ) (m : Medium) (c : IsCalm (length got + rest) m)
    (some_bytes : 0 < length got) (few : length got ≤ read_sz) where
  open c use {in_step, no_drop, small, no_glitch}

  no_drop_here : noised got m ≡ flipped m.corrupt_threshold (m.from_t2_byte_count + 1) got
  no_drop_here =
      omitted_behind m.drop_threshold (m.from_t2_byte_count + 1)
        (flipped m.corrupt_threshold (m.from_t2_byte_count + 1) got)
        (omega (arith, length-flipped m.corrupt_threshold (m.from_t2_byte_count + 1) got))

  no_glitches : glitches (length got) m ≡ 0
  no_glitches = ground arith

  read_passed :
      msg_from_term2 got m
      ≡ passed
          (flipped m.corrupt_threshold (m.from_t2_byte_count + 1) got)
          (if m.send_extra_ack then ack ∷ [] else [])
          (stepped (length got) m)
  read_passed =
      msg_from_term2-passed got m in_step (omega arith) some_bytes few (
        omega (
          arith,
          ap length no_drop_here,
          length-flipped m.corrupt_threshold (m.from_t2_byte_count + 1) got,
        ))
      ∙ ap (λ x. passed x (if m.send_extra_ack then ack ∷ [] else []) (stepped (length got) m))
          (ap (λ n. noised got m ++ replicate n can) no_glitches
            ∙ append-nil (noised got m)
            ∙ no_drop_here)

  stepped-IsCalm : IsCalm rest (stepped (length got) m)
  stepped-IsCalm = ground arith

  flipped-stepped :
      (ys : List ℕ)
      → length ys ≡ rest
      → flipped
          (stepped (length got) m).corrupt_threshold
          (m.from_t2_byte_count + length got + 1)
          ys
        ≡ flipped m.corrupt_threshold (m.from_t2_byte_count + 1 + length got) ys
  flipped-stepped ys e = elim (Bool-cases (corrupts (length got) m)) [
    | inl on ↦ rw on (
        flipped_behind (m.corrupt_threshold + corrupt_byte) (m.from_t2_byte_count + length got + 1)
          ys (ground arith)
        ∙ sym (
            flipped_before m.corrupt_threshold (m.from_t2_byte_count + 1 + length got) ys
              (ground arith)))
    | inr off ↦
        rw off
          (ap (λ p. flipped m.corrupt_threshold p ys) (add_swap m.from_t2_byte_count (length got)))
  ]

-- While no byte is to be dropped and no glitch bytes are due, the bytes come through in order, however
-- they are cut into reads, with the one at the place of the corruption complemented.
pass_reads-flipped :
    (reads : List (List ℕ)) (m : Medium)
    → AreReads reads
    → IsCalm (length (bytes_of reads)) m
    → (pass_reads reads m).0
      ≡ flipped m.corrupt_threshold (m.from_t2_byte_count + 1) (bytes_of reads)
unfolding pass_reads bytes_of flipped
pass_reads-flipped [] m r c = refl
pass_reads-flipped (got ∷ reads) m r c =
    let d : IsCalm (length got + length (bytes_of reads)) m =
      subst (λ n. IsCalm n m) (length-append got (bytes_of reads)) c in
    ap (λ x. (pass_on x m (pass_reads reads)).0)
      (read_passed got (length (bytes_of reads)) m d r.0 r.1)
    ∙ ap (λ x. flipped m.corrupt_threshold (m.from_t2_byte_count + 1) got ++ x)
        (pass_reads-flipped reads (stepped (length got) m) r.2
            (stepped-IsCalm got (length (bytes_of reads)) m d r.0 r.1)
          ∙ flipped-stepped got (length (bytes_of reads)) m d r.0 r.1 (bytes_of reads) refl)
    ∙ sym (flipped-append m.corrupt_threshold (m.from_t2_byte_count + 1) got (bytes_of reads))

not_complement : (a : ℕ) → a < 256 → a ≢ complement a
not_complement a h e = absurd (omega arith)

-- The receiver refuses the block that the medium has damaged: when the corruption falls on any byte of
-- the chunk of a block of the expected number, or of the last number again, no byte of the block is
-- dropped and no glitch bytes are due, then however the bytes behind SOH are cut into reads, what
-- terminal 1 gets of them is refused, with a file open.
pub corrupted_block-Refused :
    (reads : List (List ℕ)) (m : Medium) (num a : ℕ) (pre post : List ℕ) (r : Receiver)
    → AreReads reads
    → IsCalm (length (bytes_of reads)) m
    → bytes_of reads ≡ num ∷ complement num ∷ ((pre ++ (a ∷ post)) ++ crc_of (pre ++ (a ∷ post)))
    → m.corrupt_threshold ≡ m.from_t2_byte_count + 3 + length pre
    → length pre + suc (length post) ≡ chunk_sz
    → a < 256
    → length r.rcv_blk ≡ buf_sz
    → is_minus_one r.transferring_file ≡ false
    → (num ≡ next_num r) ⊎ (num ≡ r.num_last_good_blk)
    → Refused ((pass_reads reads m).0) r
corrupted_block-Refused reads m num a pre post r are calm block place len small array open_file
      known =
    subst (λ x. Refused x r) (sym damaged)
      (changed_byte-Refused num a (complement a) pre post r len small (omega arith)
        (not_complement a small) array open_file known)
  where
    crc : List ℕ
    crc = crc_of (pre ++ (a ∷ post))

    cut :
        num ∷ complement num ∷ ((pre ++ (a ∷ post)) ++ crc)
        ≡ (num ∷ complement num ∷ pre) ++ (a ∷ (post ++ crc))
    cut = ap (λ t. num ∷ complement num ∷ t) (append_assoc pre (a ∷ post) crc)

    damaged :
        (pass_reads reads m).0 ≡ num ∷ complement num ∷ ((pre ++ (complement a ∷ post)) ++ crc)
    damaged =
        pass_reads-flipped reads m are calm
        ∙ ap (λ c. flipped c (m.from_t2_byte_count + 1) (bytes_of reads)) (place ∙ omega arith)
        ∙ ap
            (flipped (m.from_t2_byte_count + 1 + suc (suc (length pre))) (m.from_t2_byte_count + 1))
            (block ∙ cut)
        ∙ flipped_at (m.from_t2_byte_count + 1) a (num ∷ complement num ∷ pre) (post ++ crc)
        ∙ ap (λ t. num ∷ complement num ∷ t) (sym (append_assoc pre (complement a ∷ post) crc))
