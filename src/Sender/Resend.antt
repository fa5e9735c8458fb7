-- ===== src/Sender/Resend.antt =====
-- The two block buffers, and the blocks that are sent from them once more.
use y_modem_protocol.Base.{
  ℕ, zero, suc, ◌+◌, ◌-◌, ◌%◌, ◌<◌, ◌≡◌, ◌≢◌, refl, ap, ◌∙◌, Bool, true, false, if◌then◌else◌, List,
  [], ◌∷◌, ◌++◌, append_assoc, take, arith, is_some,
}
use y_modem_protocol.Block.Defs.{blk_sz_crc}
use y_modem_protocol.Peer.Defs.{Peer, Action, wrote, drained, dumped}
use y_modem_protocol.Sender.Defs.{
  Sender, Answers, on_peer, blk_buf, set_blk_buf, last_byte, send_most_blk, send_last_byte,
  gen_blk_in, send_blk_prep_next, resend_blk, previous,
}

-- What sending a block does: most of it, a wait until the line is drained, the glitches dumped, and
-- the last byte.
abbrev pub sends : List ℕ → List Action
sends blk = wrote (take (blk_sz_crc - 1) blk) ∷ drained ∷ dumped ∷ wrote (last_byte blk ∷ []) ∷ []

-- `s` with actions at the end of its log.
abbrev pub logged : List Action → Sender → Sender
logged acts s = on_peer (λ p. record p { log = p.log ++ acts }) s

pub resend_blk_lem :
    (s : Sender) → resend_blk s ≡ logged (sends (blk_buf (previous s.blk_num % 2) s)) s
unfolding resend_blk
resend_blk_lem s = simp append_assoc

blk_buf-set_other :
    (i j : ℕ) (blk : List ℕ) (s : Sender)
    → i < 2
    → j < 2
    → i ≢ j
    → blk_buf i (set_blk_buf j blk s) ≡ blk_buf i s
blk_buf-set_other zero zero blk s p q d = absurd (d refl)
blk_buf-set_other zero (suc j) blk s p q d = refl
blk_buf-set_other (suc i) zero blk s p q d = refl
blk_buf-set_other (suc i) (suc j) blk s p q d = absurd (d (omega arith))

-- Preparing the next block leaves all but one buffer and the byte count alone.
gen_blk_in-other :
    (a : Answers) (i j : ℕ) (s : Sender)
    → i < 2
    → j < 2
    → i ≢ j
    → blk_buf i (gen_blk_in a j s) ≡ blk_buf i s
unfolding gen_blk_in
gen_blk_in-other a zero zero s p q d = absurd (d refl)
gen_blk_in-other a zero (suc j) s p q d = refl
gen_blk_in-other a (suc i) zero s p q d = refl
gen_blk_in-other a (suc i) (suc j) s p q d = absurd (d (omega arith))

-- The optional preparation of the next block.
abbrev pub prep : Bool → Answers → ℕ → Sender → Sender
prep b a j s = if b then gen_blk_in a j s else s

pub prep-peer : (b : Bool) (a : Answers) (j : ℕ) (s : Sender) → (prep b a j s).peer ≡ s.peer
unfolding gen_blk_in
prep-peer true a zero s = refl
prep-peer true a (suc j) s = refl
prep-peer false a j s = refl

prep-blk_num : (b : Bool) (a : Answers) (j : ℕ) (s : Sender) → (prep b a j s).blk_num ≡ s.blk_num
unfolding gen_blk_in
prep-blk_num true a zero s = refl
prep-blk_num true a (suc j) s = refl
prep-blk_num false a j s = refl

prep-other :
    (b : Bool) (a : Answers) (i j : ℕ) (s : Sender)
    → i < 2
    → j < 2
    → i ≢ j
    → blk_buf i (prep b a j s) ≡ blk_buf i s
prep-other true a i j s p q d = gen_blk_in-other a i j s p q d
prep-other false a i j s p q d = refl

pub on_peer-blk_buf : (i : ℕ) (f : Peer → Peer) (s : Sender) → blk_buf i (on_peer f s) ≡ blk_buf i s
on_peer-blk_buf zero f s = refl
on_peer-blk_buf (suc i) f s = refl

numbered-blk_buf :
    (i n : ℕ) (f : Peer → Peer) (s : Sender)
    → blk_buf i (record (on_peer f s) { blk_num = n }) ≡ blk_buf i s
numbered-blk_buf zero n f s = refl
numbered-blk_buf (suc i) n f s = refl

send_last_byte-log :
    (byte : ℕ) (p : Peer)
    → (send_last_byte byte p).log ≡ p.log ++ (drained ∷ dumped ∷ wrote (byte ∷ []) ∷ [])
unfolding send_last_byte
send_last_byte-log byte p = simp append_assoc

-- What `sendBlkPrepNext` does to the log, the block number and the buffer of the block sent.
pub send_blk_prep_next_log :
    (a : Answers) (s : Sender)
    → (send_blk_prep_next a s).log ≡ s.log ++ sends (blk_buf (s.blk_num % 2) s)
unfolding send_blk_prep_next
send_blk_prep_next_log a s =
    let n = (s.blk_num + 1) % 256 in
    let blk = blk_buf (s.blk_num % 2) s in
    let counted = record (on_peer (send_most_blk blk) s) { blk_num = n } in
    ap (λ p. (send_last_byte (last_byte blk) p).log)
      (prep-peer (is_some s.file_name) a (n % 2) counted)
    ∙ send_last_byte-log (last_byte blk) (send_most_blk blk s.peer)
    ∙ append_assoc s.log (wrote (take (blk_sz_crc - 1) blk) ∷ []) _

pub send_blk_prep_next-blk_num :
    (a : Answers) (s : Sender) → (send_blk_prep_next a s).blk_num ≡ (s.blk_num + 1) % 256
unfolding send_blk_prep_next
send_blk_prep_next-blk_num a s =
    let n = (s.blk_num + 1) % 256 in
    let blk = blk_buf (s.blk_num % 2) s in
    let counted = record (on_peer (send_most_blk blk) s) { blk_num = n } in
    prep-blk_num (is_some s.file_name) a (n % 2) counted

pub send_blk_prep_next-blk_buf :
    (a : Answers) (s : Sender)
    → s.blk_num < 256
    → blk_buf (s.blk_num % 2) (send_blk_prep_next a s) ≡ blk_buf (s.blk_num % 2) s
unfolding send_blk_prep_next
send_blk_prep_next-blk_buf a s h =
    let n = (s.blk_num + 1) % 256 in
    let blk = blk_buf (s.blk_num % 2) s in
    let counted = record (on_peer (send_most_blk blk) s) { blk_num = n } in
    on_peer-blk_buf (s.blk_num % 2) (send_last_byte (last_byte blk))
      (prep (is_some s.file_name) a (n % 2) counted)
    ∙ prep-other (is_some s.file_name) a (s.blk_num % 2) (n % 2) counted (omega arith) (omega arith)
        (omega arith)
    ∙ numbered-blk_buf (s.blk_num % 2) n (send_most_blk blk) s

last_sent :
    (a : Answers) (s : Sender)
    → s.blk_num < 256
    → let t = send_blk_prep_next a s in
      blk_buf (previous t.blk_num % 2) t ≡ blk_buf (s.blk_num % 2) s
last_sent a s h =
    ap (λ i. blk_buf i (send_blk_prep_next a s)) (omega (arith, send_blk_prep_next-blk_num a s))
    ∙ send_blk_prep_next-blk_buf a s h

-- With a block number below 256, the block that was sent stays in its buffer, through the
-- wrap-around of the block number too, and sending it again does to the medium what sending it did;
-- and so once more.
pub resend_blk-send_blk_prep_next :
    (a : Answers) (s : Sender)
    → s.blk_num < 256
    → let blk = blk_buf (s.blk_num % 2) s in
      let t = send_blk_prep_next a s in
      (t.log ≡ s.log ++ sends blk)
      × (resend_blk t ≡ logged (sends blk) t)
      × (resend_blk (resend_blk t) ≡ logged (sends blk) (resend_blk t))
resend_blk-send_blk_prep_next a s h = (
  send_blk_prep_next_log a s,
  once,
  resend_blk_lem (resend_blk t)
      ∙ ap (λ blk. logged (sends blk) (resend_blk t))
          (ap (λ u. blk_buf (previous u.blk_num % 2) u) once
            ∙ on_peer-blk_buf (previous t.blk_num % 2)
                (λ p. record p { log = p.log ++ sends (blk_buf (s.blk_num % 2) s) }) t
            ∙ last_sent a s h),
)
  where
    t : Sender
    t = send_blk_prep_next a s

    once : resend_blk t ≡ logged (sends (blk_buf (s.blk_num % 2) s)) t
    once = resend_blk_lem t ∙ ap (λ blk. logged (sends blk) t) (last_sent a s h)
