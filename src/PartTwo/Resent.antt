-- ===== src/PartTwo/Resent.antt =====
-- How the sender of Part 2 sends its blocks again, and what a file that cannot be opened does.
use y_modem_protocol.Base.{
  ℕ, zero, suc, ◌+◌, ◌-◌, ◌%◌, ◌<◌, ◌≡◌, ◌≢◌, refl, sym, ap, ◌∙◌, Bool, true, false, lt→ltb, ==_ne,
  if◌then◌else◌, List, [], ◌∷◌, ◌++◌, append_assoc, append-nil, Option, none, some, length, take,
  replicate,
}
use y_modem_protocol.Block.Defs.{blk_sz_crc, gen_blk}
use y_modem_protocol.Peer.Defs.{
  fd, minus_one, is_minus_one, open_error, Action, wrote, drained, dumped, nak, err_b,
}
use y_modem_protocol.PartTwo.Sender.{
  SenderY, Answers, act, send_most_blk, last_byte, send_last_byte, gen_next, send_blk_prep_next,
  resend_blk, resend_loop, ◌>>=◌, Run, send_next, send_file, with_sender, cans,
}

-- What a block is on the line.
abbrev pub sends : List ℕ → List Action
sends blk = wrote (take (blk_sz_crc - 1) blk) ∷ drained ∷ dumped ∷ wrote (last_byte blk ∷ []) ∷ []

unfoldable pub times : ℕ → List Action → List Action
times zero acts = []
times (suc n) acts = acts ++ times n acts

resent : ℕ → SenderY → SenderY
resent zero s = s
resent (suc n) s = resent n (resend_blk s)

resend_log : (s : SenderY) → (resend_blk s).log ≡ s.log ++ sends s.sent_buf
unfolding resend_blk act
resend_log s = simp append_assoc

resent-log : (n : ℕ) (s : SenderY) → (resent n s).log ≡ s.log ++ times n (sends s.sent_buf)
unfolding resent times resend_blk
resent-log zero s = sym (append-nil s.log)
resent-log (suc n) s =
    resent-log n (resend_blk s)
    ∙ ap (λ x. x ++ times n (sends s.sent_buf)) (resend_log s)
    ∙ append_assoc s.log (sends s.sent_buf) (times n (sends s.sent_buf))

resent-err_cnt : (n : ℕ) (s : SenderY) → (resent n s).err_cnt ≡ s.err_cnt
unfolding resent resend_blk
resent-err_cnt zero s = refl
resent-err_cnt (suc n) s = resent-err_cnt n (resend_blk s)

resend_loop-resent :
    (n reply : ℕ) (replies : List ℕ) (s : SenderY)
    → reply ≢ nak
    → s.err_cnt < err_b
    → resend_loop (replicate n nak ++ (reply ∷ replies)) s ≡ some (replies, resent n s)
unfolding resend_loop resent resend_blk
resend_loop-resent zero reply replies s other few = rw (==_ne reply nak other) refl
resend_loop-resent (suc n) reply replies s other few =
    rw (lt→ltb s.err_cnt err_b few) (resend_loop-resent n reply replies (resend_blk s) other few)

-- The bound on errors does not bound the resending: for any number of NAKs in a row the block is sent
-- again each time, since `errCnt`, below its bound at first, is never counted up, and the loop ends
-- with the first other reply.
pub resends_without_bound :
    (n reply : ℕ) (replies : List ℕ) (s : SenderY)
    → reply ≢ nak
    → s.err_cnt < err_b
    → (t : SenderY) × (resend_loop (replicate n nak ++ (reply ∷ replies)) s ≡ some (replies, t))
      × (t.log ≡ s.log ++ times n (sends s.sent_buf))
      × (t.err_cnt ≡ s.err_cnt)
resends_without_bound n reply replies s other few =
    (resent n s, resend_loop-resent n reply replies s other few, resent-log n s, resent-err_cnt n s)

gen_next_lem :
    (got : List ℕ) (s : SenderY) (f : ℕ)
    → s.transferring_file ≡ fd f
    → gen_next got s
      ≡ some (record s { blk_buf = gen_blk s.order got s.blk_num s.blk_buf; bytes_rd = length got })
unfolding gen_next
gen_next_lem got s f opened = rw opened refl

gen_next-none :
    (got : List ℕ) (s : SenderY) → s.transferring_file ≡ minus_one → gen_next got s ≡ none
unfolding gen_next
gen_next-none got s closed_ = rw closed_ refl

-- The sender after a block is sent and the next one is prepared.
abbrev sent_next : List ℕ → SenderY → SenderY
sent_next got s =
    let counted = record s { blk_num = (s.blk_num + 1) % 256; sent_buf = s.blk_buf } in
    let most = send_most_blk s.blk_buf counted in
    send_last_byte (last_byte s.blk_buf) (record most {
      blk_buf = gen_blk most.order got most.blk_num most.blk_buf;
      bytes_rd = length got;
    })

-- A block is sent again just as it was sent: after a block is sent and the next one is prepared, a NAK
-- makes the sender repeat what it had sent, whatever the next block is, and the prepared block stays.
pub resend-send_blk_prep_next :
    (got : List ℕ) (s : SenderY) (f : ℕ)
    → s.transferring_file ≡ fd f
    → (t : SenderY) × (send_blk_prep_next got s ≡ some t)
      × (t.log ≡ s.log ++ sends s.blk_buf)
      × ((resend_blk t).log ≡ s.log ++ (sends s.blk_buf ++ sends s.blk_buf))
      × ((resend_blk t).blk_buf ≡ t.blk_buf)
unfolding send_blk_prep_next send_last_byte resend_blk act
resend-send_blk_prep_next got s f opened = (
  sent_next got s,
  ap (λ o. o >>= λ p. some (send_last_byte (last_byte s.blk_buf) p)) (gen_next_lem got _ f opened),
  simp append_assoc,
  simp append_assoc,
  refl,
)

bind_none : {A B : Type 0} (o : Option A) (f : A → Option B) → o ≡ none → (o >>= f) ≡ none
bind_none o f e = ap (λ x. x >>= f) e

send_next-none :
    (s : SenderY) (replies : List ℕ) (reads : List (List ℕ))
    → s.transferring_file ≡ minus_one
    → send_next (record { sender = s; replies = replies; reads = reads }) ≡ none
unfolding send_blk_prep_next send_most_blk act
send_next-none s replies [] closed_ = refl
send_next-none s replies (got ∷ reads) closed_ =
    ap
      (λ o. (o >>= λ p. some (send_last_byte (last_byte s.blk_buf) p)) >>= λ t.
        some (record { sender = t; replies = replies; reads = reads }))
      (gen_next-none got _ closed_)

-- A file that cannot be opened does not end the session with its result: the CANs are sent, but
-- `sendFiles` goes on to the next read of the file, which fails and ends the process, whatever the
-- receiver replies.
pub open_error_ends :
    (a : Answers) (reply : ℕ) (replies : List ℕ) (reads : List (List ℕ)) (s : SenderY)
    → s.transferring_file ≡ minus_one
    → send_file a (record { sender = s; replies = reply ∷ replies; reads = reads }) ≡ none
unfolding send_file cans act
open_error_ends a reply replies reads s closed_ =
    bind_none (send_next _) _ (either (is_minus_one s.transferring_file))
  where
    asked : Run
    asked = record { sender = s; replies = replies; reads = reads }

    told : Run
    told = with_sender (λ t. let x = cans t in record x { result = open_error ∷ [] }) asked

    either : (b : Bool) → send_next (if b then told else asked) ≡ none
    either true = send_next-none told.sender replies reads closed_
    either false = send_next-none s replies reads closed_
