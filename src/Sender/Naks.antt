-- ===== src/Sender/Naks.antt =====
-- Blocks that are refused: how long the sender goes on.
use y_modem_protocol.Base.{
  ℕ, zero, suc, ◌+◌, ◌%◌, ◌<◌, ◌≤◌, ◌≡◌, refl, sym, ap, ◌∙◌, false, List, [], ◌∷◌, ◌++◌,
  append_assoc, append-nil, ◌^◌, Option, length, arith,
}
use y_modem_protocol.Peer.Defs.{
  Action, Message, ser, nak, err_b, excessive_naks, count_error, set_timeout, tm_vl,
}
use y_modem_protocol.Sender.Defs.{Sender, Answers, on_peer, blk_buf, previous, resend_blk}
use y_modem_protocol.Sender.Chart.{State, acknak, acknakstat, give_up, vl}
use y_modem_protocol.Sender.Machine.{posted, post_event}
use y_modem_protocol.Sender.Runs.{at, stopped, post_all}
use y_modem_protocol.Sender.Resend.{sends, logged, resend_blk_lem, on_peer-blk_buf}

-- One NAK for each answer of the system.
abbrev pub naks : List Answers → List (Answers × Message)
naks [] = []
naks (a ∷ rest) = (a, ser nak) ∷ naks rest

-- The sender after it has sent its block again.
abbrev pub resent : Answers → Sender → Sender
resent a s = vl a (on_peer count_error (resend_blk s))

abbrev pub resent_all : List Answers → Sender → Sender
resent_all [] s = s
resent_all (a ∷ rest) s = resent_all rest (resent a s)

-- The block that was sent last.
abbrev pub current : Sender → List ℕ
current s = blk_buf (previous s.blk_num % 2) s

abbrev pub repeat : ℕ → List Action → List Action
repeat zero acts = []
repeat (suc n) acts = acts ++ repeat n acts

resent_lem :
    (a : Answers) (s : Sender)
    → resent a s ≡ vl a (on_peer count_error (logged (sends (current s)) s))
resent_lem a s = ap (λ t. vl a (on_peer count_error t)) (resend_blk_lem s)

resent-current : (a : Answers) (s : Sender) → current (resent a s) ≡ current s
unfolding count_error set_timeout
resent-current a s =
    ap current (resent_lem a s)
    ∙ on_peer-blk_buf (previous s.blk_num % 2)
        (λ p.
          set_timeout a.elapsed tm_vl (count_error (record p { log = p.log ++ sends (current s) })))
        s

resent-log : (a : Answers) (s : Sender) → (resent a s).log ≡ s.log ++ sends (current s)
unfolding count_error set_timeout
resent-log a s = ap (λ t. t.log) (resent_lem a s)

resent-err_cnt : (a : Answers) (s : Sender) → (resent a s).err_cnt ≡ (s.err_cnt + 1) % 2 ^ 32
unfolding count_error set_timeout
resent-err_cnt a s = ap (λ t. t.err_cnt) (resent_lem a s)

resent-kb_can : (a : Answers) (s : Sender) → (resent a s).kb_can ≡ s.kb_can
unfolding count_error set_timeout
resent-kb_can a s = ap (λ t. t.kb_can) (resent_lem a s)

resent_all-log :
    (l : List Answers) (s : Sender)
    → (resent_all l s).log ≡ s.log ++ repeat (length l) (sends (current s))
resent_all-log [] s = sym (append-nil s.log)
resent_all-log (a ∷ rest) s =
    resent_all-log rest (resent a s)
    ∙ ap (λ x. x ++ repeat (length rest) (sends (current (resent a s)))) (resent-log a s)
    ∙ ap (λ x. (s.log ++ sends (current s)) ++ repeat (length rest) (sends x)) (resent-current a s)
    ∙ append_assoc s.log (sends (current s)) (repeat (length rest) (sends (current s)))

stat_nak :
    (a : Answers) (h : Option State) (s : Sender)
    → s.kb_can ≡ false
    → post_event a (ser nak) (at acknakstat h s) ≡ posted (at acknakstat h (resent a s))
unfolding post_event
stat_nak a h s k = ground arith

data_nak :
    (a : Answers) (h : Option State) (s : Sender)
    → s.kb_can ≡ false
    → s.err_cnt < err_b
    → post_event a (ser nak) (at acknak h s) ≡ posted (at acknak h (resent a s))
unfolding post_event
data_nak a h s k e = ground arith

last_nak :
    (a : Answers) (h : Option State) (s : Sender)
    → err_b ≤ s.err_cnt
    → post_event a (ser nak) (at acknak h s) ≡ posted (stopped h (give_up excessive_naks s))
unfolding post_event
last_nak a h s e = ground arith

repeat_naks :
    (l : List Answers) (h : Option State) (s : Sender)
    → s.kb_can ≡ false
    → post_all (naks l) (at acknakstat h s) ≡ posted (at acknakstat h (resent_all l s))
repeat_naks [] h s k = refl
repeat_naks (a ∷ rest) h s k =
    rw (stat_nak a h s k) (repeat_naks rest h (resent a s) (resent-kb_can a s ∙ k))

data_naks :
    (l : List Answers) (h : Option State) (s : Sender)
    → s.kb_can ≡ false
    → s.err_cnt + length l ≤ err_b
    → (post_all (naks l) (at acknak h s) ≡ posted (at acknak h (resent_all l s)))
      × ((resent_all l s).err_cnt ≡ s.err_cnt + length l)
data_naks [] h s k e = (refl, ground arith)
data_naks (a ∷ rest) h s k e =
    let c : (resent a s).err_cnt ≡ s.err_cnt + 1 = resent-err_cnt a s ∙ omega arith in
    let small : s.err_cnt < err_b = omega arith in
    let (p, q) = data_naks rest h (resent a s) (resent-kb_can a s ∙ k) (omega arith) in
    (rw (data_nak a h s k small) p, omega arith)

-- Without a keyboard cancel, a stat block that is refused is sent again without end: after any
-- number of NAKs the sender still waits in ACKNAKSTAT, and has sent the same block once more for
-- each of them. `errB` is not a limit there.
pub stat_never_gives_up :
    (l : List Answers) (h : Option State) (s : Sender)
    → s.kb_can ≡ false
    → (post_all (naks l) (at acknakstat h s) ≡ posted (at acknakstat h (resent_all l s)))
      × ((resent_all l s).log ≡ s.log ++ repeat (length l) (sends (current s)))
stat_never_gives_up l h s k = (repeat_naks l h s k, resent_all-log l s)

-- Without a keyboard cancel and with no error so far, a data block that is refused is sent again
-- `errB` times, the same block each time; the next NAK ends the transfer: CANs are sent, the file is
-- closed and the result is ExcessiveNAKs.
pub data_gives_up :
    (l : List Answers) (a : Answers) (h : Option State) (s : Sender)
    → s.kb_can ≡ false
    → s.err_cnt ≡ 0
    → length l ≡ err_b
    → (post_all (naks l) (at acknak h s) ≡ posted (at acknak h (resent_all l s)))
      × ((resent_all l s).log ≡ s.log ++ repeat err_b (sends (current s)))
      × (post_event a (ser nak) (at acknak h (resent_all l s))
          ≡ posted (stopped h (give_up excessive_naks (resent_all l s))))
data_gives_up l a h s k e n =
    let (p, q) = data_naks l h s k (omega arith) in
    (
      p,
      resent_all-log l s ∙ ap (λ m. s.log ++ repeat m (sends (current s))) n,
      last_nak a h (resent_all l s) (omega arith),
    )
