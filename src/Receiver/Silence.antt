-- ===== src/Receiver/Silence.antt =====
-- The receiver on a line on which nothing comes.
use y_modem_protocol.Base.{
  ℕ, zero, suc, ◌+◌, ◌-◌, ◌*◌, ◌/◌, ◌%◌, ◌≤◌, ◌<◌, ◌≡◌, refl, ap, ◌∙◌, false, List, [], ◌∷◌, ◌++◌,
  append_assoc, Option, length, replicate, if◌then◌else◌, lt→ltb, arith,
}
use y_modem_protocol.Base.Int.{pos, ◌+ℤ◌}
use y_modem_protocol.Peer.Defs.{
  wrote, tm, nak, can, can_len, err_b, tm_soh, usecs_per_unit, excessive_errors, is_minus_one, act,
  send_byte, add_result, count_error, set_timeout,
}
use y_modem_protocol.Peer.Transfer.{million, Round, nothing, ended, then_do, of_post, transfer_loop}
use y_modem_protocol.Peer.Transfer.Rounds.{loop_early, loop_due, loop_stopped}
use y_modem_protocol.Receiver.Defs.{Receiver, Answers, cans}
use y_modem_protocol.Receiver.Chart.{
  State, first_byte_stat, first_byte_data, eot_data, are_we_done, can_state, cond_data, cond_check,
  cond_open, cond_eot, cond_stat, add, send, another_error, soh_timeout,
}
use y_modem_protocol.Receiver.Machine.{posted, post_event}
use y_modem_protocol.Receiver.Runs.{at, stopped}
use y_modem_protocol.Receiver.Loop.{receiver_chart, delivered}

-- The next round begins when the timeout is due.
abbrev pub Waited : ℕ → List (Round Answers) → Type 0
Waited due [] = Unit {0}
Waited due (u ∷ _) = due ≤ u.now

-- Rounds of a line on which nothing comes, when the timeout is at `due`. A round that begins before it
-- has `select` wait for what is left, and the next one begins when that is over. A round that begins
-- behind it finds nothing, and the timeout is then set anew from the time at which it is handled.
pub data Silent : ℕ → List (Round Answers) → Type 0 where
  over : {due : ℕ} → Silent due []
  early :
      {due : ℕ} {t : Round Answers} {ts : List (Round Answers)}
      → t.now < due
      → t.select ((due - t.now) / million) ((due - t.now) % million) ≡ nothing
      → Waited due ts
      → Silent due ts
      → Silent due (t ∷ ts)
  late :
      {due : ℕ} {t : Round Answers} {ts : List (Round Answers)}
      → due ≤ t.now
      → t.select 0 0 ≡ nothing
      → Silent ((t.answers tm).elapsed + tm_soh * usecs_per_unit) ts
      → Silent due (t ∷ ts)

-- The states with the handler of TM that sends NAK, or asks for the stat block again.
abbrev pub Asks : State → Type 0
Asks first_byte_stat = Unit {0}
Asks first_byte_data = Unit {0}
Asks eot_data = Unit {0}
Asks _ = ⊥

-- What is sent at a timeout.
abbrev pub asked : Receiver → ℕ
asked r = if is_minus_one r.transferring_file then r.ncg_byte else nak

abbrev asked_again : Answers → Receiver → Receiver
asked_again a r = soh_timeout a (another_error (send (asked r) r))

tm-Asks :
    (a : Answers) (st : State) (h : Option State) (r : Receiver)
    → Asks st
    → r.kb_can ≡ false
    → r.err_cnt < err_b
    → post_event a tm (at st h r) ≡ posted (at st h (asked_again a r))
unfolding post_event
tm-Asks a first_byte_stat h r w k e = rw (k, lt→ltb r.err_cnt err_b e) refl
tm-Asks a first_byte_data h r w k e = rw (k, lt→ltb r.err_cnt err_b e) refl
tm-Asks a eot_data h r w k e = rw (k, lt→ltb r.err_cnt err_b e) refl
tm-Asks a are_we_done h r w k e = absurd w
tm-Asks a can_state h r w k e = absurd w
tm-Asks a cond_data h r w k e = absurd w
tm-Asks a cond_check h r w k e = absurd w
tm-Asks a cond_open h r w k e = absurd w
tm-Asks a cond_eot h r w k e = absurd w
tm-Asks a cond_stat h r w k e = absurd w

tm_stops :
    (a : Answers) (st : State) (h : Option State) (r : Receiver)
    → Asks st
    → r.kb_can ≡ false
    → r.err_cnt ≡ err_b
    → post_event a tm (at st h r) ≡ posted (stopped h (add excessive_errors (cans r)))
unfolding post_event
tm_stops a first_byte_stat h r w k e = rw (k, e) refl
tm_stops a first_byte_data h r w k e = rw (k, e) refl
tm_stops a eot_data h r w k e = rw (k, e) refl
tm_stops a are_we_done h r w k e = absurd w
tm_stops a can_state h r w k e = absurd w
tm_stops a cond_data h r w k e = absurd w
tm_stops a cond_check h r w k e = absurd w
tm_stops a cond_open h r w k e = absurd w
tm_stops a cond_eot h r w k e = absurd w
tm_stops a cond_stat h r w k e = absurd w

timeout_set : (a b : ℕ) → pos a +ℤ pos b ≡ pos (a + b)
unfolding ◌+ℤ◌
timeout_set a b = ground arith

-- The log and the result at the end of a line on which nothing came for `n + 1` timeouts.
abbrev GaveUp : ℕ → Receiver → Receiver → Type 0
GaveUp n r t =
    (t.log ≡ r.log ++ (replicate n (wrote (asked r ∷ [])) ++ wrote (replicate can_len can) ∷ []))
    × (t.result ≡ r.result ++ excessive_errors ∷ [])

next_due :
    (t : Round Answers) (ts : List (Round Answers)) (due : ℕ) (st : State) (h : Option State)
    (r : Receiver)
    → Asks st
    → r.kb_can ≡ false
    → r.absolute_timeout ≡ pos due
    → r.err_cnt < err_b
    → due ≤ t.now
    → t.select 0 0 ≡ nothing
    → transfer_loop receiver_chart (t ∷ ts) (at st h r)
      ≡ transfer_loop receiver_chart ts (at st h (asked_again (t.answers tm) r))
next_due t ts due st h r w k d few late_ sel =
    loop_due receiver_chart t ts (at st h r) due refl d late_ sel
    ∙ ap (λ p. then_do (of_post (delivered p)) (transfer_loop receiver_chart ts))
        (tm-Asks (t.answers tm) st h r w k few)

last_due :
    (t : Round Answers) (ts : List (Round Answers)) (due : ℕ) (st : State) (h : Option State)
    (r : Receiver)
    → Asks st
    → r.kb_can ≡ false
    → r.absolute_timeout ≡ pos due
    → r.err_cnt ≡ err_b
    → due ≤ t.now
    → t.select 0 0 ≡ nothing
    → transfer_loop receiver_chart (t ∷ ts) (at st h r)
      ≡ ended (stopped h (add excessive_errors (cans r)))
last_due t ts due st h r w k d many late_ sel =
    loop_due receiver_chart t ts (at st h r) due refl d late_ sel
    ∙ ap (λ p. then_do (of_post (delivered p)) (transfer_loop receiver_chart ts))
        (tm_stops (t.answers tm) st h r w k many)
    ∙ loop_stopped receiver_chart ts _ refl

-- What a silent line does, in so many rounds.
abbrev GivesUp : ℕ → List (Round Answers) → State → Option State → Receiver → Type 0
GivesUp n ts st h r =
    (t : Receiver) × (transfer_loop receiver_chart ts (at st h r) ≡ ended (stopped h t))
    × GaveUp n r t

-- The next round that is due.
data Due (due : ℕ) (ts : List (Round Answers)) (st : State) (h : Option State) (r : Receiver)
    : Type 0 where
  due_round :
      (t : Round Answers) (rest : List (Round Answers))
      → due ≤ t.now
      → t.select 0 0 ≡ nothing
      → Silent ((t.answers tm).elapsed + tm_soh * usecs_per_unit) rest
      → length ts ≤ length rest + 2
      → transfer_loop receiver_chart ts (at st h r)
        ≡ transfer_loop receiver_chart (t ∷ rest) (at st h r)
      → Due due ts st h r

to_due :
    (due : ℕ) (ts : List (Round Answers)) (st : State) (h : Option State) (r : Receiver)
    → r.absolute_timeout ≡ pos due
    → 2 ≤ length ts
    → Silent due ts
    → Due due ts st h r
to_due due _ st h r d len over = absurd (omega arith)
to_due due (t ∷ ts) st h r d len (late l sel more) = due_round t ts l sel more (omega arith) refl
to_due due (t ∷ []) st h r d len (early e sel waited more) = absurd (omega arith)
to_due due (t ∷ u ∷ ts) st h r d len (early e sel waited (early f _ _ _)) = absurd (omega arith)
to_due due (t ∷ u ∷ ts) st h r d len (early e sel waited (late l sel' more)) =
    due_round u ts l sel' more (omega arith)
      (loop_early receiver_chart t (u ∷ ts) (at st h r) due refl d e sel)

-- A receiver that waits for a block and hears nothing gives up, without a keyboard cancel: it asks again
-- once for each timeout, by NAK or, when no file is open, by its NCG byte, until the errors are at
-- their limit, then sends the CANs and stops with excessive errors. When `select` finds nothing and
-- waits as it is told, so that the round behind one that waits begins when the timeout is due, two
-- rounds for each timeout are enough.
pub silent_line_ends :
    (n : ℕ) (ts : List (Round Answers)) (due : ℕ) (st : State) (h : Option State) (r : Receiver)
    → Asks st
    → r.kb_can ≡ false
    → r.absolute_timeout ≡ pos due
    → r.err_cnt + n ≡ err_b
    → 2 * (n + 1) ≤ length ts
    → Silent due ts
    → (t : Receiver) × (transfer_loop receiver_chart ts (at st h r) ≡ ended (stopped h t))
      × GaveUp n r t
unfolding cans act send_byte add_result count_error set_timeout
silent_line_ends zero ts due st h r w k d e l quiet =
    elim (to_due due ts st h r d (omega arith) quiet) [
      | due_round t rest late_ sel more len skip ↦ (
        add excessive_errors (cans r),
        skip ∙ last_due t rest due st h r w k d (omega arith) late_ sel,
        (refl, refl),
      )
    ]
silent_line_ends (suc n) ts due st h r w k d e l quiet =
    elim (to_due due ts st h r d (omega arith) quiet) [
      | due_round t rest late_ sel more len skip ↦
          let a = t.answers tm in
          let (last, run, gave_up) =
            silent_line_ends n rest (a.elapsed + tm_soh * usecs_per_unit) st h (asked_again a r) w k
              (timeout_set (a.elapsed) (tm_soh * usecs_per_unit)) (omega arith) (omega arith)
              more in
          (
            last,
            skip ∙ next_due t rest due st h r w k d (omega arith) late_ sel ∙ run,
            (gave_up.0 ∙ append_assoc r.log (wrote (asked r ∷ []) ∷ []) _, gave_up.1),
          )
    ]
