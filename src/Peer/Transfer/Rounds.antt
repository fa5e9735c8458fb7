-- ===== src/Peer/Transfer/Rounds.antt =====
-- Rounds of the loop of `transferCommon`: a quiet line, and a cancel at the end of a transfer.
use y_modem_protocol.Base.{
  ℕ, ◌≡◌, refl, true, false, List, [], ◌∷◌, Option, some, ◌∙◌, ap, arith, ◌+◌, ◌-◌, ◌*◌, ◌≤◌, ◌<◌,
  ◌/◌, ◌%◌,
}
use y_modem_protocol.Base.Int.{pos, ◌-ℤ◌}
use y_modem_protocol.Peer.Defs.{tm, ser, kb_c}
use y_modem_protocol.Peer.Transfer.{
  StateMgr, Round, nothing, ready, Ended, ended, exit_failure, thrown, then_do, of_post,
  after_cancel, on_ready, on_selected, round, transfer_loop, time_left, million, to_tenths,
}

module _ {A M : Type 0} (chart : StateMgr A M) where
  open chart use {is_running, peer_of, on_peer, post, post_stopped}

  time_left-early : (due now : ℕ) → now < due → time_left (pos due) now ≡ due - now
  unfolding time_left
  time_left-early due now h = ground arith

  time_left-due : (due now : ℕ) → due ≤ now → time_left (pos due) now ≡ 0
  unfolding time_left
  time_left-due due now h = ground arith

  early_round :
      (t : Round A) (m : M) (due : ℕ)
      → (peer_of m).absolute_timeout ≡ pos due
      → t.now < due
      → t.select ((due - t.now) / million) ((due - t.now) % million) ≡ nothing
      → round chart t m ≡ ended m
  unfolding round
  early_round t m due e h sel = rw (e, time_left-early due t.now h, sel) (ground arith)

  due_round :
      (t : Round A) (m : M) (due : ℕ)
      → (peer_of m).absolute_timeout ≡ pos due
      → due ≤ t.now
      → t.select 0 0 ≡ nothing
      → round chart t m ≡ of_post (post (t.answers tm) tm m)
  unfolding round
  due_round t m due e h sel = rw (e, time_left-due due t.now h, sel) (ground arith)

  then_do-ended : (e : Ended M) → then_do e (λ n. ended n) ≡ e
  then_do-ended (ended n) = refl
  then_do-ended exit_failure = refl
  then_do-ended thrown = refl

  one_round :
      (t : Round A) (m : M) → is_running m ≡ true → transfer_loop chart (t ∷ []) m ≡ round chart t m
  unfolding transfer_loop
  one_round t m on = rw on (then_do-ended (round chart t m))

  -- A round in which nothing comes ahead of the timeout.
  pub loop_early :
      (t : Round A) (ts : List (Round A)) (m : M) (due : ℕ)
      → is_running m ≡ true
      → (peer_of m).absolute_timeout ≡ pos due
      → t.now < due
      → t.select ((due - t.now) / million) ((due - t.now) % million) ≡ nothing
      → transfer_loop chart (t ∷ ts) m ≡ transfer_loop chart ts m
  unfolding transfer_loop
  loop_early t ts m due on e early sel =
      rw on (ap (λ r. then_do r (transfer_loop chart ts)) (early_round t m due e early sel))

  -- A round that is due and in which nothing comes.
  pub loop_due :
      (t : Round A) (ts : List (Round A)) (m : M) (due : ℕ)
      → is_running m ≡ true
      → (peer_of m).absolute_timeout ≡ pos due
      → due ≤ t.now
      → t.select 0 0 ≡ nothing
      → transfer_loop chart (t ∷ ts) m
        ≡ then_do (of_post (post (t.answers tm) tm m)) (transfer_loop chart ts)
  unfolding transfer_loop
  loop_due t ts m due on e late sel =
      rw on (ap (λ r. then_do r (transfer_loop chart ts)) (due_round t m due e late sel))

  pub loop_stopped :
      (ts : List (Round A)) (m : M) → is_running m ≡ false → transfer_loop chart ts m ≡ ended m
  unfolding transfer_loop
  loop_stopped [] m off = refl
  loop_stopped (t ∷ ts) m off = rw off refl

  -- On a quiet line, when `select` waits for as long as it is told to, two rounds post the timeout
  -- once and nothing else: the first waits until the absolute timeout, the second posts TM.
  pub quiet_line_times_out :
      (t u : Round A) (m : M) (due : ℕ)
      → is_running m ≡ true
      → (peer_of m).absolute_timeout ≡ pos due
      → t.now < due
      → t.select ((due - t.now) / million) ((due - t.now) % million) ≡ nothing
      → t.now + ((due - t.now) / million * million + (due - t.now) % million) ≤ u.now
      → u.select 0 0 ≡ nothing
      → transfer_loop chart (t ∷ u ∷ []) m ≡ of_post (post (u.answers tm) tm m)
  unfolding transfer_loop
  quiet_line_times_out t u m due on e early first waited second =
      rw (on, early_round t m due e early first)
        (one_round u m on ∙ due_round u m due e (omega arith) second)

  of_post-some : (o : Option M) (n : M) → o ≡ some n → of_post o ≡ ended n
  of_post-some o n e = ap of_post e

  both_ready :
      (t : Round A) (m n : M) (c : ℕ) (more : List ℕ)
      → ((tenths : ℕ) → t.readcond tenths ≡ some c)
      → t.keys ≡ b'&' ∷ b'c' ∷ more
      → post (t.answers (ser c)) (ser c) m ≡ some n
      → on_ready chart t true true m
        ≡ then_do (of_post (post (t.answers kb_c) kb_c n)) (λ k. ended (on_peer after_cancel k))
  unfolding on_ready
  both_ready t m n c more got keys e =
      rw (got (to_tenths ((peer_of m).absolute_timeout -ℤ pos t.now)), keys, e) refl

  -- KB_C may be posted to a chart that SER has just stopped: when a round finds both the medium and
  -- `&c` at the console, and the character brings the chart to its final state, the round ends with
  -- the exception of `postEvent`.
  pub cancel_after_end_throws :
      (t : Round A) (m n : M) (c : ℕ) (more : List ℕ)
      → is_running m ≡ true
      → ((sec usec : ℕ) → t.select sec usec ≡ ready true true)
      → ((tenths : ℕ) → t.readcond tenths ≡ some c)
      → t.keys ≡ b'&' ∷ b'c' ∷ more
      → post (t.answers (ser c)) (ser c) m ≡ some n
      → is_running n ≡ false
      → transfer_loop chart (t ∷ []) m ≡ thrown
  unfolding round
  cancel_after_end_throws t m n c more on sel got keys e off =
      let left = time_left (peer_of m).absolute_timeout t.now in
      one_round t m on
      ∙ ap (λ s. on_selected chart t s m) (sel (left / million) (left % million))
      ∙ both_ready t m n c more got keys e
      ∙ ap (λ o. then_do (of_post o) (λ k. ended (on_peer after_cancel k)))
          (post_stopped (t.answers kb_c) kb_c n off)
