-- ===== src/Receiver/Ends.antt =====
-- How a transfer ends at the receiver: the end of a file, the end of the session, and the limit of
-- errors.
use y_modem_protocol.Base.{
  ℕ, ◌≤◌, ◌≡◌, inl, subst, refl, sym, ap, ◌∙◌, Bool, true, false, List, [], ◌∷◌, ◌++◌, append_assoc,
  Option, some, length, replicate, arith,
}
use y_modem_protocol.Base.Int.{pos}
use y_modem_protocol.Crc.Defs.{chunk_sz}
use y_modem_protocol.Block.Defs.{buf_sz, complement}
use y_modem_protocol.Peer.Defs.{
  fd, minus_one, is_open, is_minus_one, wrote, purged, closed, cont, ser, tm, soh, eot, ack, nak,
  can, can_len, err_b, done, excessive_errors, loss_of_sync_at_stat_blk, act, send_byte, add_result,
  count_error, clear_errors, set_timeout,
}
use y_modem_protocol.Receiver.Defs.{
  Receiver, Answers, on_peer, purge, cans, close_transferred_file, get_rest_blk,
}
use y_modem_protocol.Receiver.Chart.{
  State, first_byte_stat, first_byte_data, eot_data, are_we_done, cond_eot, cond_stat,
  another_error, soh_timeout, add, send,
}
use y_modem_protocol.Receiver.Machine.{posted, fired, fire_in, deliver, post_event}
use y_modem_protocol.Receiver.Runs.{at, stopped, post_all}
use y_modem_protocol.Receiver.Accept.{read_in}
use y_modem_protocol.Receiver.Blocks.{get_rest_blk-lost}
use y_modem_protocol.Receiver.Session.{Waiting}

-- The receiver with its file closed.
abbrev pub file_closed : Receiver → Receiver
file_closed r = record (on_peer (λ p. act closed (record p { transferring_file = minus_one })) r) {
  close_prob = pos 0;
  num_last_good_blk = 255;
}

close_lem :
    (ok : Bool) (r : Receiver)
    → ok ≡ true
    → is_open r.transferring_file ≡ true
    → close_transferred_file ok r ≡ file_closed r
unfolding close_transferred_file
close_lem ok r e o = rw (e, o) refl

-- The answer to the first EOT, and to the second.
abbrev eot_refused : Answers → Receiver → Receiver
eot_refused a r = soh_timeout a (another_error (send nak (purge r)))

abbrev eot_taken : Answers → Receiver → Receiver
eot_taken b r =
    soh_timeout b (on_peer clear_errors (add done (send r.ncg_byte (send ack (file_closed r)))))

first_eot :
    (a : Answers) (h : Option State) (r : Receiver)
    → r.kb_can ≡ false
    → post_event a (ser eot) (at first_byte_data h r) ≡ posted (at eot_data h (eot_refused a r))
unfolding post_event
first_eot a h r k = rw k refl

eot_closes :
    (b : Answers) (h : Option State) (r : Receiver)
    → fire_in (some eot_data) b (ser eot) (at eot_data h r)
      ≡ fired (at cond_eot h (close_transferred_file b.close_ok r)) true
unfolding fire_in
eot_closes b h r = refl

eot_ends :
    (b : Answers) (h : Option State) (r : Receiver)
    → fire_in (some cond_eot) b cont (at cond_eot h (file_closed r))
      ≡ fired (at first_byte_stat h (eot_taken b r)) false
unfolding fire_in
eot_ends b h r = refl

second_eot :
    (b : Answers) (h : Option State) (r : Receiver)
    → is_open r.transferring_file ≡ true
    → b.close_ok ≡ true
    → post_event b (ser eot) (at eot_data h r) ≡ posted (at first_byte_stat h (eot_taken b r))
unfolding post_event deliver
second_eot b h r o ok =
    ap (deliver 3 b) (eot_closes b h r)
    ∙ ap (λ x. deliver 2 b (fire_in (some cond_eot) b cont (at cond_eot h x)))
        (close_lem b.close_ok r ok o)
    ∙ ap (deliver 2 b) (eot_ends b h r)

-- The end of an open file that can be closed, without a keyboard cancel: the first EOT is refused
-- with NAK, the second is taken, the file is closed, the result says so, and the receiver waits for
-- the next stat block, ready for block 0.
pub two_eots :
    (a b : Answers) (f : ℕ) (h : Option State) (r : Receiver)
    → r.kb_can ≡ false
    → r.sync_loss ≡ false
    → r.transferring_file ≡ fd f
    → length r.rcv_blk ≡ buf_sz
    → b.close_ok ≡ true
    → (t : Receiver) × (post_all ((a, ser eot) ∷ (b, ser eot) ∷ []) (at first_byte_data h r)
        ≡ posted (at first_byte_stat h t))
      × (t.log
          ≡ r.log
            ++ (purged
                ∷ wrote (nak ∷ [])
                ∷ closed
                ∷ wrote (ack ∷ [])
                ∷ wrote (r.ncg_byte ∷ [])
                ∷ []))
      × (t.result ≡ r.result ++ done ∷ [])
      × (t.transferring_file ≡ minus_one)
      × Waiting t
unfolding purge act send_byte add_result count_error clear_errors set_timeout
two_eots a b f h r k s file array ok = (
  eot_taken b (eot_refused a r),
  rw (first_eot a h r k, second_eot b h (eot_refused a r) (ap is_open file) ok) refl,
  simp append_assoc,
  refl,
  refl,
  record { w_array = array; w_cancel = k; w_sync = s; w_num = refl; w_errors = omega arith },
)

limit_met :
    (a : Answers) (h : Option State) (r : Receiver)
    → r.kb_can ≡ false
    → err_b ≤ r.err_cnt
    → post_event a tm (at first_byte_data h r) ≡ posted (stopped h (add excessive_errors (cans r)))
unfolding post_event
limit_met a h r k e = ground arith

read_end :
    (a : Answers) (h : Option State) (r : Receiver)
    → r.kb_can ≡ false
    → post_event a (ser soh) (at are_we_done h r)
      ≡ deliver 3 a (fired (at cond_stat h (another_error (get_rest_blk a.got r))) true)
unfolding post_event
read_end a h r k = rw k refl

lost_stat :
    (a : Answers) (h : Option State) (x : Receiver)
    → x.sync_loss ≡ true
    → fire_in (some cond_stat) a cont (at cond_stat h x)
      ≡ fired (stopped h (add loss_of_sync_at_stat_blk (cans x))) false
unfolding fire_in
lost_stat a h x s = rw s refl

-- The limit of errors ends a transfer without closing its file: when nothing comes in FirstByteData,
-- `errB` errors having been met, CANs are sent and the receiver stops, and the file stays open.
pub timeout_leaves_open :
    (a : Answers) (f : ℕ) (h : Option State) (r : Receiver)
    → r.kb_can ≡ false
    → err_b ≤ r.err_cnt
    → r.transferring_file ≡ fd f
    → let t = add excessive_errors (cans r) in
      (post_event a tm (at first_byte_data h r) ≡ posted (stopped h t))
      × (t.transferring_file ≡ fd f)
      × (t.log ≡ r.log ++ wrote (replicate can_len can) ∷ [])
unfolding cans act add_result
timeout_leaves_open a f h r k e file = (limit_met a h r k e, file, refl)

-- A stat block of number 0 once more, in AreWeDone and without a keyboard cancel: its number is the
-- last one, but no file is open, so that it counts as a loss of synchronization, and the session
-- that was complete ends with that error.
pub repeated_end_fails :
    (a : Answers) (hi lo : ℕ) (chunk : List ℕ) (h : Option State) (r : Receiver)
    → r.kb_can ≡ false
    → length r.rcv_blk ≡ buf_sz
    → length chunk ≡ chunk_sz
    → r.num_last_good_blk ≡ 0
    → r.transferring_file ≡ minus_one
    → a.got ≡ 0 ∷ complement 0 ∷ (chunk ++ (hi ∷ lo ∷ []))
    → (t : Receiver) × (post_event a (ser soh) (at are_we_done h r) ≡ posted (stopped h t))
      × (t.result ≡ r.result ++ loss_of_sync_at_stat_blk ∷ [])
unfolding add_result cans act count_error purge fire_in deliver
repeated_end_fails a hi lo chunk h r k array len n file got = (
  add loss_of_sync_at_stat_blk (cans (another_error (get_rest_blk a.got r))),
  read_end a h r k
      ∙ ap (deliver 2 a)
          (lost_stat a h (another_error (get_rest_blk a.got r)) (ap (λ x. x.sync_loss) lost)),
  ap (λ x. x.result ++ loss_of_sync_at_stat_blk ∷ []) lost,
)
  where
    lost :
        get_rest_blk a.got r
        ≡ purge
            (record (read_in a.got r) { good_blk = false; good_blk1st = false; sync_loss = true })
    lost =
        subst
          (λ g.
            get_rest_blk g r
            ≡ purge
                (record (read_in g r) { good_blk = false; good_blk1st = false; sync_loss = true }))
          (sym got)
          (get_rest_blk-lost 0 hi lo chunk r len array (omega (arith, n))
            (inl (ap is_minus_one file)))
