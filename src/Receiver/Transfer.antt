-- ===== src/Receiver/Transfer.antt =====
-- The next block of a file, from SOH to the answer.
use y_modem_protocol.Base.{
  ℕ, ◌+◌, ◌-◌, ◌%◌, ◌<◌, ◌≡◌, refl, sym, ap, ◌∙◌, subst, true, false, if◌then◌else◌, List, [], ◌∷◌,
  ◌++◌, append_assoc, append-nil, Option, length, drop, length-take, length-drop, length-write_at,
  arith,
}
use y_modem_protocol.Base.Int.{pos, ◌-ℤ◌}
use y_modem_protocol.Crc.Defs.{chunk_sz}
use y_modem_protocol.Block.Defs.{buf_sz}
use y_modem_protocol.Block.Layout.{padded, length-padded}
use y_modem_protocol.Peer.Defs.{
  Message, ser, tm, soh, err_b, wrote, stored, is_minus_one, act, ack, send_byte, clear_errors,
  set_timeout,
}
use y_modem_protocol.Receiver.Defs.{Receiver, Answers, on_peer, get_rest_blk}
use y_modem_protocol.Receiver.Chart.{
  State, first_byte_data, cond_data, another_error, soh_timeout, answer_block,
}
use y_modem_protocol.Receiver.Machine.{posted, post_event}
use y_modem_protocol.Receiver.Runs.{at, stored_bytes, stored_bytes-append}
use y_modem_protocol.Receiver.Accept.{rest_of, read_in}
use y_modem_protocol.Receiver.Blocks.{get_rest_blk-next}
use y_modem_protocol.Receiver.Write.{write_chunk_lem, piece, stored_piece}

-- What the receiver is while it takes in a file: `last` is the number of the last block, `errs` the
-- errors since then, and `file` what is still to come.
pub record Receiving (last errs : ℕ) (file : List ℕ) (r : Receiver) : Type 0 where
  pub array : length r.rcv_blk ≡ buf_sz
  pub file_open : is_minus_one r.transferring_file ≡ false
  pub no_cancel : r.kb_can ≡ false
  pub in_sync : r.sync_loss ≡ false
  pub num_last : r.num_last_good_blk ≡ last
  pub errors : r.err_cnt ≡ errs
  pub few_errors : errs < err_b
  pub left : 0 < length file → r.bytes_remaining ≡ pos (length file)

-- The receiver in CondTransientData, after `getRestBlk`.
abbrev pub judged_block : Receiver → Receiver
judged_block g =
    if g.good_blk1st then record (on_peer clear_errors g) { another_file = 0 } else another_error g

abbrev pub received : Answers → Receiver → Receiver
received a r = on_peer (set_timeout a.elapsed 0) (judged_block (get_rest_blk a.got r))

pub block_read :
    (a : Answers) (h : Option State) (r : Receiver)
    → r.kb_can ≡ false
    → post_event a (ser soh) (at first_byte_data h r) ≡ posted (at cond_data h (received a r))
unfolding post_event
block_read a h r k = rw k refl

pub block_answered :
    (b : Answers) (h : Option State) (x : Receiver)
    → x.sync_loss ≡ false
    → x.err_cnt < err_b
    → post_event b tm (at cond_data h x)
      ≡ posted (at first_byte_data h (soh_timeout b (answer_block x)))
unfolding post_event
block_answered b h x k e = ground arith

-- One block: SOH, then the timeout that sends the answer.
abbrev pub block_events : Answers → Answers → List (Answers × Message)
block_events a b = (a, ser soh) ∷ (b, tm) ∷ []

abbrev pub after_block : Answers → Answers → Receiver → Receiver
after_block a b r = soh_timeout b (answer_block (received a r))

-- The receiver with the next block read in, and with it stored.
abbrev read_next : Answers → ℕ → List ℕ → Receiver → Receiver
read_next a num chunk r =
    on_peer (λ p. set_timeout a.elapsed 0 (clear_errors p))
      (record (read_in (rest_of num chunk) r) {
        good_blk = true;
        good_blk1st = true;
        num_last_good_blk = num;
        another_file = 0;
      })

abbrev store_next : Answers → ℕ → List ℕ → Receiver → Receiver
store_next a num file r =
    on_peer (λ p. act (stored (piece file)) (send_byte ack p))
      (record (read_next a num (padded (piece file)) r) {
        bytes_remaining = pos (length file) -ℤ pos chunk_sz;
      })

length-piece : (file : List ℕ) → length (padded (piece file)) ≡ chunk_sz
length-piece file = length-padded (piece file) (omega (arith, length-take chunk_sz file))

received_next :
    (a : Answers) (last errs : ℕ) (file : List ℕ) (r : Receiver)
    → Receiving last errs file r
    → a.got ≡ rest_of ((last + 1) % 256) (padded (piece file))
    → received a r ≡ read_next a ((last + 1) % 256) (padded (piece file)) r
received_next a last errs file r w e =
    ap (λ g. on_peer (set_timeout a.elapsed 0) (judged_block (get_rest_blk g r))) e
    ∙ ap (λ g. on_peer (set_timeout a.elapsed 0) (judged_block g))
        (get_rest_blk-next ((last + 1) % 256) (padded (piece file)) r (length-piece file) w.array
          (omega (arith, w.num_last)))

stored_next :
    (a : Answers) (num errs last : ℕ) (file : List ℕ) (r : Receiver)
    → Receiving last errs file r
    → 0 < length file
    → answer_block (read_next a num (padded (piece file)) r) ≡ store_next a num file r
unfolding answer_block set_timeout clear_errors send_byte act
stored_next a num errs last file r w h =
    write_chunk_lem (length file) _ h (w.left h)
    ∙ ap
        (λ t.
          on_peer (λ p. act (stored t) (send_byte ack p))
            (record (read_next a num (padded (piece file)) r) {
              bytes_remaining = pos (length file) -ℤ pos chunk_sz;
            }))
        (stored_piece num file r.rcv_blk w.array)

sub_ℤ-pos : (n m : ℕ) → m ≡ n - chunk_sz → 0 < m → pos n -ℤ pos chunk_sz ≡ pos m
unfolding ◌-ℤ◌
sub_ℤ-pos n m e h = ground arith

-- What a block does to the receiver: it can answer, takes in what is still to come, and has stored
-- the bytes.
abbrev pub Step : Answers → Answers → ℕ → ℕ → List ℕ → List ℕ → Receiver → Type 0
Step a b last errs file bytes r =
    ((received a r).sync_loss ≡ false)
    × ((received a r).err_cnt < err_b)
    × Receiving last errs file (after_block a b r)
    × (stored_bytes (after_block a b r).log ≡ stored_bytes r.log ++ bytes)

pub fresh-Step :
    (a b : Answers) (last errs : ℕ) (file : List ℕ) (r : Receiver)
    → Receiving last errs file r
    → 0 < length file
    → a.got ≡ rest_of ((last + 1) % 256) (padded (piece file))
    → Step a b ((last + 1) % 256) 0 (drop chunk_sz file) (piece file) r
unfolding set_timeout clear_errors send_byte act
fresh-Step a b last errs file r w h e = (
  ap (λ x. x.sync_loss) read ∙ w.in_sync,
  subst (λ n. n < err_b) (sym (ap (λ x. x.err_cnt) read)) (omega arith),
  subst (Receiving ((last + 1) % 256) 0 (drop chunk_sz file)) (sym after) (record {
    array =
        length-write_at 1 (rest_of ((last + 1) % 256) (padded (piece file))) r.rcv_blk ∙ w.array;
    file_open = w.file_open;
    no_cancel = w.no_cancel;
    in_sync = w.in_sync;
    num_last = refl;
    errors = refl;
    few_errors = omega arith;
    left = λ more.
        sub_ℤ-pos (length file) (length (drop chunk_sz file)) (length-drop chunk_sz file) more;
  }),
  ap (λ x. stored_bytes x.log) after
      ∙ ap stored_bytes (append_assoc r.log (wrote (ack ∷ []) ∷ []) (stored (piece file) ∷ []))
      ∙ stored_bytes-append r.log (wrote (ack ∷ []) ∷ stored (piece file) ∷ [])
      ∙ ap (λ t. stored_bytes r.log ++ t) (append-nil (piece file)),
)
  where
    read : received a r ≡ read_next a ((last + 1) % 256) (padded (piece file)) r
    read = received_next a last errs file r w e

    after : after_block a b r ≡ soh_timeout b (store_next a ((last + 1) % 256) file r)
    after =
        ap (λ x. soh_timeout b (answer_block x)) read
        ∙ ap (soh_timeout b) (stored_next a ((last + 1) % 256) errs last file r w h)
