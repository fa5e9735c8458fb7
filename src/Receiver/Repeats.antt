-- ===== src/Receiver/Repeats.antt =====
-- Blocks that bring nothing new: one sent again, or a damaged one.
use y_modem_protocol.Base.{
  ℕ, ◌+◌, ◌%◌, ◌^◌, ◌<◌, ◌≡◌, inl, inr, refl, sym, ap, ◌∙◌, subst, false, ◌==◌, List, [], ◌∷◌, ◌++◌,
  append_assoc, append-nil, length, length-write_at, arith, Bool-cases,
}
use y_modem_protocol.Crc.Defs.{chunk_sz}
use y_modem_protocol.Block.Defs.{buf_sz}
use y_modem_protocol.Peer.Defs.{
  Action, wrote, purged, err_b, ack, nak, is_minus_one, act, send_byte, count_error, set_timeout,
}
use y_modem_protocol.Receiver.Defs.{Receiver, Answers, on_peer, purge, refuse, get_rest_blk}
use y_modem_protocol.Receiver.Chart.{soh_timeout, answer_block}
use y_modem_protocol.Receiver.Runs.{stored_bytes, stored_bytes-append}
use y_modem_protocol.Receiver.Accept.{rest_of}
use y_modem_protocol.Receiver.Blocks.{get_rest_blk-again}
use y_modem_protocol.Receiver.Damage.{Refused}
use y_modem_protocol.Receiver.Transfer.{Receiving, Step, received}

-- `g` is `r` after bytes that bring nothing new.
pub record Kept (r g : Receiver) : Type 0 where
  pub k_first : g.good_blk1st ≡ false
  pub k_array : length g.rcv_blk ≡ length r.rcv_blk
  pub k_file : g.transferring_file ≡ r.transferring_file
  pub k_cancel : g.kb_can ≡ r.kb_can
  pub k_sync : g.sync_loss ≡ r.sync_loss
  pub k_num : g.num_last_good_blk ≡ r.num_last_good_blk
  pub k_errors : g.err_cnt ≡ r.err_cnt
  pub k_left : g.bytes_remaining ≡ r.bytes_remaining
  pub k_stored : stored_bytes g.log ≡ stored_bytes r.log

stored_bytes-other :
    (acts more : List Action)
    → stored_bytes more ≡ []
    → stored_bytes (acts ++ more) ≡ stored_bytes acts
stored_bytes-other acts more e =
    stored_bytes-append acts more
    ∙ ap (λ t. stored_bytes acts ++ t) e
    ∙ append-nil (stored_bytes acts)

pub Refused-Kept : (got : List ℕ) (r : Receiver) → Refused got r → Kept r (get_rest_blk got r)
unfolding refuse purge act
Refused-Kept got r (inl e) = subst (Kept r) (sym e) (record {
  k_first = refl;
  k_array = length-write_at 1 got r.rcv_blk;
  k_file = refl;
  k_cancel = refl;
  k_sync = refl;
  k_num = refl;
  k_errors = refl;
  k_left = refl;
  k_stored = refl;
})
Refused-Kept got r (inr e) = subst (Kept r) (sym e) (record {
  k_first = refl;
  k_array = length-write_at 1 got r.rcv_blk;
  k_file = refl;
  k_cancel = refl;
  k_sync = refl;
  k_num = refl;
  k_errors = refl;
  k_left = refl;
  k_stored = stored_bytes-other r.log (purged ∷ []) refl;
})

pub again-Kept :
    (chunk : List ℕ) (r : Receiver)
    → length chunk ≡ chunk_sz
    → length r.rcv_blk ≡ buf_sz
    → r.num_last_good_blk < 256
    → is_minus_one r.transferring_file ≡ false
    → Kept r (get_rest_blk (rest_of r.num_last_good_blk chunk) r)
again-Kept chunk r len k small file =
    subst (Kept r) (sym (get_rest_blk-again chunk r len k small file)) (record {
      k_first = refl;
      k_array = length-write_at 1 (rest_of r.num_last_good_blk chunk) r.rcv_blk;
      k_file = refl;
      k_cancel = refl;
      k_sync = refl;
      k_num = refl;
      k_errors = refl;
      k_left = refl;
      k_stored = refl;
    })

-- The answer to a block that is not new only writes.
answer_only :
    (x : Receiver)
    → x.good_blk1st ≡ false
    → (acts : List Action) × (stored_bytes acts ≡ [])
      × (answer_block x ≡ on_peer (λ p. record p { log = p.log ++ acts }) x)
unfolding answer_block send_byte act
answer_only x first = elim (Bool-cases x.good_blk) [
  | inr bad ↦ (wrote (nak ∷ []) ∷ [], refl, rw (bad, first) refl)
  | inl good ↦ elim (Bool-cases (x.another_file == 0)) [
    | inl plain ↦ (wrote (ack ∷ []) ∷ [], refl, rw (good, first, plain) refl)
    | inr stat ↦ (
      wrote (ack ∷ []) ∷ wrote (b'C' ∷ []) ∷ [],
      refl,
      rw (good, first, stat, append_assoc x.log (wrote (ack ∷ []) ∷ []) (wrote (b'C' ∷ []) ∷ []))
          refl,
    )
  ]
]

received-Kept :
    (a : Answers) (r : Receiver)
    → Kept r (get_rest_blk a.got r)
    → received a r ≡ on_peer (λ p. set_timeout a.elapsed 0 (count_error p)) (get_rest_blk a.got r)
received-Kept a r g = rw g.k_first refl

pub Kept-Step :
    (a b : Answers) (last errs : ℕ) (file : List ℕ) (r : Receiver)
    → Receiving last errs file r
    → errs + 1 < err_b
    → Kept r (get_rest_blk a.got r)
    → Step a b last (errs + 1) file [] r
unfolding count_error set_timeout
Kept-Step a b last errs file r w few g =
    let (acts, silent, only) =
      answer_only (received a r) (ap (λ x. x.good_blk1st) read ∙ g.k_first) in
    let after =
      ap (soh_timeout b) (only ∙ ap (on_peer (λ p. record p { log = p.log ++ acts })) read) in
    (
      ap (λ x. x.sync_loss) read ∙ g.k_sync ∙ w.in_sync,
      subst (λ n. n < err_b) (sym counted) few,
      subst (Receiving last (errs + 1) file) (sym after) (record {
        array = g.k_array ∙ w.array;
        file_open = ap is_minus_one g.k_file ∙ w.file_open;
        no_cancel = g.k_cancel ∙ w.no_cancel;
        in_sync = g.k_sync ∙ w.in_sync;
        num_last = g.k_num ∙ w.num_last;
        errors = counting;
        few_errors = few;
        left = λ more. g.k_left ∙ w.left more;
      }),
      ap (λ x. stored_bytes x.log) after
          ∙ stored_bytes-other (get_rest_blk a.got r).log acts silent
          ∙ g.k_stored
          ∙ sym (append-nil (stored_bytes r.log)),
    )
  where
    read :
        received a r ≡ on_peer (λ p. set_timeout a.elapsed 0 (count_error p)) (get_rest_blk a.got r)
    read = received-Kept a r g

    counting : ((get_rest_blk a.got r).err_cnt + 1) % 2 ^ 32 ≡ errs + 1
    counting = omega (arith, g.k_errors, w.errors)

    counted : (received a r).err_cnt ≡ errs + 1
    counted = ap (λ x. x.err_cnt) read ∙ counting
