-- ===== src/Receiver/Session.antt =====
-- A file from its stat block to its last data block.
use y_modem_protocol.Base.{
  ℕ, zero, suc, ◌^◌, ◌<◌, ◌≡◌, ◌≢◌, refl, sym, ap, ap₂, ◌∙◌, subst, true, false, lt→ltb, List, [],
  ◌∷◌, ◌++◌, append_assoc, Option, some, length, get_or, drop, write_at, length-write_at, arith,
}
use y_modem_protocol.Base.Int.{pos}
use y_modem_protocol.Text.Defs.{stoi, decimal}
use y_modem_protocol.Text.Decimal.{IsText}
use y_modem_protocol.Block.Defs.{data_pos, buf_sz}
use y_modem_protocol.Block.Stat.{stat_chunk, Fits, length-stat_chunk}
use y_modem_protocol.Peer.Defs.{
  created, wrote, Message, ser, soh, ack, err_b, act, send_byte, set_timeout,
}
use y_modem_protocol.Receiver.Defs.{
  Receiver, Answers, byte_at, stat_name, stat_size, check_for_another_file,
}
use y_modem_protocol.Receiver.Chart.{State, first_byte_stat, first_byte_data, cond_stat}
use y_modem_protocol.Receiver.Machine.{posted, fired, deliver, post_event}
use y_modem_protocol.Receiver.Runs.{at}
use y_modem_protocol.Receiver.Accept.{rest_of}
use y_modem_protocol.Receiver.StatBlock.{Laid, stat_block-read, stat-Laid}
use y_modem_protocol.Receiver.Files.{StatRead, errors_kept, opened, stat_read, stat_answered}
use y_modem_protocol.Receiver.Transfer.{Receiving}
use y_modem_protocol.Receiver.Once.{Line, Stores, post_all-Stores}

-- The receiver between two files: it waits for a stat block.
pub record Waiting (r : Receiver) : Type 0 where
  pub w_array : length r.rcv_blk ≡ buf_sz
  pub w_cancel : r.kb_can ≡ false
  pub w_sync : r.sync_loss ≡ false
  pub w_num : r.num_last_good_blk ≡ 255
  pub w_errors : errors_kept r < err_b

get_or-drop : (n : ℕ) (xs : List ℕ) → get_or xs n 0 ≡ get_or (drop n xs) 0 0
get_or-drop zero xs = refl
get_or-drop (suc n) [] = refl
get_or-drop (suc n) (x ∷ xs) = get_or-drop n xs

first_of_name : (base rest : List ℕ) → 0 < length base → IsText base → 0 < get_or (base ++ rest) 0 0
first_of_name [] rest h text = absurd (omega arith)
first_of_name (b ∷ base) rest h text = text.0

name_starts :
    (base : List ℕ) (size : ℕ) (blk : List ℕ)
    → Laid base size blk
    → 0 < length base
    → IsText base
    → get_or blk data_pos 0 ≢ 0
name_starts base size blk (more, e) h text none_there =
    let first = first_of_name base (0 ∷ (decimal size ++ (0 ∷ more))) h text in
    let same : get_or blk data_pos 0 ≡ get_or (base ++ (0 ∷ (decimal size ++ (0 ∷ more)))) 0 0 =
      get_or-drop data_pos blk ∙ ap (λ t. get_or t 0 0) e in
    omega (arith, first, same, none_there)

-- The receiver that has just opened a file, of which `size` bytes are to come.
abbrev pub Opened : Answers → State → Option State → List ℕ → List ℕ → Receiver → Receiver → Type 0
Opened a st h base file r t =
    (post_event a (ser soh) (at st h r) ≡ posted (at first_byte_data h t))
    × (t.log ≡ r.log ++ (created base ∷ wrote (ack ∷ []) ∷ wrote (r.ncg_byte ∷ []) ∷ []))
    × Receiving 0 (errors_kept r) file t

opened_Opened :
    (a : Answers) (base file : List ℕ) (f : ℕ) (h : Option State) (r x : Receiver)
    → Waiting r
    → StatRead a.got r x
    → post_event a (ser soh) (at first_byte_stat h r) ≡ deliver 3 a (fired (at cond_stat h x) true)
    → a.creat ≡ some f
    → stat_name x.rcv_blk ≡ base
    → stoi (stat_size x.rcv_blk) ≡ some (pos (length file))
    → byte_at data_pos x ≢ 0
    → length x.rcv_blk ≡ buf_sz
    → Opened a first_byte_stat h base file r (opened a f (length file) x)
unfolding check_for_another_file act send_byte set_timeout
opened_Opened a base file f h r x w s run creat name size ne k = (
  run
      ∙ stat_answered a f (length file) h x s.x_sync
          (subst (λ n. n < err_b) (sym s.x_errors) w.w_errors) s.x_good ne creat size,
  ap₂ (λ l m. ((l ++ created m ∷ []) ++ wrote (ack ∷ []) ∷ []) ++ wrote (x.ncg_byte ∷ []) ∷ [])
        s.x_log name
      ∙ ap (λ n. ((r.log ++ created base ∷ []) ++ wrote (ack ∷ []) ∷ []) ++ wrote (n ∷ []) ∷ [])
          s.x_ncg
      ∙ simp append_assoc,
  record {
    array = k;
    file_open = refl;
    no_cancel = s.x_cancel;
    in_sync = s.x_sync;
    num_last = s.x_num;
    errors = s.x_errors;
    few_errors = w.w_errors;
    left = λ more. refl;
  },
)

-- For a receiver between two files that has no cancel and no loss of synchronization noted and fewer
-- than `errB` errors, and a file of less than 2^31 bytes whose name is not empty, has no NUL and
-- leaves room for the size, the stat block opens the file under that name, if `creat` succeeds. With
-- what `Line` says on the line then, the bytes of the file are stored in it once and in order, and
-- no byte more than the size. `Line` allows between the blocks of the file, which come in order, the
-- last block again and blocks whose length, complement or CRC is wrong, fewer than `errB` of those
-- in a row, and each block is followed by the timeout that lets the receiver answer.
pub receives_file :
    (a : Answers) (base file : List ℕ) (f : ℕ) (events : List (Answers × Message))
    (h : Option State) (r : Receiver)
    → 0 < length base
    → IsText base
    → Fits base (length file)
    → length file < 2 ^ 31
    → Waiting r
    → a.got ≡ rest_of 0 (stat_chunk base (length file))
    → a.creat ≡ some f
    → Line 0 (errors_kept r) file events
    → (t : Receiver) × (post_event a (ser soh) (at first_byte_stat h r)
        ≡ posted (at first_byte_data h t))
      × (t.log ≡ r.log ++ (created base ∷ wrote (ack ∷ []) ∷ wrote (r.ncg_byte ∷ []) ∷ []))
      × Stores events h file t
receives_file a base file f events h r ne text fits small w got creat line =
    let (x, s, run) =
      stat_read a (stat_chunk base (length file)) h r (length-stat_chunk base (length file) fits)
        w.w_array w.w_cancel w.w_sync w.w_num got in
    let blk : x.rcv_blk ≡ write_at 1 (rest_of 0 (stat_chunk base (length file))) r.rcv_blk =
      s.x_array ∙ ap (λ g. write_at 1 g r.rcv_blk) got in
    let (name, size) = stat_block-read base (length file) r.rcv_blk fits text w.w_array in
    let (posts, log, receiving) =
      opened_Opened a base file f h r x w s run creat (ap stat_name blk ∙ name)
        (ap (λ l. stoi (stat_size l)) blk ∙ size ∙ rw (lt→ltb (length file) (2 ^ 31) small) refl)
        (subst (λ l. get_or l data_pos 0 ≢ 0) (sym blk)
          (name_starts base (length file)
            (write_at 1 (rest_of 0 (stat_chunk base (length file))) r.rcv_blk)
            (stat-Laid base (length file) r.rcv_blk fits w.w_array) ne text))
        (ap length blk
          ∙ length-write_at 1 (rest_of 0 (stat_chunk base (length file))) r.rcv_blk
          ∙ w.w_array) in
    (
      opened a f (length file) x,
      posts,
      log,
      post_all-Stores 0 (errors_kept r) file events h (opened a f (length file) x) (omega arith)
          line receiving,
    )
