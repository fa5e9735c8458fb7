-- ===== src/Receiver/Once.antt =====
-- A whole file, with blocks that are sent again or damaged on the way.
use y_modem_protocol.Base.{
  ℕ, ◌+◌, ◌%◌, ◌<◌, ◌≡◌, refl, sym, ap, ◌∙◌, subst, false, List, [], ◌∷◌, ◌++◌, append_assoc,
  append-nil, take-append-drop, Option, length, drop, arith,
}
use y_modem_protocol.Crc.Defs.{chunk_sz}
use y_modem_protocol.Block.Layout.{padded}
use y_modem_protocol.Peer.Defs.{Message, ser, tm, soh, err_b}
use y_modem_protocol.Receiver.Defs.{Receiver, Answers, get_rest_blk}
use y_modem_protocol.Receiver.Chart.{State, first_byte_data}
use y_modem_protocol.Receiver.Machine.{posted}
use y_modem_protocol.Receiver.Runs.{at, post_all, stored_bytes}
use y_modem_protocol.Receiver.Accept.{rest_of}
use y_modem_protocol.Receiver.Damage.{Damaged, Damaged-Refused}
use y_modem_protocol.Receiver.Write.{piece}
use y_modem_protocol.Receiver.Transfer.{
  Receiving, Step, received, after_block, block_read, block_answered, fresh-Step,
}
use y_modem_protocol.Receiver.Repeats.{Kept, Kept-Step, Refused-Kept, again-Kept}

-- What comes over the line while the bytes `file` are still to come, `last` is the last block's
-- number, and `errs` blocks have come since it that brought nothing new: the next block of the
-- file, the last block again, or a damaged one, fewer than `errB` of those in a row. Each is SOH,
-- with the rest of it in the answers, and the timeout that lets the receiver answer.
pub data Line : ℕ → ℕ → List ℕ → List (Answers × Message) → Type 0 where
  quiet : (last errs : ℕ) → Line last errs [] []
  fresh :
      (a b : Answers) (last errs : ℕ) (file : List ℕ) (more : List (Answers × Message))
      → 0 < length file
      → a.got ≡ rest_of ((last + 1) % 256) (padded (piece file))
      → Line ((last + 1) % 256) 0 (drop chunk_sz file) more
      → Line last errs file ((a, ser soh) ∷ (b, tm) ∷ more)
  again :
      (a b : Answers) (last errs : ℕ) (file chunk : List ℕ) (more : List (Answers × Message))
      → length chunk ≡ chunk_sz
      → a.got ≡ rest_of last chunk
      → errs + 1 < err_b
      → Line last (errs + 1) file more
      → Line last errs file ((a, ser soh) ∷ (b, tm) ∷ more)
  damaged :
      (a b : Answers) (last errs : ℕ) (file : List ℕ) (more : List (Answers × Message))
      → Damaged last a.got
      → errs + 1 < err_b
      → Line last (errs + 1) file more
      → Line last errs file ((a, ser soh) ∷ (b, tm) ∷ more)

-- The receiver at the end: it waits for more, and has stored the bytes.
abbrev pub Stores : List (Answers × Message) → Option State → List ℕ → Receiver → Type 0
Stores events h bytes r =
    (t : Receiver) × (post_all events (at first_byte_data h r) ≡ posted (at first_byte_data h t))
    × (stored_bytes t.log ≡ stored_bytes r.log ++ bytes)

Step-Stores :
    (a b : Answers) (last errs : ℕ) (file bytes rest : List ℕ) (more : List (Answers × Message))
    (h : Option State) (r : Receiver)
    → r.kb_can ≡ false
    → Step a b last errs file bytes r
    → Stores more h rest (after_block a b r)
    → Stores ((a, ser soh) ∷ (b, tm) ∷ more) h (bytes ++ rest) r
Step-Stores a b last errs file bytes rest more h r k (sync, few, w, stores) (t, run, e) = (
  t,
  rw (block_read a h r k, block_answered b h (received a r) sync few) run,
  e ∙ ap (λ x. x ++ rest) stores ∙ append_assoc (stored_bytes r.log) bytes rest,
)

-- From FirstByteData on, with a file open and its length known, and with what `Line` says on the line,
-- the bytes of the file are stored
-- exactly once and in order, and nothing else: blocks that are sent again are not stored again,
-- damaged ones are not stored, the fill of the last block is cut off. The block number may wrap.
pub post_all-Stores :
    (last errs : ℕ) (file : List ℕ) (events : List (Answers × Message)) (h : Option State)
    (r : Receiver)
    → last < 256
    → Line last errs file events
    → Receiving last errs file r
    → Stores events h file r
post_all-Stores last errs _ _ h r small (quiet _ _) w =
    (r, refl, sym (append-nil (stored_bytes r.log)))
post_all-Stores last errs file _ h r small (fresh a b _ _ _ more ne e line) w =
    let s = fresh-Step a b last errs file r w ne e in
    subst (λ x. Stores ((a, ser soh) ∷ (b, tm) ∷ more) h x r) (take-append-drop chunk_sz file)
      (Step-Stores a b ((last + 1) % 256) 0 (drop chunk_sz file) (piece file) (drop chunk_sz file)
        more h r w.no_cancel s
        (post_all-Stores ((last + 1) % 256) 0 (drop chunk_sz file) more h (after_block a b r)
          (omega arith) line s.2))
post_all-Stores last errs file _ h r small (again a b _ _ _ chunk more len e few line) w =
    let s = Kept-Step a b last errs file r w few (
      subst (λ g. Kept r (get_rest_blk g r)) (sym (e ∙ ap (λ n. rest_of n chunk) (sym w.num_last)))
        (again-Kept chunk r len w.array (omega (arith, w.num_last)) w.file_open)) in
    Step-Stores a b last (errs + 1) file [] file more h r w.no_cancel s
      (post_all-Stores last (errs + 1) file more h (after_block a b r) small line s.2)
post_all-Stores last errs file _ h r small (damaged a b _ _ _ more d few line) w =
    let s = Kept-Step a b last errs file r w few (
      Refused-Kept a.got r (
        Damaged-Refused a.got r w.array w.file_open
          (subst (λ n. Damaged n a.got) (sym w.num_last) d))) in
    Step-Stores a b last (errs + 1) file [] file more h r w.no_cancel s
      (post_all-Stores last (errs + 1) file more h (after_block a b r) small line s.2)
