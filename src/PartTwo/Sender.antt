-- ===== src/PartTwo/Sender.antt =====
-- SenderY.h and SenderY.cpp of Ensc351Part2. `genBlk` and `genStatBlk` are the ones of Block/Defs.
use y_modem_protocol.Base.{
  ℕ, ◌+◌, ◌-◌, ◌^◌, ◌%◌, Bool, ◌&&◌, ltb, leb, ◌==◌, if◌then◌else◌, List, [], ◌∷◌, ◌++◌, Option,
  none, some, length, get_or, take, replicate,
}
use y_modem_protocol.Crc.Defs.{ByteOrder}
use y_modem_protocol.Block.Defs.{blk_sz_crc, gen_blk, gen_stat_blk}
use y_modem_protocol.Peer.Defs.{
  Descriptor, fd, minus_one, minus_two, is_minus_one, Outcome, done, open_error, Action, wrote,
  drained, dumped, closed, eot, nak, can, err_b,
}
use y_modem_protocol.Sender.Defs.{name_at}
use y_modem_protocol.PartTwo.Receiver.{can_len}

-- `blk_buf` is prepared; `sent_buf` is `blkBufs[1]`, the block that is on its way.
pub record SenderY : Type 0 where
  pub order : ByteOrder
  pub result : List Outcome
  pub err_cnt : ℕ
  pub transferring_file : Descriptor
  pub bytes_rd : ℕ
  pub file_names : List (List ℕ)
  pub file_name_index : ℕ
  pub blk_num : ℕ
  pub blk_buf : List ℕ
  pub sent_buf : List ℕ
  pub log : List Action

-- What the system answers: the result of `open` (`none` is -1), the size from `stat`, and the bytes of
-- the reads from a file, one after another.
pub record Answers : Type 0 where
  pub opened : Option ℕ
  pub size : ℕ

infixl 1 ◌>>=◌
abbrev pub ◌>>=◌ : {A B : Type 0} → Option A → (A → Option B) → Option B
none >>= f = none
some a >>= f = f a

unfoldable pub act : Action → SenderY → SenderY
act a s = record s { log = s.log ++ a ∷ [] }

unfoldable pub send_byte : ℕ → SenderY → SenderY
unfolding act
send_byte b s = act (wrote (b ∷ [])) s

-- `sendMostBlk(blk)`, then `sendLastByte` of its last byte.
unfoldable pub send_most_blk : List ℕ → SenderY → SenderY
unfolding act
send_most_blk blk s = act (wrote (take (blk_sz_crc - 1) blk)) s

unfoldable pub last_byte : List ℕ → ℕ
last_byte blk = get_or blk (blk_sz_crc - 1) 0

unfoldable pub send_last_byte : ℕ → SenderY → SenderY
unfolding act
send_last_byte b s = act (wrote (b ∷ [])) (act dumped (act drained s))

-- `genBlk(blkBuf)`, for the bytes that the read gives. A read of a descriptor that is not open fails,
-- and the process ends.
unfoldable pub gen_next : List ℕ → SenderY → Option SenderY
gen_next got s = elim s.transferring_file [
  | fd n ↦
      some (record s { blk_buf = gen_blk s.order got s.blk_num s.blk_buf; bytes_rd = length got })
  | _ ↦ none
]

unfoldable pub cans : SenderY → SenderY
unfolding act
cans s = act (wrote (replicate can_len can)) s

abbrev pub open_file_to_transfer : Answers → SenderY → SenderY
open_file_to_transfer a s = record s {
  transferring_file = elim a.opened [ some n ↦ fd n | none ↦ minus_one ];
}

abbrev pub with_block : Option (List ℕ) → SenderY → Option SenderY
with_block none s = none
with_block (some blk) s = some (record s { blk_buf = blk })

-- `none` is the `exit(-1)` of `genStatBlk`.
unfoldable pub prep_stat_blk : Answers → SenderY → Option SenderY
prep_stat_blk a s =
    let counted = record s { blk_num = 0; file_name_index = (s.file_name_index + 1) % 2 ^ 32 } in
    elim (name_at s.file_name_index s.file_names) [
      | some name ↦
          (let tried = open_file_to_transfer a counted in
            if is_minus_one tried.transferring_file
            then some tried
            else with_block (gen_stat_blk s.order name a.size s.blk_buf) tried)
      | none ↦
          with_block (gen_stat_blk s.order [] a.size s.blk_buf)
            (record counted { transferring_file = minus_two })
    ]

-- The block is copied and sent while the next one is prepared.
unfoldable pub send_blk_prep_next : List ℕ → SenderY → Option SenderY
unfolding send_most_blk last_byte send_last_byte
send_blk_prep_next got s =
    let counted = record s { blk_num = (s.blk_num + 1) % 256; sent_buf = s.blk_buf } in
    let most = send_most_blk counted.sent_buf counted in
    gen_next got most >>= λ prepared. some (send_last_byte (last_byte s.blk_buf) prepared)

unfoldable pub resend_blk : SenderY → SenderY
unfolding send_most_blk last_byte send_last_byte
resend_blk s = send_last_byte (last_byte s.sent_buf) (send_most_blk s.sent_buf s)

unfoldable pub close_transferred_file : SenderY → SenderY
unfolding act
close_transferred_file s =
    if is_minus_one s.transferring_file
    then s
    else act closed (record s { transferring_file = minus_one })

-- The inner loop of `sendFiles`, once a reply is read: `replies` are the bytes of the medium from that
-- reply on. `errCnt` is set to 0 before it, and no round of it changes `errCnt`.
unfoldable pub resend_loop : List ℕ → SenderY → Option (List ℕ × SenderY)
resend_loop [] s = none
resend_loop (reply ∷ replies) s =
    let again = resend_loop replies (resend_blk s) in
    if reply == nak && ltb s.err_cnt err_b then again else some (replies, s)

-- The sender with the bytes that come from the medium and those that the reads of the file give.
pub record Run : Type 0 where
  pub sender : SenderY
  pub replies : List ℕ
  pub reads : List (List ℕ)

-- `PE_NOT(myRead(mediumD, &byteToReceive, 1), 1)`
abbrev pub skip_reply : Run → Option Run
skip_reply r = elim r.replies [ [] ↦ none | b ∷ more ↦ some (record r { replies = more }) ]

abbrev pub send_next : Run → Option Run
send_next r = elim r.reads [
  | [] ↦ none
  | got ∷ more ↦
      send_blk_prep_next got r.sender >>= λ s. some (record r { sender = s; reads = more })
]

-- The `while (ctx.bytesRd)` loop, on the reads of the file that are left.
unfoldable pub data_loop : List (List ℕ) → List ℕ → SenderY → Option Run
unfolding send_blk_prep_next resend_loop
data_loop [] replies s =
    if s.bytes_rd == 0 then some (record { sender = s; replies = replies; reads = [] }) else none
data_loop (got ∷ reads) replies s =
    let more = λ (x : List ℕ × SenderY). data_loop reads x.0 x.1 in
    if s.bytes_rd == 0
    then some (record { sender = s; replies = replies; reads = got ∷ reads })
    else (send_blk_prep_next got s >>= λ t. resend_loop replies (record t { err_cnt = 0 }) >>= more)

abbrev pub with_sender : (SenderY → SenderY) → Run → Run
with_sender f r = record r { sender = f r.sender }

-- One round of the outer loop of `sendFiles`, for the file that `prepStatBlk` has opened; `a` is for the
-- `prepStatBlk` at its end.
unfoldable pub send_file : Answers → Run → Option Run
send_file a r = skip_reply r >>= λ asked.
    send_next (
      if is_minus_one asked.sender.transferring_file
      then with_sender (λ s. let told = cans s in record told { result = open_error ∷ [] }) asked
      else asked)
    >>= λ sent. skip_reply sent >>= λ acked. skip_reply acked >>= λ ready.
        data_loop ready.reads ready.replies ready.sender >>= λ all.
        skip_reply (with_sender (λ s. close_transferred_file (send_byte eot s)) all) >>= λ nakked.
        skip_reply (with_sender (send_byte eot) nakked) >>= λ finished.
        let named = record finished.sender { result = finished.sender.result ++ done ∷ [] } in
        prep_stat_blk a named >>= λ s. some (record finished { sender = s })

-- `while (fileNames.size() >= fileNameIndex)`
abbrev pub has_file : SenderY → Bool
has_file s = leb s.file_name_index (length s.file_names)

unfoldable pub files_loop : List Answers → Run → Option Run
unfolding send_file
files_loop [] r = if has_file r.sender then none else some r
files_loop (a ∷ answers) r =
    let more = files_loop answers in if has_file r.sender then (send_file a r >>= more) else some r

-- `sendFiles`: the first of the answers is for the first `prepStatBlk`.
unfoldable pub send_files : Answers → List Answers → Run → Option Run
unfolding files_loop prep_stat_blk send_most_blk last_byte send_last_byte
send_files a answers r = prep_stat_blk a r.sender >>= λ s.
    files_loop answers (record r { sender = s }) >>= λ last.
    skip_reply
      (with_sender (λ t. send_last_byte (last_byte t.blk_buf) (send_most_blk t.blk_buf t)) last)
