-- ===== src/PartOne/Files.antt =====
-- What the first stage of the sender writes for its files.
use y_modem_protocol.Base.{
  ℕ, ◌+◌, ◌%◌, ◌^◌, ◌≤◌, ◌≡◌, refl, sym, ap, ◌∙◌, Bool, true, false, List, [], ◌∷◌, ◌++◌,
  append_assoc, append-nil, length-append, some, length, replicate, arith,
}
use y_modem_protocol.Crc.Defs.{ByteOrder, chunk_sz}
use y_modem_protocol.Text.Defs.{filename, decimal}
use y_modem_protocol.Block.Defs.{blk_sz_crc}
use y_modem_protocol.Peer.Defs.{Outcome, done, open_error, Action, wrote, closed, soh, eot, can}
use y_modem_protocol.PartOne.Defs.{
  SenderY, File, can_len, send_blk, send_stat, stat_blk, finish_file, and_then, first_read,
  send_file, send_files, act, send_byte, cans,
}
use y_modem_protocol.PartOne.DataLoop.{AreChunks, blocks, Leaves, data_sent}
use y_modem_protocol.PartOne.Layout.{block, length-line_crc, line_crc}
use y_modem_protocol.PartOne.StatBlock.{
  stat_chunk, gen_stat_blk_lem, last_stat_blk, length-stat_chunk,
}

abbrev text_of : File → List ℕ
text_of f = stat_chunk (filename f.name) (decimal (f.size % 2 ^ 32))

-- What is written for a file: its stat block, its blocks from number 1 on, and two EOTs.
abbrev pub file_acts : ByteOrder → File → List (List ℕ) → List Action
file_acts order f gots =
    wrote (block order 0 (text_of f))
    ∷ (blocks order 1 gots ++ wrote (eot ∷ []) ∷ wrote (eot ∷ []) ∷ closed ∷ [])

-- The block behind the last file.
abbrev pub last_block : List ℕ
last_block = soh ∷ 0 ∷ 255 ∷ (replicate 128 0 ++ 0 ∷ 0 ∷ [])

length-block :
    (order : ByteOrder) (num : ℕ) (chunk : List ℕ)
    → length chunk ≡ chunk_sz
    → length (block order num chunk) ≡ blk_sz_crc
length-block order num chunk len =
    omega (arith, len, length-append chunk (line_crc order chunk), length-line_crc order chunk)

stat_sent :
    (f : File) (s : SenderY)
    → length (filename f.name) + 1 + length (decimal (f.size % 2 ^ 32)) ≤ chunk_sz
    → (t : SenderY) × (stat_blk false f.name f.size s ≡ some t)
      × Leaves (wrote (block s.order 0 (text_of f)) ∷ []) s t
      × (t.blk_num ≡ 1)
unfolding stat_blk send_blk act
stat_sent f s fits = (
  _,
  ap (λ b. send_stat b s) (gen_stat_blk_lem s.order f.name f.size fits),
  (
    refl,
    refl,
    refl,
    length-block s.order 0 (text_of f)
        (length-stat_chunk (filename f.name) (decimal (f.size % 2 ^ 32)) fits),
  ),
  refl,
)

last_sent :
    (st_size : ℕ) (s : SenderY)
    → 1 + length (decimal (st_size % 2 ^ 32)) ≤ chunk_sz
    → (t : SenderY) × (stat_blk true [] st_size s ≡ some t) × Leaves (wrote last_block ∷ []) s t
unfolding stat_blk send_blk act
last_sent st_size s fits =
    (_, ap (λ b. send_stat b s) (last_stat_blk s.order st_size fits), (refl, refl, refl, refl))

-- A file that can be opened, read and closed, and whose name, a NUL and its size fit in a chunk;
-- `gots` are its reads up to the empty one.
pub record IsSendable (f : File) (gots : List (List ℕ)) : Type 0 where
  pub opens : f.opens ≡ true
  pub closes : f.closes ≡ true
  pub reads : f.reads ≡ gots ++ ([] ∷ [])
  pub chunks : AreChunks gots
  pub fits : length (filename f.name) + 1 + length (decimal (f.size % 2 ^ 32)) ≤ chunk_sz

joined :
    (a b : List Action) (x e f g : Action)
    → ((((a ++ x ∷ []) ++ b) ++ e ∷ []) ++ f ∷ []) ++ g ∷ [] ≡ a ++ x ∷ (b ++ e ∷ f ∷ g ∷ [])
joined a b x e f g = simp append_assoc

file_sent :
    (f : File) (gots : List (List ℕ)) (s : SenderY)
    → IsSendable f gots
    → (t : SenderY) × (send_file f s ≡ some t)
      × (t.log ≡ s.log ++ file_acts s.order f gots)
      × (t.result ≡ s.result ++ done ∷ [])
      × (t.order ≡ s.order)
unfolding send_file send_byte act
file_sent f gots s h =
    let (n, stat, info, one) = stat_sent f s h.fits in
    let (t, run, sent) = data_sent gots n h.chunks info.3 in
    (
      _,
      ap (λ o. and_then o (λ x. and_then (first_read f.reads x) (finish_file f.closes))) stat
          ∙ ap (λ rs. and_then (first_read rs n) (finish_file f.closes)) h.reads
          ∙ ap (λ o. and_then o (finish_file f.closes)) run
          ∙ ap (λ c. finish_file c t) h.closes,
      ap (λ l. ((l ++ wrote (eot ∷ []) ∷ []) ++ wrote (eot ∷ []) ∷ []) ++ closed ∷ [])
            (sent.0
              ∙ ap (λ l. l ++ blocks n.order n.blk_num gots) info.0
              ∙ ap
                  (λ o.
                    (s.log ++ wrote (block s.order 0 (text_of f)) ∷ []) ++ blocks o n.blk_num gots)
                  info.2
              ∙ ap
                  (λ k.
                    (s.log ++ wrote (block s.order 0 (text_of f)) ∷ []) ++ blocks s.order k gots)
                  one)
          ∙ joined s.log (blocks s.order 1 gots) (wrote (block s.order 0 (text_of f)))
              (wrote (eot ∷ [])) (wrote (eot ∷ [])) closed,
      ap (λ r. r ++ done ∷ []) (sent.1 ∙ info.1),
      sent.2 ∙ info.2,
    )

-- Files with their reads.
abbrev pub files_of : List (File × List (List ℕ)) → List File
files_of [] = []
files_of ((f, gots) ∷ more) = f ∷ files_of more

abbrev pub AreSendable : List (File × List (List ℕ)) → Type 0
AreSendable [] = Unit {0}
AreSendable ((f, gots) ∷ more) = IsSendable f gots × AreSendable more

abbrev pub all_acts : ByteOrder → List (File × List (List ℕ)) → List Action
all_acts order [] = []
all_acts order ((f, gots) ∷ more) = file_acts order f gots ++ all_acts order more

abbrev pub dones : List (File × List (List ℕ)) → List Outcome
dones [] = []
dones (f ∷ more) = done ∷ dones more

files_sent :
    (files : List (File × List (List ℕ))) (rest : List File) (is_end : Bool) (st_size : ℕ)
    (s : SenderY)
    → AreSendable files
    → (t : SenderY) × (send_files is_end st_size (files_of files ++ rest) s
        ≡ send_files is_end st_size rest t)
      × (t.log ≡ s.log ++ all_acts s.order files)
      × (t.result ≡ s.result ++ dones files)
      × (t.order ≡ s.order)
unfolding send_files
files_sent [] rest is_end st_size s h =
    (s, refl, sym (append-nil s.log), sym (append-nil s.result), refl)
files_sent ((f, gots) ∷ more) rest is_end st_size s h =
    let (n, run, log, result, order) = file_sent f gots s h.0 in
    let (t, run2, log2, result2, order2) = files_sent more rest is_end st_size n h.1 in
    (
      t,
      rw h.0.opens
          (ap (λ o. and_then o (send_files is_end st_size (files_of more ++ rest))) run ∙ run2),
      log2
          ∙ ap (λ x. x ++ all_acts n.order more) log
          ∙ append_assoc s.log (file_acts s.order f gots) (all_acts n.order more)
          ∙ ap (λ o. s.log ++ (file_acts s.order f gots ++ all_acts o more)) order,
      result2 ∙ ap (λ x. x ++ dones more) result ∙ append_assoc s.result (done ∷ []) (dones more),
      order2 ∙ order,
    )

abbrev told : SenderY → SenderY
told s = let sent = cans s in record sent { result = sent.result ++ open_error ∷ [] }

stops_at :
    (missing : File) (behind : List File) (is_end : Bool) (st_size : ℕ) (s : SenderY)
    → missing.opens ≡ false
    → send_files is_end st_size (missing ∷ behind) s ≡ some (told s)
unfolding send_files
stops_at missing behind is_end st_size s no_file = rw no_file refl

-- `sendFiles` of the first stage, when the compiler gives equal strings one address: for files that
-- can be opened, read and closed, and whose names and sizes fit in a chunk, it writes for each file
-- the stat block, the data blocks numbered from 1 on modulo 256 and two EOTs, and then a block of
-- NULs; the result says that each file is done. If a file that cannot be opened follows, it
-- writes CANs in place of that block and nothing of the files behind.
pub send_files_lem :
    (files : List (File × List (List ℕ))) (missing : File) (behind : List File) (st_size : ℕ)
    (s : SenderY)
    → AreSendable files
    → missing.opens ≡ false
    → 1 + length (decimal (st_size % 2 ^ 32)) ≤ chunk_sz
    → ((t : SenderY) × (send_files true st_size (files_of files) s ≡ some t)
        × (t.log ≡ s.log ++ (all_acts s.order files ++ wrote last_block ∷ []))
        × (t.result ≡ s.result ++ dones files))
      × ((t : SenderY) × (send_files true st_size (files_of files ++ missing ∷ behind) s ≡ some t)
          × (t.log ≡ s.log ++ (all_acts s.order files ++ wrote (replicate can_len can) ∷ []))
          × (t.result ≡ s.result ++ (dones files ++ open_error ∷ [])))
unfolding send_files cans act
send_files_lem files missing behind st_size s h no_file fits = (
  let (n, run, log, result, order) = files_sent files [] true st_size s h in
      let (t, last, sent) = last_sent st_size n fits in
      (
        t,
        ap (λ fs. send_files true st_size fs s) (sym (append-nil (files_of files))) ∙ run ∙ last,
        sent.0
            ∙ ap (λ l. l ++ wrote last_block ∷ []) log
            ∙ append_assoc s.log (all_acts s.order files) (wrote last_block ∷ []),
        sent.1 ∙ result,
      ),
  let (n, run, log, result, order) = files_sent files (missing ∷ behind) true st_size s h in
      (
        told n,
        run ∙ stops_at missing behind true st_size n no_file,
        ap (λ l. l ++ wrote (replicate can_len can) ∷ []) log
            ∙ append_assoc s.log (all_acts s.order files) (wrote (replicate can_len can) ∷ []),
        ap (λ r. r ++ open_error ∷ []) result
            ∙ append_assoc s.result (dones files) (open_error ∷ []),
      ),
)
