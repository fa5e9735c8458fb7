-- ===== src/Peer/Loops.antt =====
-- The loops on the medium: `clearCan` (PeerY.cpp), `dumpGlitches` (SenderY.cpp) and `purge`
-- (ReceiverY.cpp), on the bytes that the line delivers.
use y_modem_protocol.Base.{
  ℕ, zero, suc, ◌+◌, ◌*◌, ◌-◌, ◌<◌, ◌≡◌, ◌≢◌, refl, ◌&&◌, ltb, ◌==◌, if◌then◌else◌, List, [], ◌∷◌,
  ◌++◌, Option, none, some, length, drop, replicate, length-drop, lt→ltb, inl, inr, Bool-cases,
  arith,
}
use y_modem_protocol.Peer.Defs.{can, can_len}

-- `clearCan`: `line` has the characters that come within the timeout of a read, and `total` is
-- `totalBytesRd`. The result is what is left of the line, and the character sent to the console.
unfoldable pub clear_can : ℕ → List ℕ → List ℕ × Option ℕ
clear_can total [] = ([], none)
clear_can total (c ∷ line) =
    let more = clear_can (total + 1) line in
    if c == can && ltb (total + 1) (can_len - 2)
    then more
    else (line, if c == can then none else some c)

-- `dumpBufSz`
abbrev pub dump_buf_sz : ℕ
dump_buf_sz = 20

-- `dumpGlitches` on the bytes that have arrived: what is left, or `none` out of fuel.
unfoldable pub dump_glitches : ℕ → List ℕ → Option (List ℕ)
dump_glitches zero line = none
dump_glitches (suc fuel) line =
    let rest = dump_glitches fuel (drop dump_buf_sz line) in
    if ltb (length line) dump_buf_sz then some [] else rest

-- What one `myReadcond` gives: an error that is no fatal one, another error, or bytes.
pub data Read : Type 0 where
  interrupted fatal : Read
  received : List ℕ → Read

-- The loop of `purge`: the reads that are left, `none` if it wants more of them.
unfoldable pub purge_calls : List Read → Option (List Read)
purge_calls [] = none
purge_calls (interrupted ∷ reads) = purge_calls reads
purge_calls (fatal ∷ reads) = some reads
purge_calls (received bytes ∷ reads) = some reads

-- `clearCan` takes CANs up to CAN_LEN - 2 of them in all, and then nothing that comes behind: of a burst
-- of CAN_LEN, two of which the chart has read, nothing is left.
pub clear_can-replicate :
    (n total : ℕ) (rest : List ℕ)
    → 0 < n
    → total + n ≡ can_len - 2
    → clear_can total (replicate n can ++ rest) ≡ (rest, none)
unfolding clear_can
clear_can-replicate zero total rest h e = absurd (omega arith)
clear_can-replicate (suc zero) total rest h e = ground arith
clear_can-replicate (suc (suc n)) total rest h e =
    rw (lt→ltb (total + 1) (can_len - 2) (omega arith))
      (clear_can-replicate (suc n) (total + 1) rest (omega arith) (omega arith))

-- Another character before that limit ends `clearCan`, is taken too and goes to the console.
pub clear_can-glitch :
    (n total c : ℕ) (rest : List ℕ)
    → total + n < can_len - 2
    → c ≢ can
    → clear_can total (replicate n can ++ (c ∷ rest)) ≡ (rest, some c)
unfolding clear_can
clear_can-glitch zero total c rest h d = ground arith
clear_can-glitch (suc n) total c rest h d =
    rw (lt→ltb (total + 1) (can_len - 2) (omega arith))
      (clear_can-glitch n (total + 1) c rest (omega arith) d)

-- With fuel for its length in steps of 20 bytes, `dumpGlitches` dumps all that has arrived.
pub dump_glitches-all :
    (fuel : ℕ) (line : List ℕ)
    → length line < fuel * dump_buf_sz
    → dump_glitches fuel line ≡ some []
unfolding dump_glitches
dump_glitches-all zero line h = absurd (omega arith)
dump_glitches-all (suc fuel) line h = elim (Bool-cases (ltb (length line) dump_buf_sz)) [
  | inl last ↦ rw last refl
  | inr full ↦ rw full (
      dump_glitches-all fuel (drop dump_buf_sz line) (ground (arith, length-drop dump_buf_sz line)))
]

-- `purge` reads once: after a read that brought bytes it does not read again until nothing comes,
-- so that what came after them is still there.
pub purge_reads_once :
    (n : ℕ) (bytes : List ℕ) (more : List Read)
    → purge_calls (replicate n interrupted ++ (received bytes ∷ more)) ≡ some more
unfolding purge_calls
purge_reads_once zero bytes more = refl
purge_reads_once (suc n) bytes more = purge_reads_once n bytes more
