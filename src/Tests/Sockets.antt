-- ===== src/Tests/Sockets.antt =====
-- The theorems on socket pairs, with a buffer of 160 bytes as the system's.
use y_modem_protocol.Base.{
  ℕ, ◌-◌, ◌^◌, ◌≤◌, ◌<◌, ◌≡◌, ◌≢◌, not, ◌&&◌, ◌==◌, leb, if◌then◌else◌, inl, inr, refl, true, List,
  [], ◌∷◌, ◌++◌, none, length, take, drop, min, length-take, length-drop, length-append, take_all,
  arith,
}
use y_modem_protocol.PartThree.Waits.{GivesMin, reading-GivesMin}
use y_modem_protocol.MyIo.Defs.{
  Kernel, is_peer_closed, SocketInfo, gave, new_info, closing, draining, writing, reading,
}
use y_modem_protocol.MyIo.Steps.{Step, writes, drains, reads, here, next, IsSound, claims, bytes_of}
use y_modem_protocol.MyIo.Sound.{Step-IsSound}
use y_modem_protocol.MyIo.Channel.{ChannelStep, view}
use y_modem_protocol.MyIo.Shows.{Step-ChannelStep}
use y_modem_protocol.MyIo.InOrder.{Runs-in_order}
use y_modem_protocol.MyIo.Drain.{IsDrained, OneReader-IsDrained}
use y_modem_protocol.MyIo.Ends.{closed_before_read}
use y_modem_protocol.MyIo.Calls.{
  DesInfoMap, my_readcond, my_write, my_tcdrain, my_close, my_socketpair,
}
use y_modem_protocol.MyIo.Pairs.{IsPaired, KeepsPaired}
use y_modem_protocol.MyIo.Kept.{calls-KeepsPaired}

abbrev capacity : ℕ
capacity = 160

abbrev held : List ℕ → List ℕ
held k = take capacity k

abbrev room_for : List ℕ → List ℕ → ℕ
room_for bytes k = min (length bytes) (capacity - length (held k))

held-write :
    (bytes k : List ℕ)
    → held (held k ++ take (room_for bytes k) bytes) ≡ held k ++ take (room_for bytes k) bytes
held-write bytes k = take_all capacity (held k ++ take (room_for bytes k) bytes) (
    omega (
      arith,
      length-append (held k) (take (room_for bytes k) bytes),
      length-take capacity k,
      length-take (room_for bytes k) bytes,
    ))

held-rest : (n : ℕ) (k : List ℕ) → held (drop n (held k)) ≡ drop n (held k)
held-rest n k =
    take_all capacity (drop n (held k))
      (omega (arith, length-drop n (held k), length-take capacity k))

held-lt : (k : List ℕ) → length (held k) < 2 ^ 32
held-lt k = omega (arith, length-take capacity k)

room_for-le : (bytes k : List ℕ) → room_for bytes k ≤ length bytes
room_for-le bytes k = omega arith

-- A buffer that takes what it has room for.
buffer : Kernel (List ℕ)
buffer = record {
  contents = held;
  accepted = room_for;
  write = λ bytes k. held k ++ take (room_for bytes k) bytes;
  read = λ n k. take n (held k);
  rest = λ n k. drop n (held k);
  close = λ k. [];
  contents-write = held-write;
  accepted-le = room_for-le;
  read_lem = λ n k. refl;
  contents-rest = held-rest;
  contents-close = λ k. refl;
  contents-lt = held-lt;
}

-- Nothing is written, and descriptor 4 is at the other end.
abbrev fresh_info : SocketInfo (List ℕ)
fresh_info = new_info 4 []

contents_fresh : buffer.contents [] ≡ []
unfolding buffer
contents_fresh = refl

fresh-IsSound : IsSound buffer fresh_info
unfolding buffer claims
fresh-IsSound = record { counted = inr refl; claimed = refl; fits = omega arith; wakes = inl refl }

-- Three bytes are written, a thread drains them, two of them are read.
abbrev three : List ℕ
three = 7 ∷ 8 ∷ 9 ∷ []

abbrev written_info : SocketInfo (List ℕ)
written_info = record fresh_info { total_written = 3; kernel = three }

write_step : Step buffer fresh_info three [] written_info
unfolding buffer writing
write_step = writes three refl

Step-IsSound_example : IsSound buffer written_info
Step-IsSound_example = Step-IsSound buffer write_step fresh-IsSound

abbrev drained_info : SocketInfo (List ℕ)
drained_info = record written_info { cv_drain = 1 }

drain_step : Step buffer written_info [] [] drained_info
unfolding draining
drain_step = drains

drained-IsSound : IsSound buffer drained_info
drained-IsSound = Step-IsSound buffer drain_step Step-IsSound_fresh
  where
    Step-IsSound_fresh : IsSound buffer written_info
    Step-IsSound_fresh = Step-IsSound buffer write_step fresh-IsSound

-- The read takes all of them, and the thread that drains goes on.
abbrev read_info : SocketInfo (List ℕ)
read_info = record fresh_info { kernel = [] }

read_step : Step buffer drained_info [] three read_info
unfolding buffer reading claims
read_step = reads 3 1 (omega arith)

Step-ChannelStep_example :
    ChannelStep (view buffer drained_info) [] three (view buffer read_info)
    × IsSound buffer read_info
unfolding read_step
Step-ChannelStep_example = Step-ChannelStep buffer read_step drained-IsSound (λ e. cc)

-- A read of one byte takes the first of them.
abbrev two_left_info : SocketInfo (List ℕ)
two_left_info = record drained_info { total_written = 2; kernel = 8 ∷ 9 ∷ [] }

first_step : Step buffer drained_info [] (7 ∷ []) two_left_info
unfolding buffer reading claims
first_step = reads 1 1 (omega arith)

Runs-in_order_example :
    (unread : List ℕ) × (three ≡ (7 ∷ []) ++ unread)
    × (2 ≡ length unread)
    × (bytes_of (reading buffer 1 2 two_left_info) ≡ (
        if not (is_peer_closed two_left_info.pair)
          && claims two_left_info.cv_read == 0
          && leb 2 (length unread)
        then take 1 unread
        else []))
Runs-in_order_example =
    Runs-in_order buffer {s = fresh_info} {t = two_left_info} fresh-IsSound contents_fresh
      (next (next (next here write_step refl refl) drain_step refl refl) first_step refl refl)
      (λ e. cc) 1 2

OneReader-IsDrained_example : IsDrained read_info
unfolding read_step
OneReader-IsDrained_example =
    OneReader-IsDrained buffer read_step drained-IsSound (refl, omega arith) (omega arith) refl

-- A read of one byte waits while three are there: a write and a drain came in between.
abbrev crowded : SocketInfo (List ℕ)
crowded = record drained_info { max_total_can_read = 1; cv_read = record { n = 1; min = 1 } ∷ [] }

crowded-IsSound : IsSound buffer crowded
unfolding buffer claims
crowded-IsSound = record {
  counted = inr refl;
  claimed = refl;
  fits = omega arith;
  wakes = inr (refl, omega arith);
}

over : y_modem_protocol.PartThree.Defs.wait_over 2 crowded ≡ true
unfolding y_modem_protocol.PartThree.Defs.wait_over
over = refl

-- A read of two bytes of the first version, at once, and behind a wait.
reading-GivesMin_example :
    GivesMin 2 (y_modem_protocol.PartThree.Defs.reading buffer 5 2 0 0 drained_info)
    × GivesMin 2 (y_modem_protocol.PartThree.Defs.reading_on buffer 5 [] crowded)
reading-GivesMin_example =
    reading-GivesMin buffer 5 2 [] drained_info crowded drained-IsSound refl crowded-IsSound refl
      over (omega arith) (omega arith)

closed_before_read_example :
    let t = (closing buffer (new_info 3 []) (writing buffer three fresh_info)).1 in
    (reading buffer 5 1 t ≡ gave [] t) × (buffer.contents t.kernel ≡ three) × (t.total_written ≡ 3)
unfolding buffer
closed_before_read_example =
    closed_before_read buffer fresh_info (new_info 3 []) three 5 1 refl refl (omega arith)

-- Descriptors 3 and 4 are a pair.
abbrev no_sockets : DesInfoMap (List ℕ)
no_sockets e = none

no_sockets-IsPaired : IsPaired no_sockets
no_sockets-IsPaired d s e = cc

pair_of_sockets : DesInfoMap (List ℕ)
pair_of_sockets = my_socketpair 3 4 [] [] no_sockets

pair_of_sockets-IsPaired : IsPaired pair_of_sockets
unfolding pair_of_sockets
pair_of_sockets-IsPaired =
    (calls-KeepsPaired no_sockets no_sockets-IsPaired buffer 3 4).4 [] [] refl refl (omega arith)

calls-KeepsPaired_example :
    ((n min : ℕ) → KeepsPaired (my_readcond buffer 3 n min pair_of_sockets))
    × ((bytes : List ℕ) → KeepsPaired (my_write buffer 3 bytes pair_of_sockets))
    × KeepsPaired (my_tcdrain 3 pair_of_sockets)
    × KeepsPaired (my_close buffer 3 pair_of_sockets)
    × ((k l : List ℕ)
        → pair_of_sockets 3 ≡ none
        → pair_of_sockets 5 ≡ none
        → ◌≢◌ {A = ℕ} 3 5
        → IsPaired (my_socketpair 3 5 k l pair_of_sockets))
calls-KeepsPaired_example = calls-KeepsPaired pair_of_sockets pair_of_sockets-IsPaired buffer 3 5
