-- ===== src/Tests/Loops.antt =====
-- The theorems on the loop of `transferCommon`, with the chart of the receiver.
use y_modem_protocol.Base.{ℕ, ◌≡◌, refl, true, List, [], ◌∷◌, none, some, replicate, arith}
use y_modem_protocol.Peer.Defs.{
  fd, minus_one, wrote, can, can_len, excessive_errors, ser, snd_cancelled,
}
use y_modem_protocol.Peer.Transfer.{Round, nothing, ready, ended, thrown, transfer_loop}
use y_modem_protocol.Peer.Transfer.Events.{Steps}
use y_modem_protocol.Peer.Transfer.Steps.{transfer_loop-Steps}
use y_modem_protocol.Peer.Transfer.Rounds.{cancel_after_end_throws}
use y_modem_protocol.Receiver.Defs.{Receiver, Answers, clear_can_now, close_transferred_file}
use y_modem_protocol.Receiver.Chart.{first_byte_stat, can_state, add}
use y_modem_protocol.Receiver.Machine.{post_event}
use y_modem_protocol.Receiver.Runs.{at, stopped}
use y_modem_protocol.Receiver.Loop.{receiver_chart}
use y_modem_protocol.Receiver.Silence.{Silent, over, early, late, silent_line_ends}
use y_modem_protocol.Tests.Data.{receiver_with, delivers}

-- A round in which nothing comes.
abbrev silent_at : ℕ → Round Answers
silent_at n = record {
  now = n;
  select = λ sec usec. nothing;
  readcond = λ tenths. none;
  keys = [];
  answers = λ msg. delivers [];
}

abbrev silence : List (Round Answers)
silence = silent_at 5 ∷ silent_at 6 ∷ silent_at 900000 ∷ silent_at 900001 ∷ []

-- One error below the limit.
abbrev patient : Receiver
patient = receiver_with minus_one 9 255

-- A round that is due, one that waits, and one that is due then.
silent : Silent 0 silence
silent = late (omega arith) refl (
    early (omega arith) refl (omega arith) (late (omega arith) refl (late (omega arith) refl over)))

silent_line_ends_example :
    (t : Receiver) × (transfer_loop receiver_chart silence (at first_byte_stat none patient)
      ≡ ended (stopped none t))
    × ((t.log ≡ wrote (b'C' ∷ []) ∷ wrote (replicate can_len can) ∷ [])
        × (t.result ≡ excessive_errors ∷ []))
silent_line_ends_example =
    silent_line_ends 1 silence 0 first_byte_stat none patient tt refl refl refl (omega arith) silent

-- The end of the silence is reached step by step.
transfer_loop-Steps_example : Steps receiver_chart silence (at first_byte_stat none patient) (
    stopped none
      (silent_line_ends 1 silence 0 first_byte_stat none patient tt refl refl refl
        (omega arith)
        silent).0)
transfer_loop-Steps_example =
    transfer_loop-Steps receiver_chart silence (at first_byte_stat none patient) _
      (silent_line_ends 1 silence 0 first_byte_stat none patient tt refl refl refl (omega arith)
        silent).1

abbrev busy : Receiver
busy = receiver_with (fd 3) 0 1

-- The second CAN, and a cancel at the keyboard.
abbrev both : Round Answers
both = record {
  now = 0;
  select = λ sec usec. ready true true;
  readcond = λ tenths. some can;
  keys = b'&' ∷ b'c' ∷ [];
  answers = λ msg. delivers [];
}

-- What the second CAN leaves.
abbrev ended_busy : Receiver
ended_busy = add snd_cancelled (clear_can_now (close_transferred_file true busy))

second_can_ends :
    receiver_chart.post (delivers []) (ser can) (at can_state none busy)
    ≡ some (stopped none ended_busy)
unfolding post_event
second_can_ends = refl

cancel_after_end_throws_example :
    transfer_loop receiver_chart (both ∷ []) (at can_state none busy) ≡ thrown
cancel_after_end_throws_example =
    cancel_after_end_throws receiver_chart both (at can_state none busy) (stopped none ended_busy)
      can [] refl (λ sec usec. refl) (λ tenths. refl) refl second_can_ends refl
