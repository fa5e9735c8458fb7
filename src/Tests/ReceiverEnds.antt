-- ===== src/Tests/ReceiverEnds.antt =====
-- The theorems on the receiver's chart, at concrete inputs.
use y_modem_protocol.Base.{ℕ, ◌≡◌, ◌≢◌, refl, List, [], ◌∷◌, ◌++◌, none, replicate, arith}
use y_modem_protocol.Block.Defs.{complement}
use y_modem_protocol.Peer.Defs.{
  fd, minus_one, ser, soh, eot, can, wrote, purged, closed, ack, nak, done,
  loss_of_sync_at_stat_blk,
}
use y_modem_protocol.Receiver.Defs.{Receiver, Answers}
use y_modem_protocol.Receiver.Chart.{first_byte_data, first_byte_stat, are_we_done}
use y_modem_protocol.Receiver.Machine.{posted, undelivered, post_event}
use y_modem_protocol.Receiver.Runs.{at, stopped, post_all}
use y_modem_protocol.Receiver.Settled.{SettledPost, post_event-IsSettled}
use y_modem_protocol.Receiver.Fuel.{post_event-delivered}
use y_modem_protocol.Receiver.Cancel.{lone_can, alert, purged_once}
use y_modem_protocol.Receiver.Session.{Waiting}
use y_modem_protocol.Receiver.Ends.{two_eots, repeated_end_fails}
use y_modem_protocol.Receiver.Chart.{can_state}
use y_modem_protocol.Tests.Data.{receiver_with, delivers}

abbrev busy : Receiver
busy = receiver_with (fd 3) 0 7

abbrev idle : Answers
idle = delivers []

post_event-IsSettled_example :
    SettledPost (post_event idle (ser eot) (at first_byte_data none busy))
post_event-IsSettled_example =
    post_event-IsSettled idle (ser eot) (at first_byte_data none busy) (tt, tt)

post_event-delivered_example :
    post_event idle (ser soh) (at first_byte_stat none busy) ≢ undelivered
post_event-delivered_example = post_event-delivered idle (ser soh) (at first_byte_stat none busy)

two_eots_example :
    (t : Receiver) × (post_all
        ((idle, ser eot) ∷ (idle, ser eot) ∷ [])
        (at first_byte_data none busy)
      ≡ posted (at first_byte_stat none t))
    × (t.log ≡ purged ∷ wrote (nak ∷ []) ∷ closed ∷ wrote (ack ∷ []) ∷ wrote (b'C' ∷ []) ∷ [])
    × (t.result ≡ done ∷ [])
    × (t.transferring_file ≡ minus_one)
    × Waiting t
two_eots_example = two_eots idle idle 3 none busy refl refl refl refl refl

lone_can_example :
    (post_event idle (ser can) (at first_byte_data none busy)
      ≡ posted (at can_state none (alert idle busy)))
    × (post_all ((idle, ser can) ∷ (idle, ser b'x') ∷ []) (at first_byte_data none busy)
        ≡ posted (at first_byte_stat none (purged_once busy)))
    × (first_byte_stat ≢ first_byte_data)
lone_can_example =
    lone_can idle idle b'x' first_byte_data none busy tt tt (λ e. omega (arith, e)) refl

abbrev tired : Receiver
tired = receiver_with (fd 3) 10 7

abbrev last_again : List ℕ
last_again = 0 ∷ complement 0 ∷ (replicate 128 0 ++ (0 ∷ 0 ∷ []))

repeated_end_fails_example :
    (t : Receiver) × (post_event
        (delivers last_again)
        (ser soh)
        (at are_we_done none (receiver_with minus_one 0 0))
      ≡ posted (stopped none t))
    × (t.result ≡ loss_of_sync_at_stat_blk ∷ [])
repeated_end_fails_example =
    repeated_end_fails (delivers last_again) 0 0 (replicate 128 0) none
      (receiver_with minus_one 0 0) refl refl refl refl refl refl
