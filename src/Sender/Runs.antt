-- ===== src/Sender/Runs.antt =====
-- Runs of the sender's chart: several events in a row.
use y_modem_protocol.Base.{Option, none, some, List, [], ◌∷◌, ◌++◌, ◌≡◌, refl}
use y_modem_protocol.Peer.Defs.{Message}
use y_modem_protocol.Sender.Defs.{Sender, Answers}
use y_modem_protocol.Sender.Chart.{State}
use y_modem_protocol.Sender.Machine.{Machine, Posted, posted, not_running, process_exit, post_event}

-- The machine in a state.
abbrev pub at : State → Option State → Sender → Machine
at st h s = record { active = some st; history = h; ctx = s }

-- The machine that has stopped.
abbrev pub stopped : Option State → Sender → Machine
stopped h s = record { active = none; history = h; ctx = s }

abbrev pub then_post : Posted → (Machine → Posted) → Posted
then_post (posted m) f = f m
then_post not_running f = not_running
then_post process_exit f = process_exit

abbrev pub post_all : List (Answers × Message) → Machine → Posted
post_all [] m = posted m
post_all ((a, msg) ∷ events) m = then_post (post_event a msg m) (post_all events)

pub post_all-append :
    (xs ys : List (Answers × Message)) (m : Machine)
    → post_all (xs ++ ys) m ≡ then_post (post_all xs m) (post_all ys)
post_all-append [] ys m = refl
post_all-append ((a, msg) ∷ xs) ys m =
    elim (post_event a msg m)
      as (λ p.
        then_post p (post_all (xs ++ ys)) ≡ then_post (then_post p (post_all xs)) (post_all ys)) [
          | posted n ↦ post_all-append xs ys n
          | not_running ↦ refl
          | process_exit ↦ refl
        ]
