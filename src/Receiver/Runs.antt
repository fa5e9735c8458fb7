-- ===== src/Receiver/Runs.antt =====
-- Runs of the receiver's chart: several events in a row, and what a log has stored.
use y_modem_protocol.Base.{
  ℕ, Option, none, some, List, [], ◌∷◌, ◌++◌, ◌≡◌, refl, sym, ap, ◌∙◌, append_assoc,
}
use y_modem_protocol.Peer.Defs.{Message, Action, stored}
use y_modem_protocol.Receiver.Defs.{Receiver, Answers}
use y_modem_protocol.Receiver.Chart.{State}
use y_modem_protocol.Receiver.Machine.{
  Machine, Posted, posted, not_running, exception, undelivered, post_event,
}

-- The machine in a state.
abbrev pub at : State → Option State → Receiver → Machine
at st h r = record { active = some st; history = h; ctx = r }

-- The machine that has stopped.
abbrev pub stopped : Option State → Receiver → Machine
stopped h r = record { active = none; history = h; ctx = r }

abbrev pub then_post : Posted → (Machine → Posted) → Posted
then_post (posted m) f = f m
then_post not_running f = not_running
then_post exception f = exception
then_post undelivered f = undelivered

abbrev pub post_all : List (Answers × Message) → Machine → Posted
post_all [] m = posted m
post_all ((a, msg) ∷ events) m = then_post (post_event a msg m) (post_all events)

-- The bytes that a log has stored to files.
abbrev pub stored_bytes : List Action → List ℕ
stored_bytes [] = []
stored_bytes (stored bytes ∷ acts) = bytes ++ stored_bytes acts
stored_bytes (_ ∷ acts) = stored_bytes acts

pub stored_bytes-append :
    (xs ys : List Action) → stored_bytes (xs ++ ys) ≡ stored_bytes xs ++ stored_bytes ys
stored_bytes-append [] ys = refl
stored_bytes-append (stored bytes ∷ xs) ys =
    ap (λ t. bytes ++ t) (stored_bytes-append xs ys)
    ∙ sym (append_assoc bytes (stored_bytes xs) (stored_bytes ys))
stored_bytes-append (_ ∷ xs) ys = stored_bytes-append xs ys
