-- ===== src/Medium/Loop.antt =====
-- `Medium::start` (Ensc351Part6/src/Medium.cpp): the loop over both terminals.
use y_modem_protocol.Base.{
  ℕ, ◌≡◌, ◌≢◌, refl, sym, ap, ◌∙◌, Bool, true, false, List, [], ◌∷◌, Option, none, some, arith,
}
use y_modem_protocol.Medium.Defs.{
  Medium, Message, socket_closed, passed, oversized, write_out, msg_from_term2, msg_from_term1,
}

-- What `select` finds ready, with what is then read: nothing for a socket that is closed.
pub record Ready : Type 0 where
  pub term1 : Option (List ℕ)
  pub term2 : Option (List ℕ)

-- `finished` behind a round, with the medium; or a write has failed and the process has ended.
pub data Round : Type 0 where
  finished : Bool → Medium → Round
  failed : Round

abbrev pub of_message : Message → Medium → Round
of_message socket_closed m = finished true m
of_message (passed to1 to2 n) m = finished false n
of_message (oversized to1 to2 n) m = failed

abbrev pub on_term2 : Option (List ℕ) → Bool → Medium → Round
on_term2 none f m = finished f m
on_term2 (some got) f m = of_message (msg_from_term2 got m) m

abbrev pub then_term2 : Option (List ℕ) → Round → Round
then_term2 got (finished f m) = on_term2 got f m
then_term2 got failed = failed

abbrev pub on_term1 : Option (List ℕ) → Medium → Round
on_term1 none m = finished false m
on_term1 (some got) m = of_message (msg_from_term1 got m) m

unfoldable pub round : Ready → Medium → Round
round r m = then_term2 r.term2 (on_term1 r.term1 m)

abbrev pub go_on : Round → (Medium → Round) → Round
go_on (finished false m) more = more m
go_on (finished true m) more = finished true m
go_on failed more = failed

-- The loop, for as many rounds as the list has.
unfoldable pub start : List Ready → Medium → Round
unfolding round
start [] m = finished false m
start (r ∷ rounds) m = go_on (round r m) (start rounds)

-- Terminal 1 is closed in every round, and terminal 2 has bytes.
abbrev pub OneClosed : List Ready → Type 0
OneClosed [] = Unit {0}
OneClosed (r ∷ rounds) =
    (r.term1 ≡ some []) × ((b : ℕ) × (bs : List ℕ) × (r.term2 ≡ some (b ∷ bs))) × OneClosed rounds

write_goes_on :
    (n : ℕ) (buf : List ℕ) (w m k : Medium) → of_message (write_out n buf w) m ≢ finished true k
unfolding write_out
write_goes_on n buf w m k = ground arith

message_goes_on :
    (b : ℕ) (bs : List ℕ) (m k : Medium)
    → of_message (msg_from_term2 (b ∷ bs) m) m ≢ finished true k
unfolding msg_from_term2
message_goes_on b bs m k = write_goes_on _ _ _ m k

closed_message : (m : Medium) → msg_from_term1 [] m ≡ socket_closed
unfolding msg_from_term1
closed_message m = refl

go_on-ne :
    (x : Round) (more : Medium → Round) (k : Medium)
    → x ≢ finished true k
    → ((m : Medium) → x ≢ finished true m)
    → ((m : Medium) → more m ≢ finished true k)
    → go_on x more ≢ finished true k
go_on-ne (finished false m) more k h all rest = rest m
go_on-ne (finished true m) more k h all rest = absurd (all m refl)
go_on-ne failed more k h all rest = λ e. cc

-- `finished` of terminal 1 is forgotten when terminal 2 is ready in the same round: while terminal 2
-- has bytes in every round, the medium does not finish, in any number of rounds, although terminal 1
-- is closed.
pub closed_goes_on :
    (rounds : List Ready) (m k : Medium) → OneClosed rounds → start rounds m ≢ finished true k
unfolding start
closed_goes_on [] m k c e = cc
closed_goes_on (r ∷ rounds) m k c e =
    go_on-ne (round r m) (start rounds) k (not_yet k) not_yet (λ n. closed_goes_on rounds n k c.2) e
  where
    b : ℕ
    b = c.1.0

    bs : List ℕ
    bs = c.1.1

    round_is : round r m ≡ of_message (msg_from_term2 (b ∷ bs) m) m
    round_is =
        ap (λ x. then_term2 r.term2 (on_term1 x m)) c.0
        ∙ ap (λ x. then_term2 r.term2 (of_message x m)) (closed_message m)
        ∙ ap (λ x. on_term2 x true m) c.1.2

    not_yet : (n : Medium) → round r m ≢ finished true n
    not_yet n e = message_goes_on b bs m n (sym round_is ∙ e)
