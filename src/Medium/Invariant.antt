-- ===== src/Medium/Invariant.antt =====
-- What every message keeps of the medium's counters.
use y_modem_protocol.Base.{ℕ, ◌+◌, ◌^◌, ◌≤◌, ◌<◌, List, [], ◌∷◌, length, arith}
use y_modem_protocol.Medium.Defs.{
  Medium, Message, socket_closed, passed, oversized, new_medium, corrupting, dropping, write_out,
  msg_from_term2, msg_from_term1, read_sz,
}
use y_modem_protocol.Medium.Stream.{IsInStep}

-- A message keeps the medium in step.
abbrev pub KeepsStep : Message → Type 0
KeepsStep socket_closed = Unit {0}
KeepsStep (passed to1 to2 m) = IsInStep m
KeepsStep (oversized to1 to2 m) = IsInStep m

message-KeepsStep :
    (b : ℕ) (bs : List ℕ) (m : Medium)
    → IsInStep m
    → m.from_t2_byte_count + 2000 < 2 ^ 32
    → length (b ∷ bs) ≤ read_sz
    → KeepsStep (msg_from_term2 (b ∷ bs) m)
unfolding msg_from_term2 corrupting dropping write_out
message-KeepsStep b bs m i small few = ground arith

byte-KeepsStep :
    (c : ℕ) (cs : List ℕ) (m : Medium) → IsInStep m → KeepsStep (msg_from_term1 (c ∷ cs) m)
unfolding msg_from_term1
byte-KeepsStep c cs m i = ground arith

-- The thresholds of the medium stay ahead of its counter: every message keeps it in step, from either
-- terminal, for reads of at most 70 bytes and a counter that is not near its limit, and a new medium
-- is in step.
pub messages-KeepsStep :
    (got : List ℕ) (m : Medium)
    → IsInStep m
    → m.from_t2_byte_count + 2000 < 2 ^ 32
    → length got ≤ read_sz
    → KeepsStep (msg_from_term2 got m) × KeepsStep (msg_from_term1 got m) × IsInStep new_medium
unfolding msg_from_term2 msg_from_term1
messages-KeepsStep [] m i small few = (
  tt,
  tt,
  record {
    corrupt_ahead = omega arith;
    corrupt_near = omega arith;
    drop_ahead = omega arith;
    drop_near = omega arith;
  },
)
messages-KeepsStep (b ∷ bs) m i small few = (
  message-KeepsStep b bs m i small few,
  byte-KeepsStep b bs m i,
  record {
    corrupt_ahead = omega arith;
    corrupt_near = omega arith;
    drop_ahead = omega arith;
    drop_near = omega arith;
  },
)
