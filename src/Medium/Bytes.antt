-- ===== src/Medium/Bytes.antt =====
-- What the medium passes on from terminal 1, byte by byte.
use y_modem_protocol.Base.{
  ℕ, suc, ◌+◌, ◌-◌, ◌/◌, ◌%◌, ◌^◌, ◌<◌, ◌≡◌, refl, sym, ap, subst, ◌∙◌, true, false, ◌==◌,
  if◌then◌else◌, List, [], ◌∷◌, ◌++◌, length, arith, Bool-cases, inl, inr,
}
use y_modem_protocol.Peer.Defs.{nak}
use y_modem_protocol.Medium.Defs.{
  Medium, Message, passed, u32, t1_corrupt_byte, t1_drop_byte, t1_glitch_byte, t1_send_glitch_ack,
  msg_from_term1,
}

-- What has been sent of `k` bytes: of each seven one is dropped.
abbrev pub sent_of : ℕ → ℕ
sent_of k = k - k / t1_drop_byte

-- What byte `c` becomes when it is the `k`th: nothing for every seventh; else a NAK for every sixth,
-- and behind a glitch byte for every fourth that is sent. The glitch bytes count up from 0.
abbrev pub becomes : ℕ → ℕ → List ℕ
becomes k c =
    if k % t1_drop_byte == 0
    then []
    else (if sent_of k % t1_glitch_byte == 0
        then (sent_of k / t1_glitch_byte - 1) % 256 ∷ []
        else [])
      ++ (if k % t1_corrupt_byte == 0 then nak else c) ∷ []

unfoldable pub becomes_all : ℕ → List ℕ → List ℕ
becomes_all k [] = []
becomes_all k (c ∷ cs) = becomes k c ++ becomes_all (suc k) cs

-- The counters after `k` bytes.
pub record HasCounted (k : ℕ) (m : Medium) : Type 0 where
  pub t1_count : m.from_t1_byte_count ≡ k
  pub sent : m.sent_count ≡ sent_of k
  pub glitches : m.glitch_count ≡ sent_of k / t1_glitch_byte % 256

abbrev pub pass_on : Message → Medium → (Medium → List ℕ × Medium) → List ℕ × Medium
pass_on (passed to1 to2 n) m more = (to2 ++ (more n).0, (more n).1)
pass_on _ m more = ([], m)

-- Bytes from terminal 1, one after another: what terminal 2 gets, and the medium.
unfoldable pub pass_bytes : List ℕ → Medium → List ℕ × Medium
pass_bytes [] m = ([], m)
pass_bytes (c ∷ cs) m = pass_on (msg_from_term1 (c ∷ []) m) m (pass_bytes cs)

-- The medium behind the message of the byte after the `k`th.
unfoldable behind_byte : ℕ → Medium → Medium
behind_byte k m =
    if suc k % t1_drop_byte == 0 then record m { from_t1_byte_count = suc k } else record m {
      from_t1_byte_count = suc k;
      sent_count = sent_of (suc k);
      glitch_count =
          if sent_of (suc k) % t1_glitch_byte == 0
          then (m.glitch_count + 1) % 256
          else m.glitch_count;
      send_extra_ack = if suc k % t1_send_glitch_ack == 0 then true else m.send_extra_ack;
    }

module _ (k c : ℕ) (m : Medium) (h : HasCounted k m) (small : suc k < 2 ^ 32) where
  open h use {t1_count, sent, glitches}

  sent_next : (suc k % t1_drop_byte == 0) ≡ false → u32 (m.sent_count + 1) ≡ sent_of (suc k)
  sent_next d = ground arith

  glitch_next :
      (suc k % t1_drop_byte == 0) ≡ false
      → (sent_of (suc k) % t1_glitch_byte == 0) ≡ true
      → m.glitch_count ≡ (sent_of (suc k) / t1_glitch_byte - 1) % 256
  glitch_next d g = ground arith

  byte_passed : msg_from_term1 (c ∷ []) m ≡ passed [] (becomes (suc k) c) (behind_byte k m)
  unfolding msg_from_term1 behind_byte
  byte_passed =
      let count : u32 (m.from_t1_byte_count + 1) ≡ suc k = omega arith in
      elim (Bool-cases (suc k % t1_drop_byte == 0)) [
        | inl d ↦ rw (count, d) refl
        | inr s ↦
            rw (count, s, sent_next s)
              (elim (Bool-cases (sent_of (suc k) % t1_glitch_byte == 0)) [
                | inl g ↦ rw (g, glitch_next s g) refl
                | inr g ↦ rw g refl
              ])
      ]

  byte-HasCounted : HasCounted (suc k) (behind_byte k m)
  unfolding behind_byte
  byte-HasCounted = ground arith

-- The medium's errors on the way from terminal 1 are fixed by the place of a byte alone: for as many
-- bytes as the counters hold, terminal 2 gets nothing for every seventh byte, a NAK in place of every
-- sixth, and before every fourth byte that is sent one glitch byte, of value 0, 1, 2 and so on; the
-- counters agree with the number of bytes.
pub pass_bytes-becomes :
    (cs : List ℕ) (k : ℕ) (m : Medium)
    → HasCounted k m
    → k + length cs < 2 ^ 32
    → ((pass_bytes cs m).0 ≡ becomes_all (suc k) cs)
      × HasCounted (k + length cs) ((pass_bytes cs m).1)
unfolding pass_bytes becomes_all
pass_bytes-becomes [] k m h small = (refl, subst (λ n. HasCounted n m) (omega arith) h)
pass_bytes-becomes (c ∷ cs) k m h small =
    let n = behind_byte k m in
    let more =
      pass_bytes-becomes cs (suc k) n (byte-HasCounted k c m h (omega arith)) (omega arith) in
    let all : pass_bytes (c ∷ cs) m
        ≡ (becomes (suc k) c ++ (pass_bytes cs n).0, (pass_bytes cs n).1) =
      ap (λ x. pass_on x m (pass_bytes cs)) (byte_passed k c m h (omega arith)) in
    (
      ap (λ x. x.0) all ∙ ap (λ x. becomes (suc k) c ++ x) more.0,
      subst (λ x. HasCounted (k + length (c ∷ cs)) x) (sym (ap (λ x. x.1) all))
          (subst (λ x. HasCounted x ((pass_bytes cs n).1)) (omega arith) more.1),
    )
