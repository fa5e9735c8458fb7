-- ===== src/Crc/Register.antt =====
-- `updcrc` against a description by bits: a register of 16 bits into which the bits of the byte are
-- pushed, the highest first.
use Prim.Native.Nat.{bit_xor}
use y_modem_protocol.Base.{
  ℕ, zero, suc, ◌+◌, ◌*◌, ◌%◌, ◌^◌, ◌≡◌, ◌<◌, refl, sym, ap, ◌∙◌, ◌==◌, if◌then◌else◌, List, [],
  ◌∷◌, arith,
}
use y_modem_protocol.Base.Bits.{low-bit_xor, low_16}
use y_modem_protocol.Crc.Defs.{updcrc_round, updcrc_loop, updcrc, bit}

-- Take in one bit, and subtract the polynomial x^16 + x^12 + x^5 + 1 if x^16 came up. The digits
-- above x^15 are left as they are.
abbrev pub push : ℕ → ℕ → ℕ
push b r = if bit 15 r == 1 then bit_xor (2 * r + b) 0x1021 else 2 * r + b

abbrev pub push_bits : List ℕ → ℕ → ℕ
push_bits [] r = r
push_bits (b ∷ bs) r = push_bits bs (push b r)

-- The bits of a byte, the highest first.
abbrev pub bits_of : ℕ → List ℕ
bits_of c = bit 7 c ∷ bit 6 c ∷ bit 5 c ∷ bit 4 c ∷ bit 3 c ∷ bit 2 c ∷ bit 1 c ∷ bit 0 c ∷ []

xor_16 : (a b c : ℕ) → a % 65536 ≡ b % 65536 → bit_xor a c % 65536 ≡ bit_xor b c % 65536
xor_16 a b c e = omega (
  arith,
  low_16 (bit_xor a c),
  low_16 (bit_xor b c),
  low-bit_xor 16 a b c (low_16 a ∙ e ∙ sym (low_16 b)),
)

-- Only the low 16 digits of the register matter.
push_16 : (b r s : ℕ) → r % 65536 ≡ s % 65536 → push b r % 65536 ≡ push b s % 65536
push_16 b r s e = ground (arith, xor_16 (2 * r + b) (2 * s + b) 0x1021)

round_16 :
    (b c2 r s : ℕ)
    → bit 8 c2 ≡ b
    → r % 65536 ≡ s % 65536
    → updcrc_round c2 r % 65536 ≡ push b s % 65536
unfolding updcrc_round
round_16 b c2 r s h e = ground (arith, xor_16 (r * 2 % 2 ^ 32 + bit 8 c2) (2 * s + b) 0x1021)

-- The bits that `count` rounds take in, as the loop comes upon them.
abbrev loop_bits : ℕ → ℕ → List ℕ
loop_bits zero c = []
loop_bits (suc count) c = bit 8 (c * 2) ∷ loop_bits count (c * 2)

loop_16 :
    (count c r s : ℕ)
    → r % 65536 ≡ s % 65536
    → updcrc_loop count c r % 65536 ≡ push_bits (loop_bits count c) s % 65536
unfolding updcrc_loop
loop_16 zero c r s e = e
loop_16 (suc count) c r s e =
    loop_16 count (c * 2) (updcrc_round (c * 2) r) (push (bit 8 (c * 2)) s)
      (round_16 (bit 8 (c * 2)) (c * 2) r s refl e)

loop_bits-eq-bits_of : (c : ℕ) → loop_bits 8 c ≡ bits_of c
loop_bits-eq-bits_of c = ground arith

pub push_bits_16 :
    (bs : List ℕ) (r s : ℕ)
    → r % 65536 ≡ s % 65536
    → push_bits bs r % 65536 ≡ push_bits bs s % 65536
push_bits_16 [] r s e = e
push_bits_16 (b ∷ bs) r s e = push_bits_16 bs (push b r) (push b s) (push_16 b r s e)

-- `updcrc` pushes the eight bits of its byte into a register of 16 bits, the highest bit first,
-- whatever the byte and whatever stands above bit 15 of the register.
pub updcrc-push_bits : (c r : ℕ) → updcrc c r ≡ push_bits (bits_of c) r % 65536
unfolding updcrc
updcrc-push_bits c r =
    loop_16 8 c r r refl ∙ ap (λ bs. push_bits bs r % 65536) (loop_bits-eq-bits_of c)

pub updcrc-lt : (c r : ℕ) → updcrc c r < 65536
unfolding updcrc
updcrc-lt c r = omega arith
