-- ===== src/Crc/Detect.antt =====
-- What the CRC detects: `updcrc` is one-to-one in the register, and tells apart the registers and
-- bits that differ within 16 digits.
use Prim.Native.Nat.{bit_xor}
use y_modem_protocol.Base.{
  ℕ, suc, ◌+◌, ◌*◌, ◌/◌, ◌%◌, ◌≡◌, ◌≤◌, ◌<◌, ◌≢◌, ◌⊎◌, inl, inr, refl, sym, ap₂, ◌∙◌, ◌==◌,
  if◌then◌else◌, List, [], ◌∷◌, ◌++◌, length, arith,
}
use y_modem_protocol.Base.Bits.{
  bit_xor-mod, bit_xor-div, bit_xor_cancel, halves, halves_more, halves-bit_xor, low_16,
  low-bit_xor_cancel,
}
use native.Mathlib.Decide.{ℕ_discrete}
use native.Mathlib.Nat.{add-zero, add-suc, suc-add}
use y_modem_protocol.Crc.Defs.{updcrc, bit}
use y_modem_protocol.Crc.Register.{push, push_bits, bits_of, updcrc-push_bits, push_bits_16}

xor_16_cancel : (a b c : ℕ) → bit_xor a c % 65536 ≡ bit_xor b c % 65536 → a % 65536 ≡ b % 65536
xor_16_cancel a b c e = omega (
  arith,
  low_16 a,
  low_16 b,
  low-bit_xor_cancel 16 a b c (low_16 (bit_xor a c) ∙ e ∙ sym (low_16 (bit_xor b c))),
)

push_injective : (b r s : ℕ) → push b r % 65536 ≡ push b s % 65536 → r % 65536 ≡ s % 65536
push_injective b r s e = ground (
  arith,
  xor_16_cancel (2 * r + b) (2 * s + b) 0x1021,
  bit_xor-mod (2 * r + b) 0x1021,
  bit_xor-mod (2 * s + b) 0x1021,
)

push_bits_injective :
    (bs : List ℕ) (r s : ℕ)
    → push_bits bs r % 65536 ≡ push_bits bs s % 65536
    → r % 65536 ≡ s % 65536
push_bits_injective [] r s e = e
push_bits_injective (b ∷ bs) r s e =
    push_injective b r s (push_bits_injective bs (push b r) (push b s) e)

pub updcrc_injective : (c r s : ℕ) → r < 65536 → s < 65536 → updcrc c r ≡ updcrc c s → r ≡ s
updcrc_injective c r s p q e = omega (
  arith,
  push_bits_injective (bits_of c) r s (sym (updcrc-push_bits c r) ∙ e ∙ updcrc-push_bits c s),
)

same_top : (k r s : ℕ) → k ≤ 15 → halves k r ≡ halves k s → bit 15 r ≡ bit 15 s
same_top k r s h e = omega (arith, halves_more k 15 r s h e)

push-div : (b r : ℕ) → b < 2 → push b r / 2 ≡ (if bit 15 r == 1 then bit_xor r 0x810 else r)
push-div b r p = ground (arith, bit_xor-div (2 * r + b) 0x1021)

push-halves :
    (k b c r s : ℕ)
    → b < 2
    → c < 2
    → k ≤ 15
    → halves k r ≡ halves k s
    → halves (suc k) (push b r) ≡ halves (suc k) (push c s)
push-halves k b c r s p q h e =
    rw (push-div b r p, push-div c s q, same_top k r s h e)
      (ground (arith, halves-bit_xor k r 0x810, halves-bit_xor k s 0x810))

push_ne :
    (k b c r s : ℕ)
    → b < 2
    → c < 2
    → k ≤ 15
    → halves k r ≡ halves k s
    → (r ≢ s) ⊎ (b ≢ c)
    → push b r ≢ push c s
push_ne k b c r s p q h e d =
    ground (arith, same_top k r s h e, bit_xor_cancel (2 * r + b) (2 * s + c) 0x1021)

abbrev pub AreBits : List ℕ → Type 0
AreBits [] = Unit {0}
AreBits (b ∷ bs) = (b < 2) × AreBits bs

-- Two runs of at most 16 - k bits, from registers that agree but for `k` low digits.
push_bits_ne :
    (k : ℕ) (xs ys : List ℕ) (r s : ℕ)
    → length xs ≡ length ys
    → k + length xs ≤ 16
    → AreBits xs
    → AreBits ys
    → halves k r ≡ halves k s
    → (r ≢ s) ⊎ (xs ≢ ys)
    → (push_bits xs r ≢ push_bits ys s)
      × (halves (k + length xs) (push_bits xs r) ≡ halves (k + length xs) (push_bits ys s))
push_bits_ne k [] [] r s l h p q e (inl d) = (d, rw (add-zero k) e)
push_bits_ne k [] [] r s l h p q e (inr d) = absurd (d refl)
push_bits_ne k [] (y ∷ ys) r s l h p q e d = absurd (omega arith)
push_bits_ne k (x ∷ xs) [] r s l h p q e d = absurd (omega arith)
push_bits_ne k (x ∷ xs) (y ∷ ys) r s l h p q e d =
    rw (add-suc k (length xs), ← suc-add k (length xs))
      (push_bits_ne (suc k) xs ys (push x r) (push y s) (omega arith) (omega arith) p.1 q.1
        (push-halves k x y r s p.0 q.0 (omega arith) e)
        (elim (ℕ_discrete x y) [
          | yes same ↦ elim d [
            | inl apart ↦ inl (push_ne k x y r s p.0 q.0 (omega arith) e (inl apart))
            | inr apart ↦ inr (λ rest. apart (ap₂ ◌∷◌ same rest))
          ]
          | no other ↦ inl (push_ne k x y r s p.0 q.0 (omega arith) e (inr other))
        ]))

push_bits-append : (xs ys : List ℕ) (r : ℕ) → push_bits (xs ++ ys) r ≡ push_bits ys (push_bits xs r)
push_bits-append [] ys r = refl
push_bits-append (x ∷ xs) ys r = push_bits-append xs ys (push x r)

bits_of-AreBits : (c : ℕ) → AreBits (bits_of c)
bits_of-AreBits c = omega arith

bits_of_injective : (a b : ℕ) → a < 256 → b < 256 → bits_of a ≡ bits_of b → a ≡ b
bits_of_injective a b p q e = ground arith

-- From one register, two different bytes lead to two different registers.
pub updcrc_byte_ne : (a b r : ℕ) → a < 256 → b < 256 → a ≢ b → updcrc a r ≢ updcrc b r
updcrc_byte_ne a b r p q d e = omega (
  arith,
  push_bits_ne 0 (bits_of a) (bits_of b) r r refl (omega arith) (bits_of-AreBits a)
      (bits_of-AreBits b) refl (inr (λ f. d (bits_of_injective a b p q f))),
  updcrc-push_bits a r,
  updcrc-push_bits b r,
)

word_of : ℕ → ℕ → List ℕ
word_of a c = bits_of a ++ bits_of c

word_of-AreBits : (a c : ℕ) → AreBits (word_of a c)
unfolding word_of
word_of-AreBits a c = omega arith

word_of_injective :
    (a c b d : ℕ)
    → a < 256
    → c < 256
    → b < 256
    → d < 256
    → word_of a c ≡ word_of b d
    → (a ≡ b) × (c ≡ d)
unfolding word_of
word_of_injective a c b d p q u v e = (ground arith, ground arith)

updcrc_word : (a c r : ℕ) → updcrc c (updcrc a r) ≡ push_bits (word_of a c) r % 65536
unfolding word_of
updcrc_word a c r =
    rw (updcrc-push_bits c (updcrc a r), push_bits-append (bits_of a) (bits_of c) r)
      (push_bits_16 (bits_of c) (updcrc a r) (push_bits (bits_of a) r)
        (omega (arith, updcrc-push_bits a r)))

-- So do two different words of two bytes.
pub updcrc_word_ne :
    (a c b d r : ℕ)
    → a < 256
    → c < 256
    → b < 256
    → d < 256
    → (a ≢ b) ⊎ (c ≢ d)
    → updcrc c (updcrc a r) ≢ updcrc d (updcrc b r)
unfolding word_of
updcrc_word_ne a c b d r p q u v apart e = omega (
  arith,
  push_bits_ne 0 (word_of a c) (word_of b d) r r refl (omega arith) (word_of-AreBits a c)
      (word_of-AreBits b d) refl
      (inr (λ f. elim apart [
        | inl other ↦ other (word_of_injective a c b d p q u v f).0
        | inr other ↦ other (word_of_injective a c b d p q u v f).1
      ])),
  updcrc_word a c r,
  updcrc_word b d r,
)
