-- ===== src/Text/Decimal.antt =====
-- Printing a size and reading it back.
use y_modem_protocol.Base.{
  ℕ, zero, suc, ◌+◌, ◌/◌, ◌%◌, ◌^◌, ◌≤◌, ◌<◌, ◌≡◌, refl, ◌∙◌, Bool, true, false, ltb, if◌then◌else◌,
  List, [], ◌∷◌, ◌++◌, append_assoc, append-nil, none, some, length, arith, inl, inr, Bool-cases,
}
use y_modem_protocol.Base.Int.{pos}
use y_modem_protocol.Text.Defs.{digits_from, decimal, read_digits, to_int, stoi, c_string}

-- The digits of `n` are read as `n`, whatever text follows them.
pub read_digits-decimal :
    (fuel n : ℕ) (found : Bool) (rest : List ℕ)
    → n < fuel
    → read_digits 0 found (digits_from fuel n ++ rest) ≡ read_digits n true rest
unfolding read_digits digits_from
read_digits-decimal zero n found rest h = absurd (omega arith)
read_digits-decimal (suc fuel) n found rest h = ground (
  arith,
  append_assoc (digits_from fuel (n / 10)) ((b'0' + n % 10) ∷ []) rest,
  read_digits-decimal fuel (n / 10) found ((b'0' + n % 10) ∷ rest),
)

digits_head :
    (fuel n : ℕ)
    → n < fuel
    → (d : ℕ) × (ds : List ℕ) × (digits_from fuel n ≡ d ∷ ds) × (48 ≤ d) × (d ≤ 57)
unfolding digits_from
digits_head zero n h = absurd (omega arith)
digits_head (suc fuel) n h = elim (Bool-cases (ltb n 10)) [
  | inl small ↦ rw small (b'0' + n, [], refl, omega arith, ground arith)
  | inr large ↦
      let (d, ds, e, lo, hi) = digits_head fuel (n / 10) (ground arith) in
      rw (large, e) (d, ds ++ (b'0' + n % 10) ∷ [], refl, lo, hi)
]

read_digits-end : (n : ℕ) → read_digits n true [] ≡ some n
unfolding read_digits
read_digits-end n = refl

read_decimal : (n : ℕ) → read_digits 0 false (digits_from (suc n) n) ≡ some n
read_decimal n =
    rw (← append-nil (digits_from (suc n) n))
      (read_digits-decimal (suc n) n false [] (omega arith) ∙ read_digits-end n)

stoi_digits :
    (d n : ℕ) (ds : List ℕ)
    → 48 ≤ d
    → d ≤ 57
    → read_digits 0 false (d ∷ ds) ≡ some n
    → stoi (d ∷ ds) ≡ to_int false (some n)
unfolding stoi
stoi_digits d n ds lo hi e = ground arith

-- `stoi` reads back the size that `snprintf` printed, if it is an `int`, and throws otherwise.
pub stoi-decimal : (n : ℕ) → stoi (decimal n) ≡ (if ltb n (2 ^ 31) then some (pos n) else none)
unfolding decimal to_int
stoi-decimal n =
    let (d, ds, e, lo, hi) = digits_head (suc n) n (omega arith) in
    let r : read_digits 0 false (d ∷ ds) ≡ some n = rw (← e) (read_decimal n) in
    rw e (stoi_digits d n ds lo hi r)

-- No byte of the text is NUL.
abbrev pub IsText : List ℕ → Type 0
IsText [] = Unit {0}
IsText (b ∷ bs) = (0 < b) × IsText bs

IsText-append : (xs ys : List ℕ) → IsText xs → IsText ys → IsText (xs ++ ys)
IsText-append [] ys p q = q
IsText-append (x ∷ xs) ys p q = (p.0, IsText-append xs ys p.1 q)

digits_from-IsText : (fuel n : ℕ) → IsText (digits_from fuel n)
unfolding digits_from
digits_from-IsText zero n = tt
digits_from-IsText (suc fuel) n = elim (Bool-cases (ltb n 10)) [
  | inl small ↦ rw small (omega arith, tt)
  | inr large ↦ rw large (
      IsText-append (digits_from fuel (n / 10)) ((b'0' + n % 10) ∷ [])
        (digits_from-IsText fuel (n / 10)) (omega arith, tt))
]

pub decimal-IsText : (n : ℕ) → IsText (decimal n)
unfolding decimal
decimal-IsText n = digits_from-IsText (suc n) n

-- A text in an array ends at the NUL behind it.
pub c_string-append : (name rest : List ℕ) → IsText name → c_string (name ++ (0 ∷ rest)) ≡ name
unfolding c_string
c_string-append [] rest p = refl
c_string-append (b ∷ name) rest p = ground (arith, c_string-append name rest p.1)

-- There is at least one digit.
pub decimal-pos : (n : ℕ) → 0 < length (decimal n)
unfolding decimal
decimal-pos n = let (d, ds, e, lo, hi) = digits_head (suc n) n (omega arith) in rw e (omega arith)
