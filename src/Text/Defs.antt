-- ===== src/Text/Defs.antt =====
-- C strings in byte arrays, `filesystem::path::filename`, `snprintf("%ld")` and `std::stoi`.
use y_modem_protocol.Base.{
  ℕ, zero, suc, ◌+◌, ◌-◌, ◌*◌, ◌/◌, ◌%◌, ◌^◌, Bool, true, false, ◌&&◌, ◌||◌, ◌==◌, ltb, leb,
  if◌then◌else◌, List, [], ◌∷◌, ◌++◌, Option, none, some,
}
use y_modem_protocol.Base.Int.{ℤ, pos, negsuc}

-- The C string that starts an array: the bytes before the first NUL.
unfoldable pub c_string : List ℕ → List ℕ
c_string [] = []
c_string (b ∷ bs) = if b == 0 then [] else b ∷ c_string bs

unfoldable pub has_slash : List ℕ → Bool
has_slash [] = false
has_slash (b ∷ bs) = b == b'/' || has_slash bs

-- `path(fileName).filename()`: what follows the last slash.
unfoldable pub filename : List ℕ → List ℕ
unfolding has_slash
filename [] = []
filename (b ∷ bs) = if has_slash (b ∷ bs) then filename bs else b ∷ bs

-- The decimal digits of `n`, with fuel above `n`.
unfoldable pub digits_from : ℕ → ℕ → List ℕ
digits_from zero n = []
digits_from (suc fuel) n =
    let rest = digits_from fuel (n / 10) ++ (b'0' + n % 10) ∷ [] in
    if ltb n 10 then (b'0' + n) ∷ [] else rest

-- What `snprintf` with "%ld" prints for a size.
unfoldable pub decimal : ℕ → List ℕ
unfolding digits_from
decimal n = digits_from (suc n) n

abbrev pub is_digit : ℕ → Bool
is_digit c = leb b'0' c && leb c b'9'

abbrev pub is_space : ℕ → Bool
is_space c = c == b' ' || leb 9 c && leb c 13

-- The value of the leading digits, and whether there was one.
unfoldable pub read_digits : ℕ → Bool → List ℕ → Option ℕ
read_digits acc found [] = if found then some acc else none
read_digits acc found (c ∷ cs) =
    let rest = read_digits (acc * 10 + (c - b'0')) true cs in
    if is_digit c then rest else if found then some acc else none

-- `none` stands for the exceptions `invalid_argument` and `out_of_range`.
unfoldable pub to_int : Bool → Option ℕ → Option ℤ
to_int minus none = none
to_int true (some zero) = some (pos 0)
to_int true (some (suc n)) = if ltb n (2 ^ 31) then some (negsuc n) else none
to_int false (some n) = if ltb n (2 ^ 31) then some (pos n) else none

unfoldable pub read_signed : List ℕ → Option ℤ
unfolding read_digits to_int
read_signed [] = none
read_signed (c ∷ cs) =
    if c == b'-'
    then to_int true (read_digits 0 false cs)
    else if c == b'+'
    then to_int false (read_digits 0 false cs)
    else to_int false (read_digits 0 false (c ∷ cs))

-- `std::stoi` in base 10, for a 32-bit `int`.
unfoldable pub stoi : List ℕ → Option ℤ
unfolding read_signed
stoi [] = read_signed []
stoi (c ∷ cs) = let rest = stoi cs in if is_space c then rest else read_signed (c ∷ cs)
