-- ===== src/Medium/Arrays.antt =====
-- What the medium does to its array, and the same on the bytes by their place in the stream.
use y_modem_protocol.Base.{
  false, ℕ, zero, suc, ◌+◌, ◌-◌, ◌≤◌, ◌<◌, ◌≡◌, refl, sym, ap, ◌∙◌, ◌==◌, if◌then◌else◌, List, [],
  ◌∷◌, ◌++◌, append_assoc, length, take, drop, get_or, replicate, write_at, arith,
}
use y_modem_protocol.Block.Defs.{complement}
use y_modem_protocol.Peer.Defs.{can}
use y_modem_protocol.Medium.Defs.{medium_buf_sz, move_down}

-- The byte at place `c` of the stream is complemented; `pos` is the place of the first byte here.
unfoldable pub flipped : ℕ → ℕ → List ℕ → List ℕ
flipped c pos [] = []
flipped c pos (b ∷ bs) = (if pos == c then complement b else b) ∷ flipped c (suc pos) bs

-- The byte at place `d` is left out.
unfoldable pub omitted : ℕ → ℕ → List ℕ → List ℕ
omitted d pos [] = []
omitted d pos (b ∷ bs) = let rest = omitted d (suc pos) bs in if pos == d then rest else b ∷ rest

abbrev pub change : ℕ → List ℕ → List ℕ
change i buf = write_at i (complement (get_or buf i 0) ∷ []) buf

pub length-flipped : (c pos : ℕ) (xs : List ℕ) → length (flipped c pos xs) ≡ length xs
unfolding flipped
length-flipped c pos [] = refl
length-flipped c pos (x ∷ xs) = ap suc (length-flipped c (suc pos) xs)

-- Outside of the list nothing changes.
pub flipped_before : (c pos : ℕ) (xs : List ℕ) → c < pos → flipped c pos xs ≡ xs
unfolding flipped
flipped_before c pos [] h = refl
flipped_before c pos (x ∷ xs) h = ground (arith, flipped_before c (suc pos) xs)

pub flipped_behind : (c pos : ℕ) (xs : List ℕ) → pos + length xs ≤ c → flipped c pos xs ≡ xs
unfolding flipped
flipped_behind c pos [] h = refl
flipped_behind c pos (x ∷ xs) h = ground (arith, flipped_behind c (suc pos) xs)

pub omitted_before : (d pos : ℕ) (xs : List ℕ) → d < pos → omitted d pos xs ≡ xs
unfolding omitted
omitted_before d pos [] h = refl
omitted_before d pos (x ∷ xs) h = ground (arith, omitted_before d (suc pos) xs)

pub omitted_behind : (d pos : ℕ) (xs : List ℕ) → pos + length xs ≤ d → omitted d pos xs ≡ xs
unfolding omitted
omitted_behind d pos [] h = refl
omitted_behind d pos (x ∷ xs) h = ground (arith, omitted_behind d (suc pos) xs)

-- Inside, it is the change of an array at an index.
pub flipped_inside :
    (i pos : ℕ) (xs : List ℕ) → i < length xs → flipped (pos + i) pos xs ≡ change i xs
unfolding flipped
flipped_inside i pos [] h = absurd (omega arith)
flipped_inside zero pos (x ∷ xs) h = ground (arith, flipped_before (pos + 0) (suc pos) xs)
flipped_inside (suc i) pos (x ∷ xs) h =
    let here : (pos == pos + suc i) ≡ false = ground arith in
    let moved : pos + suc i ≡ suc pos + i = omega arith in
    rw here (
      ap (λ t. x ∷ t)
        (ap (λ c. flipped c (suc pos) xs) moved ∙ flipped_inside i (suc pos) xs (omega arith)))

pub omitted_inside :
    (i pos : ℕ) (xs : List ℕ)
    → i < length xs
    → omitted (pos + i) pos xs ≡ take i xs ++ drop (suc i) xs
unfolding omitted
omitted_inside i pos [] h = absurd (omega arith)
omitted_inside zero pos (x ∷ xs) h = ground (arith, omitted_before (pos + 0) (suc pos) xs)
omitted_inside (suc i) pos (x ∷ xs) h =
    let here : (pos == pos + suc i) ≡ false = ground arith in
    let moved : pos + suc i ≡ suc pos + i = omega arith in
    rw here (
      ap (λ t. x ∷ t)
        (ap (λ d. omitted d (suc pos) xs) moved ∙ omitted_inside i (suc pos) xs (omega arith)))

pub length-omitted :
    (i pos : ℕ) (xs : List ℕ) → i < length xs → length (omitted (pos + i) pos xs) ≡ length xs - 1
unfolding omitted
length-omitted i pos [] h = absurd (omega arith)
length-omitted zero pos (x ∷ xs) h = ground (arith, omitted_before (pos + 0) (suc pos) xs)
length-omitted (suc i) pos (x ∷ xs) h =
    let here : (pos == pos + suc i) ≡ false = ground arith in
    let moved : pos + suc i ≡ suc pos + i = omega arith in
    rw here (
      omega (
        arith,
        ap (λ d. length (omitted d (suc pos) xs)) moved,
        length-omitted i (suc pos) xs (omega arith),
      ))

-- The array: the bytes received, and CANs behind them.
pub write-front :
    (xs : List ℕ) (n k : ℕ)
    → length xs + k ≡ n
    → write_at 0 xs (replicate n can) ≡ xs ++ replicate k can
write-front [] n k h = ap (λ t. replicate t can) (omega arith)
write-front (x ∷ xs) zero k h = absurd (omega arith)
write-front (x ∷ xs) (suc n) k h = ap (λ t. x ∷ t) (write-front xs n k (omega arith))

pub change-append :
    (i : ℕ) (xs ys : List ℕ) → i < length xs → change i (xs ++ ys) ≡ change i xs ++ ys
change-append i [] ys h = absurd (omega arith)
change-append zero (x ∷ xs) ys h = refl
change-append (suc i) (x ∷ xs) ys h = ap (λ t. x ∷ t) (change-append i xs ys (omega arith))

last_can :
    (xs : List ℕ) (k i : ℕ)
    → length xs ≤ i
    → i < length xs + k
    → get_or (xs ++ replicate k can) i 0 ≡ can
last_can [] zero i h l = absurd (omega arith)
last_can [] (suc k) zero h l = refl
last_can [] (suc k) (suc i) h l = last_can [] k i (omega arith) (omega arith)
last_can (x ∷ xs) k zero h l = absurd (omega arith)
last_can (x ∷ xs) k (suc i) h l = last_can xs k i (omega arith) (omega arith)

cans_end : (k : ℕ) → replicate k can ++ can ∷ [] ≡ replicate (suc k) can
cans_end zero = refl
cans_end (suc k) = ap (λ t. can ∷ t) (cans_end k)

take-front : (i : ℕ) (xs ys : List ℕ) → i ≤ length xs → take i (xs ++ ys) ≡ take i xs
take-front zero xs ys h = refl
take-front (suc i) [] ys h = absurd (omega arith)
take-front (suc i) (x ∷ xs) ys h = ap (λ t. x ∷ t) (take-front i xs ys (omega arith))

drop-front : (i : ℕ) (xs ys : List ℕ) → i ≤ length xs → drop i (xs ++ ys) ≡ drop i xs ++ ys
drop-front zero xs ys h = refl
drop-front (suc i) [] ys h = absurd (omega arith)
drop-front (suc i) (x ∷ xs) ys h = drop-front i xs ys (omega arith)

pub move_down-append :
    (i : ℕ) (xs : List ℕ) (k : ℕ)
    → i < length xs
    → 0 < k
    → length xs + k ≡ medium_buf_sz
    → move_down i (xs ++ replicate k can) ≡ (take i xs ++ drop (suc i) xs) ++ replicate (suc k) can
move_down-append i xs k h p full =
    rw
      (
        take-front i xs (replicate k can) (omega arith),
        drop-front (suc i) xs (replicate k can) (omega arith),
        last_can xs k (medium_buf_sz - 1) (omega arith) (omega arith),
        append_assoc (drop (suc i) xs) (replicate k can) (can ∷ []),
        cans_end k,
      )
      (sym (append_assoc (take i xs) (drop (suc i) xs) (replicate (suc k) can)))

pub take_glitches :
    (xs : List ℕ) (g k n : ℕ)
    → g ≤ k
    → n ≡ length xs + g
    → take n (xs ++ replicate k can) ≡ xs ++ replicate g can
take_glitches [] zero k zero h e = refl
take_glitches [] (suc g) zero n h e = absurd (omega arith)
take_glitches [] (suc g) (suc k) (suc n) h e =
    ap (λ t. can ∷ t) (take_glitches [] g k n (omega arith) (omega arith))
take_glitches (x ∷ xs) g k (suc n) h e = ap (λ t. x ∷ t) (take_glitches xs g k n h (omega arith))
take_glitches xs g k n h e = absurd (omega arith)

pub take_first : (n : ℕ) (xs : List ℕ) → take 1 xs ++ take n (drop 1 xs) ≡ take (suc n) xs
take_first zero [] = refl
take_first (suc n) [] = refl
take_first n (x ∷ xs) = refl
