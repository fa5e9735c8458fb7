-- ===== src/Base/Lists.antt =====
-- Arrays and files as lists, measured and indexed by native numbers.
use Prim.Native.Nat.{ℕ, zero, suc, ◌+◌, ◌-◌, ◌≤◌, ◌<◌, min}
use mathlib.Core.Path.{◌≡◌, refl, ap, sym, ◌∙◌}
use mathlib.Core.List.{List, [], ◌∷◌, ◌++◌, append-nil}
use native.Mathlib.Omega.{arith}

module _ {ℓ} {A : Type ℓ} where
  abbrev pub length : List A → ℕ
  length [] = 0
  length (x ∷ xs) = suc (length xs)

  abbrev pub get_or : List A → ℕ → A → A
  get_or [] i d = d
  get_or (x ∷ xs) zero d = x
  get_or (x ∷ xs) (suc i) d = get_or xs i d

  abbrev pub take : ℕ → List A → List A
  take zero xs = []
  take (suc n) [] = []
  take (suc n) (x ∷ xs) = x ∷ take n xs

  abbrev pub drop : ℕ → List A → List A
  drop zero xs = xs
  drop (suc n) [] = []
  drop (suc n) (x ∷ xs) = drop n xs

  abbrev pub replicate : ℕ → A → List A
  replicate zero a = []
  replicate (suc n) a = a ∷ replicate n a

  -- `memcpy(dst, src, length src)`; what would fall past the end of the array is left out.
  abbrev pub overwrite : List A → List A → List A
  overwrite [] dst = dst
  overwrite (x ∷ src) [] = []
  overwrite (x ∷ src) (y ∷ dst) = x ∷ overwrite src dst

  -- `memcpy(&dst[i], src, length src)`.
  abbrev pub write_at : ℕ → List A → List A → List A
  write_at zero src dst = overwrite src dst
  write_at (suc i) src [] = []
  write_at (suc i) src (y ∷ dst) = y ∷ write_at i src dst

  pub length-append : (xs ys : List A) → length (xs ++ ys) ≡ length xs + length ys
  length-append [] ys = omega arith
  length-append (x ∷ xs) ys = omega (arith, length-append xs ys)

  pub length-take : (n : ℕ) (xs : List A) → length (take n xs) ≡ min n (length xs)
  length-take zero xs = omega arith
  length-take (suc n) [] = omega arith
  length-take (suc n) (x ∷ xs) = omega (arith, length-take n xs)

  pub length-drop : (n : ℕ) (xs : List A) → length (drop n xs) ≡ length xs - n
  length-drop zero xs = omega arith
  length-drop (suc n) [] = omega arith
  length-drop (suc n) (x ∷ xs) = omega (arith, length-drop n xs)

  pub length-replicate : (n : ℕ) (a : A) → length (replicate n a) ≡ n
  length-replicate zero a = refl
  length-replicate (suc n) a = ap suc (length-replicate n a)

  pub length-overwrite : (src dst : List A) → length (overwrite src dst) ≡ length dst
  length-overwrite [] dst = refl
  length-overwrite (x ∷ src) [] = refl
  length-overwrite (x ∷ src) (y ∷ dst) = ap suc (length-overwrite src dst)

  pub length-write_at : (i : ℕ) (src dst : List A) → length (write_at i src dst) ≡ length dst
  length-write_at zero src dst = length-overwrite src dst
  length-write_at (suc i) src [] = refl
  length-write_at (suc i) src (y ∷ dst) = ap suc (length-write_at i src dst)

  pub take-append-drop : (n : ℕ) (xs : List A) → take n xs ++ drop n xs ≡ xs
  take-append-drop zero xs = refl
  take-append-drop (suc n) [] = refl
  take-append-drop (suc n) (x ∷ xs) = rw (take-append-drop n xs)

  pub take-append : (xs ys : List A) (n : ℕ) → n ≡ length xs → take n (xs ++ ys) ≡ xs
  take-append [] ys zero h = refl
  take-append [] ys (suc n) h = absurd (omega arith)
  take-append (x ∷ xs) ys zero h = absurd (omega arith)
  take-append (x ∷ xs) ys (suc n) h = ap (◌∷◌ x) (take-append xs ys n (omega arith))

  pub drop-append : (xs ys : List A) (n : ℕ) → n ≡ length xs → drop n (xs ++ ys) ≡ ys
  drop-append [] ys zero h = refl
  drop-append [] ys (suc n) h = absurd (omega arith)
  drop-append (x ∷ xs) ys zero h = absurd (omega arith)
  drop-append (x ∷ xs) ys (suc n) h = drop-append xs ys n (omega arith)

  pub take_all : (n : ℕ) (xs : List A) → length xs ≤ n → take n xs ≡ xs
  take_all zero [] h = refl
  take_all zero (x ∷ xs) h = absurd (omega arith)
  take_all (suc n) [] h = refl
  take_all (suc n) (x ∷ xs) h = ap (◌∷◌ x) (take_all n xs (omega arith))

  pub overwrite-append :
      (src dst rest : List A) → length src ≡ length dst → overwrite src (dst ++ rest) ≡ src ++ rest
  overwrite-append [] [] rest h = refl
  overwrite-append [] (y ∷ dst) rest h = absurd (omega arith)
  overwrite-append (x ∷ src) [] rest h = absurd (omega arith)
  overwrite-append (x ∷ src) (y ∷ dst) rest h =
      ap (◌∷◌ x) (overwrite-append src dst rest (omega arith))

  -- A write that covers the middle of an array.
  pub write_at-append :
      (pre src mid post : List A) (i : ℕ)
      → i ≡ length pre
      → length src ≡ length mid
      → write_at i src (pre ++ (mid ++ post)) ≡ pre ++ (src ++ post)
  write_at-append [] src mid post zero h k = overwrite-append src mid post k
  write_at-append [] src mid post (suc i) h k = absurd (omega arith)
  write_at-append (x ∷ pre) src mid post zero h k = absurd (omega arith)
  write_at-append (x ∷ pre) src mid post (suc i) h k =
      ap (◌∷◌ x) (write_at-append pre src mid post i (omega arith) k)

module _ {ℓ} {A : Type ℓ} where
  -- A write that covers the end of an array.
  pub write_at-append_end :
      (pre src old : List A) (i : ℕ)
      → i ≡ length pre
      → length src ≡ length old
      → write_at i src (pre ++ old) ≡ pre ++ src
  write_at-append_end pre src old i h k =
      ap (λ t. write_at i src (pre ++ t)) (sym (append-nil old))
      ∙ write_at-append pre src old [] i h k
      ∙ ap (λ t. pre ++ t) (append-nil src)

  -- A list cut after its first `n` elements.
  pub split_at :
      (n : ℕ) (xs : List A)
      → n ≤ length xs
      → (front : List A) × (back : List A) × (xs ≡ front ++ back) × (length front ≡ n)
  split_at n xs h =
      (take n xs, drop n xs, sym (take-append-drop n xs), omega (arith, length-take n xs))

-- Every byte of the list is below 256.
abbrev pub AreBytes : List ℕ → Type 0
AreBytes [] = Unit {0}
AreBytes (x ∷ xs) = (x < 256) × AreBytes xs
