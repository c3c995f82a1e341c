-- ===== src/Base/Lists.antt =====
-- Lists measured and indexed by native numbers, under the library's names, and arrays that are
-- written in place.
use Prim.Native.Nat.{ℕ, zero, suc, ◌+◌, ◌-◌, ◌≤◌, ◌<◌, min}
use mathlib.Core.Path.{◌≡◌, refl, ap, subst}
use mathlib.Core.List.{List, [], ◌∷◌, ◌++◌}
use native.Mathlib.Omega.{arith}

module _ {ℓ} {A : Type ℓ} where
  abbrev pub length : List A → ℕ
  length [] = 0
  length (x ∷ xs) = suc (length xs)

  abbrev pub get_or : List A → ℕ → A → A
  get_or [] i d = d
  get_or (x ∷ xs) zero d = x
  get_or (x ∷ xs) (suc i) d = get_or xs i d

  abbrev pub take : ℕ → List A → List A
  take zero xs = []
  take (suc n) [] = []
  take (suc n) (x ∷ xs) = x ∷ take n xs

  abbrev pub drop : ℕ → List A → List A
  drop zero xs = xs
  drop (suc n) [] = []
  drop (suc n) (x ∷ xs) = drop n xs

  abbrev pub replicate : ℕ → A → List A
  replicate zero a = []
  replicate (suc n) a = a ∷ replicate n a

  -- `memcpy(xs + i, src, length src)`. What would be written past the end is dropped: that a
  -- write stays in bounds is for its caller to show.
  abbrev pub blit : List A → ℕ → List A → List A
  blit xs zero [] = xs
  blit [] zero (v ∷ src) = []
  blit (x ∷ xs) zero (v ∷ src) = v ∷ blit xs zero src
  blit [] (suc i) src = []
  blit (x ∷ xs) (suc i) src = x ∷ blit xs i src

module _ {ℓ} {A : Type ℓ} where
  pub length-append : (xs ys : List A) → length (xs ++ ys) ≡ length xs + length ys
  length-append [] ys = omega arith
  length-append (x ∷ xs) ys = omega (arith, length-append xs ys)

  pub length-take : (n : ℕ) (xs : List A) → length (take n xs) ≡ min n (length xs)
  length-take zero xs = omega arith
  length-take (suc n) [] = omega arith
  length-take (suc n) (x ∷ xs) = omega (arith, length-take n xs)

  pub length-drop : (n : ℕ) (xs : List A) → length (drop n xs) ≡ length xs - n
  length-drop zero xs = omega arith
  length-drop (suc n) [] = omega arith
  length-drop (suc n) (x ∷ xs) = omega (arith, length-drop n xs)

  pub length-replicate : (n : ℕ) (a : A) → length (replicate n a) ≡ n
  length-replicate zero a = refl
  length-replicate (suc n) a = ap suc (length-replicate n a)

  pub take-append-drop : (n : ℕ) (xs : List A) → take n xs ++ drop n xs ≡ xs
  take-append-drop zero xs = refl
  take-append-drop (suc n) [] = refl
  take-append-drop (suc n) (x ∷ xs) = rw (take-append-drop n xs)

  pub take-all : (n : ℕ) (xs : List A) → length xs ≤ n → take n xs ≡ xs
  take-all zero [] h = refl
  take-all zero (x ∷ xs) h = absurd (omega arith)
  take-all (suc n) [] h = refl
  take-all (suc n) (x ∷ xs) h = ap (◌∷◌ x) (take-all n xs (omega arith))

  pub length-blit : (xs : List A) (i : ℕ) (src : List A) → length (blit xs i src) ≡ length xs
  length-blit xs zero [] = refl
  length-blit [] zero (v ∷ src) = refl
  length-blit [] (suc i) src = refl
  length-blit (x ∷ xs) zero (v ∷ src) = ap suc (length-blit xs zero src)
  length-blit (x ∷ xs) (suc i) src = ap suc (length-blit xs i src)

  -- The prefix that ends with a write in bounds.
  pub take-blit :
      (xs : List A) (i : ℕ) (src : List A)
      → i + length src ≤ length xs
      → take (i + length src) (blit xs i src) ≡ take i xs ++ src
  take-blit [] zero [] h = refl
  take-blit [] zero (v ∷ src) h = absurd (omega arith)
  take-blit [] (suc i) src h = absurd (omega arith)
  take-blit (x ∷ xs) zero [] h = refl
  take-blit (x ∷ xs) zero (v ∷ src) h =
      subst (λ k. take k (v ∷ blit xs 0 src) ≡ v ∷ src)
        (let e : suc (0 + length src) ≡ 0 + suc (length src) = omega arith in e)
        (ap (◌∷◌ v) (take-blit xs zero src (omega arith)))
  take-blit (x ∷ xs) (suc i) src h =
      subst (λ k. take k (x ∷ blit xs i src) ≡ x ∷ (take i xs ++ src))
        (let e : suc (i + length src) ≡ suc i + length src = omega arith in e)
        (ap (◌∷◌ x) (take-blit xs i src (omega arith)))

  -- A write leaves what lies before it.
  pub take-blit_before :
      (xs : List A) (k i : ℕ) (src : List A) → k ≤ i → take k (blit xs i src) ≡ take k xs
  take-blit_before xs zero i src h = refl
  take-blit_before [] (suc k) zero src h = absurd (omega arith)
  take-blit_before [] (suc k) (suc i) src h = refl
  take-blit_before (x ∷ xs) (suc k) zero src h = absurd (omega arith)
  take-blit_before (x ∷ xs) (suc k) (suc i) src h =
      ap (◌∷◌ x) (take-blit_before xs k i src (omega arith))

  pub get_or-take : (n i : ℕ) (xs : List A) (d : A) → i < n → get_or (take n xs) i d ≡ get_or xs i d
  get_or-take zero i xs d h = absurd (omega arith)
  get_or-take (suc n) i [] d h = refl
  get_or-take (suc n) zero (x ∷ xs) d h = refl
  get_or-take (suc n) (suc i) (x ∷ xs) d h = get_or-take n i xs d (omega arith)

  pub take-take : (m n : ℕ) (xs : List A) → m ≤ n → take m (take n xs) ≡ take m xs
  take-take zero n xs h = refl
  take-take (suc m) zero xs h = absurd (omega arith)
  take-take (suc m) (suc n) [] h = refl
  take-take (suc m) (suc n) (x ∷ xs) h = ap (◌∷◌ x) (take-take m n xs (omega arith))

  -- Past the end of the first part, taking and dropping go on in the second.
  pub take-append_add :
      (k n : ℕ) (xs ys : List A) → k ≡ length xs + n → take k (xs ++ ys) ≡ xs ++ take n ys
  take-append_add k n [] ys h = ap (λ j. take j ys) (let e : k ≡ n = omega arith in e)
  take-append_add zero n (x ∷ xs) ys h = absurd (omega arith)
  take-append_add (suc k) n (x ∷ xs) ys h = ap (◌∷◌ x) (take-append_add k n xs ys (omega arith))

  pub drop-append_add :
      (k n : ℕ) (xs ys : List A) → k ≡ length xs + n → drop k (xs ++ ys) ≡ drop n ys
  drop-append_add k n [] ys h = ap (λ j. drop j ys) (let e : k ≡ n = omega arith in e)
  drop-append_add zero n (x ∷ xs) ys h = absurd (omega arith)
  drop-append_add (suc k) n (x ∷ xs) ys h = drop-append_add k n xs ys (omega arith)

  pub take-nil : (n : ℕ) → take {A = A} n [] ≡ []
  take-nil zero = refl
  take-nil (suc n) = refl

  pub drop-all : (n : ℕ) (xs : List A) → length xs ≤ n → drop n xs ≡ []
  drop-all zero [] h = refl
  drop-all zero (x ∷ xs) h = absurd (omega arith)
  drop-all (suc n) [] h = refl
  drop-all (suc n) (x ∷ xs) h = drop-all n xs (omega arith)

  pub take-append_le : (n : ℕ) (xs ys : List A) → n ≤ length xs → take n (xs ++ ys) ≡ take n xs
  take-append_le zero xs ys h = refl
  take-append_le (suc n) [] ys h = absurd (omega arith)
  take-append_le (suc n) (x ∷ xs) ys h = ap (◌∷◌ x) (take-append_le n xs ys (omega arith))

  pub drop-append_le :
      (n : ℕ) (xs ys : List A) → n ≤ length xs → drop n (xs ++ ys) ≡ drop n xs ++ ys
  drop-append_le zero xs ys h = refl
  drop-append_le (suc n) [] ys h = absurd (omega arith)
  drop-append_le (suc n) (x ∷ xs) ys h = drop-append_le n xs ys (omega arith)
