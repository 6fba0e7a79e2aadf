-- ===== src/Base/Slices.antt =====
-- Byte buffers: reading a slice, and overwriting one.
use Prim.Native.Nat.{ℕ, zero, suc, ◌+◌, ◌≤◌}
use mathlib.Core.Path.{◌≡◌, refl, ap, sym, ◌∙◌}
use mathlib.Core.List.{List, [], ◌∷◌, ◌++◌}
use native.Mathlib.Omega.{arith}
use ioc.Base.Lists.{length, take, drop, length-append, length-take, length-drop}

module _ {ℓ} {A : Type ℓ} where
  abbrev pub replicate : ℕ → A → List A
  replicate zero a = []
  replicate (suc n) a = a ∷ replicate n a

  -- `xs[off : off+n]`
  abbrev pub slice : ℕ → ℕ → List A → List A
  slice off n xs = take n (drop off xs)

  -- `copy(xs[off:], bs)`
  unfoldable pub splice : ℕ → List A → List A → List A
  splice zero bs xs = bs ++ drop (length bs) xs
  splice (suc off) bs [] = []
  splice (suc off) bs (x ∷ xs) = x ∷ splice off bs xs

  pub length-replicate : (n : ℕ) (a : A) → length (replicate n a) ≡ n
  length-replicate zero a = refl
  length-replicate (suc n) a = ap suc (length-replicate n a)

  pub length-slice : (off n : ℕ) (xs : List A) → off + n ≤ length xs → length (slice off n xs) ≡ n
  length-slice off n xs h = omega (arith, length-take n (drop off xs), length-drop off xs)

  pub length-splice :
      (off : ℕ) (bs xs : List A)
      → off + length bs ≤ length xs
      → length (splice off bs xs) ≡ length xs
  unfolding splice
  length-splice zero bs xs h =
      omega (arith, length-append bs (drop (length bs) xs), length-drop (length bs) xs)
  length-splice (suc off) bs [] h = refl
  length-splice (suc off) bs (x ∷ xs) h = omega (arith, length-splice off bs xs (omega (arith, h)))

  take-length-append : (bs ys : List A) → take (length bs) (bs ++ ys) ≡ bs
  take-length-append [] ys = refl
  take-length-append (b ∷ bs) ys = ap (◌∷◌ b) (take-length-append bs ys)

  -- what is written is read
  pub slice-splice :
      (off : ℕ) (bs xs : List A) → off ≤ length xs → slice off (length bs) (splice off bs xs) ≡ bs
  unfolding splice
  slice-splice zero bs xs h = take-length-append bs (drop (length bs) xs)
  slice-splice (suc off) bs [] h = absurd (omega (arith, h))
  slice-splice (suc off) bs (x ∷ xs) h = slice-splice off bs xs (omega (arith, h))

  drop-nil : (n : ℕ) → drop {A = A} n [] ≡ []
  drop-nil zero = refl
  drop-nil (suc n) = refl

  drop-append-drop :
      (n : ℕ) (bs xs : List A) → length bs ≤ n → drop n (bs ++ drop (length bs) xs) ≡ drop n xs
  drop-append-drop n [] xs h = refl
  drop-append-drop zero (b ∷ bs) xs h = absurd (omega (arith, h))
  drop-append-drop (suc n) (b ∷ bs) [] h =
      ap (λ ys. drop n (bs ++ ys)) (sym (drop-nil (length bs)))
      ∙ (drop-append-drop n bs [] (omega (arith, h)) ∙ drop-nil n)
  drop-append-drop (suc n) (b ∷ bs) (x ∷ xs) h = drop-append-drop n bs xs (omega (arith, h))

  -- behind what is written, and before it, nothing changes
  pub drop-splice :
      (n off : ℕ) (bs xs : List A) → off + length bs ≤ n → drop n (splice off bs xs) ≡ drop n xs
  unfolding splice
  drop-splice n zero bs xs h = drop-append-drop n bs xs (omega (arith, h))
  drop-splice n (suc off) bs [] h = refl
  drop-splice zero (suc off) bs (x ∷ xs) h = absurd (omega (arith, h))
  drop-splice (suc n) (suc off) bs (x ∷ xs) h = drop-splice n off bs xs (omega (arith, h))

  take-splice : (n off : ℕ) (bs xs : List A) → n ≤ off → take n (splice off bs xs) ≡ take n xs
  unfolding splice
  take-splice zero off bs xs h = refl
  take-splice (suc n) zero bs xs h = absurd (omega (arith, h))
  take-splice (suc n) (suc off) bs [] h = refl
  take-splice (suc n) (suc off) bs (x ∷ xs) h =
      ap (◌∷◌ x) (take-splice n off bs xs (omega (arith, h)))

  pub slice-splice_before :
      (j n off : ℕ) (bs xs : List A) → j + n ≤ off → slice j n (splice off bs xs) ≡ slice j n xs
  unfolding splice
  slice-splice_before zero n off bs xs h = take-splice n off bs xs (omega (arith, h))
  slice-splice_before (suc j) n zero bs xs h = absurd (omega (arith, h))
  slice-splice_before (suc j) n (suc off) bs [] h = refl
  slice-splice_before (suc j) n (suc off) bs (x ∷ xs) h =
      slice-splice_before j n off bs xs (omega (arith, h))

  -- a slice within a prefix of the buffer
  pub slice-take : (j n k : ℕ) (xs : List A) → j + n ≤ k → slice j n (take k xs) ≡ slice j n xs
  slice-take zero zero k xs h = refl
  slice-take zero (suc n) zero xs h = absurd (omega (arith, h))
  slice-take zero (suc n) (suc k) [] h = refl
  slice-take zero (suc n) (suc k) (x ∷ xs) h =
      ap (◌∷◌ x) (slice-take zero n k xs (omega (arith, h)))
  slice-take (suc j) n zero xs h = absurd (omega (arith, h))
  slice-take (suc j) n (suc k) [] h = refl
  slice-take (suc j) n (suc k) (x ∷ xs) h = slice-take j n k xs (omega (arith, h))

  pub slice-append :
      (j n : ℕ) (xs ys : List A) → j + n ≤ length xs → slice j n (xs ++ ys) ≡ slice j n xs
  slice-append zero zero xs ys h = refl
  slice-append zero (suc n) [] ys h = absurd (omega (arith, h))
  slice-append zero (suc n) (x ∷ xs) ys h =
      ap (◌∷◌ x) (slice-append zero n xs ys (omega (arith, h)))
  slice-append (suc j) zero [] ys h = refl
  slice-append (suc j) (suc n) [] ys h = absurd (omega (arith, h))
  slice-append (suc j) n (x ∷ xs) ys h = slice-append j n xs ys (omega (arith, h))

  -- a write that starts within the file may run past its end
  pub le-length-splice :
      (off : ℕ) (bs xs : List A)
      → off ≤ length xs
      → (length xs ≤ length (splice off bs xs)) × (off + length bs ≤ length (splice off bs xs))
  unfolding splice
  le-length-splice zero bs xs h =
      let e = length-append bs (drop (length bs) xs) in
      let d = length-drop (length bs) xs in (omega arith, omega arith)
  le-length-splice (suc off) bs [] h = absurd (omega (arith, h))
  le-length-splice (suc off) bs (x ∷ xs) h =
      let (a, b) = le-length-splice off bs xs (omega (arith, h)) in (omega arith, omega arith)
