-- ===== src/Storage/Embeddings/Buffers.antt =====
-- internal/storage/embstore.go: which bytes the writes of a `Put` leave alone.
use Prim.Native.Nat.{bit_or, bit_or-bitwise, digits, max}
use ioc.Base.{
  ℕ, zero, suc, ◌+◌, ◌-◌, ◌/◌, ◌^◌, ◌<◌, ◌≤◌, Text, ◌≡◌, ap, ◌∙◌, inl, inr, length, length-append,
  length-take, take, slice, splice, slice-splice_before, slice-append, slice-take, drop-splice,
  length-replicate, le-length-splice, length-splice, ltb, Bool-cases, arith, replicate, ◌++◌,
}
use ioc.Storage.Words.{put_u32, u32_at, get_u32-put_u32, length-put_u32}
use ioc.Storage.Embeddings.{align_pow2, grow, smear, set_count}

or_digits_le : (n a b : ℕ) → a ≤ n → a ≤ digits (λ b. b) max n a b
or_digits_le zero a b h = omega (arith, h)
or_digits_le (suc n) zero b h = omega arith
or_digits_le (suc n) (suc a) b h =
    omega (arith, or_digits_le n (suc a / 2) (b / 2) (omega (arith, h)))

le-bit_or : (a b : ℕ) → a ≤ bit_or a b
le-bit_or a b = omega (arith, bit_or-bitwise a b, or_digits_le a a b (omega arith))

le-smear : (k v : ℕ) → v ≤ smear k v
le-smear k v = le-bit_or v (v / 2 ^ k)

-- `alignPow2` rounds up
pub le-align_pow2 : (n : ℕ) → n ≤ align_pow2 n
unfolding align_pow2
le-align_pow2 n =
    let v1 = smear 1 (n - 1) in
    let v2 = smear 2 v1 in
    let v4 = smear 4 v2 in
    let v8 = smear 8 v4 in
    let h1 = le-smear 1 (n - 1) in
    let h2 = le-smear 2 v1 in
    let h4 = le-smear 4 v2 in
    let h8 = le-smear 8 v4 in let h16 = le-smear 16 v8 in ground (arith, h1, h2, h4, h8, h16)

filled :
    (n : ℕ) (xs : Text)
    → (n ≤ length (xs ++ replicate (align_pow2 n - length xs) 0))
      × (length xs ≤ length (xs ++ replicate (align_pow2 n - length xs) 0))
filled n xs =
    let pad : Text = replicate (align_pow2 n - length xs) 0 in
    let l : length (xs ++ pad) ≡ length xs + length pad = length-append xs pad in
    let r : length pad ≡ align_pow2 n - length xs = length-replicate (align_pow2 n - length xs) 0 in
    let a = le-align_pow2 n in (omega arith, omega arith)

pub le-length-grow :
    (n : ℕ) (xs : Text) → (n ≤ length (grow n xs)) × (length xs ≤ length (grow n xs))
unfolding grow
le-length-grow n xs = elim (Bool-cases (ltb (length xs) n)) [
  | inl t ↦ rw t (filled n xs)
  | inr f ↦ rw f (ground (arith, f), omega arith)
]

-- From `lo` on and below `hi`, `ys` holds the bytes of `xs`.
abbrev pub Keeps : ℕ → ℕ → Text → Text → Type 0
Keeps lo hi xs ys = (j k : ℕ) → lo ≤ j → j + k ≤ hi → slice j k ys ≡ slice j k xs

pub grow-Keeps : (n hi : ℕ) (xs : Text) → hi ≤ length xs → Keeps 0 hi xs (grow n xs)
unfolding grow
grow-Keeps n hi xs h j k p q = elim (Bool-cases (ltb (length xs) n)) [
  | inl t ↦ rw t (slice-append j k xs _ (omega (arith, h, q)))
  | inr f ↦ rw f
]

pub splice-Keeps : (off : ℕ) (bs xs : Text) → Keeps 0 off xs (splice off bs xs)
splice-Keeps off bs xs j k p q = slice-splice_before j k off bs xs q

pub set_count-Keeps : (n hi : ℕ) (xs : Text) → Keeps 4 hi xs (set_count n xs)
set_count-Keeps n hi xs j k p q =
    ap (take k) (drop-splice j 0 (put_u32 n) xs (omega (arith, p, length-put_u32 n)))

pub length-set_count : (n : ℕ) (xs : Text) → 4 ≤ length xs → length (set_count n xs) ≡ length xs
length-set_count n xs h = length-splice 0 (put_u32 n) xs (omega (arith, h, length-put_u32 n))

pub u32_at-set_count : (n : ℕ) (xs : Text) → n < 2 ^ 32 → u32_at 0 (set_count n xs) ≡ n
unfolding splice put_u32
u32_at-set_count n xs h = get_u32-put_u32 n _ h

pub Keeps-trans :
    (lo mid hi hi' : ℕ) (xs ys zs : Text)
    → lo ≤ mid
    → hi' ≤ hi
    → Keeps lo hi xs ys
    → Keeps mid hi' ys zs
    → Keeps mid hi' xs zs
Keeps-trans lo mid hi hi' xs ys zs p q f g j k a b =
    g j k a b ∙ f j k (omega (arith, p, a)) (omega (arith, q, b))

-- the header that `Put` writes: `s.data[0:embHeaderSize]`
module _ (d xs : Text) (h : 16 ≤ length d) where
  header_length : length (take 16 d) ≡ 16
  header_length = omega (arith, length-take 16 d, h)

  pub header-Keeps : (hi : ℕ) → Keeps 16 hi xs (splice 0 (take 16 d) xs)
  header-Keeps hi j k p q =
      ap (take k) (drop-splice j 0 (take 16 d) xs (omega (arith, p, header_length)))

  pub header_written : Keeps 0 16 d (splice 0 (take 16 d) xs)
  unfolding splice
  header_written j k p q =
      slice-append j k (take 16 d) _ (omega (arith, q, header_length)) ∙ slice-take j k 16 d q

  pub le-header_length : length xs ≤ length (splice 0 (take 16 d) xs)
  le-header_length = (le-length-splice 0 (take 16 d) xs (omega arith)).0
