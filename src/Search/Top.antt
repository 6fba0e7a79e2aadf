-- ===== src/Search/Top.antt =====
-- internal/search: what the first results of a search are.
use Prim.Native.Nat.{min}
use mathlib.Core.List.{Perm}
use ioc.Base.{
  ℕ, zero, suc, true, false, not, ◌||◌, List, [], ◌∷◌, ◌++◌, Text, ◌≡◌, refl, ap, inl, inr, All,
  Bool-cases, arith, length, take, drop, ltb, text_lt, text_lt_trans, length-take, ◌==◌,
}
use ioc.Core.Floats.{Floats}
use ioc.Search.{Ranked, before, sort_stable, cut, search, score_all}
use ioc.Search.Sorting.{IsSorted, sort_stable-Perm, length-sort_stable, sort_stable-IsSorted}

append_nil : {A : Type 0} (xs : List A) → xs ++ [] ≡ xs
append_nil [] = refl
append_nil (x ∷ xs) = ap (◌∷◌ x) (append_nil xs)

-- What IEEE 754 says of the comparisons of numbers that are not NaN.
pub record NumberOrder (f : Floats) : Type 1 where
  pub IsNumber : f.Float → Type 0
  pub eq_iff_neither :
      (a b : f.Float) → IsNumber a → IsNumber b → f.eq a b ≡ not (f.lt a b || f.lt b a)
  pub lt_asymm : (a b : f.Float) → IsNumber a → IsNumber b → f.lt a b ≡ true → f.lt b a ≡ false
  pub lt_chain :
      (a b c : f.Float)
      → IsNumber a
      → IsNumber b
      → IsNumber c
      → f.lt a b ≡ false
      → f.lt b c ≡ false
      → f.lt a c ≡ false

-- `results` are the first `k` of all the entries in order: nothing left out, and nothing behind
-- another, comes before one that is ahead of it.
pub AreTop : ⦃f : Floats⦄ → ℕ → List (Ranked f.Float) → List (Ranked f.Float) → Type 0
AreTop ⦃f⦄ k results entries =
    (length results ≡ min k (length entries))
    × (rest : List (Ranked f.Float)) × Perm (results ++ rest) entries
    × IsSorted before (results ++ rest)

take-append-drop {ℓ} : {A : Type ℓ} (n : ℕ) (xs : List A) → take n xs ++ drop n xs ≡ xs
take-append-drop zero xs = refl
take-append-drop (suc n) [] = refl
take-append-drop (suc n) (x ∷ xs) = ap (◌∷◌ x) (take-append-drop n xs)

text_lt_asymm : (s t : Text) → text_lt s t ≡ true → text_lt t s ≡ false
unfolding text_lt
text_lt_asymm s [] p = cc
text_lt_asymm [] (b ∷ t) p = refl
text_lt_asymm (a ∷ s) (b ∷ t) p = ground (arith, p, text_lt_asymm s t)

module _ ⦃f : Floats⦄ (o : NumberOrder f) where
  abbrev IsNumbered : Ranked f.Float → Type 0
  IsNumbered r = o.IsNumber r.score

  before_asymm :
      (x y : Ranked f.Float) → IsNumbered x → IsNumbered y → before x y ≡ true → before y x ≡ false
  unfolding before
  before_asymm x y px py h = ground (
    arith,
    o.eq_iff_neither x.score y.score px py,
    o.eq_iff_neither y.score x.score py px,
    o.lt_asymm x.score y.score px py,
    o.lt_asymm y.score x.score py px,
    text_lt_asymm x.id y.id,
    h,
  )

  before-false :
      (x y : Ranked f.Float)
      → IsNumbered x
      → IsNumbered y
      → before x y ≡ false
      → (f.lt y.score x.score ≡ false) × (f.lt x.score y.score ≡ false → text_lt x.id y.id ≡ false)
  unfolding before
  before-false x y px py h =
      let e = o.eq_iff_neither x.score y.score px py in (ground (arith, e, h), ground (arith, e, h))

  false-before :
      (x y : Ranked f.Float)
      → IsNumbered x
      → IsNumbered y
      → f.lt y.score x.score ≡ false
      → (f.lt x.score y.score ≡ false → text_lt x.id y.id ≡ false)
      → before x y ≡ false
  unfolding before
  false-before x y px py h k = ground (arith, o.eq_iff_neither x.score y.score px py, h, k)

  before_chain :
      (x y z : Ranked f.Float)
      → IsNumbered x
      → IsNumbered y
      → IsNumbered z
      → before x y ≡ false
      → before y z ≡ false
      → before x z ≡ false
  before_chain x y z px py pz h k =
      let (yx, xy) = before-false x y px py h in
      let (zy, yz) = before-false y z py pz k in
      let zx = o.lt_chain z.score y.score x.score pz py px zy yx in
      false-before x z px pz zx λ xz.
        text_lt_trans x.id y.id z.id (xy (o.lt_chain x.score z.score y.score px pz py xz zy))
          (yz (o.lt_chain y.score x.score z.score py px pz yx xz))

  -- the first of a sorted list
  cut-AreTop :
      (k : ℕ) (rs : List (Ranked f.Float))
      → All IsNumbered rs
      → AreTop k (cut k (sort_stable before rs)) rs
  unfolding AreTop
  cut-AreTop k rs n =
      let s = sort_stable before rs in
      let p = sort_stable-Perm before rs in
      let l : length s ≡ length rs = length-sort_stable before rs in
      let sorted = sort_stable-IsSorted before IsNumbered before_asymm before_chain rs n in
      elim (Bool-cases (ltb k (length s))) [
        | inl t ↦ rw t (
          ground (arith, length-take k s, t, l),
          drop k s,
          rw (take-append-drop k s) p,
          rw (take-append-drop k s) sorted,
        )
        | inr g ↦ rw g (ground (arith, g, l), [], rw (append_nil s) p, rw (append_nil s) sorted)
      ]

  -- The cosine search returns the `top_k` entries of highest score in order, equal scores in the
  -- order of their identifiers, where every score is a number.
  pub search-AreTop :
      (query : List ℕ) (top_k : ℕ) (set : List (Text × List ℕ))
      → All IsNumbered (score_all query set)
      → AreTop top_k (search query top_k set) (score_all query set)
  unfolding search AreTop
  search-AreTop query zero set n =
      let rs = score_all query set in
      (
        omega arith,
        sort_stable before rs,
        sort_stable-Perm before rs,
        sort_stable-IsSorted before IsNumbered before_asymm before_chain rs n,
      )
  search-AreTop query (suc k) set n =
      let some_k : (suc k == 0) ≡ false = ground arith in
      rw some_k (cut-AreTop (suc k) (score_all query set) n)
