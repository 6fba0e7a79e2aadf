-- ===== src/Search/Sorting.antt =====
-- The stable sort of the searches: what it permutes, and the order it leaves.
use mathlib.Core.List.{Perm}
use mathlib.Core.List.Perm
use ioc.Base.{
  suc, Bool, true, false, List, [], ◌∷◌, ◌≡◌, refl, ap, inl, inr, All, Bool-cases, arith, length,
}
use ioc.Search.{insert, sort_stable}

module _ {A : Type 0} (less : A → A → Bool) where
  -- no entry comes before one that stands ahead of it
  unfoldable pub IsSorted : List A → Type 0
  IsSorted [] = Unit
  IsSorted (x ∷ xs) = All (λ y. less y x ≡ false) xs × IsSorted xs

  insert-Perm : (x : A) (ys : List A) → Perm (insert less x ys) (x ∷ ys)
  unfolding insert
  insert-Perm x [] = Perm.rfl
  insert-Perm x (y ∷ ys) = elim (Bool-cases (less y x)) [
    | inl t ↦ rw t (Perm.trans (Perm.cons y (insert-Perm x ys)) (Perm.swap x y ys))
    | inr f ↦ rw f Perm.rfl
  ]

  pub sort_stable-Perm : (xs : List A) → Perm (sort_stable less xs) xs
  unfolding sort_stable
  sort_stable-Perm [] = Perm.rfl
  sort_stable-Perm (x ∷ xs) =
      Perm.trans (insert-Perm x (sort_stable less xs)) (Perm.cons x (sort_stable-Perm xs))

  length-insert : (x : A) (ys : List A) → length (insert less x ys) ≡ suc (length ys)
  unfolding insert
  length-insert x [] = refl
  length-insert x (y ∷ ys) = elim (Bool-cases (less y x)) [
    | inl t ↦ rw t (ap suc (length-insert x ys))
    | inr f ↦ rw f
  ]

  pub length-sort_stable : (xs : List A) → length (sort_stable less xs) ≡ length xs
  unfolding sort_stable
  length-sort_stable [] = refl
  length-sort_stable (x ∷ xs) =
      omega (arith, length-insert x (sort_stable less xs), length-sort_stable xs)

  All-insert : (P : A → Type 0) (x : A) (ys : List A) → P x → All P ys → All P (insert less x ys)
  unfolding insert
  All-insert P x [] p h = (p, tt)
  All-insert P x (y ∷ ys) p h = elim (Bool-cases (less y x)) [
    | inl t ↦ rw t (h.0, All-insert P x ys p h.1)
    | inr f ↦ rw f (p, h)
  ]

  pub All-sort_stable : (P : A → Type 0) (xs : List A) → All P xs → All P (sort_stable less xs)
  unfolding sort_stable
  All-sort_stable P [] h = tt
  All-sort_stable P (x ∷ xs) h = All-insert P x (sort_stable less xs) h.0 (All-sort_stable P xs h.1)

  -- the comparison on the entries that satisfy `P`: a strict weak order
  module _ (P : A → Type 0) (asymm : (x y : A) → P x → P y → less x y ≡ true → less y x ≡ false)
      (chain : (x y z : A)
        → P x
        → P y
        → P z
        → less x y ≡ false
        → less y z ≡ false
        → less x z ≡ false) where
    All-chain :
        (x y : A) (zs : List A)
        → P x
        → P y
        → All P zs
        → less y x ≡ false
        → All (λ z. less z y ≡ false) zs
        → All (λ z. less z x ≡ false) zs
    All-chain x y [] px py pz h k = tt
    All-chain x y (z ∷ zs) px py pz h k =
        (chain z y x pz.0 py px k.0 h, All-chain x y zs px py pz.1 h k.1)

    insert-IsSorted :
        (x : A) (ys : List A) → P x → All P ys → IsSorted ys → IsSorted (insert less x ys)
    unfolding insert IsSorted
    insert-IsSorted x [] px py h = (tt, tt)
    insert-IsSorted x (y ∷ ys) px py h = elim (Bool-cases (less y x)) [
      | inl t ↦ rw t (
        All-insert (λ z. less z y ≡ false) x ys (asymm y x py.0 px t) h.0,
        insert-IsSorted x ys px py.1 h.1,
      )
      | inr f ↦ rw f ((f, All-chain x y ys px py.0 py.1 f h.0), h)
    ]

    pub sort_stable-IsSorted : (xs : List A) → All P xs → IsSorted (sort_stable less xs)
    unfolding sort_stable IsSorted
    sort_stable-IsSorted [] h = tt
    sort_stable-IsSorted (x ∷ xs) h =
        insert-IsSorted x (sort_stable less xs) h.0 (All-sort_stable P xs h.1)
          (sort_stable-IsSorted xs h.1)
