-- ===== src/Engine/Query/Pipeline/Orders.antt =====
-- internal/engine/query.go: what the orders of the candidates keep of their entries.
use ioc.Base.{
  ℕ, zero, suc, Bool, true, false, List, [], ◌∷◌, Text, ◌==◌, filter, length, take, Option, none,
  some, ◌≡◌, refl, sym, ap, subst, ◌∙◌, inl, inr, All, In, Bool-cases, some-injective, text_eq,
  text_eq→≡, text_eq_refl, arith, ltb,
}
use ioc.Core.Floats.{Floats}
use ioc.Search.{Ranked, search, score_all, sort_stable, insert, before, cut, dot}
use ioc.Search.Sorting.{All-sort_stable, length-sort_stable}
use ioc.Engine.Ranking.{assign, map_of, score_in, score_of, gate, ge, positive}

module _ {A : Type 0} where
  pub All-take : (P : A → Type 0) (n : ℕ) (xs : List A) → All P xs → All P (take n xs)
  All-take P zero xs h = tt
  All-take P (suc n) [] h = tt
  All-take P (suc n) (x ∷ xs) h = (h.0, All-take P n xs h.1)

  pub All-filter : (p : A → Bool) (xs : List A) → All (λ x. p x ≡ true) (filter p xs)
  unfolding filter
  All-filter p [] = tt
  All-filter p (x ∷ xs) = elim (Bool-cases (p x)) [
    | inl t ↦ rw t (t, All-filter p xs)
    | inr f ↦ rw f (All-filter p xs)
  ]

  pub All-cut : (P : A → Type 0) (n : ℕ) (xs : List A) → All P xs → All P (cut n xs)
  All-cut P n xs h = elim (Bool-cases (ltb n (length xs))) [
    | inl t ↦ rw t (All-take P n xs h)
    | inr f ↦ rw f h
  ]

  In-insert_here : (less : A → A → Bool) (x : A) (ys : List A) → In x (insert less x ys)
  unfolding insert
  In-insert_here less x [] = inl refl
  In-insert_here less x (y ∷ ys) = elim (Bool-cases (less y x)) [
    | inl t ↦ rw t (inr (In-insert_here less x ys))
    | inr f ↦ rw f (inl refl)
  ]

  In-insert_there :
      (less : A → A → Bool) (x a : A) (ys : List A) → In a ys → In a (insert less x ys)
  unfolding insert
  In-insert_there less x a [] i = inr i
  In-insert_there less x a (y ∷ ys) i = elim (Bool-cases (less y x)) [
    | inl t ↦ rw t (elim i [ inl e ↦ inl e | inr j ↦ inr (In-insert_there less x a ys j) ])
    | inr f ↦ rw f (inr i)
  ]

  pub In-sort_stable :
      (less : A → A → Bool) (xs : List A) (a : A) → In a xs → In a (sort_stable less xs)
  unfolding sort_stable
  In-sort_stable less [] a i = i
  In-sort_stable less (x ∷ xs) a (inl e) =
      subst (λ y. In y (insert less x (sort_stable less xs))) (sym e)
        (In-insert_here less x (sort_stable less xs))
  In-sort_stable less (x ∷ xs) a (inr i) =
      In-insert_there less x a (sort_stable less xs) (In-sort_stable less xs a i)

module _ ⦃f : Floats⦄ where
  -- a search keeps what holds of every scored entry
  pub All-search :
      (P : Ranked f.Float → Type 0) (query : List ℕ) (k : ℕ) (set : List (Text × List ℕ))
      → All P (score_all query set)
      → All P (search query k set)
  unfolding search
  All-search P query k set h = elim (Bool-cases (k == 0)) [
    | inl t ↦ rw t tt
    | inr n ↦ rw n (All-cut P k _ (All-sort_stable before P (score_all query set) h))
  ]

  length-score_all :
      (query : List ℕ) (set : List (Text × List ℕ)) → length (score_all query set) ≡ length set
  unfolding score_all
  length-score_all query [] = refl
  length-score_all query (e ∷ es) = ap suc (length-score_all query es)

  In-score_all :
      (query : List ℕ) (set : List (Text × List ℕ)) (k : Text) (vec : List ℕ)
      → In (k, vec) set
      → In (record { id = k; score = dot query vec }) (score_all query set)
  unfolding score_all
  In-score_all query [] k vec i = elim i [ ]
  In-score_all query (e ∷ es) k vec (inl q) =
      inl (ap (λ (p : Text × List ℕ). record { id = p.0; score = dot query p.1 }) q)
  In-score_all query (e ∷ es) k vec (inr i) = inr (In-score_all query es k vec i)

  pub All-score_all :
      (P : Ranked f.Float → Type 0) (query : List ℕ) (set : List (Text × List ℕ))
      → ((k : Text) (vec : List ℕ) → In (k, vec) set → P (record { id = k; score = dot query vec }))
      → All P (score_all query set)
  unfolding score_all
  All-score_all P query [] h = tt
  All-score_all P query ((k, vec) ∷ es) h =
      (h k vec (inl refl), All-score_all P query es (λ j w i. h j w (inr i)))

  -- a search for as many as there are leaves none out
  pub In-search :
      (query : List ℕ) (set : List (Text × List ℕ)) (k : Text) (vec : List ℕ)
      → In (k, vec) set
      → In (record { id = k; score = dot query vec }) (search query (length set) set)
  unfolding search
  In-search query [] k vec i = elim i [ ]
  In-search query (e ∷ es) k vec i =
      let rs = score_all query (e ∷ es) in
      let l = length-sort_stable before rs in
      let some_k : (length (e ∷ es) == 0) ≡ false = ground arith in
      let whole : ltb (length (e ∷ es)) (length (sort_stable before rs)) ≡ false =
        ground (arith, l, length-score_all query (e ∷ es)) in
      rw (some_k, whole) (In-sort_stable before rs _ (In-score_all query (e ∷ es) k vec i))

  All-assign :
      (P : Ranked f.Float → Type 0) (r : Ranked f.Float) (qs : List (Ranked f.Float))
      → P r
      → All P qs
      → All P (assign r qs)
  unfolding assign
  All-assign P r [] p h = (p, tt)
  All-assign P r (q ∷ qs) p h = elim (Bool-cases (text_eq q.id r.id)) [
    | inl t ↦ rw t (p, h.1)
    | inr n ↦ rw n (h.0, All-assign P r qs p h.1)
  ]

  pub All-map_of :
      (P : Ranked f.Float → Type 0) (acc rs : List (Ranked f.Float))
      → All P acc
      → All P rs
      → All P (map_of acc rs)
  unfolding map_of
  All-map_of P acc [] a h = a
  All-map_of P acc (r ∷ rs) a h = All-map_of P (assign r acc) rs (All-assign P r acc h.0 a) h.1

  score_in-assign_same :
      (r : Ranked f.Float) (qs : List (Ranked f.Float)) → score_in r.id (assign r qs) ≡ some r.score
  unfolding assign score_in
  score_in-assign_same r [] = rw (text_eq_refl r.id)
  score_in-assign_same r (q ∷ qs) = elim (Bool-cases (text_eq q.id r.id)) [
    | inl t ↦ rw (t, text_eq_refl r.id)
    | inr n ↦ rw (n, n) (score_in-assign_same r qs)
  ]

  -- an entry stays, with this score or another
  Has : Text → List (Ranked f.Float) → Type 0
  Has k rs = (x : f.Float) × (score_in k rs ≡ some x)

  Has-assign :
      (k : Text) (r : Ranked f.Float) (qs : List (Ranked f.Float)) → Has k qs → Has k (assign r qs)
  unfolding assign score_in Has
  Has-assign k r [] (x, e) = cc
  Has-assign k r (q ∷ qs) (x, e) = elim (Bool-cases (text_eq q.id r.id)) [
    | inl t ↦ elim (Bool-cases (text_eq r.id k)) [
      | inl y ↦ rw (t, y) (r.score, refl)
      | inr n ↦
          let other : text_eq q.id k ≡ false = ap (λ i. text_eq i k) (text_eq→≡ q.id r.id t) ∙ n in
          rw (t, n) (x, rw other at e)
    ]
    | inr d ↦ elim (Bool-cases (text_eq q.id k)) [
      | inl y ↦ rw (d, y) (q.score, refl)
      | inr n ↦ rw (d, n) (Has-assign k r qs (x, rw n at e))
    ]
  ]

  Has-map_of : (k : Text) (acc rs : List (Ranked f.Float)) → Has k acc → Has k (map_of acc rs)
  unfolding map_of
  Has-map_of k acc [] h = h
  Has-map_of k acc (r ∷ rs) h = Has-map_of k (assign r acc) rs (Has-assign k r acc h)

  pub In-map_of :
      (acc rs : List (Ranked f.Float)) (r : Ranked f.Float)
      → In r rs
      → (x : f.Float) × (score_in r.id (map_of acc rs) ≡ some x)
  unfolding map_of Has
  In-map_of acc [] r i = elim i [ ]
  In-map_of acc (q ∷ rs) r (inl e) =
      Has-map_of r.id (assign q acc) rs
        (q.score, ap (λ z. score_in z.id (assign q acc)) e ∙ score_in-assign_same q acc)
  In-map_of acc (q ∷ rs) r (inr i) = In-map_of (assign q acc) rs r i

  -- a score that is found is an entry's
  pub score_in-In :
      (k : Text) (rs : List (Ranked f.Float)) (x : f.Float)
      → score_in k rs ≡ some x
      → (r : Ranked f.Float) × In r rs × (r.id ≡ k) × (r.score ≡ x)
  unfolding score_in
  score_in-In k [] x h = cc
  score_in-In k (r ∷ rs) x h = elim (Bool-cases (text_eq r.id k)) [
    | inl t ↦ (r, inl refl, text_eq→≡ r.id k t, some-injective (rw t at h))
    | inr n ↦ let (q, i, e, s) = score_in-In k rs x (rw n at h) in (q, inr i, e, s)
  ]

  weaken :
      (P Q : Ranked f.Float → Type 0) (rs : List (Ranked f.Float))
      → ((r : Ranked f.Float) → P r → Q r)
      → All P rs
      → All Q rs
  weaken P Q [] k h = tt
  weaken P Q (r ∷ rs) k h = (k r h.0, weaken P Q rs k h.1)

  each :
      (P : Ranked f.Float → Type 0) (rs : List (Ranked f.Float))
      → ((r : Ranked f.Float) → P r)
      → All P rs
  each P [] k = tt
  each P (r ∷ rs) k = (k r, each P rs k)

  -- the gate
  abbrev pub Passes : f.Float → List (Ranked f.Float) → Ranked f.Float → Type 0
  Passes min_score cosines r =
      positive min_score ≡ true → ge (score_of r.id cosines) min_score ≡ true

  pub gate-Passes :
      (min_score : f.Float) (cosines ordered : List (Ranked f.Float))
      → All (Passes min_score cosines) (gate min_score cosines ordered)
  unfolding gate
  gate-Passes min_score cosines ordered = elim (Bool-cases (positive min_score)) [
    | inl t ↦ rw t (
        weaken (λ r. ge (score_of r.id cosines) min_score ≡ true) _ _ (λ r p e. p)
          (All-filter _ ordered))
    | inr n ↦ rw n (each _ ordered (λ r e. cc))
  ]

  pub score_of_found :
      (k : Text) (rs : List (Ranked f.Float)) (x : f.Float)
      → score_in k rs ≡ some x
      → score_of k rs ≡ x
  score_of_found k rs x e =
      ap (λ (o : Option f.Float). elim o as (λ y. f.Float) [ none ↦ f.decimal 0 0 | some z ↦ z ]) e
