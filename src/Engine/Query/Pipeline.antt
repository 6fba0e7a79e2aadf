-- ===== src/Engine/Query/Pipeline.antt =====
-- internal/engine/query.go: what the candidates, the orders and the loop over them leave in the hits.
pub mod Orders
pub mod Answers
use ioc.Base.{
  ℕ, zero, suc, ◌+◌, ◌≤◌, Bool, true, false, not, ◌&&◌, ◌||◌, List, [], ◌∷◌, ◌++◌, Text, ◌==◌, any,
  filter, map, length, take, Option, none, some, Result, ok, err, and_then, ok-injective, ◌≡◌, refl,
  sym, ap, subst, ◌∙◌, inl, inr, All, In, All-In, Bool-cases, Option-cases, some-injective,
  Result-cases, In-append, In-append_left, In-append_right, filter-In, text_eq, text_eq→≡,
  text_eq_refl, arith, if◌then◌else◌, ltb, and-true, ◌⊎◌,
}
use ioc.Core.Types.{Ulid, Artifact, Hit, is_zero, matches_kinds}
use ioc.Core.Floats.{Floats}
use ioc.Storage.Meta.{MetaEnv}
use ioc.Storage.Interfaces.{Blobs, Vectors}
use ioc.Search.{Ranked, Unicode, search, score_all, sort_stable, insert, before, cut, dot}
use ioc.Search.Sorting.{All-sort_stable, length-sort_stable}
use ioc.Engine.State.{Engine}
use ioc.Engine.Rollup.{vector_of}
use ioc.Engine.Ranking.{
  Encoder, find_by, assign, map_of, score_in, score_of, gate, ge, positive, zip_scores, rerank_top,
}
use ioc.Engine.Query.{
  Query, Index, index_one, index_all, cosine_order, current, of_kinds, competing,
}

find_by-In :
    (k : Text) (m : List (Text × Artifact)) (a : Artifact) → find_by k m ≡ some a → In (k, a) m
unfolding find_by
find_by-In k [] a h = cc
find_by-In k ((j, x) ∷ m) a h = elim (Bool-cases (text_eq j k)) [
  | inl t ↦ inl (let e = text_eq→≡ j k t in let y = some-injective (rw t at h) in cc)
  | inr f ↦ inr (find_by-In k m a (rw f at h))
]

of_kinds-In :
    (kinds : List ℕ) (as' : List Artifact) (a : Artifact)
    → In a (of_kinds kinds as')
    → In a as' × (matches_kinds kinds a.kind ≡ true)
unfolding of_kinds matches_kinds
of_kinds-In [] as' a i = (i, refl)
of_kinds-In (k ∷ ks) as' a i =
    let full : ltb 0 (suc (length ks)) ≡ true = ground arith in
    filter-In (λ x. matches_kinds (k ∷ ks) x.kind) as' a (rw full at i)

current-In :
    (c : Bool) (as' : List Artifact) (a : Artifact)
    → In a (current c as')
    → In a as' × (c ≡ false → is_zero a.superseded_by ≡ true)
unfolding current
current-In true as' a i = (i, λ e. cc)
current-In false as' a i =
    let (j, z) = filter-In (λ x. is_zero x.superseded_by) as' a i in (j, λ e. z)

-- What competes passed both filters.
pub competing-In :
    (c : Bool) (kinds : List ℕ) (as' : List Artifact) (a : Artifact)
    → In a (of_kinds kinds (current c as'))
    → In a as' × (c ≡ false → is_zero a.superseded_by ≡ true) × (matches_kinds kinds a.kind ≡ true)
competing-In c kinds as' a i =
    let (j, k) = of_kinds-In kinds (current c as') a i in
    let (l, z) = current-In c as' a j in (l, z, k)

module _ ⦃m : MetaEnv⦄ ⦃b : Blobs⦄ ⦃v : Vectors⦄ ⦃u : Unicode⦄ where
  -- a vector set and its artifacts: each vector is that of a candidate, and each artifact has one
  pub record IsIndexed (kept : List Artifact) (s : Engine) (ix : Index m.floats.Float)
      : Type 0 where
    pub vectors :
        (k : Text) (vec : List ℕ)
        → In (k, vec) ix.set
        → (a : Artifact) × In a kept
          × (k ≡ m.ulids.text a.id)
          × (vector_of a.emb_ref s.emb ≡ some vec)
    pub artifacts :
        (k : Text) (a : Artifact)
        → In (k, a) ix.by_id
        → In a kept × (k ≡ m.ulids.text a.id) × (vec : List ℕ) × In (k, vec) ix.set

  index_one-IsIndexed :
      (mode : ℕ) (kept : List Artifact) (s : Engine) (ix : Index m.floats.Float) (a : Artifact)
      → In a kept
      → IsIndexed kept s ix
      → IsIndexed kept s (index_one mode s ix a)
  unfolding index_one
  index_one-IsIndexed mode kept s ix a i h = elim (Option-cases (vector_of a.emb_ref s.emb)) [
    | inl e ↦ rw (index_one, e) (record { vectors = h.vectors; artifacts = h.artifacts })
    | inr (vec, e) ↦
        rw (index_one, e)
          (record {
            vectors = λ k w j. elim (In-append (k, w) ix.set _ j) [
              | inl old ↦ h.vectors k w old
              | inr (inl new) ↦ (a, i, ap (λ p. p.0) new, e ∙ ap (λ p. some p.1) (sym new))
              | inr (inr x) ↦ elim x [ ]
            ];
            artifacts = λ k x j. elim j [
              | inl new ↦ (
                rw (ap (λ p. p.1) new) i,
                ap (λ p. p.0) new ∙ ap (λ p. m.ulids.text p.1.id) (sym new),
                vec,
                In-append_right (k, vec) ix.set _ (inl (ap (λ p. (p.0, vec)) new)),
              )
              | inr old ↦
                  let (y, t, w, z) = h.artifacts k x old in
                  (y, t, w, In-append_left (k, w) ix.set _ z)
            ];
          })
  ]

  pub index_all-IsIndexed :
      (mode : ℕ) (kept : List Artifact) (s : Engine) (ix : Index m.floats.Float)
      (as' : List Artifact)
      → ((a : Artifact) → In a as' → In a kept)
      → IsIndexed kept s ix
      → IsIndexed kept s (index_all mode s ix as')
  unfolding index_all
  index_all-IsIndexed mode kept s ix [] i h = h
  index_all-IsIndexed mode kept s ix (a ∷ as') i h =
      index_all-IsIndexed mode kept s (index_one mode s ix a) as' (λ x j. i x (inr j))
        (index_one-IsIndexed mode kept s ix a (i a (inl refl)) h)
