-- ===== src/Engine/Query/Pipeline/Answers.antt =====
-- internal/engine/query.go: the hits of a query.
use ioc.Base.{
  ℕ, zero, suc, ◌≤◌, Bool, true, false, not, ◌&&◌, List, [], ◌∷◌, Text, ◌==◌, map, length, take,
  leb, is_empty, Option, none, some, ok, ok-injective, ◌≡◌, refl, sym, ap, subst, ◌∙◌, inl, inr,
  All, In, All-In, Bool-cases, Result-cases, Option-cases, arith, if◌then◌else◌,
}
use ioc.Core.Types.{Ulid, Artifact, Hit, is_zero, matches_kinds, detail_raw}
use ioc.Core.Ulid.{text-injective}
use ioc.Storage.Meta.{MetaEnv}
use ioc.Storage.Interfaces.{Blobs, Vectors, Embedder}
use ioc.Search.{Ranked, Unicode, before, dot}
use ioc.Search.Sorting.{All-sort_stable}
use ioc.Engine.State.{Engine}
use ioc.Engine.Reading.{build_hit}
use ioc.Engine.Rollup.{vector_of}
use ioc.Engine.Ranking.{
  passage, Encoder, find_by, map_of, score_of, ge, positive, gate, zip_scores, rerank_top,
}
use ioc.Engine.Query.{
  Query, Index, Rankers, Scores, candidates, competing, index_all, no_index, cosine_order,
  reranked_order, final_order, rescored, build_hits, answer, top_k_of, detail_of, tie_breaks,
  graph_boost, will_rerank, base_order,
}
use ioc.Engine.Query.Pipeline.{find_by-In, competing-In, IsIndexed, index_all-IsIndexed}
use ioc.Engine.Query.Pipeline.Orders.{
  All-take, All-search, All-score_all, All-map_of, In-search, In-map_of, score_in-In, Passes,
  gate-Passes, score_of_found,
}

module _ ⦃m : MetaEnv⦄ ⦃b : Blobs⦄ ⦃v : Vectors⦄ where
  -- What a query says of the artifact behind a hit.
  pub record IsAnswer (q : Query m.floats.Float) (found : List Artifact) (qvec : List ℕ)
      (s : Engine) (h : Hit m.floats.Float) : Type 0 where
    pub source : Artifact
    pub listed : In source found
    pub named : (h.artifact ≡ source.id) × (h.summary ≡ source.summary)
    pub is_current : q.include_superseded ≡ false → is_zero source.superseded_by ≡ true
    pub of_kind : matches_kinds q.kinds source.kind ≡ true
    pub cosine :
        (a : Artifact) × In a found
        × (a.id ≡ source.id)
        × (vec : List ℕ) × (vector_of a.emb_ref s.emb ≡ some vec)
        × (h.score ≡ dot ⦃f = m.floats⦄ qvec vec)
    pub gated :
        positive ⦃f = m.floats⦄ q.min_score ≡ true → ge ⦃f = m.floats⦄ h.score q.min_score ≡ true

  All-zip_scores :
      (P : Text → Type 0) (rs : List (Ranked m.floats.Float)) (xs : List m.floats.Float)
      → All (λ r. P r.id) rs
      → All (λ r. P r.id) (zip_scores ⦃f = m.floats⦄ rs xs)
  unfolding zip_scores
  All-zip_scores P [] xs h = tt
  All-zip_scores P (r ∷ rs) [] h = tt
  All-zip_scores P (r ∷ rs) (x ∷ xs) h = (h.0, All-zip_scores P rs xs h.1)

  -- a rerank invents no candidate
  rerank_top-All :
      (P : Text → Type 0) (enc : Encoder m.floats.Float) (query : Text)
      (ordered : List (Ranked m.floats.Float)) (by_id : List (Text × Artifact)) (n : ℕ) (s : Engine)
      (out : List (Ranked m.floats.Float))
      → rerank_top enc query ordered by_id n s ≡ ok out
      → All (λ r. P r.id) ordered
      → All (λ r. P r.id) out
  unfolding rerank_top
  rerank_top-All P enc query ordered by_id n s out e h =
      elim (Result-cases
        (enc.rerank query (map (passage by_id s) (take (if n == 0 then 50 else n) ordered)))) [
          | inl (xs, x) ↦ subst (All (λ r. P r.id)) (ok-injective (rw x at e)) (
              All-sort_stable (before ⦃f = m.floats⦄) _ _
                (All-zip_scores P _ xs (All-take _ (if n == 0 then 50 else n) ordered h)))
          | inr (z, x) ↦ cc (rw x at e)
        ]

  -- the fields of a hit
  build_hit-fields :
      (a : Artifact) (score : m.floats.Float) (detail : ℕ) (s : Engine) (h : Hit m.floats.Float)
      → build_hit a score detail s ≡ ok h
      → (h.artifact ≡ a.id) × (h.summary ≡ a.summary) × (h.score ≡ score)
  unfolding build_hit
  build_hit-fields a score detail s h e =
      elim (Bool-cases (leb detail_raw detail && not (is_empty a.content))) [
        | inr f ↦
            let r = ok-injective (rw f at e) in
            (ap (λ x. x.artifact) (sym r), ap (λ x. x.summary) (sym r), ap (λ x. x.score) (sym r))
        | inl t ↦ elim (Result-cases (b.load a.content s.blobs)) [
          | inl (c, x) ↦
              let r = ok-injective (rw (t, x) at e) in
              (ap (λ x. x.artifact) (sym r), ap (λ x. x.summary) (sym r), ap (λ x. x.score) (sym r))
          | inr (z, x) ↦ cc (rw (t, x) at e)
        ]
      ]

module _ ⦃m : MetaEnv⦄ ⦃b : Blobs⦄ ⦃v : Vectors⦄ ⦃u : Unicode⦄ where
  -- what the loop makes of an order
  Comes : Scores → List (Text × Artifact) → Scores → Hit m.floats.Float → Type 0
  Comes cosines by_id ordered h =
      (r : Ranked m.floats.Float) × In r ordered
      × (a : Artifact) × (find_by r.id by_id ≡ some a)
      × (h.artifact ≡ a.id)
      × (h.summary ≡ a.summary)
      × (h.score ≡ score_of ⦃f = m.floats⦄ r.id cosines)

  Comes-cons :
      (cosines : Scores) (by_id : List (Text × Artifact)) (r : Ranked m.floats.Float) (rs : Scores)
      (hits : List (Hit m.floats.Float))
      → All (Comes cosines by_id rs) hits
      → All (Comes cosines by_id (r ∷ rs)) hits
  unfolding Comes
  Comes-cons cosines by_id r rs [] c = tt
  Comes-cons cosines by_id r rs (h ∷ hs) ((q, i, a, x, y, z, w), c) =
      ((q, inr i, a, x, y, z, w), Comes-cons cosines by_id r rs hs c)

  Comes-rescored :
      (cosines : Scores) (by_id : List (Text × Artifact)) (rs : Scores) (h : Hit m.floats.Float)
      (o : Option m.floats.Float)
      → Comes cosines by_id rs h
      → Comes cosines by_id rs (rescored o h)
  unfolding Comes
  Comes-rescored cosines by_id rs h none c = c
  Comes-rescored cosines by_id rs h (some x) c = c

  build_hits-Comes :
      (n detail : ℕ) (cosines reranks : Scores) (by_id : List (Text × Artifact)) (ordered : Scores)
      (s : Engine) (hits : List (Hit m.floats.Float))
      → build_hits n detail cosines reranks by_id ordered s ≡ ok hits
      → (length hits ≤ n) × All (Comes cosines by_id ordered) hits
  unfolding build_hits Comes
  build_hits-Comes zero detail cosines reranks by_id ordered s hits e =
      rw (← ok-injective e) (omega arith, tt)
  build_hits-Comes (suc n) detail cosines reranks by_id [] s hits e =
      rw (← ok-injective e) (omega arith, tt)
  build_hits-Comes (suc n) detail cosines reranks by_id (r ∷ rs) s hits e =
      elim (Option-cases (find_by r.id by_id)) [
        | inl x ↦
            let (l, c) =
              build_hits-Comes (suc n) detail cosines reranks by_id rs s hits
                (rw (build_hits, x) at e) in
            (l, Comes-cons cosines by_id r rs hits c)
        | inr (a, x) ↦
            elim (Result-cases (build_hit a (score_of ⦃f = m.floats⦄ r.id cosines) detail s)) [
              | inr (z, y) ↦ cc (rw (build_hits, x, y) at e)
              | inl (h, y) ↦ elim (Result-cases (build_hits n detail cosines reranks by_id rs s)) [
                | inr (z, w) ↦ cc (rw (build_hits, x, y, w) at e)
                | inl (hs, w) ↦
                    let (l, c) = build_hits-Comes n detail cosines reranks by_id rs s hs w in
                    let (f, g, k) = build_hit-fields a _ detail s h y in
                    subst (λ hs. (length hs ≤ suc n) × All (Comes cosines by_id (r ∷ rs)) hs)
                      (ok-injective (rw (build_hits, x, y, w) at e))
                      (
                        omega (arith, l),
                        (
                          Comes-rescored cosines by_id (r ∷ rs) h _ (r, inl refl, a, x, f, g, k),
                          Comes-cons cosines by_id r rs hs c,
                        ),
                      )
              ]
            ]
      ]

  module _ ⦃em : Embedder⦄ (rk : Rankers m.floats.Float) (now : ℕ) (q : Query m.floats.Float)
      (qvec : List ℕ) (s : Engine) where
    reranked_order-All :
        (P : Text → Type 0) (reranks : Bool) (by_id : List (Text × Artifact)) (ordered : Scores)
        → All (λ r. P r.id) ordered
        → All (λ r. P r.id) (reranked_order rk now q reranks by_id ordered s).0
    unfolding reranked_order
    reranked_order-All P reranks by_id ordered h = elim (Bool-cases reranks) [
      | inr f ↦ rw f h
      | inl t ↦ elim (Option-cases rk.encoder) [
        | inl x ↦ rw (t, x) h
        | inr (enc, x) ↦ elim (Result-cases (rerank_top enc q.text ordered by_id q.rerank_n s)) [
          | inl (out, y) ↦
              rw (t, x, y) (rerank_top-All P enc q.text ordered by_id q.rerank_n s out y h)
          | inr (z, y) ↦ rw (t, x, y) h
        ]
      ]
    ]

    -- every candidate in the final order passed the gate
    final_order-Passes :
        (ix : Index m.floats.Float) (order : Scores × Scores)
        → final_order rk now q qvec ix s ≡ ok order
        → All
            (Passes ⦃f = m.floats⦄ q.min_score (map_of ⦃f = m.floats⦄ [] (cosine_order qvec ix)))
            order.0
    unfolding final_order
    final_order-Passes ix order e =
        let cosines = map_of ⦃f = m.floats⦄ [] (cosine_order qvec ix) in
        let base = base_order q qvec ix in
        let reranks = will_rerank rk now q base cosines s.db in
        elim (Result-cases (
          graph_boost rk now q reranks cosines (tie_breaks rk now q reranks cosines ix.by_id base)
            s.db)) [
              | inr (z, x) ↦ cc (rw x at e)
              | inl (boosted, x) ↦
                  subst
                    (λ (o : Scores × Scores). All (Passes ⦃f = m.floats⦄ q.min_score cosines) o.0)
                    (ok-injective (rw x at e))
                    (reranked_order-All
                      (λ id.
                        positive ⦃f = m.floats⦄ q.min_score ≡ true
                        → ge ⦃f = m.floats⦄ (score_of ⦃f = m.floats⦄ id cosines) q.min_score ≡ true)
                      reranks ix.by_id (gate ⦃f = m.floats⦄ q.min_score cosines boosted)
                      (gate-Passes ⦃f = m.floats⦄ q.min_score cosines boosted))
            ]

    -- the scored entries of the set
    IsScored : List Artifact → Ranked m.floats.Float → Type 0
    IsScored kept r =
        (a : Artifact) × In a kept
        × (r.id ≡ m.ulids.text a.id)
        × (vec : List ℕ) × (vector_of a.emb_ref s.emb ≡ some vec)
        × (r.score ≡ dot ⦃f = m.floats⦄ qvec vec)

    cosines-IsScored :
        (kept : List Artifact) (ix : Index m.floats.Float)
        → IsIndexed kept s ix
        → All (IsScored kept) (map_of ⦃f = m.floats⦄ [] (cosine_order qvec ix))
    unfolding IsScored
    cosines-IsScored kept ix h =
        All-map_of ⦃f = m.floats⦄ (IsScored kept) [] (cosine_order qvec ix) tt (
          All-search ⦃f = m.floats⦄ (IsScored kept) qvec (length ix.set) ix.set (
            All-score_all ⦃f = m.floats⦄ (IsScored kept) qvec ix.set
              λ k vec i. let (a, j, t, e) = h.vectors k vec i in (a, j, t, vec, e, refl)))

    -- the cosine of an indexed artifact
    cosine_lem :
        (kept : List Artifact) (ix : Index m.floats.Float) (k : Text) (a : Artifact)
        → IsIndexed kept s ix
        → find_by k ix.by_id ≡ some a
        → (c : Artifact) × In c kept
          × (c.id ≡ a.id)
          × (vec : List ℕ) × (vector_of c.emb_ref s.emb ≡ some vec)
          × (score_of ⦃f = m.floats⦄ k (map_of ⦃f = m.floats⦄ [] (cosine_order qvec ix))
              ≡ dot ⦃f = m.floats⦄ qvec vec)
    unfolding IsScored
    cosine_lem kept ix k a h e =
        let (j, t, vec, w) = h.artifacts k a (find_by-In k ix.by_id a e) in
        let cosines = map_of ⦃f = m.floats⦄ [] (cosine_order qvec ix) in
        let (x, y) =
          In-map_of ⦃f = m.floats⦄ [] (cosine_order qvec ix)
            (record { id = k; score = dot ⦃f = m.floats⦄ qvec vec })
            (In-search ⦃f = m.floats⦄ qvec ix.set k vec w) in
        let (r, i, p, z) = score_in-In ⦃f = m.floats⦄ k cosines x y in
        let (c, l, n, vec', u, d) =
          All-In (IsScored kept) cosines r (cosines-IsScored kept ix h) i in
        (
          c,
          l,
          text-injective ⦃u = m.ulids⦄ c.id a.id (sym n ∙ (p ∙ t)),
          vec',
          u,
          score_of_found ⦃f = m.floats⦄ k cosines x y ∙ (sym z ∙ d),
        )

    -- a hit that comes of a gated order
    Comes-IsAnswer :
        (found : List Artifact) (ix : Index m.floats.Float) (order : Scores)
        (h : Hit m.floats.Float)
        → IsIndexed (competing q found) s ix
        → All
            (Passes ⦃f = m.floats⦄ q.min_score (map_of ⦃f = m.floats⦄ [] (cosine_order qvec ix)))
            order
        → Comes (map_of ⦃f = m.floats⦄ [] (cosine_order qvec ix)) ix.by_id order h
        → IsAnswer q found qvec s h
    unfolding Comes
    Comes-IsAnswer found ix order h x gates (r, i, a, e, id, summary, score) =
        let (j, t, vec, w) = x.artifacts r.id a (find_by-In r.id ix.by_id a e) in
        let (l, c, k) = competing-In q.include_superseded q.kinds found a j in
        let (c', j', same, vec', u, d) = cosine_lem (competing q found) ix r.id a x e in
        record {
          source = a;
          listed = l;
          named = (id, summary);
          is_current = c;
          of_kind = k;
          cosine = (
            c',
            (competing-In q.include_superseded q.kinds found c' j').0,
            same,
            vec',
            u,
            score ∙ d,
          );
          gated = λ p. rw score (All-In _ order r gates i p);
        }

    every :
        (found : List Artifact) (ix : Index m.floats.Float) (order : Scores)
        (hits : List (Hit m.floats.Float))
        → IsIndexed (competing q found) s ix
        → All
            (Passes ⦃f = m.floats⦄ q.min_score (map_of ⦃f = m.floats⦄ [] (cosine_order qvec ix)))
            order
        → All (Comes (map_of ⦃f = m.floats⦄ [] (cosine_order qvec ix)) ix.by_id order) hits
        → All (IsAnswer q found qvec s) hits
    every found ix order [] x gates c = tt
    every found ix order (h ∷ hs) x gates c =
        (Comes-IsAnswer found ix order h x gates c.0, every found ix order hs x gates c.1)

    -- A query whose text has a vector, and that succeeds, returns at most `top_k` hits, five by default,
    -- each the hit of a candidate: a current one unless the history is asked for, and of a kind asked
    -- for. Its score is the cosine of the artifact's stored vector, whatever reordered the hits, and is
    -- at least `min_score` where that is positive.
    pub answer-AreAnswers :
        (out : List (Hit m.floats.Float) × List Ulid)
        → answer rk now q qvec s ≡ ok out
        → (found : List Artifact) × (candidates q qvec s ≡ ok found)
          × (length out.0 ≤ top_k_of q)
          × All (IsAnswer q found qvec s) out.0
    unfolding answer
    answer-AreAnswers out e = elim (Result-cases (candidates q qvec s)) [
      | inr (z, x) ↦ cc (rw x at e)
      | inl (found, x) ↦
          let ix = index_all q.mode s no_index (competing q found) in
          let cosines = map_of ⦃f = m.floats⦄ [] (cosine_order qvec ix) in
          elim (Result-cases (final_order rk now q qvec ix s)) [
            | inr (z, y) ↦ cc (rw (x, y) at e)
            | inl (order, y) ↦
                elim (Result-cases
                  (build_hits (top_k_of q) (detail_of q) cosines order.1 ix.by_id order.0 s)) [
                    | inr (z, w) ↦ cc (rw (x, y, w) at e)
                    | inl (hits, w) ↦
                        let (l, comes) =
                          build_hits-Comes (top_k_of q) (detail_of q) cosines order.1 ix.by_id
                            order.0 s hits w in
                        let indexed =
                          index_all-IsIndexed q.mode (competing q found) s no_index
                            (competing q found) (λ a i. i)
                            (record {
                              vectors = λ k v i. elim i [ ];
                              artifacts = λ k a i. elim i [ ];
                            }) in
                        let gates = final_order-Passes ix order y in
                        let same =
                          ap (λ (o : List (Hit m.floats.Float) × List Ulid). o.0)
                            (ok-injective (rw (x, y, w) at e)) in
                        (
                          found,
                          x,
                          rw (← same) l,
                          rw (← same) (every found ix order.0 hits indexed gates comes),
                        )
                  ]
          ]
    ]
