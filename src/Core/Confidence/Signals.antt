-- ===== src/Core/Confidence/Signals.antt =====
-- internal/core/types.go: the signal that Decide reads.
use ioc.Base.{true, false, List, [], ◌∷◌, map, Option, none, some, ◌≡◌, refl}
use ioc.Core.Types.{Hit}
use ioc.Core.Floats.{Floats}
use ioc.Core.Confidence.{
  Confidence, decide, is_reranked, hit_score, margin_valid, margin_of, top_of,
}

module _ ⦃f : Floats⦄ where
  -- a hit with another cosine score, or with another rerank score
  abbrev pub with_cosine : (Hit f.Float → f.Float) → Hit f.Float → Hit f.Float
  with_cosine k h = record h { score = k h }

  abbrev pub with_rerank : (Hit f.Float → Option f.Float) → Hit f.Float → Hit f.Float
  with_rerank k h = record h { rerank_score = k h }

  abbrev pub rest_with_rerank :
      (Hit f.Float → Option f.Float) → List (Hit f.Float) → List (Hit f.Float)
  rest_with_rerank k [] = []
  rest_with_rerank k (h ∷ hs) = h ∷ map (with_rerank k) hs

  -- the two theorems at two hits, by their rerank scores
  cosine_step :
      (k : Hit f.Float → f.Float) (o p : Option f.Float) (h g : Hit f.Float)
      (hs : List (Hit f.Float)) (conf : Confidence f.Float)
      → is_reranked (record h { rerank_score = o } ∷ []) ≡ true
      → decide
          (map (with_cosine k) (record h { rerank_score = o } ∷ record g { rerank_score = p } ∷ hs))
          conf
        ≡ decide (record h { rerank_score = o } ∷ record g { rerank_score = p } ∷ hs) conf
  unfolding decide is_reranked hit_score margin_valid margin_of top_of
  cosine_step k none p h g hs conf r = cc
  cosine_step k (some x) none h g hs conf r = refl
  cosine_step k (some x) (some y) h g hs conf r = refl

  cosine_one :
      (k : Hit f.Float → f.Float) (o : Option f.Float) (h : Hit f.Float) (conf : Confidence f.Float)
      → is_reranked (record h { rerank_score = o } ∷ []) ≡ true
      → decide (map (with_cosine k) (record h { rerank_score = o } ∷ [])) conf
        ≡ decide (record h { rerank_score = o } ∷ []) conf
  unfolding decide is_reranked hit_score margin_valid margin_of top_of
  cosine_one k none h conf r = cc
  cosine_one k (some x) h conf r = refl

  rerank_step :
      (k : Hit f.Float → Option f.Float) (o p q : Option f.Float) (h g : Hit f.Float)
      (hs : List (Hit f.Float)) (conf : Confidence f.Float)
      → is_reranked (record h { rerank_score = o } ∷ []) ≡ false
      → decide
          (record h { rerank_score = o } ∷ record g { rerank_score = q } ∷ map (with_rerank k) hs)
          conf
        ≡ decide (record h { rerank_score = o } ∷ record g { rerank_score = p } ∷ hs) conf
  unfolding decide is_reranked hit_score margin_valid margin_of top_of
  rerank_step k (some x) p q h g hs conf r = cc
  rerank_step k none none none h g hs conf r = refl
  rerank_step k none (some x) none h g hs conf r = refl
  rerank_step k none none (some y) h g hs conf r = refl
  rerank_step k none (some x) (some y) h g hs conf r = refl

  -- Where the top hit was reranked, the decision depends on no cosine score.
  pub decide-with_cosine :
      (k : Hit f.Float → f.Float) (hits : List (Hit f.Float)) (conf : Confidence f.Float)
      → is_reranked hits ≡ true
      → decide (map (with_cosine k) hits) conf ≡ decide hits conf
  unfolding decide is_reranked hit_score margin_valid margin_of top_of
  decide-with_cosine k [] conf r = refl
  decide-with_cosine k (h ∷ []) conf r = cosine_one k h.rerank_score h conf r
  decide-with_cosine k (h ∷ g ∷ hs) conf r =
      cosine_step k h.rerank_score g.rerank_score h g hs conf r

  -- Where the top hit was not reranked, the decision depends on no rerank score of a later
  -- hit.
  pub decide-with_rerank :
      (k : Hit f.Float → Option f.Float) (hits : List (Hit f.Float)) (conf : Confidence f.Float)
      → is_reranked hits ≡ false
      → decide (rest_with_rerank k hits) conf ≡ decide hits conf
  unfolding decide is_reranked hit_score margin_valid margin_of top_of
  decide-with_rerank k [] conf r = refl
  decide-with_rerank k (h ∷ []) conf r = refl
  decide-with_rerank k (h ∷ g ∷ hs) conf r =
      rerank_step k h.rerank_score g.rerank_score (k g) h g hs conf r
