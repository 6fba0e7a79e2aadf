-- ===== src/Engine/Ranking.antt =====
-- internal/engine/query.go and rerank.go: the orders of the candidates, by cosine scores, by the
-- tie-breakers, and by the cross-encoder.
use Prim.Native.Nat.{min}
use ioc.Base.{
  ℕ, ◌-◌, ◌*◌, ◌/◌, ◌%◌, ◌^◌, Bool, false, not, ◌&&◌, ◌||◌, List, [], ◌∷◌, Text, ◌==◌, ltb, any,
  filter, map, length, take, text_eq, is_empty, Option, none, some, Result, ok, err, and_then,
  trunc_runes, if◌then◌else◌, ◌≡◌,
}
use ioc.Core.Types.{Artifact, Edge, kind_document, tier_worktree}
use ioc.Core.Floats.{Floats}
use ioc.Core.Confidence.{Confidence}
use ioc.Storage.Meta.{MetaEnv, all_edges}
use ioc.Storage.Interfaces.{Blobs, Vectors}
use ioc.Search.{Ranked, before, sort_stable}
use ioc.Engine.State.{Engine}

-- reading `byID`, which is kept with the latest first
unfoldable pub find_by : Text → List (Text × Artifact) → Option Artifact
find_by k [] = none
find_by k ((j, a) ∷ m) = let rest = find_by k m in if text_eq j k then some a else rest

-- `embed.Reranker`: a score for each passage
pub record Encoder (F : Type 0) : Type 0 where
  pub rerank : Text → List Text → Result (List F)
  pub length-rerank :
      (query : Text) (docs : List Text) (scores : List F)
      → rerank query docs ≡ ok scores
      → length scores ≡ length docs

module _ ⦃f : Floats⦄ where
  -- a map from identifiers to scores
  unfoldable pub assign : Ranked f.Float → List (Ranked f.Float) → List (Ranked f.Float)
  assign r [] = r ∷ []
  assign r (q ∷ qs) = let rest = assign r qs in if text_eq q.id r.id then r ∷ qs else q ∷ rest

  unfoldable pub map_of : List (Ranked f.Float) → List (Ranked f.Float) → List (Ranked f.Float)
  unfolding assign
  map_of acc [] = acc
  map_of acc (r ∷ rs) = map_of (assign r acc) rs

  unfoldable pub score_in : Text → List (Ranked f.Float) → Option f.Float
  score_in k [] = none
  score_in k (r ∷ rs) = let rest = score_in k rs in if text_eq r.id k then some r.score else rest

  -- `cosineByID[id]`
  abbrev pub score_of : Text → List (Ranked f.Float) → f.Float
  score_of k m = elim (score_in k m) [ none ↦ f.decimal 0 0 | some x ↦ x ]

  -- `MinScore`'s test `cosine >= min`
  abbrev pub ge : f.Float → f.Float → Bool
  ge a b = f.lt b a || f.eq a b

  abbrev pub positive : f.Float → Bool
  positive w = f.lt (f.decimal 0 0) w

  abbrev not_positive : f.Float → Bool
  not_positive w = f.lt w (f.decimal 0 0) || f.eq w (f.decimal 0 0)

  abbrev at_most_one : f.Float → f.Float
  at_most_one w = if f.lt (f.decimal 1 0) w then f.decimal 1 0 else w

  -- new scores, sorted
  unfoldable pub rescore :
      (Ranked f.Float → f.Float) → List (Ranked f.Float) → List (Ranked f.Float)
  unfolding sort_stable before
  rescore g rs = sort_stable before (map (λ r. record { id = r.id; score = g r }) rs)

  abbrev blend : f.Float → f.Float → f.Float → f.Float
  blend w cosine term = f.add (f.mul (f.sub (f.decimal 1 0) w) cosine) (f.mul w term)

  abbrev ns_per_hour : ℕ
  ns_per_hour = 3600 * 10 ^ 9

  -- the age in days; clocks count nanoseconds, and a duration saturates at 2^63 - 1
  abbrev age_days : ℕ → ℕ → f.Float
  age_days now created =
      let d = min (2 ^ 63 - 1) (now - created) in
      f.div
        (f.add (f.of_int (d / ns_per_hour))
          (f.div (f.of_int (d % ns_per_hour)) (f.of_int ns_per_hour)))
        (f.decimal 24 0)

  -- an identifier without an artifact has the zero time, long ago
  abbrev created_of : Option Artifact → ℕ
  created_of none = 0
  created_of (some a) = a.created_at

  -- `blendRecency`, with `recencyWeight` 0.15
  unfoldable pub blend_recency :
      ℕ
      → List (Ranked f.Float)
      → List (Ranked f.Float)
      → List (Text × Artifact)
      → f.Float
      → List (Ranked f.Float)
  unfolding rescore score_in find_by
  blend_recency now ordered cosines by_id half_life =
      rescore
        (λ r. blend (f.decimal 15 2) (score_of r.id cosines) (
          f.pow (f.decimal 5 1) (f.div (age_days now (created_of (find_by r.id by_id))) half_life)))
        ordered

  abbrev importance : Option Artifact → f.Float
  importance none = f.decimal 0 0
  importance (some a) = if a.tier == tier_worktree then f.decimal 1 0 else f.decimal 0 0

  -- `blendImportance`
  unfoldable pub blend_importance :
      List (Ranked f.Float)
      → List (Ranked f.Float)
      → List (Text × Artifact)
      → f.Float
      → List (Ranked f.Float)
  unfolding rescore score_in find_by
  blend_importance ordered cosines by_id w =
      rescore (λ r. blend (at_most_one w) (score_of r.id cosines) (importance (find_by r.id by_id)))
        ordered

  -- `sigmoid`
  abbrev pub sigmoid : f.Float → f.Float
  sigmoid x = f.div (f.decimal 1 0) (f.add (f.decimal 1 0) (f.exp (f.neg x)))

  -- `borderlineCosine`
  unfoldable pub borderline_cosine :
      Confidence f.Float → List (Ranked f.Float) → List (Ranked f.Float) → Bool
  unfolding score_in
  borderline_cosine conf [] cosines = false
  borderline_cosine conf (r ∷ []) cosines = f.lt (score_of r.id cosines) conf.floor
  borderline_cosine conf (r ∷ q ∷ rs) cosines =
      f.lt (score_of r.id cosines) conf.floor
      || f.lt (f.sub (score_of r.id cosines) (score_of q.id cosines)) conf.margin_floor

  -- `MinScore`
  unfoldable pub gate :
      f.Float → List (Ranked f.Float) → List (Ranked f.Float) → List (Ranked f.Float)
  unfolding filter score_in
  gate min_score cosines ordered =
      if positive min_score
      then filter (λ r. ge (score_of r.id cosines) min_score) ordered
      else ordered

  -- `out[i] = search.Result{ID: r.ID, Score: scores[i]}`
  unfoldable pub zip_scores : List (Ranked f.Float) → List f.Float → List (Ranked f.Float)
  zip_scores (r ∷ rs) (x ∷ xs) = record { id = r.id; score = x } ∷ zip_scores rs xs
  zip_scores _ _ = []

-- The edges with both ends among the candidates, by the ends' texts.
abbrev pub links : List (Text × Text) → Text → List Text
links [] id = []
links ((from, to) ∷ es) id =
    let rest = links es id in
    let back = if text_eq to id then from ∷ rest else rest in
    if text_eq from id then to ∷ back else back

module _ ⦃m : MetaEnv⦄ where
  abbrev has_score : Text → List (Ranked m.floats.Float) → Bool
  has_score k rs = any (λ r. text_eq r.id k) rs

  abbrev candidate_links : List (Ranked m.floats.Float) → List Edge → List (Text × Text)
  candidate_links cosines [] = []
  candidate_links cosines (e ∷ es) =
      let rest = candidate_links cosines es in
      let from = m.ulids.text e.from in
      let to = m.ulids.text e.to in
      if has_score from cosines && has_score to cosines then (from, to) ∷ rest else rest

  -- the loop over the neighbours: the cosines of the seeds among them
  abbrev seed_sum :
      List (Ranked m.floats.Float)
      → List (Ranked m.floats.Float)
      → m.floats.Float
      → List Text
      → m.floats.Float
  seed_sum seeds cosines sum [] = sum
  seed_sum seeds cosines sum (nb ∷ nbs) =
      seed_sum seeds cosines
        (if has_score nb seeds then m.floats.add sum (score_of ⦃f = m.floats⦄ nb cosines) else sum)
        nbs

  abbrev raw_of :
      List (Ranked m.floats.Float) → List (Text × Text) → Ranked m.floats.Float → m.floats.Float
  raw_of cosines es r =
      let seeds = take 5 (sort_stable (before ⦃f = m.floats⦄) cosines) in
      seed_sum seeds cosines (m.floats.decimal 0 0) (links es r.id)

  abbrev max_raw :
      List (Ranked m.floats.Float)
      → List (Text × Text)
      → m.floats.Float
      → List (Ranked m.floats.Float)
      → m.floats.Float
  max_raw cosines es top [] = top
  max_raw cosines es top (r ∷ rs) =
      let raw = raw_of cosines es r in
      max_raw cosines es (if m.floats.lt top raw then raw else top) rs

  -- what `blendGraph` does of the edges
  unfoldable pub blend_edges :
      List (Ranked m.floats.Float)
      → List (Ranked m.floats.Float)
      → m.floats.Float
      → List (Text × Text)
      → List (Ranked m.floats.Float)
  unfolding rescore score_in any sort_stable before
  blend_edges ordered cosines w [] = ordered
  blend_edges ordered cosines w (e ∷ es) =
      let top = max_raw cosines (e ∷ es) (m.floats.decimal 0 0) ordered in
      if not_positive ⦃f = m.floats⦄ top
      then ordered
      else rescore ⦃f = m.floats⦄
          (λ r.
            blend ⦃f = m.floats⦄ (at_most_one ⦃f = m.floats⦄ w)
              (score_of ⦃f = m.floats⦄ r.id cosines) (m.floats.div (raw_of cosines (e ∷ es) r) top))
          ordered

  -- `blendGraph`, with `graphSeedK` 5
  unfoldable pub blend_graph :
      List (Ranked m.floats.Float)
      → List (Ranked m.floats.Float)
      → m.floats.Float
      → m.bolt.Db
      → Result (List (Ranked m.floats.Float))
  unfolding blend_edges any
  blend_graph ordered cosines w d =
      if not_positive ⦃f = m.floats⦄ w || ltb (length ordered) 2
      then ok ordered
      else and_then (all_edges d)
          λ edges. ok (blend_edges ordered cosines w (candidate_links cosines edges))

module _ ⦃m : MetaEnv⦄ ⦃b : Blobs⦄ ⦃v : Vectors⦄ where
  -- `rankText`, at most `maxRankTextChars`
  unfoldable pub rank_text : Artifact → Engine → Text
  unfolding trunc_runes
  rank_text a s =
      if a.kind == kind_document && not (is_empty a.content)
      then elim (b.load a.content s.blobs) [
        | ok t ↦ trunc_runes t 2000
        | err e ↦ trunc_runes a.summary 2000
      ]
      else trunc_runes a.summary 2000

  abbrev pub passage : List (Text × Artifact) → Engine → Ranked m.floats.Float → Text
  passage by_id s r = elim (find_by r.id by_id) [ none ↦ [] | some a ↦ rank_text a s ]

  -- `rerankTop`
  unfoldable pub rerank_top :
      Encoder m.floats.Float
      → Text
      → List (Ranked m.floats.Float)
      → List (Text × Artifact)
      → ℕ
      → Engine
      → Result (List (Ranked m.floats.Float))
  unfolding rank_text find_by zip_scores sort_stable before
  rerank_top enc query ordered by_id n s =
      let cand = take (if n == 0 then 50 else n) ordered in
      and_then (enc.rerank query (map (passage by_id s) cand))
        λ scores. ok (sort_stable (before ⦃f = m.floats⦄) (zip_scores ⦃f = m.floats⦄ cand scores))
