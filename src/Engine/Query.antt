-- ===== src/Engine/Query.antt =====
-- internal/engine/query.go: Query, Neighbors, RecentTraces.
pub mod Pipeline
pub mod Effects
pub mod Traces
use ioc.Base.{
  ℕ, zero, suc, Bool, true, false, not, ◌&&◌, ◌||◌, List, [], ◌∷◌, ◌++◌, Text, ◌==◌, leb, ltb, any,
  filter, map, length, take, Option, none, some, Result, ok, err, internal, invalid_input, and_then,
  Exec, pure, reads, guard, ◌>>=◌, ◌>>◌, if◌then◌else◌, text_lt,
}
use ioc.Core.Types.{Ulid, Artifact, Hit, TraceRecord, is_zero, matches_kinds, detail_overview}
use ioc.Core.Floats.{Floats}
use ioc.Core.Confidence.{resolve_confidence}
use ioc.Storage.Meta.{MetaEnv, get_scope, get_config, put_trace, list_traces}
use ioc.Storage.Interfaces.{Blobs, Vectors, Embedder}
use ioc.Search.{Ranked, Unicode, Bm25, search, sort_stable, new_bm25, bm_add, bm_search, rrf}
use ioc.Engine.State.{Engine, on_db, look, embed_query}
use ioc.Engine.Visibility.{visible_artifacts}
use ioc.Engine.Rollup.{vector_of, collapsed_candidates, coarse_to_fine_candidates}
use ioc.Engine.Reading.{build_hit}
use ioc.Engine.Ranking.{
  Encoder, find_by, assign, map_of, score_in, score_of, positive, sigmoid, borderline_cosine,
  blend_recency, blend_importance, blend_graph, gate, rank_text, rerank_top,
}

abbrev pub mode_vector : ℕ
mode_vector = 0

abbrev pub mode_hybrid : ℕ
mode_hybrid = 1

-- `Query`
pub record Query (F : Type 0) : Type 0 where
  pub scope : Ulid
  pub text : Text
  pub detail : ℕ
  pub top_k : ℕ
  pub tier : ℕ
  pub mode : ℕ
  pub min_score : F
  pub hierarchical : Bool
  pub coarse_k : ℕ
  pub collapsed : Bool
  pub kinds : List ℕ
  pub rerank : Bool
  pub rerank_n : ℕ
  pub auto_rerank : Bool
  pub include_superseded : Bool
  pub recency_half_life_days : F
  pub graph_boost : F
  pub importance_weight : F

-- what the loop over the candidates fills: the vector set, the lexical index, `byID`, and `visible`
pub record Index (F : Type 0) : Type 0 where
  pub set : List (Text × List ℕ)
  pub bm : Bm25 F
  pub by_id : List (Text × Artifact)
  pub visible : List Ulid

-- The engine's optional parts: the reranker, and `strconv.ParseFloat` for the configured floors.
pub record Rankers (F : Type 0) : Type 0 where
  pub encoder : Option (Encoder F)
  pub parse_float : Text → Option F

-- the filters on currency and on kinds
unfoldable pub current : Bool → List Artifact → List Artifact
unfolding filter
current include_superseded as' =
    if not include_superseded then filter (λ a. is_zero a.superseded_by) as' else as'

unfoldable pub of_kinds : List ℕ → List Artifact → List Artifact
unfolding filter matches_kinds
of_kinds kinds as' =
    if ltb 0 (length kinds) then filter (λ a. matches_kinds kinds a.kind) as' else as'

module _ ⦃m : MetaEnv⦄ ⦃b : Blobs⦄ ⦃v : Vectors⦄ ⦃u : Unicode⦄ where
  abbrev pub Scores : Type 0
  Scores = List (Ranked m.floats.Float)

  -- one candidate
  unfoldable pub index_one : ℕ → Engine → Index m.floats.Float → Artifact → Index m.floats.Float
  unfolding bm_add rank_text
  index_one mode s ix a = elim (vector_of a.emb_ref s.emb) [
    | none ↦ record ix { visible = ix.visible ++ (a.id ∷ []) }
    | some vec ↦ record {
      set = ix.set ++ ((m.ulids.text a.id, vec) ∷ []);
      bm =
          if mode == mode_hybrid
          then bm_add ⦃f = m.floats⦄ (m.ulids.text a.id) (rank_text a s) ix.bm
          else ix.bm;
      by_id = (m.ulids.text a.id, a) ∷ ix.by_id;
      visible = ix.visible ++ (a.id ∷ []);
    }
  ]

  unfoldable pub index_all :
      ℕ → Engine → Index m.floats.Float → List Artifact → Index m.floats.Float
  unfolding index_one
  index_all mode s ix [] = ix
  index_all mode s ix (a ∷ as') = index_all mode s (index_one mode s ix a) as'

  abbrev pub no_index : Index m.floats.Float
  no_index = record { set = []; bm = new_bm25 ⦃f = m.floats⦄; by_id = []; visible = [] }

  -- the candidates of the mode
  unfoldable pub candidates : Query m.floats.Float → List ℕ → Engine → Result (List Artifact)
  unfolding coarse_to_fine_candidates collapsed_candidates visible_artifacts
  candidates q qvec s =
      if q.hierarchical
      then coarse_to_fine_candidates q.scope qvec q.coarse_k q.tier q.include_superseded s
      else if q.collapsed
      then collapsed_candidates q.scope q.tier q.include_superseded s.db
      else visible_artifacts q.scope q.tier q.include_superseded s.db

  -- the candidates that compete
  abbrev pub competing : Query m.floats.Float → List Artifact → List Artifact
  competing q as' = of_kinds q.kinds (current q.include_superseded as')

  -- `vecRanked`
  abbrev pub cosine_order : List ℕ → Index m.floats.Float → Scores
  cosine_order qvec ix = search ⦃f = m.floats⦄ qvec (length ix.set) ix.set

  -- the vector order, or its fusion with the lexical one
  unfoldable pub base_order : Query m.floats.Float → List ℕ → Index m.floats.Float → Scores
  unfolding search rrf bm_search
  base_order q qvec ix =
      if q.mode == mode_hybrid
      then rrf ⦃f = m.floats⦄ 60 (cosine_order qvec ix)
          (bm_search ⦃f = m.floats⦄ q.text (length ix.bm.docs) ix.bm)
      else cosine_order qvec ix

  abbrev is_some {ℓ} : {A : Type ℓ} → Option A → Bool
  is_some none = false
  is_some (some a) = true

  module _ ⦃em : Embedder⦄ (rk : Rankers m.floats.Float) (now : ℕ) where
    -- `willRerank`
    unfoldable pub will_rerank : Query m.floats.Float → Scores → Scores → m.bolt.Db → Bool
    unfolding borderline_cosine resolve_confidence get_config
    will_rerank q ordered cosines d =
        is_some rk.encoder
        && (q.rerank
            || (q.auto_rerank
                && borderline_cosine ⦃f = m.floats⦄
                    (resolve_confidence ⦃f = m.floats⦄ rk.parse_float (λ k. get_config k d)
                      em.model)
                    ordered cosines))

    -- the recency and importance tie-breakers, on the vector order only, and not before a rerank
    unfoldable pub tie_breaks :
        Query m.floats.Float → Bool → Scores → List (Text × Artifact) → Scores → Scores
    unfolding blend_recency blend_importance
    tie_breaks q reranks cosines by_id ordered =
        let recent =
          if positive ⦃f = m.floats⦄ q.recency_half_life_days
            && (q.mode == mode_vector && not reranks)
          then blend_recency ⦃f = m.floats⦄ now ordered cosines by_id q.recency_half_life_days
          else ordered in
        if positive ⦃f = m.floats⦄ q.importance_weight && (q.mode == mode_vector && not reranks)
        then blend_importance ⦃f = m.floats⦄ recent cosines by_id q.importance_weight
        else recent

    unfoldable pub graph_boost :
        Query m.floats.Float → Bool → Scores → Scores → m.bolt.Db → Result Scores
    unfolding blend_graph
    graph_boost q reranks cosines ordered d =
        if positive ⦃f = m.floats⦄ q.graph_boost && not reranks
        then blend_graph ordered cosines q.graph_boost d
        else ok ordered

    -- the rerank: a failing reranker leaves the order as it is; the scores are normalized
    abbrev with_scores : Scores → Result Scores → Scores × Scores
    with_scores ordered (err e) = (ordered, [])
    with_scores ordered (ok reranked) = (
      reranked,
      map_of ⦃f = m.floats⦄ []
          (map (λ r. record { id = r.id; score = sigmoid ⦃f = m.floats⦄ r.score }) reranked),
    )

    unfoldable pub reranked_order :
        Query m.floats.Float → Bool → List (Text × Artifact) → Scores → Engine → Scores × Scores
    unfolding rerank_top map_of
    reranked_order q reranks by_id ordered s =
        if not reranks then (ordered, []) else elim rk.encoder [
          | none ↦ (ordered, [])
          | some enc ↦ with_scores ordered (rerank_top enc q.text ordered by_id q.rerank_n s)
        ]

    -- the final order, and the rerank scores
    unfoldable pub final_order :
        Query m.floats.Float → List ℕ → Index m.floats.Float → Engine → Result (Scores × Scores)
    unfolding base_order will_rerank tie_breaks graph_boost gate reranked_order map_of
    final_order q qvec ix s =
        let cosines = map_of ⦃f = m.floats⦄ [] (cosine_order qvec ix) in
        let base = base_order q qvec ix in
        let reranks = will_rerank q base cosines s.db in
        and_then (graph_boost q reranks cosines (tie_breaks q reranks cosines ix.by_id base) s.db)
          λ boosted.
            ok (
              reranked_order q reranks ix.by_id (gate ⦃f = m.floats⦄ q.min_score cosines boosted) s)

  abbrev pub rescored : Option m.floats.Float → Hit m.floats.Float → Hit m.floats.Float
  rescored none h = h
  rescored (some x) h = record h { rerank_score = some x }

  -- the loop that builds the hits, at most `n`
  unfoldable pub build_hits :
      ℕ
      → ℕ
      → Scores
      → Scores
      → List (Text × Artifact)
      → Scores
      → Engine
      → Result (List (Hit m.floats.Float))
  unfolding find_by score_in build_hit
  build_hits zero detail cosines reranks by_id ordered s = ok []
  build_hits (suc n) detail cosines reranks by_id [] s = ok []
  build_hits (suc n) detail cosines reranks by_id (r ∷ rs) s = elim (find_by r.id by_id) [
    | none ↦ build_hits (suc n) detail cosines reranks by_id rs s
    | some a ↦ and_then (build_hit a (score_of ⦃f = m.floats⦄ r.id cosines) detail s) λ h.
        and_then (build_hits n detail cosines reranks by_id rs s)
          λ hs. ok (rescored (score_in ⦃f = m.floats⦄ r.id reranks) h ∷ hs)
  ]

  abbrev pub top_k_of : Query m.floats.Float → ℕ
  top_k_of q = if q.top_k == 0 then 5 else q.top_k

  abbrev pub detail_of : Query m.floats.Float → ℕ
  detail_of q = if q.detail == 0 then detail_overview else q.detail

  module _ ⦃em : Embedder⦄ (rk : Rankers m.floats.Float) where
    -- what a query answers, once its text has a vector
    unfoldable pub answer :
        ℕ → Query m.floats.Float → List ℕ → Engine → Result (List (Hit m.floats.Float) × List Ulid)
    unfolding candidates current of_kinds index_all final_order build_hits map_of
    answer now q qvec s = and_then (candidates q qvec s) λ as'.
        let ix = index_all q.mode s no_index (competing q as') in
        and_then (final_order rk now q qvec ix s) λ order.
          and_then
            (build_hits (top_k_of q) (detail_of q) (map_of ⦃f = m.floats⦄ [] (cosine_order qvec ix))
              order.1 ix.by_id order.0 s)
            λ hits. ok (hits, ix.visible)

    abbrev dims_match : List ℕ → Option v.Store → Bool
    dims_match qvec none = true
    dims_match qvec (some es) = length qvec == v.dims es

    abbrev pub trace :
        Ulid
        → ℕ
        → Query m.floats.Float
        → List (Hit m.floats.Float) × List Ulid
        → TraceRecord m.floats.Float
    trace id now q out = record {
      query_id = id;
      scope = q.scope;
      text = q.text;
      emb_model = em.model;
      visible_set = out.1;
      hits = out.0;
      drills = [];
      created_at = now;
    }

    -- the trace is written, and a failure of that is dropped
    unfoldable pub record_trace : TraceRecord m.floats.Float → Engine → Engine
    unfolding put_trace on_db
    record_trace t s = (on_db (put_trace t) s).1

    abbrev recorded :
        Ulid
        → ℕ
        → Query m.floats.Float
        → Result (List (Hit m.floats.Float) × List Ulid)
        → Exec Engine (Ulid × List (Hit m.floats.Float))
    recorded id now q (err e) s = (err e, s)
    recorded id now q (ok out) s = (ok (id, out.0), record_trace (trace id now q out) s)

    -- `Query`, with the identifier and the time that it draws
    unfoldable pub query :
        Ulid → ℕ → Query m.floats.Float → Exec Engine (Ulid × List (Hit m.floats.Float))
    unfolding embed_query answer look record_trace
    query id now q = do
      look (get_scope q.scope)
      qvec ← embed_query q.text
      (λ s. guard (dims_match qvec s.emb) invalid_input s)
      (λ s. recorded id now q (answer now q qvec s) s)

    -- the query of `Neighbors`; every option off
    unfoldable pub neighbour_query : Ulid → Text → ℕ → Query m.floats.Float
    neighbour_query scope text k = record {
      scope = scope;
      text = text;
      detail = detail_overview;
      top_k = if k == 0 then 5 else k;
      tier = 0;
      mode = mode_vector;
      min_score = m.floats.decimal 0 0;
      hierarchical = false;
      coarse_k = 0;
      collapsed = false;
      kinds = [];
      rerank = false;
      rerank_n = 0;
      auto_rerank = false;
      include_superseded = false;
      recency_half_life_days = m.floats.decimal 0 0;
      graph_boost = m.floats.decimal 0 0;
      importance_weight = m.floats.decimal 0 0;
    }

    -- `Neighbors`
    unfoldable pub neighbors : Ulid → ℕ → Ulid → Text → ℕ → Exec Engine (List (Hit m.floats.Float))
    unfolding query neighbour_query
    neighbors id now scope text k = do out ← query id now (neighbour_query scope text k); pure out.1

module _ ⦃m : MetaEnv⦄ where
  -- `RecentTraces`
  unfoldable pub recent_traces : ℕ → m.bolt.Db → Result (List (TraceRecord m.floats.Float))
  unfolding sort_stable text_lt
  recent_traces n d = and_then (list_traces d) λ every.
      let newest =
        sort_stable (λ x y. text_lt (m.ulids.text y.query_id) (m.ulids.text x.query_id)) every in
      ok (if ltb 0 n && ltb n (length newest) then take n newest else newest)
