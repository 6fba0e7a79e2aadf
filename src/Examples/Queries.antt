-- ===== src/Examples/Queries.antt =====
-- A search over two vectors, and a query of a store with one artifact.
use ioc.Base.{
  ℕ, ◌≤◌, true, false, not, ◌||◌, List, [], ◌∷◌, Text, none, some, bytes, ◌≡◌, refl, ok, All,
  length, arith, ltb, ◌==◌, text_eq, text_lt, any, filter,
}
use ioc.Core.Types.{Artifact, Hit, Ulid, lookup}
use ioc.Storage.Meta.{
  get_scope, get_json, read_value, decode_value, decode_with, put_scope, put_artifact, put_json,
  encode_value, encode_with, artifacts_in_scope, child_scopes, scan, list_scopes,
}
use ioc.Search.{Unicode, search, score_all, dot, before, sort_stable, insert}
use ioc.Search.Top.{NumberOrder, AreTop, search-AreTop}
use ioc.Engine.State.{Engine}
use ioc.Engine.Query.{Query, Rankers, answer, candidates, top_k_of}
use ioc.Engine.Query.Pipeline.Answers.{IsAnswer, answer-AreAnswers}
use ioc.Engine.Query.{query, record_trace, trace}
use ioc.Core.Utf8.{is_utf8_trace}
use ioc.Engine.Query.Effects.{OnlyTraces, query-OnlyTraces}
use ioc.Engine.Query.Traces.{Traced, get_trace-query}
use ioc.Engine.State.{embed_query, reconcile_model}
use ioc.Storage.Meta.{put_trace, put_config, get_config}
use ioc.Engine.State.{look, on_db}
use ioc.Base.{reads, pure, guard, ◌>>=◌}
use ioc.Engine.Visibility.{
  visible_artifacts, add_all, add, accepts, add_scopes, ancestors_of, ancestor_loop, siblings_of,
  in_view,
}
use ioc.Engine.State.{created_scope}
use ioc.Engine.Push.{pushed, with_trust, union_ids}
use ioc.Core.Maps.{strip}
use ioc.Engine.Rollup.{descendant_scopes}
use ioc.Engine.Rollup.Descendants.{AreDescendants, descendant_scopes-AreDescendants}
use ioc.Core.Types.{Scope}
use ioc.Base.{transact}
use ioc.Engine.Reading.{hit_of, build_hit, scope_path, scope_label}
use ioc.Engine.Query.{
  current, of_kinds, index_all, index_one, final_order, build_hits, base_order, will_rerank,
  tie_breaks, graph_boost, reranked_order,
}
use ioc.Engine.Ranking.{map_of, assign, score_in, find_by, gate}
use ioc.Search.{dot_loop}
use ioc.Examples.Libraries.{fixed, sample_meta, sample_blobs, sample_vectors, sample_embedder}
use ioc.Examples.Witnesses.{stored_store, first_artifact, stored_store-IsIntact}

fixed_eq : (a b : ℕ) → (a == b) ≡ not (ltb a b || ltb b a)
fixed_eq a b = ground arith

fixed_asymm : (a b : ℕ) → ltb a b ≡ true → ltb b a ≡ false
fixed_asymm a b h = ground (arith, h)

fixed_chain : (a b c : ℕ) → ltb a b ≡ false → ltb b c ≡ false → ltb a c ≡ false
fixed_chain a b c h k = ground (arith, h, k)

abbrev fixed_order : NumberOrder fixed
fixed_order = record {
  IsNumber = λ a. Unit;
  eq_iff_neither = λ a b p q. fixed_eq a b;
  lt_asymm = λ a b p q h. fixed_asymm a b h;
  lt_chain = λ a b c p q r h k. fixed_chain a b c h k;
}

abbrev two_vectors : List (Text × List ℕ)
two_vectors = (bytes "a", 1 ∷ []) ∷ (bytes "b", 3 ∷ []) ∷ []

vector_scores : All {0, 0} (λ r. Unit) (score_all ⦃f = fixed⦄ (2 ∷ []) two_vectors)
unfolding score_all
vector_scores = (tt, (tt, tt))

search-AreTop_example :
    AreTop ⦃f = fixed⦄ 1
      (search ⦃f = fixed⦄ (2 ∷ []) 1 two_vectors)
      (score_all ⦃f = fixed⦄ (2 ∷ []) two_vectors)
search-AreTop_example = search-AreTop ⦃f = fixed⦄ fixed_order (2 ∷ []) 1 two_vectors vector_scores

instance abbrev pub ascii : Unicode
ascii = record { to_lower = λ t. t; is_letter = λ r. true; is_digit = λ r. false }

abbrev pub no_rankers : Rankers ℕ
no_rankers = record { encoder = none; parse_float = λ t. none }

-- the artifact's vector is in the store
abbrev embedded_store : Engine
embedded_store = record stored_store { emb = some ((3 ∷ []) ∷ []) }

abbrev plain_query : Query ℕ
plain_query = record {
  scope = 1;
  text = bytes "cache";
  detail = 0;
  top_k = 0;
  tier = 0;
  mode = 0;
  min_score = 1;
  hierarchical = false;
  coarse_k = 0;
  collapsed = false;
  kinds = [];
  rerank = false;
  rerank_n = 0;
  auto_rerank = false;
  include_superseded = false;
  recency_half_life_days = 0;
  graph_boost = 0;
  importance_weight = 0;
}

abbrev reply : List (Hit ℕ) × List Ulid
reply = (hit_of first_artifact 6000000 (bytes "repo") [] ∷ [], 2 ∷ [])

found_one : candidates plain_query (2 ∷ []) embedded_store ≡ ok (first_artifact ∷ [])
unfolding candidates visible_artifacts add_all add accepts add_scopes ancestors_of ancestor_loop
    siblings_of in_view artifacts_in_scope child_scopes scan get_scope get_json read_value
    decode_value decode_with put_scope put_artifact put_json encode_value encode_with transact
    pushed created_scope with_trust union_ids lookup text_eq filter any strip list_scopes
found_one = refl

answers : answer no_rankers 200 plain_query (2 ∷ []) embedded_store ≡ ok reply
unfolding answer candidates visible_artifacts add_all add accepts add_scopes ancestors_of
    ancestor_loop siblings_of in_view artifacts_in_scope child_scopes scan get_scope get_json
    read_value decode_value decode_with put_scope put_artifact put_json encode_value encode_with
    transact pushed created_scope with_trust union_ids lookup text_eq filter any strip list_scopes
    current of_kinds index_all index_one final_order build_hits map_of assign score_in find_by
    base_order will_rerank tie_breaks graph_boost gate reranked_order search score_all dot dot_loop
    sort_stable insert before text_lt build_hit scope_path scope_label
answers = refl

answer-AreAnswers_example :
    (found : List Artifact) × (candidates plain_query (2 ∷ []) embedded_store ≡ ok found)
    × (length reply.0 ≤ top_k_of plain_query)
    × All (IsAnswer plain_query found (2 ∷ []) embedded_store) reply.0
answer-AreAnswers_example =
    answer-AreAnswers no_rankers 200 plain_query (2 ∷ []) embedded_store reply answers

descendant_scopes-AreDescendants_example :
    (out : List Scope) × (descendant_scopes 1 stored_store.db ≡ ok out)
    × AreDescendants stored_store.db stored_store-IsIntact 1 out
descendant_scopes-AreDescendants_example =
    descendant_scopes-AreDescendants stored_store.db stored_store-IsIntact 1

query-OnlyTraces_example :
    OnlyTraces embedded_store (query no_rankers 7 200 plain_query embedded_store).1
query-OnlyTraces_example = query-OnlyTraces no_rankers 7 200 plain_query embedded_store

abbrev far : List (Hit ℕ) × List Ulid
far = (hit_of first_artifact 15000000 (bytes "repo") [] ∷ [], 2 ∷ [])

abbrev asking : Engine
asking = (embed_query plain_query.text embedded_store).1

embedded : (embed_query plain_query.text embedded_store).0 ≡ ok (5 ∷ [])
unfolding embed_query reconcile_model reads pure guard ◌>>=◌ look on_db put_config get_config lookup
    text_eq put_scope put_artifact put_json encode_value encode_with transact pushed created_scope
    any filter
embedded = refl

answered : answer no_rankers 200 plain_query (5 ∷ []) asking ≡ ok far
unfolding answer candidates visible_artifacts add_all add accepts add_scopes ancestors_of
    ancestor_loop siblings_of in_view artifacts_in_scope child_scopes scan get_scope get_json
    read_value decode_value decode_with put_scope put_artifact put_json encode_value encode_with
    transact pushed created_scope with_trust union_ids lookup text_eq filter any strip list_scopes
    current of_kinds index_all index_one final_order build_hits map_of assign score_in find_by
    base_order will_rerank tie_breaks graph_boost gate reranked_order search score_all dot dot_loop
    sort_stable insert before text_lt build_hit scope_path scope_label embed_query reconcile_model
    reads pure guard ◌>>=◌ look on_db put_config get_config
answered = refl

trace_clean : is_utf8_trace (trace no_rankers 7 200 plain_query far) ≡ true
unfolding pushed with_trust union_ids any filter strip text_eq
trace_clean = refl

trace_written : (put_trace (trace no_rankers 7 200 plain_query far) asking.db).0 ≡ ok tt
unfolding put_trace put_json encode_value encode_with transact
trace_written = refl

asked :
    (query no_rankers 7 200 plain_query embedded_store).0
    ≡ ok (7, hit_of first_artifact 15000000 (bytes "repo") [] ∷ [])
unfolding query answer candidates visible_artifacts add_all add accepts add_scopes ancestors_of
    ancestor_loop siblings_of in_view artifacts_in_scope child_scopes scan get_scope get_json
    read_value decode_value decode_with put_scope put_artifact put_json encode_value encode_with
    transact pushed created_scope with_trust union_ids lookup text_eq filter any strip list_scopes
    current of_kinds index_all index_one final_order build_hits map_of assign score_in find_by
    base_order will_rerank tie_breaks graph_boost gate reranked_order search score_all dot dot_loop
    sort_stable insert before text_lt build_hit scope_path scope_label embed_query reconcile_model
    reads pure guard ◌>>=◌ look on_db put_config get_config record_trace put_trace
asked = refl

get_trace-query_example :
    Traced 7 plain_query (7, far.0) (query no_rankers 7 200 plain_query embedded_store).1
get_trace-query_example =
    get_trace-query no_rankers 7 200 plain_query embedded_store (5 ∷ []) embedded far answered
      trace_clean trace_written (7, far.0) asked
