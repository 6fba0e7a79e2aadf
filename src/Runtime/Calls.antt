-- ===== src/Runtime/Calls.antt =====
-- internal/runtime/dispatch.go: `call`, which routes one method to the engine; the engine behind it is
-- that of the Engine modules. Each call draws its identifiers and its time from `Draws`.
pub mod Reads
pub mod Intact
pub mod Readers
use ioc.Base.{
  ℕ, suc, Bool, true, false, List, [], ◌∷◌, Text, bytes, Option, none, some, Error, Result, ok, err,
  internal, invalid_input, Exec, pure, reads, ◌>>=◌, ◌>>◌,
}
use ioc.Core.Types.{Ulid}
use ioc.Search.{Unicode}
use ioc.Storage.Meta.{
  MetaEnv, Codec, get_config, put_config, get_trace, list_scopes, get_scope, list_artifacts,
}
use ioc.Storage.Interfaces.{Blobs, Vectors, Embedder}
use ioc.Engine.State.{Engine, on_db, look, create_scope}
use ioc.Engine.Push.{push, supersede, publish, rollup_scope}
use ioc.Engine.Relations.{relate}
use ioc.Engine.Branch.{fork, consolidate, cross_version}
use ioc.Engine.Admin.{drop_artifact, drop_scope, sync_engine}
use ioc.Engine.Visibility.{ancestors_of}
use ioc.Engine.Reading.{drill, sibling_overview, related}
use ioc.Engine.Query.{Rankers, query, neighbors, recent_traces}
use ioc.Runtime.Json.{Decoder, decode}
use ioc.Runtime.Wire.{
  Method, Wire, Params, Reply, case_of, all_methods, ConfigResult, m_create_scope, m_push, m_query,
  m_neighbors, m_drill, m_publish, m_sibling_overview, m_ancestors, m_fork, m_consolidate,
  m_cross_version, m_rollup_scope, m_trace, m_recent_traces, m_list_scopes, m_get_scope,
  m_list_artifacts, m_delete_artifact, m_delete_scope, m_supersede, m_relate, m_related, m_config,
  m_set_config, m_emb_model,
}
use ioc.Runtime.Server.{Backend, Request, Response}

-- The body of a request or of a result: JSON, or nothing where the method has none.
pub data Body (A : Type 0) : Type 0 where
  absent : A → Body A
  json : Codec A → Body A

abbrev pub or_internal : Result Text → Result Text
or_internal (ok t) = ok t
or_internal (err e) = err internal

module _ {A : Type 0} where
  unfoldable pub read_body : ⦃j : Decoder⦄ → Body A → Text → Result A
  unfolding decode
  read_body (absent a) raw = ok a
  read_body (json c) raw = decode c.unmarshal raw

  -- `marshalRaw`
  unfoldable pub write_body : Body A → A → Result Text
  write_body (absent a) x = ok []
  write_body (json c) x = or_internal (c.marshal x)

-- `core.NewID` and `time.Now`: the i-th identifier and the time that the n-th call draws
pub record Draws : Type 0 where
  pub ids : ℕ → ℕ → Ulid
  pub now : ℕ → ℕ

module _ ⦃m : MetaEnv⦄ ⦃w : Wire⦄ where
  unfoldable pub params_body : (c : Method) → Body (Params c)
  params_body m_create_scope = json w.create_scope_params
  params_body m_push = json w.push_params
  params_body m_query = json w.query_params
  params_body m_neighbors = json w.neighbors_params
  params_body m_drill = json w.drill_params
  params_body m_publish = json w.id_params
  params_body m_sibling_overview = json w.scope_params
  params_body m_ancestors = json w.scope_params
  params_body m_fork = json w.fork_params
  params_body m_consolidate = json w.consolidate_params
  params_body m_cross_version = json w.cross_version_params
  params_body m_rollup_scope = json w.scope_summary_params
  params_body m_trace = json w.id_params
  params_body m_recent_traces = json w.recent_traces_params
  params_body m_list_scopes = absent tt
  params_body m_get_scope = json w.id_params
  params_body m_list_artifacts = absent tt
  params_body m_delete_artifact = json w.id_params
  params_body m_delete_scope = json w.id_params
  params_body m_supersede = json w.supersede_params
  params_body m_relate = json w.relate_params
  params_body m_related = json w.related_params
  params_body m_config = json w.config_params
  params_body m_set_config = json w.set_config_params
  params_body m_emb_model = absent tt

  unfoldable pub reply_body : (c : Method) → Body (Reply c)
  reply_body m_create_scope = json w.scope_result
  reply_body m_push = json w.artifact_result
  reply_body m_query = json w.query_result
  reply_body m_neighbors = json w.hits_result
  reply_body m_drill = json w.hit_result
  reply_body m_publish = absent tt
  reply_body m_sibling_overview = json w.hits_result
  reply_body m_ancestors = json w.scopes_result
  reply_body m_fork = json w.scope_result
  reply_body m_consolidate = json w.artifact_result
  reply_body m_cross_version = json w.scope_result
  reply_body m_rollup_scope = absent tt
  reply_body m_trace = json w.trace_result
  reply_body m_recent_traces = json w.traces_result
  reply_body m_list_scopes = json w.scopes_result
  reply_body m_get_scope = json w.scope_result
  reply_body m_list_artifacts = json w.artifacts_result
  reply_body m_delete_artifact = absent tt
  reply_body m_delete_scope = absent tt
  reply_body m_supersede = absent tt
  reply_body m_relate = absent tt
  reply_body m_related = json w.hits_result
  reply_body m_config = json w.config_result
  reply_body m_set_config = absent tt
  reply_body m_emb_model = json w.emb_model_result

module _ ⦃m : MetaEnv⦄ ⦃b : Blobs⦄ ⦃v : Vectors⦄ where
  -- an operation of the engine that only reads it
  abbrev pub viewing : {A : Type 0} → (Engine → Result A) → Exec Engine A
  viewing f s = (f s, s)

  abbrev pub found_value : Option Text → ConfigResult
  found_value none = record { val = []; found = false }
  found_value (some t) = record { val = t; found = true }

  module _ ⦃em : Embedder⦄ ⦃u : Unicode⦄ (rk : Rankers m.floats.Float) where
    -- the engine's call for each case of the switch, with its identifiers and its time
    unfoldable pub run : (c : Method) → Params c → (ℕ → Ulid) → ℕ → Exec Engine (Reply c)
    unfolding create_scope push query neighbors publish fork consolidate cross_version rollup_scope
        supersede relate drop_artifact drop_scope put_config on_db
    run m_create_scope p ids now = create_scope p.parent p.role p.title (ids 0) now
    run m_push p ids now = push p.req (ids 0) now
    run m_query p ids now = do
      out ← query rk (ids 0) now p.query
      pure (record { query_id = out.0; hits = out.1 })
    run m_neighbors p ids now = neighbors rk (ids 0) now p.scope p.text p.k
    run m_drill p ids now = viewing (drill p.artifact p.detail)
    run m_publish p ids now = publish p.id
    run m_sibling_overview p ids now = viewing (sibling_overview p.scope)
    run m_ancestors p ids now = look (ancestors_of p.scope)
    run m_fork p ids now = fork p.source p.title (ids 0) (λ i. ids (suc i)) now
    run m_consolidate p ids now = consolidate p.scope p.summary p.supersedes (ids 0) now
    run m_cross_version p ids now = cross_version p.scope p.seed (ids 0) (λ i. ids (suc i)) now
    run m_rollup_scope p ids now = rollup_scope p.scope p.summary
    run m_trace p ids now = look (get_trace p.id)
    run m_recent_traces p ids now = look (recent_traces p.n)
    run m_list_scopes p ids now = look list_scopes
    run m_get_scope p ids now = look (get_scope p.id)
    run m_list_artifacts p ids now = look list_artifacts
    run m_delete_artifact p ids now = drop_artifact p.id
    run m_delete_scope p ids now = drop_scope p.id
    run m_supersede p ids now = supersede p.old p.replacement
    run m_relate p ids now = relate p.from p.to p.kind now
    run m_related p ids now = viewing (related p.artifact p.kinds p.dir p.depth)
    run m_config p ids now = viewing (λ s. ok (found_value (get_config p.key s.db)))
    run m_set_config p ids now = on_db (put_config p.key p.val)
    run m_emb_model p ids now = pure (record { model = em.model })

    module _ ⦃w : Wire⦄ ⦃j : Decoder⦄ where
      -- one case of the switch: decode, run, marshal
      unfoldable pub call_as : Method → Text → (ℕ → Ulid) → ℕ → Exec Engine Text
      unfolding read_body run write_body
      call_as c raw ids now = do
        p ← reads (λ s. read_body (params_body c) raw)
        r ← run c p ids now
        reads (λ s. write_body (reply_body c) r)

      abbrev pub call_case : Option Method → Text → (ℕ → Ulid) → ℕ → Exec Engine Text
      call_case none raw ids now s = (err invalid_input, s)
      call_case (some c) raw ids now s = call_as c raw ids now s

      -- `call`
      unfoldable pub call : Text → Text → (ℕ → Ulid) → ℕ → Exec Engine Text
      unfolding call_as case_of
      call method raw ids now = call_case (case_of all_methods method) raw ids now

-- the engine, and how many calls it has had
pub record Host ⦃m : MetaEnv⦄ ⦃b : Blobs⦄ ⦃v : Vectors⦄ : Type 0 where
  pub engine : Engine
  pub calls : ℕ

-- encoding/json on an envelope, with no law: a raw message in it is written in its compact form
pub record Json (A : Type 0) : Type 0 where
  pub marshal : A → Result Text
  pub unmarshal : Text → Result A

-- What the daemon has beside the engine: crypto/rand, the file runtime.json, and the JSON of the
-- envelopes.
pub record Surroundings : Type 0 where
  pub draws : Draws
  pub new_token : ℕ → ℕ → Result Text
  pub write_info : Text → Result (Unit {0})
  pub request_json : Json Request
  pub response_json : Json Response
  pub token_json : Text → Text → Text
  pub stats_json : Text → ℕ → Text

abbrev pub as_option {ℓ} : {A : Type ℓ} → Result A → Option A
as_option (ok a) = some a
as_option (err e) = none

abbrev pub parsed : Surroundings → Text → Option Request
parsed o raw = as_option (o.request_json.unmarshal raw)

module _ ⦃m : MetaEnv⦄ ⦃b : Blobs⦄ ⦃v : Vectors⦄ ⦃em : Embedder⦄ ⦃u : Unicode⦄ ⦃w : Wire⦄
    ⦃j : Decoder⦄ (rk : Rankers m.floats.Float) (o : Surroundings) where
  unfoldable pub host_call : Text → Text → Exec Host Text
  unfolding call
  host_call method raw h =
      let (r, s) = call rk method raw (o.draws.ids h.calls) (o.draws.now h.calls) h.engine in
      (r, record { engine = s; calls = suc h.calls })

  unfoldable pub host_sync : Exec Host (Unit {0})
  unfolding sync_engine
  host_sync h = let (r, s) = sync_engine h.engine in (r, record h { engine = s })

  -- the daemon's server over the engine
  abbrev pub daemon : Backend
  daemon = record {
    Store = Host;
    call = host_call;
    sync = host_sync;
    report = λ h requests. o.stats_json em.model requests;
    new_token = o.new_token;
    write_info = o.write_info;
    parse = parsed o;
    token_json = o.token_json;
  }
