-- ===== src/Runtime/Wire.antt =====
-- internal/runtime/proto.go: the methods by their names, and the parameters and results of each.
use ioc.Base.{
  is_utf8, All, true, ok, ◌≡◌, ℕ, Bool, List, [], ◌∷◌, Text, bytes, Option, none, some, text_eq,
  if◌then◌else◌,
}
use ioc.Core.Types.{Ulid, Scope, Artifact, PushRequest, Seed, Hit, TraceRecord}
use ioc.Storage.Meta.{MetaEnv, Codec}
use ioc.Engine.Query.{Query}

-- the constants of the method names that reach the engine
pub data Method : Type 0 where
  m_create_scope m_push m_query m_neighbors m_drill m_publish m_sibling_overview m_ancestors :
      Method
  m_fork m_consolidate m_cross_version m_rollup_scope m_trace m_recent_traces m_list_scopes : Method
  m_get_scope m_list_artifacts m_delete_artifact m_delete_scope m_supersede m_relate m_related :
      Method
  m_config m_set_config m_emb_model : Method

unfoldable pub name_of : Method → Text
name_of m_create_scope = bytes "create_scope"
name_of m_push = bytes "push"
name_of m_query = bytes "query"
name_of m_neighbors = bytes "neighbors"
name_of m_drill = bytes "drill"
name_of m_publish = bytes "publish"
name_of m_sibling_overview = bytes "sibling_overview"
name_of m_ancestors = bytes "ancestors"
name_of m_fork = bytes "fork"
name_of m_consolidate = bytes "consolidate"
name_of m_cross_version = bytes "crossversion"
name_of m_rollup_scope = bytes "rollup"
name_of m_trace = bytes "trace"
name_of m_recent_traces = bytes "recent_traces"
name_of m_list_scopes = bytes "list_scopes"
name_of m_get_scope = bytes "get_scope"
name_of m_list_artifacts = bytes "list_artifacts"
name_of m_delete_artifact = bytes "delete_artifact"
name_of m_delete_scope = bytes "delete_scope"
name_of m_supersede = bytes "supersede"
name_of m_relate = bytes "relate"
name_of m_related = bytes "related"
name_of m_config = bytes "config"
name_of m_set_config = bytes "set_config"
name_of m_emb_model = bytes "emb_model"

abbrev pub all_methods : List Method
all_methods =
    m_create_scope ∷ m_push ∷ m_query ∷ m_neighbors ∷ m_drill ∷ m_publish ∷ m_sibling_overview
    ∷ m_ancestors ∷ m_fork ∷ m_consolidate ∷ m_cross_version ∷ m_rollup_scope ∷ m_trace
    ∷ m_recent_traces ∷ m_list_scopes ∷ m_get_scope ∷ m_list_artifacts ∷ m_delete_artifact
    ∷ m_delete_scope ∷ m_supersede ∷ m_relate ∷ m_related ∷ m_config ∷ m_set_config ∷ m_emb_model
    ∷ []

-- the first of the cases with the name
unfoldable pub case_of : List Method → Text → Option Method
unfolding name_of text_eq
case_of [] method = none
case_of (c ∷ cs) method =
    let rest = case_of cs method in if text_eq method (name_of c) then some c else rest

pub record CreateScopeParams : Type 0 where
  pub parent : Ulid
  pub role : ℕ
  pub title : Text

pub record PushParams : Type 0 where
  pub req : PushRequest

pub record QueryParams (F : Type 0) : Type 0 where
  pub query : Query F

pub record QueryResult (F : Type 0) : Type 0 where
  pub query_id : Ulid
  pub hits : List (Hit F)

pub record NeighborsParams : Type 0 where
  pub scope : Ulid
  pub text : Text
  pub k : ℕ

pub record DrillParams : Type 0 where
  pub artifact : Ulid
  pub detail : ℕ

pub record IdParams : Type 0 where
  pub id : Ulid

pub record ScopeParams : Type 0 where
  pub scope : Ulid

pub record ForkParams : Type 0 where
  pub source : Ulid
  pub title : Text

pub record ScopeSummaryParams : Type 0 where
  pub scope : Ulid
  pub summary : Text

pub record ConsolidateParams : Type 0 where
  pub scope : Ulid
  pub summary : Text
  pub supersedes : List Ulid

pub record CrossVersionParams : Type 0 where
  pub scope : Ulid
  pub seed : Seed

pub record RecentTracesParams : Type 0 where
  pub n : ℕ

pub record ConfigParams : Type 0 where
  pub key : Text

pub record ConfigResult : Type 0 where
  pub val : Text
  pub found : Bool

pub record SetConfigParams : Type 0 where
  pub key : Text
  pub val : Text

pub record SupersedeParams : Type 0 where
  pub old : Ulid
  pub replacement : Ulid

pub record RelateParams : Type 0 where
  pub from : Ulid
  pub to : Ulid
  pub kind : Text

pub record RelatedParams : Type 0 where
  pub artifact : Ulid
  pub kinds : List Text
  pub dir : ℕ
  pub depth : ℕ

pub record EmbModelResult : Type 0 where
  pub model : Text

-- encoding/json on the parameters and the results
pub record Wire ⦃m : MetaEnv⦄ : Type 0 where
  pub create_scope_params : Codec CreateScopeParams
  pub push_params : Codec PushParams
  pub query_params : Codec (QueryParams m.floats.Float)
  pub neighbors_params : Codec NeighborsParams
  pub drill_params : Codec DrillParams
  pub id_params : Codec IdParams
  pub scope_params : Codec ScopeParams
  pub fork_params : Codec ForkParams
  pub scope_summary_params : Codec ScopeSummaryParams
  pub consolidate_params : Codec ConsolidateParams
  pub cross_version_params : Codec CrossVersionParams
  pub recent_traces_params : Codec RecentTracesParams
  pub config_params : Codec ConfigParams
  pub set_config_params : Codec SetConfigParams
  pub supersede_params : Codec SupersedeParams
  pub relate_params : Codec RelateParams
  pub related_params : Codec RelatedParams
  pub scope_result : Codec Scope
  pub scopes_result : Codec (List Scope)
  pub artifact_result : Codec Artifact
  pub artifacts_result : Codec (List Artifact)
  pub hit_result : Codec (Hit m.floats.Float)
  pub hits_result : Codec (List (Hit m.floats.Float))
  pub query_result : Codec (QueryResult m.floats.Float)
  pub trace_result : Codec (TraceRecord m.floats.Float)
  pub traces_result : Codec (List (TraceRecord m.floats.Float))
  pub config_result : Codec ConfigResult
  pub emb_model_result : Codec EmbModelResult
  -- json.Unmarshal leaves only UTF-8 in a string
  pub unmarshal_push :
      (t : Text) (p : PushParams)
      → push_params.unmarshal t ≡ ok p
      → All (λ sp. is_utf8 sp.kind ≡ true) p.req.relations
  pub unmarshal_relate :
      (t : Text) (p : RelateParams) → relate_params.unmarshal t ≡ ok p → is_utf8 p.kind ≡ true

module _ ⦃m : MetaEnv⦄ where
  -- what a method takes
  abbrev pub Params : Method → Type 0
  Params m_create_scope = CreateScopeParams
  Params m_push = PushParams
  Params m_query = QueryParams m.floats.Float
  Params m_neighbors = NeighborsParams
  Params m_drill = DrillParams
  Params m_publish = IdParams
  Params m_sibling_overview = ScopeParams
  Params m_ancestors = ScopeParams
  Params m_fork = ForkParams
  Params m_consolidate = ConsolidateParams
  Params m_cross_version = CrossVersionParams
  Params m_rollup_scope = ScopeSummaryParams
  Params m_trace = IdParams
  Params m_recent_traces = RecentTracesParams
  Params m_list_scopes = Unit
  Params m_get_scope = IdParams
  Params m_list_artifacts = Unit
  Params m_delete_artifact = IdParams
  Params m_delete_scope = IdParams
  Params m_supersede = SupersedeParams
  Params m_relate = RelateParams
  Params m_related = RelatedParams
  Params m_config = ConfigParams
  Params m_set_config = SetConfigParams
  Params m_emb_model = Unit

  -- what it answers
  abbrev pub Reply : Method → Type 0
  Reply m_create_scope = Scope
  Reply m_push = Artifact
  Reply m_query = QueryResult m.floats.Float
  Reply m_neighbors = List (Hit m.floats.Float)
  Reply m_drill = Hit m.floats.Float
  Reply m_publish = Unit
  Reply m_sibling_overview = List (Hit m.floats.Float)
  Reply m_ancestors = List Scope
  Reply m_fork = Scope
  Reply m_consolidate = Artifact
  Reply m_cross_version = Scope
  Reply m_rollup_scope = Unit
  Reply m_trace = TraceRecord m.floats.Float
  Reply m_recent_traces = List (TraceRecord m.floats.Float)
  Reply m_list_scopes = List Scope
  Reply m_get_scope = Scope
  Reply m_list_artifacts = List Artifact
  Reply m_delete_artifact = Unit
  Reply m_delete_scope = Unit
  Reply m_supersede = Unit
  Reply m_relate = Unit
  Reply m_related = List (Hit m.floats.Float)
  Reply m_config = ConfigResult
  Reply m_set_config = Unit
  Reply m_emb_model = EmbModelResult
