-- ===== src/Engine/Push.antt =====
-- internal/engine/engine.go: Push, with its supersessions and declared edges; Supersede; Publish
-- and RollupScope of query.go and rollup.go. `id` is the value of `NewID`, `now` the clock's.
use ioc.Base.{
  ℕ, Bool, true, not, ◌||◌, List, [], ◌∷◌, ◌++◌, Text, Option, none, some, text_eq, is_empty, any,
  filter, ◌==◌, Result, ok, err, invalid_input, and_then, Exec, pure, throw, guard, ◌>>=◌, ◌>>◌,
  if◌then◌else◌,
}
use ioc.Core.Types.{
  Ulid, is_zero, nil_id, Artifact, PushRequest, EdgeSpec, tier_workspace, kind_insight, trust_key,
}
use ioc.Storage.Meta.{MetaEnv, get_scope, put_scope, get_artifact, put_artifact, put_edge}
use ioc.Storage.Interfaces.{Blobs, Vectors, Embedder}
use ioc.Engine.State.{Engine, on_db, look, store_summary_embedding}

-- the loop of `unionIDs`, with the ids seen so far
union_onto : List Ulid → List Ulid → List Ulid
union_onto seen [] = []
union_onto seen (id ∷ ids) =
    let skip = union_onto seen ids in
    let keep = id ∷ union_onto (id ∷ seen) ids in
    if is_zero id || any (λ k. k == id) seen then skip else keep

-- `unionIDs`: the zero and the repeated ids are dropped, in order
unfoldable pub union_ids : List Ulid → List Ulid → List Ulid
unfolding union_onto
union_ids a b = union_onto [] (a ++ b)

abbrev pub has_key : Text → List (Text × Text) → Bool
has_key k meta = any (λ e. text_eq e.0 k) meta

-- the provenance of a push: a caller's "trust" is dropped, and the request's own is written
unfoldable pub with_trust : List (Text × Text) → Text → List (Text × Text)
with_trust meta trust =
    let stripped = filter (λ e. not (text_eq e.0 trust_key)) meta in
    if has_key trust_key meta || not (is_empty trust)
    then (if is_empty trust then stripped else (trust_key, trust) ∷ stripped)
    else meta

unfoldable pub pushed : PushRequest → Ulid → ℕ → Text → ℕ → Artifact
unfolding union_ids with_trust
pushed r id now content ref = record {
  id = id;
  scope = r.scope;
  kind = if r.kind == 0 then kind_insight else r.kind;
  tier = if r.tier == 0 then tier_workspace else r.tier;
  summary = r.summary;
  emb_ref = ref;
  content = content;
  derived_from = union_ids r.derived_from r.supersedes;
  published = r.publish;
  meta = with_trust r.meta r.trust;
  created_at = now;
  superseded_by = nil_id;
}

abbrev pub superseded_with : Ulid → Artifact → Artifact
superseded_with new old = record old { superseded_by = new }

module _ ⦃m : MetaEnv⦄ where
  -- `loadSupersedeTargets`
  unfoldable pub load_supersede_targets : List Ulid → m.bolt.Db → Result (List Artifact)
  load_supersede_targets [] d = ok []
  load_supersede_targets (sid ∷ ids) d =
      let rest = load_supersede_targets ids d in
      and_then (get_artifact sid d) (λ a. and_then rest (λ as'. ok (a ∷ as')))

  -- `markSupersededBy`
  unfoldable pub mark_superseded_by : List Artifact → Ulid → Exec m.bolt.Db (Unit {0})
  mark_superseded_by [] new = pure tt
  mark_superseded_by (old ∷ targets) new =
      put_artifact (superseded_with new old) >>= λ _. mark_superseded_by targets new

  -- `validateRelationTargets`
  unfoldable pub validate_relation_targets : List EdgeSpec → m.bolt.Db → Result (Unit {0})
  validate_relation_targets [] d = ok tt
  validate_relation_targets (s ∷ specs) d =
      let rest = validate_relation_targets specs d in
      if is_empty s.kind then err invalid_input else and_then (get_artifact s.target d) (λ _. rest)

  -- `createPushEdges`
  unfoldable pub create_push_edges : Ulid → ℕ → List EdgeSpec → Exec m.bolt.Db (Unit {0})
  create_push_edges from now [] = pure tt
  create_push_edges from now (s ∷ specs) =
      put_edge (record { from = from; to = s.target; kind = s.kind; created_at = now }) >>= λ _.
      create_push_edges from now specs

  -- the writes of a push, after its checks
  unfoldable pub commit_push :
      Artifact → List Artifact → ℕ → List EdgeSpec → Exec m.bolt.Db (Unit {0})
  commit_push a superseded now specs = do
    put_artifact a
    mark_superseded_by superseded a.id
    create_push_edges a.id now specs

module _ ⦃m : MetaEnv⦄ ⦃b : Blobs⦄ ⦃v : Vectors⦄ ⦃em : Embedder⦄ where
  abbrev store_in : Option Text → Exec Engine Text
  store_in none s = (ok [], s)
  store_in (some t) s = let (r, bs) = b.store_bytes t s.blobs in (r, record s { blobs = bs })

  -- content goes to the content store; nil content has the zero hash
  unfoldable pub store_content : Option Text → Exec Engine Text
  store_content content = store_in content

  -- `Push`
  unfoldable pub push : PushRequest → Ulid → ℕ → Exec Engine Artifact
  unfolding on_db look store_content
  push r id now = if is_empty r.summary then throw invalid_input else do
    look (get_scope r.scope)
    content ← store_content r.content
    ref ← store_summary_embedding (if is_empty r.embed_text then r.summary else r.embed_text)
    superseded ← look (load_supersede_targets r.supersedes)
    look (validate_relation_targets r.relations)
    on_db (commit_push (pushed r id now content ref) superseded now r.relations)
    pure (pushed r id now content ref)

  -- `Supersede`
  unfoldable pub supersede : Ulid → Ulid → Exec Engine (Unit {0})
  unfolding on_db look
  supersede old replacement = do
    guard (not (old == replacement)) invalid_input
    look (get_artifact replacement)
    a ← look (get_artifact old)
    on_db (put_artifact (superseded_with replacement a))

  -- `Publish`
  unfoldable pub publish : Ulid → Exec Engine (Unit {0})
  unfolding on_db look
  publish artifact_id = do
    a ← look (get_artifact artifact_id)
    on_db (put_artifact (record a { published = true }))

  -- `RollupScope`
  unfoldable pub rollup_scope : Ulid → Text → Exec Engine (Unit {0})
  unfolding on_db look
  rollup_scope scope summary = do
    guard (not (is_empty summary)) invalid_input
    s ← look (get_scope scope)
    ref ← store_summary_embedding summary
    on_db (put_scope (record s { rollup_summary = summary; rollup_emb_ref = ref }))
