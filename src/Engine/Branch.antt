-- ===== src/Engine/Branch.antt =====
-- internal/engine/branch.go: Fork, Consolidate, CrossVersion. The values of successive `NewID`
-- calls for artifacts are a function of the call's number.
use ioc.Base.{
  ℕ, zero, suc, ◌+◌, true, false, not, List, [], ◌∷◌, ◌++◌, Text, is_empty, filter, split_lines,
  trim_space, map, invalid_input, Exec, pure, guard, ◌>>=◌, ◌>>◌, if◌then◌else◌,
}
use ioc.Core.Types.{
  Ulid, is_zero, nil_id, Scope, Artifact, Seed, tier_workspace, tier_worktree, kind_summary,
  kind_seed,
}
use ioc.Storage.Meta.{MetaEnv, get_scope, put_scope, put_artifact, artifacts_in_scope}
use ioc.Storage.Interfaces.{Blobs, Vectors, Embedder}
use ioc.Engine.State.{Engine, on_db, look, store_summary_embedding}
use ioc.Engine.Push.{load_supersede_targets, mark_superseded_by, union_ids}

unfoldable pub forked_scope : Scope → Ulid → Text → Ulid → ℕ → Scope
forked_scope src source title id now = record {
  id = id;
  parent = src.parent;
  role = src.role;
  title = title;
  version = src.version;
  seed_from = nil_id;
  archived = false;
  forked_from = source;
  created_at = now;
  rollup_summary = [];
  rollup_emb_ref = 0;
}

-- the copy of a published artifact
unfoldable pub forked_artifact : Artifact → Ulid → Ulid → ℕ → Artifact
forked_artifact a scope id now = record {
  id = id;
  scope = scope;
  kind = a.kind;
  tier = tier_workspace;
  summary = a.summary;
  emb_ref = a.emb_ref;
  content = a.content;
  derived_from = a.id ∷ [];
  published = false;
  meta = [];
  created_at = now;
  superseded_by = nil_id;
}

unfoldable pub consolidated : Ulid → Text → List Ulid → Ulid → ℕ → ℕ → Artifact
unfolding union_ids
consolidated target summary supersedes id now ref = record {
  id = id;
  scope = target;
  kind = kind_summary;
  tier = tier_worktree;
  summary = summary;
  emb_ref = ref;
  content = [];
  derived_from = union_ids [] supersedes;
  published = true;
  meta = [];
  created_at = now;
  superseded_by = nil_id;
}

unfoldable pub next_version : Scope → Ulid → Ulid → ℕ → Scope
next_version s scope id now = record {
  id = id;
  parent = s.parent;
  role = s.role;
  title = s.title;
  version = s.version + 1;
  seed_from = nil_id;
  archived = false;
  forked_from = scope;
  created_at = now;
  rollup_summary = [];
  rollup_emb_ref = 0;
}

unfoldable pub seed_artifact : Ulid → Text → Ulid → ℕ → ℕ → Artifact
seed_artifact scope text id now ref = record {
  id = id;
  scope = scope;
  kind = kind_seed;
  tier = tier_worktree;
  summary = text;
  emb_ref = ref;
  content = [];
  derived_from = [];
  published = true;
  meta = [];
  created_at = now;
  superseded_by = nil_id;
}

-- `splitLines`
unfoldable pub seed_lines : Text → List Text
seed_lines s = filter (λ t. not (is_empty t)) (map trim_space (split_lines s))

module _ ⦃m : MetaEnv⦄ where
  -- the copying loop of `Fork`, from the i-th copy on
  unfoldable pub fork_copies : Ulid → (ℕ → Ulid) → ℕ → ℕ → List Artifact → Exec m.bolt.Db (Unit {0})
  fork_copies scope ids now i [] = pure tt
  fork_copies scope ids now i (a ∷ as') =
      let skip = fork_copies scope ids now i as' in
      let copy = put_artifact (forked_artifact a scope (ids i) now) >>= λ _.
      fork_copies scope ids now (suc i) as' in
      if a.published then copy else skip

module _ ⦃m : MetaEnv⦄ ⦃b : Blobs⦄ ⦃v : Vectors⦄ ⦃em : Embedder⦄ where
  -- `Fork`
  unfoldable pub fork : Ulid → Text → Ulid → (ℕ → Ulid) → ℕ → Exec Engine Scope
  unfolding on_db look
  fork source title id ids now = do
    src ← look (get_scope source)
    on_db (put_scope (forked_scope src source title id now))
    arts ← look (artifacts_in_scope source)
    on_db (fork_copies id ids now 0 arts)
    pure (forked_scope src source title id now)

  -- `Consolidate`
  unfoldable pub consolidate : Ulid → Text → List Ulid → Ulid → ℕ → Exec Engine Artifact
  unfolding on_db look
  consolidate scope summary supersedes id now = do
    guard (not (is_empty summary)) invalid_input
    s ← look (get_scope scope)
    targets ← look (load_supersede_targets supersedes)
    ref ← store_summary_embedding summary
    let a =
        consolidated (if is_zero s.parent then scope else s.parent) summary supersedes id now ref
    on_db (put_artifact a)
    on_db (mark_superseded_by targets id)
    pure a

  -- the seeding loop of `CrossVersion`, from the i-th seed on; the first one becomes `SeedFrom`
  unfoldable pub seed_loop : Scope → (ℕ → Ulid) → ℕ → ℕ → List Text → Exec Engine Scope
  unfolding on_db
  seed_loop ns ids now i [] = pure ns
  seed_loop ns ids now zero (text ∷ seeds) = store_summary_embedding text >>= λ ref.
      on_db (put_artifact (seed_artifact ns.id text (ids 0) now ref)) >>= λ _.
      on_db (put_scope (record ns { seed_from = ids 0 })) >>= λ _.
      seed_loop (record ns { seed_from = ids 0 }) ids now 1 seeds
  seed_loop ns ids now (suc i) (text ∷ seeds) = store_summary_embedding text >>= λ ref.
      on_db (put_artifact (seed_artifact ns.id text (ids (suc i)) now ref)) >>= λ _.
      seed_loop ns ids now (suc (suc i)) seeds

  -- `CrossVersion`
  unfoldable pub cross_version : Ulid → Seed → Ulid → (ℕ → Ulid) → ℕ → Exec Engine Scope
  unfolding on_db look
  cross_version scope seed id ids now = do
    s ← look (get_scope scope)
    on_db (put_scope (record s { archived = true }))
    on_db (put_scope (next_version s scope id now))
    seed_loop (next_version s scope id now) ids now 0
        (seed_lines seed.constraints ++ seed_lines seed.lessons)
