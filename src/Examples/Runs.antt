-- ===== src/Examples/Runs.antt =====
-- A reconcile run over the engine: a file of one chunk.
use ioc.Base.{runes}
use ioc.Base.{
  filter, any, text_eq, In, inl, inr, true, ℕ, ◌+◌, ◌<◌, [], ◌∷◌, bytes, ◌≡◌, refl, sym, ap, subst,
  Result, ok, ◌>>=◌, arith,
}
use ioc.Core.Types.{lookup, Artifact, kind_document, role_workspace}
use ioc.Core.Maps.{strip}
use ioc.Engine.Admin.{drop_scope, drop_artifact}
use ioc.Storage.Meta.{
  artifacts_in_scope, scan, child_scopes, list_scopes, delete_scope, delete_edges_for,
  delete_artifact, put_artifact, get_scope, get_json, decode_with, encode_with, put_json, put_scope,
  put_config,
}
use ioc.Engine.State.{created_scope, create_scope, store_summary_embedding}
use ioc.Engine.Push.{
  push, load_supersede_targets, validate_relation_targets, commit_push, mark_superseded_by,
  create_push_edges,
}
use ioc.Ingest.Engines.{engine_store, engine_store-IsAsked}
use ioc.Ingest.Reconcile.{Store, Options, Reconciler, File}
use ioc.Ingest.Reconcile.Files.{reconcile_file}
use ioc.Ingest.Reconcile.Second.{reconcile_file-Twice, Twice}
use ioc.Ingest.Reconcile.Index.{Distinct}
use ioc.Engine.Push.{pushed}
use ioc.Ingest.Sync.{remove_vanished, prune_empty, descendants, is_kept}
use ioc.Ingest.Sync.Vanished.{remove_vanished-filter, is_left}
use ioc.Ingest.Sync.Pruned.{prune_empty-kept}
use ioc.Examples.Libraries.{sample_meta, sample_blobs, sample_vectors, sample_embedder}
use ioc.Examples.Queries.{ascii}
use ioc.Examples.Witnesses.{stored_store, first_artifact}
use ioc.Examples.Chunks.{no_stats}

instance abbrev over_engine : Store
over_engine = engine_store (λ n. n + 10) (λ n. n)

abbrev first_run : Reconciler ⦃s = over_engine⦄
first_run = record {
  store = (stored_store, 0);
  scopes = [];
  artifacts = [];
  dir_scope = (bytes ".", 1) ∷ [];
  dir_files = [];
  dirty = [];
  want_paths = [];
  files_seen = 0;
  st = no_stats;
}

abbrev wide : Options
wide = record { max_chars = 1500; overlap = 200; max_files = 10; max_chunks = 10; max_depth = 4 }

abbrev nested : File
nested = record {
  dir = bytes "src" ∷ [];
  base = bytes "a.go";
  size = ok 2;
  content = ok (bytes "ab");
}

abbrev after : Result (Unit {0}) × Reconciler ⦃s = over_engine⦄
after = reconcile_file ⦃s = over_engine⦄ ⦃ul = sample_meta.ulids⦄ (λ t. t) wide nested first_run

nested_done : ◌≡◌ {A = Result (Unit {0}) × ℕ} (after.0, after.1.files_seen) (ok tt, 1)
unfolding reconcile_file ◌>>=◌ push get_scope get_json put_artifact put_json encode_with put_scope
    created_scope decode_with store_summary_embedding put_config load_supersede_targets
    validate_relation_targets commit_push mark_superseded_by create_push_edges create_scope pushed
    runes
nested_done = refl

nested_seen : after.1.files_seen < 10
nested_seen = subst (λ n. n < 10) (sym (ap (λ x. x.1) nested_done)) (omega arith)

reconcile_file-Twice_example :
    Twice ⦃s = over_engine⦄ ⦃ul = sample_meta.ulids⦄ (λ t. t) wide nested first_run
reconcile_file-Twice_example =
    reconcile_file-Twice ⦃s = over_engine⦄ ⦃ul = sample_meta.ulids⦄ (λ t. t) wide
      (engine_store-IsAsked (λ n. n + 10) (λ n. n)) nested first_run tt (ap (λ x. x.0) nested_done)
      nested_seen

-- a run whose walk saw no file: one stale document below the root
abbrev stale_chunk : Artifact
stale_chunk = record first_artifact {
  scope = 2;
  kind = kind_document;
  meta = (bytes "path", bytes "gone.go") ∷ [];
}

abbrev stale_run : Reconciler ⦃s = over_engine⦄
stale_run = record first_run {
  scopes =
      created_scope 1 role_workspace (bytes "src") 2 100
      ∷ created_scope 2 role_workspace (bytes "old") 3 100
      ∷ [];
  artifacts = first_artifact ∷ stale_chunk ∷ [];
}

apart : Distinct stale_run.artifacts
unfolding pushed
apart = ((refl, tt), (tt, tt))

stale_gone : (remove_vanished 1 stale_run).0 ≡ ok tt
unfolding remove_vanished ◌>>=◌ pushed created_scope lookup text_eq drop_artifact delete_edges_for
    put_artifact put_json encode_with put_scope delete_artifact
stale_gone = refl

remove_vanished-filter_example :
    ((remove_vanished 1 stale_run).1.artifacts ≡ filter (is_left 1 stale_run) stale_run.artifacts)
    × ((remove_vanished 1 stale_run).1.scopes ≡ stale_run.scopes)
remove_vanished-filter_example = remove_vanished-filter 1 stale_run apart stale_gone

pruned : (prune_empty 1 stale_run).0 ≡ ok tt
unfolding prune_empty ◌>>=◌ created_scope pushed drop_scope artifacts_in_scope scan put_artifact
    put_json encode_with decode_with any text_eq strip put_scope child_scopes list_scopes
    delete_scope
pruned = refl

reached : In 2 (descendants 1 (prune_empty 1 stale_run).1.scopes)
unfolding prune_empty ◌>>=◌ created_scope pushed drop_scope artifacts_in_scope scan put_artifact
    put_json encode_with decode_with any text_eq strip put_scope child_scopes list_scopes
    delete_scope
reached = inr (inl refl)

prune_empty-kept_example : is_kept 1 2 (prune_empty 1 stale_run).1 ≡ true
prune_empty-kept_example = prune_empty-kept 1 stale_run pruned 2 reached
