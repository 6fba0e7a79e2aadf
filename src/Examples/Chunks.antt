-- ===== src/Examples/Chunks.antt =====
-- A text of two lines in two chunks, and a stored chunk set.
use ioc.Base.{
  ℕ, ◌<◌, true, [], ◌∷◌, Text, bytes, ◌≡◌, refl, All, length, arith, split_lines, text_eq, any,
}
use ioc.Base.{true, false, Result, ok, err, internal, ◌++◌, drop, if◌then◌else◌}
use ioc.Core.Types.{Artifact, Ulid, lookup}
use ioc.Engine.State.{Engine, create_scope, check_parent, on_db, look}
use ioc.Core.Types.{role_worktree}
use ioc.Base.{text_eq, trim_space, pure, transact}
use ioc.Core.Maps.{strip}
use ioc.Storage.Meta.Frames.{SameRecords}
use ioc.Storage.Meta.{
  put_artifact, get_scope, get_json, read_value, decode_value, decode_with, encode_value,
  encode_with, put_json, put_scope, put_config, get_config,
}
use ioc.Examples.Witnesses.{stored_store}
use ioc.Ingest.Lang.{has_prefix}
use ioc.Ingest.Contain.{
  contain, escapes, abs_root, rooted, scope_for, remembered, Paths, root_scope, resolve_ingest_root,
  setting_of,
}
use ioc.Ingest.Contain.Roots.{root_scope-Kept}
use ioc.Ingest.Chunk.{split, max_of}
use ioc.Ingest.Windows.{IsWindow, Shows, split-IsWindow, split-Shows}
use ioc.Ingest.Complete.{
  chunks_complete, complete_from, chunk_index, atoi_index, has_sig, Holds, chunks_complete-Holds,
}
use ioc.Base.{◌>>=◌, suc, ◌-◌, [], ok, is_empty, false}
use ioc.Engine.State.{created_scope}
use ioc.Engine.Push.{pushed}
use ioc.Base.{filter}
use ioc.Ingest.Reconcile.{Store, Stats, Options, Reconciler, File}
use ioc.Ingest.Reconcile.Files.{reconcile_file}
use ioc.Ingest.Reconcile.Limits.{reconcile_file-Capped}
use ioc.Examples.Libraries.{sample_meta, sample_blobs, sample_vectors, sample_embedder}
use ioc.Examples.Queries.{ascii}
use ioc.Examples.Witnesses.{first_artifact}

-- "ab", "cd"
abbrev two_lines : Text
two_lines = 97 ∷ 98 ∷ 10 ∷ 99 ∷ 100 ∷ []

split-IsWindow_example : All (IsWindow (max_of 4) (split_lines two_lines)) (split two_lines 4 0)
split-IsWindow_example = split-IsWindow two_lines 4 0

second_line : 1 < length (split_lines two_lines)
unfolding split_lines
second_line = omega arith

split-Shows_example : Shows (max_of 4) (split_lines two_lines) (split two_lines 4 0) 1
split-Shows_example = split-Shows two_lines 4 0 1 second_line

abbrev chunk : Artifact
chunk = record first_artifact {
  meta = (bytes "chunk", bytes "0") ∷ (bytes "sig", bytes "abc:go:1500:200") ∷ [];
}

chunk_passes : chunks_complete (chunk ∷ []) (bytes "abc:go:1500:200") 1 ≡ true
unfolding chunks_complete complete_from chunk_index atoi_index has_sig lookup text_eq any
chunk_passes = refl

chunks_complete-Holds_example :
    (length (chunk ∷ []) ≡ 1)
    × All (λ a. has_sig (bytes "abc:go:1500:200") a ≡ true) (chunk ∷ [])
    × ((i : ℕ) → i < 1 → Holds (chunk ∷ []) (bytes "abc:go:1500:200") i)
chunks_complete-Holds_example =
    chunks_complete-Holds (chunk ∷ []) (bytes "abc:go:1500:200") 1 chunk_passes

-- an engine that counts its chunks
instance abbrev counter : Store
counter = record {
  State = ℕ;
  create_scope = λ parent role title t. (ok (created_scope parent role title 2 100), t);
  push = λ req t. (ok first_artifact, suc t);
  delete_artifact = λ id t. (ok tt, t - 1);
  delete_scope = λ id t. (ok tt, t);
  rollup_scope = λ id summary t. (ok tt, t);
  list_scopes = λ t. ok [];
  list_artifacts = λ t. ok [];
}

abbrev pub no_stats : Stats
no_stats = record {
  files_added = 0;
  files_updated = 0;
  files_unchanged = 0;
  files_removed = 0;
  chunks_added = 0;
  chunks_removed = 0;
  scopes_created = 0;
  scopes_removed = 0;
  limit_hit = [];
}

abbrev run : Reconciler
run = record {
  store = 7;
  scopes = [];
  artifacts = [];
  dir_scope = (bytes ".", 1) ∷ [];
  dir_files = [];
  dirty = [];
  want_paths = [];
  files_seen = 0;
  st = no_stats;
}

-- one chunk more than the run may push
abbrev few : Options
few = record { max_chars = 1500; overlap = 200; max_files = 10; max_chunks = 0; max_depth = 4 }

abbrev nested : File
nested = record {
  dir = bytes "src" ∷ [];
  base = bytes "a.go";
  size = ok 2;
  content = ok (bytes "ab");
}

capped :
    is_empty (reconcile_file ⦃ul = sample_meta.ulids⦄ (λ t. t) few nested run).1.st.limit_hit
    ≡ false
unfolding reconcile_file ◌>>=◌
capped = refl

reconcile_file-Capped_example :
    (reconcile_file ⦃ul = sample_meta.ulids⦄ (λ t. t) few nested run).1.store ≡ 7
reconcile_file-Capped_example =
    reconcile_file-Capped (λ t. t ≡ 7) (λ parent role title t h. h) ⦃ul = sample_meta.ulids⦄
      (λ t. t) few nested run refl refl capped

-- paths without symbolic links or dots; the sandbox is /w
abbrev below : Text → Text → Result Text
below a t = if has_prefix a t then ok (drop (length a) t) else err internal

instance abbrev unix : Paths
unix = record {
  abs = λ t. ok t;
  eval_symlinks = λ t. ok t;
  clean = λ t. t;
  join = λ a r. a ++ r;
  rel = below;
  is_abs = λ t. false;
  base = λ t. t;
  to_slash = λ t. t;
  separator = bytes "/";
  windows = false;
  to_lower = λ t. t;
  getenv = λ k. bytes "/w";
  getwd = err internal;
}

abbrev opened : Result Ulid × Engine
opened = root_scope (bytes "/w/src") 0 (bytes "src") 9 100 stored_store

opened_nine : opened.0 ≡ ok 9
unfolding root_scope contain escapes abs_root resolve_ingest_root rooted scope_for remembered
    create_scope check_parent on_db look put_scope put_config get_config put_json encode_value
    encode_with get_scope get_json read_value decode_value decode_with transact strip lookup text_eq
    has_prefix trim_space pure ◌>>=◌ put_artifact created_scope pushed any filter
opened_nine = refl

nine_stays : get_scope 9 opened.1.db ≡ ok (created_scope 0 role_worktree (bytes "src") 9 100)
unfolding root_scope contain escapes abs_root resolve_ingest_root rooted scope_for remembered
    create_scope check_parent on_db look put_scope put_config get_config put_json encode_value
    encode_with get_scope get_json read_value decode_value decode_with transact strip lookup text_eq
    has_prefix trim_space pure ◌>>=◌ put_artifact created_scope pushed any filter
nine_stays = refl

same_sandbox :
    contain (resolve_ingest_root (setting_of opened.1)) (bytes "/w/src")
    ≡ contain (resolve_ingest_root (setting_of stored_store)) (bytes "/w/src")
unfolding resolve_ingest_root trim_space
same_sandbox = refl

opened_again : (root_scope (bytes "/w/src") 0 [] 10 200 opened.1).0 ≡ ok 9
unfolding root_scope contain escapes abs_root resolve_ingest_root rooted scope_for remembered
    create_scope check_parent on_db look put_scope put_config get_config put_json encode_value
    encode_with get_scope get_json read_value decode_value decode_with transact strip lookup text_eq
    has_prefix trim_space pure ◌>>=◌ put_artifact created_scope pushed any filter
opened_again = refl

root_scope-Kept_example :
    (◌≡◌ {A = Ulid} 9 9)
    × SameRecords opened.1.db (root_scope (bytes "/w/src") 0 [] 10 200 opened.1).1.db
root_scope-Kept_example =
    root_scope-Kept (bytes "/w/src") 0 (bytes "src") 9 100 stored_store 9 opened_nine refl opened.1
      (λ key. refl) same_sandbox (created_scope 0 role_worktree (bytes "src") 9 100) nine_stays []
      10 200 9 opened_again
