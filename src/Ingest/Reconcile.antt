-- ===== src/Ingest/Reconcile.antt =====
-- internal/ingest: one file of a reconcile run, from reconcile.go, with FirstLine and Sig of chunk.go,
-- DetectLanguage of lang.go, and the options and statistics of ingest.go. What the run asks of the
-- engine is an interface. A directory is its names, the innermost first.
pub mod Files
pub mod Limits
pub mod Index
pub mod Pushes
pub mod Again
pub mod Second
use ioc.Base.{
  ℕ, zero, suc, ◌+◌, ◌-◌, ◌*◌, Bool, true, false, not, ◌&&◌, ◌||◌, List, [], ◌∷◌, ◌++◌, Text,
  Option, none, some, bytes, is_empty, ltb, leb, ◌==◌, any, filter, length, take, map, reverse,
  itoa, runes, join_runes, split_lines, trim_space, text_eq, text_lt, Result, ok, err, internal,
  invalid_input, Exec, pure, throw, reads, guard, ◌>>=◌, ◌>>◌, if◌then◌else◌,
}
use ioc.Core.Types.{
  Ulid, Scope, Artifact, PushRequest, role_workspace, tier_worktree, kind_document, trust_ingested,
}
use ioc.Core.Ulid.{Ulids}
use ioc.Search.{Unicode}
use ioc.Ingest.Chunk.{Chunk}
use ioc.Ingest.Lang.{Language, split_lang}
use ioc.Ingest.Complete.{chunks_complete, chunks_for_path}

-- `Store`, what a run asks of the engine
pub record Store : Type 1 where
  pub State : Type 0
  pub create_scope : Ulid → ℕ → Text → Exec State Scope
  pub push : PushRequest → Exec State Artifact
  pub delete_artifact : Ulid → Exec State (Unit {0})
  pub delete_scope : Ulid → Exec State (Unit {0})
  pub rollup_scope : Ulid → Text → Exec State (Unit {0})
  pub list_scopes : State → Result (List Scope)
  pub list_artifacts : State → Result (List Artifact)

-- `Options`, with the defaults filled in
pub record Options : Type 0 where
  pub max_chars : ℕ
  pub overlap : ℕ
  pub max_files : ℕ
  pub max_chunks : ℕ
  pub max_depth : ℕ

-- `Stats`
pub record Stats : Type 0 where
  pub files_added : ℕ
  pub files_updated : ℕ
  pub files_unchanged : ℕ
  pub files_removed : ℕ
  pub chunks_added : ℕ
  pub chunks_removed : ℕ
  pub scopes_created : ℕ
  pub scopes_removed : ℕ
  pub limit_hit : Text

-- `reconciler`: the scopes of `childOf` and the artifacts of `byScope` in one list each
pub record Reconciler ⦃s : Store⦄ : Type 0 where
  pub store : s.State
  pub scopes : List Scope
  pub artifacts : List Artifact
  pub dir_scope : List (Text × Ulid)
  pub dir_files : List (Text × Text)
  pub dirty : List Text
  pub want_paths : List Text
  pub files_seen : ℕ
  pub st : Stats

-- A file that the walk comes to: what os.Stat and os.ReadFile give.
pub record File : Type 0 where
  pub dir : List Text
  pub base : Text
  pub size : Result ℕ
  pub content : Result Text

abbrev pub max_file_bytes : ℕ
max_file_bytes = 512 * 1024

-- `isBinary`
unfoldable pub is_binary : Text → Bool
unfolding any
is_binary content = any (λ c. c == 0) (take 8192 content)

abbrev join_slash : List Text → Text
join_slash [] = []
join_slash (n ∷ []) = n
join_slash (n ∷ k ∷ ns) = n ++ (bytes "/" ++ join_slash (k ∷ ns))

abbrev pub dir_text : List Text → Text
dir_text [] = bytes "."
dir_text (n ∷ ns) = join_slash (reverse (n ∷ ns))

abbrev pub rel_text : File → Text
rel_text f = join_slash (reverse (f.base ∷ f.dir))

-- `filepath.Ext`, over the reversed name
ext_from : Text → Text → Text
ext_from acc [] = []
ext_from acc (c ∷ s) = let rest = ext_from (c ∷ acc) s in if c == 46 then c ∷ acc else rest

abbrev is_one_of : List Text → Text → Bool
is_one_of ts t = any (λ k. text_eq k t) ts

-- `DetectLanguage`
unfoldable pub detect_language : ⦃u : Unicode⦄ → Text → Language
unfolding ext_from any text_eq
detect_language ⦃u⦄ name =
    let ext = u.to_lower (ext_from [] (reverse name)) in
    if text_eq ext (bytes ".go")
    then Language.go
    else if text_eq ext (bytes ".py")
    then Language.python
    else if is_one_of (bytes ".md" ∷ bytes ".markdown" ∷ []) ext
    then Language.markdown
    else if is_one_of
        (bytes ".js" ∷ bytes ".jsx" ∷ bytes ".ts" ∷ bytes ".tsx" ∷ bytes ".mjs" ∷ bytes ".cjs" ∷ [])
        ext
    then Language.jsts
    else Language.generic

-- `Language.String`
abbrev pub language_text : Language → Text
language_text Language.go = bytes "go"
language_text Language.python = bytes "python"
language_text Language.markdown = bytes "markdown"
language_text Language.jsts = bytes "jsts"
language_text Language.generic = bytes "generic"

-- `Sig`; `sha256_hex` is the digest in hexadecimal
unfoldable pub sig_of : (Text → Text) → Text → Language → ℕ → ℕ → Text
unfolding itoa
sig_of sha256_hex content lang max_chars overlap =
    sha256_hex content
    ++ (bytes ":"
        ++ (language_text lang ++ (bytes ":" ++ (itoa max_chars ++ (bytes ":" ++ itoa overlap)))))

-- the loop of `FirstLine`, with the ellipsis U+2026
first_of : ℕ → List Text → Text
first_of n [] = []
first_of n (ln ∷ lns) =
    let s = trim_space ln in
    let rest = first_of n lns in
    if is_empty s
    then rest
    else if ltb n (length (runes s))
    then join_runes (take n (runes s)) ++ (0xe2 ∷ 0x80 ∷ 0xa6 ∷ [])
    else s

-- `FirstLine`
unfoldable pub first_line : Text → ℕ → Text
unfolding first_of split_lines
first_line text n = first_of n (split_lines text)

unfoldable pub find_key : Text → List (Text × Ulid) → Option Ulid
find_key k [] = none
find_key k ((j, x) ∷ m) = let rest = find_key k m in if text_eq j k then some x else rest

-- `dropArtifact`, on the list of the artifact's scope
unfoldable pub drop_one : Artifact → List Artifact → List Artifact
drop_one a [] = []
drop_one a (x ∷ xs) =
    let rest = drop_one a xs in if x.scope == a.scope && x.id == a.id then xs else x ∷ rest

abbrev pub limited : Text → Stats → Stats
limited name st = record st { limit_hit = name }

module _ ⦃s : Store⦄ where
  -- a call of the engine
  unfoldable pub on_store : {A : Type 0} → Exec s.State A → Exec Reconciler A
  on_store f r = let (out, t) = f r.store in (out, record r { store = t })

  -- a change of the run's own state
  unfoldable pub update : (Reconciler → Reconciler) → Exec Reconciler (Unit {0})
  update f r = (ok tt, f r)

  module _ ⦃ul : Ulids⦄ where
    abbrev lower : Scope → Option Scope → Option Scope
    lower x none = some x
    lower x (some best) = if text_lt (ul.text x.id) (ul.text best.id) then some x else some best

    -- `findChildScope`
    child_from : Ulid → Text → Option Scope → List Scope → Option Scope
    child_from parent title best [] = best
    child_from parent title best (x ∷ xs) =
        child_from parent title
          (if x.parent == parent && (x.role == role_workspace && text_eq x.title title)
            then lower x best
            else best)
          xs

    unfoldable pub find_child_scope : Ulid → Text → Reconciler → Option Scope
    unfolding child_from
    find_child_scope parent title r = child_from parent title none r.scopes

    abbrev cached : Text → Ulid → Reconciler → Reconciler
    cached dir id r = record r { dir_scope = (dir, id) ∷ r.dir_scope }

    abbrev created : Text → Scope → Reconciler → Reconciler
    created dir sc r = record r {
      scopes = r.scopes ++ (sc ∷ []);
      dir_scope = (dir, sc.id) ∷ r.dir_scope;
      st = record r.st { scopes_created = suc r.st.scopes_created };
    }

    -- the scope of a directory below a known parent
    unfoldable pub child_scope_for : Text → Text → Ulid → Exec Reconciler Ulid
    unfolding on_store update find_child_scope
    child_scope_for dir base parent r = elim (find_child_scope parent base r) [
      | some sc ↦ (ok sc.id, cached dir sc.id r)
      | none ↦
          (on_store (s.create_scope parent role_workspace base) >>= λ sc.
          update (created dir sc) >> pure sc.id)
            r
    ]

    -- `ensureDirScope`; the root is in the cache from the start
    unfoldable pub ensure_dir_scope : List Text → Exec Reconciler Ulid
    unfolding find_key child_scope_for
    ensure_dir_scope [] r = elim (find_key (bytes ".") r.dir_scope) [
      | some id ↦ (ok id, r)
      | none ↦ (err internal, r)
    ]
    ensure_dir_scope (n ∷ up) r = elim (find_key (dir_text (n ∷ up)) r.dir_scope) [
      | some id ↦ (ok id, r)
      | none ↦ (ensure_dir_scope up >>= child_scope_for (dir_text (n ∷ up)) n) r
    ]

  -- `deleteArtifact`
  unfoldable pub delete_chunk : Artifact → Exec Reconciler (Unit {0})
  unfolding on_store update drop_one
  delete_chunk a = on_store (s.delete_artifact a.id) >>= λ u. update λ r. record r {
    artifacts = drop_one a r.artifacts;
    st = record r.st { chunks_removed = suc r.st.chunks_removed };
  }

  unfoldable pub delete_chunks : List Artifact → Exec Reconciler (Unit {0})
  unfolding delete_chunk
  delete_chunks [] = pure tt
  delete_chunks (a ∷ as') = delete_chunk a >> delete_chunks as'

  abbrev line_range : Chunk → Text
  line_range c = itoa c.start_line ++ (bytes "-" ++ itoa c.end_line)

  -- the request of `pushChunk`
  unfoldable pub chunk_request : Ulid → Text → Chunk → ℕ → Text → PushRequest
  unfolding first_line
  chunk_request scope rel c idx sig = record {
    scope = scope;
    kind = kind_document;
    summary =
        rel
        ++ (bytes ":"
            ++ (line_range c ++ ((0x20 ∷ 0xe2 ∷ 0x80 ∷ 0x94 ∷ 0x20 ∷ []) ++ first_line c.text 80)));
    content = some c.text;
    derived_from = [];
    tier = tier_worktree;
    publish = false;
    embed_text = c.text;
    meta =
        (bytes "path", rel)
        ∷ (bytes "lines", line_range c)
        ∷ (bytes "chunk", itoa idx)
        ∷ (bytes "sig", sig)
        ∷ [];
    supersedes = [];
    trust = trust_ingested;
    relations = [];
  }

  -- `pushChunk`
  unfoldable pub push_chunk : Ulid → Text → Chunk → ℕ → Text → Exec Reconciler (Unit {0})
  unfolding on_store update chunk_request
  push_chunk scope rel c idx sig = on_store (s.push (chunk_request scope rel c idx sig)) >>= λ a.
      update λ r. record r {
        artifacts = r.artifacts ++ (a ∷ []);
        st = record r.st { chunks_added = suc r.st.chunks_added };
      }

  unfoldable pub push_chunks : Ulid → Text → List Chunk → ℕ → Text → Exec Reconciler (Unit {0})
  unfolding push_chunk
  push_chunks scope rel [] idx sig = pure tt
  push_chunks scope rel (c ∷ cs) idx sig =
      push_chunk scope rel c idx sig >> push_chunks scope rel cs (suc idx) sig
