-- ===== src/Ingest/Sync.antt =====
-- internal/ingest/sync.go: what a run does after its walk; buildIndex of reconcile.go and the order of
-- Ingest of ingest.go from there. The set `dirty` and the map `dirFiles` are lists; the order in which
-- a Go map gives its keys is unspecified, and here it is the list's.
pub mod Levels
pub mod Vanished
pub mod Pruned
use ioc.Base.{
  ℕ, zero, suc, ◌+◌, Bool, true, false, not, ◌&&◌, ◌||◌, List, [], ◌∷◌, ◌++◌, Text, bytes, text_eq,
  text_lt, Option, none, some, is_empty, ltb, ◌==◌, any, filter, map, length, Result, ok, err,
  invalid_input, Exec, pure, ◌>>=◌, ◌>>◌, if◌then◌else◌,
}
use ioc.Core.Types.{Ulid, Scope, Artifact, kind_document}
use ioc.Core.Ulid.{Ulids}
use ioc.Search.{Unicode, sort_stable}
use ioc.Ingest.Lang.{has_prefix}
use ioc.Ingest.Complete.{meta_at}
use ioc.Ingest.Reconcile.{
  Store, Options, Stats, Reconciler, File, on_store, update, find_key, delete_chunk, limited,
}
use ioc.Ingest.Reconcile.Files.{reconcile_file}

-- `childOf`
unfoldable pub children_of : Ulid → List Scope → List Ulid
unfolding filter
children_of p scopes = map (λ c. c.id) (filter (λ c. c.parent == p) scopes)

unfoldable pub all_children : List Ulid → List Scope → List Ulid
unfolding children_of
all_children [] scopes = []
all_children (x ∷ xs) scopes = children_of x scopes ++ all_children xs scopes

-- the loop of `descendants`, with all the scopes of one depth at a time
unfoldable pub walk_down : ℕ → List Ulid → List Scope → List Ulid
unfolding all_children
walk_down zero level scopes = []
walk_down (suc fuel) level scopes = level ++ walk_down fuel (all_children level scopes) scopes

-- `descendants`; a tree is at most as deep as its scopes are many
unfoldable pub descendants : Ulid → List Scope → List Ulid
unfolding walk_down
descendants root scopes = walk_down (suc (suc (length scopes))) (root ∷ []) scopes

-- the keys of a Go set that is written down with its repeats
unfoldable pub distinct : List Text → List Text
unfolding any
distinct [] = []
distinct (t ∷ ts) = let rest = distinct ts in if any (λ k. text_eq k t) ts then rest else t ∷ rest

-- an entry of `reverseDirCache`
unfoldable pub find_dir : Ulid → List (Text × Ulid) → Option Text
find_dir id [] = none
find_dir id ((dir, x) ∷ m) = let rest = find_dir id m in if x == id then some dir else rest

abbrev pub path_of : Artifact → Text
path_of a = meta_at (bytes "path") a

-- a document whose file was not seen
abbrev pub is_stale : List Text → Artifact → Bool
is_stale want a =
    a.kind == kind_document
    && (not (is_empty (path_of a)) && not (any (λ p. text_eq p (path_of a)) want))

abbrev pub is_vanished : List Text → Ulid → Artifact → Bool
is_vanished want sid a = a.scope == sid && is_stale want a

abbrev pub find_scope : Ulid → List Scope → Option Scope
find_scope id [] = none
find_scope id (x ∷ xs) = if x.id == id then some x else find_scope id xs

-- `removeScope`
unfoldable pub drop_scope_of : Ulid → List Scope → List Scope
drop_scope_of id [] = []
drop_scope_of id (x ∷ xs) = let rest = drop_scope_of id xs in if x.id == id then xs else x ∷ rest

-- The text of a rollup; `filepath.ToSlash` leaves a path as it is here.
unfoldable pub rollup_text : Text → List Text → Text
rollup_text label files = bytes "directory " ++ (label ++ (bytes "; files: " ++ joined files))
  where
    joined : List Text → Text
    joined [] = []
    joined (f ∷ []) = f
    joined (f ∷ g ∷ fs) = f ++ (bytes ", " ++ joined (g ∷ fs))

module _ ⦃s : Store⦄ where
  abbrev marked : Option Text → Reconciler → Reconciler
  marked none r = r
  marked (some dir) r = record r { dirty = dir ∷ r.dirty }

  unfoldable pub delete_marking : Option Text → Artifact → Exec Reconciler (Unit {0})
  unfolding delete_chunk update
  delete_marking dir a = delete_chunk a >>= λ u. update (marked dir)

  unfoldable pub delete_marked : Option Text → List Artifact → Exec Reconciler (Unit {0})
  unfolding delete_marking
  delete_marked dir [] = pure tt
  delete_marked dir (a ∷ as') = delete_marking dir a >> delete_marked dir as'

  -- the documents of one scope; the paths that went
  unfoldable pub vanish_in : List (Text × Ulid) → Ulid → Exec Reconciler (List Text)
  unfolding delete_marked find_dir filter
  vanish_in rev sid r =
      let del = filter (is_vanished r.want_paths sid) r.artifacts in
      (delete_marked (find_dir sid rev) del >> pure (map path_of del)) r

  unfoldable pub vanish_all : List (Text × Ulid) → List Ulid → Exec Reconciler (List Text)
  unfolding vanish_in
  vanish_all rev [] = pure []
  vanish_all rev (sid ∷ sids) =
      vanish_in rev sid >>= λ ps. vanish_all rev sids >>= λ qs. pure (ps ++ qs)

  abbrev files_gone : ℕ → Reconciler → Reconciler
  files_gone n r = record r { st = record r.st { files_removed = n } }

  -- `removeVanished`
  unfoldable pub remove_vanished : Ulid → Exec Reconciler (Unit {0})
  unfolding vanish_all descendants distinct update
  remove_vanished root r =
      (vanish_all r.dir_scope (descendants root r.scopes) >>= λ ps.
      update (files_gone (length (distinct ps))))
        r

  abbrev scope_gone : Ulid → Reconciler → Reconciler
  scope_gone sid r = record r {
    scopes = drop_scope_of sid r.scopes;
    st = record r.st { scopes_removed = suc r.st.scopes_removed };
  }

  -- a scope that the pruning leaves
  abbrev pub is_kept : Ulid → Ulid → Reconciler → Bool
  is_kept root sid r =
      sid == root
      || (ltb 0 (length (filter (λ a. a.scope == sid) r.artifacts))
          || ltb 0 (length (children_of sid r.scopes)))

  -- the body of the loop of `pruneEmpty`; whether a scope went
  unfoldable pub prune_one : Ulid → Ulid → Exec Reconciler Bool
  unfolding filter children_of on_store update drop_scope_of
  prune_one root sid r =
      if is_kept root sid r then (ok false, r) else elim (find_scope sid r.scopes) [
        | none ↦ (ok false, r)
        | some sc ↦
            (on_store (s.delete_scope sid) >>= λ u. update (scope_gone sid) >>= λ v. pure true) r
      ]

  unfoldable pub prune_pass : Ulid → List Ulid → Exec Reconciler Bool
  unfolding prune_one
  prune_pass root [] = pure false
  prune_pass root (sid ∷ sids) =
      prune_one root sid >>= λ b. prune_pass root sids >>= λ c. pure (b || c)

  -- the loop of `pruneEmpty`
  unfoldable pub prune_on : ℕ → Ulid → Exec Reconciler (Unit {0})
  unfolding prune_pass descendants
  prune_on zero root = pure tt
  prune_on (suc fuel) root =
      let rest = prune_on fuel root in
      (λ r. (prune_pass root (descendants root r.scopes) >>= λ c. if c then rest else pure tt) r)

  -- `pruneEmpty`; a pass that changes anything takes a scope away
  unfoldable pub prune_empty : Ulid → Exec Reconciler (Unit {0})
  unfolding prune_on
  prune_empty root r = prune_on (suc (length r.scopes)) root r

  abbrev files_of : Text → List (Text × Text) → List Text
  files_of dir fs = map (λ e. e.1) (filter (λ e. text_eq e.0 dir) fs)

  -- the rollup of one directory; `root_base` is the last name of the root's path
  unfoldable pub roll_one : Text → Text → Exec Reconciler (Unit {0})
  unfolding find_key sort_stable text_lt rollup_text on_store text_eq
  roll_one root_base dir r = elim (find_key dir r.dir_scope) [
    | none ↦ (ok tt, r)
    | some sid ↦ elim (find_scope sid r.scopes) [
      | none ↦ (ok tt, r)
      | some sc ↦
          let files = sort_stable text_lt (files_of dir r.dir_files) in
          let label = if text_eq dir (bytes ".") then root_base else dir in
          if ltb 0 (length files)
          then on_store (s.rollup_scope sid (rollup_text label files)) r
          else (ok tt, r)
    ]
  ]

  unfoldable pub roll_all : Text → List Text → Exec Reconciler (Unit {0})
  unfolding roll_one
  roll_all root_base [] = pure tt
  roll_all root_base (d ∷ ds) = roll_one root_base d >> roll_all root_base ds

  -- `rollups`
  unfoldable pub rollups : Text → Exec Reconciler (Unit {0})
  unfolding roll_all distinct
  rollups root_base r = roll_all root_base (distinct r.dirty) r

  -- `buildIndex`
  unfoldable pub build_index : ℕ → Exec Reconciler (Unit {0})
  build_index max_index r = elim (s.list_scopes r.store) [
    | err e ↦ (err e, r)
    | ok scs ↦ elim (s.list_artifacts r.store) [
      | err e ↦ (err e, record r { scopes = scs })
      | ok arts ↦
          if ltb max_index (length arts)
          then (
            err invalid_input,
            record r { scopes = scs; st = limited (bytes "max_index_artifacts") r.st },
          )
          else (ok tt, record r { scopes = scs; artifacts = arts })
    ]
  ]

  -- `skipDirs`, and the names that start with .ioc
  abbrev is_skipped : Text → Bool
  is_skipped name =
      any (λ k. text_eq k name)
        (bytes ".git"
          ∷ bytes "node_modules"
          ∷ bytes "vendor"
          ∷ bytes "bin"
          ∷ bytes "dist"
          ∷ bytes "build"
          ∷ bytes ".venv"
          ∷ bytes "venv"
          ∷ bytes "__pycache__"
          ∷ bytes ".idea"
          ∷ bytes ".vscode"
          ∷ [])
      || has_prefix (bytes ".ioc") name

  module _ ⦃u : Unicode⦄ ⦃ul : Ulids⦄ (sha256_hex : Text → Text) (opt : Options) where
    -- `walk`, over the files below the root in the order of filepath.WalkDir
    unfoldable pub walk_files : List File → Exec Reconciler (Unit {0})
    unfolding reconcile_file any has_prefix text_eq
    walk_files [] = pure tt
    walk_files (f ∷ fs) =
        let rest = walk_files fs in
        if any is_skipped f.dir then rest else reconcile_file sha256_hex opt f >> rest

    -- `Ingest`, from `buildIndex` on
    unfoldable pub ingest : ℕ → Ulid → Text → List File → Exec Reconciler (Unit {0})
    unfolding build_index walk_files remove_vanished prune_empty rollups
    ingest max_index root root_base files = do
      build_index max_index
      walk_files files
      remove_vanished root
      prune_empty root
      rollups root_base
