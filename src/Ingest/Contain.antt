-- ===== src/Ingest/Contain.antt =====
-- internal/ingest/contain.go and resolve.go: the sandbox of an ingestion, and the scope of a path. The
-- paths of path/filepath, and the process, are a parameter.
pub mod Roots
use ioc.Base.{
  ℕ, Bool, true, false, ◌&&◌, ◌||◌, List, [], ◌∷◌, ◌++◌, Text, bytes, is_empty, text_eq, trim_space,
  Option, none, some, Result, ok, err, and_then, invalid_input, Exec, pure, ◌>>=◌, ◌>>◌, not,
  if◌then◌else◌, ◌≡◌,
}
use ioc.Core.Types.{Ulid, is_zero, nil_id, role_worktree}
use ioc.Storage.Meta.{MetaEnv, get_config, put_config, get_scope}
use ioc.Storage.Interfaces.{Blobs, Vectors, Embedder}
use ioc.Engine.State.{Engine, on_db, create_scope}
use ioc.Ingest.Lang.{has_prefix}

-- package path/filepath, with the files as they are during a call, and the process's environment
pub record Paths : Type 0 where
  pub abs : Text → Result Text
  pub eval_symlinks : Text → Result Text
  pub clean : Text → Text
  pub join : Text → Text → Text
  pub rel : Text → Text → Result Text
  pub is_abs : Text → Bool
  pub base : Text → Text
  pub to_slash : Text → Text
  pub separator : Text
  pub windows : Bool
  pub to_lower : Text → Text
  pub getenv : Text → Text
  pub getwd : Result Text

-- every error of `Contain` is one of the input
abbrev pub or_invalid : Result Text → Result Text
or_invalid (ok t) = ok t
or_invalid (err e) = err invalid_input

abbrev pub or_else : Result Text → Text → Text
or_else (ok t) d = t
or_else (err e) d = d

abbrev trimmed : Option Text → Text
trimmed none = []
trimmed (some t) = trim_space t

module _ ⦃p : Paths⦄ where
  -- `absRoot`
  unfoldable pub abs_root : Text → Text
  abs_root v = or_else (p.abs v) (p.clean v)

  -- `ResolveIngestRoot`, given `e.Config`
  unfoldable pub resolve_ingest_root : (Text → Option Text) → Text
  unfolding abs_root
  resolve_ingest_root setting =
      let env = trim_space (p.getenv (bytes "IOC_INGEST_ROOT")) in
      let stored = trimmed (setting (bytes "ingest_root")) in
      if not (is_empty env)
      then abs_root env
      else if not (is_empty stored)
      then abs_root stored
      else or_else p.getwd (bytes ".")

  -- the real location of the target; it must exist
  abbrev pub real_target : Text → Result Text
  real_target target = and_then (or_invalid (p.abs target)) (λ at. or_invalid (p.eval_symlinks at))

  -- the real location of the sandbox, or its cleaned path
  abbrev pub real_root : Text → Result Text
  real_root root =
      and_then (or_invalid (p.abs root)) (λ ar. ok (or_else (p.eval_symlinks ar) (p.clean ar)))

  abbrev pub fold_case : Text → Text
  fold_case t = if p.windows then p.to_lower t else t

  -- a relative path that leaves its base
  unfoldable pub escapes : Text → Bool
  unfolding text_eq has_prefix
  escapes rel =
      text_eq rel (bytes "..") || (has_prefix (bytes ".." ++ p.separator) rel || p.is_abs rel)

  -- the test of `Contain`
  abbrev pub checked : Text → Result Text → Result Text
  checked rt (err e) = err invalid_input
  checked rt (ok rel) = if escapes rel then err invalid_input else ok rt

  -- `Contain`
  unfoldable pub contain : Text → Text → Result Text
  unfolding escapes
  contain root target =
      and_then (real_target target)
        λ rt. and_then (real_root root) λ rr. checked rt (p.rel (fold_case rr) (fold_case rt))

  abbrev pub path_key : Text → Text
  path_key abs = bytes "ingest:" ++ p.to_slash abs

module _ ⦃m : MetaEnv⦄ ⦃b : Blobs⦄ ⦃v : Vectors⦄ ⦃em : Embedder⦄ ⦃p : Paths⦄ where
  abbrev pub setting_of : Engine → Text → Option Text
  setting_of s key = get_config key s.db

  abbrev if_read : {A : Type 0} → Result A → Ulid → Ulid
  if_read (ok a) id = id
  if_read (err e) id = nil_id

  -- a stored identifier, where its scope still exists
  abbrev existing : Option Ulid → Engine → Ulid
  existing none s = nil_id
  existing (some id) s = if_read (get_scope id s.db) id

  abbrev remembered_in : Option Text → Engine → Ulid
  remembered_in none s = nil_id
  remembered_in (some t) s = existing (m.ulids.parse t) s

  -- the scope remembered for a path
  unfoldable pub remembered : Text → Engine → Ulid
  remembered key s = remembered_in (get_config key s.db) s

  -- the scope given, remembered or made
  unfoldable pub scope_for : Text → Text → Ulid → Text → Ulid → ℕ → Exec Engine Ulid
  unfolding remembered create_scope
  scope_for key root given title id now s =
      let found = if is_zero given then remembered key s else given in
      if is_zero found
      then (do
        scope ←
            create_scope nil_id role_worktree
              (if is_empty title then p.base (p.clean root) else title) id now
        pure scope.id)
          s
      else (ok found, s)

  -- the rest of `RootScope`, in the sandbox
  unfoldable pub rooted : Text → Text → Ulid → Text → Ulid → ℕ → Exec Engine Ulid
  unfolding scope_for on_db put_config
  rooted key root given title id now = do
    scope ← scope_for key root given title id now
    on_db (put_config key (m.ulids.text scope))
    pure scope

  -- `RootScope`, with the identifier and the time of a scope that it makes
  unfoldable pub root_scope : Text → Ulid → Text → Ulid → ℕ → Exec Engine Ulid
  unfolding contain resolve_ingest_root rooted
  root_scope root given title id now s = elim (contain (resolve_ingest_root (setting_of s)) root) [
    | err e ↦ (err e, s)
    | ok abs ↦ rooted (path_key abs) root given title id now s
  ]
