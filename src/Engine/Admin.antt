-- ===== src/Engine/Admin.antt =====
-- internal/engine/store_admin.go: deletion, and Sync.
use ioc.Base.{
  Bool, true, false, List, [], ◌∷◌, Option, none, some, ok, invalid_input, Exec, guard, ◌>>=◌, ◌>>◌,
}
use ioc.Core.Types.{Ulid}
use ioc.Storage.Meta.{
  MetaEnv, delete_edges_for, delete_artifact, delete_scope, artifacts_in_scope, child_scopes,
}
use ioc.Storage.Interfaces.{Blobs, Vectors}
use ioc.Engine.State.{Engine, on_db, look}

abbrev pub is_nil {ℓ} : {A : Type ℓ} → List A → Bool
is_nil [] = true
is_nil (x ∷ xs) = false

module _ ⦃m : MetaEnv⦄ ⦃b : Blobs⦄ ⦃v : Vectors⦄ where
  -- `Engine.DeleteArtifact`: its edges go first
  unfoldable pub drop_artifact : Ulid → Exec Engine (Unit {0})
  unfolding on_db
  drop_artifact id = do on_db (delete_edges_for id); on_db (delete_artifact id)

  -- `Engine.DeleteScope`: refused while the scope has artifacts or children
  unfoldable pub drop_scope : Ulid → Exec Engine (Unit {0})
  unfolding on_db look
  drop_scope id = do
    arts ← look (artifacts_in_scope id)
    guard (is_nil arts) invalid_input
    children ← look (child_scopes id)
    guard (is_nil children) invalid_input
    on_db (delete_scope id)

  abbrev synced : Option v.Store → Exec Engine (Unit {0})
  synced none s = (ok tt, s)
  synced (some es) s = let (r, es') = v.sync es in (r, record s { emb = some es' })

  -- `Engine.Sync`: nothing to flush while no vector store is open
  unfoldable pub sync_engine : Exec Engine (Unit {0})
  sync_engine s = synced s.emb s
