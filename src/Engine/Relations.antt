-- ===== src/Engine/Relations.antt =====
-- internal/engine/relations.go: Relate.
use ioc.Base.{ℕ, not, Text, is_empty, ◌==◌, invalid_input, Exec, guard, ◌>>◌}
use ioc.Core.Types.{Ulid}
use ioc.Storage.Meta.{MetaEnv, get_artifact, put_edge}
use ioc.Storage.Interfaces.{Blobs, Vectors}
use ioc.Engine.State.{Engine, on_db, look}

module _ ⦃m : MetaEnv⦄ ⦃b : Blobs⦄ ⦃v : Vectors⦄ where
  -- `Relate`
  unfoldable pub relate : Ulid → Ulid → Text → ℕ → Exec Engine (Unit {0})
  unfolding on_db look
  relate from to kind now = do
    guard (not (from == to)) invalid_input
    guard (not (is_empty kind)) invalid_input
    look (get_artifact from)
    look (get_artifact to)
    on_db (put_edge (record { from = from; to = to; kind = kind; created_at = now }))
