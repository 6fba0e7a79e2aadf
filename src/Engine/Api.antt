-- ===== src/Engine/Api.antt =====
-- The engine's operations that change its state, as calls: what a client, or the daemon on behalf
-- of its clients, can do to a store. Each call carries the identifiers and the time that it draws.
use ioc.Base.{ℕ, List, [], ◌∷◌, Text}
use ioc.Core.Types.{Ulid, PushRequest, Seed}
use ioc.Storage.Meta.{MetaEnv, put_config}
use ioc.Storage.Interfaces.{Blobs, Vectors, Embedder}
use ioc.Engine.State.{Engine, on_db, create_scope}
use ioc.Engine.Push.{push, supersede, publish, rollup_scope}
use ioc.Engine.Relations.{relate}
use ioc.Engine.Branch.{fork, consolidate, cross_version}
use ioc.Engine.Admin.{drop_artifact, drop_scope}

pub data Call : Type 0 where
  creates_scope : Ulid → ℕ → Text → Ulid → ℕ → Call
  pushes : PushRequest → Ulid → ℕ → Call
  supersedes : Ulid → Ulid → Call
  publishes : Ulid → Call
  rolls_up : Ulid → Text → Call
  relates : Ulid → Ulid → Text → ℕ → Call
  forks : Ulid → Text → Ulid → (ℕ → Ulid) → ℕ → Call
  consolidates : Ulid → Text → List Ulid → Ulid → ℕ → Call
  crosses_version : Ulid → Seed → Ulid → (ℕ → Ulid) → ℕ → Call
  drops_artifact : Ulid → Call
  drops_scope : Ulid → Call
  sets_config : Text → Text → Call

module _ ⦃m : MetaEnv⦄ ⦃b : Blobs⦄ ⦃v : Vectors⦄ ⦃em : Embedder⦄ where
  -- the state that a call leaves, whether it succeeds or fails
  unfoldable pub after_call : Call → Engine → Engine
  after_call (creates_scope parent role title id now) s =
      (create_scope parent role title id now s).1
  after_call (pushes r id now) s = (push r id now s).1
  after_call (supersedes old replacement) s = (supersede old replacement s).1
  after_call (publishes id) s = (publish id s).1
  after_call (rolls_up scope summary) s = (rollup_scope scope summary s).1
  after_call (relates from to kind now) s = (relate from to kind now s).1
  after_call (forks source title id ids now) s = (fork source title id ids now s).1
  after_call (consolidates scope summary old id now) s = (consolidate scope summary old id now s).1
  after_call (crosses_version scope seed id ids now) s = (cross_version scope seed id ids now s).1
  after_call (drops_artifact id) s = (drop_artifact id s).1
  after_call (drops_scope id) s = (drop_scope id s).1
  after_call (sets_config key val) s = (on_db (put_config key val) s).1

  -- a history of calls, in the order in which the store serialises them
  unfoldable pub after_calls : List Call → Engine → Engine
  unfolding after_call
  after_calls [] s = s
  after_calls (c ∷ cs) s = after_calls cs (after_call c s)
