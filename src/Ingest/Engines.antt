-- ===== src/Ingest/Engines.antt =====
-- internal/ingest: the engine as the store of a reconcile run. The n-th call that takes an
-- identifier has `ids n` from `NewID`, at the time `clock n`.
use ioc.Base.{sym, ℕ, suc, Text, ok, ◌≡◌, refl, ◌∙◌, subst}
use ioc.Core.Types.{Ulid, Artifact, PushRequest}
use ioc.Storage.Meta.{list_scopes, list_artifacts, MetaEnv}
use ioc.Storage.Interfaces.{Blobs, Vectors, Embedder}
use ioc.Engine.State.{Engine, create_scope}
use ioc.Engine.Push.{push, rollup_scope, pushed}
use ioc.Engine.Provenance.{with_trust-lookup, push_returns}
use ioc.Engine.Admin.{drop_artifact, drop_scope}
use ioc.Ingest.Reconcile.{Store}
use ioc.Ingest.Reconcile.Pushes.{IsAsked}

pushed-IsAsked :
    (r : PushRequest) (id : Ulid) (now : ℕ) (content : Text) (ref : ℕ)
    → IsAsked r (pushed r id now content ref)
unfolding pushed
pushed-IsAsked r id now content ref = record {
  scope = refl;
  kind = λ h. rw h refl;
  meta = λ key h. with_trust-lookup r.meta r.trust key ∙ rw h refl;
}

module _ ⦃m : MetaEnv⦄ ⦃b : Blobs⦄ ⦃v : Vectors⦄ ⦃em : Embedder⦄ where
  -- a push that succeeds gives what its request asks for
  push-IsAsked :
      (r : PushRequest) (id : Ulid) (now : ℕ) (e : Engine) (a : Artifact)
      → (push r id now e).0 ≡ ok a
      → IsAsked r a
  push-IsAsked r id now e a h =
      let (content, ref, same) = push_returns r id now e a h in
      subst (IsAsked r) (sym same) (pushed-IsAsked r id now content ref)

  module _ (ids : ℕ → Ulid) (clock : ℕ → ℕ) where
    -- `Engine`, with the number of the next identifier
    abbrev pub engine_store : Store
    engine_store = record {
      State = Engine × ℕ;
      create_scope = λ parent role title t.
          let (r, e) = create_scope parent role title (ids t.1) (clock t.1) t.0 in
          (r, (e, suc t.1));
      push = λ req t. let (r, e) = push req (ids t.1) (clock t.1) t.0 in (r, (e, suc t.1));
      delete_artifact = λ id t. let (r, e) = drop_artifact id t.0 in (r, (e, t.1));
      delete_scope = λ id t. let (r, e) = drop_scope id t.0 in (r, (e, t.1));
      rollup_scope = λ id summary t. let (r, e) = rollup_scope id summary t.0 in (r, (e, t.1));
      list_scopes = λ t. list_scopes t.0.db;
      list_artifacts = λ t. list_artifacts t.0.db;
    }

    pub engine_store-IsAsked :
        (req : PushRequest) (t : engine_store.State) (a : Artifact)
        → (engine_store.push req t).0 ≡ ok a
        → IsAsked req a
    engine_store-IsAsked req t a h = push-IsAsked req (ids t.1) (clock t.1) t.0 a h
