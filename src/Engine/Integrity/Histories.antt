-- ===== src/Engine/Integrity/Histories.antt =====
-- The integrity of a store after any history of calls.
use ioc.Base.{is_utf8, true, ◌≡◌, All, List, [], ◌∷◌}
use ioc.Storage.Meta.{MetaEnv}
use ioc.Storage.Meta.Frames.{put_config-SameRecords}
use ioc.Storage.Interfaces.{Blobs, Vectors, Embedder}
use ioc.Engine.State.{Engine, on_db}
use ioc.Engine.Api.{Call, after_call, after_calls}
use ioc.Engine.Integrity.{IsIntact}
use ioc.Engine.Integrity.Writes.{SameRecords-IsIntact}
use ioc.Engine.Integrity.Operations
use ioc.Engine.Integrity.Versions.{cross_version-IsIntact}

module _ ⦃m : MetaEnv⦄ ⦃b : Blobs⦄ ⦃v : Vectors⦄ ⦃em : Embedder⦄ where
  -- the kinds of the edges that a call declares are UTF-8
  abbrev pub IsUtf8Call : Call → Type 0
  IsUtf8Call (Call.pushes r id now) = All (λ sp. is_utf8 sp.kind ≡ true) r.relations
  IsUtf8Call (Call.relates from to kind now) = is_utf8 kind ≡ true
  IsUtf8Call c = Unit

  after_call-IsIntact :
      (c : Call) (s : Engine) → IsUtf8Call c → IsIntact s.db → IsIntact (after_call c s).db
  unfolding after_call on_db
  after_call-IsIntact (Call.creates_scope parent role title id now) s clean h =
      Operations.create_scope-IsIntact parent role title id now s h
  after_call-IsIntact (Call.pushes r id now) s clean h = Operations.push-IsIntact r id now s clean h
  after_call-IsIntact (Call.supersedes old replacement) s clean h =
      Operations.supersede-IsIntact old replacement s h
  after_call-IsIntact (Call.publishes id) s clean h = Operations.publish-IsIntact id s h
  after_call-IsIntact (Call.rolls_up scope summary) s clean h =
      Operations.rollup_scope-IsIntact scope summary s h
  after_call-IsIntact (Call.relates from to kind now) s clean h =
      Operations.relate-IsIntact from to kind now s clean h
  after_call-IsIntact (Call.forks source title id ids now) s clean h =
      Operations.fork-IsIntact source title id ids now s h
  after_call-IsIntact (Call.consolidates scope summary old id now) s clean h =
      Operations.consolidate-IsIntact scope summary old id now s h
  after_call-IsIntact (Call.crosses_version scope seed id ids now) s clean h =
      cross_version-IsIntact scope seed id ids now s h
  after_call-IsIntact (Call.drops_artifact id) s clean h = Operations.drop_artifact-IsIntact id s h
  after_call-IsIntact (Call.drops_scope id) s clean h = Operations.drop_scope-IsIntact id s h
  after_call-IsIntact (Call.sets_config key val) s clean h =
      SameRecords-IsIntact s.db _ (put_config-SameRecords key val s.db) h

  -- Any history of calls, failed ones included, that declares edges of kinds that are UTF-8 takes an
  -- intact store to an intact store: every record decodes and stands under its own key, the parent of
  -- each scope and the scope of each artifact exist, and both ends of each edge exist.
  pub after_calls-IsIntact :
      (cs : List Call) (s : Engine)
      → All IsUtf8Call cs
      → IsIntact s.db
      → IsIntact (after_calls cs s).db
  unfolding after_calls
  after_calls-IsIntact [] s clean h = h
  after_calls-IsIntact (c ∷ cs) s (clean, cleans) h =
      after_calls-IsIntact cs (after_call c s) cleans (after_call-IsIntact c s clean h)
