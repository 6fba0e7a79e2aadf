-- ===== src/Runtime/Calls/Intact.antt =====
-- internal/runtime: the store behind the daemon stays intact, and a reader changes no record of it.
use ioc.Base.{
  is_utf8, All, true, Result, ok, ◌∙◌, Result-cases, ℕ, List, Text, ◌≡◌, refl, sym, inl, inr, Bool,
  Option-cases, arith, text_eq, suc, subst,
}
use ioc.Core.Types.{Ulid}
use ioc.Search.{Unicode}
use ioc.Storage.Bolt.{scopes, artifacts, edges}
use ioc.Storage.Meta.{MetaEnv}
use ioc.Storage.Meta.Frames.{put_config-SameRecords}
use ioc.Storage.Interfaces.{Blobs, Vectors, Embedder}
use ioc.Engine.State.{Engine, on_db}
use ioc.Engine.Admin.{sync_engine}
use ioc.Engine.Query.{Rankers}
use ioc.Engine.Query.Effects.{OnlyTraces}
use ioc.Engine.Integrity.{IsIntact}
use ioc.Engine.Integrity.Writes.{SameBucket-IsIntact, SameRecords-IsIntact}
use ioc.Engine.Integrity.Operations
use ioc.Engine.Integrity.Versions.{cross_version-IsIntact}
use ioc.Runtime.Json.{Decoder, decode, check_json_depth, max_json_depth}
use ioc.Storage.Meta.Values.{and_then-eq-ok}
use ioc.Runtime.Methods.{tier_of}
use ioc.Runtime.Wire.{
  Method, Wire, Params, name_of, case_of, all_methods, m_create_scope, m_push, m_publish, m_fork,
  m_consolidate, m_cross_version, m_rollup_scope, m_delete_artifact, m_delete_scope, m_supersede,
  m_relate, m_set_config,
}
use ioc.Runtime.Calls.{
  read_body, params_body, run, call, Surroundings, host_call, host_sync, daemon,
}
use ioc.Runtime.Calls.Reads.{run-OnlyTraces, call_as_keeps}
use ioc.Runtime.Server.{Server, serve_conn}
use ioc.Runtime.Keeps.{serve_conn_keeps}

module _ ⦃m : MetaEnv⦄ ⦃b : Blobs⦄ ⦃v : Vectors⦄ where
  OnlyTraces-IsIntact : (s s' : Engine) → OnlyTraces s s' → IsIntact s.db → IsIntact s'.db
  OnlyTraces-IsIntact s s' o h =
      SameBucket-IsIntact s.db s'.db (o.buckets scopes refl refl) (o.buckets artifacts refl refl)
        (o.buckets edges refl refl) h

  sync_engine-db : (s : Engine) → (sync_engine s).1.db ≡ s.db
  unfolding sync_engine
  sync_engine-db s = ground arith

module _ ⦃m : MetaEnv⦄ ⦃b : Blobs⦄ ⦃v : Vectors⦄ ⦃em : Embedder⦄ ⦃u : Unicode⦄
    (rk : Rankers m.floats.Float) where
  -- the kinds of the edges that the parameters declare are UTF-8
  abbrev IsUtf8Params : (c : Method) → Params c → Type 0
  IsUtf8Params m_create_scope p = Unit
  IsUtf8Params m_push p = All (λ sp. is_utf8 sp.kind ≡ true) p.req.relations
  IsUtf8Params m_relate p = is_utf8 p.kind ≡ true
  IsUtf8Params c p = Unit

  run-IsIntact :
      (c : Method) (p : Params c) (ids : ℕ → Ulid) (now : ℕ) (s : Engine)
      → IsUtf8Params c p
      → IsIntact s.db
      → IsIntact (run rk c p ids now s).1.db
  unfolding run on_db name_of tier_of text_eq
  run-IsIntact m_create_scope p ids now s clean h =
      Operations.create_scope-IsIntact p.parent p.role p.title (ids 0) now s h
  run-IsIntact m_push p ids now s clean h = Operations.push-IsIntact p.req (ids 0) now s clean h
  run-IsIntact m_publish p ids now s clean h = Operations.publish-IsIntact p.id s h
  run-IsIntact m_fork p ids now s clean h =
      Operations.fork-IsIntact p.source p.title (ids 0) (λ i. ids (suc i)) now s h
  run-IsIntact m_consolidate p ids now s clean h =
      Operations.consolidate-IsIntact p.scope p.summary p.supersedes (ids 0) now s h
  run-IsIntact m_cross_version p ids now s clean h =
      cross_version-IsIntact p.scope p.seed (ids 0) (λ i. ids (suc i)) now s h
  run-IsIntact m_rollup_scope p ids now s clean h =
      Operations.rollup_scope-IsIntact p.scope p.summary s h
  run-IsIntact m_delete_artifact p ids now s clean h = Operations.drop_artifact-IsIntact p.id s h
  run-IsIntact m_delete_scope p ids now s clean h = Operations.drop_scope-IsIntact p.id s h
  run-IsIntact m_supersede p ids now s clean h =
      Operations.supersede-IsIntact p.old p.replacement s h
  run-IsIntact m_relate p ids now s clean h =
      Operations.relate-IsIntact p.from p.to p.kind now s clean h
  run-IsIntact m_set_config p ids now s clean h =
      SameRecords-IsIntact s.db _ (put_config-SameRecords p.key p.val s.db) h
  run-IsIntact c p ids now s clean h =
      OnlyTraces-IsIntact s (run rk c p ids now s).1 (run-OnlyTraces rk c p ids now s refl) h

  module _ ⦃w : Wire⦄ ⦃j : Decoder⦄ where
    -- what was decoded has UTF-8 in its strings
    decode-unmarshal :
        {A : Type 0} (unmarshal : Text → Result A) (raw : Text) (a : A)
        → decode unmarshal raw ≡ ok a
        → unmarshal raw ≡ ok a
    unfolding decode
    decode-unmarshal unmarshal raw a h =
        let (u, e, g) = and_then-eq-ok (check_json_depth raw max_json_depth) _ h in
        elim (Result-cases (unmarshal raw)) [
          | inl (x, f) ↦ f ∙ rw f at g
          | inr (x, f) ↦ let k = rw f at g in cc
        ]

    read_body-IsUtf8Params :
        (c : Method) (p : Params c) (raw : Text)
        → read_body (params_body c) raw ≡ ok p
        → IsUtf8Params c p
    unfolding read_body params_body
    read_body-IsUtf8Params m_create_scope p raw h = tt
    read_body-IsUtf8Params m_push p raw h =
        w.unmarshal_push raw p (decode-unmarshal w.push_params.unmarshal raw p h)
    read_body-IsUtf8Params m_relate p raw h =
        w.unmarshal_relate raw p (decode-unmarshal w.relate_params.unmarshal raw p h)
    read_body-IsUtf8Params c p raw h = tt

    call-IsIntact :
        (method raw : Text) (ids : ℕ → Ulid) (now : ℕ) (s : Engine)
        → IsIntact s.db
        → IsIntact (call rk method raw ids now s).1.db
    unfolding call
    call-IsIntact method raw ids now s h = elim (Option-cases (case_of all_methods method)) [
      | inl e ↦ rw (call, e) h
      | inr (c, e) ↦
          rw (call, e)
            (call_as_keeps rk (λ x. IsIntact x.db) c raw ids now s h
              (λ p g. run-IsIntact c p ids now s (read_body-IsUtf8Params c p raw g) h))
    ]

    module _ (o : Surroundings) where
      -- Whoever the clients are and whatever they send, the frames of a connection, those that fail
      -- and those that are refused included, take an intact store to an intact store.
      pub serve_conn-IsIntact :
          (frames : List Text) (authed : Bool) (s : Server ⦃k = daemon rk o⦄)
          → IsIntact s.eng.engine.db
          → IsIntact (serve_conn ⦃k = daemon rk o⦄ frames authed s).1.eng.engine.db
      unfolding host_call host_sync
      serve_conn-IsIntact frames authed s h =
          serve_conn_keeps ⦃k = daemon rk o⦄ (λ x. IsIntact x.engine.db)
            (λ method params x g.
              call-IsIntact method params (o.draws.ids x.calls) (o.draws.now x.calls) x.engine g)
            (λ x g. subst IsIntact (sym (sync_engine-db x.engine)) g) frames authed s h
