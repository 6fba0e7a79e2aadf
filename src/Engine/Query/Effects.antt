-- ===== src/Engine/Query/Effects.antt =====
-- internal/engine/query.go: what a query writes.
use ioc.Base.{
  ℕ, List, Text, Bool, false, ◌≡◌, refl, ◌∙◌, Result, ok, err, guard, transact_keeps, bind_keeps,
  reads, inl, inr, Bool-cases, Exec, ◌>>◌, ◌>>=◌, pure, invalid_input, arith, invalid_input,
}
use ioc.Core.Types.{Ulid, Hit, TraceRecord}
use ioc.Storage.Bolt.{Bucket, bucket_eq, config, traces}
use ioc.Storage.Meta.{MetaEnv, put_trace}
use ioc.Storage.Meta.Frames.{SameBucket, put_json-SameBucket}
use ioc.Storage.Interfaces.{Blobs, Vectors, Embedder}
use ioc.Search.{Unicode}
use ioc.Engine.State.{Engine, look, on_db, reconcile_model, embed_query}
use ioc.Engine.Integrity.Embedding.{reconcile_model-SameRecords}
use ioc.Engine.Query.{Query, Rankers, query, answer, dims_match, record_trace, recorded, trace}

module _ ⦃m : MetaEnv⦄ ⦃b : Blobs⦄ ⦃v : Vectors⦄ where
  -- Only the buckets of the configuration and of the traces may differ; contents and vectors stay.
  pub record OnlyTraces (s s' : Engine) : Type 0 where
    pub buckets :
        (c : Bucket)
        → bucket_eq config c ≡ false
        → bucket_eq traces c ≡ false
        → SameBucket c s.db s'.db
    pub blobs : s'.blobs ≡ s.blobs
    pub emb : s'.emb ≡ s.emb

  pub OnlyTraces-refl : (s : Engine) → OnlyTraces s s
  OnlyTraces-refl s = record { buckets = λ c p q k. refl; blobs = refl; emb = refl }

  pub OnlyTraces-trans : (s t w : Engine) → OnlyTraces s t → OnlyTraces t w → OnlyTraces s w
  OnlyTraces-trans s t w f g = record {
    buckets = λ c p q k. g.buckets c p q k ∙ f.buckets c p q k;
    blobs = g.blobs ∙ f.blobs;
    emb = g.emb ∙ f.emb;
  }

  -- A test of the state, before the rest of a block.
  test_keeps :
      {B : Type 0} (P : Engine → Type 0) (t : Engine → Bool) (k : Exec Engine B) (s : Engine)
      → P s
      → P (k s).1
      → P (((λ x. guard (t x) invalid_input x) >> k) s).1
  unfolding ◌>>=◌ guard
  test_keeps P t k s h rest = elim (Bool-cases (t s)) [ inl e ↦ rw e rest | inr e ↦ rw e h ]

  module _ ⦃em : Embedder⦄ where
    reconcile_model-blobs : (s : Engine) → (reconcile_model s).1.blobs ≡ s.blobs
    unfolding reconcile_model
    reconcile_model-blobs s = ground arith

    reconcile_model-emb : (s : Engine) → (reconcile_model s).1.emb ≡ s.emb
    unfolding reconcile_model
    reconcile_model-emb s = ground arith

    reconcile_model-OnlyTraces : (s : Engine) → OnlyTraces s (reconcile_model s).1
    reconcile_model-OnlyTraces s = record {
      buckets = λ c p q. reconcile_model-SameRecords s c p;
      blobs = reconcile_model-blobs s;
      emb = reconcile_model-emb s;
    }

    embed_query-OnlyTraces : (text : Text) (s : Engine) → OnlyTraces s (embed_query text s).1
    unfolding embed_query reads pure
    embed_query-OnlyTraces text s = bind_keeps (OnlyTraces s) _ _ s (OnlyTraces-refl s) λ vec e.
        bind_keeps (OnlyTraces s) _ _ s (reconcile_model-OnlyTraces s)
          λ u f. reconcile_model-OnlyTraces s

    module _ ⦃u : Unicode⦄ (rk : Rankers m.floats.Float) where
      record_trace-OnlyTraces :
          (t : TraceRecord m.floats.Float) (s : Engine) → OnlyTraces s (record_trace rk t s)
      unfolding record_trace on_db put_trace
      record_trace-OnlyTraces t s = record {
        buckets = λ c p q.
            transact_keeps (SameBucket c s.db) _ s.db (λ k. refl)
              λ d' h.
                put_json-SameBucket traces c m.trace_json (m.ulids.text t.query_id) t s.db d' h q;
        blobs = refl;
        emb = refl;
      }

      recorded-OnlyTraces :
          (id : Ulid) (now : ℕ) (q : Query m.floats.Float)
          (r : Result (List (Hit m.floats.Float) × List Ulid)) (s : Engine)
          → OnlyTraces s (recorded rk id now q r s).1
      recorded-OnlyTraces id now q (err e) s = OnlyTraces-refl s
      recorded-OnlyTraces id now q (ok out) s = record_trace-OnlyTraces (trace rk id now q out) s

      -- A query, whether it succeeds or fails, changes no scope, artifact or edge, no stored content
      -- and no stored vector.
      pub query-OnlyTraces :
          (id : Ulid) (now : ℕ) (q : Query m.floats.Float) (s : Engine)
          → OnlyTraces s (query rk id now q s).1
      unfolding query look
      query-OnlyTraces id now q s = bind_keeps (OnlyTraces s) _ _ s (OnlyTraces-refl s) λ scope e.
          let p = embed_query-OnlyTraces q.text s in
          let s1 = (embed_query q.text s).1 in
          bind_keeps (OnlyTraces s) _ _ s p λ qvec f.
            test_keeps (OnlyTraces s) (λ x. dims_match rk qvec x.emb) _ s1 p
              (OnlyTraces-trans s s1 _ p
                (recorded-OnlyTraces id now q (answer rk now q qvec s1) s1))
