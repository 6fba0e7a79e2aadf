-- ===== src/Engine/Integrity/Embedding.antt =====
-- internal/engine/engine.go, storeSummaryEmbedding: the metadata store after it.
use ioc.Base.{
  ℕ, not, List, Text, ◌≡◌, any, length, itoa, bytes, bind_keeps, guard_keeps, ◌>>=◌, arith,
}
use ioc.Storage.Meta.{MetaEnv}
use ioc.Storage.Meta.Frames.{SameRecords, SameRecords-trans, put_config-SameRecords}
use ioc.Storage.Interfaces.{Blobs, Vectors, Embedder}
use ioc.Engine.State.{
  Engine, reconcile_model, open_emb, ensure_emb, embed_text, emb_put, store_summary_embedding,
  non_finite,
}

module _ ⦃m : MetaEnv⦄ ⦃b : Blobs⦄ ⦃v : Vectors⦄ ⦃em : Embedder⦄ where
  pub reconcile_model-SameRecords : (s : Engine) → SameRecords s.db (reconcile_model s).1.db
  unfolding reconcile_model
  reconcile_model-SameRecords s c other k =
      ground (arith, put_config-SameRecords (bytes "emb_model") em.model s.db c other k)

  open_emb-SameRecords : (dims : ℕ) (s : Engine) → SameRecords s.db (open_emb dims s).1.db
  unfolding open_emb
  open_emb-SameRecords dims s c other k =
      ground (arith, put_config-SameRecords (bytes "emb_dims") (itoa dims) s.db c other k)

  ensure_emb-SameRecords : (dims : ℕ) (s : Engine) → SameRecords s.db (ensure_emb dims s).1.db
  unfolding ensure_emb
  ensure_emb-SameRecords dims s c other k = ground (arith, open_emb-SameRecords dims s c other k)

  emb_put-db : (vec : List ℕ) (s : Engine) → (emb_put vec s).1.db ≡ s.db
  unfolding emb_put
  emb_put-db vec s = ground arith

  embed_text-SameRecords : (text : Text) (s : Engine) → SameRecords s.db (embed_text text s).1.db
  unfolding embed_text ◌>>=◌
  embed_text-SameRecords text s c other k = ground (arith, reconcile_model-SameRecords s c other k)

  -- Embedding and storing a summary changes no bucket but the config, whether it succeeds or
  -- fails.
  pub store_summary_embedding-SameRecords :
      (summary : Text) (s : Engine) → SameRecords s.db (store_summary_embedding summary s).1.db
  unfolding store_summary_embedding
  store_summary_embedding-SameRecords summary s =
      let s1 = (embed_text summary s).1 in
      let p = embed_text-SameRecords summary s in
      bind_keeps (λ x. SameRecords s.db x.db) _ _ s p
        λ vec e.
          guard_keeps (λ x. SameRecords s.db x.db) (not (any non_finite vec)) _ _ s1 p
            λ t.
              let s2 = (ensure_emb (length vec) s1).1 in
              let q =
                SameRecords-trans s.db s1.db s2.db p (ensure_emb-SameRecords (length vec) s1) in
              bind_keeps (λ x. SameRecords s.db x.db) _ _ s1 q λ u e. rw (emb_put-db vec s2) q
