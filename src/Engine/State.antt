-- ===== src/Engine/State.antt =====
-- internal/engine/engine.go: the engine's state and the embedding of a summary.
use ioc.Base.{
  ◌≡◌, bind_keeps, ℕ, ◌/◌, ◌%◌, ◌^◌, Bool, true, false, not, List, [], ◌∷◌, Text, bytes, Option,
  none, some, text_eq, is_empty, any, length, itoa, ◌==◌, Result, ok, err, invalid_input, internal,
  Exec, pure, reads, guard, ◌>>=◌, ◌>>◌, if◌then◌else◌,
}
use ioc.Core.Types.{Ulid, Scope, is_zero, nil_id}
use ioc.Storage.Meta.{MetaEnv, get_config, put_config, get_scope, put_scope}
use ioc.Storage.Interfaces.{Blobs, Vectors, Embedder}

-- `Engine`: the metadata database, the content store, the vector store (nil until the dimension is
-- known), and whether the embedder's model has been reconciled
pub record Engine ⦃m : MetaEnv⦄ ⦃b : Blobs⦄ ⦃v : Vectors⦄ : Type 0 where
  pub db : m.bolt.Db
  pub blobs : b.Store
  pub emb : Option v.Store
  pub model_ok : Bool

module _ ⦃m : MetaEnv⦄ ⦃b : Blobs⦄ ⦃v : Vectors⦄ {A : Type 0} where
  -- a call of the metadata store
  unfoldable pub on_db : Exec m.bolt.Db A → Exec Engine A
  on_db f s = let (r, d) = f s.db in (r, record s { db = d })

  -- a read of the metadata store
  unfoldable pub look : (m.bolt.Db → Result A) → Exec Engine A
  look f s = (f s.db, s)

-- What holds of the metadata after a block that begins with a read or with a write of it.
module _ ⦃m : MetaEnv⦄ ⦃b : Blobs⦄ ⦃v : Vectors⦄ {A B : Type 0} (P : m.bolt.Db → Type 0) where
  pub look_keeps :
      (f : m.bolt.Db → Result A) (k : A → Exec Engine B) (s : Engine)
      → P s.db
      → ((a : A) → f s.db ≡ ok a → P (k a s).1.db)
      → P ((look f >>= k) s).1.db
  unfolding look
  look_keeps f k s h rest = bind_keeps (λ x. P x.db) (look f) k s h rest

  pub on_db_keeps :
      (w : Exec m.bolt.Db A) (k : A → Exec Engine B) (s : Engine)
      → P (w s.db).1
      → ((a : A) → (w s.db).0 ≡ ok a → P (k a (record s { db = (w s.db).1 })).1.db)
      → P ((on_db w >>= k) s).1.db
  unfolding on_db
  on_db_keeps w k s h rest = bind_keeps (λ x. P x.db) (on_db w) k s h rest

-- float32: all exponent bits set
abbrev pub non_finite : ℕ → Bool
non_finite bits = (bits / 2 ^ 23) % 256 == 255

-- `one`: exactly one vector for one text
abbrev one : Result (List (List ℕ)) → Result (List ℕ)
one (err e) = err e
one (ok (vec ∷ [])) = ok vec
one (ok _) = err internal

-- the scope that `CreateScope` makes
unfoldable pub created_scope : Ulid → ℕ → Text → Ulid → ℕ → Scope
created_scope parent role title id now = record {
  id = id;
  parent = parent;
  role = role;
  title = title;
  version = 1;
  seed_from = nil_id;
  archived = false;
  forked_from = nil_id;
  created_at = now;
  rollup_summary = [];
  rollup_emb_ref = 0;
}

module _ ⦃m : MetaEnv⦄ ⦃b : Blobs⦄ ⦃v : Vectors⦄ ⦃em : Embedder⦄ where
  -- what `reconcileModel` does of the model that the store was built with
  abbrev compare_model : Option Text → Engine → Result (Unit {0}) × Engine
  compare_model none s =
      let (r, s') = on_db (put_config (bytes "emb_model") em.model) s in
      elim r [ ok u ↦ (ok tt, record s' { model_ok = true }) | err e ↦ (err e, s') ]
  compare_model (some stored) s =
      if text_eq stored em.model
      then (ok tt, record s { model_ok = true })
      else (err invalid_input, s)

  -- `reconcileModel`
  unfoldable pub reconcile_model : Exec Engine (Unit {0})
  unfolding on_db
  reconcile_model s =
      if s.model_ok
      then (ok tt, s)
      else if is_empty em.model
      then (ok tt, s)
      else compare_model (get_config (bytes "emb_model") s.db) s

  -- `openEmb`: the store is set before its dimension is recorded
  abbrev opened_emb : ℕ → Result v.Store → Exec Engine (Unit {0})
  opened_emb dims (err e) s = (err e, s)
  opened_emb dims (ok es) s =
      on_db (put_config (bytes "emb_dims") (itoa dims)) (record s { emb = some es })

  unfoldable pub open_emb : ℕ → Exec Engine (Unit {0})
  unfolding on_db
  open_emb dims = opened_emb dims (v.open_store dims)

  abbrev emb_for : Option v.Store → ℕ → Exec Engine (Unit {0})
  emb_for none dims s = open_emb dims s
  emb_for (some es) dims s = if v.dims es == dims then (ok tt, s) else (err internal, s)

  -- `ensureEmb`
  unfoldable pub ensure_emb : ℕ → Exec Engine (Unit {0})
  unfolding open_emb
  ensure_emb dims s = emb_for s.emb dims s

  -- `embedText`
  unfoldable pub embed_text : Text → Exec Engine (List ℕ)
  unfolding reconcile_model
  embed_text text = do vec ← reads (λ s. one (em.embed (text ∷ []))); reconcile_model; pure vec

  -- `embedQuery`
  unfoldable pub embed_query : Text → Exec Engine (List ℕ)
  unfolding reconcile_model
  embed_query text = do
    vec ← reads (λ s. one (em.embed_query (text ∷ [])))
    reconcile_model
    pure vec

  -- `e.emb.Put`; a nil store is not reached, since `ensure_emb` comes before
  abbrev put_vector : Option v.Store → List ℕ → Exec Engine ℕ
  put_vector none vec s = (err internal, s)
  put_vector (some es) vec s = let (r, es') = v.put vec es in (r, record s { emb = some es' })

  unfoldable pub emb_put : List ℕ → Exec Engine ℕ
  emb_put vec s = put_vector s.emb vec s

  -- `storeSummaryEmbedding`: a vector that is not finite is refused
  unfoldable pub store_summary_embedding : Text → Exec Engine ℕ
  unfolding embed_text ensure_emb emb_put
  store_summary_embedding summary = do
    vec ← embed_text summary
    guard (not (any non_finite vec)) invalid_input
    ensure_emb (length vec)
    emb_put vec

  -- the parent of a scope that is not a root must exist
  unfoldable pub check_parent : Ulid → Exec Engine (Unit {0})
  unfolding look
  check_parent parent = if is_zero parent then pure tt else (look (get_scope parent) >> pure tt)

  -- `CreateScope`
  unfoldable pub create_scope : Ulid → ℕ → Text → Ulid → ℕ → Exec Engine Scope
  unfolding on_db check_parent
  create_scope parent role title id now = do
    check_parent parent
    on_db (put_scope (created_scope parent role title id now))
    pure (created_scope parent role title id now)
