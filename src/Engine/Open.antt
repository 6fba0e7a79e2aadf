-- ===== src/Engine/Open.antt =====
-- internal/engine/engine.go: Open, from the opened metadata store on, with checkEncryptionSentinel.
-- After an error the engine is closed, and what counts of it is its metadata. The directory, the file
-- of the database and the key from the environment are not part of it: the box is the environment's.
pub mod Modes
use ioc.Base.{
  ℕ, Bool, true, false, not, ◌&&◌, ◌||◌, Text, bytes, text_eq, is_empty, ltb, ◌==◌, ◌+◌, ◌^◌, [],
  ◌∷◌, Option, none, some, Result, ok, err, invalid_input, Exec, pure, throw, ◌>>=◌, ◌>>◌,
  if◌then◌else◌,
}
use ioc.Storage.Box.{enabled}
use ioc.Storage.Meta.{MetaEnv, get_config, put_config, is_empty_store}
use ioc.Storage.Interfaces.{Blobs, Vectors, Embedder}
use ioc.Ingest.Complete.{atoi_unsigned}
use ioc.Engine.State.{Engine, on_db, open_emb}

abbrev in_range : ℕ → Option ℕ → Option ℕ
in_range bound none = none
in_range bound (some n) = if ltb n bound then some n else none

abbrev to_zero : Option ℕ → Option ℕ
to_zero none = none
to_zero (some n) = some 0

-- `strconv.Atoi` on a recorded dimension. A number below 0 reads as 0: both differ from every
-- dimension, and OpenEmbeddingStore refuses both.
unfoldable pub atoi_dims : Text → Option ℕ
atoi_dims [] = none
atoi_dims (c ∷ s) =
    if c == 45
    then to_zero (in_range (2 ^ 63 + 1) (atoi_unsigned s))
    else if c == 43
    then in_range (2 ^ 63) (atoi_unsigned s)
    else in_range (2 ^ 63) (atoi_unsigned (c ∷ s))

abbrev pub is_set : Option Text → Bool
is_set none = false
is_set (some t) = true

module _ ⦃m : MetaEnv⦄ ⦃b : Blobs⦄ ⦃v : Vectors⦄ where
  abbrev pub has_enc : m.bolt.Db → Bool
  has_enc d = is_set (get_config (bytes "enc") d)

  -- `checkEncryptionSentinel`
  unfoldable pub check_encryption_sentinel : Exec Engine (Unit {0})
  unfolding on_db
  check_encryption_sentinel s =
      if has_enc s.db && not (enabled m.box)
      then (err invalid_input, s)
      else if not (has_enc s.db) && enabled m.box
      then (if is_empty_store s.db
          then on_db (put_config (bytes "enc") (bytes "aes256gcm")) s
          else (err invalid_input, s))
      else (ok tt, s)

module _ ⦃m : MetaEnv⦄ ⦃b : Blobs⦄ ⦃v : Vectors⦄ ⦃em : Embedder⦄ where
  -- a recorded dimension that is not a number is passed over
  abbrev known_dims : Option ℕ → Exec Engine (Unit {0})
  known_dims none = pure tt
  known_dims (some dims) =
      if ltb 0 em.dims && not (em.dims == dims) then throw invalid_input else open_emb dims

  -- the vector store, where its dimension is recorded or the embedder tells it
  abbrev open_vectors : Option Text → Exec Engine (Unit {0})
  open_vectors (some t) = known_dims (atoi_dims t)
  open_vectors none = if ltb 0 em.dims then open_emb em.dims else pure tt

  -- a store opens with the model it was built with
  abbrev check_model : Option Text → Exec Engine (Unit {0})
  check_model none = pure tt
  check_model (some stored) =
      if is_empty em.model || text_eq stored em.model then pure tt else throw invalid_input

  abbrev pub with_vectors : Exec Engine (Unit {0})
  with_vectors s = open_vectors (get_config (bytes "emb_dims") s.db) s

  abbrev pub with_model : Exec Engine (Unit {0})
  with_model s = check_model (get_config (bytes "emb_model") s.db) s

  abbrev pub bare : m.bolt.Db → b.Store → Engine
  bare d bs = record { db = d; blobs = bs; emb = none; model_ok = false }

  -- `Open`
  unfoldable pub open_engine : m.bolt.Db → b.Store → Result (Unit {0}) × Engine
  unfolding check_encryption_sentinel open_emb atoi_dims pure throw
  open_engine d bs =
      (check_encryption_sentinel >>= λ u. with_vectors >>= λ w. with_model) (bare d bs)
