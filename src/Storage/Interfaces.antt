-- ===== src/Storage/Interfaces.antt =====
-- What the engine asks of the content store (internal/storage/cas.go), of the vector store
-- (internal/storage/embstore.go) and of the embedder (internal/embed), as records of operations.
-- A vector is a list of float32 bit patterns.
use ioc.Base.{ℕ, List, Text, ◌≡◌, Result, ok, Exec}

pub record Blobs : Type 1 where
  pub Store : Type 0
  -- `CAS.StoreBytes`, returning the content's hash
  pub store_bytes : Text → Exec Store Text
  -- `CAS.Load`
  pub load : Text → Store → Result Text
  pub load-store_bytes :
      (t h : Text) (s : Store) → (store_bytes t s).0 ≡ ok h → load h (store_bytes t s).1 ≡ ok t

pub record Vectors : Type 1 where
  pub Store : Type 0
  -- `OpenEmbeddingStore` on the engine's file
  pub open_store : ℕ → Result Store
  -- `Dims`
  pub dims : Store → ℕ
  -- `Put`, returning the new record's 1-based handle
  pub put : List ℕ → Exec Store ℕ
  -- `Get`
  pub get : ℕ → Store → Result (List ℕ)
  -- `Sync`
  pub sync : Exec Store (Unit {0})
  pub get-put :
      (vec : List ℕ) (ref : ℕ) (s : Store) → (put vec s).0 ≡ ok ref → get ref (put vec s).1 ≡ ok vec

-- `embed.Embedder`; `model` is what it reports after a call, empty while it is unknown
pub record Embedder : Type 0 where
  pub model : Text
  pub dims : ℕ
  pub embed : List Text → Result (List (List ℕ))
  pub embed_query : List Text → Result (List (List ℕ))
