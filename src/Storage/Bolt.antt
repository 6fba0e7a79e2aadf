-- ===== src/Storage/Bolt.antt =====
-- go.etcd.io/bbolt, a parameter: buckets of byte keys and values, read and written in transactions.
use ioc.Core.Types.{lookup}
use ioc.Base.{
  Bool, true, false, ◌&&◌, List, [], ◌∷◌, Text, Option, none, some, ◌≡◌, ◌≢◌, Result, ok, text_eq,
  All, if◌then◌else◌,
}

-- The five buckets of the metadata store.
pub data Bucket : Type 0 where
  config scopes artifacts traces edges : Bucket

abbrev pub bucket_eq : Bucket → Bucket → Bool
bucket_eq config config = true
bucket_eq scopes scopes = true
bucket_eq artifacts artifacts = true
bucket_eq traces traces = true
bucket_eq edges edges = true
bucket_eq _ _ = false

-- No two entries have one key.
abbrev pub DistinctKeys : List (Text × Text) → Type 0
DistinctKeys [] = Unit
DistinctKeys ((k, v) ∷ m) = All (λ e. e.0 ≢ k) m × DistinctKeys m

-- `put` and `delete` are one `Update` transaction: a failed one leaves the database as it was, as
-- the result has no database. `for_each` visits each key of the bucket once.
pub record Bolt : Type 1 where
  pub Db : Type 0
  pub get : Db → Bucket → Text → Option Text
  pub put : Db → Bucket → Text → Text → Result Db
  pub delete : Db → Bucket → Text → Result Db
  pub for_each : Db → Bucket → List (Text × Text)
  pub get-put :
      (d : Db) (b : Bucket) (k v : Text) (d' : Db)
      → put d b k v ≡ ok d'
      → (c : Bucket) (j : Text)
      → get d' c j ≡ (if bucket_eq b c && text_eq k j then some v else get d c j)
  pub get-delete :
      (d : Db) (b : Bucket) (k : Text) (d' : Db)
      → delete d b k ≡ ok d'
      → (c : Bucket) (j : Text)
      → get d' c j ≡ (if bucket_eq b c && text_eq k j then none else get d c j)
  pub lookup-for_each : (d : Db) (b : Bucket) (k : Text) → lookup k (for_each d b) ≡ get d b k
  pub distinct_keys : (d : Db) (b : Bucket) → DistinctKeys (for_each d b)
