-- ===== src/Storage/Meta/Frames.antt =====
-- What a write to one bucket leaves alone.
use ioc.Base.{false, Text, ◌≡◌, refl, ◌∙◌, inl, ok, transact_keeps}
use ioc.Storage.Bolt.{Bucket, config, bucket_eq}
use ioc.Storage.Meta.{MetaEnv, Codec, put_json, get_json, put_config, config_blob}
use ioc.Storage.Meta.Values.{and_then-eq-ok, put_json-inv}
use ioc.Storage.Meta.Tables.{IsKeyed, IsKeyed-frame}

module _ ⦃m : MetaEnv⦄ where
  -- the two databases have one content in the bucket
  abbrev pub SameBucket : Bucket → m.bolt.Db → m.bolt.Db → Type 0
  SameBucket b d d' = (k : Text) → m.bolt.get d' b k ≡ m.bolt.get d b k

  pub put-SameBucket :
      (b b' : Bucket) (k v : Text) (d d' : m.bolt.Db)
      → m.bolt.put d b k v ≡ ok d'
      → bucket_eq b b' ≡ false
      → SameBucket b' d d'
  put-SameBucket b b' k v d d' p other j = rw (m.bolt.get-put d b k v d' p b' j, other)

  pub delete-SameBucket :
      (b b' : Bucket) (k : Text) (d d' : m.bolt.Db)
      → m.bolt.delete d b k ≡ ok d'
      → bucket_eq b b' ≡ false
      → SameBucket b' d d'
  delete-SameBucket b b' k d d' p other j = rw (m.bolt.get-delete d b k d' p b' j, other)

  -- only the config bucket may differ
  abbrev pub SameRecords : m.bolt.Db → m.bolt.Db → Type 0
  SameRecords d d' = (b : Bucket) → bucket_eq config b ≡ false → SameBucket b d d'

  pub SameRecords-refl : (d : m.bolt.Db) → SameRecords d d
  SameRecords-refl d b other k = refl

  pub SameRecords-trans : (a d c : m.bolt.Db) → SameRecords a d → SameRecords d c → SameRecords a c
  SameRecords-trans a d c f g b other k = g b other k ∙ f b other k

  pub put_config-SameRecords :
      (key val : Text) (d : m.bolt.Db) → SameRecords d (put_config key val d).1
  unfolding put_config
  put_config-SameRecords key val d =
      transact_keeps (SameRecords d) _ d (SameRecords-refl d) λ d' h b other.
        let (blob, p, q) = and_then-eq-ok (config_blob key val) (m.bolt.put d config key) h in
        put-SameBucket config b key blob d d' q other

module _ ⦃m : MetaEnv⦄ {A : Type 0} where
  pub put_json-SameBucket :
      (b b' : Bucket) (c : Codec A) (key : Text) (v : A) (d d' : m.bolt.Db)
      → put_json b c key v d ≡ ok d'
      → bucket_eq b b' ≡ false
      → SameBucket b' d d'
  put_json-SameBucket b b' c key v d d' h other =
      let (blob, p, r) = put_json-inv b c key v d d' h in put-SameBucket b b' key blob d d' p other

  pub get_json_same :
      (b : Bucket) (c : Codec A) (k : Text) (d d' : m.bolt.Db)
      → SameBucket b d d'
      → get_json b c k d' ≡ get_json b c k d
  unfolding get_json
  get_json_same b c k d d' same = rw (same k)

  pub IsKeyed-same :
      (b : Bucket) (c : Codec A) (key : A → Text) (d d' : m.bolt.Db)
      → SameBucket b d d'
      → IsKeyed b c key d
      → IsKeyed b c key d'
  IsKeyed-same b c key d d' same keyed = IsKeyed-frame b c key d d' (λ k. inl (same k)) keyed
