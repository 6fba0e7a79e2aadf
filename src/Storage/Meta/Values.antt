-- ===== src/Storage/Meta/Values.antt =====
-- internal/storage/meta.go: one stored value, written and read.
use ioc.Base.{
  length, ◌<◌, ◌≤◌, arith, [], ◌∷◌, transact_keeps, true, false, Text, ◌≡◌, refl, none, some,
  Result, ok, err, and_then, text_eq, text_eq→≡, Bool-cases, transact-cases, text_eq_refl,
  ok-injective, ap, sym, bytes, inl, inr, if◌then◌else◌,
}
use ioc.Storage.Box.{Box, Nonces}
use ioc.Storage.Box.RoundTrip.{unseal-seal, length-seal}
use ioc.Storage.Bolt.{Bucket, bucket_eq, config}
use ioc.Storage.Meta.{
  MetaEnv, Codec, encode_with, decode_with, encode_value, decode_value, put_json, read_value,
  get_json, put_config, get_config, config_blob,
}

pub bucket_eq_refl : (b : Bucket) → bucket_eq b b ≡ true
bucket_eq_refl Bucket.config = refl
bucket_eq_refl _ = refl

-- a chain of results that succeeds
pub and_then-eq-ok {ℓ κ} :
    {A : Type ℓ} {B : Type κ} (r : Result A) (f : A → Result B) {b : B}
    → and_then r f ≡ ok b
    → (a : A) × (r ≡ ok a) × (f a ≡ ok b)
and_then-eq-ok (ok a) f h = (a, refl, h)
and_then-eq-ok (err e) f h = cc

decode_with-encode_with :
    (box : Box) (n : Nonces) (key plain blob : Text)
    → encode_with box n key plain ≡ ok blob
    → decode_with box key blob ≡ ok plain
unfolding encode_with decode_with
decode_with-encode_with none n key plain blob h = cc
decode_with-encode_with (some a) n key plain blob h = unseal-seal a n plain key blob h

encode_with-full :
    (box : Box) (n : Nonces) (key plain blob : Text)
    → encode_with box n key plain ≡ ok blob
    → length plain ≤ length blob
unfolding encode_with
encode_with-full none n key plain blob h = rw (ok-injective h) (omega arith)
encode_with-full (some a) n key plain blob h =
    let long = length-seal a n plain key blob h in omega (arith, long)

module _ ⦃m : MetaEnv⦄ where
  decode-encode :
      (key plain blob : Text) → encode_value key plain ≡ ok blob → decode_value key blob ≡ ok plain
  unfolding encode_value decode_value
  decode-encode = decode_with-encode_with m.box m.nonces

module _ ⦃m : MetaEnv⦄ {A : Type 0} where
  -- a successful write: the blob that went into the database decodes to the value
  pub put_json-inv :
      (b : Bucket) (c : Codec A) (key : Text) (v : A) (d d' : m.bolt.Db)
      → put_json b c key v d ≡ ok d'
      → (blob : Text) × (m.bolt.put d b key blob ≡ ok d')
        × (read_value c key blob ≡ ok (c.decoded v))
  unfolding put_json read_value
  put_json-inv b c key v d d' h =
      let (plain, p, h1) = and_then-eq-ok (c.marshal v) _ h in
      let (blob, q, h2) = and_then-eq-ok (encode_value key plain) _ h1 in
      (blob, h2, rw (decode-encode key plain blob q) (c.unmarshal-marshal v p))

  -- After a write that succeeds, its key reads the value as JSON gives it back, with U+FFFD for what
  -- is not UTF-8 in its strings, and every other key of the bucket reads what it read before.
  pub get_json-put_json :
      (b : Bucket) (c : Codec A) (key : Text) (v : A) (d d' : m.bolt.Db)
      → put_json b c key v d ≡ ok d'
      → (j : Text)
      → get_json b c j d' ≡ (if text_eq key j then ok (c.decoded v) else get_json b c j d)
  unfolding get_json
  get_json-put_json b c key v d d' h j =
      let (blob, p, r) = put_json-inv b c key v d d' h in
      rw (m.bolt.get-put d b key blob d' p b j, bucket_eq_refl b)
        (elim (Bool-cases (text_eq key j)) [
          | inl same ↦ rw (same, ← text_eq→≡ key j same) r
          | inr other ↦ rw other
        ])

module _ ⦃m : MetaEnv⦄ {A B : Type 0} where
  pub get_json-put_json_ne :
      (b : Bucket) (c : Codec A) (key : Text) (v : A) (d d' : m.bolt.Db)
      → put_json b c key v d ≡ ok d'
      → (b' : Bucket) (c' : Codec B) (j : Text) → bucket_eq b b' ≡ false
      → get_json b' c' j d' ≡ get_json b' c' j d
  unfolding get_json
  get_json-put_json_ne b c key v d d' h b' c' j other =
      let (blob, p, r) = put_json-inv b c key v d d' h in
      rw (m.bolt.get-put d b key blob d' p b' j, other)

module _ ⦃m : MetaEnv⦄ where
  get_config_found :
      (key val blob : Text) (d : m.bolt.Db)
      → 0 < length blob
      → config_blob key val ≡ ok blob
      → m.bolt.get d config key ≡ some blob
      → get_config key d ≡ some val
  unfolding get_config
  get_config_found key val [] d full e found = absurd (omega (arith, full))
  get_config_found key val (c ∷ raw) d full e found =
      elim (Bool-cases (text_eq key (bytes "enc"))) [
        | inl t ↦ rw (get_config, found, t) (ap some (sym (ok-injective (rw t at e))))
        | inr t ↦ rw (get_config, found, t, decode-encode key val (c ∷ raw) (rw t at e)) refl
      ]

  config_blob-full :
      (key val blob : Text) → config_blob key val ≡ ok blob → length val ≤ length blob
  unfolding encode_value
  config_blob-full key val blob e = elim (Bool-cases (text_eq key (bytes "enc"))) [
    | inl t ↦ rw (ok-injective (rw t at e)) (omega arith)
    | inr t ↦ encode_with-full m.box m.nonces key val blob (rw t at e)
  ]

  -- A setting that is written, and is not empty, reads back.
  pub get_config-put_config :
      (key val : Text) (d : m.bolt.Db)
      → 0 < length val
      → (put_config key val d).0 ≡ ok tt
      → get_config key (put_config key val d).1 ≡ some val
  unfolding put_config
  get_config-put_config key val d full h =
      elim (transact-cases (λ x. and_then (config_blob key val) (m.bolt.put x config key)) d) [
        | inl (d', p, q) ↦
            let (blob, e, g) = and_then-eq-ok (config_blob key val) (m.bolt.put d config key) p in
            let found = m.bolt.get-put d config key blob d' g config key in
            let long = config_blob-full key val blob e in
            rw q (
              get_config_found key val blob d' (omega (arith, full, long)) e
                (rw (text_eq_refl key) at found))
        | inr (e, p, q) ↦ cc
      ]

  -- and every other setting reads as it did, also when the write fails
  pub get_config-put_config_ne :
      (key val : Text) (d : m.bolt.Db) (j : Text)
      → text_eq key j ≡ false
      → get_config j (put_config key val d).1 ≡ get_config j d
  unfolding put_config get_config
  get_config-put_config_ne key val d j other =
      transact_keeps (λ x. get_config j x ≡ get_config j d) _ d refl
        λ d' h.
          let (blob, e, g) = and_then-eq-ok (config_blob key val) (m.bolt.put d config key) h in
          let same = m.bolt.get-put d config key blob d' g config j in
          rw (get_config, rw other at same) refl
