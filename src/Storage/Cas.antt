-- ===== src/Storage/Cas.antt =====
-- internal/storage/cas.go: the content-addressed objects. The files under obj/ are the entries, each
-- under its hash, which names the path; sha256 and zstd are parameters.
pub mod Objects
use ioc.Base.{
  ℕ, ◌≤◌, ◌^◌, Bool, true, false, not, List, [], ◌∷◌, Text, Option, none, some, ◌≡◌, Result, ok,
  err, not_found, internal, and_then, length, if◌then◌else◌,
}
use ioc.Core.Types.{lookup}
use ioc.Storage.Box.{Aead, Nonces, Box, seal, unseal}

abbrev pub max_cas_decoded_bytes : ℕ
max_cas_decoded_bytes = 2 ^ 27

-- `core.NewContentHash`, and the zstd encoder and decoder: what is encoded decodes, up to the memory
-- limit that the decoder is given
pub record Codecs : Type 0 where
  pub hash : Text → Text
  pub encode_all : Text → Text
  pub decode_all : Text → Result Text
  pub decode-encode :
      (t : Text) → length t ≤ max_cas_decoded_bytes → decode_all (encode_all t) ≡ ok t

-- `CAS`
pub record Cas : Type 0 where
  pub box : Box
  pub objects : List (Text × Text)

abbrev pub present : Option Text → Bool
present none = false
present (some o) = true

-- `has`
unfoldable pub has : Text → Cas → Bool
unfolding lookup
has h c = present (lookup h c.objects)

module _ ⦃k : Codecs⦄ where
  -- the bytes of an object: compressed, then sealed under the hash
  unfoldable pub object_bytes : Box → Nonces → Text → Text → Result Text
  unfolding seal
  object_bytes none n h t = ok (k.encode_all t)
  object_bytes (some a) n h t = seal a n (k.encode_all t) h

  -- a temporary file is written and renamed; `renamed` is false where a step of that fails
  abbrev put_object : Bool → Text → Result Text → Cas → Result Text × Cas
  put_object renamed h (err e) c = (err e, c)
  put_object false h (ok bs) c = (err internal, c)
  put_object true h (ok bs) c = (ok h, record c { objects = (h, bs) ∷ c.objects })

  -- `StoreBytes`
  unfoldable pub store_bytes : Nonces → Bool → Text → Cas → Result Text × Cas
  unfolding has object_bytes
  store_bytes n renamed t c =
      let h = k.hash t in
      if has h c then (ok h, c) else put_object renamed h (object_bytes c.box n h t) c

  -- `Store`: the reader's bytes, or its error
  unfoldable pub store_reader : Nonces → Bool → Result Text → Cas → Result Text × Cas
  unfolding store_bytes
  store_reader n renamed (ok t) c = store_bytes n renamed t c
  store_reader n renamed (err e) c = (err e, c)

  -- the content of an object
  unfoldable pub read_object : Box → Text → Text → Result Text
  unfolding unseal
  read_object none h o = k.decode_all o
  read_object (some a) h o = and_then (unseal a o h) k.decode_all

  abbrev object_found : Box → Text → Option Text → Result Text
  object_found box h none = err not_found
  object_found box h (some o) = read_object box h o

  -- `Load`
  unfoldable pub load : Text → Cas → Result Text
  unfolding read_object lookup
  load h c = object_found c.box h (lookup h c.objects)
