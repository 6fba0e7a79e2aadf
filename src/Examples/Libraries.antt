-- ===== src/Examples/Libraries.antt =====
-- The libraries at concrete functions: a database of association lists, numbers for the
-- identifiers' texts and for float64, an embedder of one dimension, and stores that keep lists.
use ioc.Base.{
  ℕ, zero, suc, ◌+◌, ◌-◌, ◌*◌, ◌/◌, ◌^◌, ◌&&◌, List, [], ◌∷◌, ◌++◌, Text, Option, none, some, ◌≡◌,
  refl, ap, inl, inr, Result, ok, err, not_found, length, ◌≢◌, text_eq, ◌==◌, Bool-cases, ltb,
  if◌then◌else◌, arith, map, filter, subst, ok-injective, text_eq_refl,
}
use ioc.Core.Utf8.{is_utf8_artifact}
use ioc.Core.Types.{lookup}
use ioc.Core.Ulid.{Ulids}
use ioc.Core.Floats.{Floats}
use ioc.Core.Maps.{strip, lookup-strip, All-strip, strip-absent}
use ioc.Storage.Box.{Aead, Nonces}
use ioc.Storage.Bolt.{Bolt, Bucket, bucket_eq, DistinctKeys}
use ioc.Storage.Meta.{MetaEnv}
use ioc.Storage.Interfaces.{Blobs, Vectors, Embedder}
use ioc.Examples.Formats.{codec_of, tested_codec, tested-passes, value}
use ioc.Examples.Records.{scope, artifact, edge, trace}

-- one bucket
abbrev Table : Type 0
Table = (es : List (Text × Text)) × DistinctKeys es

pub strip-Distinct :
    (k : Text) (es : List (Text × Text)) → DistinctKeys es → DistinctKeys (strip k es)
unfolding strip filter
strip-Distinct k [] h = tt
strip-Distinct k ((j, v) ∷ es) h = elim (Bool-cases (text_eq j k)) [
  | inl drop ↦ rw drop (strip-Distinct k es h.1)
  | inr keep ↦ rw keep (All-strip (λ e. e.0 ≢ j) k es h.0, strip-Distinct k es h.1)
]

abbrev set : Text → Text → Table → Table
set k v t = ((k, v) ∷ strip k t.0, (strip-absent k t.0, strip-Distinct k t.0 t.1))

abbrev unset : Text → Table → Table
unset k t = (strip k t.0, strip-Distinct k t.0 t.1)

abbrev Tables : Type 0
Tables = Bucket → Table

abbrev change : Bucket → (Table → Table) → Tables → Tables
change b f d c = if bucket_eq b c then f (d c) else d c

pub get-set :
    (b c : Bucket) (k v j : Text) (d : Tables)
    → lookup j (change b (set k v) d c).0
      ≡ (if bucket_eq b c && text_eq k j then some v else lookup j (d c).0)
unfolding lookup
get-set b c k v j d = elim (Bool-cases (bucket_eq b c)) [
  | inl same ↦ rw same (ground (arith, lookup-strip k j (d c).0))
  | inr other ↦ rw other
]

pub get-unset :
    (b c : Bucket) (k j : Text) (d : Tables)
    → lookup j (change b (unset k) d c).0
      ≡ (if bucket_eq b c && text_eq k j then none else lookup j (d c).0)
get-unset b c k j d = elim (Bool-cases (bucket_eq b c)) [
  | inl same ↦ rw same (lookup-strip k j (d c).0)
  | inr other ↦ rw other
]

abbrev tables : Bolt
tables = record {
  Db = Tables;
  get = λ d b k. lookup k (d b).0;
  put = λ d b k v. ok (change b (set k v) d);
  delete = λ d b k. ok (change b (unset k) d);
  for_each = λ d b. (d b).0;
  get-put = λ d b k v d' h c j.
      subst
        (λ x.
          lookup j (x c).0 ≡ (if bucket_eq b c && text_eq k j then some v else lookup j (d c).0))
        (ok-injective h) (get-set b c k v j d);
  get-delete = λ d b k d' h c j.
      subst
        (λ x. lookup j (x c).0 ≡ (if bucket_eq b c && text_eq k j then none else lookup j (d c).0))
        (ok-injective h) (get-unset b c k j d);
  lookup-for_each = λ d b k. refl;
  distinct_keys = λ d b. (d b).1;
}

abbrev pub no_tables : Tables
no_tables b = ([], tt)

abbrev zeros : Text
zeros =
    0 ∷ 0 ∷ 0 ∷ 0 ∷ 0 ∷ 0 ∷ 0 ∷ 0 ∷ 0 ∷ 0 ∷ 0 ∷ 0 ∷ 0 ∷ 0 ∷ 0 ∷ 0 ∷ 0 ∷ 0 ∷ 0 ∷ 0 ∷ 0 ∷ 0 ∷ 0 ∷ 0
    ∷ 0 ∷ []

abbrev front : Text → Option ℕ
front [] = none
front (n ∷ t) = some n

abbrev numbers : Ulids
numbers = record {
  text = λ id. id ∷ zeros;
  parse = front;
  parse-text = λ id. refl;
  length-text = λ id. refl;
}

-- millionths
abbrev pub fixed : Floats
fixed = record {
  Float = ℕ;
  decimal = λ n k. n * 10 ^ (6 - k);
  lt = ltb;
  add = λ a b. a + b;
  sub = λ a b. a - b;
  mul = λ a b. a * b / 10 ^ 6;
  div = λ a b. a * 10 ^ 6 / b;
  eq = λ a b. a == b;
  of_int = λ n. n * 10 ^ 6;
  of_float32 = λ n. n * 10 ^ 6;
  neg = λ a. a;
  exp = λ a. a;
  log = λ a. a;
  pow = λ a b. a;
}

abbrev one_less : ℕ → ℕ
one_less zero = zero
one_less (suc c) = c

abbrev shift : List ℕ → List ℕ
shift = map suc

abbrev unshift : List ℕ → List ℕ
unshift = map one_less

pub unshift-shift : (t : Text) → unshift (shift t) ≡ t
unshift-shift [] = refl
unshift-shift (c ∷ t) = ap (◌∷◌ c) (unshift-shift t)

-- a cipher that adds one to each byte, and ends with 16 bytes of tag
abbrev tag : Text
tag = 0 ∷ 0 ∷ 0 ∷ 0 ∷ 0 ∷ 0 ∷ 0 ∷ 0 ∷ 0 ∷ 0 ∷ 0 ∷ 0 ∷ 0 ∷ 0 ∷ 0 ∷ 0 ∷ []

abbrev behind_tag : Text → Option Text
behind_tag (_ ∷ _ ∷ _ ∷ _ ∷ _ ∷ _ ∷ _ ∷ _ ∷ _ ∷ _ ∷ _ ∷ _ ∷ _ ∷ _ ∷ _ ∷ _ ∷ t) = some (unshift t)
behind_tag _ = none

length-map_suc : (t : Text) → length (shift t) ≡ length t
length-map_suc [] = refl
length-map_suc (c ∷ t) = ap suc (length-map_suc t)

pub length-shift : (t : Text) → length (tag ++ shift t) ≡ length t + 16
length-shift t = omega (arith, length-map_suc t)

abbrev pub shift_cipher : Aead
shift_cipher = record {
  overhead = 16;
  seal = λ nonce plain aad. tag ++ shift plain;
  unseal = λ nonce blob aad. behind_tag blob;
  unseal-seal = λ nonce plain aad. ap some (unshift-shift plain);
  length-seal = λ nonce plain aad. length-shift plain;
}

abbrev twelve : Text
twelve = 1 ∷ 2 ∷ 3 ∷ 4 ∷ 5 ∷ 6 ∷ 7 ∷ 8 ∷ 9 ∷ 10 ∷ 11 ∷ 12 ∷ []

abbrev pub one_nonce : Nonces
one_nonce = record {
  draw = λ plain aad. ok twelve;
  length-draw = λ plain aad e. rw (← ok-injective e);
}

instance abbrev pub sample_meta : MetaEnv
sample_meta = record {
  bolt = tables;
  ulids = numbers;
  floats = fixed;
  box = none;
  nonces = one_nonce;
  scope_json = codec_of scope;
  artifact_json = tested_codec is_utf8_artifact artifact;
  edge_json = codec_of edge;
  trace_json = codec_of trace;
  decoded_scope = λ s. (refl, refl);
  decoded_artifact = λ a. (refl, refl);
  decoded_utf8_artifact = λ a h. refl;
  decoded_utf8_edge = λ e h. refl;
  decoded_utf8_trace = λ t h. refl;
  unmarshal_artifact = λ t a h. tested-passes is_utf8_artifact (value (artifact.read t)) a h;
}

abbrev find : Text → List Text → Result Text
find h [] = err not_found
find h (t ∷ ts) = if text_eq h t then ok t else find h ts

-- a text is its own hash
instance abbrev pub sample_blobs : Blobs
sample_blobs = record {
  Store = List Text;
  store_bytes = λ t s. (ok t, t ∷ s);
  load = find;
  load-store_bytes = λ t h s e. rw (← ok-injective e, text_eq_refl t);
}

abbrev nth : ℕ → List (List ℕ) → Result (List ℕ)
nth n [] = err not_found
nth zero (x ∷ xs) = ok x
nth (suc n) (x ∷ xs) = nth n xs

-- the newest vector first, under the handle that is the number of vectors
abbrev vector_at : ℕ → List (List ℕ) → Result (List ℕ)
vector_at ref s = nth (length s - ref) s

pub sub_self : (n : ℕ) → n - n ≡ 0
sub_self n = omega arith

instance abbrev pub sample_vectors : Vectors
sample_vectors = record {
  Store = List (List ℕ);
  open_store = λ n. ok [];
  dims = λ s. 1;
  put = λ vec s. (ok (suc (length s)), vec ∷ s);
  get = vector_at;
  sync = λ s. (ok tt, s);
  get-put = λ vec ref s e. rw (← ok-injective e, sub_self (suc (length s)));
}

instance abbrev pub sample_embedder : Embedder
sample_embedder = record {
  model = 109 ∷ [];
  dims = 1;
  embed = λ texts. ok (map (λ t. length t ∷ []) texts);
  embed_query = λ texts. ok (map (λ t. length t ∷ []) texts);
}
