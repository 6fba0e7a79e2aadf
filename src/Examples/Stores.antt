-- ===== src/Examples/Stores.antt =====
-- The embedding file and the content store at work: an encrypted file with one record.
use ioc.Base.{true, false, [], ◌∷◌, Text, some, ◌≡◌, refl, ok, err, internal, and_then, In, arith}
use ioc.Core.Types.{lookup}
use ioc.Storage.Box.{seal}
use ioc.Storage.Words.{put_u32, get_u32}
use ioc.Storage.Embeddings.{
  EmbStore, written, torn_record, open_file, fresh_header, put, get, persist, record_bytes,
}
use ioc.Storage.Embeddings.Writes.{IsSynced, put-IsSynced}
use ioc.Storage.Embeddings.Opening.{open_file-IsSynced}
use ioc.Storage.Embeddings.Reads.{get-put, get-open_file-put, get-put_error}
use ioc.Storage.Cas.{Codecs, Cas, store_bytes, load, object_bytes, has}
use ioc.Storage.Cas.Objects.{load-store_bytes}
use ioc.Examples.Libraries.{shift_cipher, one_nonce}

abbrev header : Text
header = 0 ∷ 0 ∷ 0 ∷ 0 ∷ 0 ∷ 0 ∷ 0 ∷ 0 ∷ 1 ∷ 0 ∷ 0 ∷ 0 ∷ 1 ∷ 0 ∷ 0 ∷ 0 ∷ []

abbrev new_file : EmbStore
new_file = record {
  file = header;
  dims = 1;
  rec_size = 32;
  count = 0;
  buf = header;
  dirty = false;
  box = some shift_cipher;
}

new_opens : open_file 1 (some shift_cipher) [] ≡ ok new_file
unfolding open_file fresh_header put_u32
new_opens = refl

new_file-IsSynced : IsSynced new_file
new_file-IsSynced = open_file-IsSynced 1 (some shift_cipher) [] new_file new_opens

old_opens : open_file 1 (some shift_cipher) header ≡ ok new_file
unfolding open_file get_u32
old_opens = refl

open_file-IsSynced_example : IsSynced new_file
open_file-IsSynced_example = open_file-IsSynced 1 (some shift_cipher) header new_file old_opens

abbrev one_record : EmbStore
one_record = (put one_nonce written (5 ∷ []) new_file).1

put-IsSynced_example : IsSynced one_record
put-IsSynced_example =
    put-IsSynced one_nonce written (5 ∷ []) new_file new_file-IsSynced (omega arith)

first_ref : (put one_nonce written (5 ∷ []) new_file).0 ≡ ok 1
unfolding put record_bytes seal persist
first_ref = refl

get-put_example : get 1 one_record ≡ ok (5 ∷ [])
get-put_example =
    get-put one_nonce written (5 ∷ []) 1 new_file new_file-IsSynced (omega arith, tt) first_ref

one_record-count : one_record.count ≡ 1
unfolding put record_bytes seal persist
one_record-count = refl

get-open_file-put_example :
    and_then
      (open_file one_record.dims one_record.box
        (put one_nonce (torn_record 3) (7 ∷ []) one_record).1.file)
      (get 1)
    ≡ get 1 one_record
get-open_file-put_example =
    get-open_file-put one_nonce (torn_record 3) (7 ∷ []) 1 one_record put-IsSynced_example
      (omega (arith, one_record-count)) (omega (arith, one_record-count))

torn : (put one_nonce (torn_record 3) (7 ∷ []) new_file).0 ≡ err internal
unfolding put record_bytes seal persist
torn = refl

get-put_error_example : get 1 (put one_nonce (torn_record 3) (7 ∷ []) new_file).1 ≡ get 1 new_file
get-put_error_example =
    get-put_error one_nonce (torn_record 3) (7 ∷ []) new_file internal 1 new_file-IsSynced torn

-- a text is its own hash and its own compression
instance abbrev plain_codecs : Codecs
plain_codecs = record {
  hash = λ t. t;
  encode_all = λ t. t;
  decode_all = λ t. ok t;
  decode-encode = λ t l. refl;
}

abbrev no_objects : Cas
no_objects = record { box = some shift_cipher; objects = [] }

stored_object : (store_bytes one_nonce true (65 ∷ []) no_objects).0 ≡ ok (65 ∷ [])
unfolding store_bytes has lookup object_bytes seal
stored_object = refl

nothing_stored :
    (h o : Text)
    → lookup h no_objects.objects ≡ some o
    → (t : Text) × In t [] × (h ≡ t) × (ioc.Storage.Cas.read_object (some shift_cipher) h o ≡ ok t)
unfolding lookup
nothing_stored h o e = cc

load-store_bytes_example :
    load (65 ∷ []) (store_bytes one_nonce true (65 ∷ []) no_objects).1 ≡ ok (65 ∷ [])
load-store_bytes_example =
    load-store_bytes [] one_nonce true (65 ∷ []) (65 ∷ []) no_objects nothing_stored (omega arith)
      (λ x i e. e) stored_object
