-- ===== src/Storage/Embeddings.antt =====
-- internal/storage/embstore.go: the file of fixed-size records behind a header of 16 bytes. The file
-- is the list of its bytes; writes that the system cuts short are outcomes.
pub mod Buffers
pub mod Reads
pub mod Writes
pub mod Opening
use Prim.Native.Nat.{bit_or}
use ioc.Base.{
  ℕ, zero, suc, ◌+◌, ◌-◌, ◌*◌, ◌/◌, ◌%◌, ◌^◌, Bool, true, false, not, ◌&&◌, ◌||◌, List, [], ◌∷◌,
  ◌++◌, Text, Option, none, some, Result, ok, err, invalid_input, internal, not_found, length, take,
  drop, slice, splice, replicate, ltb, ◌==◌, if◌then◌else◌, Exec,
}
use ioc.Storage.Words.{put_u32, get_u32, u32_at, encode_vec, decode_vec}
use ioc.Storage.Box.{Aead, Nonces, Box, enabled, overhead_of, seal, unseal}

abbrev pub emb_header_size : ℕ
emb_header_size = 16

abbrev pub emb_flag_encrypted : ℕ
emb_flag_encrypted = 1

-- `EmbeddingStore`; `buf` is its `data`, the copy in memory
pub record EmbStore : Type 0 where
  pub file : Text
  pub dims : ℕ
  pub rec_size : ℕ
  pub count : ℕ
  pub buf : Text
  pub dirty : Bool
  pub box : Box

-- `refAAD`, `binary.LittleEndian.PutUint64` of the handle
unfoldable pub ref_aad : ℕ → Text
unfolding put_u32
ref_aad ref = put_u32 (ref % 2 ^ 32) ++ put_u32 (ref / 2 ^ 32)

abbrev flag_of : Box → ℕ
flag_of none = 0
flag_of (some a) = emb_flag_encrypted

-- the header of a new file: no records
unfoldable pub fresh_header : ℕ → Box → Text
unfolding put_u32
fresh_header dims box = 0 ∷ 0 ∷ 0 ∷ 0 ∷ 0 ∷ 0 ∷ 0 ∷ 0 ∷ (put_u32 dims ++ put_u32 (flag_of box))

-- `EncryptedFlag` against the key
abbrev pub flag_matches : ℕ → Box → Bool
flag_matches flag none = not (flag == emb_flag_encrypted)
flag_matches flag (some a) = flag == emb_flag_encrypted

-- `if max := (fileSize - embHeaderSize) / recSize; count > max { count = max }`
abbrev pub clamp : ℕ → ℕ → ℕ
clamp count most = if ltb most count then most else count

-- `OpenEmbeddingStore`
unfoldable pub open_file : ℕ → Box → Text → Result EmbStore
unfolding fresh_header get_u32
open_file dims box file =
    let rec_size = dims * 4 + overhead_of box in
    if (dims == 0) || ltb 4096 dims
    then err internal
    else if length file == 0
    then ok (record {
      file = fresh_header dims box;
      dims = dims;
      rec_size = rec_size;
      count = 0;
      buf = fresh_header dims box;
      dirty = false;
      box = box;
    })
    else if ltb (length file) emb_header_size
    then err internal
    else if not (u32_at 8 file == dims)
    then err internal
    else if not (flag_matches (u32_at 12 file) box)
    then err internal
    else ok (record {
      file = file;
      dims = dims;
      rec_size = rec_size;
      count = clamp (u32_at 0 file) ((length file - emb_header_size) / rec_size);
      buf = file;
      dirty = false;
      box = box;
    })

-- `v |= v >> k`
abbrev smear : ℕ → ℕ → ℕ
smear k v = bit_or v (v / 2 ^ k)

-- `alignPow2`
unfoldable pub align_pow2 : ℕ → ℕ
align_pow2 n =
    if ltb n 4096 then 4096 else smear 16 (smear 8 (smear 4 (smear 2 (smear 1 (n - 1))))) + 1

-- `newBuf := make([]byte, alignPow2(newLen)); copy(newBuf, s.data)`, where the copy is too short
unfoldable pub grow : ℕ → Text → Text
unfolding align_pow2
grow new_len buf =
    if ltb (length buf) new_len then buf ++ replicate (align_pow2 new_len - length buf) 0 else buf

-- How far the writes of one `Put` came: both whole; the record's first bytes only; the record, and
-- nothing of the header.
pub data Outcome : Type 0 where
  written : Outcome
  torn_record : ℕ → Outcome
  lost_header : Outcome

-- the record's bytes: the components, sealed under the handle where a box is set
unfoldable pub record_bytes : Box → Nonces → ℕ → List ℕ → Result Text
unfolding encode_vec seal ref_aad
record_bytes none n ref vec = ok (encode_vec vec)
record_bytes (some a) n ref vec = seal a n (encode_vec vec) (ref_aad ref)

abbrev offset_of : EmbStore → ℕ → ℕ
offset_of s i = emb_header_size + i * s.rec_size

-- the new copy in memory, with the record but not its count
abbrev with_record : EmbStore → Text → Text
with_record s bs = splice (offset_of s s.count) bs (grow (offset_of s (suc s.count)) s.buf)

-- `binary.LittleEndian.PutUint32(s.data[0:8], uint32(n))`
abbrev set_count : ℕ → Text → Text
set_count n buf = splice 0 (put_u32 n) buf

-- the rest of `Put` once the record's bytes are there: memory, the record, the header
unfoldable pub persist : Outcome → Text → EmbStore → Result ℕ × EmbStore
unfolding grow splice put_u32
persist written bs s =
    let buf = set_count (suc s.count) (with_record s bs) in
    (
      ok (suc s.count),
      record s {
        file = splice 0 (take emb_header_size buf) (splice (offset_of s s.count) bs s.file);
        count = suc s.count;
        buf = buf;
        dirty = true;
      },
    )
persist (torn_record k) bs s = (
  err internal,
  record s {
    file = splice (offset_of s s.count) (take k bs) s.file;
    buf = set_count s.count (set_count (suc s.count) (with_record s bs));
  },
)
persist lost_header bs s = (
  err internal,
  record s {
    file = splice (offset_of s s.count) bs s.file;
    buf = set_count s.count (set_count (suc s.count) (with_record s bs));
  },
)

-- `Put`
unfoldable pub put : Nonces → Outcome → List ℕ → EmbStore → Result ℕ × EmbStore
unfolding record_bytes persist grow
put n o vec s =
    if not (length vec == s.dims)
    then (err internal, s)
    else elim (record_bytes s.box n (suc s.count) vec) [
      | ok bs ↦ persist o bs s
      | err e ↦ (err e, record s { buf = grow (offset_of s (suc s.count)) s.buf })
    ]

-- the plaintext of a record
unfoldable pub open_record : Box → ℕ → Text → Result Text
unfolding unseal ref_aad
open_record none ref rec = ok rec
open_record (some a) ref rec = unseal a rec (ref_aad ref)

abbrev decoded : ℕ → Result Text → Result (List ℕ)
decoded dims (ok rec) = ok (decode_vec dims rec)
decoded dims (err e) = err e

-- `Get`
unfoldable pub get : ℕ → EmbStore → Result (List ℕ)
unfolding open_record decode_vec
get zero s = err internal
get (suc i) s =
    if ltb i s.count
    then decoded s.dims (open_record s.box (suc i) (slice (offset_of s i) s.rec_size s.buf))
    else err internal

-- `Sync`, where the system's fsync succeeds or fails
unfoldable pub sync : Bool → EmbStore → Result (Unit {0}) × EmbStore
sync fsync s =
    if not s.dirty
    then (ok tt, s)
    else if fsync
    then (ok tt, record s { dirty = false })
    else (err internal, s)

-- `Close`, where the fsync and the file's own close succeed or fail
unfoldable pub close_store : Bool → Bool → EmbStore → Result (Unit {0}) × EmbStore
close_store fsync closes s =
    let closed : Result (Unit {0}) = if closes then ok tt else err internal in
    if not s.dirty
    then (closed, s)
    else if fsync
    then (closed, record s { dirty = false })
    else (err internal, s)
