-- ===== src/Storage/Embeddings/Reads.antt =====
-- internal/storage/embstore.go: `Get` behind a `Put`, and behind a restart.
use native.Mathlib.Nat.{le-div_iff_mul-le}
use ioc.Base.{
  Error, ℕ, zero, suc, ◌+◌, ◌-◌, ◌*◌, ◌/◌, ◌^◌, ◌<◌, ◌≤◌, true, false, List, Text, ◌≡◌, refl, ap,
  sym, ◌∙◌, inl, inr, length, slice, Bool-cases, arith, ok, err, some, none, ltb, Result-cases,
  ok-injective, not, ◌==◌, if◌then◌else◌, ==_iff, ◌||◌, internal, and_then, false, subst,
}
use ioc.Storage.Words.{encode_vec, decode_vec-encode_vec, AreWords, u32_at}
use ioc.Storage.Box.{Nonces, Box, overhead_of}
use ioc.Storage.Box.RoundTrip.{unseal-seal}
use ioc.Storage.Embeddings.{
  EmbStore, Outcome, written, torn_record, lost_header, offset_of, with_record, persist, put, get,
  record_bytes, ref_aad, open_record, decoded, open_file, clamp,
}
use ioc.Storage.Embeddings.Buffers.{Keeps, set_count-Keeps, Keeps-trans, grow-Keeps}
use ioc.Storage.Embeddings.Writes.{
  IsSynced, le-offset_of, recounted, slice-with_record, length-record_bytes, counted_once,
  uncounted, put-IsSynced,
}

-- what `Get` makes of a record's bytes
open-record_bytes :
    (box : Box) (n : Nonces) (ref : ℕ) (vec : List ℕ) (bs : Text)
    → AreWords vec
    → record_bytes box n ref vec ≡ ok bs
    → decoded (length vec) (open_record box ref bs) ≡ ok vec
unfolding record_bytes open_record
open-record_bytes none n ref vec bs w h =
    rw (← ok-injective h) (ap ok (decode_vec-encode_vec vec w))
open-record_bytes (some a) n ref vec bs w h =
    rw (unseal-seal a n (encode_vec vec) (ref_aad ref) bs h) (ap ok (decode_vec-encode_vec vec w))

module _ (s : EmbStore) (h : IsSynced s) (bs : Text) (e : length bs ≡ s.rec_size) where
  get-persist_new :
      (vec : List ℕ)
      → decoded s.dims (open_record s.box (suc s.count) bs) ≡ ok vec
      → get (suc s.count) (persist written bs s).1 ≡ ok vec
  unfolding get persist
  get-persist_new vec r =
      let below : ltb s.count (suc s.count) ≡ true = ground arith in
      let k =
        set_count-Keeps (suc s.count) (16 + suc s.count * s.rec_size) (with_record s bs)
          (offset_of s s.count) s.rec_size (omega arith)
          (le-offset_of s.rec_size s.count (suc s.count) (omega arith)) in
      rw (below, k, slice-with_record s h bs e) r

  -- the bytes of an earlier record, whichever count the header got
  earlier :
      (d : Text) (i : ℕ)
      → i < s.count
      → Keeps 4 (offset_of s s.count) (s.buf) d
      → slice (offset_of s i) s.rec_size d ≡ slice (offset_of s i) s.rec_size s.buf
  earlier d i lt k =
      k (offset_of s i) s.rec_size (omega arith) (le-offset_of s.rec_size i s.count lt)

  counted_once-Keeps : Keeps 4 (offset_of s s.count) s.buf (counted_once s h bs e)
  counted_once-Keeps = recounted s h bs e _ (set_count-Keeps (suc s.count) (offset_of s s.count) _)

  uncounted-Keeps : Keeps 4 (offset_of s s.count) s.buf (uncounted s h bs e)
  uncounted-Keeps =
      Keeps-trans 4 4 (offset_of s s.count) (offset_of s s.count) s.buf (counted_once s h bs e)
        (uncounted s h bs e) (omega arith) (omega arith) counted_once-Keeps
        (set_count-Keeps s.count (offset_of s s.count) (counted_once s h bs e))

  get-persist_old :
      (o : Outcome) (i : ℕ) → i < s.count → get (suc i) (persist o bs s).1 ≡ get (suc i) s
  unfolding get persist
  get-persist_old written i lt =
      let a : ltb i s.count ≡ true = ground (arith, lt) in
      let b : ltb i (suc s.count) ≡ true = ground (arith, lt) in
      rw (a, b, earlier _ i lt counted_once-Keeps)
  get-persist_old (torn_record k) i lt = rw (earlier _ i lt uncounted-Keeps)
  get-persist_old lost_header i lt = rw (earlier _ i lt uncounted-Keeps)

  -- a `Put` that returns a handle has written everything
  get-persist :
      (o : Outcome) (vec : List ℕ) (ref : ℕ)
      → decoded s.dims (open_record s.box (suc s.count) bs) ≡ ok vec
      → (persist o bs s).0 ≡ ok ref
      → get ref (persist o bs s).1 ≡ ok vec
  unfolding persist
  get-persist written vec ref r p = rw (← ok-injective p) (get-persist_new vec r)
  get-persist (torn_record k) vec ref r p = cc
  get-persist lost_header vec ref r p = cc

-- What `Put` stores under the handle it returns, `Get` reads back.
pub get-put :
    (n : Nonces) (o : Outcome) (vec : List ℕ) (ref : ℕ) (s : EmbStore)
    → IsSynced s
    → AreWords vec
    → (put n o vec s).0 ≡ ok ref
    → get ref (put n o vec s).1 ≡ ok vec
unfolding put
get-put n o vec ref s h w p = elim (Bool-cases (length vec == s.dims)) [
  | inr f ↦ cc (f, p)
  | inl t ↦ elim (Result-cases (record_bytes s.box n (suc s.count) vec)) [
    | inr (x, e) ↦ cc (rw (t, e) at p)
    | inl (bs, e) ↦
        let d = (==_iff (length vec) s.dims).0 t in
        let l = length-record_bytes s.box n (suc s.count) vec bs e in
        rw (t, e)
          (get-persist s h bs (omega (arith, l, d, h.sized)) o vec ref
            (rw (← d) (open-record_bytes s.box n (suc s.count) vec bs w e)) (rw (t, e) at p))
  ]
]

-- A vector that was stored before a `Put` reads the same behind it, however the `Put` ends.
pub get-put_before :
    (n : Nonces) (o : Outcome) (vec : List ℕ) (ref : ℕ) (s : EmbStore)
    → IsSynced s
    → ref ≤ s.count
    → get ref (put n o vec s).1 ≡ get ref s
unfolding put get
get-put_before n o vec zero s h r = refl
get-put_before n o vec (suc i) s h r = elim (Bool-cases (length vec == s.dims)) [
  | inr f ↦ rw f
  | inl t ↦ elim (Result-cases (record_bytes s.box n (suc s.count) vec)) [
    | inr (x, e) ↦
        rw (t, e)
          (ap
            (λ b.
              if ltb i s.count then decoded s.dims (open_record s.box (suc i) b) else err internal)
            (grow-Keeps (offset_of s (suc s.count)) (16 + s.count * s.rec_size) s.buf h.in_buf.whole
              (offset_of s i) s.rec_size (omega arith) (le-offset_of s.rec_size i s.count r)))
    | inl (bs, e) ↦
        let d = (==_iff (length vec) s.dims).0 t in
        let l = length-record_bytes s.box n (suc s.count) vec bs e in
        rw (t, e) (get-persist_old s h bs (omega (arith, l, d, h.sized)) o i (omega (arith, r)))
  ]
]

-- the store that a restart finds in the file
abbrev reopened : EmbStore → EmbStore
reopened s = record s {
  rec_size = s.dims * 4 + overhead_of s.box;
  count = clamp (u32_at 0 s.file) ((length s.file - 16) / (s.dims * 4 + overhead_of s.box));
  buf = s.file;
  dirty = false;
}

reopens : (s : EmbStore) → IsSynced s → open_file s.dims s.box s.file ≡ ok (reopened s)
unfolding open_file
reopens s h =
    let l = h.in_file.whole in
    let sane : ((s.dims == 0) || ltb 4096 s.dims) ≡ false = ground (arith, h.valid) in
    let full : (length s.file == 0) ≡ false = ground (arith, l) in
    let long : ltb (length s.file) 16 ≡ false = ground (arith, l) in
    let same : not (u32_at 8 s.file == s.dims) ≡ false = ground (arith, h.in_file.dims_in) in
    rw (sane, full, long, same, h.in_file.flag_in) refl

-- the clamp drops no committed record
le-clamp : (s : EmbStore) → IsSynced s → s.count ≤ (reopened s).count
le-clamp s h =
    let fits : s.count ≤ (length s.file - 16) / s.rec_size =
      (le-div_iff_mul-le {k = s.rec_size} (omega (arith, h.sized, h.valid))).1
        (omega (arith, h.in_file.whole)) in
    rw (← h.sized) (ground (arith, fits, h.counted))

-- A restart reads under every committed handle what the running store reads there.
pub get-open_file :
    (ref : ℕ) (s : EmbStore)
    → IsSynced s
    → ref ≤ s.count
    → and_then (open_file s.dims s.box s.file) (get ref) ≡ get ref s
unfolding get
get-open_file zero s h r = rw (reopens s h) refl
get-open_file (suc i) s h r =
    let a : ltb i s.count ≡ true = ground (arith, r) in
    let b : ltb i (reopened s).count ≡ true = ground (arith, r, le-clamp s h) in
    rw (reopens s h, a, b, ← h.sized, h.same i r) refl

-- the parts of the state that no `Put` changes
SameFrame : EmbStore → EmbStore → Type 0
SameFrame s s' = (s'.dims ≡ s.dims) × (s'.box ≡ s.box) × (s.count ≤ s'.count)

persist-SameFrame : (o : Outcome) (bs : Text) (s : EmbStore) → SameFrame s (persist o bs s).1
unfolding persist SameFrame
persist-SameFrame written bs s = (refl, refl, omega arith)
persist-SameFrame (torn_record k) bs s = (refl, refl, omega arith)
persist-SameFrame lost_header bs s = (refl, refl, omega arith)

put-SameFrame :
    (n : Nonces) (o : Outcome) (vec : List ℕ) (s : EmbStore) → SameFrame s (put n o vec s).1
unfolding put SameFrame
put-SameFrame n o vec s = elim (Bool-cases (length vec == s.dims)) [
  | inr f ↦ rw f (refl, refl, omega arith)
  | inl t ↦ elim (Result-cases (record_bytes s.box n (suc s.count) vec)) [
    | inr (x, e) ↦ rw (t, e) (refl, refl, omega arith)
    | inl (bs, e) ↦ rw (t, e) (persist-SameFrame o bs s)
  ]
]

-- A committed vector survives a `Put` that fails or is cut short in the record or before the header,
-- and a restart after it.
pub get-open_file-put :
    (n : Nonces) (o : Outcome) (vec : List ℕ) (ref : ℕ) (s : EmbStore)
    → IsSynced s
    → suc s.count < 2 ^ 32
    → ref ≤ s.count
    → and_then (open_file s.dims s.box (put n o vec s).1.file) (get ref) ≡ get ref s
unfolding SameFrame
get-open_file-put n o vec ref s h small r =
    let (d, b, c) = put-SameFrame n o vec s in
    let s' = (put n o vec s).1 in
    let again : and_then (open_file s'.dims s'.box s'.file) (get ref) ≡ get ref s' =
      get-open_file ref s' (put-IsSynced n o vec s h small) (omega (arith, r, c)) in
    subst (λ k. and_then (open_file k s.box s'.file) (get ref) ≡ get ref s) d
      (subst (λ k. and_then (open_file s'.dims k s'.file) (get ref) ≡ get ref s) b
        (again ∙ get-put_before n o vec ref s h r))

persist_error-count :
    (o : Outcome) (bs : Text) (s : EmbStore) (e : Error)
    → (persist o bs s).0 ≡ err e
    → (persist o bs s).1.count ≡ s.count
unfolding persist
persist_error-count written bs s e h = cc
persist_error-count (torn_record k) bs s e h = refl
persist_error-count lost_header bs s e h = refl

put_error-count :
    (n : Nonces) (o : Outcome) (vec : List ℕ) (s : EmbStore) (e : Error)
    → (put n o vec s).0 ≡ err e
    → (put n o vec s).1.count ≡ s.count
unfolding put
put_error-count n o vec s e h = elim (Bool-cases (length vec == s.dims)) [
  | inr f ↦ rw f refl
  | inl t ↦ elim (Result-cases (record_bytes s.box n (suc s.count) vec)) [
    | inr (x, y) ↦ rw (t, y) refl
    | inl (bs, y) ↦ rw (t, y) (persist_error-count o bs s e (rw (t, y) at h))
  ]
]

get_above : (ref : ℕ) (s : EmbStore) → s.count < ref → get ref s ≡ err internal
unfolding get
get_above zero s h = refl
get_above (suc i) s h = let out : ltb i s.count ≡ false = ground (arith, h) in rw out

-- A `Put` that returns an error is as if it had not been called: every handle, a free one too, reads
-- as it did.
pub get-put_error :
    (n : Nonces) (o : Outcome) (vec : List ℕ) (s : EmbStore) (e : Error) (ref : ℕ)
    → IsSynced s
    → (put n o vec s).0 ≡ err e
    → get ref (put n o vec s).1 ≡ get ref s
get-put_error n o vec s e ref h p = elim (Bool-cases (ltb s.count ref)) [
  | inr f ↦ get-put_before n o vec ref s h (ground (arith, f))
  | inl t ↦
      get_above ref (put n o vec s).1 (ground (arith, t, put_error-count n o vec s e p))
      ∙ sym (get_above ref s (ground (arith, t)))
]
