-- ===== src/Storage/Embeddings/Writes.antt =====
-- internal/storage/embstore.go: what holds between the file and the copy in memory, and `Put`.
use native.Mathlib.Nat.{mul-le-mul_right}
use ioc.Base.{
  ℕ, suc, ◌+◌, ◌*◌, ◌^◌, ◌<◌, ◌≤◌, true, List, Text, ◌≡◌, refl, ap, sym, ◌∙◌, inl, inr, length,
  take, slice, splice, slice-splice, le-length-splice, length-splice, Bool-cases, arith, ok, some,
  none, subst, Result-cases, ok-injective, ◌⊎◌, ◌==◌, ==_iff,
}
use ioc.Storage.Words.{get_u32, u32_at, encode_vec, length-encode_vec}
use ioc.Storage.Box.{Nonces, Box, overhead_of}
use ioc.Storage.Box.RoundTrip.{length-seal}
use ioc.Storage.Embeddings.{
  EmbStore, Outcome, written, torn_record, lost_header, emb_header_size, grow, set_count,
  with_record, offset_of, flag_matches, persist, put, record_bytes, ref_aad,
}
use ioc.Storage.Embeddings.Buffers.{
  Keeps, Keeps-trans, header-Keeps, header_written, le-header_length, grow-Keeps, splice-Keeps,
  set_count-Keeps, le-length-grow, length-set_count, u32_at-set_count,
}

-- `bs` has a header for the dimension and the key, and room for `n` records.
pub record IsLaid (dims rec_size : ℕ) (box : Box) (n : ℕ) (bs : Text) : Type 0 where
  pub whole : emb_header_size + n * rec_size ≤ length bs
  pub dims_in : u32_at 8 bs ≡ dims
  pub flag_in : flag_matches (u32_at 12 bs) box ≡ true

-- Two buffers hold the same records.
abbrev pub SameRecords : ℕ → ℕ → Text → Text → Type 0
SameRecords rec_size n xs ys =
    (i : ℕ)
    → i < n
    → slice (emb_header_size + i * rec_size) rec_size xs
      ≡ slice (emb_header_size + i * rec_size) rec_size ys

-- The file and the copy in memory are laid out alike and hold the same records, and the file's header
-- counts at least the committed ones.
pub record IsSynced (s : EmbStore) : Type 0 where
  pub valid : (0 < s.dims) × (s.dims ≤ 4096)
  pub sized : s.rec_size ≡ s.dims * 4 + overhead_of s.box
  pub in_file : IsLaid s.dims s.rec_size s.box s.count s.file
  pub in_buf : IsLaid s.dims s.rec_size s.box s.count s.buf
  pub counted : s.count ≤ u32_at 0 s.file
  pub same : SameRecords s.rec_size s.count s.buf s.file

-- records do not overlap
pub le-offset_of : (r i n : ℕ) → i < n → 16 + i * r + r ≤ 16 + n * r
le-offset_of r i n h = omega (arith, mul-le-mul_right {m = suc i} {n = n} r h)

IsLaid-Keeps :
    (d r : ℕ) (box : Box) (m n : ℕ) (xs ys : Text)
    → Keeps 4 16 xs ys
    → 16 + n * r ≤ length ys
    → IsLaid d r box m xs
    → IsLaid d r box n ys
IsLaid-Keeps d r box m n xs ys k w h = record {
  whole = w;
  dims_in = ap get_u32 (k 8 4 (omega arith) (omega arith)) ∙ h.dims_in;
  flag_in = ap (λ b. flag_matches (get_u32 b) box) (k 12 4 (omega arith) (omega arith)) ∙ h.flag_in;
}

SameRecords-Keeps :
    (r n : ℕ) (xs ys xs' ys' : Text)
    → Keeps 16 (16 + n * r) xs xs'
    → Keeps 16 (16 + n * r) ys ys'
    → SameRecords r n xs ys
    → SameRecords r n xs' ys'
SameRecords-Keeps r n xs ys xs' ys' f g h i lt =
    let b = le-offset_of r i n lt in
    f (16 + i * r) r (omega arith) b ∙ (h i lt ∙ sym (g (16 + i * r) r (omega arith) b))

module _ (s : EmbStore) (h : IsSynced s) (bs : Text) (e : length bs ≡ s.rec_size) where
  abbrev here : ℕ
  here = offset_of s s.count

  room : here + s.rec_size ≤ length (grow (offset_of s (suc s.count)) s.buf)
  room = omega (
    arith,
    le-offset_of s.rec_size s.count (suc s.count) (omega arith),
    (le-length-grow (offset_of s (suc s.count)) s.buf).0,
  )

  length-with_record : offset_of s (suc s.count) ≤ length (with_record s bs)
  length-with_record = omega (
    arith,
    length-splice here bs (grow (offset_of s (suc s.count)) s.buf) (omega (arith, room, e)),
    (le-length-grow (offset_of s (suc s.count)) s.buf).0,
  )

  pub with_record-Keeps : Keeps 0 here s.buf (with_record s bs)
  with_record-Keeps =
      Keeps-trans 0 0 here here s.buf (grow (offset_of s (suc s.count)) s.buf) (with_record s bs)
        (omega arith) (omega arith) (grow-Keeps _ here s.buf h.in_buf.whole)
        (splice-Keeps here bs _)

  pub slice-with_record : slice here s.rec_size (with_record s bs) ≡ bs
  slice-with_record =
      subst (λ n. slice here n (with_record s bs) ≡ bs) e
        (slice-splice here bs _ (omega (arith, room)))

  -- the copy in memory with another count in its header
  pub recounted : (d : Text) → Keeps 4 here (with_record s bs) d → Keeps 4 here s.buf d
  recounted d k =
      Keeps-trans 0 4 here here s.buf (with_record s bs) d (omega arith) (omega arith)
        with_record-Keeps k

  abbrev pub counted_once : Text
  counted_once = set_count (suc s.count) (with_record s bs)

  abbrev pub uncounted : Text
  uncounted = set_count s.count counted_once

  long : 16 ≤ length (with_record s bs)
  long = omega (arith, length-with_record)

  length-counted_once : length counted_once ≡ length (with_record s bs)
  length-counted_once = length-set_count (suc s.count) (with_record s bs) (omega (arith, long))

  length-uncounted : length uncounted ≡ length (with_record s bs)
  length-uncounted =
      length-set_count s.count counted_once (omega (arith, long, length-counted_once))
      ∙ length-counted_once

  -- a write that never reached the header: the file has bytes behind the committed records
  unfinished-IsSynced :
      (bs' : Text) → IsSynced (record s { file = splice here bs' s.file; buf = uncounted })
  unfinished-IsSynced bs' =
      let fk = splice-Keeps here bs' s.file in
      let fl = le-length-splice here bs' s.file h.in_file.whole in
      let bk = recounted uncounted (
        Keeps-trans 4 4 here here (with_record s bs) counted_once uncounted (omega arith)
          (omega arith) (set_count-Keeps (suc s.count) here (with_record s bs))
          (set_count-Keeps s.count here counted_once)) in
      record {
        valid = h.valid;
        sized = h.sized;
        in_file =
            IsLaid-Keeps s.dims s.rec_size s.box s.count s.count s.file _
              (λ j k p q. fk j k (omega arith) (omega (arith, q)))
              (omega (arith, fl.0, h.in_file.whole)) h.in_file;
        in_buf =
            IsLaid-Keeps s.dims s.rec_size s.box s.count s.count s.buf uncounted
              (λ j k p q. bk j k p (omega (arith, q)))
              (omega (arith, length-uncounted, length-with_record)) h.in_buf;
        counted = rw (ap get_u32 (fk 0 4 (omega arith) (omega arith))) h.counted;
        same =
            SameRecords-Keeps s.rec_size s.count s.buf s.file uncounted _
              (λ j k p q. bk j k (omega (arith, p)) q) (λ j k p q. fk j k (omega arith) q) h.same;
      }

  -- both writes went through
  finished_same :
      SameRecords s.rec_size
        (suc s.count)
        counted_once
        (splice 0 (take 16 counted_once) (splice here bs s.file))
  finished_same i lt =
      let o = 16 + i * s.rec_size in
      let f = splice here bs s.file in
      let top = le-offset_of s.rec_size i (suc s.count) lt in
      let head = header-Keeps counted_once f (omega (arith, long, length-counted_once)) in
      let in_buf =
        set_count-Keeps (suc s.count) (16 + suc s.count * s.rec_size) (with_record s bs) o
          s.rec_size (omega arith) top in
      let in_file = head (16 + suc s.count * s.rec_size) o s.rec_size (omega arith) top in
      in_buf
      ∙ (elim (split i lt) [
        | inl old ↦
            let low = le-offset_of s.rec_size i s.count old in
            with_record-Keeps o s.rec_size (omega arith) low
            ∙ (h.same i old ∙ sym (splice-Keeps here bs s.file o s.rec_size (omega arith) low))
        | inr new ↦ rw new (
            slice-with_record
            ∙ sym
                (subst (λ n. slice here n f ≡ bs) e (slice-splice here bs s.file h.in_file.whole)))
      ]
          ∙ sym in_file)
    where
      split : (i : ℕ) → i < suc s.count → (i < s.count) ⊎ (i ≡ s.count)
      split i lt = elim (Bool-cases (i == s.count)) [
        | inl y ↦ inr ((==_iff i s.count).0 y)
        | inr n ↦ inl (ground (arith, n, lt))
      ]

  finished-IsSynced :
      suc s.count < 2 ^ 32
      → IsSynced (record s {
        file = splice 0 (take 16 counted_once) (splice here bs s.file);
        count = suc s.count;
        buf = counted_once;
        dirty = true;
      })
  finished-IsSynced small =
      let l : 16 ≤ length counted_once = omega (arith, long, length-counted_once) in
      let f = splice here bs s.file in
      let bk = recounted counted_once (set_count-Keeps (suc s.count) here (with_record s bs)) in
      let b =
        IsLaid-Keeps s.dims s.rec_size s.box s.count (suc s.count) s.buf counted_once
          (λ j k p q. bk j k p (omega (arith, q)))
          (omega (arith, length-counted_once, length-with_record)) h.in_buf in
      record {
        valid = h.valid;
        sized = h.sized;
        in_file =
            IsLaid-Keeps s.dims s.rec_size s.box (suc s.count) (suc s.count) counted_once _
              (λ j k p q. header_written counted_once f l j k (omega arith) q)
              (omega (
                arith,
                le-header_length counted_once f l,
                le-length-splice here bs s.file h.in_file.whole,
                e,
              ))
              b;
        in_buf = b;
        counted =
            rw
              (
                ap get_u32 (header_written counted_once f l 0 4 (omega arith) (omega arith)),
                u32_at-set_count (suc s.count) (with_record s bs) small,
              )
              (omega arith);
        same = finished_same;
      }

  -- Whatever becomes of the two writes, file and memory agree on what is committed.
  persist-IsSynced : (o : Outcome) → suc s.count < 2 ^ 32 → IsSynced (persist o bs s).1
  unfolding persist
  persist-IsSynced written small = finished-IsSynced small
  persist-IsSynced (torn_record k) small = unfinished-IsSynced (take k bs)
  persist-IsSynced lost_header small = unfinished-IsSynced bs

-- A record has the size that the store was opened with.
pub length-record_bytes :
    (box : Box) (n : Nonces) (ref : ℕ) (vec : List ℕ) (bs : Text)
    → record_bytes box n ref vec ≡ ok bs
    → length bs ≡ length vec * 4 + overhead_of box
unfolding record_bytes
length-record_bytes none n ref vec bs h =
    rw (← ok-injective h) (omega (arith, length-encode_vec vec))
length-record_bytes (some a) n ref vec bs h =
    omega (arith, length-seal a n (encode_vec vec) (ref_aad ref) bs h, length-encode_vec vec)

-- a put that could not seal has only made room in memory
grown-IsSynced : (s : EmbStore) (n : ℕ) → IsSynced s → IsSynced (record s { buf = grow n s.buf })
grown-IsSynced s n h =
    let k = grow-Keeps n (16 + s.count * s.rec_size) s.buf h.in_buf.whole in
    record {
      valid = h.valid;
      sized = h.sized;
      in_file = h.in_file;
      in_buf =
          IsLaid-Keeps s.dims s.rec_size s.box s.count s.count s.buf _
            (λ j k' p q. k j k' (omega arith) (omega (arith, q)))
            (omega (arith, (le-length-grow n s.buf).1, h.in_buf.whole)) h.in_buf;
      counted = h.counted;
      same =
          SameRecords-Keeps s.rec_size s.count s.buf s.file _ s.file
            (λ j k' p q. k j k' (omega arith) q) (λ j k' p q. refl) h.same;
    }

-- A `Put`, whether it is refused, fails or succeeds, however far the write of its record came, and where
-- the write of the header is whole or not made, leaves the file and the copy in memory with the same
-- committed records, fewer than 2^32.
pub put-IsSynced :
    (n : Nonces) (o : Outcome) (vec : List ℕ) (s : EmbStore)
    → IsSynced s
    → suc s.count < 2 ^ 32
    → IsSynced (put n o vec s).1
unfolding put
put-IsSynced n o vec s h small = elim (Bool-cases (length vec == s.dims)) [
  | inr f ↦ rw f h
  | inl t ↦ rw t (elim (Result-cases (record_bytes s.box n (suc s.count) vec)) [
    | inl (bs, e) ↦
        let l = length-record_bytes s.box n (suc s.count) vec bs e in
        let d = (==_iff (length vec) s.dims).0 t in
        rw e (persist-IsSynced s h bs (omega (arith, l, d, h.sized)) o small)
    | inr (x, e) ↦ rw e (grown-IsSynced s (offset_of s (suc s.count)) h)
  ])
]
