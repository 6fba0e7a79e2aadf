-- ===== src/Storage/Embeddings/Opening.antt =====
-- internal/storage/embstore.go: what `OpenEmbeddingStore` accepts.
use native.Mathlib.Nat.{mul-le-mul_right, div-mul-le_self}
use ioc.Base.{
  ℕ, ◌+◌, ◌-◌, ◌*◌, ◌/◌, ◌<◌, ◌≤◌, true, false, Text, ◌≡◌, refl, inl, inr, length, Bool-cases,
  arith, ok, some, none, ltb, ok-injective, ◌==◌, ==_iff, ◌||◌, subst,
}
use ioc.Storage.Words.{u32_at, put_u32, get_u32, get_u32-put_u32}
use ioc.Storage.Box.{Box, overhead_of}
use ioc.Storage.Embeddings.{EmbStore, open_file, flag_matches, fresh_header, clamp}
use ioc.Storage.Embeddings.Writes.{IsSynced, IsLaid}

abbrev opened : ℕ → Box → Text → ℕ → EmbStore
opened dims box file count = record {
  file = file;
  dims = dims;
  rec_size = dims * 4 + overhead_of box;
  count = count;
  buf = file;
  dirty = false;
  box = box;
}

opened-IsSynced :
    (dims : ℕ) (box : Box) (file : Text) (count : ℕ)
    → (0 < dims) × (dims ≤ 4096)
    → IsLaid dims (dims * 4 + overhead_of box) box count file
    → count ≤ u32_at 0 file
    → IsSynced (opened dims box file count)
opened-IsSynced dims box file count v l c = record {
  valid = v;
  sized = refl;
  in_file = l;
  in_buf = l;
  counted = c;
  same = λ i lt. refl;
}

fresh_flag : (dims : ℕ) (box : Box) → flag_matches (u32_at 12 (fresh_header dims box)) box ≡ true
unfolding fresh_header put_u32 get_u32
fresh_flag dims none = refl
fresh_flag dims (some a) = refl

fresh-IsLaid :
    (dims : ℕ) (box : Box)
    → dims ≤ 4096
    → IsLaid dims (dims * 4 + overhead_of box) box 0 (fresh_header dims box)
unfolding fresh_header put_u32
fresh-IsLaid dims none h = record {
  whole = omega arith;
  dims_in = get_u32-put_u32 dims _ (omega (arith, h));
  flag_in = fresh_flag dims none;
}
fresh-IsLaid dims (some a) h = record {
  whole = omega arith;
  dims_in = get_u32-put_u32 dims _ (omega (arith, h));
  flag_in = fresh_flag dims (some a);
}

clamped-IsLaid :
    (dims r : ℕ) (box : Box) (file : Text)
    → 16 ≤ length file
    → u32_at 8 file ≡ dims
    → flag_matches (u32_at 12 file) box ≡ true
    → IsLaid dims r box (clamp (u32_at 0 file) ((length file - 16) / r)) file
clamped-IsLaid dims r box file l d f =
    let most = (length file - 16) / r in
    let k = clamp (u32_at 0 file) most in
    let under : k ≤ most = ground arith in
    record {
      whole = omega (
        arith,
        mul-le-mul_right {m = k} {n = most} r under,
        div-mul-le_self (length file - 16) r,
        l,
      );
      dims_in = d;
      flag_in = f;
    }

-- Every file that is opened, an empty or a damaged one too, gives a store whose file and memory agree.
pub open_file-IsSynced :
    (dims : ℕ) (box : Box) (file : Text) (s : EmbStore)
    → open_file dims box file ≡ ok s
    → IsSynced s
unfolding open_file
open_file-IsSynced dims box file s h = elim (Bool-cases ((dims == 0) || ltb 4096 dims)) [
  | inl bad ↦ cc (bad, h)
  | inr sane ↦
      let v : (0 < dims) × (dims ≤ 4096) = (ground (arith, sane), ground (arith, sane)) in
      elim (Bool-cases (length file == 0)) [
        | inl fresh ↦
            subst IsSynced (ok-injective (rw (sane, fresh) at h))
              (opened-IsSynced dims box _ 0 v (fresh-IsLaid dims box v.1) (omega arith))
        | inr old ↦ elim (Bool-cases (ltb (length file) 16)) [
          | inl short ↦ cc (rw (sane, old, short) at h)
          | inr long ↦ elim (Bool-cases (u32_at 8 file == dims)) [
            | inr other ↦ cc (rw (sane, old, long, other) at h)
            | inl same ↦ elim (Bool-cases (flag_matches (u32_at 12 file) box)) [
              | inr clash ↦ cc (rw (sane, old, long, same, clash) at h)
              | inl flag ↦ subst IsSynced (ok-injective (rw (sane, old, long, same, flag) at h)) (
                  opened-IsSynced dims box file _ v
                    (clamped-IsLaid dims _ box file (ground (arith, long)) ((==_iff _ dims).0 same)
                      flag)
                    (ground arith))
            ]
          ]
        ]
      ]
]
