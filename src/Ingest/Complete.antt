-- ===== src/Ingest/Complete.antt =====
-- internal/ingest/reconcile.go: when the stored chunks of a file are left as they are.
pub mod Numbered
use ioc.Base.{
  ℕ, zero, suc, ◌+◌, ◌-◌, ◌*◌, ◌≤◌, ◌<◌, Bool, true, false, not, ◌&&◌, ◌||◌, List, [], ◌∷◌, Text,
  Option, none, some, bytes, ◌≡◌, refl, ap, ◌∙◌, sym, ◌⊎◌, inl, inr, In, All, any, filter, length,
  text_eq, leb, ◌==◌, ==_iff, Bool-cases, Option-cases, arith, if◌then◌else◌,
}
use ioc.Core.Types.{Artifact, lookup, kind_document}

-- the digits of `strconv.Atoi`, after the sign; a number above int64 is far above any index
unfoldable pub atoi_digits : ℕ → Text → Option ℕ
atoi_digits acc [] = some acc
atoi_digits acc (c ∷ s) =
    let on = atoi_digits (acc * 10 + (c - 48)) s in if leb 48 c && leb c 57 then on else none

abbrev pub atoi_unsigned : Text → Option ℕ
atoi_unsigned [] = none
atoi_unsigned (c ∷ s) = atoi_digits 0 (c ∷ s)

abbrev only_zero : Option ℕ → Option ℕ
only_zero none = none
only_zero (some n) = if n == 0 then some n else none

-- `strconv.Atoi` where it gives an index: an error and a number below zero are both `none`
unfoldable pub atoi_index : Text → Option ℕ
unfolding atoi_digits
atoi_index [] = none
atoi_index (c ∷ s) =
    if c == 45
    then only_zero (atoi_unsigned s)
    else if c == 43
    then atoi_unsigned s
    else atoi_unsigned (c ∷ s)

-- `a.Meta[key]`, empty where there is none
abbrev pub meta_at : Text → Artifact → Text
meta_at key a = elim (lookup key a.meta) [ none ↦ [] | some t ↦ t ]

unfoldable pub chunk_index : Artifact → Option ℕ
unfolding atoi_index lookup
chunk_index a = atoi_index (meta_at (bytes "chunk") a)

unfoldable pub has_sig : Text → Artifact → Bool
unfolding text_eq lookup
has_sig sig a = text_eq (meta_at (bytes "sig") a) sig

abbrev rejects : ℕ → List ℕ → ℕ → Bool
rejects n seen idx = leb n idx || any (λ k. k == idx) seen

-- the loop of `chunksComplete`; `seen` holds the indices that were met
unfoldable pub complete_from : Text → ℕ → List ℕ → List Artifact → Bool
unfolding chunk_index has_sig any
complete_from sig n seen [] = true
complete_from sig n seen (a ∷ as') = if not (has_sig sig a) then false else elim (chunk_index a) [
  | none ↦ false
  | some idx ↦ elim (rejects n seen idx) [
    | true ↦ false
    | false ↦ complete_from sig n (idx ∷ seen) as'
  ]
]

-- `chunksComplete`
unfoldable pub chunks_complete : List Artifact → Text → ℕ → Bool
unfolding complete_from
chunks_complete existing sig n =
    if not (length existing == n)
    then false
    else if n == 0
    then true
    else complete_from sig n [] existing

-- `chunksForPath`, over the artifacts of the scope
unfoldable pub chunks_for_path : Text → List Artifact → List Artifact
unfolding filter text_eq lookup
chunks_for_path rel_slash in_scope =
    filter (λ a. a.kind == kind_document && text_eq (meta_at (bytes "path") a) rel_slash) in_scope

-- how many of the indices below `n` were not met
missing : ℕ → List ℕ → ℕ
missing zero seen = 0
missing (suc n) seen =
    let rest = missing n seen in if any (λ k. k == n) seen then rest else suc rest

missing_outside : (n idx : ℕ) (seen : List ℕ) → n ≤ idx → missing n (idx ∷ seen) ≡ missing n seen
unfolding missing any
missing_outside zero idx seen h = refl
missing_outside (suc n) idx seen h = ground (arith, h, missing_outside n idx seen)

missing-cons :
    (n idx : ℕ) (seen : List ℕ)
    → idx < n
    → any (λ k. k == idx) seen ≡ false
    → suc (missing n (idx ∷ seen)) ≡ missing n seen
unfolding missing any
missing-cons zero idx seen h new = absurd (omega (arith, h))
missing-cons (suc n) idx seen h new = elim (Bool-cases (idx == n)) [
  | inl same ↦
      let e = (==_iff idx n).0 same in
      let absent : any (λ k. k == n) seen ≡ false =
        ap (λ j. any (λ k. k == j) seen) (sym e) ∙ new in
      rw (same, absent) (ap suc (missing_outside n idx seen (omega (arith, e))))
  | inr other ↦ ground (arith, h, other, missing-cons n idx seen)
]

missing_none :
    (n i : ℕ) (seen : List ℕ) → missing n seen ≡ 0 → i < n → any (λ k. k == i) seen ≡ true
unfolding missing
missing_none zero i seen h lt = absurd (omega (arith, lt))
missing_none (suc n) i seen h lt = elim (Bool-cases (any (λ k. k == n) seen)) [
  | inr f ↦ absurd (none_left (rw f at h))
  | inl t ↦ elim (Bool-cases (i == n)) [
    | inl same ↦ ap (λ j. any (λ k. k == j) seen) ((==_iff i n).0 same) ∙ t
    | inr other ↦ missing_none n i seen (rw t at h) (ground (arith, lt, other))
  ]
]
  where
    none_left : {k : ℕ} → suc k ≡ 0 → ⊥
    none_left e = omega (arith, e)

missing_all : (n : ℕ) → missing n [] ≡ n
unfolding missing any
missing_all zero = refl
missing_all (suc n) = ap suc (missing_all n)

-- A chunk with the signature has the index.
abbrev pub Holds : List Artifact → Text → ℕ → Type 0
Holds existing sig i =
    (a : Artifact) × In a existing × (has_sig sig a ≡ true) × (chunk_index a ≡ some i)

complete_from-Holds :
    (sig : Text) (n : ℕ) (seen : List ℕ) (as' : List Artifact) (i : ℕ)
    → complete_from sig n seen as' ≡ true
    → length as' ≡ missing n seen
    → i < n
    → (any (λ k. k == i) seen ≡ true) ⊎ Holds as' sig i
unfolding complete_from any
complete_from-Holds sig n seen [] i h l lt = inl (missing_none n i seen (sym l) lt)
complete_from-Holds sig n seen (a ∷ as') i h l lt = elim (Bool-cases (has_sig sig a)) [
  | inr f ↦ cc (rw f at h)
  | inl t ↦ elim (Option-cases (chunk_index a)) [
    | inl x ↦ cc (rw (t, x) at h)
    | inr (idx, x) ↦ elim (Bool-cases (rejects n seen idx)) [
      | inl y ↦ cc (rw (t, x, y) at h)
      | inr y ↦
          let below : idx < n = ground (arith, y) in
          let new : any (λ k. k == idx) seen ≡ false = ground (arith, y) in
          elim (complete_from-Holds sig n (idx ∷ seen) as' i (rw (t, x, y) at h)
            (omega (arith, l, missing-cons n idx seen below new)) lt) [
              | inr (b, j, u, w) ↦ inr (b, inr j, u, w)
              | inl met ↦ elim (Bool-cases (idx == i)) [
                | inl same ↦ inr (a, inl refl, t, x ∙ ap some ((==_iff idx i).0 same))
                | inr other ↦ inl (rw other at met)
              ]
            ]
    ]
  ]
]

complete_from-has_sig :
    (sig : Text) (n : ℕ) (seen : List ℕ) (as' : List Artifact)
    → complete_from sig n seen as' ≡ true
    → All (λ a. has_sig sig a ≡ true) as'
unfolding complete_from
complete_from-has_sig sig n seen [] h = tt
complete_from-has_sig sig n seen (a ∷ as') h = elim (Bool-cases (has_sig sig a)) [
  | inr f ↦ cc (rw f at h)
  | inl t ↦ elim (Option-cases (chunk_index a)) [
    | inl x ↦ cc (rw (t, x) at h)
    | inr (idx, x) ↦ elim (Bool-cases (rejects n seen idx)) [
      | inl y ↦ cc (rw (t, x, y) at h)
      | inr y ↦ (t, complete_from-has_sig sig n (idx ∷ seen) as' (rw (t, x, y) at h))
    ]
  ]
]

-- A chunk set that passes for complete has as many chunks as the file gives, all with the file's
-- signature, and one for each index of the file's chunks.
pub chunks_complete-Holds :
    (existing : List Artifact) (sig : Text) (n : ℕ)
    → chunks_complete existing sig n ≡ true
    → (length existing ≡ n)
      × All (λ a. has_sig sig a ≡ true) existing
      × ((i : ℕ) → i < n → Holds existing sig i)
unfolding chunks_complete
chunks_complete-Holds existing sig n h = elim (Bool-cases (length existing == n)) [
  | inr f ↦ cc (rw f at h)
  | inl t ↦
      let l = (==_iff (length existing) n).0 t in
      elim (Bool-cases (n == 0)) [
        | inl z ↦ (
          l,
          none_at sig existing (omega (arith, l, (==_iff n 0).0 z)),
          λ i lt. absurd (omega (arith, lt, (==_iff n 0).0 z)),
        )
        | inr p ↦ (
          l,
          complete_from-has_sig sig n [] existing (rw (t, p) at h),
          λ i lt.
              elim (complete_from-Holds sig n [] existing i (rw (t, p) at h)
                (l ∙ sym (missing_all n)) lt) [ inr held ↦ held | inl met ↦ cc ],
        )
      ]
]
  where
    none_at : (sig : Text) (xs : List Artifact) → length xs ≡ 0 → All (λ a. has_sig sig a ≡ true) xs
    none_at sig [] e = tt
    none_at sig (x ∷ xs) e = absurd (omega (arith, e))
