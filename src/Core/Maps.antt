-- ===== src/Core/Maps.antt =====
-- Association lists: dropping the entries of one key.
use ioc.Base.{
  true, not, List, [], ◌∷◌, Text, none, ◌≡◌, sym, ap, ◌∙◌, inl, inr, text_eq, text_eq_iff, filter,
  Bool-cases, if◌then◌else◌, arith, All, ◌≢◌,
}
use ioc.Core.Types.{lookup}

-- the entries without those of one key
unfoldable pub strip : Text → List (Text × Text) → List (Text × Text)
strip key meta = filter (λ e. not (text_eq e.0 key)) meta

text_eq_same : (j k l : Text) → text_eq j k ≡ true → text_eq j l ≡ text_eq k l
text_eq_same j k l h = ap (λ x. text_eq x l) ((text_eq_iff j k).0 h)

text_eq_meet : (j key k : Text) → text_eq j k ≡ true → text_eq key k ≡ true → text_eq j key ≡ true
text_eq_meet j key k p q =
    (text_eq_iff j key).1 ((text_eq_iff j k).0 p ∙ sym ((text_eq_iff key k).0 q))

pub lookup-strip :
    (key k : Text) (meta : List (Text × Text))
    → lookup k (strip key meta) ≡ (if text_eq key k then none else lookup k meta)
unfolding lookup strip filter
lookup-strip key k [] = ground arith
lookup-strip key k ((j, v) ∷ meta) = elim (Bool-cases (text_eq j key)) [
  | inl drop ↦ rw (drop, text_eq_same j key k drop) (ground (arith, lookup-strip key k meta))
  | inr keep ↦ rw keep (ground (arith, lookup-strip key k meta, keep, text_eq_meet j key k))
]

pub All-strip :
    (P : Text × Text → Type 0) (key : Text) (meta : List (Text × Text))
    → All P meta
    → All P (strip key meta)
unfolding strip filter
All-strip P key [] h = tt
All-strip P key ((j, v) ∷ meta) h = elim (Bool-cases (text_eq j key)) [
  | inl drop ↦ rw drop (All-strip P key meta h.1)
  | inr keep ↦ rw keep (h.0, All-strip P key meta h.1)
]

pub strip-absent : (key : Text) (meta : List (Text × Text)) → All (λ e. e.0 ≢ key) (strip key meta)
unfolding strip filter
strip-absent key [] = tt
strip-absent key ((j, v) ∷ meta) = elim (Bool-cases (text_eq j key)) [
  | inl drop ↦ rw drop (strip-absent key meta)
  | inr keep ↦ rw keep (λ e. cc (keep, (text_eq_iff j key).1 e), strip-absent key meta)
]
