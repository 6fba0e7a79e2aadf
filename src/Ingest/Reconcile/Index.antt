-- ===== src/Ingest/Reconcile/Index.antt =====
-- internal/ingest/reconcile.go: the artifacts in the run's index.
use ioc.Base.{
  not, Bool, false, ◌&&◌, List, [], ◌∷◌, ◌++◌, Text, bytes, text_eq, filter, ◌==◌, ==_refl, ◌≡◌,
  refl, ap, ◌∙◌, inl, inr, Bool-cases, All,
}
use ioc.Core.Types.{Ulid, Artifact, kind_document}
use ioc.Ingest.Complete.{chunks_for_path, meta_at}
use ioc.Ingest.Reconcile.{drop_one}

-- the test of `chunksForPath` on the whole index
abbrev pub chunk_of : Ulid → Text → Artifact → Bool
chunk_of scope rel a =
    a.scope == scope && (a.kind == kind_document && text_eq (meta_at (bytes "path") a) rel)

pub chunks_for_path-chunk_of :
    (scope : Ulid) (rel : Text) (xs : List Artifact)
    → chunks_for_path rel (filter (λ a. a.scope == scope) xs) ≡ filter (chunk_of scope rel) xs
unfolding filter chunks_for_path
chunks_for_path-chunk_of scope rel [] = refl
chunks_for_path-chunk_of scope rel (x ∷ xs) = elim (Bool-cases (x.scope == scope)) [
  | inr f ↦ rw f (chunks_for_path-chunk_of scope rel xs)
  | inl t ↦ elim (Bool-cases (x.kind == kind_document && text_eq (meta_at (bytes "path") x) rel)) [
    | inl y ↦ rw (t, y) (ap (◌∷◌ x) (chunks_for_path-chunk_of scope rel xs))
    | inr n ↦ rw (t, n) (chunks_for_path-chunk_of scope rel xs)
  ]
]

pub filter-append :
    (p : Artifact → Bool) (xs ys : List Artifact) → filter p (xs ++ ys) ≡ filter p xs ++ filter p ys
unfolding filter
filter-append p [] ys = refl
filter-append p (x ∷ xs) ys = elim (Bool-cases (p x)) [
  | inl t ↦ rw t (ap (◌∷◌ x) (filter-append p xs ys))
  | inr f ↦ rw f (filter-append p xs ys)
]

-- no two entries of the index are one artifact of one scope
abbrev pub Distinct : List Artifact → Type 0
Distinct [] = Unit
Distinct (x ∷ xs) = All (λ y. (x.scope == y.scope && x.id == y.id) ≡ false) xs × Distinct xs

unfoldable pub drop_all : List Artifact → List Artifact → List Artifact
drop_all [] xs = xs
drop_all (a ∷ as') xs = drop_all as' (drop_one a xs)

drop_all-cons :
    (as' : List Artifact) (x : Artifact) (xs : List Artifact)
    → All (λ y. (x.scope == y.scope && x.id == y.id) ≡ false) as'
    → drop_all as' (x ∷ xs) ≡ x ∷ drop_all as' xs
unfolding drop_all drop_one
drop_all-cons [] x xs h = refl
drop_all-cons (a ∷ as') x xs (n, h) = rw n (drop_all-cons as' x (drop_one a xs) h)

pub All-filter :
    (P : Artifact → Type 0) (p : Artifact → Bool) (xs : List Artifact)
    → All P xs
    → All P (filter p xs)
unfolding filter
All-filter P p [] h = tt
All-filter P p (x ∷ xs) (h, hs) = elim (Bool-cases (p x)) [
  | inl t ↦ rw t (h, All-filter P p xs hs)
  | inr f ↦ rw f (All-filter P p xs hs)
]

drop_one-cons : (x : Artifact) (xs : List Artifact) → drop_one x (x ∷ xs) ≡ xs
unfolding drop_one
drop_one-cons x xs = rw (==_refl x.scope, ==_refl x.id) refl

-- dropping the entries that pass the test leaves none that passes it
pub filter-drop_all :
    (p : Artifact → Bool) (xs : List Artifact)
    → Distinct xs
    → filter p (drop_all (filter p xs) xs) ≡ []
unfolding filter drop_all drop_one
filter-drop_all p [] d = refl
filter-drop_all p (x ∷ xs) (far, d) = elim (Bool-cases (p x)) [
  | inl t ↦ rw t (
      ap (λ ys. filter p (drop_all (filter p xs) ys)) (drop_one-cons x xs) ∙ filter-drop_all p xs d)
  | inr f ↦
      rw (f, drop_all-cons (filter p xs) x xs (All-filter _ p xs far), f) (filter-drop_all p xs d)
]

pub Distinct-filter :
    (p : Artifact → Bool) (xs : List Artifact) → Distinct xs → Distinct (filter p xs)
unfolding filter
Distinct-filter p [] d = tt
Distinct-filter p (x ∷ xs) (far, d) = elim (Bool-cases (p x)) [
  | inl t ↦ rw t (All-filter _ p xs far, Distinct-filter p xs d)
  | inr f ↦ rw f (Distinct-filter p xs d)
]

-- dropping the entries that pass a test keeps the others
pub drop_all-filter :
    (p : Artifact → Bool) (xs : List Artifact)
    → Distinct xs
    → drop_all (filter p xs) xs ≡ filter (λ a. not (p a)) xs
unfolding filter drop_all drop_one
drop_all-filter p [] d = refl
drop_all-filter p (x ∷ xs) (far, d) = elim (Bool-cases (p x)) [
  | inl t ↦ rw t (ap (drop_all (filter p xs)) (drop_one-cons x xs) ∙ drop_all-filter p xs d)
  | inr f ↦
      rw (f, drop_all-cons (filter p xs) x xs (All-filter _ p xs far))
        (ap (◌∷◌ x) (drop_all-filter p xs d))
]
