-- ===== src/Storage/Meta/Scans.antt =====
-- internal/storage/meta.go: the values that a scan of a bucket returns.
use ioc.Base.{
  Bool, true, List, [], ◌∷◌, Text, ◌≡◌, ◌≢◌, refl, subst, ap₂, In-if, In-if_head, In-if_tail, sym,
  ap, inl, inr, some, ok, ok-injective, text_eq, text_eq→≡, text_eq_refl, In, All, All-In,
  Bool-cases, if◌then◌else◌, ◌∙◌,
}
use ioc.Core.Types.{lookup}
use ioc.Storage.Bolt.{DistinctKeys}
use ioc.Storage.Meta.{MetaEnv, Codec, read_value, scan}
use ioc.Storage.Meta.Values.{and_then-eq-ok}

-- An entry of a list with distinct keys is what its key finds, and the other way round.
pub In→lookup :
    (m : List (Text × Text)) (k v : Text) → DistinctKeys m → In (k, v) m → lookup k m ≡ some v
unfolding lookup
In→lookup [] k v d i = elim i [ ]
In→lookup ((j, w) ∷ m) k v d (inl e) =
    rw (ap (λ (p : Text × Text). p.0) (sym e), text_eq_refl k)
      (ap (λ (p : Text × Text). some p.1) (sym e))
In→lookup ((j, w) ∷ m) k v d (inr i) = elim (Bool-cases (text_eq j k)) [
  | inl same ↦ absurd (All-In (λ p. p.0 ≢ j) m (k, v) d.0 i (sym (text_eq→≡ j k same)))
  | inr other ↦ rw other (In→lookup m k v d.1 i)
]

pub lookup→In : (m : List (Text × Text)) (k v : Text) → lookup k m ≡ some v → In (k, v) m
unfolding lookup
lookup→In [] k v h = cc
lookup→In ((j, w) ∷ m) k v h = elim (Bool-cases (text_eq j k)) [
  | inl same ↦ inl (ap₂ (λ (x y : Text). (x, y)) (sym (text_eq→≡ j k same)) (cc (rw same at h)))
  | inr other ↦ inr (lookup→In m k v (rw other at h))
]

module _ ⦃m : MetaEnv⦄ {A : Type 0} (c : Codec A) (keep : A → Bool) where
  -- each value of the result was stored, and is wanted
  pub scan_sound :
      (es : List (Text × Text)) (xs : List A) (a : A)
      → scan c keep es ≡ ok xs
      → In a xs
      → (e : Text × Text) × In e es × (read_value c e.0 e.1 ≡ ok a) × (keep a ≡ true)
  unfolding scan
  scan_sound [] xs a h i = let e : [] ≡ xs = cc in elim (subst (In a) (sym e) i) [ ]
  scan_sound ((k, v) ∷ es) xs a h i =
      let (x, p, h1) = and_then-eq-ok (read_value c k v) _ h in
      let (rest, q, h2) = and_then-eq-ok (scan c keep es) _ h1 in
      let e : (if keep x then x ∷ rest else rest) ≡ xs = cc h2 in
      elim (In-if (keep x) a x rest (subst (In a) (sym e) i)) [
        | inl here ↦ ((k, v), inl refl, p ∙ ap ok (sym here.0), ap keep here.0 ∙ here.1)
        | inr there ↦ let (f, j, r, t) = scan_sound es rest a q there in (f, inr j, r, t)
      ]

  -- each wanted value that was stored is in the result
  pub scan_complete :
      (es : List (Text × Text)) (xs : List A) (a : A) (e : Text × Text)
      → scan c keep es ≡ ok xs
      → In e es
      → read_value c e.0 e.1 ≡ ok a
      → keep a ≡ true
      → In a xs
  unfolding scan
  scan_complete [] xs a e h i r k = elim i [ ]
  scan_complete ((j, v) ∷ es) xs a en h i r k =
      let (x, p, h1) = and_then-eq-ok (read_value c j v) _ h in
      let (rest, q, h2) = and_then-eq-ok (scan c keep es) _ h1 in
      let e : (if keep x then x ∷ rest else rest) ≡ xs = cc h2 in
      subst (In a) e (elim i [
        | inl here ↦
            let same : x ≡ a =
              ok-injective
                (sym p ∙ (ap (λ (f : Text × Text). read_value c f.0 f.1) (sym here) ∙ r)) in
            subst (λ y. In y (if keep x then x ∷ rest else rest)) same
              (In-if_head (keep x) x rest (ap keep same ∙ k))
        | inr there ↦ In-if_tail (keep x) a x rest (scan_complete es rest a en q there r k)
      ])

  -- the scan succeeds where every value decodes
  pub scan_total :
      (es : List (Text × Text))
      → All (λ e. (a : A) × (read_value c e.0 e.1 ≡ ok a)) es
      → (xs : List A) × (scan c keep es ≡ ok xs)
  unfolding scan
  scan_total [] h = ([], refl)
  scan_total ((k, v) ∷ es) h =
      let (a, p) = h.0 in
      let (xs, q) = scan_total es h.1 in ((if keep a then a ∷ xs else xs), rw (p, q))
