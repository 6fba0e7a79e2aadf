-- ===== src/Storage/Cas/Objects.antt =====
-- internal/storage/cas.go: Load after StoreBytes.
use ioc.Base.{
  ◌≤◌, Bool, List, Text, none, some, ◌≡◌, ◌≢◌, sym, ap, ◌∙◌, inl, inr, ok, In, length, Bool-cases,
  Option-cases, Result-cases, ok-injective, text_eq, text_eq→≡, text_eq_refl,
}
use ioc.Core.Types.{lookup}
use ioc.Storage.Box.{Box, Nonces}
use ioc.Storage.Box.RoundTrip.{unseal-seal}
use ioc.Storage.Cas.{
  Codecs, Cas, has, object_bytes, store_bytes, read_object, load, max_cas_decoded_bytes,
}

module _ ⦃k : Codecs⦄ where
  -- Every object is that of one of the contents `ts`, under its hash.
  abbrev pub IsCasOf : List Text → Cas → Type 0
  IsCasOf ts c =
      (h o : Text)
      → lookup h c.objects ≡ some o
      → (t : Text) × In t ts × (h ≡ k.hash t) × (read_object c.box h o ≡ ok t)

  read-object_bytes :
      (box : Box) (n : Nonces) (t o : Text)
      → length t ≤ max_cas_decoded_bytes
      → object_bytes box n (k.hash t) t ≡ ok o
      → read_object box (k.hash t) o ≡ ok t
  unfolding object_bytes read_object
  read-object_bytes none n t o l e = rw (← ok-injective e) (k.decode-encode t l)
  read-object_bytes (some a) n t o l e =
      rw (unseal-seal a n (k.encode_all t) (k.hash t) o e) (k.decode-encode t l)

  -- What a store names is loaded back, a content that was there already included, where no content
  -- stored before has the same hash.
  pub load-store_bytes :
      (ts : List Text) (n : Nonces) (renamed : Bool) (t h : Text) (c : Cas)
      → IsCasOf ts c
      → length t ≤ max_cas_decoded_bytes
      → ((x : Text) → In x ts → k.hash x ≡ k.hash t → x ≡ t)
      → (store_bytes n renamed t c).0 ≡ ok h
      → load h (store_bytes n renamed t c).1 ≡ ok t
  unfolding store_bytes load has lookup
  load-store_bytes ts n renamed t h c s l apart e =
      elim (Option-cases (lookup (k.hash t) c.objects)) [
        | inr (o, x) ↦
            let (y, i, same, r) = s (k.hash t) o x in
            let named : k.hash t ≡ h = ok-injective (rw x at e) in
            rw (x, ← named, x) (r ∙ ap ok (apart y i (sym same)))
        | inl x ↦ elim (Result-cases (object_bytes c.box n (k.hash t) t)) [
          | inr (z, y) ↦ cc (rw (x, y) at e)
          | inl (o, y) ↦ elim (Bool-cases renamed) [
            | inr f ↦ cc (rw (x, y, f) at e)
            | inl r ↦
                let named : k.hash t ≡ h = ok-injective (rw (x, y, r) at e) in
                rw (x, y, r, ← named, text_eq_refl (k.hash t)) (read-object_bytes c.box n t o l y)
          ]
        ]
      ]

  -- A store changes what no other hash loads, whether it succeeds or fails.
  pub load-store_bytes_other :
      (n : Nonces) (renamed : Bool) (t h : Text) (c : Cas)
      → k.hash t ≢ h
      → load h (store_bytes n renamed t c).1 ≡ load h c
  unfolding store_bytes load has lookup
  load-store_bytes_other n renamed t h c apart = elim (Option-cases (lookup (k.hash t) c.objects)) [
    | inr (o, x) ↦ rw x
    | inl x ↦ elim (Result-cases (object_bytes c.box n (k.hash t) t)) [
      | inr (z, y) ↦ rw (x, y)
      | inl (o, y) ↦ elim (Bool-cases renamed) [
        | inr f ↦ rw (x, y, f)
        | inl r ↦ elim (Bool-cases (text_eq (k.hash t) h)) [
          | inl same ↦ absurd (apart (text_eq→≡ (k.hash t) h same))
          | inr other ↦ rw (x, y, r, other)
        ]
      ]
    ]
  ]
