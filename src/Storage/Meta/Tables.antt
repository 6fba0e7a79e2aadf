-- ===== src/Storage/Meta/Tables.antt =====
-- internal/storage/meta.go: buckets whose values decode and stand under their own keys, with their
-- scans and reads.
use ioc.Base.{
  Bool, true, List, [], ◌∷◌, Text, ◌≡◌, ◌↔◌, ◌⊎◌, refl, sym, ap, ◌∙◌, inl, inr, none, some, ok,
  ok-injective, text_eq, text_eq→≡, In, All, Bool-cases, Option-cases,
}
use ioc.Storage.Bolt.{Bucket}
use ioc.Storage.Meta.{MetaEnv, Codec, put_json, get_json, read_value, scan}
use ioc.Storage.Meta.Values.{put_json-inv, bucket_eq_refl}
use ioc.Storage.Meta.Scans.{In→lookup, lookup→In, scan_sound, scan_complete, scan_total}

module _ ⦃m : MetaEnv⦄ {A : Type 0} (b : Bucket) (c : Codec A) (key : A → Text) where
  -- each stored value decodes to one whose key it stands under
  pub record IsKeyed (d : m.bolt.Db) : Type 0 where
    pub at :
        (k blob : Text)
        → m.bolt.get d b k ≡ some blob
        → (a : A) × (read_value c k blob ≡ ok a) × (key a ≡ k)

  pub put_json-IsKeyed :
      (v : A) (d d' : m.bolt.Db)
      → put_json b c (key v) v d ≡ ok d'
      → key (c.decoded v) ≡ key v
      → IsKeyed d
      → IsKeyed d'
  put_json-IsKeyed v d d' h own keyed = record {
    at = λ k blob g.
        let (blob', p, r) = put_json-inv b c (key v) v d d' h in
        let found = m.bolt.get-put d b (key v) blob' d' p b k in
        elim (Bool-cases (text_eq (key v) k)) [
          | inl same ↦
              let e : some blob' ≡ some blob = sym (rw (bucket_eq_refl b, same) at found) ∙ g in
              (c.decoded v, cc (r, text_eq→≡ (key v) k same, e), own ∙ text_eq→≡ (key v) k same)
          | inr other ↦ keyed.at k blob (sym (rw (bucket_eq_refl b, other) at found) ∙ g)
        ];
  }

  -- a write or a delete elsewhere
  pub IsKeyed-frame :
      (d d' : m.bolt.Db)
      → ((k : Text) → (m.bolt.get d' b k ≡ m.bolt.get d b k) ⊎ (m.bolt.get d' b k ≡ none))
      → IsKeyed d
      → IsKeyed d'
  IsKeyed-frame d d' same keyed = record {
    at = λ k blob g. elim (same k) [ inl e ↦ keyed.at k blob (sym e ∙ g) | inr e ↦ cc ];
  }

  readable :
      (d : m.bolt.Db)
      → IsKeyed d
      → (es : List (Text × Text)) → ((k v : Text) → In (k, v) es → m.bolt.get d b k ≡ some v)
      → All (λ e. (a : A) × (read_value c e.0 e.1 ≡ ok a)) es
  readable d keyed [] h = tt
  readable d keyed ((k, v) ∷ es) h =
      let (a, r, e) = keyed.at k v (h k v (inl refl)) in
      ((a, r), readable d keyed es (λ j w i. h j w (inr i)))

  stored :
      (d : m.bolt.Db) (k v : Text) → In (k, v) (m.bolt.for_each d b) → m.bolt.get d b k ≡ some v
  stored d k v i =
      sym (m.bolt.lookup-for_each d b k)
      ∙ In→lookup (m.bolt.for_each d b) k v (m.bolt.distinct_keys d b) i

  -- A scan of such a bucket succeeds.
  pub scan_keyed :
      (keep : A → Bool) (d : m.bolt.Db)
      → IsKeyed d
      → (xs : List A) × (scan c keep (m.bolt.for_each d b) ≡ ok xs)
  scan_keyed keep d keyed =
      scan_total c keep (m.bolt.for_each d b) (readable d keyed (m.bolt.for_each d b) (stored d))

  pub get_json_of_get :
      (k blob : Text) (d : m.bolt.Db)
      → m.bolt.get d b k ≡ some blob
      → get_json b c k d ≡ read_value c k blob
  unfolding get_json
  get_json_of_get k blob d g = rw g

  -- In a bucket whose every value decodes and stands under its own key, a value is in the
  -- result of a scan that succeeds exactly when its key reads it and it is wanted.
  pub scan_iff :
      (keep : A → Bool) (d : m.bolt.Db) (xs : List A) (a : A)
      → IsKeyed d
      → scan c keep (m.bolt.for_each d b) ≡ ok xs
      → In a xs ↔ ((get_json b c (key a) d ≡ ok a) × (keep a ≡ true))
  unfolding get_json
  scan_iff keep d xs a keyed h = (forward, backward)
    where
      forward : In a xs → (get_json b c (key a) d ≡ ok a) × (keep a ≡ true)
      forward i =
          let (e, j, r, t) = scan_sound c keep (m.bolt.for_each d b) xs a h i in
          let g = stored d e.0 e.1 j in
          let (a', r', under) = keyed.at e.0 e.1 g in
          let same : a ≡ a' = ok-injective (sym r ∙ r') in
          let k : key a ≡ e.0 = ap key same ∙ under in
          (get_json_of_get (key a) e.1 d (rw k g) ∙ rw k r, t)

      backward : (get_json b c (key a) d ≡ ok a) × (keep a ≡ true) → In a xs
      backward g = elim (Option-cases (m.bolt.get d b (key a))) [
        | inl absent ↦ let e = g.0 in cc (rw absent at e)
        | inr (blob, found) ↦
            scan_complete c keep (m.bolt.for_each d b) xs a (key a, blob) h
              (lookup→In (m.bolt.for_each d b) (key a) blob
                (m.bolt.lookup-for_each d b (key a) ∙ found))
              (sym (get_json_of_get (key a) blob d found) ∙ g.0) g.1
      ]
