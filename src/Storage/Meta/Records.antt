-- ===== src/Storage/Meta/Records.antt =====
-- Reads of scopes, artifacts and edges after a write or a delete of one.
use ioc.Base.{
  Text, true, ap, Option-cases, ◌≡◌, sym, ◌∙◌, inl, inr, ok, err, transact-cases, not_found,
  text_eq, text_eq_iff, text_eq_refl, ◌==◌, ==_iff, ==_refl, Bool-cases, arith, if◌then◌else◌,
}
use ioc.Core.Types.{Ulid, Scope, Artifact}
use ioc.Core.Ulid.{text-injective}
use ioc.Core.Utf8.{is_utf8_artifact}
use ioc.Storage.Bolt.{Bucket, scopes, artifacts}
use ioc.Storage.Meta.{
  MetaEnv, Codec, read_value, decode_value, put_json, get_json, get_scope, get_artifact, put_scope,
  put_artifact,
}
use ioc.Storage.Meta.Values.{and_then-eq-ok, get_json-put_json, bucket_eq_refl}

-- Identifiers are equal exactly when their texts are.
module _ ⦃m : MetaEnv⦄ where
  pub text_eq-text : (a b : Ulid) → text_eq (m.ulids.text a) (m.ulids.text b) ≡ (a == b)
  text_eq-text a b = elim (Bool-cases (a == b)) [
    | inl same ↦ rw ((==_iff a b).0 same) (text_eq_refl (m.ulids.text b) ∙ sym (==_refl b))
    | inr other ↦ elim (Bool-cases (text_eq (m.ulids.text a) (m.ulids.text b))) [
      | inl e ↦ absurd (
          ground (
            arith,
            text-injective ⦃u = m.ulids⦄ a b ((text_eq_iff (m.ulids.text a) (m.ulids.text b)).0 e),
          ))
      | inr e ↦ rw (e, other)
    ]
  ]

  pub get_scope_of_put :
      (s : Scope) (d d' : m.bolt.Db)
      → put_json scopes m.scope_json (m.ulids.text s.id) s d ≡ ok d'
      → (j : Ulid)
      → get_scope j d' ≡ (if s.id == j then ok (m.scope_json.decoded s) else get_scope j d)
  unfolding get_scope
  get_scope_of_put s d d' h j = rw (
    get_json-put_json scopes m.scope_json (m.ulids.text s.id) s d d' h (m.ulids.text j),
    text_eq-text s.id j,
  )

  pub get_artifact_of_put :
      (a : Artifact) (d d' : m.bolt.Db)
      → put_json artifacts m.artifact_json (m.ulids.text a.id) a d ≡ ok d'
      → (j : Ulid)
      → get_artifact j d' ≡ (if a.id == j then ok (m.artifact_json.decoded a) else get_artifact j d)
  unfolding get_artifact
  get_artifact_of_put a d d' h j = rw (
    get_json-put_json artifacts m.artifact_json (m.ulids.text a.id) a d d' h (m.ulids.text j),
    text_eq-text a.id j,
  )

module _ ⦃m : MetaEnv⦄ {A : Type 0} where
  pub get_json_of_delete :
      (b : Bucket) (c : Codec A) (k : Text) (d d' : m.bolt.Db)
      → m.bolt.delete d b k ≡ ok d'
      → (j : Text) → get_json b c j d' ≡ (if text_eq k j then err not_found else get_json b c j d)
  unfolding get_json
  get_json_of_delete b c k d d' p j =
      rw (m.bolt.get-delete d b k d' p b j, bucket_eq_refl b)
        (elim (Bool-cases (text_eq k j)) [ inl same ↦ rw same | inr other ↦ rw other ])

module _ ⦃m : MetaEnv⦄ where
  -- PutArtifact: a success stores the artifact, and no other changes
  pub get_artifact-put_artifact :
      (a : Artifact) (d : m.bolt.Db)
      → (put_artifact a d).0 ≡ ok tt
      → (j : Ulid)
      → get_artifact j (put_artifact a d).1
        ≡ (if a.id == j then ok (m.artifact_json.decoded a) else get_artifact j d)
  unfolding put_artifact
  get_artifact-put_artifact a d h j =
      elim (transact-cases (put_json artifacts m.artifact_json (m.ulids.text a.id) a) d) [
        | inl (d', p, q) ↦ rw q (get_artifact_of_put a d d' p j)
        | inr (e, p, q) ↦ cc
      ]

  -- an artifact whose strings are UTF-8 reads back as it was
  pub get_artifact-put_artifact_utf8 :
      (a : Artifact) (d : m.bolt.Db)
      → is_utf8_artifact a ≡ true
      → (put_artifact a d).0 ≡ ok tt
      → (j : Ulid)
      → get_artifact j (put_artifact a d).1 ≡ (if a.id == j then ok a else get_artifact j d)
  get_artifact-put_artifact_utf8 a d clean h j =
      get_artifact-put_artifact a d h j
      ∙ ap (λ x. if a.id == j then ok x else get_artifact j d) (m.decoded_utf8_artifact a clean)

  -- what is read has strings that are UTF-8
  pub get_artifact-is_utf8 :
      (j : Ulid) (d : m.bolt.Db) (a : Artifact)
      → get_artifact j d ≡ ok a
      → is_utf8_artifact a ≡ true
  unfolding get_artifact get_json read_value
  get_artifact-is_utf8 j d a h = elim (Option-cases (m.bolt.get d artifacts (m.ulids.text j))) [
    | inl e ↦ let g = rw (get_artifact, e) at h in cc
    | inr (blob, e) ↦
        let (plain, p, q) =
          and_then-eq-ok (decode_value (m.ulids.text j) blob) m.artifact_json.unmarshal
            (rw (get_artifact, e) at h) in
        m.unmarshal_artifact plain a q
  ]

  pub put_artifact_stored :
      (a : Artifact) (d : m.bolt.Db)
      → (put_artifact a d).0 ≡ ok tt
      → get_artifact a.id (put_artifact a d).1 ≡ ok (m.artifact_json.decoded a)
  put_artifact_stored a d h = rw (get_artifact-put_artifact a d h a.id, ==_refl a.id)

  pub get_scope-put_scope :
      (s : Scope) (d : m.bolt.Db)
      → (put_scope s d).0 ≡ ok tt
      → (j : Ulid)
      → get_scope j (put_scope s d).1
        ≡ (if s.id == j then ok (m.scope_json.decoded s) else get_scope j d)
  unfolding put_scope
  get_scope-put_scope s d h j =
      elim (transact-cases (put_json scopes m.scope_json (m.ulids.text s.id) s) d) [
        | inl (d', p, q) ↦ rw q (get_scope_of_put s d d' p j)
        | inr (e, p, q) ↦ cc
      ]

  pub put_scope_stored :
      (s : Scope) (d : m.bolt.Db)
      → (put_scope s d).0 ≡ ok tt
      → get_scope s.id (put_scope s d).1 ≡ ok (m.scope_json.decoded s)
  put_scope_stored s d h = rw (get_scope-put_scope s d h s.id, ==_refl s.id)
