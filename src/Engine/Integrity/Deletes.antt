-- ===== src/Engine/Integrity/Deletes.antt =====
-- internal/storage/meta.go: the integrity of the store after a deletion.
use ioc.Base.{
  Bool, true, false, [], Text, ◌≡◌, refl, sym, ap, subst, ◌∙◌, inl, inr, Result, ok, err, not_found,
  text_eq, ◌==◌, Bool-cases, Option-cases, In, ok-injective, transact_keeps, if◌then◌else◌, arith,
  filter, In-filter,
}
use ioc.Core.Types.{Ulid, Scope, Artifact, Edge}
use ioc.Core.Ulid.{text-injective}
use ioc.Storage.Bolt.{Bucket, scopes, artifacts, edges}
use ioc.Storage.Meta.{
  MetaEnv, Codec, get_scope, get_artifact, get_json, edge_key, touches, delete_artifact,
  delete_scope, artifacts_in_scope, child_scopes, list_scopes,
}
use ioc.Storage.Meta.Values.{and_then-eq-ok, bucket_eq_refl}
use ioc.Storage.Meta.Tables.{IsKeyed, IsKeyed-frame, scan_iff}
use ioc.Storage.Meta.Frames.{delete-SameBucket, get_json_same, IsKeyed-same}
use ioc.Storage.Meta.Records.{text_eq-text, get_json_of_delete}
use ioc.Engine.Integrity.{HasScope, HasArtifact, IsIntact, scope_key, artifact_key}
use ioc.Engine.Integrity.Writes.{
  get_scope_same, get_artifact_same, HasScope-same, HasArtifact-same, HasParent-map,
}

-- a value read after a delete was there before, under another key
if-err-eq-ok {ℓ} :
    {A : Type ℓ} (t : Bool) (r : Result A) {a : A}
    → (if t then err not_found else r) ≡ ok a
    → (t ≡ false) × (r ≡ ok a)
if-err-eq-ok true r h = cc
if-err-eq-ok false r h = (refl, h)

module _ ⦃m : MetaEnv⦄ {A : Type 0} (b : Bucket) (c : Codec A) (key : A → Text)
    (d : m.bolt.Db) where
  -- what is read under a key has that key
  pub key_of_read : (k : Text) (a : A) → IsKeyed b c key d → get_json b c k d ≡ ok a → key a ≡ k
  unfolding get_json
  key_of_read k a keyed h = elim (Option-cases (m.bolt.get d b k)) [
    | inl absent ↦ cc (rw absent at h)
    | inr (blob, found) ↦
        let (a', r, e) = keyed.at k blob found in
        ap key (ok-injective (sym (rw found at h) ∙ r)) ∙ e
  ]

  IsKeyed-delete :
      (k : Text) (d' : m.bolt.Db)
      → m.bolt.delete d b k ≡ ok d'
      → IsKeyed b c key d
      → IsKeyed b c key d'
  IsKeyed-delete k d' p = IsKeyed-frame b c key d d' λ j. elim (Bool-cases (text_eq k j)) [
    | inl same ↦ inr (rw (m.bolt.get-delete d b k d' p b j, bucket_eq_refl b, same))
    | inr other ↦ inl (rw (m.bolt.get-delete d b k d' p b j, bucket_eq_refl b, other))
  ]

module _ ⦃m : MetaEnv⦄ where
  -- no edge has the artifact at an end
  abbrev pub NoEdges : m.bolt.Db → Ulid → Type 0
  NoEdges d id =
      (k : Text) (e : Edge) → get_json edges m.edge_json k d ≡ ok e → touches id e ≡ false

  pub get_artifact-id :
      (d : m.bolt.Db) (j : Ulid) (a : Artifact) → IsIntact d → get_artifact j d ≡ ok a → a.id ≡ j
  unfolding get_artifact
  get_artifact-id d j a h g =
      text-injective ⦃u = m.ulids⦄ a.id j (
        key_of_read artifacts m.artifact_json artifact_key d (m.ulids.text j) a h.artifacts_keyed g)

  pub get_scope-id :
      (d : m.bolt.Db) (j : Ulid) (s : Scope) → IsIntact d → get_scope j d ≡ ok s → s.id ≡ j
  unfolding get_scope
  get_scope-id d j s h g =
      text-injective ⦃u = m.ulids⦄ s.id j
        (key_of_read scopes m.scope_json scope_key d (m.ulids.text j) s h.scopes_keyed g)

  module _ (id : Ulid) (d d' : m.bolt.Db)
      (p : m.bolt.delete d artifacts (m.ulids.text id) ≡ ok d') where
    get_artifact_of_delete :
        (j : Ulid) → get_artifact j d' ≡ (if id == j then err not_found else get_artifact j d)
    unfolding get_artifact
    get_artifact_of_delete j = rw (
      get_json_of_delete artifacts m.artifact_json (m.ulids.text id) d d' p (m.ulids.text j),
      text_eq-text id j,
    )

    HasArtifact-other : (j : Ulid) → (j == id) ≡ false → HasArtifact d j → HasArtifact d' j
    HasArtifact-other j other h =
        let e : (id == j) ≡ false = ground (arith, other) in
        (h.0, rw (get_artifact_of_delete j, e) h.1)

    artifact_gone-IsIntact : NoEdges d id → IsIntact d → IsIntact d'
    artifact_gone-IsIntact free h =
        let ss = delete-SameBucket artifacts scopes (m.ulids.text id) d d' p refl in
        let se = delete-SameBucket artifacts edges (m.ulids.text id) d d' p refl in
        record {
          scopes_keyed = IsKeyed-same scopes m.scope_json scope_key d d' ss h.scopes_keyed;
          artifacts_keyed =
              IsKeyed-delete artifacts m.artifact_json artifact_key d (m.ulids.text id) d' p
                h.artifacts_keyed;
          edges_keyed = IsKeyed-same edges m.edge_json edge_key d d' se h.edges_keyed;
          parents = λ j s g.
              HasParent-map d d' (HasScope-same d d' ss) s.parent
                (h.parents j s (sym (get_scope_same d d' ss j) ∙ g));
          homes = λ j a g.
              let (other, old) =
                if-err-eq-ok (id == j) (get_artifact j d) (sym (get_artifact_of_delete j) ∙ g) in
              HasScope-same d d' ss a.scope (h.homes j a old);
          ends = λ k e g.
              let old = sym (get_json_same edges m.edge_json k d d' se) ∙ g in
              let (f, t) = h.ends k e old in
              let away = free k e old in
              (
                HasArtifact-other e.from (ground (arith, away)) f,
                HasArtifact-other e.to (ground (arith, away)) t,
              );
        }

  pub delete_artifact-IsIntact :
      (id : Ulid) (d : m.bolt.Db) → NoEdges d id → IsIntact d → IsIntact (delete_artifact id d).1
  unfolding delete_artifact
  delete_artifact-IsIntact id d free h =
      transact_keeps IsIntact _ d h λ d' p. artifact_gone-IsIntact id d d' p free h

  module _ (id : Ulid) (d d' : m.bolt.Db)
      (p : m.bolt.delete d scopes (m.ulids.text id) ≡ ok d') where
    get_scope_of_delete :
        (j : Ulid) → get_scope j d' ≡ (if id == j then err not_found else get_scope j d)
    unfolding get_scope
    get_scope_of_delete j = rw (
      get_json_of_delete scopes m.scope_json (m.ulids.text id) d d' p (m.ulids.text j),
      text_eq-text id j,
    )

    HasScope-other : (j : Ulid) → (j == id) ≡ false → HasScope d j → HasScope d' j
    HasScope-other j other h =
        let e : (id == j) ≡ false = ground (arith, other) in
        (h.0, rw (get_scope_of_delete j, e) h.1)

    scope_gone-IsIntact :
        ((j : Ulid) (s : Scope) → get_scope j d ≡ ok s → (s.parent == id) ≡ false)
        → ((j : Ulid) (a : Artifact) → get_artifact j d ≡ ok a → (a.scope == id) ≡ false)
        → IsIntact d
        → IsIntact d'
    scope_gone-IsIntact childless empty h =
        let sa = delete-SameBucket scopes artifacts (m.ulids.text id) d d' p refl in
        let se = delete-SameBucket scopes edges (m.ulids.text id) d d' p refl in
        record {
          scopes_keyed =
              IsKeyed-delete scopes m.scope_json scope_key d (m.ulids.text id) d' p h.scopes_keyed;
          artifacts_keyed =
              IsKeyed-same artifacts m.artifact_json artifact_key d d' sa h.artifacts_keyed;
          edges_keyed = IsKeyed-same edges m.edge_json edge_key d d' se h.edges_keyed;
          parents = λ j s g.
              let (other, old) =
                if-err-eq-ok (id == j) (get_scope j d) (sym (get_scope_of_delete j) ∙ g) in
              elim (h.parents j s old) [
                | inl root ↦ inl root
                | inr there ↦ inr (HasScope-other s.parent (childless j s old) there)
              ];
          homes = λ j a g.
              let old = sym (get_artifact_same d d' sa j) ∙ g in
              HasScope-other a.scope (empty j a old) (h.homes j a old);
          ends = λ k e g.
              let (f, t) = h.ends k e (sym (get_json_same edges m.edge_json k d d' se) ∙ g) in
              (HasArtifact-same d d' sa e.from f, HasArtifact-same d d' sa e.to t);
        }

  pub delete_scope-IsIntact :
      (id : Ulid) (d : m.bolt.Db)
      → ((j : Ulid) (s : Scope) → get_scope j d ≡ ok s → (s.parent == id) ≡ false)
      → ((j : Ulid) (a : Artifact) → get_artifact j d ≡ ok a → (a.scope == id) ≡ false)
      → IsIntact d
      → IsIntact (delete_scope id d).1
  unfolding delete_scope
  delete_scope-IsIntact id d childless empty h =
      transact_keeps IsIntact _ d h λ d' p. scope_gone-IsIntact id d d' p childless empty h

  -- an empty listing of a scope's artifacts means that no artifact is in it
  pub artifacts_in_scope_nil :
      (id : Ulid) (d : m.bolt.Db)
      → IsIntact d
      → artifacts_in_scope id d ≡ ok []
      → (j : Ulid) (a : Artifact) → get_artifact j d ≡ ok a
      → (a.scope == id) ≡ false
  unfolding artifacts_in_scope get_artifact
  artifacts_in_scope_nil id d h nil j a g = elim (Bool-cases (a.scope == id)) [
    | inr away ↦ away
    | inl here ↦
        let k =
          key_of_read artifacts m.artifact_json artifact_key d (m.ulids.text j) a h.artifacts_keyed
            g in
        elim ((scan_iff artifacts m.artifact_json artifact_key (λ x. x.scope == id) d [] a
            h.artifacts_keyed nil).1
          (rw k g, here)) [ ]
  ]

  pub child_scopes_nil :
      (id : Ulid) (d : m.bolt.Db)
      → IsIntact d
      → child_scopes id d ≡ ok []
      → (j : Ulid) (s : Scope) → get_scope j d ≡ ok s
      → (s.parent == id) ≡ false
  unfolding child_scopes list_scopes get_scope
  child_scopes_nil id d h nil j s g = elim (Bool-cases (s.parent == id)) [
    | inr away ↦ away
    | inl here ↦
        let (all, p, q) = and_then-eq-ok (list_scopes d) _ nil in
        let k = key_of_read scopes m.scope_json scope_key d (m.ulids.text j) s h.scopes_keyed g in
        let i =
          (scan_iff scopes m.scope_json scope_key (λ x. true) d all s h.scopes_keyed p).1
            (rw k g, refl) in
        let e : filter (λ x. x.parent == id) all ≡ [] = ok-injective q in
        elim (subst (In s) e (In-filter (λ x. x.parent == id) all s i here)) [ ]
  ]
