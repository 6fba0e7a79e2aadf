-- ===== src/Engine/Integrity/Writes.antt =====
-- internal/storage/meta.go: the integrity of the store after the write of one record.
use ioc.Base.{
  Bool, true, false, ◌≡◌, refl, sym, ap, subst, ◌∙◌, ◌⊎◌, inl, inr, Result, ok, text_eq, ◌==◌,
  ok-injective, transact_keeps, if◌then◌else◌,
}
use ioc.Core.Types.{Ulid, Scope, Artifact, Edge}
use ioc.Core.Utf8.{is_utf8_edge}
use ioc.Storage.Bolt.{scopes, artifacts, edges}
use ioc.Storage.Meta.{
  MetaEnv, get_scope, get_artifact, get_json, put_json, put_scope, put_artifact, put_edge, edge_key,
}
use ioc.Storage.Meta.Values.{get_json-put_json}
use ioc.Storage.Meta.Tables.{put_json-IsKeyed}
use ioc.Storage.Meta.Frames.{
  SameBucket, SameRecords, put_json-SameBucket, get_json_same, IsKeyed-same,
}
use ioc.Storage.Meta.Records.{get_scope_of_put, get_artifact_of_put}
use ioc.Engine.Integrity.{HasScope, HasArtifact, HasParent, IsIntact, scope_key, artifact_key}

-- A value read after a write of `x` is `x` or was there before.
pub if-eq-ok {ℓ} :
    {A : Type ℓ} (t : Bool) (x : A) (r : Result A) {a : A}
    → (if t then ok x else r) ≡ ok a
    → (x ≡ a) ⊎ (r ≡ ok a)
if-eq-ok true x r h = inl (ok-injective h)
if-eq-ok false x r h = inr h

-- and what was there before is there still, or is `x` now
pub if_ok {ℓ} :
    {A : Type ℓ} (t : Bool) (x : A) (r : Result A)
    → (a : A) × (r ≡ ok a)
    → (a : A) × ((if t then ok x else r) ≡ ok a)
if_ok true x r h = (x, refl)
if_ok false x r h = h

module _ ⦃m : MetaEnv⦄ where
  pub get_scope_same :
      (d d' : m.bolt.Db) → SameBucket scopes d d' → (j : Ulid) → get_scope j d' ≡ get_scope j d
  unfolding get_scope
  get_scope_same d d' same j = get_json_same scopes m.scope_json (m.ulids.text j) d d' same

  pub get_artifact_same :
      (d d' : m.bolt.Db)
      → SameBucket artifacts d d'
      → (j : Ulid) → get_artifact j d' ≡ get_artifact j d
  unfolding get_artifact
  get_artifact_same d d' same j = get_json_same artifacts m.artifact_json (m.ulids.text j) d d' same

  pub HasScope-same :
      (d d' : m.bolt.Db) → SameBucket scopes d d' → (j : Ulid) → HasScope d j → HasScope d' j
  HasScope-same d d' same j h = (h.0, get_scope_same d d' same j ∙ h.1)

  pub HasArtifact-same :
      (d d' : m.bolt.Db)
      → SameBucket artifacts d d'
      → (j : Ulid) → HasArtifact d j
      → HasArtifact d' j
  HasArtifact-same d d' same j h = (h.0, get_artifact_same d d' same j ∙ h.1)

  pub HasParent-map :
      (d d' : m.bolt.Db)
      → ((j : Ulid) → HasScope d j → HasScope d' j)
      → (p : Ulid) → HasParent d p
      → HasParent d' p
  HasParent-map d d' f p (inl z) = inl z
  HasParent-map d d' f p (inr h) = inr (f p h)

  -- a change of other buckets than those of the scopes, the artifacts and the edges
  pub SameBucket-IsIntact :
      (d d' : m.bolt.Db)
      → SameBucket scopes d d'
      → SameBucket artifacts d d'
      → SameBucket edges d d'
      → IsIntact d
      → IsIntact d'
  SameBucket-IsIntact d d' ss sa se h = record {
    scopes_keyed = IsKeyed-same scopes m.scope_json scope_key d d' ss h.scopes_keyed;
    artifacts_keyed = IsKeyed-same artifacts m.artifact_json artifact_key d d' sa h.artifacts_keyed;
    edges_keyed = IsKeyed-same edges m.edge_json edge_key d d' se h.edges_keyed;
    parents = λ id s g.
        HasParent-map d d' (HasScope-same d d' ss) s.parent
          (h.parents id s (sym (get_scope_same d d' ss id) ∙ g));
    homes = λ id a g.
        HasScope-same d d' ss a.scope (h.homes id a (sym (get_artifact_same d d' sa id) ∙ g));
    ends = λ k e g.
        let (f, t) = h.ends k e (sym (get_json_same edges m.edge_json k d d' se) ∙ g) in
        (HasArtifact-same d d' sa e.from f, HasArtifact-same d d' sa e.to t);
  }

  -- a change of the config bucket alone
  pub SameRecords-IsIntact : (d d' : m.bolt.Db) → SameRecords d d' → IsIntact d → IsIntact d'
  SameRecords-IsIntact d d' same h =
      SameBucket-IsIntact d d' (same scopes refl) (same artifacts refl) (same edges refl) h

  module _ (s : Scope) (d d' : m.bolt.Db)
      (p : put_json scopes m.scope_json (m.ulids.text s.id) s d ≡ ok d') where
    HasScope-grow : (j : Ulid) → HasScope d j → HasScope d' j
    HasScope-grow j h =
        rw (get_scope_of_put s d d' p j)
          (if_ok (s.id == j) (m.scope_json.decoded s) (get_scope j d) h)

    scope_IsIntact : HasParent d s.parent → IsIntact d → IsIntact d'
    scope_IsIntact parent h =
        let sa =
          put_json-SameBucket scopes artifacts m.scope_json (m.ulids.text s.id) s d d' p refl in
        let se = put_json-SameBucket scopes edges m.scope_json (m.ulids.text s.id) s d d' p refl in
        record {
          scopes_keyed =
              put_json-IsKeyed scopes m.scope_json scope_key s d d' p
                (ap m.ulids.text (m.decoded_scope s).0) h.scopes_keyed;
          artifacts_keyed =
              IsKeyed-same artifacts m.artifact_json artifact_key d d' sa h.artifacts_keyed;
          edges_keyed = IsKeyed-same edges m.edge_json edge_key d d' se h.edges_keyed;
          parents = λ id t g.
              HasParent-map d d' HasScope-grow t.parent
                (elim (if-eq-ok (s.id == id) (m.scope_json.decoded s) (get_scope id d)
                  (sym (get_scope_of_put s d d' p id) ∙ g)) [
                    | inl e ↦
                        subst (λ u. HasParent d u.parent) e
                          (subst (HasParent d) (sym (m.decoded_scope s).1) parent)
                    | inr old ↦ h.parents id t old
                  ]);
          homes = λ id a g.
              HasScope-grow a.scope (h.homes id a (sym (get_artifact_same d d' sa id) ∙ g));
          ends = λ k e g.
              let (f, t) = h.ends k e (sym (get_json_same edges m.edge_json k d d' se) ∙ g) in
              (HasArtifact-same d d' sa e.from f, HasArtifact-same d d' sa e.to t);
        }

  module _ (a : Artifact) (d d' : m.bolt.Db)
      (p : put_json artifacts m.artifact_json (m.ulids.text a.id) a d ≡ ok d') where
    HasArtifact-grow : (j : Ulid) → HasArtifact d j → HasArtifact d' j
    HasArtifact-grow j h =
        rw (get_artifact_of_put a d d' p j)
          (if_ok (a.id == j) (m.artifact_json.decoded a) (get_artifact j d) h)

    artifact_IsIntact : HasScope d a.scope → IsIntact d → IsIntact d'
    artifact_IsIntact home h =
        let ss =
          put_json-SameBucket artifacts scopes m.artifact_json (m.ulids.text a.id) a d d' p refl in
        let se =
          put_json-SameBucket artifacts edges m.artifact_json (m.ulids.text a.id) a d d' p refl in
        record {
          scopes_keyed = IsKeyed-same scopes m.scope_json scope_key d d' ss h.scopes_keyed;
          artifacts_keyed =
              put_json-IsKeyed artifacts m.artifact_json artifact_key a d d' p
                (ap m.ulids.text (m.decoded_artifact a).0) h.artifacts_keyed;
          edges_keyed = IsKeyed-same edges m.edge_json edge_key d d' se h.edges_keyed;
          parents = λ id s g.
              HasParent-map d d' (HasScope-same d d' ss) s.parent
                (h.parents id s (sym (get_scope_same d d' ss id) ∙ g));
          homes = λ id t g.
              HasScope-same d d' ss t.scope
                (elim (if-eq-ok (a.id == id) (m.artifact_json.decoded a) (get_artifact id d)
                  (sym (get_artifact_of_put a d d' p id) ∙ g)) [
                    | inl e ↦
                        subst (λ u. HasScope d u.scope) e
                          (subst (HasScope d) (sym (m.decoded_artifact a).1) home)
                    | inr old ↦ h.homes id t old
                  ]);
          ends = λ k e g.
              let (f, t) = h.ends k e (sym (get_json_same edges m.edge_json k d d' se) ∙ g) in
              (HasArtifact-grow e.from f, HasArtifact-grow e.to t);
        }

  edge_IsIntact :
      (e : Edge) (d d' : m.bolt.Db)
      → put_json edges m.edge_json (edge_key e) e d ≡ ok d'
      → is_utf8_edge e ≡ true
      → HasArtifact d e.from
      → HasArtifact d e.to
      → IsIntact d
      → IsIntact d'
  edge_IsIntact e d d' p clean from to h =
      let same = m.decoded_utf8_edge e clean in
      let ss = put_json-SameBucket edges scopes m.edge_json (edge_key e) e d d' p refl in
      let sa = put_json-SameBucket edges artifacts m.edge_json (edge_key e) e d d' p refl in
      record {
        scopes_keyed = IsKeyed-same scopes m.scope_json scope_key d d' ss h.scopes_keyed;
        artifacts_keyed =
            IsKeyed-same artifacts m.artifact_json artifact_key d d' sa h.artifacts_keyed;
        edges_keyed =
            put_json-IsKeyed edges m.edge_json edge_key e d d' p (ap edge_key same) h.edges_keyed;
        parents = λ id s g.
            HasParent-map d d' (HasScope-same d d' ss) s.parent
              (h.parents id s (sym (get_scope_same d d' ss id) ∙ g));
        homes = λ id a g.
            HasScope-same d d' ss a.scope (h.homes id a (sym (get_artifact_same d d' sa id) ∙ g));
        ends = λ k x g.
            let was =
              if-eq-ok (text_eq (edge_key e) k) (m.edge_json.decoded e)
                (get_json edges m.edge_json k d)
                (sym (get_json-put_json edges m.edge_json (edge_key e) e d d' p k) ∙ g) in
            let found : HasArtifact d x.from × HasArtifact d x.to = elim was [
              | inl q ↦
                  subst (λ y. HasArtifact d y.from × HasArtifact d y.to) (sym same ∙ q) (from, to)
              | inr old ↦ h.ends k x old
            ] in
            (HasArtifact-same d d' sa x.from found.0, HasArtifact-same d d' sa x.to found.1);
      }

  -- PutScope of a scope whose parent is no scope or exists, whether it succeeds or fails
  pub put_scope-IsIntact :
      (s : Scope) (d : m.bolt.Db) → HasParent d s.parent → IsIntact d → IsIntact (put_scope s d).1
  unfolding put_scope
  put_scope-IsIntact s d parent h =
      transact_keeps IsIntact _ d h λ d' p. scope_IsIntact s d d' p parent h

  pub put_artifact-IsIntact :
      (a : Artifact) (d : m.bolt.Db)
      → HasScope d a.scope
      → IsIntact d
      → IsIntact (put_artifact a d).1
  unfolding put_artifact
  put_artifact-IsIntact a d home h =
      transact_keeps IsIntact _ d h λ d' p. artifact_IsIntact a d d' p home h

  pub put_edge-IsIntact :
      (e : Edge) (d : m.bolt.Db)
      → is_utf8_edge e ≡ true
      → HasArtifact d e.from
      → HasArtifact d e.to
      → IsIntact d
      → IsIntact (put_edge e d).1
  unfolding put_edge
  put_edge-IsIntact e d clean from to h =
      transact_keeps IsIntact _ d h λ d' p. edge_IsIntact e d d' p clean from to h

  -- what exists goes on existing under each write
  pub put_scope-HasScope :
      (s : Scope) (d : m.bolt.Db) (j : Ulid) → HasScope d j → HasScope (put_scope s d).1 j
  unfolding put_scope
  put_scope-HasScope s d j h =
      transact_keeps (λ x. HasScope x j) _ d h λ d' p. HasScope-grow s d d' p j h

  pub put_artifact-HasScope :
      (a : Artifact) (d : m.bolt.Db) (j : Ulid) → HasScope d j → HasScope (put_artifact a d).1 j
  unfolding put_artifact
  put_artifact-HasScope a d j h =
      transact_keeps (λ x. HasScope x j) _ d h
        λ d' p.
          HasScope-same d d' (put_json-SameBucket artifacts scopes m.artifact_json _ a d d' p refl)
            j h

  pub put_artifact-HasArtifact :
      (a : Artifact) (d : m.bolt.Db) (j : Ulid)
      → HasArtifact d j
      → HasArtifact (put_artifact a d).1 j
  unfolding put_artifact
  put_artifact-HasArtifact a d j h =
      transact_keeps (λ x. HasArtifact x j) _ d h λ d' p. HasArtifact-grow a d d' p j h

  pub put_edge-HasArtifact :
      (e : Edge) (d : m.bolt.Db) (j : Ulid) → HasArtifact d j → HasArtifact (put_edge e d).1 j
  unfolding put_edge
  put_edge-HasArtifact e d j h =
      transact_keeps (λ x. HasArtifact x j) _ d h
        λ d' p.
          HasArtifact-same d d' (put_json-SameBucket edges artifacts m.edge_json _ e d d' p refl) j
            h
