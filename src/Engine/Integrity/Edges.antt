-- ===== src/Engine/Integrity/Edges.antt =====
-- internal/storage/meta.go, DeleteEdgesFor: the edges and the other records after it.
use ioc.Base.{
  true, false, List, [], ◌∷◌, Text, ◌≡◌, refl, sym, ap, subst, ◌∙◌, ◌⊎◌, inl, inr, none, some, ok,
  text_eq, text_eq_refl, Bool-cases, Option-cases, In, In-if_head, In-if_tail, ok-injective,
  transact-cases, transact_keeps, and_then, if◌then◌else◌,
}
use ioc.Core.Types.{Ulid, Edge}
use ioc.Storage.Bolt.{Bucket, scopes, artifacts, edges, bucket_eq}
use ioc.Storage.Meta.{
  MetaEnv, get_json, read_value, edge_key, touches, edge_keys_for, delete_keys, delete_edges_for,
}
use ioc.Storage.Meta.Values.{and_then-eq-ok}
use ioc.Storage.Meta.Scans.{lookup→In}
use ioc.Storage.Meta.Tables.{IsKeyed-frame, get_json_of_get}
use ioc.Storage.Meta.Frames.{SameBucket, delete-SameBucket, IsKeyed-same}
use ioc.Engine.Integrity.{IsIntact, scope_key, artifact_key}
use ioc.Engine.Integrity.Writes.{
  get_scope_same, get_artifact_same, HasScope-same, HasArtifact-same, HasParent-map,
}
use ioc.Engine.Integrity.Deletes.{NoEdges}

module _ ⦃m : MetaEnv⦄ where
  delete_keys-SameBucket :
      (ks : List Text) (d d' : m.bolt.Db)
      → delete_keys ks d ≡ ok d'
      → (b : Bucket) → bucket_eq edges b ≡ false
      → SameBucket b d d'
  unfolding delete_keys
  delete_keys-SameBucket [] d d' h b other k = ap (λ x. m.bolt.get x b k) (sym (ok-injective h))
  delete_keys-SameBucket (j ∷ ks) d d' h b other k =
      let (x, p, q) = and_then-eq-ok (m.bolt.delete d edges j) (delete_keys ks) h in
      delete_keys-SameBucket ks x d' q b other k ∙ delete-SameBucket edges b j d x p other k

  -- a key is kept with its value, or gone
  delete_keys_shrink :
      (ks : List Text) (d d' : m.bolt.Db)
      → delete_keys ks d ≡ ok d'
      → (k : Text) → (m.bolt.get d' edges k ≡ m.bolt.get d edges k) ⊎ (m.bolt.get d' edges k ≡ none)
  unfolding delete_keys
  delete_keys_shrink [] d d' h k = inl (ap (λ x. m.bolt.get x edges k) (sym (ok-injective h)))
  delete_keys_shrink (j ∷ ks) d d' h k =
      let (x, p, q) = and_then-eq-ok (m.bolt.delete d edges j) (delete_keys ks) h in
      elim (delete_keys_shrink ks x d' q k) [
        | inr gone ↦ inr gone
        | inl kept ↦ elim (Bool-cases (text_eq j k)) [
          | inl same ↦ inr (kept ∙ rw (m.bolt.get-delete d edges j x p edges k, same))
          | inr other ↦ inl (kept ∙ rw (m.bolt.get-delete d edges j x p edges k, other))
        ]
      ]

  -- the keys given are gone
  delete_keys_gone :
      (ks : List Text) (d d' : m.bolt.Db)
      → delete_keys ks d ≡ ok d'
      → (k : Text) → In k ks
      → m.bolt.get d' edges k ≡ none
  unfolding delete_keys
  delete_keys_gone [] d d' h k i = elim i [ ]
  delete_keys_gone (j ∷ ks) d d' h k (inl e) =
      let (x, p, q) = and_then-eq-ok (m.bolt.delete d edges j) (delete_keys ks) h in
      let gone : m.bolt.get x edges k ≡ none =
        rw (m.bolt.get-delete d edges j x p edges k, e, text_eq_refl j) in
      elim (delete_keys_shrink ks x d' q k) [ inl kept ↦ kept ∙ gone | inr r ↦ r ]
  delete_keys_gone (j ∷ ks) d d' h k (inr i) =
      let (x, p, q) = and_then-eq-ok (m.bolt.delete d edges j) (delete_keys ks) h in
      delete_keys_gone ks x d' q k i

  -- the keys collected are those of every edge that touches the artifact
  edge_keys_complete :
      (id : Ulid) (es : List (Text × Text)) (ks : List Text)
      → edge_keys_for id es ≡ ok ks
      → (k v : Text) (e : Edge) → In (k, v) es
      → read_value m.edge_json k v ≡ ok e
      → touches id e ≡ true
      → In k ks
  unfolding edge_keys_for
  edge_keys_complete id [] ks h k v e i r t = elim i [ ]
  edge_keys_complete id ((j, w) ∷ es) ks h k v e i r t =
      let (x, p, h1) = and_then-eq-ok (read_value m.edge_json j w) _ h in
      let (rest, q, h2) = and_then-eq-ok (edge_keys_for id es) _ h1 in
      let found : (if touches id x then j ∷ rest else rest) ≡ ks = ok-injective h2 in
      subst (In k) found (elim i [
        | inl here ↦
            let same : x ≡ e =
              ok-injective (
                sym p
                ∙ (ap (λ (f : Text × Text). read_value m.edge_json f.0 f.1) (sym here) ∙ r)) in
            let key : j ≡ k = ap (λ (f : Text × Text). f.0) (sym here) in
            subst (λ y. In y (if touches id x then j ∷ rest else rest)) key
              (In-if_head (touches id x) j rest (ap (touches id) same ∙ t))
        | inr there ↦
            In-if_tail (touches id x) k j rest (edge_keys_complete id es rest q k v e there r t)
      ])

  module _ (id : Ulid) (ks : List Text) (d d' : m.bolt.Db)
      (collected : edge_keys_for id (m.bolt.for_each d edges) ≡ ok ks)
      (deleted : delete_keys ks d ≡ ok d') where
    spared :
        (k blob : Text) (e : Edge)
        → m.bolt.get d' edges k ≡ some blob
        → m.bolt.get d edges k ≡ some blob
        → read_value m.edge_json k blob ≡ ok e
        → touches id e ≡ false
    spared k blob e found was r = elim (Bool-cases (touches id e)) [
      | inr away ↦ away
      | inl near ↦
          let i =
            lookup→In (m.bolt.for_each d edges) k blob (m.bolt.lookup-for_each d edges k ∙ was) in
          let gone =
            delete_keys_gone ks d d' deleted k
              (edge_keys_complete id (m.bolt.for_each d edges) ks collected k blob e i r near) in
          cc
    ]

    -- an edge that is left was there before, and does not touch the artifact
    left_edge :
        (k : Text) (e : Edge)
        → get_json edges m.edge_json k d' ≡ ok e
        → (get_json edges m.edge_json k d ≡ ok e) × (touches id e ≡ false)
    unfolding get_json
    left_edge k e g = elim (Option-cases (m.bolt.get d' edges k)) [
      | inl absent ↦ cc (rw (absent, get_json) at g)
      | inr (blob, found) ↦ elim (delete_keys_shrink ks d d' deleted k) [
        | inr gone ↦ cc
        | inl kept ↦
            let was : m.bolt.get d edges k ≡ some blob = sym kept ∙ found in
            let r : read_value m.edge_json k blob ≡ ok e =
              sym (get_json_of_get edges m.edge_json edge_key k blob d' found) ∙ g in
            (
              get_json_of_get edges m.edge_json edge_key k blob d was ∙ r,
              spared k blob e found was r,
            )
      ]
    ]

    edges_gone-IsIntact : IsIntact d → IsIntact d'
    edges_gone-IsIntact h =
        let ss = delete_keys-SameBucket ks d d' deleted scopes refl in
        let sa = delete_keys-SameBucket ks d d' deleted artifacts refl in
        record {
          scopes_keyed = IsKeyed-same scopes m.scope_json scope_key d d' ss h.scopes_keyed;
          artifacts_keyed =
              IsKeyed-same artifacts m.artifact_json artifact_key d d' sa h.artifacts_keyed;
          edges_keyed =
              IsKeyed-frame edges m.edge_json edge_key d d' (delete_keys_shrink ks d d' deleted)
                h.edges_keyed;
          parents = λ j s g.
              HasParent-map d d' (HasScope-same d d' ss) s.parent
                (h.parents j s (sym (get_scope_same d d' ss j) ∙ g));
          homes = λ j a g.
              HasScope-same d d' ss a.scope (h.homes j a (sym (get_artifact_same d d' sa j) ∙ g));
          ends = λ k e g.
              let (f, t) = h.ends k e (left_edge k e g).0 in
              (HasArtifact-same d d' sa e.from f, HasArtifact-same d d' sa e.to t);
        }

  -- DeleteEdgesFor keeps the integrity, and where it succeeds no edge touches the artifact.
  pub delete_edges_for-IsIntact :
      (id : Ulid) (d : m.bolt.Db) → IsIntact d → IsIntact (delete_edges_for id d).1
  unfolding delete_edges_for
  delete_edges_for-IsIntact id d h = transact_keeps IsIntact _ d h λ d' p.
      let (ks, c, del) = and_then-eq-ok (edge_keys_for id (m.bolt.for_each d edges)) _ p in
      edges_gone-IsIntact id ks d d' c del h

  -- After DeleteEdgesFor succeeds, no edge that is stored has the artifact at either end.
  pub delete_edges_for-NoEdges :
      (id : Ulid) (d : m.bolt.Db)
      → (delete_edges_for id d).0 ≡ ok tt
      → NoEdges (delete_edges_for id d).1 id
  unfolding delete_edges_for
  delete_edges_for-NoEdges id d h =
      elim (transact-cases
        (λ x. and_then (edge_keys_for id (m.bolt.for_each x edges)) (λ ks. delete_keys ks x)) d) [
          | inl (d', p, q) ↦
              let (ks, c, del) = and_then-eq-ok (edge_keys_for id (m.bolt.for_each d edges)) _ p in
              rw q (λ k e g. (left_edge id ks d d' c del k e g).1)
          | inr (x, p, q) ↦ cc
        ]
