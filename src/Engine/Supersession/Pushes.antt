-- ===== src/Engine/Supersession/Pushes.antt =====
-- internal/engine/engine.go: the artifacts of the store after a Push.
use ioc.Base.{
  true, In, subst, ℕ, List, [], ◌∷◌, ◌≡◌, refl, sym, ap, ◌∙◌, inl, inr, Text, Result, ok, any, ◌==◌,
  pure, throw, >>=-eq-ok, bind_keeps, bind_ends, transact_keeps, Bool-cases, ok-injective, is_empty,
  if◌then◌else◌,
}
use ioc.Core.Types.{Ulid, Artifact, PushRequest, EdgeSpec, Edge}
use ioc.Storage.Bolt.{edges, artifacts}
use ioc.Storage.Meta.{MetaEnv, get_artifact, put_artifact, put_edge, edge_key}
use ioc.Storage.Meta.Frames.{SameBucket, put_json-SameBucket, get_json_same}
use ioc.Storage.Meta.Records.{get_artifact-put_artifact_utf8, get_artifact-is_utf8}
use ioc.Storage.Interfaces.{Blobs, Vectors, Embedder}
use ioc.Engine.State.{Engine, on_db, look}
use ioc.Engine.Push.{
  push, pushed, commit_push, mark_superseded_by, create_push_edges, load_supersede_targets,
  store_content,
}
use ioc.Core.Utf8.{is_utf8_artifact}
use ioc.Engine.Integrity.{IsIntact}
use ioc.Engine.Integrity.Steps.{load_targets_found}
use ioc.Engine.Integrity.Operations.{embedded, embed-IsIntact, store_content-db}
use ioc.Engine.Integrity.Embedding.{store_summary_embedding-SameRecords}
use ioc.Engine.Supersession.{mark_read, marked_read, get_artifact-mark, marked_read-load}

module _ ⦃m : MetaEnv⦄ where
  put_edge-artifacts : (e : Edge) (d : m.bolt.Db) → SameBucket artifacts d (put_edge e d).1
  unfolding put_edge
  put_edge-artifacts e d =
      transact_keeps (SameBucket artifacts d) _ d (λ k. refl)
        λ d' h. put_json-SameBucket edges artifacts m.edge_json (edge_key e) e d d' h refl

  create_push_edges-artifacts :
      (from : Ulid) (now : ℕ) (specs : List EdgeSpec) (d : m.bolt.Db)
      → SameBucket artifacts d (create_push_edges from now specs d).1
  unfolding create_push_edges pure
  create_push_edges-artifacts from now [] d k = refl
  create_push_edges-artifacts from now (sp ∷ specs) d k =
      let e : Edge = record { from = from; to = sp.target; kind = sp.kind; created_at = now } in
      let first = put_edge-artifacts e d in
      bind_keeps (SameBucket artifacts d) (put_edge e) _ d first
        (λ u h j. create_push_edges-artifacts from now specs _ j ∙ first j) k

  get_artifact_same :
      (d d' : m.bolt.Db)
      → SameBucket artifacts d d'
      → (j : Ulid) → get_artifact j d' ≡ get_artifact j d
  unfolding get_artifact
  get_artifact_same d d' same j = get_json_same artifacts m.artifact_json (m.ulids.text j) d d' same

  -- the writes of a push, where the targets were loaded from the database they go to
  commit_push-artifacts :
      (a : Artifact) (ids : List Ulid) (ts : List Artifact) (now : ℕ) (specs : List EdgeSpec)
      (d : m.bolt.Db)
      → IsIntact d
      → load_supersede_targets ids d ≡ ok ts
      → is_utf8_artifact a ≡ true
      → (commit_push a ts now specs d).0 ≡ ok tt
      → (j : Ulid)
      → get_artifact j (commit_push a ts now specs d).1 ≡ (
          if any (λ k. k == j) ids
          then mark_read a.id (get_artifact j d)
          else if a.id == j
          then ok a
          else get_artifact j d)
  unfolding commit_push
  commit_push-artifacts a ids ts now specs d h load clean done j =
      let (u1, p1, q1) = >>=-eq-ok (put_artifact a) _ d done in
      let d1 = (put_artifact a d).1 in
      let (u2, p2, q2) =
        >>=-eq-ok (mark_superseded_by ts a.id) _ d1 (sym (ap (λ x. x.0) q1) ∙ done) in
      let d2 = (mark_superseded_by ts a.id d1).1 in
      let loaded : (t : Artifact) → In t ts → is_utf8_artifact t ≡ true = λ t i.
        let (sid, g) = load_targets_found ids d ts load t i in get_artifact-is_utf8 sid d t g in
      ap (λ x. get_artifact j x.1) (q1 ∙ q2)
      ∙ (get_artifact_same d2 _ (create_push_edges-artifacts a.id now specs d2) j
          ∙ (get_artifact-mark ts a.id d1 loaded p2 j
              ∙ (ap (marked_read a.id j ts) (get_artifact-put_artifact_utf8 a d clean p1 j)
                  ∙ marked_read-load ids d ts a.id j _ h load)))

module _ ⦃m : MetaEnv⦄ ⦃b : Blobs⦄ ⦃v : Vectors⦄ ⦃em : Embedder⦄ where
  module _ (r : PushRequest) (id : Ulid) (j : Ulid) (before : m.bolt.Db) where
    -- how the artifacts of `e` come from those of the database before
    abbrev pub Pushed : Artifact → Engine → Type 0
    Pushed a e = get_artifact j e.db ≡ (
        if any (λ k. k == j) r.supersedes
        then mark_read id (get_artifact j before)
        else if id == j
        then ok a
        else get_artifact j before)

  -- A push into an intact store that succeeds, and whose artifact has a summary and metadata in UTF-8,
  -- stores its artifact under the new identifier, marks each artifact it names in `supersedes` as
  -- superseded by it, and changes no other artifact.
  pub push-artifacts :
      (r : PushRequest) (id : Ulid) (now : ℕ) (s : Engine) (a : Artifact)
      → IsIntact s.db
      → is_utf8_artifact a ≡ true
      → (push r id now s).0 ≡ ok a
      → (j : Ulid)
      → get_artifact j (push r id now s).1.db ≡ (
          if any (λ k. k == j) r.supersedes
          then mark_read id (get_artifact j s.db)
          else if id == j
          then ok a
          else get_artifact j s.db)
  unfolding push throw pure look on_db pushed
  push-artifacts r id now s a h clean done j = go done clean
    where
      P : Artifact → Engine → Type 0
      P x y = is_utf8_artifact x ≡ true → Pushed r id j s.db x y

      text : Text
      text = if is_empty r.embed_text then r.summary else r.embed_text

      s1 : Engine
      s1 = (store_content r.content s).1

      s2 : Engine
      s2 = embedded text s1

      h2 : IsIntact s2.db
      h2 = embed-IsIntact text s1 (rw (store_content-db r.content s) h)

      same : get_artifact j s2.db ≡ get_artifact j s.db
      same =
          get_artifact_same s1.db s2.db (store_summary_embedding-SameRecords text s1 artifacts refl)
            j
          ∙ ap (get_artifact j) (store_content-db r.content s)

      expected : Result Artifact → Artifact → Result Artifact
      expected before x =
          if any (λ k. k == j) r.supersedes
          then mark_read id before
          else if id == j
          then ok x
          else before

      go : (push r id now s).0 ≡ ok a → P a (push r id now s).1
      go = elim (Bool-cases (is_empty r.summary)) [
        | inl bad ↦ rw bad (λ x. cc)
        | inr good ↦ rw good (
            bind_ends P _ _ s
              (λ sc e1. bind_ends P _ _ s (λ content e2. bind_ends P _ _ s1 (λ ref e3.
                bind_ends P _ _ (embedded text s1) (λ ts e4.
                  bind_ends P _ _ (embedded text s1) (λ u e5.
                    bind_ends P _ _ (embedded text s1) (λ u' e6 b' e7 clean'.
                      let p = pushed r id now content ref in
                      let c =
                        commit_push-artifacts p r.supersedes ts now r.relations s2.db h2 e4
                          (subst (λ x. is_utf8_artifact x ≡ true) (sym (ok-injective e7)) clean') e6
                          j in
                      c
                      ∙ (ap (λ x. expected x p) same
                          ∙ ap (expected (get_artifact j s.db)) (ok-injective e7))))))))
              a)
      ]
