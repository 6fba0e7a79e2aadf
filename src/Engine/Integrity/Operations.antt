-- ===== src/Engine/Integrity/Operations.antt =====
-- internal/engine: the integrity of the store after each operation but CrossVersion.
use ioc.Base.{
  is_utf8, All, ℕ, true, List, [], ◌∷◌, Text, ◌≡◌, refl, ap, ◌∙◌, inl, inr, Option, ok, Exec, pure,
  throw, is_empty, Bool-cases, Result-cases, bind_keeps, guard_keeps, ◌>>=◌, if◌then◌else◌, arith,
  In,
}
use ioc.Core.Types.{Ulid, Scope, Artifact, PushRequest, is_zero}
use ioc.Storage.Bolt.{scopes, artifacts}
use ioc.Storage.Meta.{MetaEnv, get_scope, put_scope, put_artifact}
use ioc.Storage.Meta.Records.{put_scope_stored}
use ioc.Storage.Interfaces.{Blobs, Vectors, Embedder}
use ioc.Engine.State.{
  Engine, look, look_keeps, on_db_keeps, store_summary_embedding, create_scope, created_scope,
  check_parent,
}
use ioc.Engine.Push.{push, pushed, supersede, publish, rollup_scope, superseded_with, store_content}
use ioc.Engine.Relations.{relate}
use ioc.Engine.Branch.{fork, forked_scope, consolidate, consolidated}
use ioc.Engine.Admin.{drop_artifact, drop_scope, is_nil}
use ioc.Engine.Integrity.{HasScope, HasArtifact, HasParent, IsIntact}
use ioc.Engine.Integrity.Embedding.{store_summary_embedding-SameRecords}
use ioc.Engine.Integrity.Writes.{
  HasScope-same, HasArtifact-same, HasParent-map, SameRecords-IsIntact, put_scope-IsIntact,
  put_artifact-IsIntact, put_edge-IsIntact, put_artifact-HasScope,
}
use ioc.Engine.Integrity.Steps.{
  load_targets_found, validated, mark-IsIntact, commit_push-IsIntact, fork_copies-IsIntact,
}
use ioc.Engine.Integrity.Deletes.{
  delete_artifact-IsIntact, delete_scope-IsIntact, artifacts_in_scope_nil, child_scopes_nil,
}
use ioc.Engine.Integrity.Edges.{delete_edges_for-IsIntact, delete_edges_for-NoEdges}

module _ ⦃m : MetaEnv⦄ ⦃b : Blobs⦄ ⦃v : Vectors⦄ ⦃em : Embedder⦄ where
  -- after an embedding, what existed exists and the metadata is intact
  module _ (text : Text) (s : Engine) where
    abbrev pub embedded : Engine
    embedded = (store_summary_embedding text s).1

    pub embed-HasScope : (j : Ulid) → HasScope s.db j → HasScope embedded.db j
    embed-HasScope =
        HasScope-same s.db embedded.db (store_summary_embedding-SameRecords text s scopes refl)

    pub embed-HasArtifact : (j : Ulid) → HasArtifact s.db j → HasArtifact embedded.db j
    embed-HasArtifact =
        HasArtifact-same s.db embedded.db
          (store_summary_embedding-SameRecords text s artifacts refl)

    pub embed-IsIntact : IsIntact s.db → IsIntact embedded.db
    embed-IsIntact =
        SameRecords-IsIntact s.db embedded.db (store_summary_embedding-SameRecords text s)

  pub store_content-db : (c : Option Text) (s : Engine) → (store_content c s).1.db ≡ s.db
  unfolding store_content
  store_content-db c s = ground arith

  check_parent_keeps :
      (P : m.bolt.Db → Type 0) (parent : Ulid) (k : Unit {0} → Exec Engine Scope) (s : Engine)
      → P s.db
      → (HasParent s.db parent → P (k tt s).1.db)
      → P ((check_parent parent >>= k) s).1.db
  unfolding check_parent ◌>>=◌
  check_parent_keeps P parent k s h rest = elim (Bool-cases (is_zero parent)) [
    | inl z ↦ rw (z, check_parent) (rest (inl z))
    | inr n ↦
        rw (n, check_parent)
          (elim (Result-cases (get_scope parent s.db)) [
            | inl (sc, p) ↦ rw (p, look) (rest (inr (sc, p)))
            | inr (e, p) ↦ rw (p, look) h
          ])
  ]

  -- CreateScope
  pub create_scope-IsIntact :
      (parent : Ulid) (role : ℕ) (title : Text) (id : Ulid) (now : ℕ) (s : Engine)
      → IsIntact s.db
      → IsIntact (create_scope parent role title id now s).1.db
  unfolding create_scope created_scope pure
  create_scope-IsIntact parent role title id now s h = check_parent_keeps IsIntact parent _ s h λ p.
      let done = put_scope-IsIntact (created_scope parent role title id now) s.db p h in
      on_db_keeps IsIntact _ _ s done λ u e. done

  -- Push
  pub push-IsIntact :
      (r : PushRequest) (id : Ulid) (now : ℕ) (s : Engine)
      → All (λ sp. is_utf8 sp.kind ≡ true) r.relations
      → IsIntact s.db
      → IsIntact (push r id now s).1.db
  unfolding push throw pushed pure
  push-IsIntact r id now s clean h = elim (Bool-cases (is_empty r.summary)) [
    | inl bad ↦ rw bad h
    | inr good ↦
        let text = if is_empty r.embed_text then r.summary else r.embed_text in
        let s1 = (store_content r.content s).1 in
        let same = store_content-db r.content s in
        let h1 : IsIntact s1.db = rw same h in
        let s2 = embedded text s1 in
        let h2 = embed-IsIntact text s1 h1 in
        rw good (
          look_keeps IsIntact _ _ s h λ sc e1.
            bind_keeps (λ x. IsIntact x.db) _ _ s h1
              λ content e2.
                bind_keeps (λ x. IsIntact x.db) _ _ s1 h2
                  λ ref e3. look_keeps IsIntact _ _ s2 h2 λ ts e4.
                    look_keeps IsIntact _ _ s2 h2 λ u e5.
                      let home = embed-HasScope text s1 r.scope (rw same (sc, e1)) in
                      let done =
                        commit_push-IsIntact (pushed r id now content ref) ts now r.relations s2.db
                          home
                          (λ t i.
                            let (sid, g) = load_targets_found r.supersedes s2.db ts e4 t i in
                            h2.homes sid t g)
                          (validated r.relations s2.db e5) clean h2 in
                      on_db_keeps IsIntact _ _ s2 done λ u' e6. done)
  ]

  -- Supersede
  pub supersede-IsIntact :
      (old replacement : Ulid) (s : Engine)
      → IsIntact s.db
      → IsIntact (supersede old replacement s).1.db
  unfolding supersede
  supersede-IsIntact old replacement s h =
      guard_keeps (λ x. IsIntact x.db) _ _ _ s h
        λ t. look_keeps IsIntact _ _ s h λ r e.
          look_keeps IsIntact _ _ s h
            λ a e2. put_artifact-IsIntact (superseded_with replacement a) s.db (h.homes old a e2) h

  -- Publish
  pub publish-IsIntact : (id : Ulid) (s : Engine) → IsIntact s.db → IsIntact (publish id s).1.db
  unfolding publish
  publish-IsIntact id s h =
      look_keeps IsIntact _ _ s h λ a e. put_artifact-IsIntact _ s.db (h.homes id a e) h

  -- RollupScope
  pub rollup_scope-IsIntact :
      (scope : Ulid) (summary : Text) (s : Engine)
      → IsIntact s.db
      → IsIntact (rollup_scope scope summary s).1.db
  unfolding rollup_scope
  rollup_scope-IsIntact scope summary s h =
      guard_keeps (λ x. IsIntact x.db) _ _ _ s h
        λ t. look_keeps IsIntact _ _ s h λ sc e.
          let s1 = embedded summary s in
          let h1 = embed-IsIntact summary s h in
          bind_keeps (λ x. IsIntact x.db) _ _ s h1
            λ ref e2.
              put_scope-IsIntact _ s1.db
                (HasParent-map s.db s1.db (embed-HasScope summary s) sc.parent
                  (h.parents scope sc e))
                h1

  -- Relate
  pub relate-IsIntact :
      (from to : Ulid) (kind : Text) (now : ℕ) (s : Engine)
      → is_utf8 kind ≡ true
      → IsIntact s.db
      → IsIntact (relate from to kind now s).1.db
  unfolding relate
  relate-IsIntact from to kind now s clean h =
      guard_keeps (λ x. IsIntact x.db) _ _ _ s h
        λ t.
          guard_keeps (λ x. IsIntact x.db) _ _ _ s h
            λ t2. look_keeps IsIntact _ _ s h λ a e.
              look_keeps IsIntact _ _ s h λ a2 e2. put_edge-IsIntact _ s.db clean (a, e) (a2, e2) h

  -- Fork
  pub fork-IsIntact :
      (source : Ulid) (title : Text) (id : Ulid) (ids : ℕ → Ulid) (now : ℕ) (s : Engine)
      → IsIntact s.db
      → IsIntact (fork source title id ids now s).1.db
  unfolding fork forked_scope pure
  fork-IsIntact source title id ids now s h = look_keeps IsIntact _ _ s h λ src e.
      let ns = forked_scope src source title id now in
      let h1 = put_scope-IsIntact ns s.db (h.parents source src e) h in
      on_db_keeps IsIntact _ _ s h1 λ u stored.
        let s1 = record s { db = (put_scope ns s.db).1 } in
        look_keeps IsIntact _ _ s1 h1 λ arts e2.
          let done =
            fork_copies-IsIntact id ids now 0 arts s1.db
              (m.scope_json.decoded ns, put_scope_stored ns s.db stored) h1 in
          on_db_keeps IsIntact _ _ s1 done λ u2 e3. done

  -- Consolidate
  consolidation_target :
      (d : m.bolt.Db) (scope : Ulid) (sc : Scope)
      → IsIntact d
      → get_scope scope d ≡ ok sc
      → HasScope d (if is_zero sc.parent then scope else sc.parent)
  consolidation_target d scope sc h e = elim (Bool-cases (is_zero sc.parent)) [
    | inl root ↦ rw root (sc, e)
    | inr child ↦ rw child (elim (h.parents scope sc e) [ inl root ↦ cc | inr there ↦ there ])
  ]

  pub consolidate-IsIntact :
      (scope : Ulid) (summary : Text) (supersedes : List Ulid) (id : Ulid) (now : ℕ) (s : Engine)
      → IsIntact s.db
      → IsIntact (consolidate scope summary supersedes id now s).1.db
  unfolding consolidate consolidated pure
  consolidate-IsIntact scope summary supersedes id now s h =
      guard_keeps (λ x. IsIntact x.db) _ _ _ s h
        λ t. look_keeps IsIntact _ _ s h λ sc e. look_keeps IsIntact _ _ s h λ ts e2.
          let s1 = embedded summary s in
          let h1 = embed-IsIntact summary s h in
          let target = if is_zero sc.parent then scope else sc.parent in
          bind_keeps (λ x. IsIntact x.db) _ _ s h1
            λ ref e3.
              let a = consolidated target summary supersedes id now ref in
              let home = embed-HasScope summary s target (consolidation_target s.db scope sc h e) in
              let h2 = put_artifact-IsIntact a s1.db home h1 in
              on_db_keeps IsIntact _ _ s1 h2 λ u e4.
                let d2 = (put_artifact a s1.db).1 in
                let homes = λ (t : Artifact) (i : In t ts). put_artifact-HasScope a s1.db t.scope (
                  embed-HasScope summary s t.scope (
                    let (sid, g) = load_targets_found supersedes s.db ts e2 t i in
                    h.homes sid t g)) in
                let done = mark-IsIntact ts id d2 homes h2 in
                on_db_keeps IsIntact _ _ (record s1 { db = d2 }) done λ u2 e5. done

  -- DeleteArtifact
  pub drop_artifact-IsIntact :
      (id : Ulid) (s : Engine) → IsIntact s.db → IsIntact (drop_artifact id s).1.db
  unfolding drop_artifact
  drop_artifact-IsIntact id s h =
      let h1 = delete_edges_for-IsIntact id s.db h in
      on_db_keeps IsIntact _ _ s h1
        λ u e. delete_artifact-IsIntact id _ (delete_edges_for-NoEdges id s.db e) h1

  nil_of_is_nil : {A : Type 0} (xs : List A) → is_nil xs ≡ true → xs ≡ []
  nil_of_is_nil [] h = refl
  nil_of_is_nil (x ∷ xs) h = cc

  -- DeleteScope
  pub drop_scope-IsIntact :
      (id : Ulid) (s : Engine) → IsIntact s.db → IsIntact (drop_scope id s).1.db
  unfolding drop_scope
  drop_scope-IsIntact id s h = look_keeps IsIntact _ _ s h λ arts e.
      guard_keeps (λ x. IsIntact x.db) _ _ _ s h
        λ empty. look_keeps IsIntact _ _ s h λ children e2.
          guard_keeps (λ x. IsIntact x.db) _ _ _ s h
            λ childless.
              delete_scope-IsIntact id s.db
                (child_scopes_nil id s.db h (e2 ∙ ap ok (nil_of_is_nil children childless)))
                (artifacts_in_scope_nil id s.db h (e ∙ ap ok (nil_of_is_nil arts empty))) h
