-- ===== src/Engine/Integrity/Steps.antt =====
-- internal/engine: the integrity of the store after the loops of Push and Fork.
use ioc.Base.{
  is_utf8, All, true, ℕ, suc, List, [], ◌∷◌, ◌≡◌, refl, sym, subst, ◌∙◌, inl, inr, ok, pure,
  is_empty, Bool-cases, bind_keeps, In, ok-injective,
}
use ioc.Core.Types.{Ulid, Artifact, Edge, EdgeSpec}
use ioc.Storage.Meta.{MetaEnv, get_artifact, put_artifact}
use ioc.Storage.Meta.Values.{and_then-eq-ok}
use ioc.Storage.Meta.Records.{put_artifact_stored}
use ioc.Engine.Push.{
  superseded_with, load_supersede_targets, validate_relation_targets, mark_superseded_by,
  create_push_edges, commit_push,
}
use ioc.Engine.Branch.{fork_copies, forked_artifact}
use ioc.Engine.Integrity.{HasScope, HasArtifact, IsIntact}
use ioc.Engine.Integrity.Writes.{
  put_artifact-IsIntact, put_edge-IsIntact, put_artifact-HasScope, put_artifact-HasArtifact,
  put_edge-HasArtifact,
}

module _ ⦃m : MetaEnv⦄ where
  -- what the checks of a push establish
  pub load_targets_found :
      (ids : List Ulid) (d : m.bolt.Db) (ts : List Artifact)
      → load_supersede_targets ids d ≡ ok ts
      → (t : Artifact) → In t ts
      → (sid : Ulid) × (get_artifact sid d ≡ ok t)
  unfolding load_supersede_targets
  load_targets_found [] d ts h t i = elim (subst (In t) (sym (ok-injective h)) i) [ ]
  load_targets_found (sid ∷ ids) d ts h t i =
      let (a, p, h1) = and_then-eq-ok (get_artifact sid d) _ h in
      let (rest, q, h2) = and_then-eq-ok (load_supersede_targets ids d) _ h1 in
      let e : a ∷ rest ≡ ts = ok-injective h2 in
      elim (subst (In t) (sym e) i) [
        | inl here ↦ (sid, p ∙ sym (rw here))
        | inr there ↦ load_targets_found ids d rest q t there
      ]

  pub validated :
      (specs : List EdgeSpec) (d : m.bolt.Db)
      → validate_relation_targets specs d ≡ ok tt
      → (sp : EdgeSpec) → In sp specs
      → HasArtifact d sp.target
  unfolding validate_relation_targets
  validated [] d h sp i = elim i [ ]
  validated (x ∷ specs) d h sp i = elim (Bool-cases (is_empty x.kind)) [
    | inl bad ↦ cc (rw bad at h)
    | inr good ↦
        let (a, p, h1) = and_then-eq-ok (get_artifact x.target d) _ (rw good at h) in
        elim i [ inl here ↦ (a, rw here p) | inr there ↦ validated specs d h1 sp there ]
  ]

  pub mark-keeps :
      (P : m.bolt.Db → Type 0)
      → ((t : Artifact) (new : Ulid) (d : m.bolt.Db)
          → P d
          → P (put_artifact (superseded_with new t) d).1)
      → (ts : List Artifact) (new : Ulid) (d : m.bolt.Db) → P d
      → P (mark_superseded_by ts new d).1
  unfolding mark_superseded_by pure
  mark-keeps P step [] new d h = h
  mark-keeps P step (t ∷ ts) new d h =
      bind_keeps P _ _ d (step t new d h) λ u e. mark-keeps P step ts new _ (step t new d h)

  pub mark-IsIntact :
      (ts : List Artifact) (new : Ulid) (d : m.bolt.Db)
      → ((t : Artifact) → In t ts → HasScope d t.scope)
      → IsIntact d
      → IsIntact (mark_superseded_by ts new d).1
  unfolding mark_superseded_by pure
  mark-IsIntact [] new d homes h = h
  mark-IsIntact (t ∷ ts) new d homes h =
      let t' = superseded_with new t in
      let h' = put_artifact-IsIntact t' d (homes t (inl refl)) h in
      bind_keeps IsIntact _ _ d h' λ u e.
        mark-IsIntact ts new _ (λ x i. put_artifact-HasScope t' d x.scope (homes x (inr i))) h'

  pub create_push_edges-IsIntact :
      (from : Ulid) (now : ℕ) (specs : List EdgeSpec) (d : m.bolt.Db)
      → HasArtifact d from
      → ((sp : EdgeSpec) → In sp specs → HasArtifact d sp.target)
      → All (λ sp. is_utf8 sp.kind ≡ true) specs
      → IsIntact d
      → IsIntact (create_push_edges from now specs d).1
  unfolding create_push_edges pure
  create_push_edges-IsIntact from now [] d f ts clean h = h
  create_push_edges-IsIntact from now (sp ∷ specs) d f ts (clean, cleans) h =
      let e : Edge = record { from = from; to = sp.target; kind = sp.kind; created_at = now } in
      let h' = put_edge-IsIntact e d clean f (ts sp (inl refl)) h in
      bind_keeps IsIntact _ _ d h' λ u ok.
        create_push_edges-IsIntact from now specs _ (put_edge-HasArtifact e d from f)
          (λ x i. put_edge-HasArtifact e d x.target (ts x (inr i))) cleans h'

  pub commit_push-IsIntact :
      (a : Artifact) (ts : List Artifact) (now : ℕ) (specs : List EdgeSpec) (d : m.bolt.Db)
      → HasScope d a.scope
      → ((t : Artifact) → In t ts → HasScope d t.scope)
      → ((sp : EdgeSpec) → In sp specs → HasArtifact d sp.target)
      → All (λ sp. is_utf8 sp.kind ≡ true) specs
      → IsIntact d
      → IsIntact (commit_push a ts now specs d).1
  unfolding commit_push
  commit_push-IsIntact a ts now specs d home homes targets clean h =
      let h1 = put_artifact-IsIntact a d home h in
      bind_keeps IsIntact _ _ d h1 λ u stored.
        let d1 = (put_artifact a d).1 in
        let h2 =
          mark-IsIntact ts a.id d1 (λ t i. put_artifact-HasScope a d t.scope (homes t i)) h1 in
        let keep = λ (j : Ulid) (x : HasArtifact d1 j).
          mark-keeps (λ y. HasArtifact y j)
            (λ t new y k. put_artifact-HasArtifact (superseded_with new t) y j k) ts a.id d1 x in
        bind_keeps IsIntact _ _ d1 h2 λ u' marked.
          create_push_edges-IsIntact a.id now specs _
            (keep a.id (m.artifact_json.decoded a, put_artifact_stored a d stored))
            (λ sp i. keep sp.target (put_artifact-HasArtifact a d sp.target (targets sp i))) clean
            h2

  pub fork_copies-IsIntact :
      (scope : Ulid) (ids : ℕ → Ulid) (now i : ℕ) (as' : List Artifact) (d : m.bolt.Db)
      → HasScope d scope
      → IsIntact d
      → IsIntact (fork_copies scope ids now i as' d).1
  unfolding fork_copies pure forked_artifact
  fork_copies-IsIntact scope ids now i [] d home h = h
  fork_copies-IsIntact scope ids now i (a ∷ as') d home h = elim (Bool-cases a.published) [
    | inr skip ↦ rw skip (fork_copies-IsIntact scope ids now i as' d home h)
    | inl copy ↦
        let c = forked_artifact a scope (ids i) now in
        let h' = put_artifact-IsIntact c d home h in
        rw copy (
          bind_keeps IsIntact _ _ d h' λ u e.
            fork_copies-IsIntact scope ids now (suc i) as' _ (put_artifact-HasScope c d scope home)
              h')
  ]
