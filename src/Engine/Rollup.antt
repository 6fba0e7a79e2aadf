-- ===== src/Engine/Rollup.antt =====
-- internal/engine/rollup.go and visibility.go: the candidates of a query beyond the flat view.
pub mod Descendants
use ioc.Base.{
  ℕ, zero, suc, Bool, true, false, not, ◌&&◌, List, [], ◌∷◌, ◌++◌, ◌==◌, any, length, Result, ok,
  err, internal, and_then, Text, Option, none, some, leb, if◌then◌else◌,
}
use ioc.Core.Types.{Ulid, Scope, Artifact}
use ioc.Storage.Bolt.{scopes}
use ioc.Storage.Meta.{MetaEnv, child_scopes, artifacts_in_scope}
use ioc.Storage.Interfaces.{Blobs, Vectors}
use ioc.Search.{Ranked, search}
use ioc.Engine.State.{Engine}
use ioc.Engine.Visibility.{visible_artifacts, add_all}

-- the kids that were not visited, in order, and the visited with them
abbrev pub fresh_kids : List Ulid → List Scope → List Scope × List Ulid
fresh_kids visited [] = ([], visited)
fresh_kids visited (k ∷ ks) =
    let known = any (λ v. v == k.id) visited in
    let (new, seen) = fresh_kids (if known then visited else k.id ∷ visited) ks in
    (if known then new else k ∷ new, seen)

abbrev pub ids_of : List Scope → List Ulid
ids_of [] = []
ids_of (s ∷ ss) = s.id ∷ ids_of ss

-- Which scopes the coarse stage selects: the first `minK` anyway, later ones within the margin of the
-- top, `coarseK` at most; a text that is no identifier is passed over.
module _ ⦃m : MetaEnv⦄ where
  unfoldable pub select_coarse :
      ℕ → ℕ → m.floats.Float → List (Ranked m.floats.Float) → List Ulid → List Ulid
  select_coarse i coarse_k low [] selected = selected
  select_coarse i coarse_k low (r ∷ rs) selected =
      let next : List Ulid = elim (m.ulids.parse r.id) [
        | none ↦ selected
        | some id ↦ if any (λ k. k == id) selected then selected else selected ++ (id ∷ [])
      ] in
      let on = select_coarse (suc i) coarse_k low rs next in
      if leb coarse_k i
      then selected
      else if leb 3 i && m.floats.lt r.score low
      then selected
      else on

  -- the loop of `descendantScopes` over its queue; out of fuel it fails
  unfoldable pub descend : ℕ → List Ulid → List Ulid → m.bolt.Db → Result (List Scope)
  descend fuel visited [] d = ok []
  descend zero visited (cur ∷ queue) d = err internal
  descend (suc fuel) visited (cur ∷ queue) d = and_then (child_scopes cur d) λ kids.
      let (new, seen) = fresh_kids visited kids in
      and_then (descend fuel seen (queue ++ ids_of new) d) λ rest. ok (new ++ rest)

  -- each round takes one scope off the queue: the root, or a stored scope that is visited once
  unfoldable pub descendant_scopes : Ulid → m.bolt.Db → Result (List Scope)
  unfolding descend
  descendant_scopes root d =
      descend (suc (length (m.bolt.for_each d scopes))) (root ∷ []) (root ∷ []) d

  -- the loop over the scopes that are not archived, or all of them
  unfoldable pub add_descendants :
      ℕ → Bool → List Artifact → List Scope → m.bolt.Db → Result (List Artifact)
  unfolding add_all
  add_descendants tier archived out [] d = ok out
  add_descendants tier archived out (s ∷ ss) d = elim (s.archived && not archived) [
    | true ↦ add_descendants tier archived out ss d
    | false ↦
        and_then (artifacts_in_scope s.id d)
          λ as'. add_descendants tier archived (add_all tier false out as') ss d
  ]

  -- `collapsedCandidates`
  unfoldable pub collapsed_candidates : Ulid → ℕ → Bool → m.bolt.Db → Result (List Artifact)
  unfolding add_descendants descendant_scopes
  collapsed_candidates scope tier archived d =
      and_then (visible_artifacts scope tier archived d) λ out.
        and_then (descendant_scopes scope d) λ descs. add_descendants tier archived out descs d

  -- the artifacts of the selected scopes
  unfoldable pub add_selected : ℕ → List Artifact → List Ulid → m.bolt.Db → Result (List Artifact)
  unfolding add_all
  add_selected tier out [] d = ok out
  add_selected tier out (sid ∷ sids) d =
      and_then (artifacts_in_scope sid d)
        λ as'. add_selected tier (add_all tier false out as') sids d

  top_score : List (Ranked m.floats.Float) → m.floats.Float
  top_score [] = m.floats.decimal 0 0
  top_score (r ∷ rs) = r.score

module _ ⦃m : MetaEnv⦄ ⦃b : Blobs⦄ ⦃v : Vectors⦄ where
  -- a vector in the store; none where there is no store, no handle, or none that reads
  abbrev pub vector_of : ℕ → Option v.Store → Option (List ℕ)
  vector_of ref none = none
  vector_of ref (some es) =
      if ref == 0 then none else elim (v.get ref es) [ ok vec ↦ some vec | err e ↦ none ]

  -- the rollups that are ranked
  unfoldable pub rollup_set : Bool → List Scope → Engine → List (Text × List ℕ)
  rollup_set archived [] s = []
  rollup_set archived (sc ∷ scs) s =
      let rest = rollup_set archived scs s in
      if sc.archived && not archived then rest else elim (vector_of sc.rollup_emb_ref s.emb) [
        | none ↦ rest
        | some vec ↦ (m.ulids.text sc.id, vec) ∷ rest
      ]

  abbrev fine :
      Ulid → List ℕ → ℕ → ℕ → Bool → List (Text × List ℕ) → Engine → Result (List Artifact)
  fine viewpoint qvec coarse_k tier archived [] s = visible_artifacts viewpoint tier archived s.db
  fine viewpoint qvec coarse_k tier archived (e ∷ es) s =
      let ranked = search ⦃f = m.floats⦄ qvec (length (e ∷ es)) (e ∷ es) in
      let low = m.floats.sub (top_score ranked) (m.floats.decimal 5 2) in
      add_selected tier [] (select_coarse 0 coarse_k low ranked (viewpoint ∷ [])) s.db

  -- `coarseToFineCandidates`, the selected scopes in the order of their selection
  unfoldable pub coarse_to_fine_candidates :
      Ulid → List ℕ → ℕ → ℕ → Bool → Engine → Result (List Artifact)
  unfolding rollup_set select_coarse add_selected descendant_scopes search top_score
  coarse_to_fine_candidates viewpoint qvec coarse_k tier archived s =
      and_then (descendant_scopes viewpoint s.db) λ descs.
        fine viewpoint qvec (if coarse_k == 0 then 6 else coarse_k) tier archived
          (rollup_set archived descs s) s
