-- ===== src/Engine/Visibility.antt =====
-- internal/engine/visibility.go: which artifacts a scope sees.
pub mod Sets
pub mod Views
pub mod Ancestors
use ioc.Base.{
  ℕ, zero, suc, Bool, true, false, not, ◌&&◌, ◌||◌, List, [], ◌∷◌, ◌++◌, ◌==◌, any, filter, length,
  Result, ok, err, internal, and_then, Text, if◌then◌else◌,
}
use ioc.Core.Types.{Ulid, is_zero, Scope, Artifact}
use ioc.Storage.Bolt.{scopes}
use ioc.Storage.Meta.{MetaEnv, get_scope, child_scopes, artifacts_in_scope}

-- the guards of `add`, beside the one on what is seen already; tier 0 lets every tier through
unfoldable pub accepts : ℕ → Bool → Artifact → Bool
accepts tier require_published a =
    (not require_published || a.published) && (tier == 0 || a.tier == tier)

-- `add`; the map `seen` holds the identifiers of `out`
unfoldable pub add : ℕ → Bool → List Artifact → Artifact → List Artifact
unfolding accepts
add tier require_published out a =
    if any (λ x. x.id == a.id) out
    then out
    else if accepts tier require_published a
    then out ++ (a ∷ [])
    else out

unfoldable pub add_all : ℕ → Bool → List Artifact → List Artifact → List Artifact
add_all tier require_published out [] = out
add_all tier require_published out (a ∷ as') =
    add_all tier require_published (add tier require_published out a) as'

-- the siblings in view: an archived one only on request
unfoldable pub in_view : Bool → Scope → Bool
in_view include_archived s = not s.archived || include_archived

module _ ⦃m : MetaEnv⦄ where
  -- the loop over scopes
  unfoldable pub add_scopes :
      ℕ → Bool → List Artifact → List Scope → m.bolt.Db → Result (List Artifact)
  add_scopes tier require_published out [] d = ok out
  add_scopes tier require_published out (s ∷ ss) d =
      and_then (artifacts_in_scope s.id d)
        (λ as'. add_scopes tier require_published (add_all tier require_published out as') ss d)

  -- the loop of `ancestorsOf` from `cur` on: it ends at the root, at a scope that was visited, and
  -- at one that does not read; out of fuel it fails
  unfoldable pub ancestor_loop : ℕ → List Ulid → Ulid → m.bolt.Db → Result (List Scope)
  ancestor_loop zero visited cur d = err internal
  ancestor_loop (suc fuel) visited cur d =
      if is_zero cur || any (λ k. k == cur) visited then ok [] else elim (get_scope cur d) [
        | ok p ↦ and_then (ancestor_loop fuel (cur ∷ visited) p.parent d) (λ rest. ok (p ∷ rest))
        | err e ↦ ok []
      ]

  -- each round visits one more stored scope, so their number and two more rounds are enough
  unfoldable pub ancestors_of : Ulid → m.bolt.Db → Result (List Scope)
  unfolding ancestor_loop
  ancestors_of scope d =
      and_then (get_scope scope d)
        (λ s. ancestor_loop (suc (suc (length (m.bolt.for_each d scopes)))) (scope ∷ []) s.parent d)

  unfoldable pub siblings_of : Ulid → m.bolt.Db → Result (List Scope)
  siblings_of scope d = and_then (get_scope scope d) (λ s.
      and_then (child_scopes s.parent d) (λ kids. ok (filter (λ k. not (k.id == scope)) kids)))

  -- `visibleArtifacts`
  unfoldable pub visible_artifacts : Ulid → ℕ → Bool → m.bolt.Db → Result (List Artifact)
  unfolding add_all add_scopes ancestors_of siblings_of in_view
  visible_artifacts scope tier include_archived d = and_then (artifacts_in_scope scope d) λ own.
      and_then (ancestors_of scope d) λ ancs.
        and_then (add_scopes tier false (add_all tier false [] own) ancs d) λ out.
          and_then (siblings_of scope d)
            λ sibs. add_scopes tier true out (filter (in_view include_archived) sibs) d
