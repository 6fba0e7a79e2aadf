-- ===== src/Engine/Visibility/Ancestors.antt =====
-- internal/engine/visibility.go: the walk of ancestorsOf and its end.
use ioc.Base.{
  Error, some, ℕ, zero, suc, ◌≤◌, ◌<◌, true, false, List, [], ◌∷◌, ◌==◌, any, length, ok, err, Text,
  ◌≡◌, refl, ◌∙◌, inl, inr, ◌⊎◌, arith, Bool-cases, Option-cases, Result-cases, filter, text_eq,
}
use ioc.Core.Types.{Ulid, Scope, is_zero, lookup}
use ioc.Core.Maps.{strip, lookup-strip}
use ioc.Storage.Meta.Records.{text_eq-text}
use ioc.Storage.Bolt.{scopes}
use ioc.Storage.Meta.{MetaEnv, get_scope, get_json}
use ioc.Engine.Visibility.{ancestor_loop, ancestors_of}

-- the entries whose keys are not among the visited identifiers' texts
module _ ⦃m : MetaEnv⦄ where
  unfoldable pub unvisited : List Ulid → List (Text × Text) → List (Text × Text)
  unvisited [] es = es
  unvisited (k ∷ visited) es = strip (m.ulids.text k) (unvisited visited es)

  pub length-strip : (k : Text) (es : List (Text × Text)) → length (strip k es) ≤ length es
  unfolding strip filter
  length-strip k [] = omega arith
  length-strip k ((j, v) ∷ es) = ground (arith, length-strip k es)

  pub length-strip_found :
      (k v : Text) (es : List (Text × Text))
      → lookup k es ≡ some v
      → length (strip k es) < length es
  unfolding strip filter lookup
  length-strip_found k v [] h = cc
  length-strip_found k v ((j, w) ∷ es) h = elim (Bool-cases (text_eq j k)) [
    | inl here ↦ rw here (omega (arith, length-strip k es))
    | inr there ↦ rw there (omega (arith, length-strip_found k v es (rw there at h)))
  ]

  pub lookup-unvisited :
      (visited : List Ulid) (cur : Ulid) (es : List (Text × Text))
      → any (λ k. k == cur) visited ≡ false
      → lookup (m.ulids.text cur) (unvisited visited es) ≡ lookup (m.ulids.text cur) es
  unfolding any unvisited
  lookup-unvisited [] cur es h = refl
  lookup-unvisited (k ∷ visited) cur es h = ground (
    arith,
    lookup-strip (m.ulids.text k) (m.ulids.text cur) (unvisited visited es),
    text_eq-text k cur,
    lookup-unvisited visited cur es,
  )

  -- a scope that reads has an entry
  pub scope_entry :
      (cur : Ulid) (p : Scope) (d : m.bolt.Db)
      → get_scope cur d ≡ ok p
      → (blob : Text) × (lookup (m.ulids.text cur) (m.bolt.for_each d scopes) ≡ some blob)
  unfolding get_scope get_json
  scope_entry cur p d h = elim (Option-cases (m.bolt.get d scopes (m.ulids.text cur))) [
    | inl none_ ↦ cc (rw none_ at h)
    | inr (blob, found) ↦ (blob, m.bolt.lookup-for_each d scopes (m.ulids.text cur) ∙ found)
  ]

  -- where the walk ends: at the root, at a scope that was visited, at one that does not read
  abbrev pub Ends : m.bolt.Db → List Ulid → Ulid → Type 0
  Ends d visited cur =
      (is_zero cur ≡ true)
      ⊎ ((any (λ k. k == cur) visited ≡ true) ⊎ ((e : Error) × (get_scope cur d ≡ err e)))

  -- the scopes from `cur` up, each the parent of the one before, none of them twice
  abbrev pub Lineage : m.bolt.Db → List Ulid → Ulid → List Scope → Type 0
  Lineage d visited cur [] = Ends d visited cur
  Lineage d visited cur (p ∷ ps) =
      (get_scope cur d ≡ ok p)
      × (any (λ k. k == cur) visited ≡ false)
      × Lineage d (cur ∷ visited) p.parent ps

  ancestor_loop-Lineage :
      (fuel : ℕ) (visited : List Ulid) (cur : Ulid) (d : m.bolt.Db)
      → length (unvisited visited (m.bolt.for_each d scopes)) < fuel
      → (out : List Scope) × (ancestor_loop fuel visited cur d ≡ ok out) × Lineage d visited cur out
  unfolding ancestor_loop unvisited
  ancestor_loop-Lineage zero visited cur d h = absurd (omega (arith, h))
  ancestor_loop-Lineage (suc fuel) visited cur d h = elim (Bool-cases (is_zero cur)) [
    | inl root ↦ ([], rw root refl, inl root)
    | inr n ↦ elim (Bool-cases (any (λ k. k == cur) visited)) [
      | inl seen ↦ ([], rw (n, seen) refl, inr (inl seen))
      | inr new ↦ elim (Result-cases (get_scope cur d)) [
        | inr (e, g) ↦ ([], rw (n, new, g) refl, inr (inr (e, g)))
        | inl (p, g) ↦
            let es = m.bolt.for_each d scopes in
            let (blob, entry) = scope_entry cur p d g in
            let less =
              length-strip_found (m.ulids.text cur) blob (unvisited visited es)
                (lookup-unvisited visited cur es new ∙ entry) in
            let (rest, q, l) =
              ancestor_loop-Lineage fuel (cur ∷ visited) p.parent d (omega (arith, less, h)) in
            (p ∷ rest, rw (n, new, g, q) refl, (g, new, l))
      ]
    ]
  ]

  -- For every scope that reads, whatever the store holds, the walk up its parents ends with the
  -- lineage of the scope: it follows the parents, visits no scope twice, and stops only at the
  -- root, at a scope it has visited or at one that does not read.
  pub ancestors_of-Lineage :
      (scope : Ulid) (s : Scope) (d : m.bolt.Db)
      → get_scope scope d ≡ ok s
      → (out : List Scope) × (ancestors_of scope d ≡ ok out) × Lineage d (scope ∷ []) s.parent out
  unfolding ancestors_of unvisited
  ancestors_of-Lineage scope s d g =
      let es = m.bolt.for_each d scopes in
      let (out, p, l) =
        ancestor_loop-Lineage (suc (suc (length es))) (scope ∷ []) s.parent d
          (omega (arith, length-strip (m.ulids.text scope) es)) in
      (out, rw g p, l)
