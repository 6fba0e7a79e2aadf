-- ===== src/Engine/Reading/Walks.antt =====
-- internal/engine/relations.go: what Related returns.
use ioc.Base.{
  ℕ, zero, suc, true, false, not, List, [], ◌∷◌, Text, ◌≡◌, ◌≢◌, refl, sym, subst, ap, ◌∙◌, inl,
  inr, ok, and_then, any, ◌==◌, ==_refl, In, In-append, Bool-cases, Result-cases, ok-injective,
  arith, if◌then◌else◌,
}
use ioc.Core.Types.{Ulid, is_zero, Artifact, Edge, Hit, detail_overview}
use ioc.Storage.Meta.{MetaEnv, get_artifact}
use ioc.Storage.Meta.Values.{and_then-eq-ok}
use ioc.Storage.Interfaces.{Blobs, Vectors}
use ioc.Engine.State.{Engine}
use ioc.Engine.Integrity.{IsIntact}
use ioc.Engine.Integrity.Deletes.{get_artifact-id}
use ioc.Engine.Reading.{
  Walk, neighbour, kind_ok, visit, visit_all, edges_at, walk_level, walk, first_walk, hit_of,
  build_hit, scope_path, related_hits, related,
}

-- the start is visited, and not among the identifiers found
abbrev Avoids : Ulid → Walk → Type 0
Avoids start w =
    (any (λ k. k == start) w.visited ≡ true) × ((id : Ulid) → In id w.order → id ≢ start)

visit-Avoids :
    (kinds : List Text) (cur start : Ulid) (w : Walk) (ed : Edge)
    → Avoids start w
    → Avoids start (visit kinds cur w ed)
unfolding visit any
visit-Avoids kinds cur start w ed (seen, out) = elim (Bool-cases (not (kind_ok kinds ed.kind))) [
  | inl skip ↦ rw skip (seen, out)
  | inr wanted ↦ elim (Bool-cases (any (λ k. k == neighbour cur ed) w.visited)) [
    | inl old ↦ rw (wanted, old) (seen, out)
    | inr new ↦
        rw (wanted, new)
          (
            ground (arith, seen),
            λ id i. elim (In-append id w.order (neighbour cur ed ∷ []) i) [
              | inl before ↦ out id before
              | inr (inl here) ↦ λ e.
                  let clash : true ≡ false =
                    sym seen
                    ∙ subst (λ x. any (λ k. k == x) w.visited ≡ false) (sym here ∙ e) new in
                  cc clash
              | inr (inr bad) ↦ elim bad [ ]
            ],
          )
  ]
]

visit_all-Avoids :
    (kinds : List Text) (cur start : Ulid) (w : Walk) (es : List Edge)
    → Avoids start w
    → Avoids start (visit_all kinds cur w es)
unfolding visit_all
visit_all-Avoids kinds cur start w [] h = h
visit_all-Avoids kinds cur start w (ed ∷ es) h =
    visit_all-Avoids kinds cur start (visit kinds cur w ed) es (visit-Avoids kinds cur start w ed h)

first-Avoids : (start : Ulid) → Avoids start (first_walk start)
unfolding any
first-Avoids start = (rw (==_refl start) refl, λ id i. elim i [ ])

module _ ⦃m : MetaEnv⦄ where
  walk_level-Avoids :
      (kinds : List Text) (dir : ℕ) (start : Ulid) (frontier : List Ulid) (w w' : Walk)
      (d : m.bolt.Db)
      → walk_level kinds dir frontier w d ≡ ok w'
      → Avoids start w
      → Avoids start w'
  unfolding walk_level
  walk_level-Avoids kinds dir start [] w w' d p h = subst (Avoids start) (ok-injective p) h
  walk_level-Avoids kinds dir start (cur ∷ frontier) w w' d p h =
      let (es, q, p1) = and_then-eq-ok (edges_at dir cur d) _ p in
      walk_level-Avoids kinds dir start frontier (visit_all kinds cur w es) w' d p1
        (visit_all-Avoids kinds cur start w es h)

  walk-Avoids :
      (depth : ℕ) (kinds : List Text) (dir : ℕ) (start : Ulid) (w w' : Walk) (d : m.bolt.Db)
      → walk depth kinds dir w d ≡ ok w'
      → Avoids start w
      → Avoids start w'
  unfolding walk
  walk-Avoids zero kinds dir start w w' d p h = subst (Avoids start) (ok-injective p) h
  walk-Avoids (suc depth) kinds dir start w w' d p h =
      let (w1, q, p1) =
        and_then-eq-ok (walk_level kinds dir w.next (record w { next = [] }) d) _ p in
      walk-Avoids depth kinds dir start w1 w' d p1
        (walk_level-Avoids kinds dir start w.next (record w { next = [] }) w1 d q (h.0, h.1))

module _ ⦃m : MetaEnv⦄ ⦃b : Blobs⦄ ⦃v : Vectors⦄ where
  build_hit-overview :
      (a : Artifact) (score : m.floats.Float) (s : Engine)
      → build_hit a score detail_overview s ≡ ok (hit_of a score (scope_path a.scope s.db) [])
  unfolding build_hit
  build_hit-overview a score s = refl

  -- a hit of the list comes from an artifact that is current
  abbrev pub FromCurrent : List Ulid → Engine → Hit m.floats.Float → Type 0
  FromCurrent ids s h =
      (id : Ulid) × In id ids
      × ((a : Artifact) × (get_artifact id s.db ≡ ok a)
          × (is_zero a.superseded_by ≡ true)
          × (h ≡ hit_of a (m.floats.decimal 0 0) (scope_path a.scope s.db) []))

  related_hits-FromCurrent :
      (ids : List Ulid) (s : Engine) (hits : List (Hit m.floats.Float))
      → related_hits ids s ≡ ok hits
      → (h : Hit m.floats.Float) → In h hits
      → FromCurrent ids s h
  unfolding related_hits
  related_hits-FromCurrent [] s hits p h i = elim (subst (In h) (sym (ok-injective p)) i) [ ]
  related_hits-FromCurrent (id ∷ ids) s hits p h i = elim (Result-cases (get_artifact id s.db)) [
    | inr (e, g) ↦
        let (j, k, rest) = related_hits-FromCurrent ids s hits (rw g at p) h i in (j, inr k, rest)
    | inl (a, g) ↦ elim (Bool-cases (not (is_zero a.superseded_by))) [
      | inl stale ↦
          let (j, k, rest) = related_hits-FromCurrent ids s hits (rw (g, stale) at p) h i in
          (j, inr k, rest)
      | inr current ↦
          let (h1, q, p1) =
            and_then-eq-ok (build_hit a (m.floats.decimal 0 0) detail_overview s)
              (λ x. and_then (related_hits ids s) (λ hs. ok (x ∷ hs))) (rw (g, current) at p) in
          let (hs, q2, p2) = and_then-eq-ok (related_hits ids s) _ p1 in
          let listed : h1 ∷ hs ≡ hits = ok-injective p2 in
          elim (subst (In h) (sym listed) i) [
            | inl here ↦
                let built = ok-injective (sym q ∙ build_hit-overview a (m.floats.decimal 0 0) s) in
                (id, inl refl, (a, g, ground (arith, current), here ∙ built))
            | inr there ↦
                let (j, k, rest) = related_hits-FromCurrent ids s hs q2 h there in (j, inr k, rest)
          ]
    ]
  ]

  -- In an intact store every hit that Related returns is the overview of a stored artifact that is
  -- not superseded, and never of the artifact it started from.
  pub related-Current :
      (artifact : Ulid) (kinds : List Text) (dir depth : ℕ) (s : Engine)
      (hits : List (Hit m.floats.Float))
      → IsIntact s.db
      → related artifact kinds dir depth s ≡ ok hits
      → (h : Hit m.floats.Float) → In h hits
      → (h.artifact ≢ artifact)
        × ((a : Artifact) × (get_artifact h.artifact s.db ≡ ok a)
            × (is_zero a.superseded_by ≡ true)
            × (h ≡ hit_of a (m.floats.decimal 0 0) (scope_path a.scope s.db) []))
  unfolding related
  related-Current artifact kinds dir depth s hits intact p h i =
      let (start, g, p1) = and_then-eq-ok (get_artifact artifact s.db) _ p in
      let (w, q, p2) =
        and_then-eq-ok (walk (if depth == 0 then 1 else depth) kinds dir (first_walk artifact) s.db)
          _ p1 in
      let avoids =
        walk-Avoids (if depth == 0 then 1 else depth) kinds dir artifact (first_walk artifact) w
          s.db q (first-Avoids artifact) in
      let (id, k, (a, found, current, e)) = related_hits-FromCurrent w.order s hits p2 h i in
      let own : h.artifact ≡ id = ap (λ x. x.artifact) e ∙ get_artifact-id s.db id a intact found in
      (
        λ same. avoids.1 id k (sym own ∙ same),
        (a, subst (λ x. get_artifact x s.db ≡ ok a) (sym own) found, current, e),
      )
