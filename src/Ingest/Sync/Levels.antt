-- ===== src/Ingest/Sync/Levels.antt =====
-- internal/ingest/sync.go: the scopes that the walk of descendants reaches.
use ioc.Base.{
  ℕ, zero, suc, ◌+◌, ◌≤◌, ◌<◌, List, [], ◌∷◌, ◌==◌, ==_iff, filter, In-filter, filter-In, map,
  length, ◌≡◌, refl, ap, ◌⊎◌, inl, inr, In, In-append, In-append_left, In-append_right, arith,
}
use ioc.Core.Types.{Ulid, Scope}
use ioc.Ingest.Sync.{children_of, all_children, walk_down, descendants}

In-map : (c : Scope) (xs : List Scope) → In c xs → In c.id (map (λ x. x.id) xs)
In-map c [] i = elim i [ ]
In-map c (x ∷ xs) (inl e) = inl (ap (λ s. s.id) e)
In-map c (x ∷ xs) (inr i) = inr (In-map c xs i)

map-In :
    (y : Ulid) (xs : List Scope) → In y (map (λ x. x.id) xs) → (c : Scope) × In c xs × (y ≡ c.id)
map-In y [] i = elim i [ ]
map-In y (x ∷ xs) (inl e) = (x, inl refl, e)
map-In y (x ∷ xs) (inr i) = let (c, j, e) = map-In y xs i in (c, inr j, e)

module _ (scopes : List Scope) where
  In-all_children :
      (level : List Ulid) (c : Scope)
      → In c scopes
      → In c.parent level
      → In c.id (all_children level scopes)
  unfolding all_children children_of
  In-all_children [] c i j = elim j [ ]
  In-all_children (x ∷ xs) c i (inl e) =
      In-append_left c.id (children_of x scopes) (all_children xs scopes) (
        In-map c (filter (λ k. k.parent == x) scopes)
          (In-filter (λ k. k.parent == x) scopes c i ((==_iff c.parent x).1 e)))
  In-all_children (x ∷ xs) c i (inr j) =
      In-append_right c.id (children_of x scopes) (all_children xs scopes)
        (In-all_children xs c i j)

  all_children-In :
      (level : List Ulid) (y : Ulid)
      → In y (all_children level scopes)
      → (c : Scope) × In c scopes × In c.parent level × (y ≡ c.id)
  unfolding all_children children_of
  all_children-In [] y i = elim i [ ]
  all_children-In (x ∷ xs) y i =
      elim (In-append y (children_of x scopes) (all_children xs scopes) i) [
        | inl j ↦
            let (c, k, e) = map-In y (filter (λ k. k.parent == x) scopes) j in
            let (l, t) = filter-In (λ k. k.parent == x) scopes c k in
            (c, l, inl ((==_iff c.parent x).0 t), e)
        | inr j ↦ let (c, l, k, e) = all_children-In xs y j in (c, l, inr k, e)
      ]

  -- what the walk reaches is where it began or a stored scope
  pub walk_down-In :
      (fuel : ℕ) (level : List Ulid) (y : Ulid)
      → In y (walk_down fuel level scopes)
      → In y level ⊎ ((c : Scope) × In c scopes × (y ≡ c.id))
  unfolding walk_down
  walk_down-In zero level y i = elim i [ ]
  walk_down-In (suc fuel) level y i =
      let next = all_children level scopes in
      elim (In-append y level (walk_down fuel next scopes) i) [
        | inl j ↦ inl j
        | inr j ↦ elim (walk_down-In fuel next y j) [
          | inl k ↦ let (c, l, m, e) = all_children-In level y k in inr (c, l, e)
          | inr k ↦ inr k
        ]
      ]

  module _ (depth : Ulid → ℕ) (deeper : (c : Scope) → In c scopes → depth c.parent < depth c.id)
      (few : (c : Scope) → In c scopes → depth c.id ≤ length scopes) where
    level-deeper :
        (k : ℕ) (level : List Ulid)
        → ((x : Ulid) → In x level → k ≤ depth x)
        → (y : Ulid) → In y (all_children level scopes)
        → suc k ≤ depth y
    level-deeper k level h y i =
        let (c, j, p, e) = all_children-In level y i in
        let above = h c.parent p in let below = deeper c j in rw e (omega (arith, above, below))

    walk_down-closed :
        (fuel k : ℕ) (level : List Ulid)
        → ((x : Ulid) → In x level → k ≤ depth x)
        → length scopes < k + fuel
        → (c : Scope) → In c scopes
        → In c.parent (walk_down (suc fuel) level scopes)
        → In c.id (walk_down (suc fuel) level scopes)
    unfolding walk_down
    walk_down-closed zero k level h room c i j = elim (In-append c.parent level [] j) [
      | inl p ↦
          let above = h c.parent p in
          let below = deeper c i in let most = few c i in ground (arith, above, below, most, room)
      | inr q ↦ elim q [ ]
    ]
    walk_down-closed (suc fuel) k level h room c i j =
        let next = all_children level scopes in
        let rest = walk_down (suc fuel) next scopes in
        elim (In-append c.parent level rest j) [
          | inl p ↦ In-append_right c.id level rest (
              In-append_left c.id next (walk_down fuel (all_children next scopes) scopes)
                (In-all_children level c i p))
          | inr q ↦ In-append_right c.id level rest (
              walk_down-closed fuel (suc k) next (level-deeper k level h) (omega (arith, room)) c i
                q)
        ]

    -- Where the scopes are a forest, with depths that grow from parent to child and are at most the
    -- scopes' number, the walk's bound is enough: with a scope it reaches each of its children.
    pub descendants-closed :
        (root : Ulid) (c : Scope)
        → In c scopes
        → In c.parent (descendants root scopes)
        → In c.id (descendants root scopes)
    unfolding descendants
    descendants-closed root c i j =
        walk_down-closed (suc (length scopes)) 0 (root ∷ []) (λ x k. omega arith) (omega arith) c i
          j
