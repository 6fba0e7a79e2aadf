-- ===== src/Engine/Visibility/Views.antt =====
-- visibleArtifacts against a description of the visible set.
use ioc.Base.{
  ℕ, Bool, true, false, not, ◌||◌, List, [], ◌∷◌, ◌==◌, ==_iff, filter, filter-In, In-filter, ok,
  ◌≡◌, ◌≢◌, refl, sym, subst, ap, ◌∙◌, inl, inr, ◌⊎◌, ◌↔◌, In, ok-injective, arith, Bool-cases,
}
use ioc.Core.Types.{Ulid, Scope, Artifact}
use ioc.Storage.Bolt.{scopes}
use ioc.Storage.Meta.{
  MetaEnv, get_scope, get_artifact, child_scopes, list_scopes, artifacts_in_scope,
}
use ioc.Storage.Meta.Values.{and_then-eq-ok}
use ioc.Storage.Meta.Tables.{scan_iff, scan_keyed}
use ioc.Engine.Integrity.{IsIntact, scope_key}
use ioc.Engine.Visibility.{
  accepts, add_all, add_scopes, ancestors_of, siblings_of, in_view, visible_artifacts,
}
use ioc.Engine.Visibility.Ancestors.{Lineage, ancestors_of-Lineage}
use ioc.Engine.Visibility.Sets.{
  Stored, HeldBy, add_all-In, In-add_all_new, Stored-add_all, artifacts_in_scope-In,
  artifacts_in_scope-ok, add_scopes-In, add_scopes-Stored, In-add_scopes_old, In-add_scopes_new,
  add_scopes-ok,
}

abbrev pub InTier : ℕ → Artifact → Type 0
InTier tier a = (tier == 0 || a.tier == tier) ≡ true

accepts_iff :
    (tier : ℕ) (req : Bool) (a : Artifact)
    → (accepts tier req a ≡ true) ↔ (InTier tier a × ((req ≡ true) → a.published ≡ true))
unfolding accepts
accepts_iff tier req a = elim (Bool-cases req) [
  | inl r ↦ rw r (ground arith)
  | inr r ↦ rw r (ground arith)
]

module _ ⦃m : MetaEnv⦄ (d : m.bolt.Db) where
  -- another child of the scope's parent, in view
  abbrev pub IsSibling : Ulid → Bool → Scope → Type 0
  IsSibling scope incl s =
      (self : Scope) × (get_scope scope d ≡ ok self)
      × (get_scope s.id d ≡ ok s)
      × (s.parent ≡ self.parent)
      × (s.id ≢ scope)
      × (in_view incl s ≡ true)

  -- the bottom-up view of a scope whose ancestors are `ancs`
  abbrev pub Sees : Ulid → ℕ → Bool → List Scope → Artifact → Type 0
  Sees scope tier incl ancs a =
      InTier tier a
      × (((a.scope ≡ scope) ⊎ HeldBy ancs a)
          ⊎ ((a.published ≡ true) × ((s : Scope) × IsSibling scope incl s × (a.scope ≡ s.id))))

  siblings_parts :
      (scope : Ulid) (sibs : List Scope)
      → siblings_of scope d ≡ ok sibs
      → (self : Scope) × (all : List Scope) × (get_scope scope d ≡ ok self)
        × (list_scopes d ≡ ok all)
        × (filter (λ k. not (k.id == scope)) (filter (λ k. k.parent == self.parent) all) ≡ sibs)
  unfolding siblings_of child_scopes
  siblings_parts scope sibs p =
      let (self, q, p1) = and_then-eq-ok (get_scope scope d) _ p in
      let (kids, q2, p2) = and_then-eq-ok (child_scopes self.parent d) _ p1 in
      let (all, q3, p3) = and_then-eq-ok (list_scopes d) _ q2 in
      (self, all, q, q3, ap (filter (λ k. not (k.id == scope))) (ok-injective p3) ∙ ok-injective p2)

  module _ (h : IsIntact d) where
    list_scopes-In :
        (all : List Scope) (s : Scope)
        → list_scopes d ≡ ok all
        → (In s all → get_scope s.id d ≡ ok s) × (get_scope s.id d ≡ ok s → In s all)
    unfolding list_scopes get_scope
    list_scopes-In all s p =
        let listed = scan_iff scopes m.scope_json scope_key (λ x. true) d all s h.scopes_keyed p in
        (λ i. (listed.0 i).0, λ g. listed.1 (g, refl))

    siblings_sound :
        (scope : Ulid) (incl : Bool) (sibs : List Scope) (s : Scope)
        → siblings_of scope d ≡ ok sibs
        → In s (filter (in_view incl) sibs)
        → IsSibling scope incl s
    siblings_sound scope incl sibs s p i =
        let (self, all, g, listed, e) = siblings_parts scope sibs p in
        let (i1, v) = filter-In (in_view incl) sibs s i in
        let (i2, o) = filter-In (λ k. not (k.id == scope)) _ s (subst (In s) (sym e) i1) in
        let (i3, k) = filter-In (λ k. k.parent == self.parent) all s i2 in
        (
          self,
          g,
          (list_scopes-In all s listed).0 i3,
          (==_iff s.parent self.parent).0 k,
          ground arith,
          v,
        )

    siblings_complete :
        (scope : Ulid) (incl : Bool) (sibs : List Scope) (s : Scope)
        → siblings_of scope d ≡ ok sibs
        → IsSibling scope incl s
        → In s (filter (in_view incl) sibs)
    siblings_complete scope incl sibs s p (self', g', stored, k, o, v) =
        let (self, all, g, listed, e) = siblings_parts scope sibs p in
        let same : self' ≡ self = ok-injective (sym g' ∙ g) in
        let i3 = (list_scopes-In all s listed).1 stored in
        let i2 =
          In-filter (λ k. k.parent == self.parent) all s i3
            ((==_iff s.parent self.parent).1 (k ∙ ap (λ x. x.parent) same)) in
        let i1 = In-filter (λ k. not (k.id == scope)) _ s i2 (ground (arith, o)) in
        In-filter (in_view incl) sibs s (subst (In s) e i1) v

    -- the parts of a view that succeeds
    visible_parts :
        (scope : Ulid) (tier : ℕ) (incl : Bool) (ancs : List Scope) (out : List Artifact)
        → ancestors_of scope d ≡ ok ancs
        → visible_artifacts scope tier incl d ≡ ok out
        → (own : List Artifact) × (mid : List Artifact) × (sibs : List Scope) × (artifacts_in_scope
              scope d
            ≡ ok own)
          × (add_scopes tier false (add_all tier false [] own) ancs d ≡ ok mid)
          × (siblings_of scope d ≡ ok sibs)
          × (add_scopes tier true mid (filter (in_view incl) sibs) d ≡ ok out)
    unfolding visible_artifacts
    visible_parts scope tier incl ancs out a p =
        let (own, q1, p1) = and_then-eq-ok (artifacts_in_scope scope d) _ p in
        let (ancs', q2, p2) = and_then-eq-ok (ancestors_of scope d) _ p1 in
        let same : ancs' ≡ ancs = ok-injective (sym q2 ∙ a) in
        let (mid, q3, p3) =
          and_then-eq-ok (add_scopes tier false (add_all tier false [] own) ancs' d) _ p2 in
        let (sibs, q4, p4) = and_then-eq-ok (siblings_of scope d) _ p3 in
        (
          own,
          mid,
          sibs,
          q1,
          subst (λ x. add_scopes tier false (add_all tier false [] own) x d ≡ ok mid) same q3,
          q4,
          p4,
        )

    own-Stored :
        (tier : ℕ) (scope : Ulid) (own : List Artifact)
        → artifacts_in_scope scope d ≡ ok own
        → Stored d (add_all tier false [] own)
    own-Stored tier scope own q =
        Stored-add_all d tier false [] own (λ a i. elim i [ ])
          (λ a i. ((artifacts_in_scope-In d h scope own a q).0 i).0)

    visible_sound :
        (scope : Ulid) (tier : ℕ) (incl : Bool) (ancs : List Scope) (out : List Artifact)
        → ancestors_of scope d ≡ ok ancs
        → visible_artifacts scope tier incl d ≡ ok out
        → (a : Artifact) → In a out
        → (get_artifact a.id d ≡ ok a) × Sees scope tier incl ancs a
    visible_sound scope tier incl ancs out c p a i =
        let (own, mid, sibs, q1, q2, q3, q4) = visible_parts scope tier incl ancs out c p in
        elim (add_scopes-In d h tier true (filter (in_view incl) sibs) mid out a q4 i) [
          | inr (g, t, (s, j, e)) ↦
              let (w, shown) = (accepts_iff tier true a).0 t in
              (g, (w, inr (shown refl, (s, siblings_sound scope incl sibs s q3 j, e))))
          | inl early ↦
              elim (add_scopes-In d h tier false ancs (add_all tier false [] own) mid a q2 early) [
                | inr (g, t, held) ↦ (g, (((accepts_iff tier false a).0 t).0, inl (inr held)))
                | inl first ↦ elim (add_all-In tier false [] own a first) [
                  | inl bad ↦ elim bad [ ]
                  | inr (j, t) ↦
                      let (g, k) = (artifacts_in_scope-In d h scope own a q1).0 j in
                      (
                        g,
                        (
                          ((accepts_iff tier false a).0 t).0,
                          inl (inl ((==_iff a.scope scope).0 k)),
                        ),
                      )
                ]
              ]
        ]

    visible_complete :
        (scope : Ulid) (tier : ℕ) (incl : Bool) (ancs : List Scope) (out : List Artifact)
        → ancestors_of scope d ≡ ok ancs
        → visible_artifacts scope tier incl d ≡ ok out
        → (a : Artifact) → get_artifact a.id d ≡ ok a
        → Sees scope tier incl ancs a
        → In a out
    visible_complete scope tier incl ancs out c p a g (w, seen) =
        let (own, mid, sibs, q1, q2, q3, q4) = visible_parts scope tier incl ancs out c p in
        let first = add_all tier false [] own in
        let stored = own-Stored tier scope own q1 in
        let free = (accepts_iff tier false a).1 (w, λ e. cc) in
        let in_mid = λ (i : In a mid).
          In-add_scopes_old d h tier true (filter (in_view incl) sibs) mid out a q4 i in
        elim seen [
          | inl (inl e) ↦
              let i =
                (artifacts_in_scope-In d h scope own a q1).1 (g, (==_iff a.scope scope).1 e) in
              in_mid (
                In-add_scopes_old d h tier false ancs first mid a q2 (
                  In-add_all_new d tier false [] own a (λ x j. elim j [ ])
                    (λ x j. ((artifacts_in_scope-In d h scope own x q1).0 j).0) i free))
          | inl (inr held) ↦
              in_mid (In-add_scopes_new d h tier false ancs first mid a q2 stored g free held)
          | inr (shown, (s, sib, e)) ↦
              In-add_scopes_new d h tier true (filter (in_view incl) sibs) mid out a q4
                (add_scopes-Stored d h tier false ancs first mid q2 stored) g
                ((accepts_iff tier true a).1 (w, λ _. shown))
                (s, siblings_complete scope incl sibs s q3 sib, e)
        ]

    siblings_of-ok :
        (scope : Ulid) (self : Scope)
        → get_scope scope d ≡ ok self
        → (sibs : List Scope) × (siblings_of scope d ≡ ok sibs)
    unfolding siblings_of child_scopes list_scopes
    siblings_of-ok scope self g =
        let (all, p) = scan_keyed scopes m.scope_json scope_key (λ x. true) d h.scopes_keyed in
        (
          filter (λ k. not (k.id == scope)) (filter (λ k. k.parent == self.parent) all),
          rw (g, p) refl,
        )

    visible_artifacts-ok :
        (scope : Ulid) (self : Scope) (tier : ℕ) (incl : Bool) (ancs : List Scope)
        → get_scope scope d ≡ ok self
        → ancestors_of scope d ≡ ok ancs
        → (out : List Artifact) × (visible_artifacts scope tier incl d ≡ ok out)
    unfolding visible_artifacts
    visible_artifacts-ok scope self tier incl ancs g c =
        let (own, q1) = artifacts_in_scope-ok d h scope in
        let (mid, q2) = add_scopes-ok d h tier false ancs (add_all tier false [] own) in
        let (sibs, q3) = siblings_of-ok scope self g in
        let (out, q4) = add_scopes-ok d h tier true (filter (in_view incl) sibs) mid in
        (out, rw (q1, c, q2, q3) q4)

    -- In an intact store the view of a scope that reads succeeds, for each tier and with archived
    -- siblings or without. An artifact is in it exactly when its identifier reads it, it is of the
    -- tier asked for, and it lies in the scope, in one of its lineage of ancestors, or, published,
    -- in a sibling that is in view.
    pub visible_artifacts-Sees :
        (scope : Ulid) (self : Scope) (tier : ℕ) (incl : Bool)
        → get_scope scope d ≡ ok self
        → (ancs : List Scope) × (out : List Artifact) × Lineage d (scope ∷ []) self.parent ancs
          × (visible_artifacts scope tier incl d ≡ ok out)
          × ((a : Artifact)
              → In a out ↔ ((get_artifact a.id d ≡ ok a) × Sees scope tier incl ancs a))
    visible_artifacts-Sees scope self tier incl g =
        let (ancs, c, l) = ancestors_of-Lineage scope self d g in
        let (out, p) = visible_artifacts-ok scope self tier incl ancs g c in
        (
          ancs,
          out,
          l,
          p,
          λ a. (
            visible_sound scope tier incl ancs out c p a,
            λ x. visible_complete scope tier incl ancs out c p a x.0 x.1,
          ),
        )
