-- ===== src/Engine/Visibility/Sets.antt =====
-- What the loops of the visible set collect, as sets of artifacts.
use ioc.Base.{
  ℕ, Bool, true, List, [], ◌∷◌, ◌==◌, ==_iff, any, ok, ◌≡◌, refl, sym, subst, ap, ◌∙◌, inl, inr,
  ◌⊎◌, ◌↔◌, In, In-append, In-append_left, In-append_right, Bool-cases, ok-injective, or-true,
}
use ioc.Core.Types.{Ulid, Scope, Artifact}
use ioc.Storage.Meta.{MetaEnv, get_artifact, artifacts_in_scope}
use ioc.Storage.Meta.Values.{and_then-eq-ok}
use ioc.Storage.Bolt.{artifacts}
use ioc.Storage.Meta.Tables.{scan_iff, scan_keyed}
use ioc.Engine.Integrity.{IsIntact, artifact_key}
use ioc.Engine.Visibility.{accepts, add, add_all, add_scopes}

-- an artifact of the list has the identifier
any-In :
    (id : Ulid) (out : List Artifact)
    → any (λ x. x.id == id) out ≡ true
    → (x : Artifact) × In x out × (x.id ≡ id)
unfolding any
any-In id [] h = cc
any-In id (x ∷ out) h = elim (or-true (x.id == id) (any (λ y. y.id == id) out) h) [
  | inl here ↦ (x, inl refl, (==_iff x.id id).0 here)
  | inr there ↦ let (y, i, e) = any-In id out there in (y, inr i, e)
]

add-In :
    (tier : ℕ) (req : Bool) (out : List Artifact) (x a : Artifact)
    → In a (add tier req out x)
    → In a out ⊎ ((a ≡ x) × (accepts tier req x ≡ true))
unfolding add
add-In tier req out x a i = elim (Bool-cases (any (λ y. y.id == x.id) out)) [
  | inl seen ↦ inl (rw seen at i)
  | inr new ↦ elim (Bool-cases (accepts tier req x)) [
    | inl taken ↦ elim (In-append a out (x ∷ []) (rw (new, taken) at i)) [
      | inl old ↦ inl old
      | inr (inl here) ↦ inr (here, taken)
      | inr (inr bad) ↦ elim bad [ ]
    ]
    | inr left ↦ inl (rw (new, left) at i)
  ]
]

In-add_old :
    (tier : ℕ) (req : Bool) (out : List Artifact) (x a : Artifact)
    → In a out
    → In a (add tier req out x)
unfolding add
In-add_old tier req out x a i = elim (Bool-cases (any (λ y. y.id == x.id) out)) [
  | inl seen ↦ rw seen i
  | inr new ↦ elim (Bool-cases (accepts tier req x)) [
    | inl taken ↦ rw (new, taken) (In-append_left a out (x ∷ []) i)
    | inr left ↦ rw (new, left) i
  ]
]

pub add_all-In :
    (tier : ℕ) (req : Bool) (out as' : List Artifact) (a : Artifact)
    → In a (add_all tier req out as')
    → In a out ⊎ (In a as' × (accepts tier req a ≡ true))
unfolding add_all
add_all-In tier req out [] a i = inl i
add_all-In tier req out (x ∷ as') a i = elim (add_all-In tier req (add tier req out x) as' a i) [
  | inr (later, taken) ↦ inr (inr later, taken)
  | inl now ↦ elim (add-In tier req out x a now) [
    | inl old ↦ inl old
    | inr (e, taken) ↦ inr (inl e, rw e taken)
  ]
]

pub In-add_all_old :
    (tier : ℕ) (req : Bool) (out as' : List Artifact) (a : Artifact)
    → In a out
    → In a (add_all tier req out as')
unfolding add_all
In-add_all_old tier req out [] a i = i
In-add_all_old tier req out (x ∷ as') a i =
    In-add_all_old tier req (add tier req out x) as' a (In-add_old tier req out x a i)

-- one of the scopes holds the artifact
abbrev pub HeldBy : List Scope → Artifact → Type 0
HeldBy ss a = (s : Scope) × In s ss × (a.scope ≡ s.id)

module _ ⦃m : MetaEnv⦄ (d : m.bolt.Db) where
  -- the artifacts of the list are what their identifiers read
  abbrev pub Stored : List Artifact → Type 0
  Stored out = (a : Artifact) → In a out → get_artifact a.id d ≡ ok a

  pub Stored-add_all :
      (tier : ℕ) (req : Bool) (out as' : List Artifact)
      → Stored out
      → Stored as'
      → Stored (add_all tier req out as')
  Stored-add_all tier req out as' f g a i = elim (add_all-In tier req out as' a i) [
    | inl old ↦ f a old
    | inr (new, taken) ↦ g a new
  ]

  In-add_new :
      (tier : ℕ) (req : Bool) (out : List Artifact) (a : Artifact)
      → Stored out
      → get_artifact a.id d ≡ ok a
      → accepts tier req a ≡ true
      → In a (add tier req out a)
  unfolding add
  In-add_new tier req out a f g taken = elim (Bool-cases (any (λ y. y.id == a.id) out)) [
    | inl seen ↦
        let (x, i, e) = any-In a.id out seen in
        let same : x ≡ a = ok-injective (sym (f x i) ∙ (ap (λ j. get_artifact j d) e ∙ g)) in
        rw (seen, ← same) i
    | inr new ↦ rw (new, taken) (In-append_right a out (a ∷ []) (inl refl))
  ]

  pub In-add_all_new :
      (tier : ℕ) (req : Bool) (out as' : List Artifact) (a : Artifact)
      → Stored out
      → Stored as'
      → In a as'
      → accepts tier req a ≡ true
      → In a (add_all tier req out as')
  unfolding add_all
  In-add_all_new tier req out [] a f g i taken = elim i [ ]
  In-add_all_new tier req out (x ∷ as') a f g i taken = elim i [
    | inl here ↦ In-add_all_old tier req (add tier req out x) as' a (
        subst (λ y. In a (add tier req out y)) here
          (In-add_new tier req out a f (g a (inl here)) taken))
    | inr there ↦
        In-add_all_new tier req (add tier req out x) as' a
          (Stored-add_all tier req out (x ∷ []) f
            (λ y j. elim j [ inl e ↦ g y (inl e) | inr bad ↦ elim bad [ ] ]))
          (λ y j. g y (inr j)) there taken
  ]

  -- what the artifacts of a scope are, in an intact store
  module _ (h : IsIntact d) where
    pub artifacts_in_scope-In :
        (s : Ulid) (as' : List Artifact) (a : Artifact)
        → artifacts_in_scope s d ≡ ok as'
        → In a as' ↔ ((get_artifact a.id d ≡ ok a) × ((a.scope == s) ≡ true))
    unfolding artifacts_in_scope get_artifact
    artifacts_in_scope-In s as' a p =
        scan_iff artifacts m.artifact_json artifact_key (λ x. x.scope == s) d as' a
          h.artifacts_keyed p

    pub artifacts_in_scope-ok :
        (s : Ulid) → (as' : List Artifact) × (artifacts_in_scope s d ≡ ok as')
    unfolding artifacts_in_scope
    artifacts_in_scope-ok s =
        scan_keyed artifacts m.artifact_json artifact_key (λ x. x.scope == s) d h.artifacts_keyed

    Stored-scope : (s : Ulid) (as' : List Artifact) → artifacts_in_scope s d ≡ ok as' → Stored as'
    Stored-scope s as' p a i = ((artifacts_in_scope-In s as' a p).0 i).0

    pub add_scopes-Stored :
        (tier : ℕ) (req : Bool) (ss : List Scope) (out res : List Artifact)
        → add_scopes tier req out ss d ≡ ok res
        → Stored out
        → Stored res
    unfolding add_scopes
    add_scopes-Stored tier req [] out res p f = λ a i. f a (subst (In a) (sym (ok-injective p)) i)
    add_scopes-Stored tier req (s ∷ ss) out res p f =
        let (as', q, p1) = and_then-eq-ok (artifacts_in_scope s.id d) _ p in
        add_scopes-Stored tier req ss (add_all tier req out as') res p1
          (Stored-add_all tier req out as' f (Stored-scope s.id as' q))

    pub add_scopes-In :
        (tier : ℕ) (req : Bool) (ss : List Scope) (out res : List Artifact) (a : Artifact)
        → add_scopes tier req out ss d ≡ ok res
        → In a res
        → In a out ⊎ ((get_artifact a.id d ≡ ok a) × (accepts tier req a ≡ true) × HeldBy ss a)
    unfolding add_scopes
    add_scopes-In tier req [] out res a p i = inl (subst (In a) (sym (ok-injective p)) i)
    add_scopes-In tier req (s ∷ ss) out res a p i =
        let (as', q, p1) = and_then-eq-ok (artifacts_in_scope s.id d) _ p in
        elim (add_scopes-In tier req ss (add_all tier req out as') res a p1 i) [
          | inr (g, t, (x, j, e)) ↦ inr (g, t, (x, inr j, e))
          | inl here ↦ elim (add_all-In tier req out as' a here) [
            | inl old ↦ inl old
            | inr (new, t) ↦
                let (g, k) = (artifacts_in_scope-In s.id as' a q).0 new in
                inr (g, t, (s, inl refl, (==_iff a.scope s.id).0 k))
          ]
        ]

    pub In-add_scopes_old :
        (tier : ℕ) (req : Bool) (ss : List Scope) (out res : List Artifact) (a : Artifact)
        → add_scopes tier req out ss d ≡ ok res
        → In a out
        → In a res
    unfolding add_scopes
    In-add_scopes_old tier req [] out res a p i = subst (In a) (ok-injective p) i
    In-add_scopes_old tier req (s ∷ ss) out res a p i =
        let (as', q, p1) = and_then-eq-ok (artifacts_in_scope s.id d) _ p in
        In-add_scopes_old tier req ss (add_all tier req out as') res a p1
          (In-add_all_old tier req out as' a i)

    pub In-add_scopes_new :
        (tier : ℕ) (req : Bool) (ss : List Scope) (out res : List Artifact) (a : Artifact)
        → add_scopes tier req out ss d ≡ ok res
        → Stored out
        → get_artifact a.id d ≡ ok a
        → accepts tier req a ≡ true
        → HeldBy ss a
        → In a res
    unfolding add_scopes
    In-add_scopes_new tier req [] out res a p f g t (x, i, e) = elim i [ ]
    In-add_scopes_new tier req (s ∷ ss) out res a p f g t (x, i, e) =
        let (as', q, p1) = and_then-eq-ok (artifacts_in_scope s.id d) _ p in
        let stored = Stored-scope s.id as' q in
        elim i [
          | inl here ↦
              let held = (==_iff a.scope s.id).1 (e ∙ ap (λ y. y.id) here) in
              In-add_scopes_old tier req ss (add_all tier req out as') res a p1 (
                In-add_all_new tier req out as' a f stored
                  ((artifacts_in_scope-In s.id as' a q).1 (g, held)) t)
          | inr there ↦
              In-add_scopes_new tier req ss (add_all tier req out as') res a p1
                (Stored-add_all tier req out as' f stored) g t (x, there, e)
        ]

    pub add_scopes-ok :
        (tier : ℕ) (req : Bool) (ss : List Scope) (out : List Artifact)
        → (res : List Artifact) × (add_scopes tier req out ss d ≡ ok res)
    unfolding add_scopes
    add_scopes-ok tier req [] out = (out, refl)
    add_scopes-ok tier req (s ∷ ss) out =
        let (as', q) = artifacts_in_scope-ok s.id in
        let (res, p) = add_scopes-ok tier req ss (add_all tier req out as') in (res, rw q p)
