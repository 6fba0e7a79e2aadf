-- ===== src/Ingest/Sync/Pruned.antt =====
-- internal/ingest/sync.go: what pruneEmpty leaves of the scopes.
use ioc.Base.{
  ℕ, zero, suc, ◌<◌, Bool, true, false, ◌||◌, List, [], ◌∷◌, length, ◌==◌, ==_refl, none, some, ok,
  ok-injective, Exec, pure, ◌>>=◌, >>=-eq-ok, ◌≡◌, refl, sym, ap, ◌∙◌, inl, inr, ◌⊎◌, Bool-cases,
  Option-cases, arith, if◌then◌else◌, subst, In, All, All-In,
}
use ioc.Core.Types.{Ulid, Scope}
use ioc.Ingest.Reconcile.{Store, Reconciler, update, on_store}
use ioc.Ingest.Sync.{
  find_scope, drop_scope_of, is_kept, prune_one, prune_pass, prune_on, prune_empty, descendants,
}
use ioc.Ingest.Sync.Levels.{walk_down-In}

length-drop_scope_of :
    (id : Ulid) (xs : List Scope) (sc : Scope)
    → find_scope id xs ≡ some sc
    → suc (length (drop_scope_of id xs)) ≡ length xs
unfolding drop_scope_of
length-drop_scope_of id [] sc h = cc
length-drop_scope_of id (x ∷ xs) sc h = elim (Bool-cases (x.id == id)) [
  | inl t ↦ rw t refl
  | inr f ↦ rw f (ap suc (length-drop_scope_of id xs sc (rw f at h)))
]

In-find_scope : (c : Scope) (xs : List Scope) → In c xs → (find_scope c.id xs ≡ none) → ⊥
In-find_scope c [] i h = elim i [ ]
In-find_scope c (x ∷ xs) (inl e) h = let g = rw (← e, ==_refl c.id) at h in cc
In-find_scope c (x ∷ xs) (inr i) h = elim (Bool-cases (x.id == c.id)) [
  | inl t ↦ let g = rw t at h in cc
  | inr f ↦ In-find_scope c xs i (rw f at h)
]

module _ ⦃s : Store⦄ (root : Ulid) where
  -- a scope that the pass does not delete
  abbrev Stays : Reconciler → Ulid → Type 0
  Stays r sid = (is_kept root sid r ≡ true) ⊎ (find_scope sid r.scopes ≡ none)

  -- how a pass ends: nothing was changed, or there are fewer scopes
  abbrev Ended : Type 0 → Bool → Reconciler → Reconciler → Type 0
  Ended Rest b r r' =
      ((b ≡ false) × (r' ≡ r) × Rest) ⊎ ((b ≡ true) × (length r'.scopes < length r.scopes))

  prune_one-Ended :
      (sid : Ulid) (r : Reconciler) (b : Bool)
      → (prune_one root sid r).0 ≡ ok b
      → Ended (Stays r sid) b r (prune_one root sid r).1
  unfolding prune_one on_store update pure ◌>>=◌
  prune_one-Ended sid r b h = elim (Bool-cases (is_kept root sid r)) [
    | inl t ↦ let same = ok-injective (rw t at h) in rw t (inl (sym same, refl, inl refl))
    | inr f ↦ elim (Option-cases (find_scope sid r.scopes)) [
      | inl n ↦
          let same = ok-injective (rw (f, n) at h) in rw (f, n) (inl (sym same, refl, inr refl))
      | inr (sc, k) ↦
          let h1 = rw (f, k) at h in
          let (u, e, g) = >>=-eq-ok (on_store (s.delete_scope sid)) _ r h1 in
          let same = ok-injective (ap (λ x. x.0) (sym g) ∙ h1) in
          let fewer = length-drop_scope_of sid r.scopes sc k in
          rw (f, k, g) (inr (sym same, omega (arith, fewer)))
    ]
  ]

  both-Ended :
      (sid : Ulid) (sids : List Ulid) (r r1 r2 : Reconciler) (b c2 c : Bool)
      → (b || c2) ≡ c
      → Ended (Stays r sid) b r r1
      → Ended (All (Stays r1) sids) c2 r1 r2
      → Ended (All (Stays r) (sid ∷ sids)) c r r2
  both-Ended sid sids r r1 r2 b c2 c total (inl (f, same, stay)) (inl (f2, same2, stay2)) = inl (
    sym total ∙ rw (f, f2) refl,
    same2 ∙ same,
    (stay, subst (λ x. All (Stays x) sids) same stay2),
  )
  both-Ended sid sids r r1 r2 b c2 c total (inl (f, same, stay)) (inr (t2, fewer)) =
      inr (sym total ∙ rw (f, t2) refl, subst (λ x. length r2.scopes < length x.scopes) same fewer)
  both-Ended sid sids r r1 r2 b c2 c total (inr (t, fewer)) (inl (f2, same2, stay2)) =
      inr (sym total ∙ rw t refl, subst (λ x. length x.scopes < length r.scopes) (sym same2) fewer)
  both-Ended sid sids r r1 r2 b c2 c total (inr (t, fewer)) (inr (t2, fewer2)) =
      inr (sym total ∙ rw t refl, omega (arith, fewer, fewer2))

  prune_pass-Ended :
      (sids : List Ulid) (r : Reconciler) (c : Bool)
      → (prune_pass root sids r).0 ≡ ok c
      → Ended (All (Stays r) sids) c r (prune_pass root sids r).1
  unfolding prune_pass pure
  prune_pass-Ended [] r c h = inl (sym (ok-injective h), refl, tt)
  prune_pass-Ended (sid ∷ sids) r c h =
      let (b, e, g) = >>=-eq-ok (prune_one root sid) _ r h in
      let r1 = (prune_one root sid r).1 in
      let h1 = ap (λ x. x.0) (sym g) ∙ h in
      let (c2, e2, g2) = >>=-eq-ok (prune_pass root sids) _ r1 h1 in
      let r2 = (prune_pass root sids r1).1 in
      let total : (b || c2) ≡ c = ok-injective (ap (λ x. x.0) (sym g2) ∙ h1) in
      subst (λ x. Ended (All (Stays r) (sid ∷ sids)) c r x.1) (sym (g ∙ g2))
        (both-Ended sid sids r r1 r2 b c2 c total (prune_one-Ended sid r b e)
          (prune_pass-Ended sids r1 c2 e2))

  abbrev Clean : Reconciler → Type 0
  Clean r = All (Stays r) (descendants root r.scopes)

  -- the last pass changes nothing, and finds nothing to delete
  prune_on-Clean :
      (fuel : ℕ) (r : Reconciler)
      → length r.scopes < fuel
      → (prune_on fuel root r).0 ≡ ok tt
      → Clean (prune_on fuel root r).1
  unfolding prune_on pure
  prune_on-Clean zero r room h = ground (arith, room)
  prune_on-Clean (suc fuel) r room h =
      let (c, e, g) = >>=-eq-ok (prune_pass root (descendants root r.scopes)) _ r h in
      let r1 = (prune_pass root (descendants root r.scopes) r).1 in
      let next : Bool → Exec Reconciler (Unit {0}) =
        λ b. if b then prune_on fuel root else pure tt in
      elim (prune_pass-Ended (descendants root r.scopes) r c e) [
        | inl (f, same, stay) ↦
            let ends = g ∙ ap (λ b. next b r1) f in
            subst Clean (sym (ap (λ x. x.1) ends ∙ same)) stay
        | inr (t, fewer) ↦
            let goes = g ∙ ap (λ b. next b r1) t in
            subst (λ x. Clean x.1) (sym goes)
              (prune_on-Clean fuel r1 (omega (arith, room, fewer)) (ap (λ x. x.0) (sym goes) ∙ h))
      ]

  Stays-kept :
      (r : Reconciler) (sid : Ulid)
      → In sid (descendants root r.scopes)
      → Stays r sid
      → is_kept root sid r ≡ true
  unfolding descendants
  Stays-kept r sid i (inl k) = k
  Stays-kept r sid i (inr n) =
      elim (walk_down-In r.scopes (suc (suc (length r.scopes))) (root ∷ []) sid i) [
        | inl (inl e) ↦ rw (e, ==_refl root) refl
        | inl (inr x) ↦ elim x [ ]
        | inr (c, j, e) ↦
            elim (In-find_scope c r.scopes j (ap (λ x. find_scope x r.scopes) (sym e) ∙ n)) [ ]
      ]

  -- Once the pruning has succeeded, each scope that is reached from the root is the root itself, or
  -- holds an artifact of the index, or has a child: no empty scope is left, also none that became
  -- empty during the pruning, and the bound on the passes was enough.
  pub prune_empty-kept :
      (r : Reconciler)
      → (prune_empty root r).0 ≡ ok tt
      → (sid : Ulid) → In sid (descendants root (prune_empty root r).1.scopes)
      → is_kept root sid (prune_empty root r).1 ≡ true
  unfolding prune_empty
  prune_empty-kept r h sid i =
      let r' = (prune_empty root r).1 in
      let stays = prune_on-Clean (suc (length r.scopes)) r (omega arith) h in
      Stays-kept r' sid i (All-In (Stays r') (descendants root r'.scopes) sid stays i)
