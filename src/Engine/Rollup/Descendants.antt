-- ===== src/Engine/Rollup/Descendants.antt =====
-- internal/engine/rollup.go: the walk of descendantScopes, and its end.
use ioc.Base.{
  append_assoc, filter, filter-In, In-filter, ℕ, zero, suc, ◌+◌, ◌≤◌, true, false, List, [], ◌∷◌,
  ◌++◌, ◌==◌, ==_iff, any, length, length-append, ok, ◌≡◌, ◌≢◌, ◌↔◌, refl, sym, ap, ◌∙◌, inl, inr,
  ◌⊎◌, In, In-append, In-append_left, In-append_right, arith, Bool-cases, subst,
}
use ioc.Core.Types.{Ulid, Scope}
use ioc.Storage.Bolt.{scopes}
use ioc.Storage.Meta.{MetaEnv, get_scope, child_scopes, list_scopes}
use ioc.Storage.Meta.Tables.{scan_iff, scan_keyed}
use ioc.Engine.Integrity.{IsIntact, scope_key}
use ioc.Engine.Visibility.Ancestors.{
  unvisited, length-strip, length-strip_found, lookup-unvisited, scope_entry,
}
use ioc.Engine.Rollup.{fresh_kids, ids_of, descend, descendant_scopes}

abbrev Known : Ulid → List Ulid → Type 0
Known x visited = any (λ v. v == x) visited ≡ true

ids_of-In : (k : Scope) (ks : List Scope) → In k ks → In k.id (ids_of ks)
ids_of-In k [] i = elim i [ ]
ids_of-In k (x ∷ ks) (inl e) = inl (ap (λ s. s.id) e)
ids_of-In k (x ∷ ks) (inr i) = inr (ids_of-In k ks i)

ids_of-append : (xs ys : List Scope) → ids_of (xs ++ ys) ≡ ids_of xs ++ ids_of ys
ids_of-append [] ys = refl
ids_of-append (x ∷ xs) ys = ap (◌∷◌ x.id) (ids_of-append xs ys)

length-ids_of : (xs : List Scope) → length (ids_of xs) ≡ length xs
length-ids_of [] = refl
length-ids_of (x ∷ xs) = ap suc (length-ids_of xs)

-- what the loop over the kids leaves
fresh-Known :
    (visited : List Ulid) (ks : List Scope) (x : Ulid)
    → Known x visited
    → Known x (fresh_kids visited ks).1
unfolding any
fresh-Known visited [] x h = h
fresh-Known visited (k ∷ ks) x h = elim (Bool-cases (any (λ v. v == k.id) visited)) [
  | inl t ↦ rw t (fresh-Known visited ks x h)
  | inr f ↦ rw f (fresh-Known (k.id ∷ visited) ks x (ground (arith, h)))
]

kids-Known :
    (visited : List Ulid) (ks : List Scope) (k : Scope)
    → In k ks
    → Known k.id (fresh_kids visited ks).1
unfolding any
kids-Known visited [] k i = elim i [ ]
kids-Known visited (x ∷ ks) k (inl e) = elim (Bool-cases (any (λ v. v == x.id) visited)) [
  | inl t ↦ rw (e, t) (fresh-Known visited ks x.id t)
  | inr f ↦ rw (e, f) (fresh-Known (x.id ∷ visited) ks x.id (ground arith))
]
kids-Known visited (x ∷ ks) k (inr i) = elim (Bool-cases (any (λ v. v == x.id) visited)) [
  | inl t ↦ rw t (kids-Known visited ks k i)
  | inr f ↦ rw f (kids-Known (x.id ∷ visited) ks k i)
]

Known-fresh :
    (visited : List Ulid) (ks : List Scope) (x : Ulid)
    → Known x (fresh_kids visited ks).1
    → Known x visited ⊎ In x (ids_of (fresh_kids visited ks).0)
unfolding any
Known-fresh visited [] x h = inl h
Known-fresh visited (k ∷ ks) x h = elim (Bool-cases (any (λ v. v == k.id) visited)) [
  | inl t ↦ rw t (Known-fresh visited ks x (rw t at h))
  | inr f ↦ elim (Known-fresh (k.id ∷ visited) ks x (rw f at h)) [
    | inr i ↦ inr (rw f (inr i))
    | inl y ↦ elim (Bool-cases (k.id == x)) [
      | inl same ↦ inr (rw f (inl (sym ((==_iff k.id x).0 same))))
      | inr other ↦ inl (rw other at y)
    ]
  ]
]

-- a new kid was not visited
fresh-In :
    (visited : List Ulid) (ks : List Scope) (k : Scope)
    → In k (fresh_kids visited ks).0
    → In k ks × (any (λ v. v == k.id) visited ≡ false)
unfolding any
fresh-In visited [] k i = elim i [ ]
fresh-In visited (x ∷ ks) k i = elim (Bool-cases (any (λ v. v == x.id) visited)) [
  | inl t ↦ let (j, n) = fresh-In visited ks k (rw t at i) in (inr j, n)
  | inr f ↦ elim (heads x k (fresh_kids (x.id ∷ visited) ks).0 (rw f at i)) [
    | inl e ↦ (inl e, ap (λ s. any (λ v. v == s.id) visited) e ∙ f)
    | inr j ↦ let (l, n) = fresh-In (x.id ∷ visited) ks k j in (inr l, ground (arith, n))
  ]
]
  where
    heads : (x k : Scope) (ks : List Scope) → In k (x ∷ ks) → (k ≡ x) ⊎ In k ks
    heads x k ks i = i

unknown :
    (visited : List Ulid) (ks : List Scope) (x : Ulid)
    → any (λ v. v == x) (fresh_kids visited ks).1 ≡ false
    → any (λ v. v == x) visited ≡ false
unknown visited ks x h = elim (Bool-cases (any (λ v. v == x) visited)) [
  | inr f ↦ f
  | inl t ↦ cc (fresh-Known visited ks x t, h)
]

regroup :
    (queue : List Ulid) (new rest : List Scope)
    → (queue ++ ids_of new) ++ ids_of rest ≡ queue ++ ids_of (new ++ rest)
regroup queue new rest =
    append_assoc queue (ids_of new) (ids_of rest)
    ∙ ap (λ l. queue ++ l) (sym (ids_of-append new rest))

module _ ⦃m : MetaEnv⦄ (d : m.bolt.Db) (h : IsIntact d) where
  -- the kids of a scope: the stored scopes with it as their parent
  abbrev AreKids : Ulid → List Scope → Type 0
  AreKids cur kids =
      (k : Scope) → In k kids ↔ ((get_scope k.id d ≡ ok k) × ((k.parent == cur) ≡ true))

  child_scopes-AreKids :
      (cur : Ulid) → (kids : List Scope) × (child_scopes cur d ≡ ok kids) × AreKids cur kids
  unfolding child_scopes list_scopes get_scope
  child_scopes-AreKids cur =
      let (every, p) = scan_keyed scopes m.scope_json scope_key (λ x. true) d h.scopes_keyed in
      let kids = filter (λ s. s.parent == cur) every in
      let stored = λ (k : Scope).
        scan_iff scopes m.scope_json scope_key (λ x. true) d every k h.scopes_keyed p in
      (
        kids,
        rw p refl,
        λ k. (
          λ i. let (j, t) = filter-In (λ s. s.parent == cur) every k i in (((stored k).0 j).0, t),
          λ e. In-filter (λ s. s.parent == cur) every k ((stored k).1 (e.0, refl)) e.1,
        ),
      )

  abbrev left : List Ulid → ℕ
  left visited = length (unvisited visited (m.bolt.for_each d scopes))

  -- each new kid takes an entry from those that were not visited
  fresh_left :
      (visited : List Ulid) (ks : List Scope)
      → ((k : Scope) → In k ks → get_scope k.id d ≡ ok k)
      → length (fresh_kids visited ks).0 + left (fresh_kids visited ks).1 ≤ left visited
  unfolding unvisited
  fresh_left visited [] stored = omega arith
  fresh_left visited (k ∷ ks) stored = elim (Bool-cases (any (λ v. v == k.id) visited)) [
    | inl t ↦ rw t (fresh_left visited ks (λ x i. stored x (inr i)))
    | inr f ↦
        let es = m.bolt.for_each d scopes in
        let (blob, entry) = scope_entry k.id k d (stored k (inl refl)) in
        let less =
          length-strip_found (m.ulids.text k.id) blob (unvisited visited es)
            (lookup-unvisited visited k.id es f ∙ entry) in
        rw f (omega (arith, less, fresh_left (k.id ∷ visited) ks (λ x i. stored x (inr i))))
  ]

  -- What the walk from `queue` finds: stored scopes that were not visited, each below one of the queue
  -- or of those found; and every scope below one of these is found or was visited.
  record Found (visited queue : List Ulid) (out : List Scope) : Type 0 where
    sound :
        (k : Scope)
        → In k out
        → (get_scope k.id d ≡ ok k)
          × (any (λ v. v == k.id) visited ≡ false)
          × In k.parent (queue ++ ids_of out)
    complete :
        (k : Scope)
        → get_scope k.id d ≡ ok k
        → In k.parent (queue ++ ids_of out)
        → Known k.id visited ⊎ In k.id (ids_of out)

  Found-step :
      (visited : List Ulid) (cur : Ulid) (queue : List Ulid) (kids rest : List Scope)
      → AreKids cur kids
      → Found (fresh_kids visited kids).1 (queue ++ ids_of (fresh_kids visited kids).0) rest
      → Found visited (cur ∷ queue) ((fresh_kids visited kids).0 ++ rest)
  Found-step visited cur queue kids rest are found =
      let new = (fresh_kids visited kids).0 in
      let seen = (fresh_kids visited kids).1 in
      let same = regroup queue new rest in
      let settle : (x : Ulid) → Known x seen → Known x visited ⊎ In x (ids_of (new ++ rest)) =
        λ x y. elim (Known-fresh visited kids x y) [
          | inl old ↦ inl old
          | inr i ↦
              inr (rw (ids_of-append new rest) (In-append_left x (ids_of new) (ids_of rest) i))
        ] in
      record {
        sound = λ k i. elim (In-append k new rest i) [
          | inl j ↦
              let (l, n) = fresh-In visited kids k j in
              let (g, t) = (are k).0 l in (g, n, inl ((==_iff k.parent cur).0 t))
          | inr j ↦
              let (g, n, par) = found.sound k j in
              (g, unknown visited kids k.id n, inr (subst (In k.parent) same par))
        ];
        complete = λ k g i. elim i [
          | inl e ↦
              settle k.id (kids-Known visited kids k ((are k).1 (g, (==_iff k.parent cur).1 e)))
          | inr j ↦ elim (found.complete k g (subst (In k.parent) (sym same) j)) [
            | inl y ↦ settle k.id y
            | inr l ↦
                inr
                  (rw (ids_of-append new rest) (In-append_right k.id (ids_of new) (ids_of rest) l))
          ]
        ];
      }

  descend-Found :
      (fuel : ℕ) (visited queue : List Ulid)
      → length queue + left visited ≤ fuel
      → (out : List Scope) × (descend fuel visited queue d ≡ ok out) × Found visited queue out
  unfolding descend
  descend-Found zero visited [] enough =
      ([], refl, record { sound = λ k i. elim i [ ]; complete = λ k g i. elim i [ ] })
  descend-Found (suc fuel) visited [] enough =
      ([], refl, record { sound = λ k i. elim i [ ]; complete = λ k g i. elim i [ ] })
  descend-Found zero visited (cur ∷ queue) enough = absurd (omega (arith, enough))
  descend-Found (suc fuel) visited (cur ∷ queue) enough =
      let (kids, p, are) = child_scopes-AreKids cur in
      let new = (fresh_kids visited kids).0 in
      let seen = (fresh_kids visited kids).1 in
      let less = fresh_left visited kids (λ k i. ((are k).0 i).0) in
      let (rest, q, found) =
        descend-Found fuel seen (queue ++ ids_of new)
          (omega (arith, enough, less, length-append queue (ids_of new), length-ids_of new)) in
      (new ++ rest, rw (p, q) refl, Found-step visited cur queue kids rest are found)

  -- `out` are the scopes below `root`: stored scopes other than the root, each with the root or another
  -- of them as its parent, and with every scope of such a parent, but for the root itself.
  pub record AreDescendants (root : Ulid) (out : List Scope) : Type 0 where
    pub below :
        (k : Scope)
        → In k out
        → (get_scope k.id d ≡ ok k) × (k.id ≢ root) × ((k.parent ≡ root) ⊎ In k.parent (ids_of out))
    pub closed :
        (k : Scope)
        → get_scope k.id d ≡ ok k
        → (k.parent ≡ root) ⊎ In k.parent (ids_of out)
        → (k.id ≡ root) ⊎ In k.id (ids_of out)

  -- In an intact store, one with a cycle of parents too, the walk down from a scope ends, with the
  -- scopes below it.
  pub descendant_scopes-AreDescendants :
      (root : Ulid)
      → (out : List Scope) × (descendant_scopes root d ≡ ok out) × AreDescendants root out
  unfolding descendant_scopes unvisited any
  descendant_scopes-AreDescendants root =
      let es = m.bolt.for_each d scopes in
      let (out, p, found) =
        descend-Found (suc (length es)) (root ∷ []) (root ∷ [])
          (omega (arith, length-strip (m.ulids.text root) es)) in
      (
        out,
        p,
        record {
          below = λ k i. let (g, n, par) = found.sound k i in (g, λ e. other k.id root n e, par);
          closed = λ k g i. elim (found.complete k g i) [
            | inl y ↦ inl (only k.id root y)
            | inr j ↦ inr j
          ];
        },
      )
    where
      other : (x root : Ulid) → any (λ v. v == x) (root ∷ []) ≡ false → x ≡ root → ⊥
      other x root n e = ground (arith, n, e)

      only : (x root : Ulid) → Known x (root ∷ []) → x ≡ root
      only x root y = ground (arith, y)
