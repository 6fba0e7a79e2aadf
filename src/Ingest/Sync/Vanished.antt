-- ===== src/Ingest/Sync/Vanished.antt =====
-- internal/ingest/sync.go: what removeVanished leaves in the run's index.
use ioc.Base.{
  Bool, true, not, ◌&&◌, List, [], ◌∷◌, Text, any, filter, ◌==◌, Option, none, some, ok, pure,
  >>=-eq-ok, ◌≡◌, refl, sym, ap, ◌∙◌, inl, inr, Bool-cases, arith, subst,
}
use ioc.Core.Types.{Ulid, Artifact}
use ioc.Ingest.Reconcile.{Store, Reconciler, update, on_store, delete_chunk, drop_one}
use ioc.Ingest.Reconcile.Index.{Distinct, Distinct-filter, drop_all, drop_all-filter}
use ioc.Ingest.Sync.{
  delete_marking, delete_marked, marked, find_dir, vanish_in, vanish_all, remove_vanished, is_stale,
  is_vanished, descendants,
}

filter-filter :
    (p q : Artifact → Bool) (xs : List Artifact)
    → filter p (filter q xs) ≡ filter (λ a. q a && p a) xs
unfolding filter
filter-filter p q [] = refl
filter-filter p q (x ∷ xs) = ground (arith, filter-filter p q xs)

filter_eq :
    (p q : Artifact → Bool) (xs : List Artifact)
    → ((a : Artifact) → p a ≡ q a)
    → filter p xs ≡ filter q xs
unfolding filter
filter_eq p q [] h = refl
filter_eq p q (x ∷ xs) h = rw (h x, filter_eq p q xs h) refl

filter-true : (xs : List Artifact) → filter (λ a. true) xs ≡ xs
unfolding filter
filter-true [] = refl
filter-true (x ∷ xs) = ap (◌∷◌ x) (filter-true xs)

any-and :
    (a : Artifact) (b : Bool) (sids : List Ulid)
    → any (λ sid. a.scope == sid && b) sids ≡ any (λ sid. a.scope == sid) sids && b
unfolding any
any-and a b [] = refl
any-and a b (s ∷ sids) = ground (arith, any-and a b sids)

module _ ⦃s : Store⦄ where
  -- the index of the artifacts, with the rest of what the pass reads
  record Left (arts : List Artifact) (r r' : Reconciler) : Type 0 where
    left : r'.artifacts ≡ arts
    same_want : r'.want_paths ≡ r.want_paths
    same_scopes : r'.scopes ≡ r.scopes

  marked-Left :
      (dir : Option Text) (arts : List Artifact) (r r' : Reconciler)
      → Left arts r r'
      → Left arts r (marked dir r')
  marked-Left none arts r r' h = h
  marked-Left (some d) arts r r' h = record {
    left = h.left;
    same_want = h.same_want;
    same_scopes = h.same_scopes;
  }

  delete_marking-Left :
      (dir : Option Text) (a : Artifact) (r : Reconciler)
      → (delete_marking dir a r).0 ≡ ok tt
      → Left (drop_one a r.artifacts) r (delete_marking dir a r).1
  unfolding delete_marking delete_chunk on_store update
  delete_marking-Left dir a r h =
      let (u, e, g) = >>=-eq-ok (delete_chunk a) _ r h in
      let (v, f, k) = >>=-eq-ok (on_store (s.delete_artifact a.id)) _ r e in
      let r1 = (delete_chunk a r).1 in
      let done =
        subst (λ x. Left (drop_one a r.artifacts) r x.1) (sym k)
          (record { left = refl; same_want = refl; same_scopes = refl }) in
      subst (λ x. Left (drop_one a r.artifacts) r x.1) (sym g)
        (marked-Left dir (drop_one a r.artifacts) r r1 done)

  delete_marked-Left :
      (dir : Option Text) (as' : List Artifact) (r : Reconciler)
      → (delete_marked dir as' r).0 ≡ ok tt
      → Left (drop_all as' r.artifacts) r (delete_marked dir as' r).1
  unfolding delete_marked pure drop_all
  delete_marked-Left dir [] r h = record { left = refl; same_want = refl; same_scopes = refl }
  delete_marked-Left dir (a ∷ as') r h =
      let (u, e, g) = >>=-eq-ok (delete_marking dir a) _ r h in
      let first = delete_marking-Left dir a r e in
      let r1 = (delete_marking dir a r).1 in
      let rest = delete_marked-Left dir as' r1 (ap (λ x. x.0) (sym g) ∙ h) in
      subst (λ x. Left (drop_all (a ∷ as') r.artifacts) r x.1) (sym g)
        (record {
          left = rest.left ∙ ap (drop_all as') first.left;
          same_want = rest.same_want ∙ first.same_want;
          same_scopes = rest.same_scopes ∙ first.same_scopes;
        })

  vanish_in-Left :
      (rev : List (Text × Ulid)) (sid : Ulid) (r : Reconciler) (ps : List Text)
      → Distinct r.artifacts
      → (vanish_in rev sid r).0 ≡ ok ps
      → Left
          (filter (λ a. not (is_vanished r.want_paths sid a)) r.artifacts)
          r
          (vanish_in rev sid r).1
  unfolding vanish_in pure
  vanish_in-Left rev sid r ps d h =
      let p = is_vanished r.want_paths sid in
      let del = filter p r.artifacts in
      let (u, e, g) = >>=-eq-ok (delete_marked (find_dir sid rev) del) _ r h in
      let done = delete_marked-Left (find_dir sid rev) del r e in
      subst (λ x. Left (filter (λ a. not (p a)) r.artifacts) r x.1) (sym g)
        (record {
          left = done.left ∙ drop_all-filter p r.artifacts d;
          same_want = done.same_want;
          same_scopes = done.same_scopes;
        })

  abbrev none_vanished : List Text → List Ulid → Artifact → Bool
  none_vanished want sids a = not (any (λ sid. is_vanished want sid a) sids)

  none_vanished-cons :
      (want : List Text) (sid : Ulid) (sids : List Ulid) (a : Artifact)
      → (not (is_vanished want sid a) && none_vanished want sids a)
        ≡ none_vanished want (sid ∷ sids) a
  unfolding any
  none_vanished-cons want sid sids a = elim (Bool-cases (is_vanished want sid a)) [
    | inl t ↦ rw t refl
    | inr f ↦ rw f refl
  ]

  vanish_all-Left :
      (rev : List (Text × Ulid)) (sids : List Ulid) (r : Reconciler) (ps : List Text)
      → Distinct r.artifacts
      → (vanish_all rev sids r).0 ≡ ok ps
      → Left (filter (none_vanished r.want_paths sids) r.artifacts) r (vanish_all rev sids r).1
  unfolding vanish_all pure any
  vanish_all-Left rev [] r ps d h = record {
    left = sym (filter-true r.artifacts);
    same_want = refl;
    same_scopes = refl;
  }
  vanish_all-Left rev (sid ∷ sids) r ps d h =
      let (ps1, e, g) = >>=-eq-ok (vanish_in rev sid) _ r h in
      let r1 = (vanish_in rev sid r).1 in
      let (qs, e2, g2) = >>=-eq-ok (vanish_all rev sids) _ r1 (ap (λ x. x.0) (sym g) ∙ h) in
      let p = is_vanished r.want_paths sid in
      let first = vanish_in-Left rev sid r ps1 d e in
      let d1 = subst Distinct (sym first.left) (Distinct-filter (λ a. not (p a)) r.artifacts d) in
      let rest = vanish_all-Left rev sids r1 qs d1 e2 in
      subst (λ x. Left (filter (none_vanished r.want_paths (sid ∷ sids)) r.artifacts) r x.1)
        (sym (g ∙ g2))
        (record {
          left =
              rest.left
              ∙ ap (λ w. filter (none_vanished w sids) r1.artifacts) first.same_want
              ∙ ap (filter (none_vanished r.want_paths sids)) first.left
              ∙ filter-filter (none_vanished r.want_paths sids) (λ a. not (p a)) r.artifacts
              ∙ filter_eq _ _ r.artifacts (none_vanished-cons r.want_paths sid sids);
          same_want = rest.same_want ∙ first.same_want;
          same_scopes = rest.same_scopes ∙ first.same_scopes;
        })

  -- an artifact of a scope below the root with a file that the walk did not see
  abbrev pub is_left : Ulid → Reconciler → Artifact → Bool
  is_left root r a =
      not (any (λ sid. a.scope == sid) (descendants root r.scopes) && is_stale r.want_paths a)

  -- Where no two entries of the index are one artifact: once the pass over the vanished files has
  -- succeeded, what is left of the index is, in its order, all but the documents of a scope at or
  -- below the root whose path is not among those that the walk saw; the scopes are as they were.
  pub remove_vanished-filter :
      (root : Ulid) (r : Reconciler)
      → Distinct r.artifacts
      → (remove_vanished root r).0 ≡ ok tt
      → ((remove_vanished root r).1.artifacts ≡ filter (is_left root r) r.artifacts)
        × ((remove_vanished root r).1.scopes ≡ r.scopes)
  unfolding remove_vanished update
  remove_vanished-filter root r d h =
      let sids = descendants root r.scopes in
      let (ps, e, g) = >>=-eq-ok (vanish_all r.dir_scope sids) _ r h in
      let done = vanish_all-Left r.dir_scope sids r ps d e in
      (
        ap (λ x. x.1.artifacts) g
            ∙ done.left
            ∙ filter_eq _ _ r.artifacts (λ a. ap not (any-and a (is_stale r.want_paths a) sids)),
        ap (λ x. x.1.scopes) g ∙ done.same_scopes,
      )
