-- ===== src/Ingest/Contain/Roots.antt =====
-- internal/ingest/resolve.go: a path's scope, and the sandbox around it.
use ioc.Base.{
  arith, ℕ, false, Text, some, ok, pure, ◌>>=◌, ◌≡◌, refl, sym, ap, ◌∙◌, inl, inr, Result-cases,
  bind_ends, ok-injective,
}
use ioc.Core.Types.{Ulid, Scope, is_zero, nil_id}
use ioc.Storage.Meta.{MetaEnv, get_scope, get_config, put_config}
use ioc.Storage.Meta.Values.{get_config-put_config}
use ioc.Storage.Meta.Frames.{SameRecords, put_config-SameRecords}
use ioc.Storage.Interfaces.{Blobs, Vectors, Embedder}
use ioc.Engine.State.{Engine, on_db}
use ioc.Ingest.Contain.{
  Paths, contain, real_root, fold_case, escapes, resolve_ingest_root, setting_of, root_scope,
  rooted, scope_for, remembered, path_key,
}

module _ ⦃p : Paths⦄ where
  -- the real path is, cleaned, that of the sandbox joined with a relative path that does not go up
  pub record IsWithin (root rt : Text) : Type 0 where
    pub top : Text
    pub rel : Text
    pub real : real_root root ≡ ok top
    pub joined : p.clean (p.join (fold_case top) rel) ≡ p.clean (fold_case rt)
    pub stays : escapes rel ≡ false

  -- `filepath.Rel`: what it returns, joined to the base, is lexically equivalent to the
  -- target; on Windows both are in lower case
  abbrev pub Leads : Type 0
  Leads =
      (top rt rel : Text)
      → p.rel (fold_case top) (fold_case rt) ≡ ok rel
      → p.clean (p.join (fold_case top) rel) ≡ p.clean (fold_case rt)

module _ ⦃m : MetaEnv⦄ ⦃b : Blobs⦄ ⦃v : Vectors⦄ ⦃em : Embedder⦄ ⦃p : Paths⦄ where
  rooted-config :
      (key root : Text) (given : Ulid) (title : Text) (id : Ulid) (now : ℕ) (s : Engine)
      → (out : Ulid) → (rooted key root given title id now s).0 ≡ ok out
      → get_config key (rooted key root given title id now s).1.db ≡ some (m.ulids.text out)
  unfolding rooted on_db pure
  rooted-config key root given title id now s =
      let P = λ (o : Ulid) (x : Engine). get_config key x.db ≡ some (m.ulids.text o) in
      bind_ends P _ _ s λ scope e.
        let s1 = (scope_for key root given title id now s).1 in
        bind_ends P (on_db (put_config key (m.ulids.text scope))) _ s1 λ u f out h.
          get_config-put_config key (m.ulids.text scope) s1.db
            (omega (arith, m.ulids.length-text scope)) f
          ∙ ap (λ i. some (m.ulids.text i)) (ok-injective h)

  existing_id :
      (id : Ulid) (sc : Scope) (key : Text) (s : Engine)
      → get_config key s.db ≡ some (m.ulids.text id)
      → get_scope id s.db ≡ ok sc
      → remembered key s ≡ id
  unfolding remembered
  existing_id id sc key s c e = rw (remembered, c, m.ulids.parse-text id, e) refl

  scope_for-remembered :
      (key root : Text) (title : Text) (id : Ulid) (now : ℕ) (s : Engine) (kept : Ulid)
      → remembered key s ≡ kept
      → is_zero kept ≡ false
      → scope_for key root nil_id title id now s ≡ (ok kept, s)
  unfolding scope_for
  scope_for-remembered key root title id now s kept e z = rw (e, z) refl

  rooted-remembered :
      (key root : Text) (title : Text) (id : Ulid) (now : ℕ) (s : Engine) (kept : Ulid)
      → remembered key s ≡ kept
      → is_zero kept ≡ false
      → rooted key root nil_id title id now s
        ≡ (on_db (put_config key (m.ulids.text kept)) >>= (λ u. pure kept)) s
  unfolding rooted ◌>>=◌
  rooted-remembered key root title id now s kept e z =
      rw (scope_for-remembered key root title id now s kept e z) refl

  put_back :
      (key : Text) (kept : Ulid) (s : Engine) (out : Ulid)
      → ((on_db (put_config key (m.ulids.text kept)) >>= (λ u. pure kept)) s).0 ≡ ok out
      → (out ≡ kept)
        × SameRecords s.db
            ((on_db (put_config key (m.ulids.text kept)) >>= (λ u. pure kept)) s).1.db
  unfolding on_db pure
  put_back key kept s out =
      bind_ends (λ o (x : Engine). (o ≡ kept) × SameRecords s.db x.db)
        (on_db (put_config key (m.ulids.text kept))) (λ u. pure kept) s
        (λ u e o h. (sym (ok-injective h), put_config-SameRecords key (m.ulids.text kept) s.db)) out

  -- The scope of a path, once an ingestion of it has succeeded: while the settings are as that call left
  -- them, the sandbox admits the path as it did, and the scope is there, a call without a scope of
  -- its own that succeeds gives the same scope and changes no scope, artifact, edge or trace.
  pub root_scope-Kept :
      (root : Text) (given : Ulid) (title : Text) (id : Ulid) (now : ℕ) (s : Engine) (kept : Ulid)
      → (root_scope root given title id now s).0 ≡ ok kept
      → is_zero kept ≡ false
      → (t : Engine)
      → ((key : Text)
          → get_config key t.db ≡ get_config key (root_scope root given title id now s).1.db)
      → contain (resolve_ingest_root (setting_of t)) root
        ≡ contain (resolve_ingest_root (setting_of s)) root
      → (sc : Scope) → get_scope kept t.db ≡ ok sc
      → (title' : Text) (id' : Ulid) (now' : ℕ) (out : Ulid)
      → (root_scope root nil_id title' id' now' t).0 ≡ ok out
      → (out ≡ kept) × SameRecords t.db (root_scope root nil_id title' id' now' t).1.db
  unfolding root_scope
  root_scope-Kept root given title id now s kept h z t settings sandbox sc there title' id' now' out
        k =
      elim (Result-cases (contain (resolve_ingest_root (setting_of s)) root)) [
        | inl (abs, e) ↦
            let key = path_key abs in
            let stored =
              settings key
              ∙ rw (root_scope, e)
                  (rooted-config key root given title id now s kept (rw (root_scope, e) at h)) in
            let back =
              rooted-remembered key root title' id' now' t kept
                (existing_id kept sc key t stored there) z in
            let g = rw (root_scope, sandbox, e, back) at k in
            rw (root_scope, sandbox, e, back) (put_back key kept t out g)
        | inr (x, e) ↦ let g = rw (root_scope, e) at h in cc
      ]
