-- ===== src/Runtime/Calls/Reads.antt =====
-- internal/runtime/dispatch.go: what the methods that read leave of the engine.
use ioc.Base.{
  ℕ, List, [], ◌∷◌, Text, text_eq, text_eq→≡, some, reads, pure, bind_keeps, ok, ◌≡◌, ap, ◌∙◌, inl,
  inr, Bool-cases, Option-cases, any, some-injective,
}
use ioc.Core.Types.{Ulid}
use ioc.Search.{Unicode}
use ioc.Storage.Meta.{MetaEnv}
use ioc.Storage.Interfaces.{Blobs, Vectors, Embedder}
use ioc.Engine.State.{Engine, look}
use ioc.Engine.Query.{Rankers, neighbors, neighbour_query}
use ioc.Engine.Query.Effects.{OnlyTraces, OnlyTraces-refl, query-OnlyTraces}
use ioc.Runtime.Json.{Decoder}
use ioc.Runtime.Methods.{tier_read, tier_of}
use ioc.Runtime.Wire.{
  Method, Wire, Params, name_of, case_of, all_methods, m_create_scope, m_push, m_query, m_neighbors,
  m_publish, m_fork, m_consolidate, m_cross_version, m_rollup_scope, m_delete_artifact,
  m_delete_scope, m_supersede, m_relate, m_set_config,
}
use ioc.Runtime.Calls.{run, call_as, call, read_body, params_body}

-- the case that a method comes to has its name
pub case_of-name :
    (cs : List Method) (method : Text) (c : Method)
    → case_of cs method ≡ some c
    → method ≡ name_of c
unfolding case_of
case_of-name [] method c h = cc
case_of-name (x ∷ cs) method c h = elim (Bool-cases (text_eq method (name_of x))) [
  | inl e ↦ text_eq→≡ method (name_of x) e ∙ ap name_of (some-injective (rw e at h))
  | inr e ↦ case_of-name cs method c (rw e at h)
]

module _ ⦃m : MetaEnv⦄ ⦃b : Blobs⦄ ⦃v : Vectors⦄ ⦃em : Embedder⦄ ⦃u : Unicode⦄
    (rk : Rankers m.floats.Float) where
  pub run-OnlyTraces :
      (c : Method) (p : Params c) (ids : ℕ → Ulid) (now : ℕ) (s : Engine)
      → tier_of (name_of c) ≡ tier_read
      → OnlyTraces s (run rk c p ids now s).1
  unfolding run look pure neighbors tier_of name_of text_eq any
  run-OnlyTraces m_query p ids now s h =
      bind_keeps (OnlyTraces s) _ _ s (query-OnlyTraces rk (ids 0) now p.query s)
        λ out e. query-OnlyTraces rk (ids 0) now p.query s
  run-OnlyTraces m_neighbors p ids now s h =
      let q = neighbour_query rk p.scope p.text p.k in
      bind_keeps (OnlyTraces s) _ _ s (query-OnlyTraces rk (ids 0) now q s)
        λ out e. query-OnlyTraces rk (ids 0) now q s
  run-OnlyTraces m_create_scope p ids now s h = cc
  run-OnlyTraces m_push p ids now s h = cc
  run-OnlyTraces m_publish p ids now s h = cc
  run-OnlyTraces m_fork p ids now s h = cc
  run-OnlyTraces m_consolidate p ids now s h = cc
  run-OnlyTraces m_cross_version p ids now s h = cc
  run-OnlyTraces m_rollup_scope p ids now s h = cc
  run-OnlyTraces m_delete_artifact p ids now s h = cc
  run-OnlyTraces m_delete_scope p ids now s h = cc
  run-OnlyTraces m_supersede p ids now s h = cc
  run-OnlyTraces m_relate p ids now s h = cc
  run-OnlyTraces m_set_config p ids now s h = cc
  run-OnlyTraces c p ids now s h = OnlyTraces-refl s

  module _ ⦃w : Wire⦄ ⦃j : Decoder⦄ where
    -- What the engine's operation keeps, the case of its method keeps.
    pub call_as_keeps :
        (P : Engine → Type 0) (c : Method) (raw : Text) (ids : ℕ → Ulid) (now : ℕ) (s : Engine)
        → P s
        → ((p : Params c) → read_body (params_body c) raw ≡ ok p → P (run rk c p ids now s).1)
        → P (call_as rk c raw ids now s).1
    unfolding call_as reads
    call_as_keeps P c raw ids now s h after =
        bind_keeps P (reads (λ x. read_body (params_body c) raw)) _ s h
          λ p e. bind_keeps P (run rk c p ids now) _ s (after p e) λ r f. after p e

    -- A method of the read tier, an unknown one too, and whatever its parameters, changes no scope,
    -- artifact or edge, no stored content and no stored vector.
    pub call-OnlyTraces :
        (method raw : Text) (ids : ℕ → Ulid) (now : ℕ) (s : Engine)
        → tier_of method ≡ tier_read
        → OnlyTraces s (call rk method raw ids now s).1
    unfolding call
    call-OnlyTraces method raw ids now s h = elim (Option-cases (case_of all_methods method)) [
      | inl e ↦ rw (call, e) (OnlyTraces-refl s)
      | inr (c, e) ↦
          let tier = rw (case_of-name all_methods method c e) at h in
          rw (call, e)
            (call_as_keeps (OnlyTraces s) c raw ids now s (OnlyTraces-refl s)
              (λ p g. run-OnlyTraces c p ids now s tier))
    ]
