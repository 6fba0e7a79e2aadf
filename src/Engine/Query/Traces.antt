-- ===== src/Engine/Query/Traces.antt =====
-- internal/engine/query.go: the trace that a query leaves.
use ioc.Base.{
  ℕ, List, Bool, ◌≡◌, refl, sym, ap, ok-injective, Result, ok, err, bind_ends, Exec, guard, inl,
  inr, ◌∙◌, subst, true, Bool-cases, transact-cases, text_eq_refl, ◌>>=◌, ◌>>◌, invalid_input,
}
use ioc.Core.Types.{Ulid, Hit, TraceRecord}
use ioc.Core.Utf8.{is_utf8_trace}
use ioc.Storage.Bolt.{traces}
use ioc.Storage.Meta.{MetaEnv, put_trace, get_trace, put_json}
use ioc.Storage.Meta.Values.{get_json-put_json}
use ioc.Storage.Interfaces.{Blobs, Vectors, Embedder}
use ioc.Search.{Unicode}
use ioc.Engine.State.{Engine, look, on_db, embed_query}
use ioc.Engine.Query.{Query, Rankers, query, answer, dims_match, record_trace, recorded, trace}

module _ ⦃m : MetaEnv⦄ where
  put_trace_stored :
      (t : TraceRecord m.floats.Float) (d : m.bolt.Db)
      → is_utf8_trace t ≡ true
      → (put_trace t d).0 ≡ ok tt
      → get_trace t.query_id (put_trace t d).1 ≡ ok t
  unfolding put_trace get_trace
  put_trace_stored t d clean h =
      let key = m.ulids.text t.query_id in
      elim (transact-cases (put_json traces m.trace_json key t) d) [
        | inl (d', p, q) ↦
            rw
              (
                q,
                get_json-put_json traces m.trace_json key t d d' p key,
                text_eq_refl key,
                m.decoded_utf8_trace t clean,
              )
              refl
        | inr (e, p, q) ↦ cc
      ]

module _ ⦃m : MetaEnv⦄ ⦃b : Blobs⦄ ⦃v : Vectors⦄ where
  -- the store has a trace of the query under its identifier, with the hits that it returned
  abbrev pub Traced :
      Ulid → Query m.floats.Float → Ulid × List (Hit m.floats.Float) → Engine → Type 0
  Traced id q out s =
      (out.0 ≡ id)
      × (t : TraceRecord m.floats.Float) × (get_trace id s.db ≡ ok t)
      × (t.hits ≡ out.1)
      × (t.scope ≡ q.scope)
      × (t.text ≡ q.text)

  -- A block that succeeds past a test of the state.
  test_ends :
      {B : Type 0} (P : B → Engine → Type 0) (t : Engine → Bool) (k : Exec Engine B) (s : Engine)
      → ((x : B) → (k s).0 ≡ ok x → P x (k s).1)
      → (x : B) → (((λ y. guard (t y) invalid_input y) >> k) s).0 ≡ ok x
      → P x (((λ y. guard (t y) invalid_input y) >> k) s).1
  unfolding ◌>>=◌ guard
  test_ends P t k s rest x h = elim (Bool-cases (t s)) [
    | inl e ↦ rw e (rest x (rw e at h))
    | inr e ↦ let g = rw e at h in cc
  ]

  module _ ⦃em : Embedder⦄ ⦃u : Unicode⦄ (rk : Rankers m.floats.Float) where
    -- the trace of what was found is in UTF-8, and its write succeeds
    abbrev IsKept :
        Ulid → ℕ → Query m.floats.Float → Engine → List (Hit m.floats.Float) × List Ulid → Type 0
    IsKept id now q s found =
        (is_utf8_trace (trace rk id now q found) ≡ true)
        × ((put_trace (trace rk id now q found) s.db).0 ≡ ok tt)

    recorded-Traced :
        (id : Ulid) (now : ℕ) (q : Query m.floats.Float)
        (r : Result (List (Hit m.floats.Float) × List Ulid)) (s : Engine)
        → ((found : List (Hit m.floats.Float) × List Ulid) → r ≡ ok found → IsKept id now q s found)
        → (out : Ulid × List (Hit m.floats.Float)) → (recorded rk id now q r s).0 ≡ ok out
        → Traced id q out (recorded rk id now q r s).1
    unfolding record_trace on_db
    recorded-Traced id now q (err e) s kept out h = cc
    recorded-Traced id now q (ok found) s kept out h =
        let t = trace rk id now q found in
        let same = ok-injective h in
        let (clean, w) = kept found refl in
        (
          sym (ap (λ p. p.0) same),
          t,
          put_trace_stored t s.db clean w,
          ap (λ p. p.1) same,
          refl,
          refl,
        )

    -- A query whose question is embedded and whose hits are found, and whose trace is in UTF-8 and is
    -- written, answers only with a trace left: under the identifier that it returns, the store has
    -- the query's scope, its text and the hits that it returned.
    pub get_trace-query :
        (id : Ulid) (now : ℕ) (q : Query m.floats.Float) (s : Engine)
        → (qvec : List ℕ) → (embed_query q.text s).0 ≡ ok qvec
        → (found : List (Hit m.floats.Float) × List Ulid)
        → answer rk now q qvec (embed_query q.text s).1 ≡ ok found
        → is_utf8_trace (trace rk id now q found) ≡ true
        → (put_trace (trace rk id now q found) (embed_query q.text s).1.db).0 ≡ ok tt
        → (out : Ulid × List (Hit m.floats.Float)) → (query rk id now q s).0 ≡ ok out
        → Traced id q out (query rk id now q s).1
    unfolding query look
    get_trace-query id now q s qvec embedded found answered clean w =
        bind_ends (Traced id q) _ _ s λ scope e.
          let s1 = (embed_query q.text s).1 in
          bind_ends (Traced id q) _ _ s λ qvec' f.
            let same : qvec' ≡ qvec = ok-injective (sym f ∙ embedded) in
            let answered' = subst (λ x. answer rk now q x s1 ≡ ok found) (sym same) answered in
            test_ends (Traced id q) (λ x. dims_match rk qvec' x.emb) _ s1
              (recorded-Traced id now q (answer rk now q qvec' s1) s1
                λ f' e'. subst (IsKept id now q s1) (ok-injective (sym answered' ∙ e')) (clean, w))
