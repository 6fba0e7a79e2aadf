-- ===== src/Engine/Provenance.antt =====
-- internal/engine/engine.go: the provenance that a Push records under the "trust" key (V17).
use ioc.Base.{
  ℕ, Text, ok, ap, sym, ◌∙◌, bind_ends, ok-injective, throw, pure, false, List, [], ◌∷◌, none, some,
  ◌≡◌, refl, subst, inl, inr, text_eq, text_eq_iff, is_empty, any, Bool-cases, if◌then◌else◌, arith,
}
use ioc.Core.Types.{Ulid, Artifact, PushRequest, lookup, trust_key}
use ioc.Storage.Meta.{MetaEnv}
use ioc.Storage.Interfaces.{Blobs, Vectors, Embedder}
use ioc.Engine.State.{Engine}
use ioc.Core.Maps.{strip, lookup-strip}
use ioc.Engine.Push.{push, pushed, with_trust, has_key}

lookup_absent :
    (k : Text) (meta : List (Text × Text)) → has_key k meta ≡ false → lookup k meta ≡ none
unfolding lookup any
lookup_absent k [] h = refl
lookup_absent k ((j, v) ∷ meta) h = ground (arith, lookup_absent k meta)

pub with_trust-lookup :
    (meta : List (Text × Text)) (trust k : Text)
    → lookup k (with_trust meta trust) ≡ (
        if text_eq trust_key k
        then (if is_empty trust then none else some trust)
        else lookup k meta)
unfolding with_trust lookup strip
with_trust-lookup meta trust k = elim (Bool-cases (has_key trust_key meta)) [
  | inl given ↦ rw given (ground (arith, lookup-strip trust_key k meta))
  | inr absent ↦ elim (Bool-cases (text_eq trust_key k)) [
    | inl same ↦
        let gone : lookup k meta ≡ none =
          subst (λ x. lookup x meta ≡ none) ((text_eq_iff trust_key k).0 same)
            (lookup_absent trust_key meta absent) in
        rw absent (ground (arith, lookup-strip trust_key k meta))
    | inr other ↦ rw absent (ground (arith, lookup-strip trust_key k meta))
  ]
]

module _ ⦃m : MetaEnv⦄ ⦃b : Blobs⦄ ⦃v : Vectors⦄ ⦃em : Embedder⦄ where
  -- the artifact of a push that succeeds
  pub push_returns :
      (r : PushRequest) (id : Ulid) (now : ℕ) (e : Engine) (a : Artifact)
      → (push r id now e).0 ≡ ok a
      → (content : Text) × (ref : ℕ) × (a ≡ pushed r id now content ref)
  unfolding push throw pure
  push_returns r id now e a h = elim (Bool-cases (is_empty r.summary)) [
    | inl bad ↦ let g = rw bad at h in cc
    | inr good ↦
        let P : Artifact → Engine → Type 0 =
          λ x y. (content : Text) × (ref : ℕ) × (x ≡ pushed r id now content ref) in
        bind_ends P _ _ e
          (λ sc e1. bind_ends P _ _ _ (λ content e2. bind_ends P _ _ _ (λ ref e3.
            bind_ends P _ _ _ (λ ts e4.
              bind_ends P _ _ _ (λ u e5.
                bind_ends P _ _ _ (λ u' e6 b' e7. (content, ref, sym (ok-injective e7))))))))
          a (rw good at h)
  ]

  -- The artifact that a push returns has as its "trust" entry the request's own provenance, and none
  -- where the request gives none, whatever the caller's metadata said; every other entry is the
  -- caller's.
  pub push-provenance :
      (r : PushRequest) (id : Ulid) (now : ℕ) (e : Engine) (a : Artifact) (k : Text)
      → (push r id now e).0 ≡ ok a
      → lookup k a.meta ≡ (
          if text_eq trust_key k
          then (if is_empty r.trust then none else some r.trust)
          else lookup k r.meta)
  unfolding pushed
  push-provenance r id now e a k h =
      let (content, ref, same) = push_returns r id now e a h in
      ap (λ x. lookup k x.meta) same ∙ with_trust-lookup r.meta r.trust k
