-- ===== src/Engine/Supersession.antt =====
-- internal/engine/engine.go: artifacts as they read once they are marked as superseded.
pub mod Pushes
use ioc.Base.{
  Bool, true, false, ◌||◌, List, [], ◌∷◌, ◌≡◌, refl, sym, ap, subst, ◌∙◌, inl, inr, Result, ok, err,
  any, ◌==◌, ==_iff, arith, Exec, pure, >>=-eq-ok, ◌>>=◌, Bool-cases, ok-injective, In,
  if◌then◌else◌,
}
use ioc.Core.Types.{Ulid, Artifact}
use ioc.Core.Utf8.{is_utf8_artifact}
use ioc.Storage.Meta.{MetaEnv, get_artifact, put_artifact}
use ioc.Storage.Meta.Values.{and_then-eq-ok}
use ioc.Storage.Meta.Records.{get_artifact-put_artifact_utf8}
use ioc.Engine.Push.{load_supersede_targets, mark_superseded_by, superseded_with}
use ioc.Engine.Integrity.{IsIntact}
use ioc.Engine.Integrity.Deletes.{get_artifact-id}

-- an artifact as it is read, once it is marked
abbrev pub mark_read : Ulid → Result Artifact → Result Artifact
mark_read new (ok a) = ok (superseded_with new a)
mark_read new (err e) = err e

-- what reading `j` gives after the targets are marked, if it gave `r` before
abbrev pub marked_read : Ulid → Ulid → List Artifact → Result Artifact → Result Artifact
marked_read new j [] r = r
marked_read new j (t ∷ ts) r =
    marked_read new j ts (if t.id == j then ok (superseded_with new t) else r)

module _ ⦃m : MetaEnv⦄ where
  pub get_artifact-mark :
      (ts : List Artifact) (new : Ulid) (d : m.bolt.Db)
      → ((t : Artifact) → In t ts → is_utf8_artifact t ≡ true)
      → (mark_superseded_by ts new d).0 ≡ ok tt
      → (j : Ulid)
      → get_artifact j (mark_superseded_by ts new d).1 ≡ marked_read new j ts (get_artifact j d)
  unfolding mark_superseded_by pure
  get_artifact-mark [] new d clean h j = refl
  get_artifact-mark (t ∷ ts) new d clean h j =
      let t' = superseded_with new t in
      let (u, p, q) = >>=-eq-ok (put_artifact t') (λ _. mark_superseded_by ts new) d h in
      let d1 = (put_artifact t' d).1 in
      let rest : (mark_superseded_by ts new d1).0 ≡ ok tt = sym (ap (λ x. x.0) q) ∙ h in
      ap (λ x. get_artifact j x.1) q
      ∙ (get_artifact-mark ts new d1 (λ x i. clean x (inr i)) rest j
          ∙ ap (marked_read new j ts)
              (get_artifact-put_artifact_utf8 t' d (clean t (inl refl)) p j))

  mark_step :
      (same rest : Bool) (new : Ulid) (t : Artifact) (r read : Result Artifact)
      → (same ≡ true → read ≡ ok t)
      → (if rest then mark_read new read else if same then ok (superseded_with new t) else r)
        ≡ (if same || rest then mark_read new read else r)
  mark_step true true new t r read h = refl
  mark_step false true new t r read h = refl
  mark_step true false new t r read h = ap (mark_read new) (sym (h refl))
  mark_step false false new t r read h = refl

  -- the targets were loaded from an intact store: each stands under its own id
  pub marked_read-load :
      (ids : List Ulid) (d : m.bolt.Db) (ts : List Artifact) (new j : Ulid) (r : Result Artifact)
      → IsIntact d
      → load_supersede_targets ids d ≡ ok ts
      → marked_read new j ts r
        ≡ (if any (λ k. k == j) ids then mark_read new (get_artifact j d) else r)
  unfolding load_supersede_targets any
  marked_read-load [] d ts new j r h p = ap (λ x. marked_read new j x r) (sym (ok-injective p))
  marked_read-load (sid ∷ ids) d ts new j r h p =
      let (t, q, p1) = and_then-eq-ok (get_artifact sid d) _ p in
      let (rest, q2, p2) = and_then-eq-ok (load_supersede_targets ids d) _ p1 in
      let e : t ∷ rest ≡ ts = ok-injective p2 in
      let own : t.id ≡ sid = get_artifact-id d sid t h q in
      let hits = any (λ k. k == j) ids in
      let marked = mark_read new (get_artifact j d) in
      ap (λ x. marked_read new j x r) (sym e)
      ∙ (marked_read-load ids d rest new j (if t.id == j then ok (superseded_with new t) else r) h
            q2
          ∙ (ap
                (λ (x : Ulid).
                  if hits then marked else if x == j then ok (superseded_with new t) else r)
                own
              ∙ mark_step (sid == j) hits new t r (get_artifact j d)
                  (λ same. subst (λ x. get_artifact x d ≡ ok t) ((==_iff sid j).0 same) q)))
