-- ===== src/Ingest/Reconcile/Pushes.antt =====
-- internal/ingest/reconcile.go: what the pushes of a file's chunks add to the run's index.
use ioc.Base.{
  ℕ, suc, true, false, List, [], ◌∷◌, ◌++◌, Text, bytes, text_eq, text_eq_refl, itoa, length,
  filter, ◌==◌, ==_refl, some, ok, pure, >>=-eq-ok, ◌≡◌, refl, sym, ap, ◌∙◌, append_assoc,
  append-nil, subst,
}
use ioc.Core.Types.{Ulid, Artifact, PushRequest, lookup, kind_document, trust_key}
use ioc.Ingest.Chunk.{Chunk}
use ioc.Ingest.Complete.{meta_at, has_sig, chunk_index, atoi_index}
use ioc.Ingest.Complete.Numbered.{Numbered, atoi_index-itoa}
use ioc.Ingest.Reconcile.{
  Store, Reconciler, on_store, update, push_chunk, push_chunks, chunk_request,
}
use ioc.Ingest.Reconcile.Index.{chunk_of}

-- An artifact as its request asked for it: only the provenance entry may be another.
pub record IsAsked (req : PushRequest) (a : Artifact) : Type 0 where
  pub scope : a.scope ≡ req.scope
  pub kind : (req.kind == 0) ≡ false → a.kind ≡ req.kind
  pub meta : (key : Text) → text_eq trust_key key ≡ false → lookup key a.meta ≡ lookup key req.meta

meta_at-some :
    (key : Text) (a : Artifact) (t : Text) → lookup key a.meta ≡ some t → meta_at key a ≡ t
meta_at-some key a t e = rw (meta_at, e) refl

module _ ⦃s : Store⦄ (scope : Ulid) (rel sig : Text) where
  asked_path :
      (c : Chunk) (idx : ℕ) (a : Artifact)
      → IsAsked (chunk_request scope rel c idx sig) a
      → lookup (bytes "path") a.meta ≡ some rel
  unfolding chunk_request lookup text_eq
  asked_path c idx a h = h.meta (bytes "path") refl

  asked_number :
      (c : Chunk) (idx : ℕ) (a : Artifact)
      → IsAsked (chunk_request scope rel c idx sig) a
      → lookup (bytes "chunk") a.meta ≡ some (itoa idx)
  unfolding chunk_request lookup text_eq
  asked_number c idx a h = h.meta (bytes "chunk") refl

  asked_sig :
      (c : Chunk) (idx : ℕ) (a : Artifact)
      → IsAsked (chunk_request scope rel c idx sig) a
      → lookup (bytes "sig") a.meta ≡ some sig
  unfolding chunk_request lookup text_eq
  asked_sig c idx a h = h.meta (bytes "sig") refl

  has_sig-asked :
      (c : Chunk) (idx : ℕ) (a : Artifact)
      → IsAsked (chunk_request scope rel c idx sig) a
      → has_sig sig a ≡ true
  unfolding has_sig
  has_sig-asked c idx a h =
      ap (λ t. text_eq t sig) (meta_at-some (bytes "sig") a sig (asked_sig c idx a h))
      ∙ text_eq_refl sig

  chunk_index-asked :
      (c : Chunk) (idx : ℕ) (a : Artifact)
      → IsAsked (chunk_request scope rel c idx sig) a
      → chunk_index a ≡ some idx
  unfolding chunk_index
  chunk_index-asked c idx a h =
      ap atoi_index (meta_at-some (bytes "chunk") a (itoa idx) (asked_number c idx a h))
      ∙ atoi_index-itoa idx

  chunk_of-asked :
      (c : Chunk) (idx : ℕ) (a : Artifact)
      → IsAsked (chunk_request scope rel c idx sig) a
      → chunk_of scope rel a ≡ true
  unfolding chunk_request
  chunk_of-asked c idx a h =
      let place : (a.scope == scope) ≡ true = ap (λ x. x == scope) h.scope ∙ ==_refl scope in
      let sort : (a.kind == kind_document) ≡ true = ap (λ x. x == kind_document) (h.kind refl) in
      let path : text_eq (meta_at (bytes "path") a) rel ≡ true =
        ap (λ t. text_eq t rel) (meta_at-some (bytes "path") a rel (asked_path c idx a h))
        ∙ text_eq_refl rel in
      rw (place, sort, path) refl

  -- what a loop of pushes adds to the index
  pub record Added (cs : List Chunk) (idx : ℕ) (r r' : Reconciler) : Type 0 where
    pub new : List Artifact
    pub appended : r'.artifacts ≡ r.artifacts ++ new
    pub numbered : Numbered sig idx new
    pub chosen : filter (chunk_of scope rel) new ≡ new
    pub counted : length new ≡ length cs
    pub same_dirs : r'.dir_scope ≡ r.dir_scope
    pub same_seen : r'.files_seen ≡ r.files_seen

  -- one push that succeeds
  push_chunk-ok :
      (c : Chunk) (idx : ℕ) (r : Reconciler)
      → (push_chunk scope rel c idx sig r).0 ≡ ok tt
      → (a : Artifact) × ((s.push (chunk_request scope rel c idx sig) r.store).0 ≡ ok a)
        × ((push_chunk scope rel c idx sig r).1.artifacts ≡ r.artifacts ++ (a ∷ []))
        × ((push_chunk scope rel c idx sig r).1.dir_scope ≡ r.dir_scope)
        × ((push_chunk scope rel c idx sig r).1.files_seen ≡ r.files_seen)
  unfolding push_chunk on_store update
  push_chunk-ok c idx r h =
      let (a, e, g) = >>=-eq-ok (on_store (s.push (chunk_request scope rel c idx sig))) _ r h in
      (a, e, ap (λ x. x.1.artifacts) g, ap (λ x. x.1.dir_scope) g, ap (λ x. x.1.files_seen) g)

  module _
      (asked : (req : PushRequest) (t : s.State) (a : Artifact)
        → (s.push req t).0 ≡ ok a
        → IsAsked req a) where
    Added-cons :
        (c : Chunk) (cs : List Chunk) (idx : ℕ) (r r1 r2 : Reconciler) (a : Artifact)
        → IsAsked (chunk_request scope rel c idx sig) a
        → r1.artifacts ≡ r.artifacts ++ (a ∷ [])
        → r1.dir_scope ≡ r.dir_scope
        → r1.files_seen ≡ r.files_seen
        → Added cs (suc idx) r1 r2
        → Added (c ∷ cs) idx r r2
    unfolding filter
    Added-cons c cs idx r r1 r2 a h grown dirs seen ih = record {
      new = a ∷ ih.new;
      appended =
          ih.appended ∙ ap (λ xs. xs ++ ih.new) grown ∙ append_assoc r.artifacts (a ∷ []) ih.new;
      numbered = (has_sig-asked c idx a h, chunk_index-asked c idx a h, ih.numbered);
      chosen = rw (chunk_of-asked c idx a h) (ap (◌∷◌ a) ih.chosen);
      counted = ap suc ih.counted;
      same_dirs = ih.same_dirs ∙ dirs;
      same_seen = ih.same_seen ∙ seen;
    }

    pub push_chunks-Added :
        (cs : List Chunk) (idx : ℕ) (r : Reconciler)
        → (push_chunks scope rel cs idx sig r).0 ≡ ok tt
        → Added cs idx r (push_chunks scope rel cs idx sig r).1
    unfolding push_chunks pure filter
    push_chunks-Added [] idx r h = record {
      new = [];
      appended = sym (append-nil r.artifacts);
      numbered = tt;
      chosen = refl;
      counted = refl;
      same_dirs = refl;
      same_seen = refl;
    }
    push_chunks-Added (c ∷ cs) idx r h =
        let (u, e, g) = >>=-eq-ok (push_chunk scope rel c idx sig) _ r h in
        let (a, f, grown, dirs, seen) = push_chunk-ok c idx r e in
        let r1 = (push_chunk scope rel c idx sig r).1 in
        let ih = push_chunks-Added cs (suc idx) r1 (ap (λ x. x.0) (sym g) ∙ h) in
        let r2 = (push_chunks scope rel cs (suc idx) sig r1).1 in
        subst (Added (c ∷ cs) idx r) (ap (λ x. x.1) (sym g)) (
          Added-cons c cs idx r r1 r2 a (asked (chunk_request scope rel c idx sig) r.store a f)
            grown dirs seen ih)
