-- ===== src/Ingest/Reconcile/Again.antt =====
-- internal/ingest/reconcile.go: a second pass over a file that the run has reconciled.
use ioc.Base.{
  ℕ, ◌+◌, Bool, true, List, [], ◌∷◌, ◌++◌, Text, length, filter, ltb, ok, pure, >>=-eq-ok, ◌≡◌,
  refl, sym, ap, ◌∙◌, inl, inr, Bool-cases,
}
use ioc.Core.Types.{Ulid, Artifact, PushRequest}
use ioc.Ingest.Chunk.{Chunk}
use ioc.Ingest.Complete.{chunks_complete}
use ioc.Ingest.Complete.Numbered.{chunks_complete-Numbered}
use ioc.Ingest.Reconcile.{
  Store, Reconciler, on_store, update, delete_chunk, delete_chunks, push_chunks,
}
use ioc.Ingest.Reconcile.Index.{
  chunk_of, chunks_for_path-chunk_of, filter-append, Distinct, drop_all, filter-drop_all,
}
use ioc.Ingest.Reconcile.Pushes.{IsAsked, Added, push_chunks-Added}
use ioc.Ingest.Reconcile.Files.{chunks_in, sync_chunks, rewritten}

module _ ⦃s : Store⦄ where
  -- the index after deletions that succeed
  delete_chunks-ok :
      (as' : List Artifact) (r : Reconciler)
      → (delete_chunks as' r).0 ≡ ok tt
      → ((delete_chunks as' r).1.artifacts ≡ drop_all as' r.artifacts)
        × ((delete_chunks as' r).1.dir_scope ≡ r.dir_scope)
        × ((delete_chunks as' r).1.files_seen ≡ r.files_seen)
  unfolding delete_chunks delete_chunk on_store update pure drop_all
  delete_chunks-ok [] r h = (refl, refl, refl)
  delete_chunks-ok (a ∷ as') r h =
      let (u, e, g) = >>=-eq-ok (delete_chunk a) _ r h in
      let (v, f, k) = >>=-eq-ok (on_store (s.delete_artifact a.id)) _ r e in
      let r1 = (delete_chunk a r).1 in
      let (arts, dirs, seen) = delete_chunks-ok as' r1 (ap (λ x. x.0) (sym g) ∙ h) in
      (
        ap (λ x. x.1.artifacts) g ∙ arts ∙ ap (λ x. drop_all as' x.1.artifacts) k,
        ap (λ x. x.1.dir_scope) g ∙ dirs ∙ ap (λ x. x.1.dir_scope) k,
        ap (λ x. x.1.files_seen) g ∙ seen ∙ ap (λ x. x.1.files_seen) k,
      )

  -- the stored chunks of the file are complete; the cache of the directories and the count of the
  -- files are as they were
  pub record Settled (scope : Ulid) (rel sig : Text) (n : ℕ) (r r' : Reconciler) : Type 0 where
    pub complete : chunks_complete (chunks_in scope rel r') sig n ≡ true
    pub same_dirs : r'.dir_scope ≡ r.dir_scope
    pub same_seen : r'.files_seen ≡ r.files_seen

  rewritten-Settled :
      (scope : Ulid) (rel sig : Text) (n : ℕ) (r r' : Reconciler) (dir : Text) (b : Bool)
      → Settled scope rel sig n r r'
      → Settled scope rel sig n r (rewritten dir b r')
  rewritten-Settled scope rel sig n r r' dir b h = record {
    complete = h.complete;
    same_dirs = h.same_dirs;
    same_seen = h.same_seen;
  }

  -- the index is that of the file's new chunks
  Added-Settled :
      (scope : Ulid) (rel sig : Text) (cs : List Chunk) (r r1 r2 : Reconciler)
      → Distinct r.artifacts
      → r1.artifacts ≡ drop_all (chunks_in scope rel r) r.artifacts
      → Added scope rel sig cs 0 r1 r2
      → chunks_complete (chunks_in scope rel r2) sig (length cs) ≡ true
  Added-Settled scope rel sig cs r r1 r2 distinct dropped h =
      let p = chunk_of scope rel in
      let gone : filter p r1.artifacts ≡ [] =
        ap (filter p) dropped
        ∙ ap (λ es. filter p (drop_all es r.artifacts))
            (chunks_for_path-chunk_of scope rel r.artifacts)
        ∙ filter-drop_all p r.artifacts distinct in
      let left : chunks_in scope rel r2 ≡ h.new =
        chunks_for_path-chunk_of scope rel r2.artifacts
        ∙ ap (filter p) h.appended
        ∙ filter-append p r1.artifacts h.new
        ∙ ap (λ xs. xs ++ filter p h.new) gone
        ∙ h.chosen in
      ap (λ xs. chunks_complete xs sig (length cs)) left
      ∙ ap (chunks_complete h.new sig) (sym h.counted)
      ∙ chunks_complete-Numbered sig h.new h.numbered

  module _
      (asked : (req : PushRequest) (t : s.State) (a : Artifact)
        → (s.push req t).0 ≡ ok a
        → IsAsked req a) where
    pub sync_chunks-Settled :
        (max : ℕ) (dir rel : Text) (scope : Ulid) (cs : List Chunk) (sig : Text) (r : Reconciler)
        → Distinct r.artifacts
        → (sync_chunks max dir rel scope cs sig r).0 ≡ ok tt
        → Settled scope rel sig (length cs) r (sync_chunks max dir rel scope cs sig r).1
    unfolding sync_chunks update
    sync_chunks-Settled max dir rel scope cs sig r distinct h =
        elim (Bool-cases (chunks_complete (chunks_in scope rel r) sig (length cs))) [
          | inl t ↦ rw t (record { complete = t; same_dirs = refl; same_seen = refl })
          | inr f ↦ elim (Bool-cases (ltb max (r.st.chunks_added + length cs))) [
            | inl t ↦ let g = rw (f, t) at h in cc
            | inr n ↦
                let k = rw (f, n) at h in
                let old = chunks_in scope rel r in
                let (u, e, g) = >>=-eq-ok (delete_chunks old) _ r k in
                let r1 = (delete_chunks old r).1 in
                let (v, e2, g2) =
                  >>=-eq-ok (push_chunks scope rel cs 0 sig) _ r1 (ap (λ x. x.0) (sym g) ∙ k) in
                let r2 = (push_chunks scope rel cs 0 sig r1).1 in
                let (arts, dirs, seen) = delete_chunks-ok old r e in
                let added = push_chunks-Added scope rel sig asked cs 0 r1 e2 in
                let b = ltb 0 (length old) in
                rw (f, n, g, g2)
                  (rewritten-Settled scope rel sig (length cs) r r2 dir b (record {
                    complete = Added-Settled scope rel sig cs r r1 r2 distinct arts added;
                    same_dirs = added.same_dirs ∙ dirs;
                    same_seen = added.same_seen ∙ seen;
                  }))
          ]
        ]
