-- ===== src/Ingest/Reconcile/Limits.antt =====
-- internal/ingest/reconcile.go: what a file that a cap refuses leaves in the store.
use ioc.Base.{
  ℕ, suc, ◌+◌, Bool, true, false, List, [], ◌∷◌, Text, bytes, is_empty, ltb, length, ◌≡◌, inl, inr,
  pure, ◌>>=◌, bind_keeps, Bool-cases, Option-cases, Result-cases,
}
use ioc.Core.Types.{Ulid, Artifact, role_workspace}
use ioc.Core.Ulid.{Ulids}
use ioc.Search.{Unicode}
use ioc.Ingest.Chunk.{Chunk}
use ioc.Ingest.Complete.{chunks_complete}
use ioc.Ingest.Reconcile.{
  Store, Options, Reconciler, File, max_file_bytes, is_binary, on_store, update, find_key,
  find_child_scope, child_scope_for, chunk_request, ensure_dir_scope, delete_chunk, delete_chunks,
  push_chunk, push_chunks, dir_text, rel_text,
}
use ioc.Ingest.Reconcile.Files.{
  wanted, rewritten, sync_chunks, sync_text, cap_text, reconcile_file, chunks_in,
}

module _ ⦃s : Store⦄ where
  -- no cap was hit so far
  Unlimited : Reconciler → Type 0
  Unlimited r = is_empty r.st.limit_hit ≡ true

  delete_chunk-Unlimited :
      (a : Artifact) (r : Reconciler) → Unlimited r → Unlimited (delete_chunk a r).1
  unfolding delete_chunk on_store update Unlimited
  delete_chunk-Unlimited a r h =
      bind_keeps Unlimited (on_store (s.delete_artifact a.id)) _ r h (λ u e. h)

  delete_chunks-Unlimited :
      (as' : List Artifact) (r : Reconciler) → Unlimited r → Unlimited (delete_chunks as' r).1
  unfolding delete_chunks pure
  delete_chunks-Unlimited [] r h = h
  delete_chunks-Unlimited (a ∷ as') r h =
      let k = delete_chunk-Unlimited a r h in
      bind_keeps Unlimited (delete_chunk a) (λ u. delete_chunks as') r k
        (λ u e. delete_chunks-Unlimited as' (delete_chunk a r).1 k)

  push_chunk-Unlimited :
      (scope : Ulid) (rel : Text) (c : Chunk) (idx : ℕ) (sig : Text) (r : Reconciler)
      → Unlimited r
      → Unlimited (push_chunk scope rel c idx sig r).1
  unfolding push_chunk on_store update Unlimited
  push_chunk-Unlimited scope rel c idx sig r h =
      bind_keeps Unlimited (on_store (s.push (chunk_request scope rel c idx sig))) _ r h (λ u e. h)

  push_chunks-Unlimited :
      (scope : Ulid) (rel : Text) (cs : List Chunk) (idx : ℕ) (sig : Text) (r : Reconciler)
      → Unlimited r
      → Unlimited (push_chunks scope rel cs idx sig r).1
  unfolding push_chunks pure
  push_chunks-Unlimited scope rel [] idx sig r h = h
  push_chunks-Unlimited scope rel (c ∷ cs) idx sig r h =
      let k = push_chunk-Unlimited scope rel c idx sig r h in
      bind_keeps Unlimited (push_chunk scope rel c idx sig)
        (λ u. push_chunks scope rel cs (suc idx) sig) r k
        (λ u e.
          push_chunks-Unlimited scope rel cs (suc idx) sig (push_chunk scope rel c idx sig r).1 k)

  rewritten-Unlimited :
      (dir : Text) (b : Bool) (r : Reconciler) → Unlimited r → Unlimited (rewritten dir b r)
  unfolding Unlimited
  rewritten-Unlimited dir true r h = h
  rewritten-Unlimited dir false r h = h

  -- a file that is written sets no limit
  rewrites-Unlimited :
      (existing : List Artifact) (dir rel : Text) (scope : Ulid) (cs : List Chunk) (sig : Text)
      (b : Bool) (r : Reconciler)
      → Unlimited r
      → Unlimited
          ((delete_chunks existing >>= λ u.
              push_chunks scope rel cs 0 sig >>= λ v. update (rewritten dir b))
            r).1
  unfolding update
  rewrites-Unlimited existing dir rel scope cs sig b r h =
      let k = delete_chunks-Unlimited existing r h in
      bind_keeps Unlimited (delete_chunks existing) _ r k λ u e.
        let r1 = (delete_chunks existing r).1 in
        let l = push_chunks-Unlimited scope rel cs 0 sig r1 k in
        bind_keeps Unlimited (push_chunks scope rel cs 0 sig) (λ v. update (rewritten dir b)) r1 l
          (λ v x. rewritten-Unlimited dir b (push_chunks scope rel cs 0 sig r1).1 l)

  -- What holds of the store as long as no cap was hit, and then on: `P`, which a new scope keeps.
  module _ (P : s.State → Type 0)
      (scope_keeps : (parent : Ulid) (role : ℕ) (title : Text) (t : s.State)
        → P t
        → P (s.create_scope parent role title t).1) where
    abbrev Clear : Reconciler → Type 0
    Clear r = P r.store × Unlimited r

    child_scope_for-Clear :
        ⦃ul : Ulids⦄ (dir base : Text) (parent : Ulid) (r : Reconciler)
        → Clear r
        → Clear (child_scope_for dir base parent r).1
    unfolding child_scope_for on_store update Unlimited pure ◌>>=◌
    child_scope_for-Clear dir base parent r h =
        elim (Option-cases (find_child_scope parent base r)) [
          | inr (sc, e) ↦ rw (child_scope_for, e) h
          | inl e ↦
              let k = scope_keeps parent role_workspace base r.store h.0 in
              rw (child_scope_for, e)
                (bind_keeps Clear (on_store (s.create_scope parent role_workspace base)) _ r
                  (k, h.1) (λ sc x. (k, h.1)))
        ]

    -- a cap that is hit now leaves the store with `P`
    abbrev Capped : Reconciler → Type 0
    Capped r = is_empty r.st.limit_hit ≡ false → P r.store

    at_odds : (r : Reconciler) → Unlimited r → is_empty r.st.limit_hit ≡ false → ⊥
    unfolding Unlimited
    at_odds r h z = cc

    sync_chunks-Capped :
        (max : ℕ) (dir rel : Text) (scope : Ulid) (cs : List Chunk) (sig : Text) (r : Reconciler)
        → Clear r
        → Capped (sync_chunks max dir rel scope cs sig r).1
    unfolding sync_chunks
    sync_chunks-Capped max dir rel scope cs sig r h =
        elim (Bool-cases (chunks_complete (chunks_in scope rel r) sig (length cs))) [
          | inl t ↦ rw t (λ z. h.0)
          | inr f ↦ elim (Bool-cases (ltb max (r.st.chunks_added + length cs))) [
            | inl t ↦ rw (f, t) (λ z. h.0)
            | inr g ↦
                let k =
                  rewrites-Unlimited (chunks_in scope rel r) dir rel scope cs sig
                    (ltb 0 (length (chunks_in scope rel r))) r h.1 in
                rw (f, g) (λ z. absurd (at_odds _ k z))
          ]
        ]

    ensure_dir_scope-Clear :
        ⦃ul : Ulids⦄ (dir : List Text) (r : Reconciler) → Clear r → Clear (ensure_dir_scope dir r).1
    unfolding ensure_dir_scope
    ensure_dir_scope-Clear [] r h = elim (Option-cases (find_key (bytes ".") r.dir_scope)) [
      | inl e ↦ rw (ensure_dir_scope, e) h
      | inr (id, e) ↦ rw (ensure_dir_scope, e) h
    ]
    ensure_dir_scope-Clear (n ∷ up) r h =
        elim (Option-cases (find_key (dir_text (n ∷ up)) r.dir_scope)) [
          | inr (id, e) ↦ rw (ensure_dir_scope, e) h
          | inl e ↦
              let k = ensure_dir_scope-Clear up r h in
              rw (ensure_dir_scope, e)
                (bind_keeps Clear (ensure_dir_scope up) (child_scope_for (dir_text (n ∷ up)) n) r k
                  (λ parent x.
                    child_scope_for-Clear (dir_text (n ∷ up)) n parent (ensure_dir_scope up r).1 k))
        ]

    module _ ⦃u : Unicode⦄ ⦃ul : Ulids⦄ (sha256_hex : Text → Text) (opt : Options) where
      sync_text-Capped :
          (f : File) (content : Text) (r : Reconciler)
          → Clear r
          → Capped (sync_text sha256_hex opt f content r).1
      unfolding sync_text update Unlimited
      sync_text-Capped f content r h =
          let k = ensure_dir_scope-Clear f.dir r h in
          let r1 = (ensure_dir_scope f.dir r).1 in
          bind_keeps Capped (ensure_dir_scope f.dir) _ r (λ z. k.0)
            λ scope e.
              bind_keeps Capped (update (wanted f)) _ r1 (λ z. k.0)
                λ v x.
                  sync_chunks-Capped opt.max_chunks (dir_text f.dir) (rel_text f) scope _ _
                    (wanted f r1) k

      cap_text-Capped :
          (f : File) (content : Text) (r : Reconciler)
          → Clear r
          → Capped (cap_text sha256_hex opt f content r).1
      unfolding cap_text Unlimited
      cap_text-Capped f content r h = elim (Bool-cases (ltb opt.max_depth (length f.dir))) [
        | inl t ↦ rw t (λ z. h.0)
        | inr g ↦ elim (Bool-cases (ltb opt.max_files (suc r.files_seen))) [
          | inl t ↦ rw (g, t) (λ z. h.0)
          | inr k ↦
              rw (g, k) (sync_text-Capped f content (record r { files_seen = suc r.files_seen }) h)
        ]
      ]

      -- A file at which a cap stops the run has written no chunk and deleted none: what held of the
      -- store, and a new scope keeps, holds of it still.
      pub reconcile_file-Capped :
          (f : File) (r : Reconciler)
          → P r.store
          → is_empty r.st.limit_hit ≡ true
          → is_empty (reconcile_file sha256_hex opt f r).1.st.limit_hit ≡ false
          → P (reconcile_file sha256_hex opt f r).1.store
      unfolding reconcile_file Unlimited
      reconcile_file-Capped f r p free = elim (Result-cases f.size) [
        | inr (e, x) ↦ rw x (λ z. p)
        | inl (size, x) ↦ elim (Bool-cases (ltb max_file_bytes size)) [
          | inl t ↦ rw (x, t) (λ z. p)
          | inr g ↦ elim (Result-cases f.content) [
            | inr (e, y) ↦ rw (x, g, y) (λ z. p)
            | inl (content, y) ↦ elim (Bool-cases (is_binary content)) [
              | inl t ↦ rw (x, g, y, t) (λ z. p)
              | inr b ↦ rw (x, g, y, b) (cap_text-Capped f content r (p, free))
            ]
          ]
        ]
      ]
