-- ===== src/Ingest/Reconcile/Second.antt =====
-- internal/ingest/reconcile.go: a second pass over a file that the run has reconciled.
use ioc.Base.{
  suc, ◌<◌, true, false, List, [], ◌∷◌, Text, bytes, text_eq_refl, length, ltb, some, ok, pure,
  ◌>>=◌, >>=-eq-ok, ◌≡◌, refl, sym, ap, ◌∙◌, inl, inr, Bool-cases, Option-cases, Result-cases,
  arith, ok-injective, subst,
}
use ioc.Core.Types.{Ulid, Artifact, PushRequest, role_workspace}
use ioc.Core.Ulid.{Ulids}
use ioc.Search.{Unicode}
use ioc.Ingest.Chunk.{Chunk}
use ioc.Ingest.Lang.{split_lang}
use ioc.Ingest.Complete.{chunks_complete}
use ioc.Ingest.Reconcile.{
  Store, Options, Reconciler, File, max_file_bytes, is_binary, on_store, update, find_key,
  find_child_scope, child_scope_for, ensure_dir_scope, dir_text, rel_text, detect_language, sig_of,
}
use ioc.Ingest.Reconcile.Index.{Distinct}
use ioc.Ingest.Reconcile.Pushes.{IsAsked}
use ioc.Ingest.Reconcile.Again.{sync_chunks-Settled}
use ioc.Ingest.Reconcile.Files.{
  chunks_in, sync_chunks, sync_text, cap_text, reconcile_file, wanted, unchanged,
}

module _ ⦃s : Store⦄ where
  -- the scope of a directory is in the cache; the artifacts and the count of the files are the same
  record IsCached (dir : Text) (id : Ulid) (r r' : Reconciler) : Type 0 where
    cached : find_key dir r'.dir_scope ≡ some id
    same_artifacts : r'.artifacts ≡ r.artifacts
    same_seen : r'.files_seen ≡ r.files_seen

  child_scope_for-IsCached :
      ⦃ul : Ulids⦄ (dir base : Text) (parent : Ulid) (r : Reconciler) (id : Ulid)
      → (child_scope_for dir base parent r).0 ≡ ok id
      → IsCached dir id r (child_scope_for dir base parent r).1
  unfolding child_scope_for on_store update pure find_key ◌>>=◌
  child_scope_for-IsCached dir base parent r id h =
      elim (Option-cases (find_child_scope parent base r)) [
        | inr (sc, e) ↦
            let same = ok-injective (rw (child_scope_for, e) at h) in
            rw (child_scope_for, e)
              (record {
                cached = rw (text_eq_refl dir) (ap some same);
                same_artifacts = refl;
                same_seen = refl;
              })
        | inl e ↦ elim (Result-cases (s.create_scope parent role_workspace base r.store).0) [
          | inr (x, f) ↦ let g = rw (child_scope_for, e, f) at h in cc
          | inl (sc, f) ↦
              let same = ok-injective (rw (child_scope_for, e, f) at h) in
              rw (child_scope_for, e, f)
                (record {
                  cached = rw (text_eq_refl dir) (ap some same);
                  same_artifacts = refl;
                  same_seen = refl;
                })
        ]
      ]

  ensure_dir_scope-IsCached :
      ⦃ul : Ulids⦄ (dir : List Text) (r : Reconciler) (id : Ulid)
      → (ensure_dir_scope dir r).0 ≡ ok id
      → IsCached (dir_text dir) id r (ensure_dir_scope dir r).1
  unfolding ensure_dir_scope
  ensure_dir_scope-IsCached [] r id h = elim (Option-cases (find_key (bytes ".") r.dir_scope)) [
    | inl e ↦ let g = rw (ensure_dir_scope, e) at h in cc
    | inr (x, e) ↦
        let same = ok-injective (rw (ensure_dir_scope, e) at h) in
        rw (ensure_dir_scope, e)
          (record { cached = e ∙ ap some same; same_artifacts = refl; same_seen = refl })
  ]
  ensure_dir_scope-IsCached (n ∷ up) r id h =
      elim (Option-cases (find_key (dir_text (n ∷ up)) r.dir_scope)) [
        | inr (x, e) ↦
            let same = ok-injective (rw (ensure_dir_scope, e) at h) in
            rw (ensure_dir_scope, e)
              (record { cached = e ∙ ap some same; same_artifacts = refl; same_seen = refl })
        | inl e ↦
            let k = rw (ensure_dir_scope, e) at h in
            let (parent, f, g) = >>=-eq-ok (ensure_dir_scope up) _ r k in
            let r1 = (ensure_dir_scope up r).1 in
            let above = ensure_dir_scope-IsCached up r parent f in
            let below =
              child_scope_for-IsCached (dir_text (n ∷ up)) n parent r1 id
                (ap (λ x. x.0) (sym g) ∙ k) in
            rw (ensure_dir_scope, e, g)
              (record {
                cached = below.cached;
                same_artifacts = below.same_artifacts ∙ above.same_artifacts;
                same_seen = below.same_seen ∙ above.same_seen;
              })
      ]

  module _ ⦃u : Unicode⦄ ⦃ul : Ulids⦄ (sha256_hex : Text → Text) (opt : Options) where
    -- the signature and the chunks of a file's content
    abbrev sig_for : File → Text → Text
    sig_for f content =
        sig_of sha256_hex content (detect_language (rel_text f)) opt.max_chars opt.overlap

    abbrev chunks_for : File → Text → List Chunk
    chunks_for f content =
        split_lang content (detect_language (rel_text f)) opt.max_chars opt.overlap

    -- the file's directory and its chunks are where a second pass looks for them
    record IsSettled (f : File) (content : Text) (r : Reconciler) : Type 0 where
      scope : Ulid
      cached : find_key (dir_text f.dir) r.dir_scope ≡ some scope
      complete :
          chunks_complete
            (chunks_in scope (rel_text f) r)
            (sig_for f content)
            (length (chunks_for f content))
          ≡ true

    -- nothing was written
    pub record Untouched (r r' : Reconciler) : Type 0 where
      pub store : r'.store ≡ r.store
      pub artifacts : r'.artifacts ≡ r.artifacts
      pub scopes : r'.scopes ≡ r.scopes
      pub dirty : r'.dirty ≡ r.dirty

    Untouched-refl : (r : Reconciler) → Untouched r r
    Untouched-refl r = record { store = refl; artifacts = refl; scopes = refl; dirty = refl }

    ensure_dir_scope-cached :
        (dir : List Text) (r : Reconciler) (id : Ulid)
        → find_key (dir_text dir) r.dir_scope ≡ some id
        → ensure_dir_scope dir r ≡ (ok id, r)
    unfolding ensure_dir_scope
    ensure_dir_scope-cached [] r id e = rw (ensure_dir_scope, e) refl
    ensure_dir_scope-cached (n ∷ up) r id e = rw (ensure_dir_scope, e) refl

    sync_text-settled :
        (f : File) (content : Text) (r : Reconciler)
        → IsSettled f content r
        → sync_text sha256_hex opt f content r ≡ (ok tt, unchanged (wanted f r))
    unfolding sync_text sync_chunks update ◌>>=◌
    sync_text-settled f content r h =
        rw (sync_text, ensure_dir_scope-cached f.dir r h.scope h.cached, ◌>>=◌, h.complete) refl

    cap_text-Untouched :
        (f : File) (content : Text) (r : Reconciler)
        → IsSettled f content r
        → ltb opt.max_depth (length f.dir) ≡ false
        → r.files_seen < opt.max_files
        → ((cap_text sha256_hex opt f content r).0 ≡ ok tt)
          × Untouched r (cap_text sha256_hex opt f content r).1
    unfolding cap_text
    cap_text-Untouched f content r h shallow few =
        let room : ltb opt.max_files (suc r.files_seen) ≡ false = ground (arith, few) in
        let counted = record r { files_seen = suc r.files_seen } in
        let settled : IsSettled f content counted = record {
          scope = h.scope;
          cached = h.cached;
          complete = h.complete;
        } in
        rw (cap_text, shallow, room, sync_text-settled f content counted settled)
          (refl, record { store = refl; artifacts = refl; scopes = refl; dirty = refl })

    -- a second pass over the file succeeds and writes nothing
    abbrev pub Twice : File → Reconciler → Type 0
    Twice f r =
        let r1 = (reconcile_file sha256_hex opt f r).1 in
        ((reconcile_file sha256_hex opt f r1).0 ≡ ok tt)
        × Untouched r1 (reconcile_file sha256_hex opt f r1).1

    module _
        (asked : (req : PushRequest) (t : s.State) (a : Artifact)
          → (s.push req t).0 ≡ ok a
          → IsAsked req a) where
      sync_text-IsSettled :
          (f : File) (content : Text) (r : Reconciler)
          → Distinct r.artifacts
          → (sync_text sha256_hex opt f content r).0 ≡ ok tt
          → IsSettled f content (sync_text sha256_hex opt f content r).1
      unfolding sync_text update
      sync_text-IsSettled f content r distinct h =
          let (scope, e, g) = >>=-eq-ok (ensure_dir_scope f.dir) _ r h in
          let r1 = (ensure_dir_scope f.dir r).1 in
          let placed = ensure_dir_scope-IsCached f.dir r scope e in
          let r2 = wanted f r1 in
          let k = ap (λ x. x.0) (sym g) ∙ h in
          let (v, e2, g2) = >>=-eq-ok (update (wanted f)) _ r1 k in
          let synced =
            sync_chunks-Settled asked opt.max_chunks (dir_text f.dir) (rel_text f) scope
              (chunks_for f content) (sig_for f content) r2
              (subst Distinct (sym placed.same_artifacts) distinct) (ap (λ x. x.0) (sym g2) ∙ k) in
          subst (IsSettled f content) (ap (λ x. x.1) (sym g2) ∙ ap (λ x. x.1) (sym g)) (record {
            scope = scope;
            cached = ap (find_key (dir_text f.dir)) synced.same_dirs ∙ placed.cached;
            complete = synced.complete;
          })

      cap_text-IsSettled :
          (f : File) (content : Text) (r : Reconciler)
          → Distinct r.artifacts
          → (cap_text sha256_hex opt f content r).0 ≡ ok tt
          → (ltb opt.max_depth (length f.dir) ≡ false)
            × IsSettled f content (cap_text sha256_hex opt f content r).1
      unfolding cap_text
      cap_text-IsSettled f content r distinct h =
          elim (Bool-cases (ltb opt.max_depth (length f.dir))) [
            | inl t ↦ let g = rw (cap_text, t) at h in cc
            | inr n ↦ elim (Bool-cases (ltb opt.max_files (suc r.files_seen))) [
              | inl t ↦ let g = rw (cap_text, n, t) at h in cc
              | inr k ↦
                  let counted = record r { files_seen = suc r.files_seen } in
                  (
                    n,
                    rw (cap_text, n, k)
                        (sync_text-IsSettled f content counted distinct (rw (cap_text, n, k) at h)),
                  )
            ]
          ]

      -- a file that a pass skips, a second one skips
      skipped-Twice :
          (f : File) (r : Reconciler)
          → ((t : Reconciler) → reconcile_file sha256_hex opt f t ≡ (ok tt, t))
          → Twice f r
      skipped-Twice f r skip = rw (skip r, skip r) (refl, Untouched-refl r)

      -- a file that a pass reads, a second one leaves as it is
      capped-Twice :
          (f : File) (content : Text) (r : Reconciler)
          → ((t : Reconciler)
              → reconcile_file sha256_hex opt f t ≡ cap_text sha256_hex opt f content t)
          → Distinct r.artifacts
          → (reconcile_file sha256_hex opt f r).0 ≡ ok tt
          → (reconcile_file sha256_hex opt f r).1.files_seen < opt.max_files
          → Twice f r
      capped-Twice f content r reads distinct h few =
          let r1 = (cap_text sha256_hex opt f content r).1 in
          let (shallow, settled) =
            cap_text-IsSettled f content r distinct (ap (λ x. x.0) (sym (reads r)) ∙ h) in
          rw (reads r, reads r1)
            (cap_text-Untouched f content r1 settled shallow
              (subst (λ x. x.1.files_seen < opt.max_files) (reads r) few))

      -- After a file was reconciled, a second pass over it, with the same content and below the cap on
      -- files, succeeds and writes nothing: the store, the index and the directories whose rollup is
      -- to be recomputed are as the first pass left them. The engine stores what a push asks for, and
      -- no two entries of the index are one artifact.
      pub reconcile_file-Twice :
          (f : File) (r : Reconciler)
          → Distinct r.artifacts
          → (reconcile_file sha256_hex opt f r).0 ≡ ok tt
          → (reconcile_file sha256_hex opt f r).1.files_seen < opt.max_files
          → Twice f r
      unfolding reconcile_file
      reconcile_file-Twice f r distinct h few = elim (Result-cases f.size) [
        | inr (x, e) ↦ let g = rw (reconcile_file, e) at h in cc
        | inl (size, e) ↦ elim (Bool-cases (ltb max_file_bytes size)) [
          | inl t ↦ skipped-Twice f r (λ x. rw (reconcile_file, e, t) refl)
          | inr n ↦ elim (Result-cases f.content) [
            | inr (x, e2) ↦ let g = rw (reconcile_file, e, n, e2) at h in cc
            | inl (content, e2) ↦ elim (Bool-cases (is_binary content)) [
              | inl t ↦ skipped-Twice f r (λ x. rw (reconcile_file, e, n, e2, t) refl)
              | inr k ↦
                  capped-Twice f content r (λ x. rw (reconcile_file, e, n, e2, k) refl) distinct h
                    few
            ]
          ]
        ]
      ]
