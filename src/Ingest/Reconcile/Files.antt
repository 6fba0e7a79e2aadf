-- ===== src/Ingest/Reconcile/Files.antt =====
-- internal/ingest/reconcile.go: reconcileFile.
use ioc.Base.{
  ℕ, suc, ◌+◌, Bool, List, [], ◌∷◌, ◌++◌, Text, bytes, ltb, ◌==◌, filter, length, Result, ok, err,
  invalid_input, Exec, ◌>>=◌, if◌then◌else◌,
}
use ioc.Core.Types.{Ulid, Artifact}
use ioc.Core.Ulid.{Ulids}
use ioc.Search.{Unicode}
use ioc.Ingest.Chunk.{Chunk}
use ioc.Ingest.Lang.{split_lang}
use ioc.Ingest.Complete.{chunks_complete, chunks_for_path}
use ioc.Ingest.Reconcile.{
  Store, Options, Reconciler, File, max_file_bytes, is_binary, dir_text, rel_text, detect_language,
  sig_of, limited, update, ensure_dir_scope, delete_chunks, push_chunks,
}

module _ ⦃s : Store⦄ where
  abbrev refused : Text → Reconciler → Result (Unit {0}) × Reconciler
  refused name r = (err invalid_input, record r { st = limited name r.st })

  abbrev pub unchanged : Reconciler → Reconciler
  unchanged r = record r { st = record r.st { files_unchanged = suc r.st.files_unchanged } }

  -- the statistics of a file that was written, and its directory's rollup to be recomputed
  abbrev pub rewritten : Text → Bool → Reconciler → Reconciler
  rewritten dir was_update r = record r {
    dirty = dir ∷ r.dirty;
    st =
        if was_update
        then record r.st { files_updated = suc r.st.files_updated }
        else record r.st { files_added = suc r.st.files_added };
  }

  abbrev pub chunks_in : Ulid → Text → Reconciler → List Artifact
  chunks_in scope rel r = chunks_for_path rel (filter (λ a. a.scope == scope) r.artifacts)

  -- from the stored chunks of the file on
  unfoldable pub sync_chunks :
      ℕ → Text → Text → Ulid → List Chunk → Text → Exec Reconciler (Unit {0})
  unfolding chunks_complete chunks_for_path filter delete_chunks push_chunks update
  sync_chunks max_chunks dir rel scope chunks sig r =
      let existing = chunks_in scope rel r in
      if chunks_complete existing sig (length chunks)
      then (ok tt, unchanged r)
      else if ltb max_chunks (r.st.chunks_added + length chunks)
      then refused (bytes "max_chunks") r
      else (delete_chunks existing >>= λ u. push_chunks scope rel chunks 0 sig >>= λ v.
            update (rewritten dir (ltb 0 (length existing))))
          r

  abbrev pub wanted : File → Reconciler → Reconciler
  wanted f r = record r {
    want_paths = rel_text f ∷ r.want_paths;
    dir_files = r.dir_files ++ ((dir_text f.dir, f.base) ∷ []);
  }

  module _ ⦃u : Unicode⦄ ⦃ul : Ulids⦄ (sha256_hex : Text → Text) (opt : Options) where
    -- the part behind the caps on depth and files
    unfoldable pub sync_text : File → Text → Exec Reconciler (Unit {0})
    unfolding ensure_dir_scope update sync_chunks sig_of detect_language split_lang
    sync_text f content = ensure_dir_scope f.dir >>= λ scope. update (wanted f) >>= λ v.
        let lang = detect_language (rel_text f) in
        sync_chunks opt.max_chunks (dir_text f.dir) (rel_text f) scope
          (split_lang content lang opt.max_chars opt.overlap)
          (sig_of sha256_hex content lang opt.max_chars opt.overlap)

    -- the caps on depth and files
    unfoldable pub cap_text : File → Text → Exec Reconciler (Unit {0})
    unfolding sync_text
    cap_text f content r =
        let counted = record r { files_seen = suc r.files_seen } in
        if ltb opt.max_depth (length f.dir)
        then refused (bytes "max_depth") r
        else if ltb opt.max_files counted.files_seen
        then refused (bytes "max_files") counted
        else sync_text f content counted

    -- `reconcileFile`
    unfoldable pub reconcile_file : File → Exec Reconciler (Unit {0})
    unfolding cap_text is_binary
    reconcile_file f r = elim f.size [
      | err e ↦ (err e, r)
      | ok size ↦ if ltb max_file_bytes size then (ok tt, r) else elim f.content [
        | err e ↦ (err e, r)
        | ok content ↦ if is_binary content then (ok tt, r) else cap_text f content r
      ]
    ]
