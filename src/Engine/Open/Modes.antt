-- ===== src/Engine/Open/Modes.antt =====
-- internal/engine/engine.go: what a store that Open opens has in common with its key and its embedder.
use ioc.Base.{
  arith, ℕ, Bool, true, false, not, ◌&&◌, ◌||◌, Text, bytes, text_eq, is_empty, ltb, ◌==◌, Option,
  none, some, ok, itoa, and-true, >>=-eq-ok, ◌≡◌, refl, sym, ap, ◌∙◌, inl, inr, Bool-cases,
  Result-cases, subst, some-injective, pure, throw,
}
use ioc.Storage.Box.{enabled}
use ioc.Storage.Meta.{MetaEnv, get_config, put_config, is_empty_store}
use ioc.Storage.Meta.Values.{get_config-put_config, get_config-put_config_ne}
use ioc.Storage.Meta.Frames.{
  SameRecords, SameRecords-refl, SameRecords-trans, put_config-SameRecords,
}
use ioc.Storage.Interfaces.{Blobs, Vectors, Embedder}
use ioc.Engine.State.{Engine, on_db, open_emb}
use ioc.Engine.Open.{
  has_enc, is_set, check_encryption_sentinel, open_engine, known_dims, open_vectors, check_model,
  atoi_dims, bare, with_vectors,
}

module _ ⦃m : MetaEnv⦄ ⦃b : Blobs⦄ ⦃v : Vectors⦄ where
  -- the records are the same, and the settings but the one
  record OnlySets (key : Text) (d d' : m.bolt.Db) : Type 0 where
    settings : (j : Text) → text_eq key j ≡ false → get_config j d' ≡ get_config j d
    records : SameRecords d d'

  OnlySets-refl : (key : Text) (d : m.bolt.Db) → OnlySets key d d
  OnlySets-refl key d = record { settings = λ j n. refl; records = SameRecords-refl d }

  put_config-OnlySets : (key val : Text) (d : m.bolt.Db) → OnlySets key d (put_config key val d).1
  put_config-OnlySets key val d = record {
    settings = get_config-put_config_ne key val d;
    records = put_config-SameRecords key val d;
  }

  -- the sentinel after its check
  record Checked (s s' : Engine) : Type 0 where
    mode : has_enc s'.db ≡ enabled m.box
    unmixed : is_empty_store s.db ≡ false → has_enc s.db ≡ enabled m.box
    sets : OnlySets (bytes "enc") s.db s'.db

  same_mode : (h k : Bool) → (h && not k) ≡ false → (not h && k) ≡ false → h ≡ k
  same_mode true true p q = refl
  same_mode true false p q = cc
  same_mode false true p q = cc
  same_mode false false p q = refl

  check_encryption_sentinel-Checked :
      (s : Engine)
      → (check_encryption_sentinel s).0 ≡ ok tt
      → Checked s (check_encryption_sentinel s).1
  unfolding check_encryption_sentinel on_db
  check_encryption_sentinel-Checked s h = elim (Bool-cases (has_enc s.db && not (enabled m.box))) [
    | inl t ↦ let g = rw t at h in cc
    | inr n ↦ elim (Bool-cases (not (has_enc s.db) && enabled m.box)) [
      | inr k ↦
          let same = same_mode (has_enc s.db) (enabled m.box) n k in
          rw (n, k)
            (record { mode = same; unmixed = λ x. same; sets = OnlySets-refl (bytes "enc") s.db })
      | inl y ↦ elim (Bool-cases (is_empty_store s.db)) [
        | inr full ↦ let g = rw (n, y, full) at h in cc
        | inl empty ↦
            let done = rw (n, y, empty) at h in
            let written =
              get_config-put_config (bytes "enc") (bytes "aes256gcm") s.db (omega arith) done in
            let (bare, on) = and-true (not (has_enc s.db)) (enabled m.box) y in
            rw (n, y, empty)
              (record {
                mode = ap is_set written ∙ sym on;
                unmixed = λ x. cc (x, empty);
                sets = put_config-OnlySets (bytes "enc") (bytes "aes256gcm") s.db;
              })
      ]
    ]
  ]

module _ ⦃m : MetaEnv⦄ ⦃b : Blobs⦄ ⦃v : Vectors⦄ ⦃em : Embedder⦄ where
  open_emb-OnlySets :
      (dims : ℕ) (s : Engine) → OnlySets (bytes "emb_dims") s.db (open_emb dims s).1.db
  unfolding open_emb on_db
  open_emb-OnlySets dims s = elim (Result-cases (v.open_store dims)) [
    | inr (e, p) ↦ rw (open_emb, p) (OnlySets-refl (bytes "emb_dims") s.db)
    | inl (es, p) ↦ rw (open_emb, p) (put_config-OnlySets (bytes "emb_dims") (itoa dims) s.db)
  ]

  known_dims-OnlySets :
      (o : Option ℕ) (s : Engine) → OnlySets (bytes "emb_dims") s.db (known_dims o s).1.db
  unfolding pure throw
  known_dims-OnlySets none s = OnlySets-refl (bytes "emb_dims") s.db
  known_dims-OnlySets (some dims) s = elim (Bool-cases (ltb 0 em.dims && not (em.dims == dims))) [
    | inl t ↦ rw t (OnlySets-refl (bytes "emb_dims") s.db)
    | inr f ↦ rw f (open_emb-OnlySets dims s)
  ]

  open_vectors-OnlySets :
      (o : Option Text) (s : Engine) → OnlySets (bytes "emb_dims") s.db (open_vectors o s).1.db
  unfolding pure
  open_vectors-OnlySets (some t) s = known_dims-OnlySets (atoi_dims t) s
  open_vectors-OnlySets none s = elim (Bool-cases (ltb 0 em.dims)) [
    | inl t ↦ rw t (open_emb-OnlySets em.dims s)
    | inr f ↦ rw f (OnlySets-refl (bytes "emb_dims") s.db)
  ]

  check_model-same : (o : Option Text) (s : Engine) → (check_model o s).1 ≡ s
  unfolding pure throw
  check_model-same none s = refl
  check_model-same (some t) s = elim (Bool-cases (is_empty em.model || text_eq t em.model)) [
    | inl y ↦ rw y refl
    | inr n ↦ rw n refl
  ]

  check_model-agrees :
      (o : Option Text) (s : Engine)
      → (check_model o s).0 ≡ ok tt
      → (stored : Text) → o ≡ some stored
      → (is_empty em.model || text_eq stored em.model) ≡ true
  unfolding pure throw
  check_model-agrees none s h stored e = cc
  check_model-agrees (some t) s h stored e =
      elim (Bool-cases (is_empty em.model || text_eq t em.model)) [
        | inl y ↦ subst (λ x. (is_empty em.model || text_eq x em.model) ≡ true) (some-injective e) y
        | inr n ↦ let g = rw n at h in cc
      ]

  -- What a store that opens, `d'`, has in common with the key and the embedder it was opened with,
  -- and with what it was, `d`.
  pub record Fits (d d' : m.bolt.Db) : Type 0 where
    mode : has_enc d' ≡ enabled m.box
    unmixed : is_empty_store d ≡ false → has_enc d ≡ enabled m.box
    model :
        (stored : Text)
        → get_config (bytes "emb_model") d ≡ some stored
        → (is_empty em.model || text_eq stored em.model) ≡ true
    records : SameRecords d d'

  -- A store that opens is marked as encrypted exactly when there is a key. If it was not empty, it
  -- was marked so before exactly when there is a key. If it was built with a model,
  -- the embedder has that model or does not say its own. No scope, artifact, edge or trace was changed.
  pub open_engine-Fits :
      (d : m.bolt.Db) (bs : b.Store) → (open_engine d bs).0 ≡ ok tt → Fits d (open_engine d bs).1.db
  unfolding open_engine text_eq
  open_engine-Fits d bs h =
      let s0 = bare d bs in
      let (u, e, g) = >>=-eq-ok check_encryption_sentinel _ s0 h in
      let s1 = (check_encryption_sentinel s0).1 in
      let h1 = ap (λ x. x.0) (sym g) ∙ h in
      let (w, e2, g2) = >>=-eq-ok with_vectors _ s1 h1 in
      let s2 = (with_vectors s1).1 in
      let found = get_config (bytes "emb_model") s2.db in
      let checked = check_encryption_sentinel-Checked s0 e in
      let sets = open_vectors-OnlySets (get_config (bytes "emb_dims") s1.db) s1 in
      let ends : (open_engine d bs).1 ≡ s2 = ap (λ x. x.1) (g ∙ g2) ∙ check_model-same found s2 in
      subst (λ x. Fits d x.db) (sym ends)
        (record {
          mode = ap is_set (sets.settings (bytes "enc") refl) ∙ checked.mode;
          unmixed = checked.unmixed;
          model = λ stored was.
              check_model-agrees found s2 (ap (λ x. x.0) (sym (g ∙ g2)) ∙ h) stored (
                sets.settings (bytes "emb_model") refl
                ∙ checked.sets.settings (bytes "emb_model") refl
                ∙ was);
          records = SameRecords-trans d s1.db s2.db checked.sets.records sets.records;
        })
