-- ===== src/Engine/Integrity/Versions.antt =====
-- internal/engine/branch.go, CrossVersion and the integrity of the store.
use ioc.Base.{ℕ, zero, suc, true, List, [], ◌∷◌, Text, pure, bind_keeps}
use ioc.Core.Types.{Ulid, Scope, Seed}
use ioc.Storage.Meta.{MetaEnv, put_scope, put_artifact}
use ioc.Storage.Meta.Records.{put_scope_stored}
use ioc.Storage.Interfaces.{Blobs, Vectors, Embedder}
use ioc.Engine.State.{Engine, look_keeps, on_db_keeps}
use ioc.Engine.Branch.{cross_version, next_version, seed_loop, seed_artifact}
use ioc.Engine.Integrity.{HasScope, HasParent, IsIntact}
use ioc.Engine.Integrity.Writes.{
  HasParent-map, put_scope-IsIntact, put_artifact-IsIntact, put_scope-HasScope,
  put_artifact-HasScope,
}
use ioc.Engine.Integrity.Operations.{embedded, embed-HasScope, embed-IsIntact}

module _ ⦃m : MetaEnv⦄ ⦃b : Blobs⦄ ⦃v : Vectors⦄ ⦃em : Embedder⦄ where
  -- what the seeding loop needs: the new version and its parent exist
  record Seedable (ns : Scope) (d : m.bolt.Db) : Type 0 where
    here : HasScope d ns.id
    above : HasParent d ns.parent
    intact : IsIntact d

  embed-Seedable :
      (ns : Scope) (text : Text) (s : Engine) → Seedable ns s.db → Seedable ns (embedded text s).db
  embed-Seedable ns text s h = record {
    here = embed-HasScope text s ns.id h.here;
    above = HasParent-map s.db (embedded text s).db (embed-HasScope text s) ns.parent h.above;
    intact = embed-IsIntact text s h.intact;
  }

  seed-Seedable :
      (ns : Scope) (text : Text) (id : Ulid) (now ref : ℕ) (d : m.bolt.Db)
      → Seedable ns d
      → Seedable ns (put_artifact (seed_artifact ns.id text id now ref) d).1
  unfolding seed_artifact
  seed-Seedable ns text id now ref d h =
      let a = seed_artifact ns.id text id now ref in
      record {
        here = put_artifact-HasScope a d ns.id h.here;
        above = HasParent-map d _ (put_artifact-HasScope a d) ns.parent h.above;
        intact = put_artifact-IsIntact a d h.here h.intact;
      }

  seeded-Seedable :
      (ns : Scope) (seed : Ulid) (d : m.bolt.Db)
      → Seedable ns d
      → Seedable (record ns { seed_from = seed }) (put_scope (record ns { seed_from = seed }) d).1
  seeded-Seedable ns seed d h =
      let ns' = record ns { seed_from = seed } in
      record {
        here = put_scope-HasScope ns' d ns.id h.here;
        above = HasParent-map d _ (put_scope-HasScope ns' d) ns.parent h.above;
        intact = put_scope-IsIntact ns' d h.above h.intact;
      }

  seed_loop-IsIntact :
      (ns : Scope) (ids : ℕ → Ulid) (now i : ℕ) (seeds : List Text) (s : Engine)
      → Seedable ns s.db
      → IsIntact (seed_loop ns ids now i seeds s).1.db
  unfolding seed_loop pure
  seed_loop-IsIntact ns ids now i [] s h = h.intact
  seed_loop-IsIntact ns ids now zero (text ∷ seeds) s h =
      let s1 = embedded text s in
      let h1 = embed-Seedable ns text s h in
      bind_keeps (λ x. IsIntact x.db) _ _ s h1.intact
        λ ref e.
          let h2 = seed-Seedable ns text (ids 0) now ref s1.db h1 in
          let d2 = (put_artifact (seed_artifact ns.id text (ids 0) now ref) s1.db).1 in
          on_db_keeps IsIntact _ _ s1 h2.intact λ u e2.
            let h3 = seeded-Seedable ns (ids 0) d2 h2 in
            let d3 = (put_scope (record ns { seed_from = ids 0 }) d2).1 in
            on_db_keeps IsIntact _ _ (record s1 { db = d2 }) h3.intact
              λ u2 e3.
                seed_loop-IsIntact (record ns { seed_from = ids 0 }) ids now 1 seeds
                  (record s1 { db = d3 }) h3
  seed_loop-IsIntact ns ids now (suc i) (text ∷ seeds) s h =
      let s1 = embedded text s in
      let h1 = embed-Seedable ns text s h in
      bind_keeps (λ x. IsIntact x.db) _ _ s h1.intact
        λ ref e.
          let h2 = seed-Seedable ns text (ids (suc i)) now ref s1.db h1 in
          let d2 = (put_artifact (seed_artifact ns.id text (ids (suc i)) now ref) s1.db).1 in
          on_db_keeps IsIntact _ _ s1 h2.intact
            λ u e2. seed_loop-IsIntact ns ids now (suc (suc i)) seeds (record s1 { db = d2 }) h2

  pub cross_version-IsIntact :
      (scope : Ulid) (seed : Seed) (id : Ulid) (ids : ℕ → Ulid) (now : ℕ) (s : Engine)
      → IsIntact s.db
      → IsIntact (cross_version scope seed id ids now s).1.db
  unfolding cross_version next_version
  cross_version-IsIntact scope seed id ids now s h = look_keeps IsIntact _ _ s h λ sc e.
      let old = record sc { archived = true } in
      let above = h.parents scope sc e in
      let h1 = put_scope-IsIntact old s.db above h in
      let d1 = (put_scope old s.db).1 in
      on_db_keeps IsIntact _ _ s h1 λ u e1.
        let ns = next_version sc scope id now in
        let above1 = HasParent-map s.db d1 (put_scope-HasScope old s.db) sc.parent above in
        let h2 = put_scope-IsIntact ns d1 above1 h1 in
        let d2 = (put_scope ns d1).1 in
        on_db_keeps IsIntact _ _ (record s { db = d1 }) h2
          λ u2 e2.
            seed_loop-IsIntact ns ids now 0 _ (record s { db = d2 })
              (record {
                here = (m.scope_json.decoded ns, put_scope_stored ns d1 e2);
                above = HasParent-map d1 d2 (put_scope-HasScope ns d1) sc.parent above1;
                intact = h2;
              })
