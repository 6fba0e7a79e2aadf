-- ===== src/Engine/Integrity.antt =====
-- Referential integrity of the metadata: what an intact store is.
pub mod Writes
pub mod Deletes
pub mod Edges
pub mod Embedding
pub mod Steps
pub mod Operations
pub mod Versions
pub mod Histories
use ioc.Base.{true, Text, ◌≡◌, ◌⊎◌, ok}
use ioc.Core.Types.{Ulid, is_zero, Scope, Artifact, Edge}
use ioc.Storage.Bolt.{Bucket}
use ioc.Storage.Meta.{MetaEnv, get_scope, get_artifact, get_json, edge_key}
use ioc.Storage.Meta.Tables.{IsKeyed}

module _ ⦃m : MetaEnv⦄ where
  abbrev pub HasScope : m.bolt.Db → Ulid → Type 0
  HasScope d id = (s : Scope) × (get_scope id d ≡ ok s)

  abbrev pub HasArtifact : m.bolt.Db → Ulid → Type 0
  HasArtifact d id = (a : Artifact) × (get_artifact id d ≡ ok a)

  -- the parent of a scope: none, or a scope that exists
  abbrev pub HasParent : m.bolt.Db → Ulid → Type 0
  HasParent d parent = (is_zero parent ≡ true) ⊎ HasScope d parent

  abbrev pub scope_key : Scope → Text
  scope_key s = m.ulids.text s.id

  abbrev pub artifact_key : Artifact → Text
  artifact_key a = m.ulids.text a.id

  pub record IsIntact (d : m.bolt.Db) : Type 0 where
    pub scopes_keyed : IsKeyed Bucket.scopes m.scope_json scope_key d
    pub artifacts_keyed : IsKeyed Bucket.artifacts m.artifact_json artifact_key d
    pub edges_keyed : IsKeyed Bucket.edges m.edge_json edge_key d
    pub parents : (id : Ulid) (s : Scope) → get_scope id d ≡ ok s → HasParent d s.parent
    pub homes : (id : Ulid) (a : Artifact) → get_artifact id d ≡ ok a → HasScope d a.scope
    pub ends :
        (k : Text) (e : Edge)
        → get_json Bucket.edges m.edge_json k d ≡ ok e
        → HasArtifact d e.from × HasArtifact d e.to
