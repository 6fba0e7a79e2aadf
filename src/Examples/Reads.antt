-- ===== src/Examples/Reads.antt =====
-- Reads of a store: a scope's lineage and view, and a walk over an edge.
use ioc.Base.{
  ℕ, true, false, bytes, List, [], ◌∷◌, none, ◌≡◌, ◌↔◌, refl, ok, In, text_eq, any, filter,
  transact, inl,
}
use ioc.Core.Types.{Scope, Artifact, Edge, lookup, Hit}
use ioc.Storage.Meta.{
  put_json, get_json, scan, get_artifact, get_scope, put_scope, put_artifact, encode_value,
  encode_with, read_value, decode_value, decode_with, put_edge, edge_key,
}
use ioc.Engine.State.{Engine, created_scope}
use ioc.Engine.Push.{pushed, with_trust, union_ids}
use ioc.Engine.Integrity.{IsIntact}
use ioc.Engine.Integrity.Writes.{put_artifact-IsIntact}
use ioc.Engine.Visibility.{ancestors_of, visible_artifacts}
use ioc.Engine.Visibility.Ancestors.{Lineage, ancestors_of-Lineage}
use ioc.Engine.Visibility.Views.{Sees, visible_artifacts-Sees}
use ioc.Engine.Visibility.{ancestor_loop}
use ioc.Engine.Reading.{
  hit_of, scope_path, scope_label, build_hit, kind_ok, visit, visit_all, edges_at, walk_level, walk,
  related_hits, related,
}
use ioc.Engine.Reading.Walks.{related-Current}
use ioc.Core.Types.{is_zero, dir_in}
use ioc.Storage.Meta.{edges_from, edges_to, edges_where}
use ioc.Engine.Integrity.Writes.{put_edge-IsIntact}
use ioc.Base.{◌≢◌}
use ioc.Core.Maps.{strip}
use ioc.Examples.Libraries.{sample_meta, sample_blobs, sample_vectors, sample_embedder}
use ioc.Examples.Witnesses.{
  request, first_artifact, stored_store, node, stored_store-IsIntact, node_stays,
}

ancestors_of-Lineage_example :
    (out : List Scope) × (ancestors_of 1 stored_store.db ≡ ok out)
    × Lineage stored_store.db (1 ∷ []) 0 out
unfolding created_scope
ancestors_of-Lineage_example = ancestors_of-Lineage 1 node stored_store.db node_stays

visible_artifacts-Sees_example :
    (ancs : List Scope) × (out : List Artifact) × Lineage stored_store.db (1 ∷ []) 0 ancs
    × (visible_artifacts 1 0 false stored_store.db ≡ ok out)
    × ((a : Artifact)
        → In a out
          ↔ ((get_artifact a.id stored_store.db ≡ ok a) × Sees stored_store.db 1 0 false ancs a))
unfolding created_scope
visible_artifacts-Sees_example =
    visible_artifacts-Sees stored_store.db stored_store-IsIntact 1 node 0 false node_stays

-- another artifact of the scope, which points at the first one
abbrev pointer : Artifact
pointer = pushed (request [] []) 3 102 (bytes "body") 1

abbrev pointer_store : Engine
pointer_store = record {
  db = (put_artifact pointer stored_store.db).1;
  blobs = [];
  emb = none;
  model_ok = true;
}

abbrev link : Edge
link = record { from = 3; to = 2; kind = bytes "supports"; created_at = 103 }

abbrev linked_store : Engine
linked_store = record {
  db = (put_edge link pointer_store.db).1;
  blobs = [];
  emb = none;
  model_ok = true;
}

both_read :
    (get_artifact 3 pointer_store.db ≡ ok pointer)
    × (get_artifact 2 pointer_store.db ≡ ok first_artifact)
unfolding get_artifact get_json lookup text_eq read_value decode_value decode_with put_scope
    put_artifact put_json encode_value encode_with transact created_scope pushed union_ids
    with_trust any filter strip
both_read = (refl, refl)

linked_store-IsIntact : IsIntact linked_store.db
unfolding pushed
linked_store-IsIntact =
    put_edge-IsIntact link pointer_store.db refl (pointer, both_read.0)
      (first_artifact, both_read.1)
      (put_artifact-IsIntact pointer stored_store.db (node, node_stays) stored_store-IsIntact)

abbrev pointer_hit : Hit ℕ
pointer_hit = hit_of pointer 0 (scope_path 1 linked_store.db) []

pointer_found : related 2 [] dir_in 1 linked_store ≡ ok (pointer_hit ∷ [])
unfolding related walk walk_level edges_at visit_all visit kind_ok related_hits build_hit scope_path
    scope_label ancestor_loop edges_from edges_to edges_where scan get_scope put_edge edge_key
    get_artifact get_json lookup text_eq read_value decode_value decode_with put_scope put_artifact
    put_json encode_value encode_with transact created_scope pushed union_ids with_trust any filter
    strip
pointer_found = refl

related-Current_example :
    (pointer_hit.artifact ≢ 2)
    × ((a : Artifact) × (get_artifact 3 linked_store.db ≡ ok a)
        × (is_zero a.superseded_by ≡ true)
        × (pointer_hit ≡ hit_of a 0 (scope_path a.scope linked_store.db) []))
unfolding pushed
related-Current_example =
    related-Current 2 [] dir_in 1 linked_store (pointer_hit ∷ []) linked_store-IsIntact
      pointer_found pointer_hit (inl refl)
