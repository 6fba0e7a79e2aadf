-- ===== src/Examples/Witnesses.antt =====
-- The theorems at concrete stores: a root scope, two artifacts, a supersession and an edge.
use ioc.Base.{
  true, false, Text, bytes, List, [], ◌∷◌, none, some, ◌≡◌, ◌↔◌, refl, ok, In, if◌then◌else◌,
  text_eq, any, filter, itoa, transact, guard, pure, throw, reads, ◌>>=◌, inl, ◌==◌, is_empty,
}
use ioc.Core.Types.{
  Ulid, Scope, Artifact, Edge, PushRequest, EdgeSpec, lookup, trust_key, role_worktree,
}
use ioc.Storage.Box.{seal, unseal}
use ioc.Storage.Box.RoundTrip.{unseal-seal}
use ioc.Storage.Bolt.{Bucket}
use ioc.Storage.Meta.{
  put_json, get_json, scan, get_artifact, get_scope, put_scope, put_artifact, encode_value,
  encode_with, read_value, decode_value, decode_with, put_edge, edge_key, put_config, get_config,
  is_empty_store, decode_value, encode_value, MetaEnv, delete_edges_for, edge_keys_for, delete_keys,
}
use ioc.Storage.Meta.Values.{get_json-put_json}
use ioc.Storage.Meta.Tables.{scan_iff}
use ioc.Engine.State.{
  Engine, created_scope, store_summary_embedding, embed_text, reconcile_model, ensure_emb, open_emb,
  emb_put, on_db, look,
}
use ioc.Engine.Push.{
  push, pushed, with_trust, union_ids, store_content, load_supersede_targets,
  validate_relation_targets, commit_push, mark_superseded_by, create_push_edges,
}
use ioc.Ingest.Complete.{atoi_digits}
use ioc.Engine.Open.{open_engine}
use ioc.Engine.Open.Modes.{Fits, open_engine-Fits}
use ioc.Engine.Provenance.{push-provenance}
use ioc.Core.Utf8.{is_utf8_artifact}
use ioc.Engine.Api.{Call, after_calls}
use ioc.Engine.Integrity.{IsIntact, scope_key}
use ioc.Engine.Integrity.Writes.{put_scope-IsIntact, put_artifact-IsIntact}
use ioc.Engine.Integrity.Histories.{after_calls-IsIntact}
use ioc.Engine.Integrity.Edges.{delete_edges_for-NoEdges}
use ioc.Engine.Integrity.Deletes.{NoEdges}
use ioc.Engine.Supersession.{mark_read}
use ioc.Engine.Supersession.Pushes.{push-artifacts}
use ioc.Core.Maps.{strip}
use ioc.Examples.Libraries.{
  sample_meta, sample_blobs, sample_vectors, sample_embedder, no_tables, shift_cipher, one_nonce,
}

abbrev empty_store : Engine
empty_store = record { db = no_tables; blobs = []; emb = none; model_ok = false }

empty_store-IsIntact : IsIntact empty_store.db
unfolding lookup get_scope get_artifact get_json
empty_store-IsIntact = record {
  scopes_keyed = record { at = λ k blob g. cc };
  artifacts_keyed = record { at = λ k blob g. cc };
  edges_keyed = record { at = λ k blob g. cc };
  parents = λ id s g. cc;
  homes = λ id a g. cc;
  ends = λ k e g. cc;
}

abbrev pub request : List Ulid → List EdgeSpec → PushRequest
request old relations = record {
  scope = 1;
  kind = 0;
  summary = bytes "cache is LRU";
  content = some (bytes "body");
  derived_from = old;
  tier = 0;
  publish = true;
  embed_text = [];
  meta = (trust_key, bytes "self") ∷ (bytes "src", bytes "a.go") ∷ [];
  supersedes = old;
  trust = bytes "ingested";
  relations = relations;
}

abbrev history : List Call
history =
    Call.creates_scope 0 role_worktree (bytes "repo") 1 100
    ∷ Call.pushes (request [] []) 2 101
    ∷ Call.pushes (request (2 ∷ []) (record { kind = bytes "supports"; target = 2 } ∷ [])) 3 102
    ∷ Call.drops_artifact 2
    ∷ []

after_calls-IsIntact_example : IsIntact (after_calls history empty_store).db
after_calls-IsIntact_example =
    after_calls-IsIntact history empty_store (tt, (tt, ((refl, tt), (tt, tt)))) empty_store-IsIntact

abbrev pub node : Scope
node = created_scope 0 role_worktree (bytes "repo") 1 100

abbrev pub first_artifact : Artifact
first_artifact = pushed (request [] []) 2 101 (bytes "body") 1

-- a store with one scope and one artifact in it
abbrev pub stored_store : Engine
stored_store = record {
  db = (put_artifact first_artifact (put_scope node no_tables).1).1;
  blobs = [];
  emb = none;
  model_ok = true;
}

node_found : get_scope 1 (put_scope node no_tables).1 ≡ ok node
unfolding get_scope get_json lookup text_eq read_value decode_value decode_with put_scope put_json
    encode_value encode_with transact created_scope
node_found = refl

pub node_stays : get_scope 1 stored_store.db ≡ ok node
unfolding get_scope get_json lookup text_eq read_value decode_value decode_with put_scope
    put_artifact put_json encode_value encode_with transact created_scope pushed any filter
node_stays = refl

pub stored_store-IsIntact : IsIntact stored_store.db
unfolding created_scope pushed
stored_store-IsIntact =
    put_artifact-IsIntact first_artifact (put_scope node no_tables).1 (node, node_found)
      (put_scope-IsIntact node no_tables (inl refl) empty_store-IsIntact)

abbrev blob : Text
blob =
    1 ∷ 2 ∷ 3 ∷ 4 ∷ 5 ∷ 6 ∷ 7 ∷ 8 ∷ 9 ∷ 10 ∷ 11 ∷ 12 ∷ 0 ∷ 0 ∷ 0 ∷ 0 ∷ 0 ∷ 0 ∷ 0 ∷ 0 ∷ 0 ∷ 0 ∷ 0 ∷ 0
    ∷ 0 ∷ 0 ∷ 0 ∷ 0 ∷ 66 ∷ 67 ∷ []

blob_sealed : seal shift_cipher one_nonce (65 ∷ 66 ∷ []) (bytes "k") ≡ ok blob
unfolding seal
blob_sealed = refl

unseal-seal_example : unseal shift_cipher blob (bytes "k") ≡ ok (65 ∷ 66 ∷ [])
unseal-seal_example = unseal-seal shift_cipher one_nonce (65 ∷ 66 ∷ []) (bytes "k") blob blob_sealed

abbrev second : PushRequest
second = request (2 ∷ []) (record { kind = bytes "supports"; target = 2 } ∷ [])

abbrev second_artifact : Artifact
second_artifact = pushed second 3 102 (bytes "body") 1

push-second : (push second 3 102 stored_store).0 ≡ ok second_artifact
unfolding push pushed created_scope put_scope put_artifact put_json encode_value encode_with
    transact guard pure throw reads ◌>>=◌ get_scope get_artifact get_json lookup text_eq read_value
    decode_value decode_with any filter with_trust union_ids store_summary_embedding embed_text
    reconcile_model ensure_emb open_emb emb_put put_config itoa store_content load_supersede_targets
    validate_relation_targets commit_push mark_superseded_by create_push_edges put_edge edge_key
    on_db look
push-second = refl

push-provenance_example : lookup trust_key second_artifact.meta ≡ (
    if text_eq trust_key trust_key
    then (if is_empty second.trust then none else some second.trust)
    else lookup trust_key second.meta)
push-provenance_example =
    push-provenance second 3 102 stored_store second_artifact trust_key push-second

second_clean : is_utf8_artifact second_artifact ≡ true
unfolding pushed with_trust strip filter any union_ids text_eq
second_clean = refl

push-artifacts_example : get_artifact 2 (push second 3 102 stored_store).1.db ≡ (
    if any (λ k. k == 2) second.supersedes
    then mark_read 3 (get_artifact 2 stored_store.db)
    else if 3 == 2
    then ok second_artifact
    else get_artifact 2 stored_store.db)
push-artifacts_example =
    push-artifacts second 3 102 stored_store second_artifact stored_store-IsIntact second_clean
      push-second 2

stored_scopes :
    scan sample_meta.scope_json
      (λ x. true)
      (sample_meta.bolt.for_each stored_store.db Bucket.scopes)
    ≡ ok (node ∷ [])
unfolding scan pushed created_scope put_scope put_artifact put_json encode_value encode_with
    transact read_value decode_value decode_with strip text_eq lookup filter any
stored_scopes = refl

scan_iff_example : In node (node ∷ []) ↔ (
    (get_json Bucket.scopes sample_meta.scope_json (scope_key node) stored_store.db ≡ ok node)
    × (true ≡ true))
scan_iff_example =
    scan_iff Bucket.scopes sample_meta.scope_json scope_key (λ x. true) stored_store.db (node ∷ [])
      node stored_store-IsIntact.scopes_keyed stored_scopes

node_stored :
    put_json Bucket.scopes sample_meta.scope_json (sample_meta.ulids.text 1) node no_tables
    ≡ ok (put_scope node no_tables).1
unfolding put_scope put_json encode_value encode_with transact created_scope
node_stored = refl

get_json-put_json_example :
    get_json Bucket.scopes sample_meta.scope_json
      (sample_meta.ulids.text 1)
      (put_scope node no_tables).1
    ≡ (if text_eq (sample_meta.ulids.text 1) (sample_meta.ulids.text 1)
        then ok node
        else get_json Bucket.scopes sample_meta.scope_json (sample_meta.ulids.text 1) no_tables)
get_json-put_json_example =
    get_json-put_json Bucket.scopes sample_meta.scope_json (sample_meta.ulids.text 1) node no_tables
      (put_scope node no_tables).1 node_stored (sample_meta.ulids.text 1)

abbrev loop : Edge
loop = record { from = 2; to = 2; kind = bytes "supports"; created_at = 103 }

edges_deleted : (delete_edges_for 2 (put_edge loop stored_store.db).1).0 ≡ ok tt
unfolding delete_edges_for edge_keys_for delete_keys put_edge edge_key put_json put_artifact
    put_scope encode_value encode_with read_value decode_value decode_with transact strip filter
    text_eq lookup pushed created_scope any
edges_deleted = refl

delete_edges_for-NoEdges_example :
    NoEdges (delete_edges_for 2 (put_edge loop stored_store.db).1).1 2
delete_edges_for-NoEdges_example =
    delete_edges_for-NoEdges 2 (put_edge loop stored_store.db).1 edges_deleted

-- a new store with a key, opened for the first time
abbrev keyed : MetaEnv
keyed = record sample_meta { box = some shift_cipher }

abbrev founded : keyed.bolt.Db
founded = (open_engine ⦃m = keyed⦄ no_tables []).1.db

reopened : (open_engine ⦃m = keyed⦄ founded []).0 ≡ ok tt
unfolding open_engine ◌>>=◌ get_config lookup put_config text_eq encode_value encode_with strip
    filter decode_value decode_with itoa atoi_digits seal unseal is_empty_store
reopened = refl

open_engine-Fits_example : Fits ⦃m = keyed⦄ founded (open_engine ⦃m = keyed⦄ founded []).1.db
open_engine-Fits_example = open_engine-Fits ⦃m = keyed⦄ founded [] reopened
