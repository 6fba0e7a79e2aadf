-- ===== src/Storage/Meta.antt =====
-- internal/storage/meta.go: the metadata store, one JSON value for each record, sealed under its
-- key when encryption is on. encoding/json is a parameter.
pub mod Values
pub mod Scans
pub mod Tables
pub mod Frames
pub mod Records
use ioc.Base.{
  ℕ, Bool, true, false, ◌||◌, List, [], ◌∷◌, ◌++◌, Text, Option, none, some, bytes, text_eq, ◌==◌,
  ◌≡◌, Error, Result, ok, err, filter, not_found, and_then, Exec, transact, is_empty, if◌then◌else◌,
}
use ioc.Core.Types.{Ulid, Scope, Artifact, Edge, TraceRecord}
use ioc.Core.Utf8.{is_utf8_artifact, is_utf8_edge, is_utf8_trace}
use ioc.Core.Ulid.{Ulids}
use ioc.Core.Floats.{Floats}
use ioc.Storage.Box.{Aead, Box, Nonces, seal, unseal}
use ioc.Storage.Bolt.{Bolt, Bucket, config, scopes, artifacts, traces, edges}

-- encoding/json on one type. A value that is written reads back as `decoded` gives it, with U+FFFD for
-- what is not UTF-8 in its strings; so a value whose strings are UTF-8 reads back as it was.
pub record Codec (A : Type 0) : Type 0 where
  pub marshal : A → Result Text
  pub unmarshal : Text → Result A
  pub decoded : A → A
  pub unmarshal-marshal : (a : A) {t : Text} → marshal a ≡ ok t → unmarshal t ≡ ok (decoded a)

-- What the store is built on: `Meta.box` and the libraries. Of encoding/json it relies on this: strings
-- that are UTF-8 stay, the other fields do in any case, and what is read has only such strings. A map
-- is its list of entries, whose order Go does not show and which these functions keep.
pub record MetaEnv : Type 1 where
  pub bolt : Bolt
  pub ulids : Ulids
  pub floats : Floats
  pub box : Box
  pub nonces : Nonces
  pub scope_json : Codec Scope
  pub artifact_json : Codec Artifact
  pub edge_json : Codec Edge
  pub trace_json : Codec (TraceRecord floats.Float)
  pub decoded_scope :
      (s : Scope) → ((scope_json.decoded s).id ≡ s.id) × ((scope_json.decoded s).parent ≡ s.parent)
  pub decoded_artifact :
      (a : Artifact)
      → ((artifact_json.decoded a).id ≡ a.id) × ((artifact_json.decoded a).scope ≡ a.scope)
  pub decoded_utf8_artifact :
      (a : Artifact) → is_utf8_artifact a ≡ true → artifact_json.decoded a ≡ a
  pub decoded_utf8_edge : (e : Edge) → is_utf8_edge e ≡ true → edge_json.decoded e ≡ e
  pub decoded_utf8_trace :
      (t : TraceRecord floats.Float) → is_utf8_trace t ≡ true → trace_json.decoded t ≡ t
  pub unmarshal_artifact :
      (t : Text) (a : Artifact) → artifact_json.unmarshal t ≡ ok a → is_utf8_artifact a ≡ true

-- `encodeValue`, `decodeValue`: with encryption on, a value is bound to its key
unfoldable pub encode_with : Box → Nonces → Text → Text → Result Text
encode_with none n key plain = ok plain
encode_with (some a) n key plain = seal a n plain key

unfoldable pub decode_with : Box → Text → Text → Result Text
decode_with none key blob = ok blob
decode_with (some a) key blob = unseal a blob key

module _ ⦃m : MetaEnv⦄ where
  unfoldable pub encode_value : Text → Text → Result Text
  encode_value key plain = encode_with m.box m.nonces key plain

  unfoldable pub decode_value : Text → Text → Result Text
  decode_value key blob = decode_with m.box key blob

  -- `IsEmpty`
  abbrev no_entries : List (Text × Text) → Bool
  no_entries [] = true
  no_entries (e ∷ es) = false

  unfoldable pub is_empty_store : m.bolt.Db → Bool
  is_empty_store d =
      if no_entries (m.bolt.for_each d scopes)
      then (if no_entries (m.bolt.for_each d artifacts)
          then no_entries (m.bolt.for_each d config)
          else false)
      else false

  -- `plaintextConfigKeys`
  abbrev plaintext_config_key : Text → Bool
  plaintext_config_key key = text_eq key (bytes "enc")

  -- `PutConfig`
  abbrev pub config_blob : Text → Text → Result Text
  config_blob key val = if plaintext_config_key key then ok val else encode_value key val

  unfoldable pub put_config : Text → Text → Exec m.bolt.Db (Unit {0})
  put_config key val = transact (λ d. and_then (config_blob key val) (m.bolt.put d config key))

  abbrev or_none : Result Text → Option Text
  or_none (ok t) = some t
  or_none (err e) = none

  -- `GetConfig`: the copy of an empty value is nil, as if there were none
  abbrev config_read : Text → Option Text → Option Text
  config_read key none = none
  config_read key (some []) = none
  config_read key (some (c ∷ raw)) =
      if plaintext_config_key key then some (c ∷ raw) else or_none (decode_value key (c ∷ raw))

  unfoldable pub get_config : Text → m.bolt.Db → Option Text
  get_config key d = config_read key (m.bolt.get d config key)

module _ ⦃m : MetaEnv⦄ {A : Type 0} where
  -- `putJSON`
  unfoldable pub put_json : Bucket → Codec A → Text → A → m.bolt.Db → Result m.bolt.Db
  unfolding encode_value
  put_json b c key v d =
      and_then (c.marshal v) (λ plain. and_then (encode_value key plain) (m.bolt.put d b key))

  -- decrypt and unmarshal one stored value
  unfoldable pub read_value : Codec A → Text → Text → Result A
  unfolding decode_value
  read_value c key blob = and_then (decode_value key blob) c.unmarshal

  abbrev read_found : Codec A → Text → Option Text → Result A
  read_found c key none = err not_found
  read_found c key (some blob) = read_value c key blob

  -- `getJSON`
  unfoldable pub get_json : Bucket → Codec A → Text → m.bolt.Db → Result A
  unfolding read_value
  get_json b c key d = read_found c key (m.bolt.get d b key)

  -- the callback of `ForEach`: the first value that does not decode ends the scan
  unfoldable pub scan : Codec A → (A → Bool) → List (Text × Text) → Result (List A)
  unfolding read_value
  scan c keep [] = ok []
  scan c keep ((k, v) ∷ es) =
      let rest = scan c keep es in
      and_then (read_value c k v) (λ a. and_then rest (λ xs. ok (if keep a then a ∷ xs else xs)))

module _ ⦃m : MetaEnv⦄ where
  unfoldable pub put_scope : Scope → Exec m.bolt.Db (Unit {0})
  put_scope s = transact (put_json scopes m.scope_json (m.ulids.text s.id) s)

  unfoldable pub get_scope : Ulid → m.bolt.Db → Result Scope
  get_scope id = get_json scopes m.scope_json (m.ulids.text id)

  unfoldable pub list_scopes : m.bolt.Db → Result (List Scope)
  list_scopes d = scan m.scope_json (λ s. true) (m.bolt.for_each d scopes)

  -- `ChildScopes`
  unfoldable pub child_scopes : Ulid → m.bolt.Db → Result (List Scope)
  child_scopes parent d =
      and_then (list_scopes d) (λ all. ok (filter (λ s. s.parent == parent) all))

  unfoldable pub put_artifact : Artifact → Exec m.bolt.Db (Unit {0})
  put_artifact a = transact (put_json artifacts m.artifact_json (m.ulids.text a.id) a)

  unfoldable pub get_artifact : Ulid → m.bolt.Db → Result Artifact
  get_artifact id = get_json artifacts m.artifact_json (m.ulids.text id)

  unfoldable pub artifacts_in_scope : Ulid → m.bolt.Db → Result (List Artifact)
  artifacts_in_scope scope d =
      scan m.artifact_json (λ a. a.scope == scope) (m.bolt.for_each d artifacts)

  unfoldable pub list_artifacts : m.bolt.Db → Result (List Artifact)
  list_artifacts d = scan m.artifact_json (λ a. true) (m.bolt.for_each d artifacts)

  unfoldable pub delete_artifact : Ulid → Exec m.bolt.Db (Unit {0})
  delete_artifact id = transact (λ d. m.bolt.delete d artifacts (m.ulids.text id))

  unfoldable pub delete_scope : Ulid → Exec m.bolt.Db (Unit {0})
  delete_scope id = transact (λ d. m.bolt.delete d scopes (m.ulids.text id))

  unfoldable pub put_trace : TraceRecord m.floats.Float → Exec m.bolt.Db (Unit {0})
  put_trace t = transact (put_json traces m.trace_json (m.ulids.text t.query_id) t)

  unfoldable pub get_trace : Ulid → m.bolt.Db → Result (TraceRecord m.floats.Float)
  get_trace id = get_json traces m.trace_json (m.ulids.text id)

  unfoldable pub list_traces : m.bolt.Db → Result (List (TraceRecord m.floats.Float))
  list_traces d = scan m.trace_json (λ t. true) (m.bolt.for_each d traces)

  -- `edgeKey`
  unfoldable pub edge_key : Edge → Text
  edge_key e = m.ulids.text e.from ++ (bytes "|" ++ (m.ulids.text e.to ++ (bytes "|" ++ e.kind)))

  unfoldable pub put_edge : Edge → Exec m.bolt.Db (Unit {0})
  unfolding edge_key
  put_edge e = transact (put_json edges m.edge_json (edge_key e) e)

  unfoldable pub edges_where : (Edge → Bool) → m.bolt.Db → Result (List Edge)
  edges_where keep d = scan m.edge_json keep (m.bolt.for_each d edges)

  unfoldable pub edges_from : Ulid → m.bolt.Db → Result (List Edge)
  unfolding edges_where
  edges_from id = edges_where (λ e. e.from == id)

  unfoldable pub edges_to : Ulid → m.bolt.Db → Result (List Edge)
  unfolding edges_where
  edges_to id = edges_where (λ e. e.to == id)

  unfoldable pub all_edges : m.bolt.Db → Result (List Edge)
  unfolding edges_where
  all_edges = edges_where (λ e. true)

  abbrev pub touches : Ulid → Edge → Bool
  touches id e = e.from == id || e.to == id

  -- the keys that `DeleteEdgesFor` collects
  unfoldable pub edge_keys_for : Ulid → List (Text × Text) → Result (List Text)
  edge_keys_for id [] = ok []
  edge_keys_for id ((k, v) ∷ es) =
      let rest = edge_keys_for id es in
      and_then (read_value m.edge_json k v)
        (λ e. and_then rest (λ ks. ok (if touches id e then k ∷ ks else ks)))

  unfoldable pub delete_keys : List Text → m.bolt.Db → Result m.bolt.Db
  delete_keys [] d = ok d
  delete_keys (k ∷ ks) d = and_then (m.bolt.delete d edges k) (delete_keys ks)

  -- `DeleteEdgesFor`, one transaction
  unfoldable pub delete_edges_for : Ulid → Exec m.bolt.Db (Unit {0})
  unfolding edge_keys_for delete_keys
  delete_edges_for id =
      transact (λ d. and_then (edge_keys_for id (m.bolt.for_each d edges)) (λ ks. delete_keys ks d))
