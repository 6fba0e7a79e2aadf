-- ===== src/Examples/Remote.antt =====
-- A client that reads a scope, and a reader's connection, over a small daemon.
use ioc.Base.{
  ℕ, true, false, [], ◌∷◌, Text, bytes, ◌≡◌, refl, ok, err, internal, Result, leb, ◌==◌, ◌+◌,
  text_eq, any, arith, if◌then◌else◌, invalid_input, map,
}
use ioc.Core.Types.{Scope, lookup, role_worktree}
use ioc.Storage.Meta.{
  Codec, get_scope, get_json, read_value, decode_value, decode_with, put_scope, put_artifact,
  put_json, encode_value, encode_with,
}
use ioc.Base.{transact, ok-injective, some-injective, sym, subst, ◌∙◌}
use ioc.Engine.Push.{pushed}
use ioc.Engine.State.{created_scope, look}
use ioc.Engine.Integrity.{IsIntact}
use ioc.Runtime.Json.{Token, opening, closing, atom, Decoder, check_json_depth, depth_loop, decode}
use ioc.Runtime.Json.Depth.{array, nil, cons, nesting, tokens_of, check_json_depth-nesting}
use ioc.Base.{All, is_utf8}
use ioc.Runtime.Wire.{PushParams, RelateParams, Wire, m_get_scope, IdParams, name_of}
use ioc.Runtime.Calls.{
  Json, Surroundings, daemon, run, read_body, write_body, params_body, reply_body,
}
use ioc.Runtime.Calls.Intact.{serve_conn-IsIntact}
use ioc.Runtime.Calls.Readers.{ReadOnly, serve_conn-ReadOnly}
use ioc.Runtime.Server.{
  Request, Response, Server, Code, code_not_found, code_invalid, code_internal, code_auth, is_full,
  reply, serve_conn,
}
use ioc.Runtime.Access.{Without}
use ioc.Runtime.Client.{Link, client_call, read_result, request_of}
use ioc.Runtime.Client.Transparent.{IsCarried, local_call, host_run, client_call-local_call}
use ioc.Examples.Formats.{Format, number, ◌⊗◌, through, many, maybe, codec_of}
use ioc.Examples.Records.{scope}
use ioc.Examples.Libraries.{sample_meta, sample_blobs, sample_vectors, sample_embedder}
use ioc.Examples.Queries.{ascii, no_rankers}
use ioc.Examples.Witnesses.{stored_store, stored_store-IsIntact}

abbrev refused : (A : Type 0) → Result A
refused A = err internal

nothing_written : {A : Type 0} (a : A) {t : Text} → err internal ≡ ok t → refused A ≡ ok a
nothing_written a h = cc

no_push :
    (t : Text) (p : PushParams)
    → refused PushParams ≡ ok p
    → All (λ sp. is_utf8 sp.kind ≡ true) p.req.relations
no_push t p h = cc

no_relate : (t : Text) (p : RelateParams) → refused RelateParams ≡ ok p → is_utf8 p.kind ≡ true
no_relate t p h = cc

-- a type of which this client and this daemon send nothing
abbrev unused : {A : Type 0} → Codec A
unused = record {
  marshal = λ a. err internal;
  unmarshal = λ t. err internal;
  decoded = λ a. a;
  unmarshal-marshal = nothing_written;
}

abbrev id_format : Format IdParams
id_format = through (λ n. record { id = n }) (λ x. x.id) (λ x. refl) number

instance abbrev small_wire : Wire
small_wire = record {
  create_scope_params = unused;
  push_params = unused;
  query_params = unused;
  neighbors_params = unused;
  drill_params = unused;
  id_params = codec_of id_format;
  scope_params = unused;
  fork_params = unused;
  scope_summary_params = unused;
  consolidate_params = unused;
  cross_version_params = unused;
  recent_traces_params = unused;
  config_params = unused;
  set_config_params = unused;
  supersede_params = unused;
  relate_params = unused;
  related_params = unused;
  scope_result = codec_of scope;
  scopes_result = unused;
  artifact_result = unused;
  artifacts_result = unused;
  hit_result = unused;
  hits_result = unused;
  query_result = unused;
  trace_result = unused;
  traces_result = unused;
  config_result = unused;
  emb_model_result = unused;
  unmarshal_push = no_push;
  unmarshal_relate = no_relate;
}

-- brackets, and atoms of one byte
abbrev token_at : ℕ → Token
token_at c = if c == 91 then opening else if c == 93 then closing else atom

instance abbrev byte_tokens : Decoder
byte_tokens = record { tokens = λ raw. (map token_at raw, true) }

abbrev request_format : Format Request
request_format =
    through
      (λ p. record { id = p.0; v = p.1.0; method = p.1.1.0; token = p.1.1.1.0; params = p.1.1.1.1 })
      (λ x. (x.id, (x.v, (x.method, (x.token, x.params))))) (λ x. refl)
      (number ⊗ number ⊗ many number ⊗ many number ⊗ many number)

abbrev code_number : Code → ℕ
code_number code_not_found = 0
code_number code_invalid = 1
code_number code_internal = 2
code_number code_auth = 3

abbrev number_code : ℕ → Code
number_code n =
    if n == 0
    then code_not_found
    else if n == 1
    then code_invalid
    else if n == 2
    then code_internal
    else code_auth

number_code-code_number : (c : Code) → number_code (code_number c) ≡ c
number_code-code_number code_not_found = refl
number_code-code_number code_invalid = refl
number_code-code_number code_internal = refl
number_code-code_number code_auth = refl

abbrev response_format : Format Response
response_format =
    through (λ p. record { id = p.0; result = p.1.0; error = p.1.1 })
      (λ x. (x.id, (x.result, x.error))) (λ x. refl)
      (number
        ⊗ many number
        ⊗ maybe (through number_code code_number number_code-code_number number))

abbrev plain : {A : Type 0} → Codec A → Json A
plain c = record { marshal = c.marshal; unmarshal = c.unmarshal }

abbrev around : Surroundings
around = record {
  draws = record { ids = λ n i. n + i; now = λ n. n };
  new_token = λ n i. ok (n ∷ i ∷ []);
  write_info = λ full. ok tt;
  request_json = plain (codec_of request_format);
  response_json = plain (codec_of response_format);
  token_json = λ full read. full;
  stats_json = λ model n. model;
}

abbrev small_daemon : Server ⦃k = daemon no_rankers around⦄
small_daemon = record {
  eng = record { engine = stored_store; calls = 0 };
  tokens = record { full = bytes "own"; read = bytes "see" };
  published = bytes "own";
  requests = 0;
}

abbrev owner : Link no_rankers around
owner = record { tok = bytes "own"; id = 6; full_authed = false; server = small_daemon }

nested_twice : check_json_depth (bytes "[[]]") 1 ≡ err invalid_input
unfolding check_json_depth depth_loop
nested_twice = refl

bracket_tokens :
    byte_tokens.tokens (bytes "[[]]") ≡ (tokens_of (array (cons (array nil) nil)), true)
unfolding tokens_of
bracket_tokens = refl

check_json_depth-nesting_example :
    check_json_depth (bytes "[[]]") 1
    ≡ (if leb (nesting (array (cons (array nil) nil))) 1 then ok tt else err invalid_input)
check_json_depth-nesting_example =
    check_json_depth-nesting (bytes "[[]]") (array (cons (array nil) nil)) 1 bracket_tokens

abbrev no_scope : Scope
no_scope = created_scope 0 0 [] 0 0

owner_full : is_full owner.server.tokens owner.tok ≡ true
unfolding text_eq
owner_full = refl

abbrev wanted : IdParams
wanted = record { id = 1 }

abbrev node : Scope
node = created_scope 0 role_worktree (bytes "repo") 1 100

ran : (host_run no_rankers around m_get_scope wanted owner.server.eng).0 ≡ ok node
unfolding run look get_scope get_json lookup text_eq read_value decode_value decode_with put_scope
    put_artifact put_json encode_value encode_with transact created_scope pushed
ran = refl

local : (local_call no_rankers around m_get_scope wanted owner.server.eng).0 ≡ ok node
unfolding run look get_scope get_json lookup text_eq read_value decode_value decode_with put_scope
    put_artifact put_json encode_value encode_with transact created_scope name_of any pushed
local = refl

node_read : read_result (reply_body m_get_scope) no_scope (scope.write node []) ≡ ok node
unfolding read_result reply_body created_scope
node_read = refl

carried : IsCarried no_rankers around m_get_scope wanted no_scope owner
unfolding write_body read_body params_body reply_body decode check_json_depth depth_loop name_of
    created_scope
carried = record {
  params = 1 ∷ [];
  params_written = refl;
  params_read = refl;
  request =
      request_format.write (request_of no_rankers around owner (bytes "get_scope") (1 ∷ [])) [];
  request_written = refl;
  request_read = refl;
  request_fits = omega arith;
  results = λ r e.
      let same : node ≡ r = ok-injective (sym ran ∙ e) in
      (scope.write node [], rw (← same) refl, rw (← same) node_read);
  response = response_format.write (reply 7 (ok (scope.write node []))) [];
  response_written = rw local refl;
  response_read = rw local refl;
  response_fits = omega arith;
}

client_call-local_call_example :
    ((client_call no_rankers around m_get_scope wanted no_scope owner).0
      ≡ (local_call no_rankers around m_get_scope wanted owner.server.eng).0)
    × ((client_call no_rankers around m_get_scope wanted no_scope owner).1.server.eng
        ≡ (local_call no_rankers around m_get_scope wanted owner.server.eng).1)
    × ((client_call no_rankers around m_get_scope wanted no_scope owner).1.server.tokens
        ≡ owner.server.tokens)
    × ((client_call no_rankers around m_get_scope wanted no_scope owner).1.tok ≡ owner.tok)
    × ((client_call no_rankers around m_get_scope wanted no_scope owner).1.full_authed ≡ true)
client_call-local_call_example =
    client_call-local_call no_rankers around m_get_scope wanted no_scope owner owner_full carried

abbrev reading : Request
reading = record { id = 1; v = 1; method = bytes "get_scope"; token = bytes "see"; params = 1 ∷ [] }

abbrev reading_frame : Text
reading_frame = request_format.write reading []

not_owner : is_full small_daemon.tokens (bytes "see") ≡ false
unfolding text_eq
not_owner = refl

only_reading : Without ⦃k = daemon no_rankers around⦄ small_daemon.tokens (reading_frame ∷ [])
only_reading = (
  λ req p. subst (λ x. is_full small_daemon.tokens x.token ≡ false) (some-injective p) not_owner,
  tt,
)

serve_conn-ReadOnly_example :
    ReadOnly no_rankers around small_daemon
      (serve_conn ⦃k = daemon no_rankers around⦄ (reading_frame ∷ []) false small_daemon).1
serve_conn-ReadOnly_example =
    serve_conn-ReadOnly no_rankers around (reading_frame ∷ []) small_daemon false only_reading

serve_conn-IsIntact_example :
    IsIntact
      (serve_conn ⦃k = daemon no_rankers around⦄
        (reading_frame ∷ [])
        false
        small_daemon).1.eng.engine.db
serve_conn-IsIntact_example =
    serve_conn-IsIntact no_rankers around (reading_frame ∷ []) false small_daemon
      stored_store-IsIntact
