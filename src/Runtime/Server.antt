-- ===== src/Runtime/Server.antt =====
-- internal/runtime/server.go and dispatch.go: tokens, one request, one connection. The engine behind
-- the method table, the random tokens, runtime.json and encoding/json are a parameter, `Backend`.
use ioc.Base.{
  ℕ, suc, Bool, true, false, not, ◌&&◌, ◌||◌, List, [], ◌∷◌, Text, Option, none, some, text_eq,
  is_empty, ltb, length, ◌==◌, Error, Result, ok, err, not_found, invalid_input, internal, Exec,
  pure, reads, ◌>>=◌, ◌>>◌, if◌then◌else◌,
}
use ioc.Runtime.Frames.{max_control_frame, max_data_frame}
use ioc.Runtime.Methods.{
  Tier, tier_read, tier_write, tier_control, tier_of, is_one_of, write_methods, shutdown, stats,
  rotate_token, mint_read_token,
}

abbrev pub proto_version : ℕ
proto_version = 1

-- `request`
pub record Request : Type 0 where
  pub id : ℕ
  pub v : ℕ
  pub method : Text
  pub token : Text
  pub params : Text

pub record Backend : Type 1 where
  pub Store : Type 0
  -- `call`: one method of the engine, with its parameters and its result in JSON
  pub call : Text → Text → Exec Store Text
  -- `eng.Sync`
  pub sync : Exec Store (Unit {0})
  -- the report of `stats`, at a number of requests
  pub report : Store → ℕ → Text
  -- `newToken`: the i-th token that the n-th request draws
  pub new_token : ℕ → ℕ → Result Text
  -- `writeRuntimeInfo` with a full token
  pub write_info : Text → Result (Unit {0})
  -- a frame's payload as a request
  pub parse : Text → Option Request
  -- a token in a result
  pub token_json : Text → Text → Text

-- the codes of a `wireError`
pub data Code : Type 0 where
  code_not_found code_invalid code_internal code_auth : Code

-- `response`
pub record Response : Type 0 where
  pub id : ℕ
  pub result : Text
  pub error : Option Code

-- `tokenSet`
pub record TokenSet : Type 0 where
  pub full : Text
  pub read : Text

-- `errToWire`
unfoldable pub err_to_wire : Error → Code
err_to_wire not_found = code_not_found
err_to_wire invalid_input = code_invalid
err_to_wire internal = code_internal

-- `toError`: the class that a client sees
unfoldable pub to_error : Code → Error
to_error code_not_found = not_found
to_error code_invalid = invalid_input
to_error code_internal = internal
to_error code_auth = internal

abbrev pub failed : ℕ → Code → Response
failed id code = record { id = id; result = []; error = some code }

abbrev pub reply : ℕ → Result Text → Response
reply id (ok raw) = record { id = id; result = raw; error = none }
reply id (err e) = failed id (err_to_wire e)

-- the rule of the tiers
unfoldable pub authorized : Tier → Bool → Bool → Bool
authorized tier_control full read_ok = full
authorized tier_write full read_ok = full
authorized tier_read full read_ok = full || read_ok

-- the two compares of a request's token
abbrev pub is_full : TokenSet → Text → Bool
is_full ts token = text_eq token ts.full

abbrev pub is_read : TokenSet → Text → Bool
is_read ts token = not (is_empty ts.read) && text_eq token ts.read

module _ ⦃k : Backend⦄ where
  -- `Server`; `published` is the full token that runtime.json holds
  pub record Server : Type 0 where
    pub eng : k.Store
    pub tokens : TokenSet
    pub published : Text
    pub requests : ℕ

  abbrev published_with : Text → Result (Unit {0}) → Exec Server (Unit {0})
  published_with full (ok u) s = (ok tt, record s { published = full })
  published_with full (err e) s = (err e, s)

  -- `publishInfo`
  unfoldable pub publish_info : Text → Exec Server (Unit {0})
  publish_info full = published_with full (k.write_info full)

  abbrev set_tokens : TokenSet → Exec Server (Unit {0})
  set_tokens ts s = (ok tt, record s { tokens = ts })

  -- `rotateTokens`: the tokens are in force before runtime.json is written
  unfoldable pub rotate_tokens : Exec Server TokenSet
  unfolding publish_info
  rotate_tokens = do
    full ← reads (λ s. k.new_token s.requests 0)
    read ← reads (λ s. if is_empty s.tokens.read then ok [] else k.new_token s.requests 1)
    set_tokens (record { full = full; read = read })
    publish_info full
    pure (record { full = full; read = read })

  -- `mintReadToken`
  unfoldable pub mint_token : Exec Server Text
  mint_token = do
    full ← reads (λ s. ok s.tokens.full)
    read ← reads (λ s. k.new_token s.requests 0)
    set_tokens (record { full = full; read = read })
    pure read

  module _ {A : Type 0} where
    unfoldable pub on_engine : Exec k.Store A → Exec Server A
    on_engine f s = let (r, e) = f s.eng in (r, record s { eng = e })

  -- `invoke`: a write is flushed
  unfoldable pub invoke : Text → Text → Exec Server Text
  unfolding on_engine
  invoke method params =
      if is_one_of write_methods method
      then (do raw ← on_engine (k.call method params); on_engine k.sync; pure raw)
      else on_engine (k.call method params)

  abbrev pub respond : ℕ → Result Text × Server → Response × Server
  respond id (r, s) = (reply id r, s)

  -- the switch of `handle`, for a request that may run
  unfoldable pub dispatch : Request → Server → Response × Server
  unfolding rotate_tokens mint_token invoke
  dispatch req s =
      if text_eq req.method shutdown
      then (reply req.id (ok []), s)
      else if text_eq req.method stats
      then (reply req.id (ok (k.report s.eng s.requests)), s)
      else if text_eq req.method rotate_token
      then respond req.id ((rotate_tokens >>= λ ts. pure (k.token_json ts.full ts.read)) s)
      else if text_eq req.method mint_read_token
      then respond req.id ((mint_token >>= λ read. pure (k.token_json [] read)) s)
      else respond req.id (invoke req.method req.params s)

  abbrev pub counted : Server → Server
  counted s = record s { requests = suc s.requests }

  abbrev pub with_flag : Bool → Response × Server → (Response × Bool) × Server
  with_flag full (resp, s) = ((resp, full), s)

  -- `handle`: the response, whether the full token came with the request, and the server after it
  unfoldable pub handle : Request → Server → (Response × Bool) × Server
  unfolding authorized dispatch
  handle req s =
      if not (req.v == 0) && not (req.v == proto_version)
      then ((failed req.id code_invalid, false), counted s)
      else if authorized (tier_of req.method) (is_full s.tokens req.token)
          (is_read s.tokens req.token)
      then with_flag (is_full s.tokens req.token) (dispatch req (counted s))
      else ((failed req.id code_auth, is_full s.tokens req.token), counted s)

  abbrev pub is_stop : Request → Response → Bool
  is_stop req resp = text_eq req.method shutdown && elim resp.error [ none ↦ true | some c ↦ false ]

  -- `serveConn` on the payloads that a client sends: the responses, and the server after the
  -- connection; `full_authed` is the latch of the frame cap
  unfoldable pub serve_conn : List Text → Bool → Server → List Response × Server
  unfolding handle
  serve_conn [] full_authed s = ([], s)
  serve_conn (raw ∷ frames) full_authed s =
      if ltb (if full_authed then max_data_frame else max_control_frame) (length raw)
      then ([], s)
      else elim (k.parse raw) [
        | none ↦ ([], s)
        | some req ↦
            let ((resp, full), s1) = handle req s in
            let (resps, s2) = serve_conn frames (full_authed || full) s1 in
            if is_stop req resp then (resp ∷ [], s1) else (resp ∷ resps, s2)
      ]
