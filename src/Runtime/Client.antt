-- ===== src/Runtime/Client.antt =====
-- internal/runtime/client.go: `call`, one call over a connection to the daemon, and `RotateToken`. The
-- connection carries the frames of Runtime/Frames; the daemon at its other end is that of Runtime/Calls.
pub mod Transparent
use ioc.Base.{
  ℕ, suc, Bool, true, false, ◌||◌, List, [], ◌∷◌, Text, Option, none, some, is_empty, Result, ok,
  err, internal, and_then, Exec, pure, ◌>>=◌, ◌>>◌, if◌then◌else◌,
}
use ioc.Search.{Unicode}
use ioc.Storage.Meta.{MetaEnv}
use ioc.Storage.Interfaces.{Blobs, Vectors, Embedder}
use ioc.Engine.Query.{Rankers}
use ioc.Runtime.Frames.{max_data_frame, write_frame, read_frame}
use ioc.Runtime.Json.{Decoder}
use ioc.Runtime.Wire.{Method, Wire, Params, Reply, name_of}
use ioc.Runtime.Calls.{
  Body, absent, json, Surroundings, daemon, parsed, params_body, reply_body, write_body,
}
use ioc.Runtime.Server.{Request, Response, Server, proto_version, handle, serve_conn, to_error}

-- an error of encoding/json or of the connection has no class
abbrev pub unclassed : {A : Type 0} → Result A → Result A
unclassed (ok a) = ok a
unclassed (err e) = err internal

-- the result, unmarshalled into the variable that holds `out`; an empty one leaves it
unfoldable pub read_result : {A : Type 0} → Body A → A → Text → Result A
read_result (absent a) out raw = ok a
read_result (json c) out raw = if is_empty raw then ok out else unclassed (c.unmarshal raw)

unfoldable pub result_of : {A : Type 0} → Body A → A → Response → Result A
unfolding read_result
result_of body out resp = elim resp.error [
  | none ↦ read_result body out resp.result
  | some code ↦ err (to_error code)
]

module _ ⦃m : MetaEnv⦄ ⦃b : Blobs⦄ ⦃v : Vectors⦄ ⦃em : Embedder⦄ ⦃u : Unicode⦄ ⦃w : Wire⦄
    ⦃j : Decoder⦄ (rk : Rankers m.floats.Float) (o : Surroundings) where
  -- `Client`, with the daemon at the other end of its connection and that end's latch
  pub record Link : Type 0 where
    pub tok : Text
    pub id : ℕ
    pub full_authed : Bool
    pub server : Server ⦃k = daemon rk o⦄

  -- the request that `call` sends
  abbrev pub request_of : Link → Text → Text → Request
  request_of l method params = record {
    id = suc l.id;
    v = proto_version;
    method = method;
    token = l.tok;
    params = params;
  }

  -- the frame that comes back, or the end of the connection
  abbrev pub received : List Response → Result Response
  received [] = err internal
  received (resp ∷ resps) = and_then (unclassed (o.response_json.marshal resp)) λ out.
      and_then (read_frame max_data_frame (write_frame out))
        λ frame. unclassed (o.response_json.unmarshal frame.0)

  abbrev pub latched : Option Request → Link → Bool
  latched none l = l.full_authed
  latched (some req) l = l.full_authed || (handle ⦃k = daemon rk o⦄ req l.server).0.1

  -- one frame to the daemon, and the response
  unfoldable pub exchange : Text → Link → Result Response × Link
  unfolding serve_conn read_frame write_frame
  exchange raw l =
      let (resps, s) = serve_conn ⦃k = daemon rk o⦄ (raw ∷ []) l.full_authed l.server in
      (received resps, record l { server = s; full_authed = latched (parsed o raw) l })

  abbrev pub sent : Result Text → Link → Result Response × Link
  sent (err e) l = (err internal, l)
  sent (ok raw) l = exchange raw l

  -- the counter goes up before the request is marshalled
  unfoldable pub round_trip : Text → Text → Link → Result Response × Link
  unfolding exchange
  round_trip method params l =
      sent (o.request_json.marshal (request_of l method params)) (record l { id = suc l.id })

  abbrev pub finish : {A : Type 0} → Body A → A → Result Response × Link → Result A × Link
  finish body out (err e, l) = (err e, l)
  finish body out (ok resp, l) = (result_of body out resp, l)

  abbrev pub with_params : (c : Method) → Reply c → Result Text → Exec Link (Reply c)
  with_params c out (err e) l = (err e, l)
  with_params c out (ok params) l = finish (reply_body c) out (round_trip (name_of c) params l)

  -- `call` on a method of the engine; `out` is what the caller's variable holds
  unfoldable pub client_call : (c : Method) → Params c → Reply c → Exec Link (Reply c)
  unfolding round_trip result_of write_body
  client_call c p out l = with_params c out (write_body (params_body c) p) l
