-- ===== src/Runtime/Client/Transparent.antt =====
-- internal/runtime: a call through the client and the daemon is the call of the engine.
use ioc.Base.{
  ℕ, suc, ◌≤◌, ◌<◌, ◌^◌, Bool, true, false, [], ◌∷◌, Text, text_eq, length, ltb, some, Result, ok,
  Error, not_found, invalid_input, internal, and_then, Exec, pure, reads, ◌>>=◌, ◌>>◌, >>=-eq-ok,
  if◌then◌else◌, ◌≡◌, refl, sym, ap, ◌∙◌, inl, inr, Bool-cases, Result-cases, any, arith,
  append-nil,
}
use ioc.Search.{Unicode}
use ioc.Storage.Meta.{MetaEnv}
use ioc.Storage.Interfaces.{Blobs, Vectors, Embedder}
use ioc.Engine.Query.{Rankers}
use ioc.Runtime.Frames.{max_control_frame, max_data_frame, write_frame, read_frame-write_frame}
use ioc.Runtime.Json.{Decoder}
use ioc.Runtime.Methods.{
  Tier, tier_read, tier_write, tier_control, tier_of, is_one_of, write_methods, control_methods,
  shutdown,
}
use ioc.Runtime.Wire.{Method, Wire, Params, Reply, name_of, case_of, all_methods, m_create_scope}
use ioc.Runtime.Calls.{
  Surroundings, Host, daemon, params_body, reply_body, write_body, read_body, run, call, call_as,
  host_call, host_sync,
}
use ioc.Runtime.Server.{
  Request, Response, Server, proto_version, handle, serve_conn, dispatch, invoke, on_engine, reply,
  counted, is_full, is_read, authorized, err_to_wire, to_error,
}
use ioc.Runtime.Access.{not_control_text}
use ioc.Runtime.Client.{
  Link, client_call, round_trip, exchange, received, read_result, result_of, request_of,
}

-- the class of an error survives the wire
to_error-err_to_wire : (e : Error) → to_error (err_to_wire e) ≡ e
unfolding to_error err_to_wire
to_error-err_to_wire not_found = refl
to_error-err_to_wire invalid_input = refl
to_error-err_to_wire internal = refl

-- each name leads to its own case, and none of them is that of a control method
case_of-name_of : (c : Method) → case_of all_methods (name_of c) ≡ some c
unfolding case_of name_of text_eq
case_of-name_of m_create_scope = refl
case_of-name_of c = refl

not_control : (c : Method) → is_one_of control_methods (name_of c) ≡ false
unfolding name_of text_eq any
not_control m_create_scope = refl
not_control c = refl

authorized_full : (t : Tier) (read_ok : Bool) → authorized t true read_ok ≡ true
unfolding authorized
authorized_full tier_read read_ok = refl
authorized_full tier_write read_ok = refl
authorized_full tier_control read_ok = refl

module _ {S A B : Type 0} where
  bind_reads :
      (k : Exec S A) (f : A → Result B) (s : S)
      → (k >>= (λ r. reads (λ x. f r))) s ≡ (and_then (k s).0 f, (k s).1)
  unfolding ◌>>=◌ reads
  bind_reads k f s = elim (Result-cases (k s).0) [
    | inl (a, e) ↦ rw (e, ◌>>=◌) refl
    | inr (x, e) ↦ rw (e, ◌>>=◌) refl
  ]

  -- a step that succeeds is dropped
  reads_then :
      (r : Result A) (a : A) (k : A → Exec S B) (s : S)
      → r ≡ ok a
      → (reads (λ x. r) >>= k) s ≡ k a s
  unfolding ◌>>=◌ reads
  reads_then r a k s e = rw e refl

module _ ⦃m : MetaEnv⦄ ⦃b : Blobs⦄ ⦃v : Vectors⦄ ⦃em : Embedder⦄ ⦃u : Unicode⦄ ⦃w : Wire⦄
    ⦃j : Decoder⦄ (rk : Rankers m.floats.Float) (o : Surroundings) where
  -- the engine's call on the host: with the identifiers and the time of its turn
  abbrev pub host_run : (c : Method) → Params c → Exec Host (Reply c)
  host_run c p h =
      let (r, s) = run rk c p (o.draws.ids h.calls) (o.draws.now h.calls) h.engine in
      (r, record { engine = s; calls = suc h.calls })

  -- the engine's call, and behind one that writes and succeeds its Sync
  abbrev pub local_call : (c : Method) → Params c → Exec Host (Reply c)
  local_call c p h =
      if is_one_of write_methods (name_of c)
      then (do r ← host_run c p; host_sync rk o; pure r) h
      else host_run c p h

  host_call-host_run :
      (c : Method) (p : Params c) (params : Text) (h : Host)
      → read_body (params_body c) params ≡ ok p
      → host_call rk o (name_of c) params h
        ≡ (and_then (host_run c p h).0 (write_body (reply_body c)), (host_run c p h).1)
  unfolding host_call call call_as
  host_call-host_run c p params h e =
      let ids = o.draws.ids h.calls in
      let now = o.draws.now h.calls in
      rw
        (
          host_call,
          call,
          case_of-name_of c,
          call_as,
          reads_then (read_body (params_body c) params) p
              (λ q. run rk c q ids now >>= (λ r. reads (λ x. write_body (reply_body c) r))) h.engine
              e,
          bind_reads (run rk c p ids now) (write_body (reply_body c)) h.engine,
        )
        refl

  -- what the engine answers has JSON
  abbrev pub Written : (c : Method) → Params c → Host → Type 0
  Written c p h =
      (r : Reply c)
      → (host_run c p h).0 ≡ ok r
      → (raw : Text) × (write_body (reply_body c) r ≡ ok raw)

  invoke-local_call :
      (c : Method) (p : Params c) (params : Text) (s : Server ⦃k = daemon rk o⦄)
      → read_body (params_body c) params ≡ ok p
      → Written c p s.eng
      → invoke ⦃k = daemon rk o⦄ (name_of c) params s ≡ (
        and_then (local_call c p s.eng).0 (write_body (reply_body c)),
        record s { eng = (local_call c p s.eng).1 },
      )
  unfolding invoke on_engine ◌>>=◌ pure
  invoke-local_call c p params s e written =
      elim (Bool-cases (is_one_of write_methods (name_of c))) [
        | inr n ↦ rw (invoke, n, host_call-host_run c p params s.eng e) refl
        | inl w ↦ elim (Result-cases (host_run c p s.eng).0) [
          | inr (x, f) ↦ rw (invoke, w, host_call-host_run c p params s.eng e, f, ◌>>=◌) refl
          | inl (r, f) ↦
              let (raw, g) = written r f in
              elim (Result-cases (host_sync rk o (host_run c p s.eng).1).0) [
                | inl (done, q) ↦
                    rw (invoke, w, host_call-host_run c p params s.eng e, f, ◌>>=◌, g, q, g) refl
                | inr (x, q) ↦
                    rw (invoke, w, host_call-host_run c p params s.eng e, f, ◌>>=◌, g, q) refl
              ]
        ]
      ]

  dispatch-local_call :
      (c : Method) (p : Params c) (req : Request) (s : Server ⦃k = daemon rk o⦄)
      → req.method ≡ name_of c
      → read_body (params_body c) req.params ≡ ok p
      → Written c p s.eng
      → dispatch ⦃k = daemon rk o⦄ req s ≡ (
        reply req.id (and_then (local_call c p s.eng).0 (write_body (reply_body c))),
        record s { eng = (local_call c p s.eng).1 },
      )
  unfolding dispatch
  dispatch-local_call c p req s same e written =
      let (n1, n2, n3, n4) = not_control_text (name_of c) (not_control c) in
      rw (dispatch, same, n1, n2, n3, n4, invoke-local_call c p req.params s e written) refl

  handle-local_call :
      (c : Method) (p : Params c) (req : Request) (s : Server ⦃k = daemon rk o⦄)
      → req.v ≡ proto_version
      → is_full s.tokens req.token ≡ true
      → req.method ≡ name_of c
      → read_body (params_body c) req.params ≡ ok p
      → Written c p s.eng
      → handle ⦃k = daemon rk o⦄ req s ≡ (
        (reply req.id (and_then (local_call c p s.eng).0 (write_body (reply_body c))), true),
        record (counted ⦃k = daemon rk o⦄ s) { eng = (local_call c p s.eng).1 },
      )
  unfolding handle
  handle-local_call c p req s version full same e written =
      let granted : authorized (tier_of req.method) true (is_read s.tokens req.token) ≡ true =
        authorized_full (tier_of req.method) (is_read s.tokens req.token) in
      rw
        (
          handle,
          version,
          full,
          granted,
          dispatch-local_call c p req (counted ⦃k = daemon rk o⦄ s) same e written,
        )
        refl

  local_call-ok :
      (c : Method) (p : Params c) (h : Host) (r : Reply c)
      → (local_call c p h).0 ≡ ok r
      → (host_run c p h).0 ≡ ok r
  unfolding pure
  local_call-ok c p h r e = elim (Bool-cases (is_one_of write_methods (name_of c))) [
    | inr n ↦ rw n at e
    | inl w ↦
        let (x, f, g) = >>=-eq-ok (host_run c p) _ h (rw w at e) in
        let (y, f2, g2) =
          >>=-eq-ok (host_sync rk o) _ (host_run c p h).1 (ap (λ q. q.0) (sym g) ∙ rw w at e) in
        f ∙ ap (λ q. q.0) (sym g2) ∙ ap (λ q. q.0) (sym g) ∙ rw w at e
  ]

  -- Each text of the call is written, fits its frame, and reads back: the parameters, the request,
  -- the result that the engine gives, and the response.
  pub record IsCarried (c : Method) (p : Params c) (out : Reply c) (l : Link rk o) : Type 0 where
    pub params : Text
    pub params_written : write_body (params_body c) p ≡ ok params
    pub params_read : read_body (params_body c) params ≡ ok p
    pub request : Text
    pub request_written : o.request_json.marshal (request_of rk o l (name_of c) params) ≡ ok request
    pub request_read : o.request_json.unmarshal request ≡ ok (request_of rk o l (name_of c) params)
    pub request_fits :
        length request ≤ (if l.full_authed then max_data_frame else max_control_frame)
    pub results :
        (r : Reply c)
        → (host_run c p l.server.eng).0 ≡ ok r
        → (raw : Text) × (write_body (reply_body c) r ≡ ok raw)
          × (read_result (reply_body c) out raw ≡ ok r)
    pub response : Text
    pub response_written :
        o.response_json.marshal
          (reply (suc l.id) (and_then (local_call c p l.server.eng).0 (write_body (reply_body c))))
        ≡ ok response
    pub response_read :
        o.response_json.unmarshal response
        ≡ ok (
            reply (suc l.id) (and_then (local_call c p l.server.eng).0 (write_body (reply_body c))))
    pub response_fits : length response ≤ max_data_frame

  -- the connection after a call
  abbrev after : (c : Method) → Params c → Link rk o → Link rk o
  after c p l = record l {
    id = suc l.id;
    full_authed = true;
    server = record (counted ⦃k = daemon rk o⦄ l.server) { eng = (local_call c p l.server.eng).1 };
  }

  serve_one :
      (raw : Text) (req : Request) (authed : Bool) (s s1 : Server ⦃k = daemon rk o⦄)
      (resp : Response)
      → length raw ≤ (if authed then max_data_frame else max_control_frame)
      → o.request_json.unmarshal raw ≡ ok req
      → handle ⦃k = daemon rk o⦄ req s ≡ ((resp, true), s1)
      → text_eq req.method shutdown ≡ false
      → serve_conn ⦃k = daemon rk o⦄ (raw ∷ []) authed s ≡ (resp ∷ [], s1)
  unfolding serve_conn
  serve_one raw req authed s s1 resp fits parse step n =
      let small : ltb (if authed then max_data_frame else max_control_frame) (length raw) ≡ false =
        ground (arith, fits) in
      rw (serve_conn, small, parse, step, n) refl

  received-reply :
      (resp : Response) (text : Text)
      → o.response_json.marshal resp ≡ ok text
      → o.response_json.unmarshal text ≡ ok resp
      → length text ≤ max_data_frame
      → received rk o (resp ∷ []) ≡ ok resp
  received-reply resp text written read fits =
      let short : length text < 2 ^ 32 = omega (arith, fits) in
      let framed = read_frame-write_frame max_data_frame text [] fits short in
      rw (written, rw (append-nil (write_frame text)) at framed, read) refl

  exchange-reply :
      (c : Method) (p : Params c) (out : Reply c) (l : Link rk o)
      → is_full l.server.tokens l.tok ≡ true
      → (h : IsCarried c p out l)
      → exchange rk o h.request (record l { id = suc l.id }) ≡ (
        ok (
            reply
              (suc l.id)
              (and_then (local_call c p l.server.eng).0 (write_body (reply_body c)))),
        after c p l,
      )
  unfolding exchange
  exchange-reply c p out l full h =
      let req = request_of rk o l (name_of c) h.params in
      let written : Written c p l.server.eng = λ r e. let (raw, f, g) = h.results r e in (raw, f) in
      let step = handle-local_call c p req l.server refl full refl h.params_read written in
      let n = (not_control_text (name_of c) (not_control c)).0 in
      let served =
        serve_one h.request req l.full_authed l.server _ _ h.request_fits h.request_read step n in
      rw
        (
          exchange,
          served,
          h.request_read,
          step,
          received-reply _ h.response h.response_written h.response_read h.response_fits,
        )
        (ground arith)

  result_of-local_call :
      (c : Method) (p : Params c) (out : Reply c) (id : ℕ) (h : Host)
      → ((r : Reply c)
          → (host_run c p h).0 ≡ ok r
          → (raw : Text) × (write_body (reply_body c) r ≡ ok raw)
            × (read_result (reply_body c) out raw ≡ ok r))
      → result_of
          (reply_body c)
          out
          (reply id (and_then (local_call c p h).0 (write_body (reply_body c))))
        ≡ (local_call c p h).0
  unfolding result_of
  result_of-local_call c p out id h results = elim (Result-cases (local_call c p h).0) [
    | inl (r, e) ↦ let (raw, f, g) = results r (local_call-ok c p h r e) in rw (e, f, g) refl
    | inr (x, e) ↦ rw (e, to_error-err_to_wire x) refl
  ]

  -- A call through the client and the daemon, over a connection that carries each of its texts and
  -- with the owner's token, is the call of the engine, followed by its Sync where the method writes:
  -- it returns the same result or an error of the same class, leaves the engine in the same state,
  -- and leaves the connection with its token and with the cap of an owner's frames.
  pub client_call-local_call :
      (c : Method) (p : Params c) (out : Reply c) (l : Link rk o)
      → is_full l.server.tokens l.tok ≡ true
      → IsCarried c p out l
      → ((client_call rk o c p out l).0 ≡ (local_call c p l.server.eng).0)
        × ((client_call rk o c p out l).1.server.eng ≡ (local_call c p l.server.eng).1)
        × ((client_call rk o c p out l).1.server.tokens ≡ l.server.tokens)
        × ((client_call rk o c p out l).1.tok ≡ l.tok)
        × ((client_call rk o c p out l).1.full_authed ≡ true)
  unfolding client_call round_trip
  client_call-local_call c p out l full h =
      let same = exchange-reply c p out l full h in
      rw (client_call, h.params_written, round_trip, h.request_written, same)
        (result_of-local_call c p out (suc l.id) l.server.eng h.results, refl, refl, refl, refl)
