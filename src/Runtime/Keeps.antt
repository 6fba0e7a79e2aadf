-- ===== src/Runtime/Keeps.antt =====
-- internal/runtime: what the engine's methods and its Sync keep of the engine, a connection keeps.
use ioc.Base.{
  Bool, not, ◌&&◌, ◌||◌, List, [], ◌∷◌, Text, text_eq, length, ltb, ◌==◌, pure, reads, ◌>>=◌,
  bind_keeps, ◌≡◌, sym, subst, inl, inr, Bool-cases, Option-cases, arith, if◌then◌else◌,
}
use ioc.Runtime.Frames.{max_control_frame, max_data_frame}
use ioc.Runtime.Methods.{
  tier_of, is_one_of, write_methods, shutdown, stats, rotate_token, mint_read_token,
}
use ioc.Runtime.Server.{
  Backend, Request, Server, authorized, is_full, is_read, on_engine, invoke, dispatch, handle,
  serve_conn, counted, rotate_tokens, mint_token, publish_info, is_stop,
}

module _ ⦃k : Backend⦄ where
  -- the engine of a server is as it was
  abbrev SameEngine : Server → Server → Type 0
  SameEngine s s' = s'.eng ≡ s.eng

  rotate_tokens-SameEngine : (s : Server) → SameEngine s (rotate_tokens s).1
  unfolding rotate_tokens publish_info reads pure ◌>>=◌
  rotate_tokens-SameEngine s = ground arith

  mint_token-SameEngine : (s : Server) → SameEngine s (mint_token s).1
  unfolding mint_token reads pure ◌>>=◌
  mint_token-SameEngine s = ground arith

  module _ (P : k.Store → Type 0)
      (called : (method params : Text) (e : k.Store) → P e → P (k.call method params e).1)
      (synced : (e : k.Store) → P e → P (k.sync e).1) where
    abbrev Holds : Server → Type 0
    Holds s = P s.eng

    invoke_keeps : (method params : Text) (s : Server) → P s.eng → P (invoke method params s).1.eng
    unfolding invoke on_engine pure
    invoke_keeps method params s h = elim (Bool-cases (is_one_of write_methods method)) [
      | inr n ↦ rw (invoke, n) (called method params s.eng h)
      | inl w ↦
          let after = called method params s.eng h in
          rw (invoke, w)
            (bind_keeps Holds (on_engine (k.call method params)) _ s after λ raw e.
              bind_keeps Holds (on_engine k.sync) (λ u. pure raw) _
                (synced (k.call method params s.eng).1 after)
                λ u f. synced (k.call method params s.eng).1 after)
    ]

    same_keeps : (s s' : Server) → SameEngine s s' → P s.eng → P s'.eng
    same_keeps s s' e h = subst P (sym e) h

    dispatch_keeps : (req : Request) (s : Server) → P s.eng → P (dispatch req s).1.eng
    unfolding dispatch pure ◌>>=◌
    dispatch_keeps req s h = elim (Bool-cases (text_eq req.method shutdown)) [
      | inl e ↦ rw (dispatch, e) h
      | inr n1 ↦ elim (Bool-cases (text_eq req.method stats)) [
        | inl e ↦ rw (dispatch, n1, e) h
        | inr n2 ↦ elim (Bool-cases (text_eq req.method rotate_token)) [
          | inl e ↦
              rw (dispatch, n1, n2, e)
                (bind_keeps Holds rotate_tokens _ s
                  (same_keeps s (rotate_tokens s).1 (rotate_tokens-SameEngine s) h)
                  λ ts f. same_keeps s (rotate_tokens s).1 (rotate_tokens-SameEngine s) h)
          | inr n3 ↦ elim (Bool-cases (text_eq req.method mint_read_token)) [
            | inl e ↦
                rw (dispatch, n1, n2, n3, e)
                  (bind_keeps Holds mint_token _ s
                    (same_keeps s (mint_token s).1 (mint_token-SameEngine s) h)
                    λ read f. same_keeps s (mint_token s).1 (mint_token-SameEngine s) h)
            | inr n4 ↦ rw (dispatch, n1, n2, n3, n4) (invoke_keeps req.method req.params s h)
          ]
        ]
      ]
    ]

    handle_keeps : (req : Request) (s : Server) → P s.eng → P (handle req s).1.eng
    unfolding handle
    handle_keeps req s h = elim (Bool-cases (not (req.v == 0) && not (req.v == 1))) [
      | inl old ↦ rw (handle, old) h
      | inr v ↦
          let granted =
            authorized (tier_of req.method) (is_full s.tokens req.token)
              (is_read s.tokens req.token) in
          elim (Bool-cases granted) [
            | inr refused ↦ rw (handle, v, refused) h
            | inl allowed ↦ rw (handle, v, allowed) (dispatch_keeps req (counted s) h)
          ]
    ]

    -- Whatever the method and whatever the client, a connection keeps what the engine's methods and
    -- its Sync keep.
    pub serve_conn_keeps :
        (frames : List Text) (authed : Bool) (s : Server)
        → P s.eng
        → P (serve_conn frames authed s).1.eng
    unfolding serve_conn
    serve_conn_keeps [] authed s h = h
    serve_conn_keeps (raw ∷ frames) authed s h =
        let large = ltb (if authed then max_data_frame else max_control_frame) (length raw) in
        elim (Bool-cases large) [
          | inl above ↦ rw above h
          | inr fits ↦ elim (Option-cases (k.parse raw)) [
            | inl bad ↦ rw (fits, bad) h
            | inr (req, p) ↦
                let next = handle_keeps req s h in
                let rest =
                  serve_conn_keeps frames (authed || (handle req s).0.1) (handle req s).1 next in
                elim (Bool-cases (is_stop req (handle req s).0.0)) [
                  | inl stop ↦ rw (fits, p, stop) next
                  | inr on ↦ rw (fits, p, on) rest
                ]
          ]
        ]
