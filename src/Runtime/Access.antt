-- ===== src/Runtime/Access.antt =====
-- internal/runtime: what a client without the full token can do.
use ioc.Base.{
  Bool, true, false, not, ◌&&◌, ◌||◌, List, [], ◌∷◌, ◌++◌, Text, some, text_eq, ltb, length, ◌==◌,
  ◌<◌, ◌≡◌, refl, inl, inr, ◌⊎◌, Bool-cases, Option-cases, All, any, arith,
}
use ioc.Runtime.Frames.{max_control_frame}
use ioc.Runtime.Methods.{
  Tier, tier_read, tier_write, tier_control, tier_of, is_one_of, write_methods, control_methods,
  shutdown, stats, rotate_token, mint_read_token,
}
use ioc.Runtime.Server.{
  Backend, Request, TokenSet, Server, authorized, is_full, is_read, on_engine, invoke, dispatch,
  handle, serve_conn, respond, counted,
}

-- a method that reads is neither a control method nor a write
tier_of_read :
    (method : Text)
    → tier_of method ≡ tier_read
    → (is_one_of control_methods method ≡ false) × (is_one_of write_methods method ≡ false)
unfolding tier_of
tier_of_read method h = elim (Bool-cases (is_one_of control_methods method)) [
  | inl c ↦ cc (rw c at h)
  | inr c ↦ elim (Bool-cases (is_one_of write_methods method)) [
    | inl w ↦ cc (rw (c, w) at h)
    | inr w ↦ (c, w)
  ]
]

authorized_read :
    (t : Tier) (read_ok : Bool)
    → authorized t false read_ok ≡ true
    → (t ≡ tier_read) × (read_ok ≡ true)
unfolding authorized
authorized_read tier_read read_ok h = (refl, h)
authorized_read tier_write read_ok h = cc
authorized_read tier_control read_ok h = cc

or_false : (a b : Bool) → (a || b) ≡ false → (a ≡ false) × (b ≡ false)
or_false a b h = ground arith

-- none of the control methods
pub not_control_text :
    (method : Text)
    → is_one_of control_methods method ≡ false
    → (text_eq method shutdown ≡ false)
      × (text_eq method stats ≡ false)
      × (text_eq method rotate_token ≡ false)
      × (text_eq method mint_read_token ≡ false)
unfolding any
not_control_text method h =
    let (a, h1) = or_false (text_eq method shutdown) _ h in
    let (b, h2) = or_false (text_eq method stats) _ h1 in
    let (c, h3) = or_false (text_eq method rotate_token) _ h2 in
    (a, b, c, (or_false (text_eq method mint_read_token) _ h3).0)

module _ ⦃k : Backend⦄ where
  -- what a server is after a request that came without the full token
  pub record Untouched (req : Request) (s s' : Server) : Type 0 where
    pub same_tokens : s'.tokens ≡ s.tokens
    pub same_published : s'.published ≡ s.published
    pub engine :
        (s'.eng ≡ s.eng)
        ⊎ ((tier_of req.method ≡ tier_read)
            × (is_read s.tokens req.token ≡ true)
            × (s'.eng ≡ (k.call req.method req.params s.eng).1))

  dispatch_read :
      (req : Request) (s : Server)
      → tier_of req.method ≡ tier_read
      → dispatch req s ≡ respond req.id (on_engine (k.call req.method req.params) s)
  unfolding dispatch invoke
  dispatch_read req s h =
      let (c, w) = tier_of_read req.method h in
      let (n1, n2, n3, n4) = not_control_text req.method c in rw (n1, n2, n3, n4, w) refl

  -- A request without the full token reports that it had none, leaves the tokens and the token in
  -- runtime.json as they were, and leaves the engine as it was unless its method is one that reads
  -- and it came with the read token, in which case the engine is what that method leaves.
  pub handle-Untouched :
      (req : Request) (s : Server)
      → is_full s.tokens req.token ≡ false
      → ((handle req s).0.1 ≡ false) × Untouched req s (handle req s).1
  unfolding handle on_engine
  handle-Untouched req s n = elim (Bool-cases (not (req.v == 0) && not (req.v == 1))) [
    | inl old ↦
        rw old (refl, record { same_tokens = refl; same_published = refl; engine = inl refl })
    | inr v ↦
        elim (Bool-cases (
          authorized (tier_of req.method) (is_full s.tokens req.token)
            (is_read s.tokens req.token))) [
              | inr denied ↦
                  rw (v, denied)
                    (n, record { same_tokens = refl; same_published = refl; engine = inl refl })
              | inl granted ↦
                  let (t, r) =
                    authorized_read (tier_of req.method) (is_read s.tokens req.token)
                      (rw n at granted) in
                  rw (v, granted, dispatch_read req (counted s) t)
                    (
                      n,
                      record {
                        same_tokens = refl;
                        same_published = refl;
                        engine = inr (t, r, refl);
                      },
                    )
            ]
  ]

  -- none of the payloads is a request with the full token of the server
  abbrev pub Without : TokenSet → List Text → Type 0
  Without ts = All (λ raw. (req : Request) → k.parse raw ≡ some req → is_full ts req.token ≡ false)

  -- A connection on which no request so far carried the full token ends at a frame above the
  -- control cap: the responses and the server after it are those of the frames before it, whatever
  -- the client sends behind it.
  pub serve_conn-above :
      (frames : List Text) (big : Text) (later : List Text) (s : Server)
      → Without s.tokens frames
      → max_control_frame < length big
      → serve_conn (frames ++ (big ∷ later)) false s ≡ serve_conn frames false s
  unfolding serve_conn
  serve_conn-above [] big later s h above =
      let large : ltb max_control_frame (length big) ≡ true = ground (arith, above) in rw large refl
  serve_conn-above (raw ∷ frames) big later s (first, h) above =
      elim (Bool-cases (ltb max_control_frame (length raw))) [
        | inl large ↦ rw large refl
        | inr fits ↦ elim (Option-cases (k.parse raw)) [
          | inl bad ↦ rw (fits, bad) refl
          | inr (req, p) ↦
              let (closed, u) = handle-Untouched req s (first req p) in
              let same = u.same_tokens in
              let ih = serve_conn-above frames big later (handle req s).1 (rw same h) above in
              rw (fits, p, closed, ih) refl
        ]
      ]
