-- ===== src/Runtime/Calls/Readers.antt =====
-- internal/runtime: what a connection without the full token does to the store behind the daemon.
use ioc.Base.{
  List, [], ◌∷◌, Text, ◌≡◌, refl, sym, ◌∙◌, inl, inr, Bool, Option-cases, subst, ltb, length, ◌||◌,
  Bool-cases, if◌then◌else◌,
}
use ioc.Search.{Unicode}
use ioc.Storage.Meta.{MetaEnv}
use ioc.Storage.Interfaces.{Blobs, Vectors, Embedder}
use ioc.Engine.Query.{Rankers}
use ioc.Engine.Query.Effects.{OnlyTraces, OnlyTraces-refl, OnlyTraces-trans}
use ioc.Runtime.Frames.{max_control_frame, max_data_frame}
use ioc.Runtime.Json.{Decoder}
use ioc.Runtime.Wire.{Wire}
use ioc.Runtime.Methods.{tier_of, tier_read}
use ioc.Runtime.Calls.{Host, Surroundings, host_call, parsed, daemon}
use ioc.Runtime.Calls.Reads.{call-OnlyTraces}
use ioc.Runtime.Server.{Request, Server, handle, serve_conn, is_stop}
use ioc.Runtime.Access.{Untouched, Without, handle-Untouched}

module _ ⦃m : MetaEnv⦄ ⦃b : Blobs⦄ ⦃v : Vectors⦄ ⦃em : Embedder⦄ ⦃u : Unicode⦄ ⦃w : Wire⦄
    ⦃j : Decoder⦄ (rk : Rankers m.floats.Float) (o : Surroundings) where
  -- the tokens are the same, and the engine but for its config and its traces
  pub record ReadOnly (s s' : Server ⦃k = daemon rk o⦄) : Type 0 where
    pub same_tokens : s'.tokens ≡ s.tokens
    pub engine : OnlyTraces s.eng.engine s'.eng.engine

  ReadOnly-refl : (s : Server ⦃k = daemon rk o⦄) → ReadOnly s s
  ReadOnly-refl s = record { same_tokens = refl; engine = OnlyTraces-refl s.eng.engine }

  ReadOnly-trans : (s t x : Server ⦃k = daemon rk o⦄) → ReadOnly s t → ReadOnly t x → ReadOnly s x
  ReadOnly-trans s t x f g = record {
    same_tokens = g.same_tokens ∙ f.same_tokens;
    engine = OnlyTraces-trans s.eng.engine t.eng.engine x.eng.engine f.engine g.engine;
  }

  host_call-OnlyTraces :
      (method params : Text) (h : Host)
      → tier_of method ≡ tier_read
      → OnlyTraces h.engine (host_call rk o method params h).1.engine
  unfolding host_call
  host_call-OnlyTraces method params h =
      call-OnlyTraces rk method params (o.draws.ids h.calls) (o.draws.now h.calls) h.engine

  Untouched-ReadOnly :
      (req : Request) (s s' : Server ⦃k = daemon rk o⦄)
      → Untouched ⦃k = daemon rk o⦄ req s s'
      → ReadOnly s s'
  Untouched-ReadOnly req s s' x = record {
    same_tokens = x.same_tokens;
    engine = elim x.engine [
      | inl same ↦
          subst (λ e. OnlyTraces s.eng.engine e.engine) (sym same) (OnlyTraces-refl s.eng.engine)
      | inr (tier, read, e) ↦
          subst (λ y. OnlyTraces s.eng.engine y.engine) (sym e)
            (host_call-OnlyTraces req.method req.params s.eng tier)
    ];
  }

  -- A connection on which no request carries the full token, whatever its requests and however many,
  -- leaves the tokens, every scope, artifact and edge, every stored content and every vector.
  pub serve_conn-ReadOnly :
      (frames : List Text) (s : Server ⦃k = daemon rk o⦄) (authed : Bool)
      → Without ⦃k = daemon rk o⦄ s.tokens frames
      → ReadOnly s (serve_conn ⦃k = daemon rk o⦄ frames authed s).1
  unfolding serve_conn
  serve_conn-ReadOnly [] s authed h = ReadOnly-refl s
  serve_conn-ReadOnly (raw ∷ frames) s authed (first, h) =
      let large = ltb (if authed then max_data_frame else max_control_frame) (length raw) in
      elim (Bool-cases large) [
        | inl above ↦ rw above (ReadOnly-refl s)
        | inr fits ↦ elim (Option-cases (parsed o raw)) [
          | inl bad ↦ rw (fits, bad) (ReadOnly-refl s)
          | inr (req, p) ↦
              let (closed, x) = handle-Untouched ⦃k = daemon rk o⦄ req s (first req p) in
              let s1 = (handle ⦃k = daemon rk o⦄ req s).1 in
              let now = Untouched-ReadOnly req s s1 x in
              let same = x.same_tokens in
              let later = authed || (handle ⦃k = daemon rk o⦄ req s).0.1 in
              let rest = serve_conn-ReadOnly frames s1 later (rw same h) in
              elim (Bool-cases
                (is_stop ⦃k = daemon rk o⦄ req (handle ⦃k = daemon rk o⦄ req s).0.0)) [
                  | inl stop ↦ rw (fits, p, stop) now
                  | inr on ↦ rw (fits, p, on) (ReadOnly-trans s s1 _ now rest)
                ]
        ]
      ]
