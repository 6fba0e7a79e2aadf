-- ===== src/Examples/Daemon.antt =====
-- The daemon's theorems at a small backend and short frames.
use ioc.Base.{
  some-injective, ap, ℕ, zero, suc, ◌+◌, ◌^◌, ◌<◌, Text, bytes, [], ◌∷◌, ◌++◌, some, ◌≡◌, refl, sym,
  subst, ok, length, text_eq, arith, false,
}
use ioc.Runtime.Frames.{max_control_frame, read_frame, write_frame, read_frame-write_frame}
use ioc.Runtime.Server.{Backend, Request, Server, handle, serve_conn, is_full}
use ioc.Runtime.Access.{Untouched, Without, handle-Untouched, serve_conn-above}

read_frame-write_frame_example :
    read_frame max_control_frame (write_frame (7 ∷ 8 ∷ 9 ∷ []) ++ (1 ∷ []))
    ≡ ok (7 ∷ 8 ∷ 9 ∷ [], 1 ∷ [])
read_frame-write_frame_example =
    read_frame-write_frame max_control_frame (7 ∷ 8 ∷ 9 ∷ []) (1 ∷ []) (omega arith) (omega arith)

-- a request that reads a scope, with the payload for its token
abbrev read_request : Text → Request
read_request raw = record { id = 1; v = 1; method = bytes "get_scope"; token = raw; params = [] }

instance abbrev counter : Backend
counter = record {
  Store = ℕ;
  call = λ method params n. (ok params, suc n);
  sync = λ n. (ok tt, n);
  report = λ n requests. n ∷ requests ∷ [];
  new_token = λ request i. ok (request ∷ i ∷ []);
  write_info = λ full. ok tt;
  parse = λ raw. some (read_request raw);
  token_json = λ full read. full ++ read;
}

abbrev daemon : Server
daemon = record {
  eng = 0;
  tokens = record { full = bytes "owner"; read = bytes "reader" };
  published = bytes "owner";
  requests = 0;
}

not_owner : is_full daemon.tokens (bytes "reader") ≡ false
unfolding text_eq
not_owner = refl

handle-Untouched_example :
    ((handle (read_request (bytes "reader")) daemon).0.1 ≡ false)
    × Untouched
        (read_request (bytes "reader"))
        daemon
        (handle (read_request (bytes "reader")) daemon).1
handle-Untouched_example = handle-Untouched (read_request (bytes "reader")) daemon not_owner

copies : ℕ → Text
copies zero = []
copies (suc n) = 0 ∷ copies n

length-copies : (n : ℕ) → length (copies n) ≡ n
unfolding copies
length-copies zero = refl
length-copies (suc n) = ap suc (length-copies n)

above_cap : max_control_frame < length (copies (2 ^ 20 + 1))
above_cap = subst (λ x. max_control_frame < x) (sym (length-copies (2 ^ 20 + 1))) (omega arith)

reader_only : Without daemon.tokens (bytes "reader" ∷ [])
reader_only =
    (λ req p. subst (λ x. is_full daemon.tokens x.token ≡ false) (some-injective p) not_owner, tt)

serve_conn-above_example :
    serve_conn (bytes "reader" ∷ copies (2 ^ 20 + 1) ∷ []) false daemon
    ≡ serve_conn (bytes "reader" ∷ []) false daemon
serve_conn-above_example =
    serve_conn-above (bytes "reader" ∷ []) (copies (2 ^ 20 + 1)) [] daemon reader_only above_cap
