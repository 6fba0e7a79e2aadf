-- ===== src/Runtime/Json.antt =====
-- internal/runtime/dispatch.go: the nesting of a request's parameters, and their decoding. The token
-- stream of a json.Decoder is a parameter.
pub mod Depth
use ioc.Base.{
  ℕ, zero, suc, ◌-◌, Bool, true, false, List, [], ◌∷◌, Text, ltb, Result, ok, err, and_then,
  invalid_input, if◌then◌else◌,
}

-- `json.Token`: an opening delimiter, a closing one, or anything else
pub data Token : Type 0 where
  opening closing atom : Token

-- The tokens that a decoder yields before it stops, and whether it stops at the end of the text.
pub record Decoder : Type 0 where
  pub tokens : Text → List Token × Bool

-- the loop of `checkJSONDepth`; a decoder yields no closing delimiter that was not opened
unfoldable pub depth_loop : ℕ → ℕ → List Token → Bool → Result (Unit {0})
depth_loop max depth [] true = ok tt
depth_loop max depth [] false = err invalid_input
depth_loop max depth (opening ∷ ts) eof =
    let rest = depth_loop max (suc depth) ts eof in
    if ltb max (suc depth) then err invalid_input else rest
depth_loop max depth (closing ∷ ts) eof = depth_loop max (depth - 1) ts eof
depth_loop max depth (atom ∷ ts) eof = depth_loop max depth ts eof

abbrev pub max_json_depth : ℕ
max_json_depth = 64

module _ ⦃j : Decoder⦄ where
  -- `checkJSONDepth`
  unfoldable pub check_json_depth : Text → ℕ → Result (Unit {0})
  unfolding depth_loop
  check_json_depth raw max = let (ts, eof) = j.tokens raw in depth_loop max 0 ts eof

  abbrev pub bad_params : {A : Type 0} → Result A → Result A
  bad_params (ok a) = ok a
  bad_params (err e) = err invalid_input

  -- `decode`, given how the text is unmarshalled
  unfoldable pub decode : {A : Type 0} → (Text → Result A) → Text → Result A
  unfolding check_json_depth
  decode unmarshal params =
      and_then (check_json_depth params max_json_depth) (λ _. bad_params (unmarshal params))
