-- ===== src/Formats/Parse.antt =====
-- internal/iocfmt/parse.go, with `Role.String`, `Tier.String` and `ArtifactKind.String` of
-- internal/core/types.go where they are printed.
use ioc.Base.{
  ℕ, Bool, true, false, List, [], ◌∷◌, Text, bytes, text_eq, Option, none, some, is_empty,
  trim_space, any, ◌==◌, ◌||◌, reverse, Result, ok, err, invalid_input, if◌then◌else◌,
}
use ioc.Core.Types.{
  Ulid, nil_id, role_worktree, role_workspace, role_session, tier_workspace, tier_worktree,
  kind_answer, kind_insight, kind_summary, kind_document, kind_reasoning, kind_seed, detail_raw,
  detail_entry, detail_overview,
}
use ioc.Core.Ulid.{Ulids}
use ioc.Search.{Unicode}
use ioc.Engine.Query.{mode_vector, mode_hybrid}

-- a `switch` over texts: the value of the first case that has the text
abbrev pick {ℓ} : {A : Type ℓ} → Text → A → List (List Text × A) → A
pick t default [] = default
pick t default ((ts, a) ∷ cases) =
    let rest = pick t default cases in if any (λ k. text_eq k t) ts then a else rest

abbrev parsed_id : Option Ulid → Result Ulid
parsed_id none = err invalid_input
parsed_id (some id) = ok id

-- `ParseScopeID`
unfoldable pub parse_scope_id : ⦃ul : Ulids⦄ → Text → Result Ulid
unfolding text_eq
parse_scope_id ⦃ul⦄ s =
    if is_empty s || text_eq s (bytes "root") then ok nil_id else parsed_id (ul.parse s)

-- `ArtifactKind.String`
unfoldable pub kind_text : ℕ → Text
kind_text k =
    if k == kind_answer
    then bytes "answer"
    else if k == kind_insight
    then bytes "insight"
    else if k == kind_summary
    then bytes "summary"
    else if k == kind_document
    then bytes "document"
    else if k == kind_reasoning
    then bytes "reasoning"
    else if k == kind_seed
    then bytes "seed"
    else bytes "unknown"

-- `Tier.String`
unfoldable pub tier_text : ℕ → Text
tier_text t =
    if t == tier_workspace
    then bytes "workspace"
    else if t == tier_worktree
    then bytes "worktree"
    else bytes "unknown"

-- `strings.Split` at a comma
split_commas_from : Text → Text → List Text
split_commas_from acc [] = reverse acc ∷ []
split_commas_from acc (c ∷ s) =
    let cut = split_commas_from [] s in
    let on = split_commas_from (c ∷ acc) s in if c == 44 then reverse acc ∷ cut else on

unfoldable pub split_commas : Text → List Text
unfolding split_commas_from
split_commas s = split_commas_from [] s

module _ ⦃u : Unicode⦄ where
  -- `ParseRole`
  unfoldable pub parse_role : Text → ℕ
  unfolding any text_eq
  parse_role s =
      pick (u.to_lower s) role_session
        ((bytes "worktree" ∷ [], role_worktree) ∷ (bytes "workspace" ∷ [], role_workspace) ∷ [])

  -- `ParseKind`
  unfoldable pub parse_kind : Text → ℕ
  unfolding any text_eq trim_space
  parse_kind s = pick (u.to_lower (trim_space s)) kind_insight (
      (bytes "answer" ∷ [], kind_answer)
      ∷ (bytes "summary" ∷ [], kind_summary)
      ∷ (bytes "document" ∷ bytes "file" ∷ [], kind_document)
      ∷ (bytes "reasoning" ∷ [], kind_reasoning)
      ∷ (bytes "seed" ∷ [], kind_seed)
      ∷ [])

  kinds_from : List Text → List ℕ
  unfolding parse_kind
  kinds_from [] = []
  kinds_from (p ∷ ps) =
      let rest = kinds_from ps in
      if is_empty (trim_space p) then rest else parse_kind (trim_space p) ∷ rest

  -- `ParseKinds`
  unfoldable pub parse_kinds : Text → List ℕ
  unfolding kinds_from split_commas
  parse_kinds s = if is_empty (trim_space s) then [] else kinds_from (split_commas (trim_space s))

  -- `ParseDetail`
  unfoldable pub parse_detail : Text → ℕ
  unfolding any text_eq
  parse_detail s =
      pick (u.to_lower s) detail_overview
        ((bytes "raw" ∷ [], detail_raw) ∷ (bytes "entry" ∷ [], detail_entry) ∷ [])

  -- `ParseTier`
  unfoldable pub parse_tier : Text → ℕ
  unfolding any text_eq
  parse_tier s =
      pick (u.to_lower s) 0
        ((bytes "worktree" ∷ [], tier_worktree) ∷ (bytes "workspace" ∷ [], tier_workspace) ∷ [])

  -- `ParseModeSpec`: the mode, whether it is hierarchical, whether it is collapsed
  unfoldable pub parse_mode_spec : Text → ℕ × (Bool × Bool)
  unfolding any text_eq
  parse_mode_spec s =
      pick (u.to_lower s) (mode_vector, (false, false))
        ((bytes "hybrid" ∷ [], (mode_hybrid, (false, false)))
          ∷ (
            bytes "hierarchical" ∷ bytes "hierarchical-hybrid" ∷ bytes "hybrid-hierarchical" ∷ [],
            (mode_hybrid, (true, false)),
          )
          ∷ (bytes "hierarchical-vector" ∷ [], (mode_vector, (true, false)))
          ∷ (bytes "collapsed" ∷ bytes "collapsed-vector" ∷ [], (mode_vector, (false, true)))
          ∷ (bytes "collapsed-hybrid" ∷ bytes "hybrid-collapsed" ∷ [], (mode_hybrid, (false, true)))
          ∷ [])
