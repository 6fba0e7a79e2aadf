-- ===== src/Core/Types.antt =====
-- internal/core/types.go and id.go: the domain types. An enumeration over `uint8` is a number with
-- named values, since a client may send any value; an identifier is the 128-bit number of its ULID,
-- 0 for `NilID`; a time is a number of nanoseconds; a Go map is an association list.
use ioc.Base.{
  ℕ, Bool, true, List, [], ◌∷◌, Text, Option, none, some, bytes, text_eq, any, ◌==◌, if◌then◌else◌,
}

-- `core.ID`
abbrev pub Ulid : Type 0
Ulid = ℕ

-- `NilID`
abbrev pub nil_id : Ulid
nil_id = 0

-- `ID.IsZero`
abbrev pub is_zero : Ulid → Bool
is_zero id = id == nil_id

-- `Role`
abbrev pub role_worktree : ℕ
role_worktree = 1

abbrev pub role_workspace : ℕ
role_workspace = 2

abbrev pub role_session : ℕ
role_session = 3

unfoldable pub role_text : ℕ → Text
role_text r =
    if r == role_worktree
    then bytes "worktree"
    else if r == role_workspace
    then bytes "workspace"
    else if r == role_session
    then bytes "session"
    else bytes "unknown"

-- `Tier`; 0 stands for a tier that is not given
abbrev pub tier_workspace : ℕ
tier_workspace = 1

abbrev pub tier_worktree : ℕ
tier_worktree = 2

-- `ArtifactKind`; 0 stands for a kind that is not given
abbrev pub kind_answer : ℕ
kind_answer = 1

abbrev pub kind_insight : ℕ
kind_insight = 2

abbrev pub kind_summary : ℕ
kind_summary = 3

abbrev pub kind_document : ℕ
kind_document = 4

abbrev pub kind_reasoning : ℕ
kind_reasoning = 5

abbrev pub kind_seed : ℕ
kind_seed = 6

-- `Detail`
abbrev pub detail_overview : ℕ
detail_overview = 1

abbrev pub detail_entry : ℕ
detail_entry = 2

abbrev pub detail_raw : ℕ
detail_raw = 3

pub record Scope : Type 0 where
  pub id : Ulid
  pub parent : Ulid
  pub role : ℕ
  pub title : Text
  pub version : ℕ
  pub seed_from : Ulid
  pub archived : Bool
  pub forked_from : Ulid
  pub created_at : ℕ
  pub rollup_summary : Text
  pub rollup_emb_ref : ℕ

-- `content` is the CAS hash, empty for the zero hash
pub record Artifact : Type 0 where
  pub id : Ulid
  pub scope : Ulid
  pub kind : ℕ
  pub tier : ℕ
  pub summary : Text
  pub emb_ref : ℕ
  pub content : Text
  pub derived_from : List Ulid
  pub published : Bool
  pub meta : List (Text × Text)
  pub created_at : ℕ
  pub superseded_by : Ulid

-- `RelationKind` is an open vocabulary: any text
pub record EdgeSpec : Type 0 where
  pub kind : Text
  pub target : Ulid

pub record Edge : Type 0 where
  pub from : Ulid
  pub to : Ulid
  pub kind : Text
  pub created_at : ℕ

-- `EdgeDir`
abbrev pub dir_out : ℕ
dir_out = 0

abbrev pub dir_in : ℕ
dir_in = 1

abbrev pub dir_both : ℕ
dir_both = 2

-- `content` is `none` for nil
pub record PushRequest : Type 0 where
  pub scope : Ulid
  pub kind : ℕ
  pub summary : Text
  pub content : Option Text
  pub derived_from : List Ulid
  pub tier : ℕ
  pub publish : Bool
  pub embed_text : Text
  pub meta : List (Text × Text)
  pub supersedes : List Ulid
  pub trust : Text
  pub relations : List EdgeSpec

abbrev pub trust_ingested : Text
trust_ingested = bytes "ingested"

abbrev pub trust_key : Text
trust_key = bytes "trust"

pub record Seed : Type 0 where
  pub constraints : Text
  pub lessons : Text

-- `Hit`; `F` is the type of float64
pub record Hit (F : Type 0) : Type 0 where
  pub artifact : Ulid
  pub scope : Ulid
  pub scope_path : Text
  pub kind : ℕ
  pub tier : ℕ
  pub summary : Text
  pub score : F
  pub rerank_score : Option F
  pub meta : List (Text × Text)
  pub content : Text
  pub superseded_by : Ulid

-- `TraceRecord`
pub record TraceRecord (F : Type 0) : Type 0 where
  pub query_id : Ulid
  pub scope : Ulid
  pub text : Text
  pub emb_model : Text
  pub visible_set : List Ulid
  pub hits : List (Hit F)
  pub drills : List Ulid
  pub created_at : ℕ

-- `MatchesKinds`: an empty filter lets every kind through
unfoldable pub matches_kinds : List ℕ → ℕ → Bool
unfolding any
matches_kinds [] k = true
matches_kinds (w ∷ ws) k = any (λ want. want == k) (w ∷ ws)

-- reading a Go map
unfoldable pub lookup : Text → List (Text × Text) → Option Text
lookup k [] = none
lookup k ((j, v) ∷ m) = if text_eq j k then some v else lookup k m
