-- ===== src/Ingest/Lang.antt =====
-- internal/ingest/lang.go: the starts of the semantic units; chunk.go's SplitLang over them.
use ioc.Base.{
  ℕ, zero, suc, Bool, true, false, not, ◌&&◌, List, [], ◌∷◌, Text, Option, none, some, bytes,
  is_empty, ltb, ◌==◌, any, get_elem?, split_lines, trim_space, if◌then◌else◌,
}
use ioc.Ingest.Chunk.{Chunk, max_of, overlap_of, pack_units}

-- `Language`
pub data Language : Type 0 where
  generic go python markdown jsts : Language

-- `strings.HasPrefix`
unfoldable pub has_prefix : Text → Text → Bool
has_prefix [] s = true
has_prefix (p ∷ ps) [] = false
has_prefix (p ∷ ps) (c ∷ s) = (p == c) && has_prefix ps s

-- `hasAnyPrefix`
unfoldable pub has_any_prefix : Text → List Text → Bool
unfolding any has_prefix
has_any_prefix s prefixes = any (λ p. has_prefix p s) prefixes

abbrev unit_prefixes : Language → List Text
unit_prefixes generic = []
unit_prefixes go =
    bytes "func "
    ∷ bytes "func("
    ∷ bytes "type "
    ∷ bytes "var "
    ∷ bytes "const "
    ∷ bytes "import ("
    ∷ bytes "import \""
    ∷ []
unit_prefixes python = bytes "def " ∷ bytes "class " ∷ bytes "async def " ∷ []
unit_prefixes markdown = bytes "#" ∷ []
unit_prefixes jsts =
    bytes "function "
    ∷ bytes "class "
    ∷ bytes "export "
    ∷ bytes "const "
    ∷ bytes "let "
    ∷ bytes "async "
    ∷ bytes "interface "
    ∷ bytes "type "
    ∷ bytes "enum "
    ∷ bytes "abstract "
    ∷ []

-- `isUnitStart`
unfoldable pub is_unit_start : Language → Text → Bool
unfolding has_any_prefix
is_unit_start lang ln = has_any_prefix ln (unit_prefixes lang)

-- `commentPrefixes`
abbrev pub comment_prefixes : Language → List Text
comment_prefixes generic = []
comment_prefixes go = bytes "//" ∷ []
comment_prefixes python = bytes "@" ∷ bytes "#" ∷ []
comment_prefixes markdown = []
comment_prefixes jsts = bytes "//" ∷ bytes "/*" ∷ bytes "*" ∷ bytes "@" ∷ []

abbrev pub is_comment : Language → Option Text → Bool
is_comment lang none = false
is_comment lang (some ln) = has_any_prefix ln (comment_prefixes lang)

-- `liftBoundary`
unfoldable pub lift_boundary : Language → List Text → ℕ → ℕ
unfolding has_any_prefix
lift_boundary lang lines zero = zero
lift_boundary lang lines (suc i) =
    let above = lift_boundary lang lines i in
    if is_comment lang (get_elem? lines i) then above else suc i

-- `raw`: the unit starts from line `i` on
unfoldable pub raw_starts : Language → ℕ → List Text → List ℕ
unfolding is_unit_start
raw_starts lang i [] = []
raw_starts lang i (ln ∷ lns) =
    let rest = raw_starts lang (suc i) lns in if is_unit_start lang ln then i ∷ rest else rest

-- the loop over `raw`; `seen` holds the lines of `out`
unfoldable pub lift_all : Language → List Text → List ℕ → List ℕ → List ℕ
unfolding lift_boundary any
lift_all lang lines seen [] = []
lift_all lang lines seen (i ∷ raw) =
    let at = lift_boundary lang lines i in
    let keep = ltb 0 at && not (any (λ x. x == at) seen) in
    let rest = lift_all lang lines (if keep then at ∷ seen else seen) raw in
    if keep then at ∷ rest else rest

-- `boundaries`
unfoldable pub boundaries : Language → List Text → List ℕ
unfolding lift_all raw_starts
boundaries lang lines = lift_all lang lines [] (raw_starts lang 0 lines)

-- `paragraphBoundaries`, from the line `i` after `prev`
unfoldable pub paragraphs_from : ℕ → Text → List Text → List ℕ
unfolding trim_space
paragraphs_from i prev [] = []
paragraphs_from i prev (ln ∷ lns) =
    let rest = paragraphs_from (suc i) ln lns in
    if not (is_empty (trim_space ln)) && is_empty (trim_space prev) then i ∷ rest else rest

unfoldable pub paragraph_boundaries : List Text → List ℕ
unfolding paragraphs_from
paragraph_boundaries [] = []
paragraph_boundaries (ln ∷ lns) = paragraphs_from 1 ln lns

abbrev bounds_of : Language → List Text → List ℕ
bounds_of generic lines = paragraph_boundaries lines
bounds_of lang lines = boundaries lang lines

-- `SplitLang`
unfoldable pub split_lang : Text → Language → ℕ → ℕ → List Chunk
unfolding pack_units boundaries paragraph_boundaries split_lines
split_lang text lang max_chars overlap =
    let max = max_of max_chars in
    let lines = split_lines text in
    pack_units lines max (overlap_of max overlap) (0 ∷ bounds_of lang lines) none
