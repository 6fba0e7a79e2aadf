-- ===== src/Ingest/Chunk.antt =====
-- internal/ingest/chunk.go: Split and SplitLang.
use ioc.Base.{
  ℕ, zero, suc, ◌+◌, ◌-◌, Bool, true, false, not, ◌&&◌, List, [], ◌∷◌, ◌++◌, Text, Option, none,
  some, is_empty, ltb, leb, ◌==◌, length, drop, slice, get_elem?, map, split_lines, join_lines,
  trim_space, trim_right_newlines, newline, if◌then◌else◌,
}

abbrev pub default_max_chars : ℕ
default_max_chars = 1500

abbrev pub default_overlap : ℕ
default_overlap = 200

-- `Chunk`; lines count from 1, both ends belong to it
pub record Chunk : Type 0 where
  pub text : Text
  pub start_line : ℕ
  pub end_line : ℕ

-- the caller's parameters, or the defaults
abbrev pub max_of : ℕ → ℕ
max_of max_chars = if max_chars == 0 then default_max_chars else max_chars

abbrev pub overlap_of : ℕ → ℕ → ℕ
overlap_of max_chars overlap = if leb max_chars overlap then default_overlap else overlap

-- one window: how many lines it takes, and its text; `b` is what the builder holds
unfoldable pub fill : ℕ → Text → List Text → ℕ × Text
fill max b [] = (0, b)
fill max b (ln ∷ lns) =
    let (n, w) = fill max (if is_empty b then ln else b ++ (newline ∷ ln)) lns in
    if not (is_empty b) && ltb max (length b + length ln + 1) then (0, b) else (suc n, w)

-- the length of `lines[i]`
abbrev line_len : List Text → ℕ → ℕ
line_len lines i = elim (get_elem? lines i) [ none ↦ 0 | some ln ↦ length ln ]

-- the loop of `backupForOverlap` from `j = start + 1 + k` down
unfoldable pub back_from : List Text → ℕ → ℕ → ℕ → ℕ → ℕ
back_from lines start overlap acc zero = suc start
back_from lines start overlap acc (suc k) =
    let covered = acc + line_len lines (start + suc k) + 1 in
    let rest = back_from lines start overlap covered k in
    if leb overlap covered then suc start + suc k else rest

-- `backupForOverlap`
unfoldable pub backup_for_overlap : List Text → ℕ → ℕ → ℕ → ℕ
unfolding back_from
backup_for_overlap lines start end overlap =
    if overlap == 0 then end else back_from lines start overlap 0 (end - suc start)

-- the chunk of a window
abbrev pub window_chunk : ℕ → ℕ × Text → Chunk
window_chunk start w = record {
  text = trim_right_newlines w.1;
  start_line = suc start;
  end_line = start + w.0;
}

abbrev pub is_blank : Chunk → Bool
is_blank c = is_empty (trim_space c.text)

abbrev pub unless_blank : Chunk → List Chunk → List Chunk
unless_blank c cs = if is_blank c then cs else c ∷ cs

-- the loop of `Split`; each round begins at a later line, so their number is enough fuel
unfoldable pub split_from : ℕ → List Text → ℕ → ℕ → ℕ → List Chunk
unfolding fill backup_for_overlap trim_space trim_right_newlines
split_from zero lines max overlap i = []
split_from (suc fuel) lines max overlap i =
    let w = fill max [] (drop i lines) in
    let end = i + w.0 in
    let next = split_from fuel lines max overlap (backup_for_overlap lines i end overlap) in
    let rest = if leb (length lines) end then [] else next in
    if leb (length lines) i then [] else unless_blank (window_chunk i w) rest

-- `Split`
unfoldable pub split : Text → ℕ → ℕ → List Chunk
unfolding split_from split_lines
split text max_chars overlap =
    let max = max_of max_chars in
    let lines = split_lines text in split_from (length lines) lines max (overlap_of max overlap) 0

-- `joinLen`
unfoldable pub join_len : List Text → ℕ
join_len [] = 0
join_len (ln ∷ []) = length ln
join_len (ln ∷ k ∷ lns) = length ln + 1 + join_len (k ∷ lns)

-- `flush`: the lines that are packed, from `packStart` up to `end`
abbrev pub flush : List Text → Option (ℕ × ℕ) → ℕ → List Chunk
flush lines none end = []
flush lines (some (start, len)) end =
    unless_blank
      (record {
        text = trim_right_newlines (join_lines (slice start (end - start) lines));
        start_line = suc start;
        end_line = end;
      })
      []

abbrev shifted : ℕ → Chunk → Chunk
shifted s c = record { text = c.text; start_line = c.start_line + s; end_line = c.end_line + s }

abbrev unit_end : List Text → List ℕ → ℕ
unit_end lines [] = length lines
unit_end lines (e ∷ es) = e

abbrev fits : ℕ → Option (ℕ × ℕ) → ℕ → Bool
fits max none len = true
fits max (some (start, packed)) len = leb (packed + 1 + len) max

abbrev packed_with : Option (ℕ × ℕ) → ℕ → ℕ → Option (ℕ × ℕ)
packed_with none s len = some (s, len)
packed_with (some (start, packed)) s len = some (start, packed + 1 + len)

-- the loop of `SplitLang` over the unit starts
unfoldable pub pack_units : List Text → ℕ → ℕ → List ℕ → Option (ℕ × ℕ) → List Chunk
unfolding split join_len join_lines trim_space trim_right_newlines
pack_units lines max overlap [] pack = flush lines pack (length lines)
pack_units lines max overlap (s ∷ starts) pack =
    let unit = slice s (unit_end lines starts - s) lines in
    let len = join_len unit in
    elim (ltb max len) [
      | true ↦
          flush lines pack s
          ++ (map (shifted s) (split (join_lines unit) max overlap)
              ++ pack_units lines max overlap starts none)
      | false ↦ elim (fits max pack len) [
        | true ↦ pack_units lines max overlap starts (packed_with pack s len)
        | false ↦ flush lines pack s ++ pack_units lines max overlap starts (some (s, len))
      ]
    ]
