-- ===== src/Ingest/Windows.antt =====
-- internal/ingest/chunk.go: the windows of Split.
use ioc.Base.{
  ℕ, zero, suc, ◌+◌, ◌-◌, ◌≤◌, ◌<◌, Bool, true, false, not, ◌&&◌, List, [], ◌∷◌, ◌++◌, Text, ◌≡◌,
  refl, ◌⊎◌, inl, inr, In, All, is_empty, ltb, leb, ◌==◌, length, length-append, length-drop, drop,
  split_lines, join_lines, slice, take, sym, ap, ◌∙◌, subst, append_assoc, append-nil,
  trim_right_newlines, newline, Bool-cases, arith, if◌then◌else◌,
}
use ioc.Ingest.Chunk.{
  Chunk, fill, back_from, backup_for_overlap, window_chunk, is_blank, unless_blank, split_from,
  split, max_of,
}

-- the lines from the first that is not empty
abbrev pub from_text : List Text → List Text
from_text [] = []
from_text ([] ∷ lns) = from_text lns
from_text ((x ∷ ln) ∷ lns) = (x ∷ ln) ∷ lns

-- the text of the lines of a chunk, from the first that is not empty
abbrev pub lines_text : List Text → Chunk → Text
lines_text lines c =
    join_lines (from_text (slice (c.start_line - 1) (c.end_line + 1 - c.start_line) lines))

-- A window of whole lines, with their text, of at most `max` bytes or a single line.
pub record IsWindow (max : ℕ) (lines : List Text) (c : Chunk) : Type 0 where
  pub within : (0 < c.start_line) × (c.start_line ≤ c.end_line) × (c.end_line ≤ length lines)
  pub whole : c.text ≡ trim_right_newlines (lines_text lines c)
  pub sized : (length (lines_text lines c) ≤ max) ⊎ In (lines_text lines c) lines

-- what a builder that holds a line is given for more lines
abbrev more : List Text → Text
more [] = []
more (ln ∷ lns) = newline ∷ (ln ++ more lns)

join_lines-cons : (ln : Text) (lns : List Text) → join_lines (ln ∷ lns) ≡ ln ++ more lns
unfolding join_lines
join_lines-cons ln [] = sym (append-nil ln)
join_lines-cons ln (k ∷ lns) = ap (λ x. ln ++ (newline ∷ x)) (join_lines-cons k lns)

fill-more :
    (max c : ℕ) (b : Text) (lns : List Text)
    → (fill max (c ∷ b) lns).1 ≡ (c ∷ b) ++ more (take (fill max (c ∷ b) lns).0 lns)
unfolding fill
fill-more max c b [] = sym (append-nil (c ∷ b))
fill-more max c b (ln ∷ lns) = elim (Bool-cases (ltb max (length (c ∷ b) + length ln + 1))) [
  | inl t ↦ rw t (sym (append-nil (c ∷ b)))
  | inr f ↦ rw f (
      fill-more max c (b ++ (newline ∷ ln)) lns
      ∙ append_assoc (c ∷ b) (newline ∷ ln)
          (more (take (fill max ((c ∷ b) ++ (newline ∷ ln)) lns).0 lns)))
]

fill-join :
    (max : ℕ) (lns : List Text)
    → (fill max [] lns).1 ≡ join_lines (from_text (take (fill max [] lns).0 lns))
unfolding fill join_lines
fill-join max [] = refl
fill-join max ([] ∷ lns) = fill-join max lns
fill-join max ((c ∷ ln) ∷ lns) =
    fill-more max c ln lns ∙ sym (join_lines-cons (c ∷ ln) (take (fill max (c ∷ ln) lns).0 lns))

fill-le : (max : ℕ) (b : Text) (lns : List Text) → (fill max b lns).0 ≤ length lns
unfolding fill
fill-le max b [] = omega arith
fill-le max b (ln ∷ lns) =
    elim (Bool-cases (not (is_empty b) && ltb max (length b + length ln + 1))) [
      | inl t ↦ rw t (omega arith)
      | inr f ↦
          rw f (omega (arith, fill-le max (if is_empty b then ln else b ++ (newline ∷ ln)) lns))
    ]

fill-takes : (max : ℕ) (ln : Text) (lns : List Text) → 0 < (fill max [] (ln ∷ lns)).0
unfolding fill
fill-takes max ln lns = omega arith

abbrev Sized : ℕ → List Text → Text → Type 0
Sized max lines w = (length w ≤ max) ⊎ In w lines

fill-Sized :
    (max : ℕ) (lines : List Text) (b : Text) (lns : List Text)
    → ((x : Text) → In x lns → In x lines)
    → Sized max lines b
    → Sized max lines (fill max b lns).1
unfolding fill
fill-Sized max lines b [] sub h = h
fill-Sized max lines [] (ln ∷ lns) sub h =
    fill-Sized max lines ln lns (λ x i. sub x (inr i)) (inr (sub ln (inl refl)))
fill-Sized max lines (c ∷ b) (ln ∷ lns) sub h =
    elim (Bool-cases (ltb max (length (c ∷ b) + length ln + 1))) [
      | inl t ↦ rw t h
      | inr f ↦ rw f (
          fill-Sized max lines ((c ∷ b) ++ (newline ∷ ln)) lns (λ x i. sub x (inr i))
            (inl (ground (arith, f, length-append (c ∷ b) (newline ∷ ln)))))
    ]

In-drop : (i : ℕ) (lines : List Text) (x : Text) → In x (drop i lines) → In x lines
In-drop zero lines x j = j
In-drop (suc i) [] x j = j
In-drop (suc i) (l ∷ lines) x j = inr (In-drop i lines x j)

either_bounds :
    (b : Bool) (x y lo hi : ℕ)
    → (lo < x) × (x ≤ hi)
    → (lo < y) × (y ≤ hi)
    → (lo < (if b then x else y)) × ((if b then x else y) ≤ hi)
either_bounds true x y lo hi p q = p
either_bounds false x y lo hi p q = q

back_from-bounds :
    (lines : List Text) (start overlap acc k : ℕ)
    → (start < back_from lines start overlap acc k)
      × (back_from lines start overlap acc k ≤ suc start + k)
unfolding back_from
back_from-bounds lines start overlap acc zero = (omega arith, omega arith)
back_from-bounds lines start overlap acc (suc k) =
    let ih : (c : ℕ)
        → (start < back_from lines start overlap c k)
          × (back_from lines start overlap c k ≤ suc start + suc k) =
      λ c. let (a, b) = back_from-bounds lines start overlap c k in (a, omega (arith, b)) in
    either_bounds _ (suc start + suc k) _ start (suc start + suc k) (omega arith, omega arith)
      (ih _)

-- The next window begins behind the start of this one, and not behind its end.
pub backup-bounds :
    (lines : List Text) (start end overlap : ℕ)
    → start < end
    → (start < backup_for_overlap lines start end overlap)
      × (backup_for_overlap lines start end overlap ≤ end)
unfolding backup_for_overlap
backup-bounds lines start end overlap h = elim (Bool-cases (overlap == 0)) [
  | inl t ↦ rw t (h, omega arith)
  | inr f ↦ rw f (
      let (a, b) = back_from-bounds lines start overlap 0 (end - suc start) in
      (a, omega (arith, b, h)))
]

In-unless_blank : (c : Chunk) (cs : List Chunk) → In c (unless_blank c cs) ⊎ (is_blank c ≡ true)
In-unless_blank c cs = elim (Bool-cases (is_blank c)) [
  | inl t ↦ inr t
  | inr f ↦ inl (rw f (inl refl))
]

unless_blank_behind : (c d : Chunk) (cs : List Chunk) → In d cs → In d (unless_blank c cs)
unless_blank_behind c d cs i = elim (Bool-cases (is_blank c)) [
  | inl t ↦ rw t i
  | inr f ↦ rw f (inr i)
]

drop-cons :
    (i : ℕ) (lines : List Text)
    → i < length lines
    → (l : Text) × (rest : List Text) × (drop i lines ≡ l ∷ rest)
drop-cons i [] h = absurd (omega (arith, h))
drop-cons zero (l ∷ lines) h = (l, lines, refl)
drop-cons (suc i) (l ∷ lines) h = drop-cons i lines (omega (arith, h))

window_takes :
    (max : ℕ) (lines : List Text) (i : ℕ) → i < length lines → 0 < (fill max [] (drop i lines)).0
window_takes max lines i h = let (l, rest, e) = drop-cons i lines h in rw e (fill-takes max l rest)

window-lines_text :
    (max : ℕ) (lines : List Text) (i : ℕ)
    → lines_text lines (window_chunk i (fill max [] (drop i lines)))
      ≡ (fill max [] (drop i lines)).1
window-lines_text max lines i =
    let n = (fill max [] (drop i lines)).0 in
    let count : (i + n) + 1 - suc i ≡ n = omega arith in
    let first : suc i - 1 ≡ i = omega arith in
    ap (λ k. join_lines (from_text (slice (suc i - 1) k lines))) count
    ∙ ap (λ k. join_lines (from_text (slice k n lines))) first
    ∙ sym (fill-join max (drop i lines))

fill-IsWindow :
    (max : ℕ) (lines : List Text) (i : ℕ)
    → i < length lines
    → IsWindow max lines (window_chunk i (fill max [] (drop i lines)))
fill-IsWindow max lines i h =
    let same = window-lines_text max lines i in
    record {
      within = (
        omega arith,
        omega (arith, window_takes max lines i h),
        omega (arith, fill-le max [] (drop i lines), length-drop i lines, h),
      );
      whole = ap trim_right_newlines (sym same);
      sized =
          subst (Sized max lines) (sym same)
            (fill-Sized max lines [] (drop i lines) (In-drop i lines) (inl (omega arith)));
    }

All-unless_blank :
    (P : Chunk → Type 0) (c : Chunk) (cs : List Chunk) → P c → All P cs → All P (unless_blank c cs)
All-unless_blank P c cs p h = elim (Bool-cases (is_blank c)) [
  | inl t ↦ rw t h
  | inr f ↦ rw f (p, h)
]

All-if : (P : Chunk → Type 0) (b : Bool) (cs : List Chunk) → All P cs → All P (if b then [] else cs)
All-if P true cs h = tt
All-if P false cs h = h

split_from-IsWindow :
    (fuel : ℕ) (lines : List Text) (max overlap i : ℕ)
    → All (IsWindow max lines) (split_from fuel lines max overlap i)
unfolding split_from
split_from-IsWindow zero lines max overlap i = tt
split_from-IsWindow (suc fuel) lines max overlap i = elim (Bool-cases (leb (length lines) i)) [
  | inl t ↦ rw t tt
  | inr f ↦
      let w = fill max [] (drop i lines) in
      let next = backup_for_overlap lines i (i + w.0) overlap in
      let last = leb (length lines) (i + w.0) in
      let rest = split_from fuel lines max overlap next in
      rw f (
        All-unless_blank (IsWindow max lines) (window_chunk i w) (if last then [] else rest)
          (fill-IsWindow max lines i (ground (arith, f)))
          (All-if (IsWindow max lines) last rest (split_from-IsWindow fuel lines max overlap next)))
]

-- The chunks show line `j`: a window has it, and is a chunk unless it is blank.
abbrev pub Shows : ℕ → List Text → List Chunk → ℕ → Type 0
Shows max lines chunks j =
    (c : Chunk) × IsWindow max lines c
    × (c.start_line ≤ suc j)
    × (suc j ≤ c.end_line)
    × (In c chunks ⊎ (is_blank c ≡ true))

split_from-Shows :
    (fuel : ℕ) (lines : List Text) (max overlap i j : ℕ)
    → length lines ≤ fuel + i
    → i ≤ j
    → j < length lines
    → Shows max lines (split_from fuel lines max overlap i) j
unfolding split_from
split_from-Shows zero lines max overlap i j enough from to =
    absurd (omega (arith, enough, from, to))
split_from-Shows (suc fuel) lines max overlap i j enough from to =
    let w = fill max [] (drop i lines) in
    let in_lines : leb (length lines) i ≡ false = ground (arith, from, to) in
    let win = fill-IsWindow max lines i (omega (arith, from, to)) in
    elim (Bool-cases (ltb j (i + w.0))) [
      | inl here ↦ rw in_lines (
        window_chunk i w,
        win,
        omega (arith, from),
        ground (arith, here),
        In-unless_blank (window_chunk i w) _,
      )
      | inr later ↦
          let next = backup_for_overlap lines i (i + w.0) overlap in
          let (a, b) =
            backup-bounds lines i (i + w.0) overlap
              (omega (arith, window_takes max lines i (omega (arith, from, to)))) in
          let more : leb (length lines) (i + w.0) ≡ false = ground (arith, later, to) in
          let (c, k, p, q, shown) =
            split_from-Shows fuel lines max overlap next j (omega (arith, a, enough))
              (ground (arith, b, later)) to in
          rw (in_lines, more) (c, k, p, q, behind (window_chunk i w) c _ shown)
    ]
  where
    behind :
        (w c : Chunk) (cs : List Chunk)
        → In c cs ⊎ (is_blank c ≡ true)
        → In c (unless_blank w cs) ⊎ (is_blank c ≡ true)
    behind w c cs (inl i) = inl (unless_blank_behind w c cs i)
    behind w c cs (inr b) = inr b

-- Every chunk is a window of whole lines of the text: it has the text of its lines, joined again from
-- the first that is not empty and without the newlines at the end, which is, before that cut, of at
-- most the given size or a single line.
pub split-IsWindow :
    (text : Text) (max_chars overlap : ℕ)
    → All (IsWindow (max_of max_chars) (split_lines text)) (split text max_chars overlap)
unfolding split
split-IsWindow text max_chars overlap = split_from-IsWindow _ (split_lines text) _ _ 0

-- Every line of a text lies in a window of whole lines with their text, of at most the given size or a
-- single line, that is a chunk unless its text is white space: the loop reaches the last line.
pub split-Shows :
    (text : Text) (max_chars overlap j : ℕ)
    → j < length (split_lines text)
    → Shows (max_of max_chars) (split_lines text) (split text max_chars overlap) j
unfolding split
split-Shows text max_chars overlap j h =
    split_from-Shows _ (split_lines text) _ _ 0 j (omega arith) (omega arith) h
