-- ===== src/Base/Strings.antt =====
-- What the program uses of Go's `strings` and `strconv`, over the bytes of a text.
use Prim.Native.Nat.{ℕ, zero, suc, ◌+◌, ◌/◌, ◌%◌}
use mathlib.Core.Bool.{Bool, ◌&&◌, ◌||◌}
use mathlib.Core.List.{List, [], ◌∷◌, ◌++◌, reverse}
use ioc.Base.Tests.{◌==◌, leb, if◌then◌else◌}
use ioc.Base.Bytes.{Text}

abbrev pub newline : ℕ
newline = 10

-- `strconv.Itoa` of a number that is not negative; `fuel` above the number is enough
unfoldable pub itoa_onto : ℕ → ℕ → Text → Text
itoa_onto zero n acc = acc
itoa_onto (suc fuel) n acc =
    let digits = (48 + n % 10) ∷ acc in
    let rest = itoa_onto fuel (n / 10) digits in if n / 10 == 0 then digits else rest

unfoldable pub itoa : ℕ → Text
unfolding itoa_onto
itoa n = itoa_onto (suc n) n []

-- put a byte onto the first line
abbrev onto_first : ℕ → List Text → List Text
onto_first c [] = (c ∷ []) ∷ []
onto_first c (l ∷ ls) = (c ∷ l) ∷ ls

-- `strings.Split(s, "\n")`
unfoldable pub split_lines : Text → List Text
split_lines [] = [] ∷ []
split_lines (c ∷ s) =
    let rest = split_lines s in if c == newline then [] ∷ rest else onto_first c rest

-- `strings.Join(ls, "\n")`
unfoldable pub join_lines : List Text → Text
join_lines [] = []
join_lines (l ∷ []) = l
join_lines (l ∷ k ∷ ls) = l ++ (newline ∷ join_lines (k ∷ ls))

-- the white space of one byte
abbrev ascii_space : ℕ → Bool
ascii_space c = (leb 9 c && leb c 13) || c == 32

-- U+0085, U+00A0
abbrev space_2 : ℕ → ℕ → Bool
space_2 a b = a == 0xc2 && (b == 0x85 || b == 0xa0)

-- U+1680, U+2000 to U+200A, U+2028, U+2029, U+202F, U+205F, U+3000
abbrev space_3 : ℕ → ℕ → ℕ → Bool
space_3 a b c =
    (a == 0xe1 && (b == 0x9a && c == 0x80))
    || ((a == 0xe2
          && ((b == 0x80 && ((leb 0x80 c && leb c 0x8a) || (c == 0xa8 || (c == 0xa9 || c == 0xaf))))
              || (b == 0x81 && c == 0x9f)))
        || (a == 0xe3 && (b == 0x80 && c == 0x80)))

-- drop leading white space, each code point in its UTF-8 bytes; the fuel is the length
trim_front : Text → Text
trim_front (a ∷ b ∷ c ∷ s) =
    let one = trim_front (b ∷ c ∷ s) in
    let two = trim_front (c ∷ s) in
    let three = trim_front s in
    if ascii_space a
    then one
    else if space_2 a b
    then two
    else if space_3 a b c
    then three
    else a ∷ b ∷ c ∷ s
trim_front (a ∷ b ∷ []) =
    let one = trim_front (b ∷ []) in
    if ascii_space a then one else if space_2 a b then [] else a ∷ b ∷ []
trim_front (a ∷ []) = if ascii_space a then [] else a ∷ []
trim_front [] = []

-- the same from the end, over the reversed text
trim_back : Text → Text
trim_back (c ∷ b ∷ a ∷ s) =
    let one = trim_back (b ∷ a ∷ s) in
    let two = trim_back (a ∷ s) in
    let three = trim_back s in
    if ascii_space c
    then one
    else if space_2 b c
    then two
    else if space_3 a b c
    then three
    else c ∷ b ∷ a ∷ s
trim_back (c ∷ b ∷ []) =
    let one = trim_back (b ∷ []) in
    if ascii_space c then one else if space_2 b c then [] else c ∷ b ∷ []
trim_back (c ∷ []) = if ascii_space c then [] else c ∷ []
trim_back [] = []

-- `strings.TrimSpace`
unfoldable pub trim_space : Text → Text
unfolding trim_front trim_back
trim_space s = reverse (trim_back (reverse (trim_front s)))

strip_newlines : Text → Text
strip_newlines [] = []
strip_newlines (c ∷ s) = let rest = strip_newlines s in if c == newline then rest else c ∷ s

-- `strings.TrimRight(s, "\n")`
unfoldable pub trim_right_newlines : Text → Text
unfolding strip_newlines
trim_right_newlines s = reverse (strip_newlines (reverse s))
