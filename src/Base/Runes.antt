-- ===== src/Base/Runes.antt =====
-- Go strings by code points (`[]rune(s)`), and by their byte order.
use Prim.Native.Nat.{ℕ, zero, suc, ◌-◌}
use mathlib.Core.Path.{◌≡◌, refl}
use mathlib.Core.Bool.{Bool, true, false, ◌&&◌, ◌||◌}
use mathlib.Core.List.{List, [], ◌∷◌, ◌++◌}
use native.Mathlib.Omega.{arith}
use ioc.Base.Tests.{◌==◌, leb, ltb, if◌then◌else◌}
use ioc.Base.Bytes.{Text}
use ioc.Base.Lists.{length, take, drop}

abbrev between : ℕ → ℕ → ℕ → Bool
between lo hi b = leb lo b && leb b hi

abbrev continues : ℕ → Bool
continues b = between 0x80 0xbf b

-- the second byte of three, and of four, after the first
abbrev second_of_3 : ℕ → ℕ → Bool
second_of_3 a b =
    if a == 0xe0
    then between 0xa0 0xbf b
    else if a == 0xed
    then between 0x80 0x9f b
    else continues b

abbrev second_of_4 : ℕ → ℕ → Bool
second_of_4 a b =
    if a == 0xf0
    then between 0x90 0xbf b
    else if a == 0xf4
    then between 0x80 0x8f b
    else continues b

-- the bytes of the code point in front; none where they are not UTF-8
abbrev rune_width : Text → ℕ
rune_width (a ∷ b ∷ c ∷ e ∷ s) =
    if ltb a 0x80
    then 1
    else if between 0xc2 0xdf a && continues b
    then 2
    else if between 0xe0 0xef a && (second_of_3 a b && continues c)
    then 3
    else if between 0xf0 0xf4 a && (second_of_4 a b && (continues c && continues e))
    then 4
    else 0
rune_width (a ∷ b ∷ c ∷ []) =
    if ltb a 0x80
    then 1
    else if between 0xc2 0xdf a && continues b
    then 2
    else if between 0xe0 0xef a && (second_of_3 a b && continues c)
    then 3
    else 0
rune_width (a ∷ b ∷ []) =
    if ltb a 0x80 then 1 else if between 0xc2 0xdf a && continues b then 2 else 0
rune_width (a ∷ []) = if ltb a 0x80 then 1 else 0
rune_width [] = 0

-- `utf8.ValidString`; `k` bytes of a code point are still to come
abbrev utf8_from : ℕ → Text → Bool
utf8_from k [] = true
utf8_from zero (a ∷ s) = let w = rune_width (a ∷ s) in if w == 0 then false else utf8_from (w - 1) s
utf8_from (suc k) (a ∷ s) = utf8_from k s

abbrev pub is_utf8 : Text → Bool
is_utf8 s = utf8_from 0 s

-- U+FFFD
abbrev replacement : Text
replacement = 0xef ∷ 0xbf ∷ 0xbd ∷ []

-- a byte that is not UTF-8 becomes U+FFFD; the length is enough fuel
runes_of : ℕ → Text → List Text
runes_of zero s = []
runes_of (suc n) [] = []
runes_of (suc n) (a ∷ s) =
    let w = rune_width (a ∷ s) in
    let behind = runes_of n s in
    let rest = runes_of n (drop w (a ∷ s)) in
    if w == 0 then replacement ∷ behind else take w (a ∷ s) ∷ rest

-- `[]rune(s)`, each code point in its UTF-8 bytes
unfoldable pub runes : Text → List Text
unfolding runes_of
runes s = runes_of (length s) s

-- `string(r)`
abbrev pub join_runes : List Text → Text
join_runes [] = []
join_runes (r ∷ rs) = r ++ join_runes rs

-- `truncRunes`
unfoldable pub trunc_runes : Text → ℕ → Text
unfolding runes
trunc_runes s max =
    if max == 0 || leb (length s) max
    then s
    else if leb (length (runes s)) max
    then s
    else join_runes (take max (runes s))

-- `<` on strings
unfoldable pub text_lt : Text → Text → Bool
text_lt s [] = false
text_lt [] (b ∷ t) = true
text_lt (a ∷ s) (b ∷ t) = ltb a b || (a == b && text_lt s t)

pub text_lt_trans : (s t u : Text) → text_lt s t ≡ false → text_lt t u ≡ false → text_lt s u ≡ false
unfolding text_lt
text_lt_trans s t [] p q = refl
text_lt_trans s [] (c ∷ u) p q = cc
text_lt_trans [] (b ∷ t) (c ∷ u) p q = cc
text_lt_trans (a ∷ s) (b ∷ t) (c ∷ u) p q = ground (arith, p, q, text_lt_trans s t u)
