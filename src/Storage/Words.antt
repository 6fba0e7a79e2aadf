-- ===== src/Storage/Words.antt =====
-- encoding/binary's little-endian words, and records of float32 bit patterns.
use ioc.Base.{
  ℕ, zero, suc, ◌+◌, ◌*◌, ◌/◌, ◌%◌, ◌^◌, ◌<◌, List, [], ◌∷◌, ◌++◌, Text, ◌≡◌, refl, length, drop,
  slice, arith, All,
}

-- `binary.LittleEndian.PutUint32`
unfoldable pub put_u32 : ℕ → Text
put_u32 n = n % 256 ∷ (n / 2 ^ 8) % 256 ∷ (n / 2 ^ 16) % 256 ∷ (n / 2 ^ 24) % 256 ∷ []

-- `binary.LittleEndian.Uint32`; a shorter slice never occurs
unfoldable pub get_u32 : Text → ℕ
get_u32 (a ∷ b ∷ c ∷ e ∷ rest) = a + b * 2 ^ 8 + c * 2 ^ 16 + e * 2 ^ 24
get_u32 rest = 0

-- `binary.LittleEndian.Uint32(bs[off : off+4])`
abbrev pub u32_at : ℕ → Text → ℕ
u32_at off bs = get_u32 (slice off 4 bs)

-- the loop of `Put` over the components
unfoldable pub encode_vec : List ℕ → Text
unfolding put_u32
encode_vec [] = []
encode_vec (v ∷ vec) = put_u32 v ++ encode_vec vec

-- the loop of `Get`
unfoldable pub decode_vec : ℕ → Text → List ℕ
unfolding get_u32
decode_vec zero rec = []
decode_vec (suc n) rec = get_u32 rec ∷ decode_vec n (drop 4 rec)

pub get_u32-put_u32 : (n : ℕ) (rest : Text) → n < 2 ^ 32 → get_u32 (put_u32 n ++ rest) ≡ n
unfolding put_u32 get_u32
get_u32-put_u32 n rest h = omega (arith, h)

pub length-put_u32 : (n : ℕ) → length (put_u32 n) ≡ 4
unfolding put_u32
length-put_u32 n = refl

pub length-encode_vec : (vec : List ℕ) → length (encode_vec vec) ≡ length vec * 4
unfolding encode_vec put_u32
length-encode_vec [] = refl
length-encode_vec (v ∷ vec) = omega (arith, length-encode_vec vec)

-- every component is a float32 bit pattern
abbrev pub AreWords : List ℕ → Type 0
AreWords vec = All (λ v. v < 2 ^ 32) vec

pub decode_vec-encode_vec :
    (vec : List ℕ) → AreWords vec → decode_vec (length vec) (encode_vec vec) ≡ vec
unfolding encode_vec decode_vec put_u32
decode_vec-encode_vec [] h = refl
decode_vec-encode_vec (v ∷ vec) h =
    rw (get_u32-put_u32 v (encode_vec vec) h.0, decode_vec-encode_vec vec h.1)
