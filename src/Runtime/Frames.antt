-- ===== src/Runtime/Frames.antt =====
-- internal/runtime/proto.go: frames, a length in four bytes, big-endian, before the payload.
use ioc.Base.{
  ℕ, ◌+◌, ◌*◌, ◌/◌, ◌%◌, ◌^◌, ◌≤◌, ◌<◌, [], ◌∷◌, ◌++◌, Text, ◌≡◌, Result, ok, err, internal, length,
  length-append, refl, take, drop, ltb, true, false, if◌then◌else◌, arith, take-append_left,
  drop-append_left,
}

abbrev pub max_control_frame : ℕ
max_control_frame = 2 ^ 20

abbrev pub max_data_frame : ℕ
max_data_frame = 64 * 2 ^ 20

-- `binary.BigEndian.PutUint32(hdr[:], uint32(n))`
unfoldable pub put_uint32 : ℕ → Text
put_uint32 n = (n / 2 ^ 24) % 256 ∷ (n / 2 ^ 16) % 256 ∷ (n / 2 ^ 8) % 256 ∷ n % 256 ∷ []

-- `writeFrame`
unfoldable pub write_frame : Text → Text
unfolding put_uint32
write_frame b = put_uint32 (length b) ++ b

-- `readFrame`: the payload, and what the stream still holds
unfoldable pub read_frame : ℕ → Text → Result (Text × Text)
read_frame max (a ∷ b ∷ c ∷ e ∷ stream) =
    let n = a * 2 ^ 24 + b * 2 ^ 16 + c * 2 ^ 8 + e in
    if ltb max n
    then err internal
    else if ltb (length stream) n
    then err internal
    else ok (take n stream, drop n stream)
read_frame max stream = err internal

uint32_lem :
    (n : ℕ)
    → n < 2 ^ 32
    → (n / 2 ^ 24) % 256 * 2 ^ 24
        + (n / 2 ^ 16) % 256 * 2 ^ 16
        + (n / 2 ^ 8) % 256 * 2 ^ 8
        + n % 256
      ≡ n
uint32_lem n h = omega (arith, h)

-- A frame that is at most the cap and shorter than 4 GiB reads back, whatever follows it, and the
-- stream goes on behind it.
pub read_frame-write_frame :
    (max : ℕ) (b rest : Text)
    → length b ≤ max
    → length b < 2 ^ 32
    → read_frame max (write_frame b ++ rest) ≡ ok (b, rest)
unfolding read_frame write_frame put_uint32
read_frame-write_frame max b rest fits short =
    let small : ltb max (length b) ≡ false = ground (arith, fits) in
    let whole : ltb (length (b ++ rest)) (length b) ≡ false =
      ground (arith, length-append b rest) in
    rw (uint32_lem (length b) short, small, whole, take-append_left b rest, drop-append_left b rest)
      refl

-- A frame above the cap is refused before its payload is read.
pub read_frame-write_frame_above :
    (max : ℕ) (b rest : Text)
    → max < length b
    → length b < 2 ^ 32
    → read_frame max (write_frame b ++ rest) ≡ err internal
unfolding read_frame write_frame put_uint32
read_frame-write_frame_above max b rest big short =
    let large : ltb max (length b) ≡ true = ground (arith, big) in
    rw (uint32_lem (length b) short, large) refl
