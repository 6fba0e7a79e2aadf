-- ===== src/Core/Ulid.antt =====
-- internal/core/id.go: the text of an identifier. The encoding is that of the library
-- github.com/oklog/ulid, a parameter with the documented behaviour that the stores rely on: 26
-- characters of Crockford's base32, which sort as the identifiers do and parse back.
use ioc.Base.{Text, ◌≡◌, some, Option, length}
use ioc.Core.Types.{Ulid}

pub record Ulids : Type 0 where
  -- `ID.String`
  pub text : Ulid → Text
  -- `ParseID`, with `none` for an error
  pub parse : Text → Option Ulid
  pub parse-text : (id : Ulid) → parse (text id) ≡ some id
  pub length-text : (id : Ulid) → length (text id) ≡ 26

-- Two identifiers with one text are equal.
module _ ⦃u : Ulids⦄ where
  pub text-injective : (a b : Ulid) → u.text a ≡ u.text b → a ≡ b
  text-injective a b e = cc (u.parse-text a, u.parse-text b)
