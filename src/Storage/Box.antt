-- ===== src/Storage/Box.antt =====
-- internal/storage/crypto.go: the sealing box. AES-256-GCM is Go's crypto/cipher, a parameter.
pub mod RoundTrip
use ioc.Base.{
  ℕ, ◌+◌, Bool, true, false, ◌++◌, Text, Option, none, some, ◌≡◌, Result, ok, err, internal, ltb,
  length, take, drop, if◌then◌else◌,
}

abbrev pub gcm_nonce_len : ℕ
gcm_nonce_len = 12

-- `cipher.AEAD` under one key. What is sealed opens under the same nonce and associated data.
pub record Aead : Type 0 where
  pub overhead : ℕ
  pub seal : Text → Text → Text → Text
  pub unseal : Text → Text → Text → Option Text
  pub unseal-seal : (nonce plain aad : Text) → unseal nonce (seal nonce plain aad) aad ≡ some plain
  pub length-seal :
      (nonce plain aad : Text) → length (seal nonce plain aad) ≡ length plain + overhead

-- The random source gives 12 bytes or fails.
pub record Nonces : Type 0 where
  pub draw : Text → Text → Result Text
  pub length-draw :
      (plain aad : Text) {nonce : Text} → draw plain aad ≡ ok nonce → length nonce ≡ 12

-- `*Box`: `none` is the nil box, encryption off
abbrev pub Box : Type 0
Box = Option Aead

abbrev pub enabled : Box → Bool
enabled none = false
enabled (some a) = true

-- `Overhead`
abbrev pub overhead_of : Box → ℕ
overhead_of none = 0
overhead_of (some a) = gcm_nonce_len + a.overhead

-- `Seal`: nonce, ciphertext and tag
unfoldable pub seal : Aead → Nonces → Text → Text → Result Text
seal a n plain aad = elim (n.draw plain aad) [
  | ok nonce ↦ ok (nonce ++ a.seal nonce plain aad)
  | err e ↦ err e
]

abbrev opened : Option Text → Result Text
opened none = err internal
opened (some plain) = ok plain

-- `Open`
unfoldable pub unseal : Aead → Text → Text → Result Text
unseal a blob aad =
    if ltb (length blob) gcm_nonce_len
    then err internal
    else opened (a.unseal (take gcm_nonce_len blob) (drop gcm_nonce_len blob) aad)
