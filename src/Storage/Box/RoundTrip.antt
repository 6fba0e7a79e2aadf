-- ===== src/Storage/Box/RoundTrip.antt =====
-- internal/storage/crypto.go: Open after Seal, and the length of a sealed blob.
use ioc.Base.{
  ◌+◌, ◌++◌, Text, ◌≡◌, ok, some, length, length-append, take-append_of_length,
  drop-append_of_length, arith, ltb, false, Result-cases, inl, inr,
}
use ioc.Storage.Box.{Aead, Nonces, gcm_nonce_len, overhead_of, seal, unseal}

module _ (a : Aead) (n : Nonces) (plain aad : Text) where
  -- the layout of a sealed blob
  seal_layout :
      (blob : Text)
      → seal a n plain aad ≡ ok blob
      → (nonce : Text) × (length nonce ≡ gcm_nonce_len) × (blob ≡ nonce ++ a.seal nonce plain aad)
  unfolding seal
  seal_layout blob h = elim (Result-cases (n.draw plain aad)) [
    | inl (nonce, e) ↦ (nonce, n.length-draw plain aad e, cc (rw (e, seal) at h))
    | inr (x, e) ↦ cc (rw (e, seal) at h)
  ]

  unseal-append :
      (nonce : Text)
      → length nonce ≡ gcm_nonce_len
      → unseal a (nonce ++ a.seal nonce plain aad) aad ≡ ok plain
  unfolding unseal
  unseal-append nonce e =
      let long : ltb (length (nonce ++ a.seal nonce plain aad)) 12 ≡ false =
        ground (arith, e, length-append nonce (a.seal nonce plain aad)) in
      rw (
        long,
        take-append_of_length 12 nonce _ e,
        drop-append_of_length 12 nonce _ e,
        a.unseal-seal nonce plain aad,
      )

  -- What is sealed, where that succeeds, opens again under the same associated data.
  pub unseal-seal : (blob : Text) → seal a n plain aad ≡ ok blob → unseal a blob aad ≡ ok plain
  unseal-seal blob h = let (nonce, e, l) = seal_layout blob h in rw l (unseal-append nonce e)

  -- the length of a sealed blob
  pub length-seal :
      (blob : Text)
      → seal a n plain aad ≡ ok blob
      → length blob ≡ length plain + overhead_of (some a)
  length-seal blob h =
      let (nonce, e, l) = seal_layout blob h in
      rw l (
        omega
          (arith, e, length-append nonce (a.seal nonce plain aad), a.length-seal nonce plain aad))
