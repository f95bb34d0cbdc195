-- ===== src/HotWallet/Cipher/Sealing.antt =====
-- What `_encrypt` seals `_decrypt` opens, and what it opens carries a matching MAC.
use crypto_arc_v.Prelude.{
  ◌≡◌, inl, inr, refl, ap, String, true, false, some, [], ◌∷◌, ◌++◌, arith, is_empty, Option-cases,
}
use crypto_arc_v.Prelude.Result.{ok, ◌>>=◌}
use crypto_arc_v.HotWallet.Cipher.{
  Bytes, IsBytes, Crypto, IsCrypto, Sealed, same_bytes, xor_stream, derive_keys, encrypt, decrypt,
}
use crypto_arc_v.HotWallet.Cipher.Stream.{xor_stream_twice}

same_bytes_refl : (b : Bytes) → same_bytes b b ≡ true
unfolding same_bytes
same_bytes_refl [] = refl
same_bytes_refl (x ∷ b) = ground (arith, same_bytes_refl b)

eq_of_same_bytes : (a b : Bytes) → same_bytes a b ≡ true → a ≡ b
unfolding same_bytes
eq_of_same_bytes [] [] h = refl
eq_of_same_bytes (x ∷ a) [] h = absurd (cc)
eq_of_same_bytes [] (y ∷ b) h = absurd (cc)
eq_of_same_bytes (x ∷ a) (y ∷ b) h = ground (arith, eq_of_same_bytes a b)

module _ (c : Crypto) where
  -- The MAC that `_encrypt` attaches under a password.
  abbrev pub mac_of : String → Bytes → Bytes → Bytes → Bytes
  mac_of password salt nonce ciphertext =
      c.hmac (derive_keys c password salt).1 (nonce ++ ciphertext)

  -- Whatever `_decrypt` opens is authentic: the four texts are Base64, and the MAC is the one of
  -- this password for exactly this nonce and ciphertext.
  pub decrypt_authentic :
      (sealed : Sealed) (password : String) {plain : Bytes}
      → decrypt c sealed password ≡ ok plain
      → (salt nonce ciphertext : Bytes) × (c.b64decode sealed.salt_b64 ≡ some salt)
        × (c.b64decode sealed.nonce_b64 ≡ some nonce)
        × (c.b64decode sealed.ciphertext_b64 ≡ some ciphertext)
        × (c.b64decode sealed.mac_b64 ≡ some (mac_of password salt nonce ciphertext))
        × (plain ≡ xor_stream c ciphertext (derive_keys c password salt).0 nonce)
  unfolding decrypt
  decrypt_authentic sealed password {plain} h = elim (Option-cases (c.b64decode sealed.salt_b64)) [
    | inl e ↦ absurd (ground arith)
    | inr (salt, es) ↦ elim (Option-cases (c.b64decode sealed.nonce_b64)) [
      | inl e ↦ absurd (ground arith)
      | inr (nonce, en) ↦ elim (Option-cases (c.b64decode sealed.ciphertext_b64)) [
        | inl e ↦ absurd (ground arith)
        | inr (text, et) ↦ elim (Option-cases (c.b64decode sealed.mac_b64)) [
          | inl e ↦ absurd (ground arith)
          | inr (mac, em) ↦
              let wanted = mac_of password salt nonce text in
              (
                salt,
                nonce,
                text,
                es,
                en,
                et,
                ground (arith, eq_of_same_bytes mac wanted),
                ground arith,
              )
        ]
      ]
    ]
  ]

  module _ (laws : IsCrypto c) where
    open laws use {b64decode-b64encode}

    -- With a password that is not empty `_encrypt` returns, and `_decrypt` with the same password gives
    -- the plaintext back, for every salt and nonce.
    pub decrypt-encrypt :
        (salt nonce plain : Bytes) (password : String)
        → IsBytes plain
        → is_empty password ≡ false
        → (encrypt c salt nonce plain password >>= λ sealed. decrypt c sealed password) ≡ ok plain
    unfolding encrypt decrypt
    decrypt-encrypt salt nonce plain password b h =
        let key = (derive_keys c password salt).0 in
        rw h (
          simp (b64decode-b64encode, same_bytes_refl)
            (ap ok (xor_stream_twice c laws key nonce plain b).1))
