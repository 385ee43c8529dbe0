-- ===== src/Auth/Secrets.antt =====
-- internal/auth/crypto.go: how the secrets of two-factor codes are stored. AES-GCM under the key of
-- the server and base64 are Go's library.
use wealth.Prelude.{
  Option, Text, arith, drop, drop-append, false, has_prefix, if◌then◌else◌, length, length-append,
  lit, ltb, none, some, take, take-append, ℕ, ◌++◌, ◌≡◌,
}

-- `cipher.AEAD` under the key, and `base64.StdEncoding`
pub record Cipher : Type 0 where
  pub nonce_size : ℕ
  pub seal : Text → Text → Text
  pub unseal : Text → Text → Option Text
  pub encode : Text → Text
  pub decode : Text → Option Text

abbrev pub encrypted_prefix : Text
encrypted_prefix = lit "enc:"

module _ (cipher : Cipher) where
  -- With the random nonce as an argument.
  unfoldable pub encrypt_secret : Text → Text → Text
  encrypt_secret nonce plaintext =
      encrypted_prefix ++ cipher.encode (nonce ++ cipher.seal nonce plaintext)

  abbrev pub open_data : Text → Option Text
  open_data bytes =
      if ltb (length bytes) cipher.nonce_size
      then none
      else cipher.unseal (take cipher.nonce_size bytes) (drop cipher.nonce_size bytes)

  unfoldable pub decrypt_secret : Text → Option Text
  decrypt_secret encoded =
      if has_prefix encoded encrypted_prefix
      then elim (cipher.decode (drop (length encrypted_prefix) encoded)) [
        | none ↦ none
        | some bytes ↦ open_data bytes
      ]
      else some encoded

-- What a cipher promises: what it seals it opens, and what it encodes it decodes.
pub record IsCipher (cipher : Cipher) : Type 0 where
  pub opens :
      (nonce plaintext : Text)
      → length nonce ≡ cipher.nonce_size
      → cipher.unseal nonce (cipher.seal nonce plaintext) ≡ some plaintext
  pub decodes : (bytes : Text) → cipher.decode (cipher.encode bytes) ≡ some bytes

module _ (cipher : Cipher) (ok : IsCipher cipher) (nonce plaintext : Text) where
  open_data-seal :
      length nonce ≡ cipher.nonce_size
      → open_data cipher (nonce ++ cipher.seal nonce plaintext) ≡ some plaintext
  open_data-seal n =
      let long : ltb (length (nonce ++ cipher.seal nonce plaintext)) (length nonce) ≡ false =
        ground (arith, length-append nonce (cipher.seal nonce plaintext)) in
      rw
        (
          ← n,
          long,
          take-append nonce (cipher.seal nonce plaintext),
          drop-append nonce (cipher.seal nonce plaintext),
        )
        (ok.opens nonce plaintext n)

  -- What `EncryptSecret` stores, `DecryptSecret` reads.
  pub decrypt-encrypt :
      length nonce ≡ cipher.nonce_size
      → decrypt_secret cipher (encrypt_secret cipher nonce plaintext) ≡ some plaintext
  unfolding decrypt_secret encrypt_secret has_prefix
  decrypt-encrypt n = rw (ok.decodes (nonce ++ cipher.seal nonce plaintext)) (open_data-seal n)
