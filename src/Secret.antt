-- ===== src/Secret.antt =====
-- crypto/secret.go: the configuration of a DNS platform is stored encrypted. What the file uses of
-- crypto/aes, crypto/cipher, crypto/sha256, crypto/rand and encoding/base64 is the record `Cipher`;
-- bytes are numbers.
pub mod RoundTrip
use tu_dns.Prelude.{
  ℕ, ◌≡◌, Bool, true, false, List, [], ◌∷◌, ◌++◌, take, drop, length, ltb, if◌then◌else◌,
}
use tu_dns.Text.{Text, is_empty}
use tu_dns.Result.{Error, Result, ok, err, crypto}
use tu_dns.World.{Action, pure, raise, raise_if, lift, ask, ◌>>=◌, ◌>>◌}

-- `gcm.NonceSize()`
abbrev pub nonce_size : ℕ
nonce_size = 12

pub record Cipher : Type 0 where
  pub sha256 : Text → Text
  pub random_nonce : ℕ → Result Text
  -- `gcm.Seal` and `gcm.Open` under a key, with a nonce
  pub seal : Text → Text → Text → Text
  pub open_sealed : Text → Text → Text → Result Text
  pub to_base64 : Text → Text
  pub of_base64 : Text → Result Text
  pub nonce_length : (m : ℕ) (n : Text) → random_nonce m ≡ ok n → length n ≡ nonce_size
  pub open-seal : (k n p : Text) → open_sealed k n (seal k n p) ≡ ok p
  pub of-to_base64 : (b : Text) → of_base64 (to_base64 b) ≡ ok b
  pub to_base64-nonempty : (b : Text) → is_empty b ≡ false → is_empty (to_base64 b) ≡ false

module _ (cipher : Cipher) where
  -- `Encrypt`
  unfoldable pub encrypt : Text → Text → Action Text
  encrypt secret plaintext = if is_empty plaintext then pure [] else do
    drawn ← ask cipher.random_nonce
    nonce ← lift drawn
    pure (cipher.to_base64 (nonce ++ cipher.seal (cipher.sha256 secret) nonce plaintext))

  unfoldable pub open_raw : Text → Text → Result Text
  open_raw secret raw =
      if ltb (length raw) nonce_size
      then err (crypto 0)
      else cipher.open_sealed (cipher.sha256 secret) (take nonce_size raw) (drop nonce_size raw)

  abbrev decode_then : (Text → Result Text) → Result Text → Result Text
  decode_then f (ok raw) = f raw
  decode_then f (err e) = err e

  -- `Decrypt`
  unfoldable pub decrypt : Text → Text → Result Text
  unfolding open_raw
  decrypt secret ciphertext =
      if is_empty ciphertext
      then ok []
      else decode_then (open_raw secret) (cipher.of_base64 ciphertext)
