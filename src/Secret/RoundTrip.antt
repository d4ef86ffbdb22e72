-- ===== src/Secret/RoundTrip.antt =====
-- Decrypting what was encrypted.
use tu_dns.Prelude.{
  ◌≡◌, refl, sym, ap, ◌∙◌, true, false, [], ◌∷◌, ◌++◌, arith, take, drop, length, length-append,
  ltb,
}
use tu_dns.Text.{Text, is_empty}
use tu_dns.Result.{ok}
use tu_dns.World.{World}
use tu_dns.World.On.{On, On-bind, On-if, On-pure, On-ask, On-lift}
use tu_dns.Secret.{Cipher, nonce_size, encrypt, decrypt, open_raw}

take-append : (a b : Text) → take (length a) (a ++ b) ≡ a
take-append [] b = refl
take-append (x ∷ a) b = ap (λ r. x ∷ r) (take-append a b)

drop-append : (a b : Text) → drop (length a) (a ++ b) ≡ b
drop-append [] b = refl
drop-append (x ∷ a) b = drop-append a b

module _ (cipher : Cipher) where
  sealed_nonempty : (a b : Text) → length a ≡ nonce_size → is_empty (a ++ b) ≡ false
  sealed_nonempty [] b h = absurd (omega arith)
  sealed_nonempty (x ∷ a) b h = refl

  open_raw-seal :
      (secret nonce p : Text)
      → length nonce ≡ nonce_size
      → open_raw cipher secret (nonce ++ cipher.seal (cipher.sha256 secret) nonce p) ≡ ok p
  unfolding open_raw
  open_raw-seal secret nonce p h =
      rw (long_enough nonce (cipher.seal (cipher.sha256 secret) nonce p) h) (
        rw
          (ap (λ k. take k (nonce ++ cipher.seal (cipher.sha256 secret) nonce p)) (sym h)
            ∙ take-append nonce (cipher.seal (cipher.sha256 secret) nonce p))
          (rw
            (ap (λ k. drop k (nonce ++ cipher.seal (cipher.sha256 secret) nonce p)) (sym h)
              ∙ drop-append nonce (cipher.seal (cipher.sha256 secret) nonce p))
            (cipher.open-seal (cipher.sha256 secret) nonce p)))
    where
      long_enough : (a b : Text) → length a ≡ nonce_size → ltb (length (a ++ b)) nonce_size ≡ false
      long_enough a b e = ground (arith, length-append a b)

  -- Whatever `Encrypt` returns for a text, the empty text included, `Decrypt` under the same secret
  -- takes back to the text; neither touches the database.
  pub decrypt-encrypt :
      (secret plaintext : Text) (w : World)
      → On
          (λ c w'. (decrypt cipher secret c ≡ ok plaintext) × (w'.db ≡ w.db))
          (λ e w'. w'.db ≡ w.db)
          (encrypt cipher secret plaintext w)
  unfolding encrypt decrypt
  decrypt-encrypt secret plaintext w =
      On-if (is_empty plaintext) _ _ w
        (λ empty. On-pure [] w (ap ok (is_nil plaintext empty), refl))
        (λ _. On-bind _ _ w (
          On-ask cipher.random_nonce w (
            On-bind _ _ _ (
              On-lift (cipher.random_nonce w.moment) _
                (λ nonce drawn.
                  let long = cipher.nonce_length w.moment nonce drawn in
                  On-pure _ _ (
                    rw
                        (cipher.to_base64-nonempty _ (
                          sealed_nonempty nonce (cipher.seal (cipher.sha256 secret) nonce plaintext)
                            long))
                        (rw
                          (cipher.of-to_base64
                            (nonce ++ cipher.seal (cipher.sha256 secret) nonce plaintext))
                          (open_raw-seal secret nonce plaintext long)),
                    refl,
                  ))
                (λ e _. refl)))))
    where
      is_nil : (s : Text) → is_empty s ≡ true → [] ≡ s
      is_nil [] h = refl
      is_nil (c ∷ s) h = cc
