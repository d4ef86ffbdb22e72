-- ===== src/Tests/Vault.antt =====
-- A cipher that seals a text as it stands, and a notation for configurations.
use tu_dns.Prelude.{ℕ, zero, suc, ◌≡◌, refl, ap, ◌∙◌, List, [], ◌∷◌, length}
use tu_dns.Text.{Text, text}
use tu_dns.Result.{Result, ok, err, crypto, ok-injective_rev}
use tu_dns.Dns.{ConfigMap}
use tu_dns.Secret.{Cipher}
use tu_dns.Domain.{Vault}

abbrev pub plain_cipher : Cipher
plain_cipher = record {
  sha256 = λ s. s;
  random_nonce = λ m. ok (text "0123456789ab");
  seal = λ k n p. p;
  open_sealed = λ k n c. ok c;
  to_base64 = λ b. b;
  of_base64 = λ s. ok s;
  nonce_length = λ m n e. ap length (ok-injective_rev (text "0123456789ab") n e);
  open-seal = λ k n p. refl;
  of-to_base64 = λ b. refl;
  to_base64-nonempty = λ b h. h;
}

-- A text as its characters, one up, and a zero.
abbrev pub write_then : Text → Text → Text
write_then [] rest = 0 ∷ rest
write_then (c ∷ s) rest = suc c ∷ write_then s rest

abbrev pub write_map : ConfigMap → Text
write_map [] = []
write_map (x ∷ m) = write_then x.0 (write_then x.1 (write_map m))

abbrev pub onto_first : ℕ → List Text → List Text
onto_first c [] = (c ∷ []) ∷ []
onto_first c (t ∷ ts) = (c ∷ t) ∷ ts

abbrev pub read_texts : Text → List Text
read_texts [] = []
read_texts (zero ∷ s) = [] ∷ read_texts s
read_texts (suc c ∷ s) = onto_first c (read_texts s)

abbrev pub in_pairs : List Text → ConfigMap
in_pairs [] = []
in_pairs (k ∷ []) = []
in_pairs (k ∷ v ∷ ts) = (k, v) ∷ in_pairs ts

pub read-write_then : (s rest : Text) → read_texts (write_then s rest) ≡ s ∷ read_texts rest
read-write_then [] rest = refl
read-write_then (c ∷ s) rest = ap (onto_first c) (read-write_then s rest)

read-write_map : (m : ConfigMap) → in_pairs (read_texts (write_map m)) ≡ m
read-write_map [] = refl
read-write_map ((k, v) ∷ m) =
    ap in_pairs (
      read-write_then k (write_then v (write_map m))
      ∙ ap (λ ts. k ∷ ts) (read-write_then v (write_map m)))
    ∙ ap (λ m. (k, v) ∷ m) (read-write_map m)

abbrev pub marshal_map : ConfigMap → Text
marshal_map m = 1 ∷ write_map m

abbrev pub unmarshal_map : Text → Result ConfigMap
unmarshal_map [] = err (crypto 1)
unmarshal_map (c ∷ s) = ok (in_pairs (read_texts s))

pub unmarshal-marshal_map : (m : ConfigMap) → unmarshal_map (marshal_map m) ≡ ok m
unmarshal-marshal_map m = ap ok (read-write_map m)

abbrev pub vault : Vault
vault = record {
  cipher = plain_cipher;
  secret_key = text "key";
  marshal_map = marshal_map;
  unmarshal_map = unmarshal_map;
  unmarshal-marshal = unmarshal-marshal_map;
  marshal_map-nonempty = λ m. refl;
}
