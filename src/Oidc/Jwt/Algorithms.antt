-- ===== src/Oidc/Jwt/Algorithms.antt =====
-- With the default list of algorithms, which the server always uses.
use talosctl_oidc.Base.Fallible.{◌>>=◌}
use talosctl_oidc.Base.{
  Bool-cases, inl, inr, ℕ, ◌≡◌, refl, String, true, false, [], ◌∷◌, some, ok, err, contains, sym,
  ◌∙◌, contains-mem,
}
use mathlib.Core.Bool.{false≢true}
use mathlib.Core.List.{Memᴰ}
use talosctl_oidc.Text.{split}
use talosctl_oidc.Text.Laws.{◌+++◌}
use talosctl_oidc.Claims.{Claims}
use talosctl_oidc.Oidc.Jwks.{Jwk, Jwks, hmac_algs}
use talosctl_oidc.Oidc.Jwks.Choice.{IsFirst, Chosen, find_key-IsFirst, suits-Chosen}
use talosctl_oidc.Oidc.Signature.{Bytes, Crypto, verify_signature}
use talosctl_oidc.Oidc.Signature.KeyTypes.{Suited, verify_signature-kty}
use talosctl_oidc.Oidc.Jwt.{
  Header, Json, Checked, bad_header_encoding, bad_header, bad_signature_encoding, default_algs,
  or_fail, three_parts, check_alg, check_signature, validate_id_token,
}
use talosctl_oidc.Oidc.Jwt.Accepted.{Signed, by_secret, by_key, Accepted}
use talosctl_oidc.Oidc.Jwt.Sound.{check_alg-eq-ok, validate-Accepted}

hmac_not_default :
    (alg : String) → contains alg hmac_algs ≡ true → contains alg default_algs ≡ false
hmac_not_default alg h = go (contains-mem alg hmac_algs h)
  where
    go : Memᴰ alg hmac_algs → contains alg default_algs ≡ false
    go (Memᴰ.head e) = rw e
    go (Memᴰ.tail (Memᴰ.head e)) = rw e
    go (Memᴰ.tail (Memᴰ.tail (Memᴰ.head e))) = rw e
    go (Memᴰ.tail (Memᴰ.tail (Memᴰ.tail m))) = elim m [ ]

module _ (crypto : Crypto) (json : Json) where
  -- Whose key signed the token: the first key of the set that the header asks for.
  pub record SignedByKey (raw : String) (jwks : Jwks) : Type 0 where
    pub head : String
    pub payload : String
    pub mac : String
    pub parts : split b'.' raw ≡ head ∷ payload ∷ mac ∷ []
    pub head_bytes : Bytes
    pub head_decodes : crypto.decode head ≡ some head_bytes
    pub header : Header
    pub head_parses : json.header_of head_bytes ≡ some header
    pub signature : Bytes
    pub signature_decodes : crypto.decode mac ≡ some signature
    pub key : Jwk
    pub first : IsFirst jwks.keys header.kid header.alg key
    pub chosen : Chosen header.kid header.alg key
    pub verified :
        verify_signature crypto header.alg key (head +++ ("." +++ payload)) signature ≡ true
    pub suited : Suited key header.alg

  -- With the default algorithms, whatever the client's secret is, an accepted token was verified
  -- with the first key of the set that its header asks for, under an algorithm that is neither an HMAC
  -- one nor "none", and the type of that key is the one that the token's algorithm is for. Where the
  -- header names a key id, the key has that id; where it names none, the key has no algorithm of its own
  -- or that of the token.
  pub validate-SignedByKey :
      (now : ℕ) (raw : String) (jwks : Jwks) (issuer client secret : String) (claims : Claims)
      → validate_id_token crypto json now raw jwks issuer client secret [] ≡ ok claims
      → SignedByKey raw jwks
  validate-SignedByKey now raw jwks issuer client secret claims h =
      let a = validate-Accepted crypto json now raw jwks issuer client secret [] claims h in
      of_signed a a.signed
    where
      of_signed :
          (a : Accepted crypto json now raw jwks issuer client secret [] claims)
          → Signed crypto jwks secret a.header (a.head +++ ("." +++ a.payload)) a.signature
          → SignedByKey raw jwks
      of_signed a (by_secret hmac _ _) =
          absurd (false≢true (sym (hmac_not_default a.header.alg hmac) ∙ a.listed))
      of_signed a (by_key k other found good) =
          let first = find_key-IsFirst jwks.keys a.header.kid a.header.alg found in
          record {
            head = a.head;
            payload = a.payload;
            mac = a.mac;
            parts = a.parts;
            head_bytes = a.head_bytes;
            head_decodes = a.head_decodes;
            header = a.header;
            head_parses = a.head_parses;
            signature = a.signature;
            signature_decodes = a.signature_decodes;
            key = k;
            first = first;
            chosen = suits-Chosen a.header.kid a.header.alg k first.fits;
            verified = good;
            suited = verify_signature-kty crypto a.header.alg k _ a.signature good;
          }

  bind_cong :
      {A B : Type 0} (m : Checked A) (f g : A → Checked B)
      → ((a : A) → m ≡ ok a → f a ≡ g a)
      → (m >>= f) ≡ (m >>= g)
  bind_cong (ok a) f g h = h a refl
  bind_cong (err e) f g h = refl

  check_signature_secret :
      (jwks : Jwks) (secret other : String) (header : Header) (input : String) (signature : Bytes)
      → contains header.alg default_algs ≡ true
      → check_signature crypto json jwks secret header input signature
        ≡ check_signature crypto json jwks other header input signature
  unfolding check_signature
  check_signature_secret jwks secret other header input signature listed =
      elim (Bool-cases (contains header.alg hmac_algs)) [
        | inl hmac ↦ absurd (false≢true (sym (hmac_not_default header.alg hmac) ∙ listed))
        | inr key ↦ rw key
      ]

  -- With the default algorithms the client's secret plays no part in the validation of a token:
  -- under any two secrets the result is the same.
  pub validate_secret :
      (now : ℕ) (raw : String) (jwks : Jwks) (issuer client secret other : String)
      → validate_id_token crypto json now raw jwks issuer client secret []
        ≡ validate_id_token crypto json now raw jwks issuer client other []
  unfolding validate_id_token
  validate_secret now raw jwks issuer client secret other =
      bind_cong (three_parts (split b'.' raw)) _ _ λ p _.
        bind_cong (or_fail (crypto.decode p.0) bad_header_encoding) _ _ λ head_bytes _.
          bind_cong (or_fail (json.header_of head_bytes) bad_header) _ _ λ header _.
            bind_cong (check_alg [] header.alg) _ _ λ _ checked.
              bind_cong (or_fail (crypto.decode p.2) bad_signature_encoding) _ _ λ signature _. rw (
                check_signature_secret jwks secret other header (p.0 +++ ("." +++ p.1)) signature
                  (check_alg-eq-ok [] header.alg checked).2)
