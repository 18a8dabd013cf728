-- ===== src/Oidc/Toy.antt =====
-- A small key, token and provider, for the runs of the token checks. The parameters are filled with
-- concrete functions: base64 knows four words, and a signature is good where it is the byte 3.
use talosctl_oidc.Base.{
  ◌==◌, String, Bool, false, [], ◌∷◌, none, some, if◌then◌else◌, eqb, pos, ◌&&◌,
}
use talosctl_oidc.Claims.{Claims, str, num}
use talosctl_oidc.Oidc.Jwks.{Jwk, Jwks}
use talosctl_oidc.Oidc.Signature.{Bytes, Crypto}
use talosctl_oidc.Oidc.Jwt.{Header, Json}

abbrev pub is_three : Bytes → Bool
is_three [] = false
is_three (b ∷ bs) = eqb b 3

abbrev pub crypto : Crypto
crypto = record {
  decode = λ s.
      if s == "h"
      then some (1 ∷ [])
      else if s == "p"
      then some (2 ∷ [])
      else if s == "s"
      then some (3 ∷ [])
      else some (1 ∷ 0 ∷ 1 ∷ []);
  rsa_verify = λ hash n e input signature. eqb e 65537 && is_three signature;
  parse_point = λ curve x y. none;
  ecdsa_verify = λ hash curve point input signature. false;
  ed25519_verify = λ x input signature. false;
  hmac_verify = λ hash secret input signature. is_three signature;
}

abbrev pub header : Header
header = record { alg = "RS256"; kid = "k1" }

abbrev pub claims : Claims
claims =
    ("iss", str "https://idp/")
    ∷ ("aud", str "talos")
    ∷ ("exp", num (pos 1000))
    ∷ ("sub", str "alice")
    ∷ ("groups", str "ops")
    ∷ []

abbrev pub json : Json
json = record { header_of = λ bytes. some header; claims_of = λ bytes. some claims }

abbrev pub key : Jwk
key = record {
  kty = "RSA";
  use_for = "sig";
  kid = "k1";
  alg = "RS256";
  n = "n";
  e = "AQAB";
  crv = "";
  x = "";
  y = "";
}

abbrev pub other_key : Jwk
other_key = record key { kid = "k0" }

abbrev pub jwks : Jwks
jwks = record { keys = other_key ∷ key ∷ [] }

abbrev pub raw : String
raw = "h.p.s"
