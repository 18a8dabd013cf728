-- ===== src/TalosApi.antt =====
-- pkg/talosapi/talosapi.go: a certificate from the Talos API. The machinery client is a
-- parameter: what `client.New` and GenerateClientConfiguration answer.
use talosctl_oidc.Base.{
  ℕ, ◌==◌, String, List, [], ◌∷◌, ◌++◌, Result, ok, err, if◌then◌else◌, is_empty,
}

pub record ClientCertificate : Type 0 where
  pub cert_pem : String
  pub key_pem : String
  pub ca_pem : String

pub record Issuer : Type 0 where
  pub talos_config_path : String
  pub endpoints : List String

unfoldable pub new_issuer : String → List String → Issuer
new_issuer path endpoints = record { talos_config_path = path; endpoints = endpoints }

pub data ClientOption : Type 0 where
  config_from_file : String → ClientOption
  default_config : ClientOption
  with_endpoints : List String → ClientOption

pub data IssueError : Type 0 where
  no_client generation_failed no_configuration : IssueError

-- A client is given by its options; a message of the answer holds the certificate.
pub record Machinery : Type 0 where
  pub connect : List ClientOption → Result IssueError (Unit {0})
  pub generate : List ClientOption → List String → ℕ → Result IssueError (List ClientCertificate)

unfoldable pub options : Issuer → List ClientOption
options i =
    (if i.talos_config_path == ""
      then default_config ∷ []
      else config_from_file i.talos_config_path ∷ [])
    ++ (if is_empty i.endpoints then [] else with_endpoints i.endpoints ∷ [])

unfoldable pub issue : Machinery → Issuer → List String → ℕ → Result IssueError ClientCertificate
issue talos i roles ttl = elim (talos.connect (options i)) [
  | err e ↦ err no_client
  | ok u ↦ elim (talos.generate (options i) roles ttl) [
    | err e ↦ err generation_failed
    | ok msgs ↦ elim msgs [ [] ↦ err no_configuration | m ∷ ms ↦ ok m ]
  ]
]
