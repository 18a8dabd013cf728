-- ===== src/Server.antt =====
-- pkg/server/server.go: the state of the certificate exchange server, its configuration, and the
-- responses that its handlers write.
pub mod CertReload
pub mod SelfSigned
pub mod Tokens
pub mod Exchange
pub mod Guards
pub mod Toy
pub mod Dashboard
use talosctl_oidc.Base.{ℕ, String, Bool, List, [], ◌∷◌, Option, none, some}
use talosctl_oidc.Audit.{Event, Logger, log}
use talosctl_oidc.Admin.{Tracker, CertRecord, Stats}
use talosctl_oidc.Anomaly.{Detector}
use talosctl_oidc.Rbac.{Mapper}
use talosctl_oidc.TalosApi.{Issuer}
use talosctl_oidc.Oidc.JwksCache.{Cache}

pub record Config : Type 0 where
  pub issuer : Issuer
  pub cert_ttl : ℕ
  pub roles : List String
  pub issuer_url : String
  pub client_id : String
  pub client_secret : String
  pub endpoints : List String
  pub admin_token : String
  pub rbac_mapper : Option Mapper

-- What the listeners of the audit logger keep: the admin tracker and the certificate log's file.
pub record Sinks : Type 0 where
  pub tracker : Tracker
  pub cert_log : List String

-- What the exchange reads and changes, behind its middleware.
pub record Server : Type 0 where
  pub cfg : Config
  pub jwks_cache : Option Cache
  pub detector : Option Detector
  pub audit : Option (Logger Sinks)

pub record CertResponse : Type 0 where
  pub ca : String
  pub cert : String
  pub key : String
  pub endpoints : List String
  pub ttl_seconds : ℕ

pub data Body : Type 0 where
  error : String → Body
  text : String → Body
  pem : String → Body
  certificate : CertResponse → Body
  stats : Stats → Body
  certs : List CertRecord → Body

pub record Response : Type 0 where
  pub status : ℕ
  pub body : Body

abbrev pub write_error : ℕ → String → Response
write_error status msg = record { status = status; body = error msg }

abbrev pub write_json : Body → Response
write_json body = record { status = 200; body = body }

-- auditLog: nothing happens without a logger.
unfoldable pub audit_log : (Event → Option String) → ℕ → Event → Server → Server
audit_log marshal now event s = elim s.audit [
  | none ↦ s
  | some logger ↦ record s { audit = some (log marshal now event logger) }
]
