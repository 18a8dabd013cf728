-- ===== src/Server/SelfSigned.antt =====
-- pkg/server/server.go: the server's own certificate where none is configured, generated and kept in
-- four files. The generation, tls.X509KeyPair and the end of a certificate's life are parameters, as is
-- what becomes of each write.
pub mod Restart
mod Examples
use talosctl_oidc.Base.{
  ℕ, ◌+◌, ◌*◌, ◌==◌, String, Bool, true, false, not, List, [], ◌∷◌, Option, none, some, Result, ok,
  err, if◌then◌else◌,
}
use talosctl_oidc.Clock.{hour, after}

-- The four files; none is a file that is not there. A file that is there can be read.
pub record Files : Type 0 where
  pub ca_crt : Option String
  pub ca_key : Option String
  pub server_crt : Option String
  pub server_key : Option String

pub record Material : Type 0 where
  pub ca_pem : String
  pub ca_key_pem : String
  pub cert_pem : String
  pub key_pem : String

pub data TlsError : Type 0 where
  not_exist not_a_pair unparsable cert_expired not_generated : TlsError

pub record Maker (C : Type 0) : Type 0 where
  pub keypair : String → String → Option C
  -- The NotAfter of the certificate, where its leaf parses.
  pub not_after : C → Option ℕ
  -- The material of generateSelfSignedMaterial, none where a step of it fails, which ends the start.
  pub generated : Option Material

-- What becomes of a write: it is done, or it fails and leaves something.
pub data Write : Type 0 where
  done : Write
  failed : Option String → Write

pub record Writes : Type 0 where
  pub makes_directory : Bool
  pub ca_crt : Write
  pub ca_key : Write
  pub server_crt : Write
  pub server_key : Write

abbrev pub is_done : Write → Bool
is_done done = true
is_done (failed left) = false

-- os.WriteFile: what the file holds after it.
abbrev pub written : String → Write → Option String
written content done = some content
written content (failed left) = left

-- The state: the PEM that `/ca` serves, and the files.
pub record SelfSigned : Type 0 where
  pub ca_pem : String
  pub files : Files

-- The next process: the files stay, and `selfSignedCAPEM` of its Server is not set.
unfoldable pub restart : SelfSigned → SelfSigned
restart s = record s { ca_pem = "" }

-- The four writes, up to the first that fails.
unfoldable pub write_all : Writes → Material → Files → Files
write_all w x files =
    let files₁ : Files = record files { ca_crt = written x.ca_pem w.ca_crt } in
    let files₂ : Files = record files₁ { ca_key = written x.ca_key_pem w.ca_key } in
    let files₃ : Files = record files₂ { server_crt = written x.cert_pem w.server_crt } in
    let files₄ : Files = record files₃ { server_key = written x.key_pem w.server_key } in
    if not (is_done w.ca_crt)
    then files₁
    else if not (is_done w.ca_key)
    then files₂
    else if not (is_done w.server_crt)
    then files₃
    else files₄

unfoldable pub persist : Writes → Material → Files → Files
persist w x files = if w.makes_directory then write_all w x files else files

-- Which errors of the loading lead to a new certificate.
abbrev pub regenerates : TlsError → Bool
regenerates not_exist = true
regenerates cert_expired = true
regenerates e = false

module _ {C : Type 0} (m : Maker C) where
  -- tls.LoadX509KeyPair
  unfoldable pub load_x509_key_pair : Files → Result TlsError C
  load_x509_key_pair files = elim files.server_crt [
    | none ↦ err not_exist
    | some cert ↦ elim files.server_key [
      | none ↦ err not_exist
      | some key ↦ elim (m.keypair cert key) [ none ↦ err not_a_pair | some c ↦ ok c ]
    ]
  ]

  -- A day before the end the certificate is stale.
  unfoldable pub check_leaf : ℕ → C → Result TlsError C
  check_leaf now c = elim (m.not_after c) [
    | none ↦ err unparsable
    | some expiry ↦ if after (now + 24 * hour) expiry then err cert_expired else ok c
  ]

  unfoldable pub check_ca_key : Files → C → Result TlsError C
  check_ca_key files c = elim files.ca_key [ none ↦ err not_exist | some key ↦ ok c ]

  unfoldable pub check_files : ℕ → Files → Result TlsError C
  check_files now files = elim (load_x509_key_pair files) [
    | err e ↦ err e
    | ok c ↦ elim (check_leaf now c) [ err e ↦ err e | ok d ↦ check_ca_key files d ]
  ]

  -- loadPersistedSelfSignedTLS; the CA is set before the rest is read.
  unfoldable pub load_persisted : ℕ → SelfSigned → SelfSigned × Result TlsError C
  load_persisted now s = elim s.files.ca_crt [
    | none ↦ (s, err not_exist)
    | some ca ↦ (record s { ca_pem = ca }, check_files now s.files)
  ]

  -- generateSelfSignedMaterial, with the pair that it makes of its own PEM.
  unfoldable pub generate : SelfSigned → SelfSigned × Result TlsError (C × Material)
  generate s = elim m.generated [
    | none ↦ (s, err not_generated)
    | some x ↦ (
      record s { ca_pem = x.ca_pem },
      elim (m.keypair x.cert_pem x.key_pem) [ none ↦ err not_generated | some c ↦ ok (c, x) ],
    )
  ]

  unfoldable pub keep_generated :
      Writes → SelfSigned × Result TlsError (C × Material) → SelfSigned × Result TlsError C
  keep_generated w (s, err e) = (s, err e)
  keep_generated w (s, ok (c, x)) = (record s { files = persist w x s.files }, ok c)

  unfoldable pub after_load :
      Writes → SelfSigned × Result TlsError C → SelfSigned × Result TlsError C
  after_load w (s, ok c) = (s, ok c)
  after_load w (s, err e) = if regenerates e then keep_generated w (generate s) else (s, err e)

  -- loadOrGenerateSelfSignedTLS
  unfoldable pub load_or_generate : ℕ → Writes → SelfSigned → SelfSigned × Result TlsError C
  load_or_generate now w s = after_load w (load_persisted now s)

  -- generateSelfSignedTLSInMemory
  unfoldable pub in_memory : SelfSigned → SelfSigned × Result TlsError C
  in_memory s = elim (generate s).1 [
    | err e ↦ ((generate s).0, err e)
    | ok made ↦ ((generate s).0, ok made.0)
  ]

  unfoldable pub generate_self_signed_tls :
      String → ℕ → Writes → SelfSigned → SelfSigned × Result TlsError C
  generate_self_signed_tls data_dir now w s =
      if not (data_dir == "") then load_or_generate now w s else in_memory s
