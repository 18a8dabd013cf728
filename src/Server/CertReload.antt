-- ===== src/Server/CertReload.antt =====
-- pkg/server/certreload.go: the reloading of the server's own certificate. What the disk holds
-- is a parameter: each file at each moment, where every stat and every read takes a moment of its own,
-- in the order of the code. So the files may change between any two of them. The times that the code reads are
-- arguments. tls.LoadX509KeyPair, once both files are read, is the parameter `keypair`.
mod Loads
pub mod Matched
pub mod Fresh
mod Examples
use talosctl_oidc.Base.{
  ℕ, ◌+◌, String, Bool, true, false, ◌&&◌, Option, none, some, Result, ok, err, if◌then◌else◌, eqb,
  ltb,
}

pub record File : Type 0 where
  pub size : ℕ
  pub modified : ℕ
  pub content : String

pub record Disk (C : Type 0) : Type 0 where
  pub cert_file : ℕ → Option File
  pub key_file : ℕ → Option File
  pub keypair : String → String → Option C

-- The four numbers that `fingerprint` prints, with a slash between them.
pub record Stamp : Type 0 where
  pub cert_size : ℕ
  pub cert_modified : ℕ
  pub key_size : ℕ
  pub key_modified : ℕ

abbrev pub is_same : Stamp → Stamp → Bool
is_same a b =
    eqb a.cert_size b.cert_size
    && eqb a.cert_modified b.cert_modified
    && eqb a.key_size b.key_size
    && eqb a.key_modified b.key_modified

abbrev pub stamp_of : File → File → Stamp
stamp_of cert key = record {
  cert_size = cert.size;
  cert_modified = cert.modified;
  key_size = key.size;
  key_modified = key.modified;
}

pub data ReloadError : Type 0 where
  no_cert no_key bad_pair : ReloadError

pub record CertReloader (C : Type 0) : Type 0 where
  pub interval : ℕ
  pub cert : C
  pub stamp : Stamp
  pub last_check : ℕ

module _ {C : Type 0} (disk : Disk C) where
  -- fingerprint, from the moment `t`.
  unfoldable pub fingerprint : ℕ → Result ReloadError Stamp
  fingerprint t = elim (disk.cert_file t) [
    | none ↦ err no_cert
    | some cert ↦ elim (disk.key_file (t + 1)) [
      | none ↦ err no_key
      | some key ↦ ok (stamp_of cert key)
    ]
  ]

  -- tls.LoadX509KeyPair reads the two files.
  unfoldable pub load_x509_key_pair : ℕ → Result ReloadError C
  load_x509_key_pair t = elim (disk.cert_file t) [
    | none ↦ err bad_pair
    | some cert ↦ elim (disk.key_file (t + 1)) [
      | none ↦ err bad_pair
      | some key ↦ elim (disk.keypair cert.content key.content) [
        | none ↦ err bad_pair
        | some c ↦ ok c
      ]
    ]
  ]

  unfoldable pub load : ℕ → Result ReloadError (C × Stamp)
  load t = elim (fingerprint t) [
    | err e ↦ err e
    | ok stamp ↦ elim (load_x509_key_pair (t + 2)) [ err e ↦ err e | ok cert ↦ ok (cert, stamp) ]
  ]

  unfoldable pub new_cert_reloader : ℕ → ℕ → ℕ → Result ReloadError (CertReloader C)
  new_cert_reloader interval t now = elim (load t) [
    | err e ↦ err e
    | ok (cert, stamp) ↦
        ok (record { interval = interval; cert = cert; stamp = stamp; last_check = now })
  ]

  -- The second half of refresh, behind the check of the interval.
  unfoldable pub reload : ℕ → CertReloader C → CertReloader C
  reload t r = elim (fingerprint t) [
    | err e ↦ r
    | ok stamp ↦ if is_same stamp r.stamp then r else elim (load (t + 2)) [
      | err e ↦ r
      | ok (cert, loaded) ↦ record r { cert = cert; stamp = loaded }
    ]
  ]

  -- refresh under its lock; the certificate to serve is that of the new state.
  unfoldable pub refresh : ℕ → ℕ → CertReloader C → CertReloader C
  refresh t now r =
      if ltb now (r.last_check + r.interval) then r else reload t (record r { last_check = now })

  -- GetCertificate: `seen` is the state under the read lock, `r` the one that refresh finds, which
  -- another goroutine may have refreshed.
  unfoldable pub get_certificate : ℕ → ℕ → ℕ → CertReloader C → CertReloader C → CertReloader C × C
  get_certificate t now later seen r =
      if ltb now (seen.last_check + seen.interval)
      then (r, seen.cert)
      else (refresh t later r, (refresh t later r).cert)
