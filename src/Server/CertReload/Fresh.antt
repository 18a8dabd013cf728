-- ===== src/Server/CertReload/Fresh.antt =====
-- pkg/server/certreload.go: that a rotation of the files is picked up.
use talosctl_oidc.Base.{
  ℕ, ◌+◌, ◌≤◌, ◌≡◌, ap, sym, subst, ◌∙◌, inl, inr, refl, true, false, Option, some, Result, ok, ltb,
  arith, Bool-cases,
}
use talosctl_oidc.Server.CertReload.{
  File, Disk, Stamp, is_same, stamp_of, ReloadError, CertReloader, fingerprint, load_x509_key_pair,
  load, reload, refresh, get_certificate,
}
use talosctl_oidc.Server.CertReload.Loads.{fingerprint-ok, reload-same, reload-new}
use talosctl_oidc.Server.CertReload.Matched.{Loaded, Reached, Reached-Loaded}

module _ {C : Type 0} (disk : Disk C) where
  -- From the moment `t` on, the files are these two.
  abbrev pub Settled : ℕ → File → File → Type 0
  Settled t cert key =
      ((j : ℕ) → t ≤ j → disk.cert_file j ≡ some cert)
      × ((j : ℕ) → t ≤ j → disk.key_file j ≡ some key)

  -- A file that once had the size and the modification time that it has at the end has been the same since.
  abbrev pub KeepsTime : (ℕ → Option File) → File → Type 0
  KeepsTime file last =
      (i j : ℕ) (f : File)
      → file i ≡ some f
      → f.size ≡ last.size
      → f.modified ≡ last.modified
      → i ≤ j
      → file j ≡ some last

  module _ (cert key : File) (c : C) (made : disk.keypair cert.content key.content ≡ some c) where
    load_x509_key_pair-some :
        (t : ℕ)
        → disk.cert_file t ≡ some cert
        → disk.key_file (t + 1) ≡ some key
        → load_x509_key_pair disk t ≡ ok c
    unfolding load_x509_key_pair
    load_x509_key_pair-some t f g = rw (f, g, made, load_x509_key_pair) refl

    same_files :
        (old_cert old_key : File) (stamp : Stamp)
        → stamp ≡ stamp_of old_cert old_key
        → is_same (stamp_of cert key) stamp ≡ true
        → (old_cert.size ≡ cert.size)
          × (old_cert.modified ≡ cert.modified)
          × (old_key.size ≡ key.size)
          × (old_key.modified ≡ key.modified)
    same_files old_cert old_key stamp e same =
        let equal = subst (λ x. is_same (stamp_of cert key) x ≡ true) e same in
        (ground arith, ground arith, ground arith, ground arith)

    ok-eq : {a b : C} → ◌≡◌ {A = Result ReloadError C} (ok a) (ok b) → a ≡ b
    ok-eq h = cc

    -- A certificate that came with the stamp of the last files is made of them.
    Loaded-same :
        (m : ℕ) (loaded : C) (stamp : Stamp)
        → KeepsTime disk.cert_file cert
        → KeepsTime disk.key_file key
        → Loaded disk m loaded stamp
        → is_same (stamp_of cert key) stamp ≡ true
        → loaded ≡ c
    Loaded-same m loaded stamp cert_keeps key_keeps (t, h, f, l) same =
        let parts = fingerprint-ok disk t {stamp = stamp} f in
        let sizes = same_files parts.0 parts.1 stamp parts.4 same in
        let at_cert = cert_keeps t (t + 2) parts.0 parts.2 sizes.0 sizes.1 (omega arith) in
        let at_key = key_keeps (t + 1) (t + 2 + 1) parts.1 parts.3 sizes.2 sizes.3 (omega arith) in
        ok-eq (sym l ∙ load_x509_key_pair-some (t + 2) at_cert at_key)

    fingerprint-Settled : (t : ℕ) → Settled t cert key → fingerprint disk t ≡ ok (stamp_of cert key)
    unfolding fingerprint
    fingerprint-Settled t (certs, keys) =
        rw (certs t (omega arith), keys (t + 1) (omega arith), fingerprint) refl

    load-Settled : (t : ℕ) → Settled t cert key → load disk t ≡ ok (c, stamp_of cert key)
    unfolding load
    load-Settled t (certs, keys) =
        rw
          (
            fingerprint-Settled t (certs, keys),
            load_x509_key_pair-some (t + 2) (certs (t + 2) (omega arith))
                (keys (t + 2 + 1) (omega arith)),
            load,
          )
          refl

    Settled-later : (t n : ℕ) → t ≤ n → Settled t cert key → Settled n cert key
    Settled-later t n h (certs, keys) = (λ j l. certs j (omega arith), λ j l. keys j (omega arith))

    reload-Settled :
        (m t : ℕ) (r : CertReloader C)
        → Settled t cert key
        → KeepsTime disk.cert_file cert
        → KeepsTime disk.key_file key
        → Loaded disk m r.cert r.stamp
        → (reload disk t r).cert ≡ c
    reload-Settled m t r settled cert_keeps key_keeps loaded =
        let f = fingerprint-Settled t settled in
        elim (Bool-cases (is_same (stamp_of cert key) r.stamp)) [
          | inl same ↦
              ap (λ x. x.cert) (reload-same disk t r f same)
              ∙ Loaded-same m r.cert r.stamp cert_keeps key_keeps loaded same
          | inr other ↦
              ap (λ x. x.cert)
                (reload-new disk t r f other
                  (load-Settled (t + 2) (Settled-later t (t + 2) (omega arith) settled)))
        ]

    -- A rotation is picked up: where, from the moment of a handshake on, the two files stay as they
    -- are and make a certificate, a file that has the size and the time it had earlier is unchanged
    -- since, and the interval has passed since the last check of the state that the handshake saw
    -- and of the one that it then found, GetCertificate serves the certificate of these files,
    -- whatever was loaded before and whatever the files were in between.
    pub get_certificate-Settled :
        (n t now later : ℕ) (seen r : CertReloader C)
        → Reached disk n r
        → Settled t cert key
        → KeepsTime disk.cert_file cert
        → KeepsTime disk.key_file key
        → seen.last_check + seen.interval ≤ now
        → r.last_check + r.interval ≤ later
        → (get_certificate disk t now later seen r).1 ≡ c
    unfolding get_certificate refresh
    get_certificate-Settled n t now later seen r reached settled cert_keeps key_keeps due still =
        let first : ltb now (seen.last_check + seen.interval) ≡ false = ground arith in
        let second : ltb later (r.last_check + r.interval) ≡ false = ground arith in
        rw (first, second)
          (reload-Settled n t (record r { last_check = later }) settled cert_keeps key_keeps
            (Reached-Loaded disk n r reached))
