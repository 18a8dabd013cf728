-- ===== src/Server/CertReload/Loads.antt =====
-- pkg/server/certreload.go: the cases of load, of fingerprint and of the reload.
use talosctl_oidc.Base.{
  ℕ, ◌+◌, ◌≡◌, ◌⊎◌, inl, inr, refl, true, false, some, ok, arith, Option-cases, Bool-cases,
  Result-cases,
}
use talosctl_oidc.Server.CertReload.{
  File, Disk, Stamp, is_same, stamp_of, CertReloader, fingerprint, load_x509_key_pair, load, reload,
}

module _ {C : Type 0} (disk : Disk C) where
  pub load-ok :
      (t : ℕ) {c : C} {stamp : Stamp}
      → load disk t ≡ ok (c, stamp)
      → (fingerprint disk t ≡ ok stamp) × (load_x509_key_pair disk (t + 2) ≡ ok c)
  unfolding load
  load-ok t {c} {stamp} h = elim (Result-cases (fingerprint disk t)) [
    | inr (e, f) ↦ ground arith
    | inl (s, f) ↦ elim (Result-cases (load_x509_key_pair disk (t + 2))) [
      | inr (e, g) ↦ ground arith
      | inl (d, g) ↦ ground arith
    ]
  ]

  pub fingerprint-ok :
      (t : ℕ) {stamp : Stamp}
      → fingerprint disk t ≡ ok stamp
      → (cert : File) × (key : File) × (disk.cert_file t ≡ some cert)
        × (disk.key_file (t + 1) ≡ some key)
        × (stamp ≡ stamp_of cert key)
  unfolding fingerprint
  fingerprint-ok t {stamp} h = elim (Option-cases (disk.cert_file t)) [
    | inl e ↦ ground arith
    | inr (cert, e) ↦ elim (Option-cases (disk.key_file (t + 1))) [
      | inl g ↦ ground arith
      | inr (key, g) ↦ (cert, key, e, g, ground arith)
    ]
  ]

  pub reload-same :
      (t : ℕ) (r : CertReloader C) {stamp : Stamp}
      → fingerprint disk t ≡ ok stamp
      → is_same stamp r.stamp ≡ true
      → reload disk t r ≡ r
  unfolding reload
  reload-same t r f same = rw (f, same, reload) refl

  pub reload-new :
      (t : ℕ) (r : CertReloader C) {stamp : Stamp} {a : C × Stamp}
      → fingerprint disk t ≡ ok stamp
      → is_same stamp r.stamp ≡ false
      → load disk (t + 2) ≡ ok a
      → reload disk t r ≡ record r { cert = a.0; stamp = a.1 }
  unfolding reload
  reload-new t r f other l = rw (f, other, l, reload) refl

  -- A reload keeps the certificate and the stamp, or has both from its own load.
  pub reload-cases :
      (t : ℕ) (r : CertReloader C)
      → (reload disk t r ≡ r)
        ⊎ ((a : C × Stamp) × (load disk (t + 2) ≡ ok a)
            × (reload disk t r ≡ record r { cert = a.0; stamp = a.1 }))
  unfolding reload
  reload-cases t r = elim (Result-cases (fingerprint disk t)) [
    | inr (e, f) ↦ inl (ground arith)
    | inl (s, f) ↦ elim (Bool-cases (is_same s r.stamp)) [
      | inl same ↦ inl (ground arith)
      | inr other ↦ elim (Result-cases (load disk (t + 2))) [
        | inr (e, g) ↦ inl (ground arith)
        | inl (a, g) ↦ inr (a, g, ground arith)
      ]
    ]
  ]
