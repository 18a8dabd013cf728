-- ===== src/Server/CertReload/Matched.antt =====
-- pkg/server/certreload.go: the states of the reloader that the server reaches, and the pairs it serves.
use talosctl_oidc.Base.{
  ℕ, ◌+◌, ◌≤◌, ◌≡◌, sym, subst, inl, inr, ok, ltb, arith, Bool-cases, Result-cases,
}
use talosctl_oidc.Server.CertReload.{
  Disk, Stamp, CertReloader, fingerprint, load_x509_key_pair, load, new_cert_reloader, reload,
  refresh, get_certificate,
}
use talosctl_oidc.Server.CertReload.Loads.{load-ok, reload-cases}

module _ {C : Type 0} (disk : Disk C) where
  -- The state comes from one load that was over before the moment `m`: its stamp is of files that
  -- were on disk no later than the contents its certificate is made of.
  abbrev pub Loaded : ℕ → C → Stamp → Type 0
  Loaded m c stamp =
      (t : ℕ) × (t + 4 ≤ m)
      × (fingerprint disk t ≡ ok stamp)
      × (load_x509_key_pair disk (t + 2) ≡ ok c)

  -- The states that the goroutines of the server bring about, each with the moment it is
  -- there from: refresh holds the lock, so they come one after another.
  pub data Reached : ℕ → CertReloader C → Type 0 where
    started :
        (interval t now : ℕ) {r : CertReloader C}
        → new_cert_reloader disk interval t now ≡ ok r
        → Reached (t + 4) r
    refreshed :
        {m : ℕ} (t now : ℕ) {r : CertReloader C}
        → Reached m r
        → m ≤ t
        → Reached (t + 6) (refresh disk t now r)

  new_cert_reloader-Loaded :
      (interval t now : ℕ) {r : CertReloader C}
      → new_cert_reloader disk interval t now ≡ ok r
      → Loaded (t + 4) r.cert r.stamp
  unfolding new_cert_reloader
  new_cert_reloader-Loaded interval t now {r} h = elim (Result-cases (load disk t)) [
    | inr (e, f) ↦ ground arith
    | inl (a, f) ↦
        let l = load-ok disk t {c = a.0} {stamp = a.1} f in
        (t, omega arith, ground (arith, l.0), ground (arith, l.1))
  ]

  Loaded-later : (m n : ℕ) (c : C) (stamp : Stamp) → m ≤ n → Loaded m c stamp → Loaded n c stamp
  Loaded-later m n c stamp h (t, k, f, l) = (t, omega arith, f, l)

  reload-Loaded :
      (m t : ℕ) (r : CertReloader C)
      → m ≤ t
      → Loaded m r.cert r.stamp
      → Loaded (t + 6) (reload disk t r).cert (reload disk t r).stamp
  reload-Loaded m t r before l = elim (reload-cases disk t r) [
    | inl kept ↦
        subst (λ x. Loaded (t + 6) x.cert x.stamp) (sym kept)
          (Loaded-later m (t + 6) r.cert r.stamp (omega arith) l)
    | inr (a, g, e) ↦
        let new = load-ok disk (t + 2) {c = a.0} {stamp = a.1} g in
        subst (λ x. Loaded (t + 6) x.cert x.stamp) (sym e) (t + 2, omega arith, new.0, new.1)
  ]

  refresh-Loaded :
      (m t now : ℕ) (r : CertReloader C)
      → m ≤ t
      → Loaded m r.cert r.stamp
      → Loaded (t + 6) (refresh disk t now r).cert (refresh disk t now r).stamp
  unfolding refresh
  refresh-Loaded m t now r before l = elim (Bool-cases (ltb now (r.last_check + r.interval))) [
    | inl early ↦ rw early (Loaded-later m (t + 6) r.cert r.stamp (omega arith) l)
    | inr due ↦ rw due (reload-Loaded m t (record r { last_check = now }) before l)
  ]

  pub Reached-Loaded : (m : ℕ) (r : CertReloader C) → Reached m r → Loaded m r.cert r.stamp
  Reached-Loaded m r (Reached.started interval t now h) = new_cert_reloader-Loaded interval t now h
  Reached-Loaded m r (Reached.refreshed {m = before} t now {r = old} reached h) =
      refresh-Loaded before t now old h (Reached-Loaded before old reached)

  -- A handshake is always served a certificate whose key matches: whatever happens to the files and
  -- however the goroutines take turns, the certificate that GetCertificate gives is one that
  -- LoadX509KeyPair made of the two files at a moment before the handshake was over.
  pub get_certificate-Loaded :
      (m n t now later : ℕ) (seen r : CertReloader C)
      → Reached m seen
      → Reached n r
      → m ≤ t
      → n ≤ t
      → (k : ℕ) × (k ≤ t + 6)
        × (load_x509_key_pair disk k ≡ ok (get_certificate disk t now later seen r).1)
  unfolding get_certificate
  get_certificate-Loaded m n t now later seen r old new before after =
      elim (Bool-cases (ltb now (seen.last_check + seen.interval))) [
        | inl early ↦
            let l = Reached-Loaded m seen old in (l.0 + 2, omega (arith, l.1), rw early l.3)
        | inr due ↦
            let l = refresh-Loaded n t later r after (Reached-Loaded n r new) in
            (l.0 + 2, omega (arith, l.1), rw due l.3)
      ]
