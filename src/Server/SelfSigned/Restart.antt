-- ===== src/Server/SelfSigned/Restart.antt =====
-- pkg/server/server.go: what a restart makes of the files that a start left.
use talosctl_oidc.Base.{
  ℕ, ◌+◌, ◌*◌, ◌≤◌, ◌≡◌, ◌∙◌, refl, ap, String, true, none, some, Result, ok, err, inl, inr,
  Option-cases, arith,
}
use talosctl_oidc.Clock.{hour}
use talosctl_oidc.Server.SelfSigned.{
  Material, TlsError, not_a_pair, Maker, done, failed, Writes, SelfSigned, load_x509_key_pair,
  check_leaf, check_ca_key, check_files, load_persisted, restart, write_all, persist, generate,
  keep_generated, regenerates, after_load, load_or_generate,
}

abbrev pub all_done : Writes
all_done = record {
  makes_directory = true;
  ca_crt = done;
  ca_key = done;
  server_crt = done;
  server_key = done;
}

-- The state that a start with this material leaves, where all its writes are done.
abbrev pub kept : Material → SelfSigned
kept x = record {
  ca_pem = x.ca_pem;
  files = record {
    ca_crt = some x.ca_pem;
    ca_key = some x.ca_key_pem;
    server_crt = some x.cert_pem;
    server_key = some x.key_pem;
  };
}

-- The state after a renewal that did not get to replace the key.
abbrev pub torn : Material → String → SelfSigned
torn x old_key = record {
  ca_pem = x.ca_pem;
  files = record {
    ca_crt = some x.ca_pem;
    ca_key = some x.ca_key_pem;
    server_crt = some x.cert_pem;
    server_key = some old_key;
  };
}

module _ {C : Type 0} (m : Maker C) (x : Material) (c : C)
    (made : m.keypair x.cert_pem x.key_pem ≡ some c) where
  check_leaf-fresh :
      (now expiry : ℕ)
      → m.not_after c ≡ some expiry
      → now + 24 * hour ≤ expiry
      → check_leaf m now c ≡ ok c
  unfolding check_leaf
  check_leaf-fresh now expiry lasts fresh = ground (arith, lasts)

  check_files-kept :
      (now expiry : ℕ)
      → m.not_after c ≡ some expiry
      → now + 24 * hour ≤ expiry
      → check_files m now (kept x).files ≡ ok c
  unfolding check_files load_x509_key_pair check_ca_key
  check_files-kept now expiry lasts fresh =
      rw (made, check_files) (rw (check_leaf-fresh now expiry lasts fresh) refl)

  -- Whatever CA is in memory.
  load_or_generate-kept :
      (now expiry : ℕ) (w : Writes) (memory : String)
      → m.not_after c ≡ some expiry
      → now + 24 * hour ≤ expiry
      → load_or_generate m now w (record (kept x) { ca_pem = memory }) ≡ (kept x, ok c)
  unfolding load_or_generate load_persisted after_load
  load_or_generate-kept now expiry w memory lasts fresh =
      rw (check_files-kept now expiry lasts fresh) refl

  generate_lem :
      (s : SelfSigned)
      → m.generated ≡ some x
      → generate m s ≡ (record s { ca_pem = x.ca_pem }, ok (c, x))
  unfolding generate
  generate_lem s gen = rw (gen, generate) (rw made refl)

  load_persisted-files : (now : ℕ) (s : SelfSigned) → (load_persisted m now s).0.files ≡ s.files
  unfolding load_persisted
  load_persisted-files now s = elim (Option-cases s.files.ca_crt) [
    | inl e ↦ ground arith
    | inr (ca, e) ↦ ground arith
  ]

  after_load-generated :
      (w : Writes) (r : SelfSigned × Result TlsError C) (e : TlsError)
      → r ≡ (r.0, err e)
      → regenerates e ≡ true
      → generate m r.0 ≡ (record r.0 { ca_pem = x.ca_pem }, ok (c, x))
      → after_load m w r ≡ (record { ca_pem = x.ca_pem; files = persist w x r.0.files }, ok c)
  unfolding after_load keep_generated
  after_load-generated w r e failed_so stale gen =
      ap (after_load m w) failed_so ∙ rw (stale, gen) refl

  -- A start that has to generate, with this material.
  load_or_generate-generated :
      (now : ℕ) (w : Writes) (s : SelfSigned) (e : TlsError)
      → m.generated ≡ some x
      → (load_persisted m now s).1 ≡ err e
      → regenerates e ≡ true
      → load_or_generate m now w s
        ≡ (record { ca_pem = x.ca_pem; files = persist w x s.files }, ok c)
  unfolding load_or_generate
  load_or_generate-generated now w s e gen h stale =
      let loaded = load_persisted m now s in
      let made_again = generate_lem loaded.0 gen in
      after_load-generated w loaded e (ap (λ r. (loaded.0, r)) h) stale made_again
      ∙ ap (λ files. (record { ca_pem = x.ca_pem; files = persist w x files }, ok c))
          (load_persisted-files now s)

  -- A self-signed certificate survives a restart: where a start finds no certificate or a stale one,
  -- generates a pair and writes all four files, a new process, which has no CA in memory, serves the
  -- same certificate as long as it starts more than a day before the end of the certificate's life. It
  -- has the same CA in memory again, read from its file, and leaves the files as they are.
  pub load_or_generate-again :
      (now later expiry : ℕ) (w : Writes) (s : SelfSigned) (e : TlsError)
      → m.generated ≡ some x
      → (load_persisted m now s).1 ≡ err e
      → regenerates e ≡ true
      → m.not_after c ≡ some expiry
      → later + 24 * hour ≤ expiry
      → load_or_generate m later w (restart (load_or_generate m now all_done s).0) ≡ (kept x, ok c)
  unfolding persist write_all restart
  load_or_generate-again now later expiry w s e gen h stale lasts fresh =
      ap (λ r. load_or_generate m later w (restart r.0))
        (load_or_generate-generated now all_done s e gen h stale)
      ∙ load_or_generate-kept later expiry w "" lasts fresh

  load_or_generate-torn :
      (later : ℕ) (w : Writes) (old_key memory : String)
      → m.keypair x.cert_pem old_key ≡ none
      → load_or_generate m later w (record (torn x old_key) { ca_pem = memory })
        ≡ (torn x old_key, err not_a_pair)
  unfolding load_or_generate load_persisted after_load check_files load_x509_key_pair
  load_or_generate-torn later w old_key memory mismatch = rw mismatch refl

  -- A renewal that is cut off before its last file stops the server for good: where the write of
  -- server.key fails and leaves the old key, which does not match the new certificate, the start goes on
  -- with the new pair, but every later start fails, whatever CA is in memory and whatever it could
  -- write, and leaves the files as they are.
  pub load_or_generate-stuck :
      (now later : ℕ) (w : Writes) (s : SelfSigned) (e : TlsError) (old_key memory : String)
      → m.generated ≡ some x
      → (load_persisted m now s).1 ≡ err e
      → regenerates e ≡ true
      → m.keypair x.cert_pem old_key ≡ none
      → (load_or_generate m now (record all_done { server_key = failed (some old_key) }) s
          ≡ (torn x old_key, ok c))
        × (load_or_generate m later w (record (torn x old_key) { ca_pem = memory })
            ≡ (torn x old_key, err not_a_pair))
  unfolding persist write_all
  load_or_generate-stuck now later w s e old_key memory gen h stale mismatch = (
    load_or_generate-generated now (record all_done { server_key = failed (some old_key) }) s e gen
        h stale,
    load_or_generate-torn later w old_key memory mismatch,
  )
