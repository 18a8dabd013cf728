-- ===== src/Serve/Startup.antt =====
-- cmd/serve.go: what a server that starts was given.
use talosctl_oidc.Base.{
  ◌==◌, ◌≡◌, inl, inr, refl, sym, ap, subst, ◌∙◌, String, Bool, Option, Result, ok, Bool-cases,
  Option-cases, Result-cases, arith, ℤ,
}
use talosctl_oidc.Allowlist.{Allowlist}
use talosctl_oidc.Config.{
  Host, ResolvedConfig, ConfigError, load, validate, apply_defaults, load_client_secret,
  parse_cert_ttl,
}
use talosctl_oidc.Config.Checks.{IsComplete, validate-none_iff}
use talosctl_oidc.Serve.{
  Setup, build, finish, prepare, make_setup, make_allowlist, open_cert_log, logger_opens,
}

module _ (h : Host) where
  -- The configuration that a server was built from: what was loaded, with the defaults and the secret.
  pub record BuiltFrom (config_file : String) (loaded : ResolvedConfig) (setup : Setup)
      : Type 0 where
    pub is_loaded : load h config_file ≡ ok loaded
    pub secret : String
    pub ttl : ℤ
    pub cert_log : Option String
    pub allowlist : Option Allowlist
    pub complete : IsComplete (apply_defaults loaded)
    pub lists : make_allowlist (apply_defaults loaded) ≡ ok allowlist
    pub built :
        setup
        ≡ make_setup
            (record (apply_defaults loaded) { client_secret = secret })
            ttl
            cert_log
            allowlist

module _ (h : Host) (can_open : String → Bool) where
  load_client_secret-ok :
      (rc : ResolvedConfig) {rc' : ResolvedConfig}
      → load_client_secret h rc ≡ ok rc'
      → (secret : String) × (rc' ≡ record rc { client_secret = secret })
  unfolding load_client_secret
  load_client_secret-ok rc {rc'} e = elim (Bool-cases (rc.client_secret_file == "")) [
    | inl none_given ↦ (rc.client_secret, ground arith)
    | inr given ↦ elim (Option-cases (h.read_file rc.client_secret_file)) [
      | inl f ↦ ground arith
      | inr (content, f) ↦ (rc'.client_secret, ground arith)
    ]
  ]

  build-ok :
      (rc : ResolvedConfig) (ttl : ℤ) {setup : Setup}
      → build can_open rc ttl ≡ ok setup
      → (cert_log : Option String) × (a : Option Allowlist) × (make_allowlist rc ≡ ok a)
        × (setup ≡ make_setup rc ttl cert_log a)
  unfolding build
  build-ok rc ttl {setup} e = elim (Bool-cases (logger_opens can_open rc.audit_log)) [
    | inr no_log ↦ ground arith
    | inl opens ↦ elim (Result-cases (open_cert_log can_open rc.cert_log)) [
      | inr (x, f) ↦ ground arith
      | inl (cert_log, f) ↦ elim (Result-cases (make_allowlist rc)) [
        | inr (x, g) ↦ ground arith
        | inl (a, g) ↦ (cert_log, a, g, ground arith)
      ]
    ]
  ]

  make_allowlist-secret :
      (rc : ResolvedConfig) (secret : String)
      → make_allowlist (record rc { client_secret = secret }) ≡ make_allowlist rc
  unfolding make_allowlist
  make_allowlist-secret rc secret = refl

  finish-ok :
      (rc : ResolvedConfig) {setup : Setup}
      → finish h can_open rc ≡ ok setup
      → (secret : String) × (ttl : ℤ) × (cert_log : Option String) × (a : Option Allowlist)
        × (make_allowlist rc ≡ ok a)
        × (setup ≡ make_setup (record rc { client_secret = secret }) ttl cert_log a)
  unfolding finish
  finish-ok rc {setup} e = elim (Result-cases (load_client_secret h rc)) [
    | inr (x, f) ↦ ground arith
    | inl (rc', f) ↦ elim (Result-cases (parse_cert_ttl h rc')) [
      | inr (x, g) ↦ ground arith
      | inl (ttl, g) ↦
          let with_secret = load_client_secret-ok rc {rc' = rc'} f in
          let same = with_secret.1 in
          let b = build-ok rc' ttl {setup = setup} (ground arith) in
          (
            with_secret.0,
            ttl,
            b.0,
            b.1,
            sym (make_allowlist-secret rc with_secret.0) ∙ ap make_allowlist (sym same) ∙ b.2,
            b.3 ∙ ap (λ x. make_setup x ttl b.0 b.1) same,
          )
    ]
  ]

  pub prepare-BuiltFrom :
      (config_file : String) {setup : Setup}
      → prepare h can_open config_file ≡ ok setup
      → (loaded : ResolvedConfig) × BuiltFrom h config_file loaded setup
  unfolding prepare
  prepare-BuiltFrom config_file {setup} e = elim (Result-cases (load h config_file)) [
    | inr (x, f) ↦ ground arith
    | inl (loaded, f) ↦ elim (Option-cases (validate (apply_defaults loaded))) [
      | inr (x, g) ↦ ground arith
      | inl g ↦
          let made = finish-ok (apply_defaults loaded) {setup = setup} (ground arith) in
          (
            loaded,
            record {
              is_loaded = f;
              secret = made.0;
              ttl = made.1;
              cert_log = made.2;
              allowlist = made.3;
              complete = (validate-none_iff (apply_defaults loaded)).0 g;
              lists = made.4;
              built = made.5;
            },
          )
    ]
  ]

ok-eq : {a b : ResolvedConfig} → ◌≡◌ {A = Result ConfigError ResolvedConfig} (ok a) (ok b) → a ≡ b
ok-eq h = cc

pub prepare-loaded :
    (h : Host) (can_open : String → Bool) (config_file : String) {loaded : ResolvedConfig}
    {setup : Setup}
    → load h config_file ≡ ok loaded
    → prepare h can_open config_file ≡ ok setup
    → BuiltFrom h config_file loaded setup
prepare-loaded h can_open config_file {loaded} {setup} l e =
    let b = prepare-BuiltFrom h can_open config_file {setup = setup} e in
    subst (λ x. BuiltFrom h config_file x setup) (ok-eq (sym b.1.is_loaded ∙ l)) b.1
