-- ===== src/Login/Round.antt =====
-- cmd/login.go: runLogin. What a round does to the talosconfig file.
use talosctl_oidc.Base.{
  ◌≡◌, ◌⊎◌, ◌∙◌, inl, inr, refl, sym, ap, subst, String, not, ◌&&◌, List, [], ◌∷◌, none, some,
  Result, ok, err, All, Bool-cases, Option-cases, Result-cases, arith,
}
use talosctl_oidc.Keychain.{Stores}
use talosctl_oidc.Server.{CertResponse}
use talosctl_oidc.TalosConfig.{TalosConfig, PemError, set_context, Disk, SaveError, save}
use talosctl_oidc.TalosConfig.Saving.{save-IsWhole}
use talosctl_oidc.Login.{Flags, LoginError, obtain_id_token}
use talosctl_oidc.Login.Renewal.{
  RoundWorld, Step, check_certificate, exchange_token_for_cert, http_client_builds, after_save,
  after_set, write_config, exchange_and_write, is_plain, after_obtain, renew, login_round,
}

module _ (w : RoundWorld) (flags : Flags) (disk : Disk) where
  -- The file holds the second Load's configuration with the context set to this certificate, whole.
  abbrev pub HoldsCert : CertResponse → Disk → Type 0
  HoldsCert c d =
      (cfg : TalosConfig) × (w.config_after ≡ some cfg)
      × (d.target
          ≡ (w.yaml
              (set_context w.base64 flags.context_name c.endpoints c.ca c.cert c.key cfg).0).yaml)

  -- The file is as it was, or holds this certificate.
  abbrev pub Kept : CertResponse → Disk → Type 0
  Kept c d = (d.target ≡ disk.target) ⊎ HoldsCert c d

  unchanged : (P : Disk → Type 0) → P disk → All P (disk ∷ [])
  unchanged P p = (p, tt)

  All-map :
      {P Q : Disk → Type 0} → ((d : Disk) → P d → Q d) → (ds : List Disk) → All P ds → All Q ds
  All-map f [] h = tt
  All-map f (d ∷ ds) (p, h) = (f d p, All-map f ds h)

  after_save-disks : (r : List Disk × Result SaveError (Unit {0})) → (after_save flags r).0 ≡ r.0
  unfolding after_save
  after_save-disks (disks, err e) = refl
  after_save-disks (disks, ok u) = refl

  after_set-Kept :
      (c : CertResponse) (cfg : TalosConfig) (r : TalosConfig × Result PemError (Unit {0}))
      → w.config_after ≡ some cfg
      → r ≡ set_context w.base64 flags.context_name c.endpoints c.ca c.cert c.key cfg
      → All (Kept c) (after_set w flags r disk).0
  unfolding after_set
  after_set-Kept c cfg (cfg', err e) loaded same = unchanged (Kept c) (inl refl)
  after_set-Kept c cfg (cfg', ok u) loaded same =
      subst (All (Kept c)) (sym (after_save-disks (save (w.yaml cfg') disk))) (
        All-map
          (λ d whole. elim whole [
            | inl kept ↦ inl kept
            | inr (new, fine) ↦ inr (cfg, loaded, new ∙ ap (λ x. (w.yaml x.0).yaml) same)
          ])
          (save (w.yaml cfg') disk).0 (save-IsWhole (w.yaml cfg') disk))

  write_config-Kept : (c : CertResponse) → All (Kept c) (write_config w flags c disk).0
  unfolding write_config
  write_config-Kept c = elim (Option-cases w.config_after) [
    | inl e ↦
        let same : (write_config w flags c disk).0 ≡ disk ∷ [] = ground arith in
        subst (All (Kept c)) (sym same) (unchanged (Kept c) (inl refl))
    | inr (cfg, e) ↦
        let set = set_context w.base64 flags.context_name c.endpoints c.ca c.cert c.key cfg in
        let same : (write_config w flags c disk).0 ≡ (after_set w flags set disk).0 =
          ground arith in
        subst (All (Kept c)) (sym same) (after_set-Kept c cfg set e refl)
  ]

  module _ (s s' : Stores) where
    -- The file was written for a certificate that was due, got for a token of this login.
    pub record Renewed (d : Disk) : Type 0 where
      pub due : check_certificate w flags ≡ none
      pub id_token : String
      pub obtained : obtain_id_token w.login flags s ≡ some (s', ok id_token)
      pub cert : CertResponse
      pub exchanged : exchange_token_for_cert w.client flags.server_url id_token ≡ ok cert
      pub holds : HoldsCert cert d

    abbrev pub Justified : Disk → Type 0
    Justified d = (d.target ≡ disk.target) ⊎ Renewed d

    nothing_written : (ds : List Disk) → ds ≡ disk ∷ [] → All Justified ds
    nothing_written ds same = subst (All Justified) (sym same) (unchanged Justified (inl refl))

    exchange_and_write-Justified :
        (id_token : String)
        → check_certificate w flags ≡ none
        → obtain_id_token w.login flags s ≡ some (s', ok id_token)
        → All Justified (exchange_and_write w flags id_token disk).0
    unfolding exchange_and_write
    exchange_and_write-Justified id_token due obtained =
        let result = exchange_and_write w flags id_token disk in
        elim (Bool-cases (http_client_builds w flags)) [
          | inr broken ↦ nothing_written result.0 (ground arith)
          | inl builds ↦
              elim (Result-cases (exchange_token_for_cert w.client flags.server_url id_token)) [
                | inr (e, f) ↦ nothing_written result.0 (ground arith)
                | inl (c, f) ↦
                    let same : result.0 ≡ (write_config w flags c disk).0 = ground arith in
                    subst (All Justified) (sym same) (
                      All-map
                        (λ d kept. elim kept [
                          | inl before ↦ inl before
                          | inr holds ↦ inr (record {
                            due = due;
                            id_token = id_token;
                            obtained = obtained;
                            cert = c;
                            exchanged = f;
                            holds = holds;
                          })
                        ])
                        (write_config w flags c disk).0 (write_config-Kept c))
              ]
        ]

    after_obtain-Justified :
        (r : Stores × Result LoginError String) (disks : List Disk) (step : Step)
        → check_certificate w flags ≡ none
        → obtain_id_token w.login flags s ≡ some r
        → after_obtain w flags disk r ≡ (s', (disks, step))
        → All Justified disks
    unfolding after_obtain
    after_obtain-Justified (s₁, err e) disks step due obtained h =
        nothing_written disks (ground arith)
    after_obtain-Justified (s₁, ok id_token) disks step due obtained h =
        let same_stores : s₁ ≡ s' = ground arith in
        let same : (exchange_and_write w flags id_token disk).0 ≡ disks = ground arith in
        subst (All Justified) same (
          exchange_and_write-Justified id_token due
            (obtained ∙ ap (λ x. some (x, ok id_token)) same_stores))

    renew-Justified :
        (disks : List Disk) (step : Step)
        → check_certificate w flags ≡ none
        → renew w flags s disk ≡ some (s', (disks, step))
        → All Justified disks
    unfolding renew
    renew-Justified disks step due h =
        elim (Bool-cases (is_plain flags.server_url && not flags.insecure)) [
          | inl plain ↦ nothing_written disks (ground arith)
          | inr fine ↦ elim (Option-cases (obtain_id_token w.login flags s)) [
            | inl e ↦ ground arith
            | inr (r, e) ↦ after_obtain-Justified r disks step due e (ground arith)
          ]
        ]

    -- A round of login that comes to its end writes the file only for a certificate that is due and
    -- that the server gave: in every state that the disk goes through, the file is as it was before
    -- the round, or it holds whole the configuration in which the context is set to a certificate
    -- that the server handed out in this round for an ID token that this login obtained, and the
    -- check at the start of the round found no certificate that is still valid.
    pub login_round-Justified :
        (disks : List Disk) (step : Step)
        → login_round w flags s disk ≡ some (s', (disks, step))
        → All Justified disks
    unfolding login_round
    login_round-Justified disks step h = elim (Option-cases (check_certificate w flags)) [
      | inr (x, e) ↦ nothing_written disks (ground arith)
      | inl e ↦ renew-Justified disks step e (ground arith)
    ]
