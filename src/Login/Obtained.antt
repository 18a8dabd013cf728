-- ===== src/Login/Obtained.antt =====
-- cmd/login.go: obtainIDToken. Where the ID token of a login comes from.
use talosctl_oidc.Base.{
  ◌==◌, ◌≡◌, ◌≢◌, ◌∙◌, inl, inr, refl, sym, ap, subst, String, true, false, not, ◌&&◌, Option, none,
  some, Result, ok, err, Bool-cases, Option-cases, arith, eq_iff,
}
use talosctl_oidc.Keychain.{StoredToken, is_expired, has_refresh_token, Stores, store, retrieve}
use talosctl_oidc.Oidc.Callback.{AuthError}
use talosctl_oidc.Login.{
  Flags, LoginWorld, log_in, refresh, after_login, full_authentication, refresh_or_login,
  use_stored, obtain_id_token,
}

module _ (w : LoginWorld) (flags : Flags) where
  -- Where an ID token may come from, given what the keychain holds: it is cached and not expired, or a
  -- refresh gave it, or a login did.
  pub data Source (stored : Option StoredToken) : String → Type 0 where
    cached :
        (t : StoredToken) → stored ≡ some t → is_expired w.now t ≡ false → Source stored t.id_token
    refreshed :
        (t t' : StoredToken)
        → stored ≡ some t
        → has_refresh_token t ≡ true
        → refresh w flags t ≡ some t'
        → Source stored t'.id_token
    logged_in : (t : StoredToken) → log_in w flags ≡ some (ok t) → Source stored t.id_token

  -- An ID token with a source.
  abbrev pub Sound : Option StoredToken → String → Type 0
  Sound stored id_token = (id_token ≢ "") × Source stored id_token

  after_login-ok :
      (r : Result AuthError StoredToken) (s : Stores) {s' : Stores} {id_token : String}
      → after_login w flags r s ≡ (s', ok id_token)
      → (t : StoredToken) × (r ≡ ok t) × (id_token ≡ t.id_token) × (t.id_token ≢ "")
  unfolding after_login
  after_login-ok (err e) s {s'} {id_token} h = cc
  after_login-ok (ok t) s {s'} {id_token} h =
      (t, refl, ground arith, ground (arith, eq_iff t.id_token ""))

  full_authentication-Sound :
      (stored : Option StoredToken) (s : Stores) {s' : Stores} {id_token : String}
      → full_authentication w flags s ≡ some (s', ok id_token)
      → Sound stored id_token
  unfolding full_authentication
  full_authentication-Sound stored s {s'} {id_token} h = elim (Option-cases (log_in w flags)) [
    | inl e ↦ ground arith
    | inr (r, e) ↦
        let (t, is_ok, same, some_token) =
          after_login-ok r s {s' = s'} {id_token = id_token} (ground arith) in
        subst (Sound stored) (sym same) (some_token, logged_in t (e ∙ ap some is_ok))
  ]

  refresh_or_login-Sound :
      (t : StoredToken) (s : Stores) {s' : Stores} {id_token : String}
      → has_refresh_token t ≡ true
      → refresh_or_login w flags t s ≡ some (s', ok id_token)
      → Sound (some t) id_token
  unfolding refresh_or_login
  refresh_or_login-Sound t s {s'} {id_token} has h = elim (Option-cases (refresh w flags t)) [
    | inl e ↦ full_authentication-Sound (some t) s {s' = s'} {id_token = id_token} (ground arith)
    | inr (t', e) ↦ elim (Bool-cases (t'.id_token == "")) [
      | inl blank ↦
          full_authentication-Sound (some t) (store w.refreshing flags.context_name t' s).0
            {s' = s'} {id_token = id_token} (ground arith)
      | inr given ↦
          let same : id_token ≡ t'.id_token = ground arith in
          subst (Sound (some t)) (sym same)
            (ground (arith, eq_iff t'.id_token ""), refreshed t t' refl has e)
    ]
  ]

  use_stored-Sound :
      (stored : Option StoredToken) (s : Stores) {s' : Stores} {id_token : String}
      → use_stored w flags stored s ≡ some (s', ok id_token)
      → Sound stored id_token
  unfolding use_stored
  use_stored-Sound none s {s'} {id_token} h =
      full_authentication-Sound none s {s' = s'} {id_token = id_token} h
  use_stored-Sound (some t) s {s'} {id_token} h =
      elim (Bool-cases (not (is_expired w.now t) && not (t.id_token == ""))) [
        | inl fresh ↦
            let same : id_token ≡ t.id_token = ground arith in
            subst (Sound (some t)) (sym same)
              (ground (arith, eq_iff t.id_token ""), cached t refl (ground arith))
        | inr stale ↦ elim (Bool-cases (has_refresh_token t)) [
          | inl has ↦ refresh_or_login-Sound t s {s' = s'} {id_token = id_token} has (ground arith)
          | inr none_there ↦
              full_authentication-Sound (some t) s {s' = s'} {id_token = id_token} (ground arith)
        ]
      ]

  -- An ID token that a login obtains is never empty, and it comes from one of three places: the
  -- keychain holds it and it is not expired, or the provider gave it in answer to the refresh token of
  -- what the keychain holds, or a login in the browser or with a device code gave it.
  pub obtain_id_token-Sound :
      (s s' : Stores) (id_token : String)
      → obtain_id_token w flags s ≡ some (s', ok id_token)
      → Sound (retrieve w.reading flags.context_name s) id_token
  unfolding obtain_id_token
  obtain_id_token-Sound s s' id_token h =
      use_stored-Sound (retrieve w.reading flags.context_name s) s {s' = s'} {id_token = id_token} h
