-- ===== src/Oidc/Auth/Approved.antt =====
-- pkg/oidc/auth.go: Authenticate. What a login in the browser rests on.
use mathlib.Core.List.{Memᴰ}
use talosctl_oidc.Base.{
  ◌≡◌, inl, inr, refl, sym, ap, subst, ◌∙◌, String, List, some, Result, ok, err, Option-cases,
  Result-cases, arith, eq_iff,
}
use talosctl_oidc.Keychain.{StoredToken}
use talosctl_oidc.Oidc.Provider.{ProviderConfig, discover}
use talosctl_oidc.Oidc.Tokens.{TokenResponse, Pkce, exchange_code}
use talosctl_oidc.Oidc.Callback.{
  AuthConfig, Query, AuthResult, AuthError, World, new_callback_server, Event, called, happen,
  wait_for_callback,
}
use talosctl_oidc.Oidc.Auth.{
  generate_pkce, generate_state, new_stored_token, redeem, Waiting, channels, await, authenticate,
}
use talosctl_oidc.Oidc.Auth.Calls.{HasCode, From, wait_for_callback-ok, happen-result}

module _ (w : World) (cfg : AuthConfig) where
  -- What the tokens of a login in the browser rest on.
  pub record AuthenticatedBy (events : List Event) (token : StoredToken) : Type 0 where
    pub provider : ProviderConfig
    pub pkce : Pkce
    pub state : String
    pub redirect_uri : String
    pub query : Query
    pub response : TokenResponse
    pub discovered : discover w.transport w.provider_of cfg.issuer_url ≡ ok provider
    pub own_pkce : generate_pkce w ≡ some pkce
    pub own_state : generate_state w ≡ some state
    pub served : new_callback_server w cfg ≡ ok redirect_uri
    pub came : Memᴰ (called query) events
    pub has_code : HasCode query
    pub same_state : query.state ≡ state
    pub exchanged :
        exchange_code w.post w.token_of provider cfg.client_id cfg.client_secret query.code
          redirect_uri pkce
        ≡ ok response
    pub kept : token ≡ new_stored_token w.now response cfg

  redeem-ok :
      (provider : ProviderConfig) (redirect_uri state : String) (pkce : Pkce)
      (r : Result AuthError AuthResult) {token : StoredToken}
      → redeem w cfg provider redirect_uri state pkce r ≡ ok token
      → (result : AuthResult) × (r ≡ ok result)
        × (result.state ≡ state)
        × (response : TokenResponse) × (exchange_code w.post w.token_of provider cfg.client_id
              cfg.client_secret result.code redirect_uri pkce
            ≡ ok response)
        × (token ≡ new_stored_token w.now response cfg)
  unfolding redeem
  redeem-ok provider redirect_uri state pkce (err e) h = cc
  redeem-ok provider redirect_uri state pkce (ok result) {token} h =
      elim (Result-cases (
        exchange_code w.post w.token_of provider cfg.client_id cfg.client_secret result.code
          redirect_uri pkce)) [
            | inr (e, f) ↦ ground arith
            | inl (response, f) ↦
                (result, refl, ground (arith, eq_iff result.state state), response, f, ground arith)
          ]

  await-ok :
      (waiting : Waiting) (provider : ProviderConfig) (pkce : Pkce) (state redirect_uri : String)
      {token : StoredToken}
      → await w cfg waiting provider pkce state redirect_uri ≡ some (ok token)
      → (r : Result AuthError AuthResult) × (wait_for_callback waiting.choice waiting.is_cancelled
            (happen waiting.events (channels cfg))
          ≡ some r)
        × (redeem w cfg provider redirect_uri state pkce r ≡ ok token)
  unfolding await
  await-ok waiting provider pkce state redirect_uri {token} h =
      let cs = happen waiting.events (channels cfg) in
      elim (Option-cases (wait_for_callback waiting.choice waiting.is_cancelled cs)) [
        | inl e ↦ ground arith
        | inr (r, e) ↦ (r, e, ground arith)
      ]

  waited-From :
      (waiting : Waiting) (result : AuthResult)
      → wait_for_callback waiting.choice waiting.is_cancelled (happen waiting.events (channels cfg))
        ≡ some (ok result)
      → From waiting.events result
  waited-From waiting result h =
      let cs = happen waiting.events (channels cfg) in
      let there = wait_for_callback-ok waiting.choice waiting.is_cancelled cs {r = result} h in
      elim (happen-result waiting.events (channels cfg) result there.0 there.1) [
        | inl before ↦ cc
        | inr came ↦ came
      ]

  await-AuthenticatedBy :
      (waiting : Waiting) (provider : ProviderConfig) (pkce : Pkce) (state redirect_uri : String)
      (token : StoredToken)
      → discover w.transport w.provider_of cfg.issuer_url ≡ ok provider
      → generate_pkce w ≡ some pkce
      → generate_state w ≡ some state
      → new_callback_server w cfg ≡ ok redirect_uri
      → await w cfg waiting provider pkce state redirect_uri ≡ some (ok token)
      → AuthenticatedBy waiting.events token
  await-AuthenticatedBy waiting provider pkce state redirect_uri token d p s u h =
      let (r, waited, redeemed) =
        await-ok waiting provider pkce state redirect_uri {token = token} h in
      let (result, is_ok, same, response, exchanged, kept) =
        redeem-ok provider redirect_uri state pkce r {token = token} redeemed in
      let (q, came, has_code, of_query) = waited-From waiting result (waited ∙ ap some is_ok) in
      record {
        provider = provider;
        pkce = pkce;
        state = state;
        redirect_uri = redirect_uri;
        query = q;
        response = response;
        discovered = d;
        own_pkce = p;
        own_state = s;
        served = u;
        came = came;
        has_code = has_code;
        same_state = ap (λ (x : AuthResult). x.state) (sym of_query) ∙ same;
        exchanged =
            subst
              (λ (x : AuthResult).
                exchange_code w.post w.token_of provider cfg.client_id cfg.client_secret x.code
                  redirect_uri pkce
                ≡ ok response)
              of_query exchanged;
        kept = kept;
      }

-- A login in the browser yields a token only for its own request: where Authenticate gives a token,
-- a callback with a code, with no error and with the very state that this login drew came in, that code
-- was exchanged with the verifier and the redirect URI of this login at the provider that was
-- discovered, and the token is what the provider answered.
pub authenticate-AuthenticatedBy :
    (w : World) (cfg : AuthConfig) (waiting : Waiting) (token : StoredToken)
    → authenticate w cfg waiting ≡ some (ok token)
    → AuthenticatedBy w cfg waiting.events token
unfolding authenticate
authenticate-AuthenticatedBy w cfg waiting token h =
    elim (Result-cases (discover w.transport w.provider_of cfg.issuer_url)) [
      | inr (e, d) ↦ ground arith
      | inl (provider, d) ↦ elim (Option-cases (generate_pkce w)) [
        | inl p ↦ ground arith
        | inr (pkce, p) ↦ elim (Option-cases (generate_state w)) [
          | inl s ↦ ground arith
          | inr (state, s) ↦ elim (Result-cases (new_callback_server w cfg)) [
            | inr (e, u) ↦ ground arith
            | inl (redirect_uri, u) ↦
                await-AuthenticatedBy w cfg waiting provider pkce state redirect_uri token d p s u
                  (ground arith)
          ]
        ]
      ]
    ]
