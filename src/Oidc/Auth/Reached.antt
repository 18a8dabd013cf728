-- ===== src/Oidc/Auth/Reached.antt =====
-- pkg/oidc/auth.go: Authenticate. That a login that is approved succeeds.
use talosctl_oidc.Base.{◌≡◌, refl, ◌∙◌, String, Bool, List, [], ◌∷◌, some, ok, arith, eq_iff}
use talosctl_oidc.Oidc.Provider.{ProviderConfig, discover}
use talosctl_oidc.Oidc.Tokens.{TokenResponse, Pkce, exchange_code}
use talosctl_oidc.Oidc.Callback.{
  AuthConfig, Query, AuthResult, World, new_callback_server, Channels, Event, called, failed,
  send_error, handle_callback, happen, serve_failed, take_result, first_result, wait_for_callback,
}
use talosctl_oidc.Oidc.Auth.{
  generate_pkce, generate_state, new_stored_token, redeem, channels, await, authenticate,
}
use talosctl_oidc.Oidc.Auth.Calls.{HasCode, result_of, send_error-results, handle_callback-results}

-- A result that is in the channel stays there, whatever comes after.
happen-keeps :
    (events : List Event) (cs : Channels) (r : AuthResult)
    → cs.results ≡ r ∷ []
    → (happen events cs).results ≡ r ∷ []
unfolding happen
happen-keeps [] cs r h = h
happen-keeps (failed e ∷ events) cs r h =
    happen-keeps events (send_error (serve_failed e) cs) r
      (send_error-results (serve_failed e) cs ∙ h)
happen-keeps (called q ∷ events) cs r h =
    happen-keeps events (handle_callback q cs) r (ground (arith, handle_callback-results q cs))

first_result-some :
    (cs : Channels) (r : AuthResult) → cs.results ≡ r ∷ [] → first_result cs ≡ some (ok r)
unfolding first_result
first_result-some cs r h = rw h refl

-- The callback that comes first fills the channel.
called-first :
    (cfg : AuthConfig) (q : Query) (later : List Event)
    → HasCode q
    → (happen (called q ∷ later) (channels cfg)).results ≡ result_of q ∷ []
unfolding happen
called-first cfg q later (no_error, code) =
    happen-keeps later (handle_callback q (channels cfg)) (result_of q) (
      ground (arith, handle_callback-results q (channels cfg), eq_iff q.error "", eq_iff q.code ""))

redeem-token :
    (w : World) (cfg : AuthConfig) (provider : ProviderConfig) (redirect_uri state : String)
    (pkce : Pkce) (result : AuthResult) (response : TokenResponse)
    → result.state ≡ state
    → exchange_code w.post w.token_of provider cfg.client_id cfg.client_secret result.code
        redirect_uri pkce
      ≡ ok response
    → redeem w cfg provider redirect_uri state pkce (ok result)
      ≡ ok (new_stored_token w.now response cfg)
unfolding redeem
redeem-token w cfg provider redirect_uri state pkce result response same x =
    ground (arith, eq_iff result.state state)

-- An approved login succeeds: where the first thing that the callback server meets is a callback with a code,
-- no error and the state of this login, the wait takes the result, and the provider
-- exchanges the code, Authenticate gives the tokens of the answer, whatever comes after that callback.
pub authenticate-token :
    (w : World) (cfg : AuthConfig) (q : Query) (later : List Event) (is_cancelled : Bool)
    (provider : ProviderConfig) (pkce : Pkce) (state redirect_uri : String)
    (response : TokenResponse)
    → discover w.transport w.provider_of cfg.issuer_url ≡ ok provider
    → generate_pkce w ≡ some pkce
    → generate_state w ≡ some state
    → new_callback_server w cfg ≡ ok redirect_uri
    → HasCode q
    → q.state ≡ state
    → exchange_code w.post w.token_of provider cfg.client_id cfg.client_secret q.code redirect_uri
        pkce
      ≡ ok response
    → authenticate w cfg
        (record { events = called q ∷ later; is_cancelled = is_cancelled; choice = take_result })
      ≡ some (ok (new_stored_token w.now response cfg))
unfolding authenticate await wait_for_callback
authenticate-token w cfg q later is_cancelled provider pkce state redirect_uri response d p s u
      has_code same x =
    let cs = happen (called q ∷ later) (channels cfg) in
    let waited = first_result-some cs (result_of q) (called-first cfg q later has_code) in
    let redeemed =
      redeem-token w cfg provider redirect_uri state pkce (result_of q) response same x in
    rw (d, p, s, u, authenticate) (rw (waited, redeemed, await) refl)
