-- ===== src/Server/Exchange/Valid.antt =====
-- Which tokens the server finds valid.
use talosctl_oidc.Base.{
  ◌≡◌, ◌⊎◌, inl, inr, refl, ap, ◌∙◌, subst, String, [], none, some, Result, ok, err, arith,
  Result-cases,
}
use native.Mathlib.Nat.{le_refl}
use talosctl_oidc.Claims.{Claims}
use talosctl_oidc.Oidc.Jwks.{Jwks}
use talosctl_oidc.Oidc.JwksCache.{Cache, Fetched, new_cache, get}
use talosctl_oidc.Oidc.JwksCache.Freshness.{Served, from_cache, renewed, stale, failed, get-Served}
use talosctl_oidc.Oidc.Provider.{fetch_jwks}
use talosctl_oidc.Oidc.Jwt.{validate_id_token}
use talosctl_oidc.Oidc.Jwt.Accepted.{Accepted}
use talosctl_oidc.Oidc.Jwt.Sound.{validate-Accepted}
use talosctl_oidc.Server.{Config, Server}
use talosctl_oidc.Server.Tokens.{
  World, TokenError, TokenClaims, claims_of, jwks_cache_for_issuer, current_jwks, check_token,
  with_jwks, with_cache, validate_token,
}

-- Where a key set comes from: the provider's answer to this request, or the server's cache.
abbrev pub Provenance : World → Server → Jwks → Type 0
Provenance w s jwks =
    ((uri : String) × (fetch_jwks w.transport w.jwks_of uri ≡ ok jwks))
    ⊎ ((c : Cache) × (s.jwks_cache ≡ some c) × (c.jwks ≡ some jwks))

pub record ValidFor (w : World) (cfg : Config) (s : Server) (token : String) (tc : TokenClaims)
    : Type 0 where
  pub jwks : Jwks
  pub from : Provenance w s jwks
  pub claims : Claims
  pub accepted :
      Accepted w.crypto w.json
        (w.unix w.now)
        token
        jwks
        cfg.issuer_url
        cfg.client_id
        cfg.client_secret
        []
        claims
  pub identity : tc ≡ claims_of claims

check_token-Accepted :
    (w : World) (token : String) (jwks : Jwks) (s : Server) {tc : TokenClaims}
    → check_token w token jwks s ≡ ok tc
    → (claims : Claims) × Accepted w.crypto w.json
        (w.unix w.now)
        token
        jwks
        s.cfg.issuer_url
        s.cfg.client_id
        s.cfg.client_secret
        []
        claims
      × (tc ≡ claims_of claims)
unfolding check_token
check_token-Accepted w token jwks s h =
    elim (Result-cases (
      validate_id_token w.crypto w.json (w.unix w.now) token jwks s.cfg.issuer_url s.cfg.client_id
        s.cfg.client_secret [])) [
          | inl (claims, e) ↦ (
            claims,
            validate-Accepted w.crypto w.json _ token jwks _ _ _ [] claims e,
            ground arith,
          )
          | inr (bad, e) ↦ ground arith
        ]

module _ (w : World) where
  jwks_cache_for_issuer_lem :
      (s s' : Server) {cache : Cache}
      → jwks_cache_for_issuer w s ≡ (s', ok cache)
      → (s'.cfg ≡ s.cfg) × ((s.jwks_cache ≡ some cache) ⊎ (cache.jwks ≡ none))
  unfolding jwks_cache_for_issuer new_cache
  jwks_cache_for_issuer_lem s s' h = ground arith

  fetched_for : Cache → Fetched
  fetched_for cache = record {
    result = fetch_jwks w.transport w.jwks_of cache.jwks_uri;
    at = w.fetched_at;
  }

  current_jwks_of_Served :
      (cache : Cache) (s s' : Server) {jwks : Jwks}
      → Served w.now (fetched_for cache) cache (get w.now w.now (fetched_for cache) cache)
      → current_jwks w cache s ≡ (s', ok jwks)
      → (s'.cfg ≡ s.cfg)
        × ((fetch_jwks w.transport w.jwks_of cache.jwks_uri ≡ ok jwks) ⊎ (cache.jwks ≡ some jwks))
  unfolding current_jwks fetched_for
  current_jwks_of_Served cache s s' (from_cache have young r) h = ground arith
  current_jwks_of_Served cache s s' (renewed aged fine r) h = ground arith
  current_jwks_of_Served cache s s' (stale have aged bad r) h = ground arith
  current_jwks_of_Served cache s s' (failed have bad r) h = ground arith

  with_jwks-ok :
      (token : String) (p : Server × Result TokenError Jwks) (s' : Server) {tc : TokenClaims}
      → with_jwks w token p ≡ (s', ok tc)
      → (jwks : Jwks) × (p ≡ (s', ok jwks)) × (check_token w token jwks s' ≡ ok tc)
  unfolding with_jwks
  with_jwks-ok token (s, err e) s' h = ground arith
  with_jwks-ok token (s, ok jwks) s' {tc} h =
      let same : s ≡ s' = ap (λ (q : Server × Result TokenError TokenClaims). q.0) h in
      let checked : check_token w token jwks s ≡ ok tc =
        ap (λ (q : Server × Result TokenError TokenClaims). q.1) h in
      (
        jwks,
        ap (λ (u : Server). let q : Server × Result TokenError Jwks = (u, ok jwks) in q) same,
        subst (λ u. check_token w token jwks u ≡ ok tc) same checked,
      )

  with_cache-ok :
      (token : String) (p : Server × Result TokenError Cache) (s' : Server) {tc : TokenClaims}
      → with_cache w token p ≡ (s', ok tc)
      → (s₁ : Server) × (cache : Cache) × (p ≡ (s₁, ok cache))
        × (with_jwks w token (current_jwks w cache s₁) ≡ (s', ok tc))
  unfolding with_cache
  with_cache-ok token (s, err e) s' h = ground arith
  with_cache-ok token (s, ok cache) s' h = (s, cache, refl, h)

  provenance :
      (s : Server) (cache : Cache) (jwks : Jwks)
      → ((s.jwks_cache ≡ some cache) ⊎ (cache.jwks ≡ none))
      → ((fetch_jwks w.transport w.jwks_of cache.jwks_uri ≡ ok jwks) ⊎ (cache.jwks ≡ some jwks))
      → Provenance w s jwks
  provenance s cache jwks had (inl fetched) = inl (cache.jwks_uri, fetched)
  provenance s cache jwks (inl had) (inr have) = inr (cache, had, have)
  provenance s cache jwks (inr empty) (inr have) = ground arith

  -- A token that validateToken accepts is acceptable under the server's settings.
  pub validate_token-ValidFor :
      (token : String) (s s' : Server) {tc : TokenClaims}
      → validate_token w token s ≡ (s', ok tc)
      → (s'.cfg ≡ s.cfg) × ValidFor w s.cfg s token tc
  unfolding validate_token
  validate_token-ValidFor token s s' {tc} h =
      let (s₁, cache, e₁, h₁) = with_cache-ok token (jwks_cache_for_issuer w s) s' h in
      let (jwks, e₂, checked) = with_jwks-ok token (current_jwks w cache s₁) s' h₁ in
      let (cfg₁, had) = jwks_cache_for_issuer_lem s s₁ e₁ in
      let (cfg₂, have) =
        current_jwks_of_Served cache s₁ s'
          (get-Served w.now w.now (fetched_for cache) cache (le_refl w.now)) e₂ in
      let (claims, accepted, identity) = check_token-Accepted w token jwks s' checked in
      let same : s'.cfg ≡ s.cfg = cfg₂ ∙ cfg₁ in
      (
        same,
        record {
          jwks = jwks;
          from = provenance s cache jwks had have;
          claims = claims;
          accepted =
              subst
                (λ (cfg : Config).
                  Accepted w.crypto w.json (w.unix w.now) token jwks cfg.issuer_url cfg.client_id
                    cfg.client_secret [] claims)
                same accepted;
          identity = identity;
        },
      )
