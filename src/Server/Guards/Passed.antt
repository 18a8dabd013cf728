-- ===== src/Server/Guards/Passed.antt =====
-- What stands between a client and a certificate.
use talosctl_oidc.Base.{
  ℕ, ◌≡◌, refl, inl, inr, String, Bool, true, false, Option, none, some, if◌then◌else◌, arith,
  Bool-cases, sym, ◌∙◌, ap,
}
use talosctl_oidc.Request.{Request}
use talosctl_oidc.Request.Forwarded.{extract_ip}
use talosctl_oidc.Ratelimit.{Limiter, middleware as limit, is_enabled as limits, allow}
use talosctl_oidc.Allowlist.{Allowlist, middleware as screen, is_enabled as screens, allowed}
use talosctl_oidc.Server.{Server, CertResponse, Response, certificate, write_error, write_json}
use talosctl_oidc.Server.Tokens.{World}
use talosctl_oidc.Server.Exchange.{handle_exchange}
use talosctl_oidc.Server.Exchange.Issued.{IssuedFor, handle_exchange-IssuedFor}
use talosctl_oidc.Server.Guards.{after_screen, screened_exchange, after_limit, exchange_route}

-- Whether the allowlist, if there is one, lets the address of the request through.
abbrev pub is_listed : Request → Option Allowlist → Bool
is_listed r none = true
is_listed r (some a) = allowed a (extract_ip a.trusted r)

-- Whether the rate limiter, if there is one, has room for the address of the request.
abbrev pub has_room : ℕ → Request → Option Limiter → Bool
has_room now r none = true
has_room now r (some l) = (allow now (extract_ip l.trusted r) l).1

-- The rate limiter after the request.
abbrev pub counted : ℕ → Request → Option Limiter → Option Limiter
counted now r none = none
counted now r (some l) = some (allow now (extract_ip l.trusted r) l).0

screened_exchange_lem :
    (w : World) (r : Request) (a : Option Allowlist) (s : Server)
    → screened_exchange w r a s
      ≡ (if is_listed r a then handle_exchange w r s else (s, write_error 403 "IP not allowed"))
unfolding screened_exchange after_screen screen allowed
screened_exchange_lem w r none s = refl
screened_exchange_lem w r (some a) s = elim (Bool-cases (screens a)) [
  | inl on ↦ ground arith
  | inr off ↦ ground arith
]

allow_off :
    (now : ℕ) (ip : String) (l : Limiter)
    → limits l ≡ false
    → ((allow now ip l).0 ≡ l) × ((allow now ip l).1 ≡ true)
unfolding allow
allow_off now ip l off = ground arith

limit_on :
    (w : World) (r : Request) (a : Option Allowlist) (l : Limiter) (s : Server)
    → limits l ≡ true
    → ((limit w.now r l).0 ≡ (allow w.now (extract_ip l.trusted r) l).0)
      × (after_limit w r a s (limit w.now r l).1 ≡ (
          if (allow w.now (extract_ip l.trusted r) l).1
          then screened_exchange w r a s
          else (s, write_error 429 "rate limit exceeded")))
unfolding after_limit limit
limit_on w r a l s on = elim (Bool-cases (allow w.now (extract_ip l.trusted r) l).1) [
  | inl room ↦ ground arith
  | inr full ↦ ground arith
]

-- The route "/exchange" asks the rate limiter first, if there is one, then the allowlist, if there
-- is one, and then the handler. A request that the limiter has no room for is answered 429, one
-- from an address that is not listed 403, and neither changes the server or its audit log. Whatever
-- the answer, the limiter is left as its Allow leaves it.
pub exchange_route_lem :
    (w : World) (r : Request) (a : Option Allowlist) (l : Option Limiter) (s : Server)
    → ((exchange_route w r a l s).0 ≡ counted w.now r l)
      × ((exchange_route w r a l s).1 ≡ (
          if has_room w.now r l
          then (if is_listed r a
              then handle_exchange w r s
              else (s, write_error 403 "IP not allowed"))
          else (s, write_error 429 "rate limit exceeded")))
unfolding exchange_route
exchange_route_lem w r a none s = (refl, screened_exchange_lem w r a s)
exchange_route_lem w r a (some l) s =
    let screened = screened_exchange_lem w r a s in
    elim (Bool-cases (limits l)) [
      | inl on ↦ let gate = limit_on w r a l s on in (ground arith, ground arith)
      | inr off ↦
          let open_gate = allow_off w.now (extract_ip l.trusted r) l off in
          (ground arith, ground arith)
    ]

-- Over the route "/exchange" a certificate is handed out only if the rate limiter has room for the
-- request, the allowlist lets its address through, and the token and the roles are as the handler
-- asks.
pub exchange_route-IssuedFor :
    (w : World) (r : Request) (a : Option Allowlist) (l : Option Limiter) (s : Server)
    (c : CertResponse)
    → (exchange_route w r a l s).1.1 ≡ write_json (certificate c)
    → (has_room w.now r l ≡ true) × (is_listed r a ≡ true) × IssuedFor w r s c
exchange_route-IssuedFor w r a l s c h =
    let routed = (exchange_route_lem w r a l s).1 in
    let h₁ = sym (ap (λ (p : Server × Response). p.1) routed) ∙ h in
    elim (Bool-cases (has_room w.now r l)) [
      | inl room ↦ elim (Bool-cases (is_listed r a)) [
        | inl listed_there ↦ (room, listed_there, handle_exchange-IssuedFor w r s c (ground arith))
        | inr other ↦ ground arith
      ]
      | inr full ↦ ground arith
    ]
