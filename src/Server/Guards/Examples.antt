-- ===== src/Server/Guards/Examples.antt =====
-- The routes of the server at concrete requests.
use talosctl_oidc.Base.{◌≡◌, ◌↔◌, refl, true, [], ◌∷◌, none, some, pos, lookup, ◌∙◌}
use talosctl_oidc.Clock.{minute}
use talosctl_oidc.Text.{cut_prefix}
use talosctl_oidc.Request.{Request, header}
use talosctl_oidc.Ratelimit.{Limiter, allow, middleware, is_enabled}
use talosctl_oidc.Server.{write_error, write_json, certificate}
use talosctl_oidc.Server.Exchange.{handle_exchange}
use talosctl_oidc.Server.Exchange.Issued.{IssuedFor}
use talosctl_oidc.Server.Guards.{
  exchange_route, after_limit, screened_exchange, require_admin_token,
}
use talosctl_oidc.Server.Guards.Passed.{has_room, is_listed, exchange_route-IssuedFor}
use talosctl_oidc.Server.Guards.Bearer.{HasToken, require_admin_token_iff}
use talosctl_oidc.Server.Toy.{world, request, server, response, handle_exchange_test}

abbrev limiter : Limiter
limiter = record { requests = pos 1; window = minute; clients = λ ip. none; trusted = [] }

route_test :
    (exchange_route world request none (some limiter) server).1.1
    ≡ (handle_exchange world request server).1
unfolding exchange_route after_limit screened_exchange allow middleware is_enabled
route_test = refl

routed :
    (exchange_route world request none (some limiter) server).1.1
    ≡ write_json (certificate response)
routed = route_test ∙ handle_exchange_test

exchange_route-IssuedFor_example :
    (has_room world.now request (some limiter) ≡ true)
    × (is_listed request none ≡ true)
    × IssuedFor world request server response
exchange_route-IssuedFor_example =
    exchange_route-IssuedFor world request none (some limiter) server response routed

abbrev asking : Request
asking = record {
  method = "GET";
  remote_addr = "10.0.0.7:5000";
  headers = ("Authorization", "Bearer letmein") ∷ [];
  cookie = none;
  body = none;
}

require_admin_token_tests :
    (require_admin_token "letmein" asking ≡ none)
    × (require_admin_token "other" asking ≡ some (write_error 403 "invalid admin token"))
unfolding require_admin_token cut_prefix header lookup
require_admin_token_tests = (refl, refl)

require_admin_token_iff_example :
    (require_admin_token "letmein" asking ≡ none) ↔ HasToken "letmein" asking
require_admin_token_iff_example = require_admin_token_iff "letmein" asking
