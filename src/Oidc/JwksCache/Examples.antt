-- ===== src/Oidc/JwksCache/Examples.antt =====
-- The cache at concrete times.
use talosctl_oidc.Base.{◌*◌, none, some, ok, err, arith}
use talosctl_oidc.Clock.{second, minute}
use talosctl_oidc.Oidc.JwksCache.{Cache, Fetched, fetch_failed, get}
use talosctl_oidc.Oidc.JwksCache.Freshness.{Served, get-Served}
use talosctl_oidc.Oidc.Toy.{jwks}

abbrev cold : Cache
cold = record { jwks = none; fetched_at = 0; ttl = 5 * minute; jwks_uri = "https://idp/keys" }

abbrev warm : Cache
warm = record {
  jwks = some jwks;
  fetched_at = 10 * second;
  ttl = 5 * minute;
  jwks_uri = "https://idp/keys";
}

abbrev answer : Fetched
answer = record { result = ok jwks; at = 10 * second }

abbrev outage : Fetched
outage = record { result = err fetch_failed; at = 10 * minute }

get-Served_example : Served (10 * minute) outage warm (get (10 * minute) (10 * minute) outage warm)
get-Served_example = get-Served (10 * minute) (10 * minute) outage warm (omega arith)
