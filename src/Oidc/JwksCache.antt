-- ===== src/Oidc/JwksCache.antt =====
-- pkg/oidc/jwks_cache.go: the cache of the key set. Get reads under the read lock, and where that
-- gives nothing goes on under the write lock; another request may act between the two, so each is
-- a step of its own. The answer of the provider, with the time at which it came, is an argument.
pub mod Freshness
mod Examples
use talosctl_oidc.Base.{
  ℕ, ◌+◌, ◌*◌, String, Bool, true, false, ◌&&◌, List, Option, none, some, Result, ok, err,
  if◌then◌else◌, ℤ, is_positive, pos_part,
}
use talosctl_oidc.Clock.{minute, within}
use talosctl_oidc.Oidc.Jwks.{Jwks}

pub record Cache : Type 0 where
  pub jwks : Option Jwks
  pub fetched_at : ℕ
  pub ttl : ℕ
  pub jwks_uri : String

unfoldable pub new_cache : String → ℤ → Cache
new_cache jwks_uri ttl = record {
  jwks = none;
  fetched_at = 0;
  ttl = if is_positive ttl then pos_part ttl else 5 * minute;
  jwks_uri = jwks_uri;
}

pub data FetchError : Type 0 where
  fetch_failed : FetchError

-- What FetchJWKS returned, and when.
pub record Fetched : Type 0 where
  pub result : Result FetchError Jwks
  pub at : ℕ

-- The check that both paths make: a key set, if there is one that is not too old.
unfoldable pub valid : ℕ → Cache → Option Jwks
valid now c = elim c.jwks [
  | none ↦ none
  | some jwks ↦ if within now c.fetched_at c.ttl then some jwks else none
]

-- The slow path behind its own check: a failed fetch falls back on what is cached, however old.
unfoldable pub refresh : Fetched → Cache → Cache × Result FetchError Jwks
refresh fetched c = elim fetched.result [
  | ok jwks ↦ (record c { jwks = some jwks; fetched_at = fetched.at }, ok jwks)
  | err e ↦ elim c.jwks [ some stale ↦ (c, ok stale) | none ↦ (c, err e) ]
]

-- Under the write lock.
unfoldable pub get_locked : ℕ → Fetched → Cache → Cache × Result FetchError Jwks
get_locked now fetched c = elim (valid now c) [
  | some jwks ↦ (c, ok jwks)
  | none ↦ refresh fetched c
]

-- Get, where nothing happens between the locks. The fetch is used only if neither check answers.
unfoldable pub get : ℕ → ℕ → Fetched → Cache → Cache × Result FetchError Jwks
get now later fetched c = elim (valid now c) [
  | some jwks ↦ (c, ok jwks)
  | none ↦ get_locked later fetched c
]
