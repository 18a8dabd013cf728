-- ===== src/Oidc/JwksCache/Freshness.antt =====
-- What the cache serves.
use talosctl_oidc.Base.{
  ℕ, ◌+◌, ◌≤◌, ◌<◌, ◌≡◌, ◌⊎◌, inl, inr, true, none, some, Result, ok, err, Option-cases,
  Result-cases, Bool-cases, is_ok, is_some, arith,
}
use talosctl_oidc.Clock.{within}
use talosctl_oidc.Oidc.Jwks.{Jwks}
use talosctl_oidc.Oidc.JwksCache.{Cache, FetchError, Fetched, valid, refresh, get_locked, get}

-- The ways in which a call of Get can come out.
pub data Served (now : ℕ) (fetched : Fetched) (c : Cache) (r : Cache × Result FetchError Jwks)
    : Type 0 where
  from_cache :
      {jwks : Jwks}
      → c.jwks ≡ some jwks
      → now < c.fetched_at + c.ttl
      → r ≡ (c, ok jwks)
      → Served now fetched c r
  renewed :
      {jwks : Jwks}
      → ((c.jwks ≡ none) ⊎ (c.fetched_at + c.ttl ≤ now))
      → fetched.result ≡ ok jwks
      → r ≡ (record c { jwks = some jwks; fetched_at = fetched.at }, ok jwks)
      → Served now fetched c r
  stale :
      {jwks : Jwks} {e : FetchError}
      → c.jwks ≡ some jwks
      → c.fetched_at + c.ttl ≤ now
      → fetched.result ≡ err e
      → r ≡ (c, ok jwks)
      → Served now fetched c r
  failed :
      {e : FetchError}
      → c.jwks ≡ none
      → fetched.result ≡ err e
      → r ≡ (c, err e)
      → Served now fetched c r

-- Every call of Get does one of four things. It serves the cached key set while that is younger
-- than the TTL and changes nothing; else it serves and keeps what the provider gives; else, where
-- the provider fails, it serves what it has, however old; and it fails only where nothing is cached
-- and the provider fails.
pub get-Served :
    (now later : ℕ) (fetched : Fetched) (c : Cache)
    → now ≤ later
    → Served now fetched c (get now later fetched c)
unfolding get get_locked refresh valid
get-Served now later fetched c le = elim (Option-cases c.jwks) [
  | inl e ↦ elim (Result-cases fetched.result) [
    | inl (jwks, fine) ↦ renewed (inl e) fine (ground arith)
    | inr (bad, fails) ↦ failed e fails (ground arith)
  ]
  | inr (old, e) ↦ elim (Bool-cases (within now c.fetched_at c.ttl)) [
    | inl young ↦ from_cache e (ground arith) (ground arith)
    | inr aged ↦ elim (Result-cases fetched.result) [
      | inl (jwks, fine) ↦ renewed (inr (ground arith)) fine (ground arith)
      | inr (bad, fails) ↦ stale e (ground arith) fails (ground arith)
    ]
  ]
]

-- A key set that was fetched into an empty cache is what the next call serves, whatever the provider
-- would answer then and with no change of the cache, as long as less than the TTL has passed.
pub get-get :
    (now later t : ℕ) (fetched again : Fetched) (c : Cache) {jwks : Jwks}
    → c.jwks ≡ none
    → fetched.result ≡ ok jwks
    → t < fetched.at + c.ttl
    → get t t again (get now later fetched c).0 ≡ ((get now later fetched c).0, ok jwks)
unfolding get get_locked refresh valid
get-get now later t fetched again c e fine young = ground arith

-- With a key set in the cache a call of Get does not fail, whatever the provider does, and leaves a
-- set in the cache.
pub get_keeps :
    (now later : ℕ) (fetched : Fetched) (c : Cache)
    → is_some c.jwks ≡ true
    → (is_ok (get now later fetched c).1 ≡ true) × (is_some (get now later fetched c).0.jwks ≡ true)
unfolding get get_locked refresh valid
get_keeps now later fetched c have = ground arith
