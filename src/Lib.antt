-- ===== src/Lib.antt =====
-- Verification of talosctl-oidc: a server that turns an OpenID Connect ID token into a short-lived
-- Talos client certificate, and what stands around it.
--
-- A request to POST /exchange passes the rate limiter (pkg/ratelimit/ratelimit.go) and the allowlist
-- (pkg/allowlist/allowlist.go). The handler (pkg/server/server.go) validates the token
-- (pkg/oidc/jwt.go) with a key set from the provider (pkg/oidc/provider.go) behind a cache
-- (pkg/oidc/jwks_cache.go), maps its claims to roles (pkg/rbac/rbac.go), and asks the Talos API for a
-- certificate (pkg/talosapi/talosapi.go). Each outcome goes to the audit log (pkg/audit/audit.go),
-- whose listeners keep the statistics and the certificate log (pkg/admin); the anomaly detector
-- (pkg/anomaly/detector.go) counts failures and uses of tokens. The dashboard
-- (pkg/server/admin_dashboard.go) has its own sessions and its own protection of the login form. The
-- server is built from a file and the environment (pkg/config/config.go, cmd/serve.go), and serves its
-- own certificate from two files that may change (pkg/server/certreload.go) or makes one itself.
--
-- On the other side, the command line (cmd/login.go) takes an ID token from the keychain
-- (pkg/keychain/keychain.go), by a refresh, or by a login in the browser or with a device code
-- (pkg/oidc/auth.go, pkg/oidc/provider.go), posts it to the server, and writes the certificate to the
-- talosconfig file (pkg/talosconfig/talosconfig.go); a logout (cmd/logout.go) undoes both.
--
-- The files and the code that each models:
--   Base, Text, Net, Clock: lists, maps and tests; what the program uses of Go's strings, net and time
--   Request, Request/Forwarded: http.Request, and extractIP and isTrustedProxy of the rate limiter,
--     whose text the allowlist repeats
--   Ratelimit: Limiter with New, Allow, Middleware, Cleanup; Ratelimit/History, Ratelimit/Window;
--     Ratelimit/Steps: Allow and Cleanup in the steps that their locks make
--   Allowlist: New, Allowed, Middleware; Allowlist/Coverage
--   Claims, Rbac: a token's claims, MapRoles and matchesValue; Rbac/Roles
--   Oidc/Jwks, Oidc/Signature, Oidc/Jwt: findKey, verifySignature, ValidateIDToken, with what they
--     accept in Oidc/Jwt/Accepted
--   Oidc/JwksCache, Oidc/Provider: JWKSCache.Get, Discover, FetchJWKS
--   Oidc/Tokens, Oidc/Device: ExchangeCode, RefreshAccessToken, RequestDeviceCode, PollDeviceToken
--   Oidc/Callback, Oidc/Auth: the callback server, Authenticate and AuthenticateDevice
--   Config, Serve: Load, Validate and ApplyDefaults; runServe up to the server, and Start's TLS mode
--   Server/CertReload, Server/SelfSigned: certReloader; loadOrGenerateSelfSignedTLS
--   Login, Login/Renewal, Logout: obtainIDToken; a round of runLogin with exchangeTokenForCert;
--     runLogout
--   Audit, Admin: Logger.Log, Tracker and CertLog
--   Anomaly: Detector; Anomaly/Alarms, Anomaly/Counting
--   TalosApi: Issuer.Issue
--   Server, Server/Tokens, Server/Exchange: Server, validateToken, handleExchange
--   Server/Guards: the middleware of New, requireAdminToken and the handlers of the admin API
--   Keychain: Store, Retrieve, Delete and bestToken of pkg/keychain/keychain.go
--   TalosConfig: Load, GetCertificateExpiry, SetContextFromPEM, RemoveContext and Save of
--     pkg/talosconfig/talosconfig.go
--   Server/Dashboard: sessionStore, bruteForceProtector, handleAdminLogin and handleAdminLogout;
--     Server/Dashboard/Page: handleAdminDashboard
--
-- State is passed explicitly: an operation takes the state and gives the new one with its answer. A
-- call is one step, as under a lock that is held from its start to its end; Limiter.Allow, which takes
-- two locks in turn, is also there in two steps. A time is a number of nanoseconds and an argument, as
-- is each random value; what the disk holds is one for each moment at which it is read. A channel is a
-- list with a bound, and the choice of a select is an argument. A Go map is a function from its keys,
-- or an association list for the headers and claims; an address is its 16 bytes as a number. Counters
-- are taken not to wrap; the exponent of an RSA key and a duration made of seconds wrap at 64 bits as
-- the code's do. The strings are over code points, where Go's are bytes. Two loops run on
-- fuel. Each poll of a device login comes at least a second after the one before it, so that two polls
-- more than the lifetime has seconds are enough, as Oidc/Device/Ends has it; the search for a
-- certificate among PEM blocks needs no more than the length of the text (TalosConfig/Expiry).
--
-- Parameters: base64, JSON, the cryptographic primitives, SHA-256, the answers of HTTP requests, the
-- Talos machinery client, the file system, the keychain, YAML and the error texts. They stand in
-- records (Crypto, Json, Machinery, World, Host, Access, Disk, Maker) and no law is asked of them but
-- where a theorem names one.
--
-- Not modelled: the flags and the printing of the command line, the status command, the opening of a
-- browser, the table of routes, the shutdown of the servers, the making of keys and X.509 certificates, the HTML pages, the
-- debug output, and the stand-in for the Talos API that the tests use (internal/mocktalos).
pub mod Base
pub mod Text
pub mod Net
pub mod Clock
pub mod Config
pub mod Request
pub mod Ratelimit
pub mod Allowlist
pub mod Claims
pub mod Rbac
pub mod Oidc
pub mod Audit
pub mod Admin
pub mod Anomaly
pub mod TalosApi
pub mod Server
pub mod Serve
pub mod Keychain
pub mod TalosConfig
pub mod Login
pub mod Logout
