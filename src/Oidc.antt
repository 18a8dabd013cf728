-- ===== src/Oidc.antt =====
-- pkg/oidc: keys, signatures and ID tokens, the cache of the key set, and the login flows.
pub mod Jwks
pub mod Signature
pub mod Jwt
pub mod JwksCache
pub mod Provider
pub mod Tokens
pub mod Device
pub mod Callback
pub mod Auth
pub mod Toy
