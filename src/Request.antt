-- ===== src/Request.antt =====
-- What the handlers read of an `http.Request`, and the reading of the client's address that
-- pkg/ratelimit/ratelimit.go and pkg/allowlist/allowlist.go share.
pub mod Forwarded
use talosctl_oidc.Base.{ℕ, String, Bool, List, Option, or_else, lookup}

pub record Request : Type 0 where
  pub method : String
  -- "host:port" of the direct peer
  pub remote_addr : String
  -- The first value of each header.
  pub headers : List (String × String)
  -- The session cookie, if the request has one.
  pub cookie : Option String
  -- `http.MaxBytesReader` and `io.ReadAll`: none past the limit or on a failed read.
  pub body : Option String

-- `r.Header.Get(name)`: "" for a header that is not there.
unfoldable pub header : String → Request → String
header name r = or_else (lookup name r.headers) ""
