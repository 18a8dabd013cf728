-- ===== src/Login/Toy.antt =====
-- A cached token, the flags of a login and a disk, for the runs of the command line.
use talosctl_oidc.Base.{true, false, [], none, some, no_entries, put}
use talosctl_oidc.Clock.{second, hour}
use talosctl_oidc.Keychain.{StoredToken, missing, Access, Stores}
use talosctl_oidc.Oidc.Callback.{World as AuthWorld, take_cancel}
use talosctl_oidc.Oidc.Device.{Polls}
use talosctl_oidc.TalosConfig.{TalosConfig, FileSystem, Disk}
use talosctl_oidc.Login.{Flags, LoginWorld}

abbrev pub works : Access
works = record {
  marshals = true;
  keyring_sets = true;
  keyring_gets = true;
  keyring_deletes = true;
  has_path = true;
  failed_write = none;
  removes = true;
}

abbrev pub cached_token : StoredToken
cached_token = record {
  access_token = "a";
  refresh_token = "r";
  id_token = "h.p.s";
  expires_at = hour;
  issuer = "https://idp";
  client_id = "talos";
}

abbrev pub stores : Stores
stores = record { keyring = put "oidc" (some cached_token) no_entries; file = missing }

-- A provider that does not answer.
abbrev pub silent : AuthWorld
silent = record {
  transport = λ url. none;
  provider_of = λ body. none;
  post = λ url form. none;
  token_of = λ body. none;
  device_of = λ body. none;
  verifier_bytes = none;
  state_bytes = none;
  base64_url = λ bytes. "";
  sha256 = λ text. [];
  hex = λ bytes. "";
  encode = λ form. "";
  loads_pair = λ cert key. false;
  parse_url = λ url. none;
  listens = λ addr. false;
  now = second;
}

abbrev pub polls : Polls
polls = record {
  post = λ n url form. none;
  took = λ n. 0;
  is_cancelled = λ n. false;
  token_of = λ body. none;
  error_of = λ body. none;
}

abbrev pub login_world : LoginWorld
login_world = record {
  oidc = silent;
  polls = polls;
  fuel = 1;
  device_start = second;
  waiting = record { events = []; is_cancelled = true; choice = take_cancel };
  reading = works;
  refreshing = works;
  caching = works;
  now = second;
  refreshed_at = second;
  print = λ n. "8900";
}

abbrev pub flags : Flags
flags = record {
  provider = "https://idp";
  client_id = "talos";
  client_secret = "";
  scopes = [];
  listen_addrs = [];
  callback_port = 8900;
  redirect_url = "";
  local_cert = "";
  local_key = "";
  device_code = false;
  context_name = "oidc";
  server_url = "https://server/";
  server_ca = "";
  insecure = false;
  watch = true;
}

abbrev pub disk : Disk
disk = record { target = none; temporary = none }

abbrev pub yaml : TalosConfig → FileSystem
yaml cfg = record {
  makes_directory = true;
  yaml = some cfg.context;
  failed_write = none;
  renames = true;
  removes = true;
}
