-- ===== src/Login/Renewal.antt =====
-- cmd/login.go: the exchange of the ID token at the server, and one round of runLogin. What the
-- server answers, what Load gives at its two calls, and the JSON are parameters.
use talosctl_oidc.Base.{
  ℕ, ◌+◌, ◌-◌, ◌*◌, ◌==◌, String, Bool, true, not, ◌&&◌, List, [], ◌∷◌, Option, none, some, Result,
  ok, err, if◌then◌else◌, eqb, ltb, is_some,
}
use talosctl_oidc.Clock.{second, minute}
use talosctl_oidc.Text.{trim_right_of, cut_prefix}
use talosctl_oidc.Text.Laws.{◌+++◌}
use talosctl_oidc.Keychain.{Stores}
use talosctl_oidc.Oidc.Provider.{Answer}
use talosctl_oidc.Server.{CertResponse}
use talosctl_oidc.TalosConfig.{
  Context, TalosConfig, PemError, set_context, is_certificate_expired, Disk, FileSystem, SaveError,
  save,
}
use talosctl_oidc.Login.{Flags, LoginWorld, LoginError, obtain_id_token}

pub data ExchangeError : Type 0 where
  no_answer bad_response : ExchangeError
  server_returned : ℕ → String → ExchangeError

-- The server as the client sees it: the answer to a POST, and the JSON of both sides.
pub record Client : Type 0 where
  pub post : String → String → Option Answer
  pub marshal : String → String
  pub cert_of : String → Option CertResponse
  pub error_of : String → Option String

-- What is said of an answer that is no success.
unfoldable pub server_error : Client → Answer → ExchangeError
server_error client answer = elim (client.error_of answer.body) [
  | none ↦ server_returned answer.status answer.body
  | some e ↦
      if not (e == "")
      then server_returned answer.status e
      else server_returned answer.status answer.body
]

unfoldable pub exchange_token_for_cert :
    Client → String → String → Result ExchangeError CertResponse
exchange_token_for_cert client server_url id_token =
    elim (client.post (trim_right_of b'/' server_url +++ "/exchange") (client.marshal id_token)) [
      | none ↦ err no_answer
      | some answer ↦
          if not (eqb answer.status 200)
          then err (server_error client answer)
          else elim (client.cert_of answer.body) [ none ↦ err bad_response | some c ↦ ok c ]
    ]

-- What a round of runLogin meets.
pub record RoundWorld : Type 0 where
  pub login : LoginWorld
  -- talosconfig.Load at the start of the round and behind the exchange; none where it fails.
  pub config_before : Option TalosConfig
  pub config_after : Option TalosConfig
  pub expiry_of : Context → Option ℕ
  -- IsCertificateExpired and time.Until read the clock one after the other.
  pub checked_at : ℕ
  pub waited_from : ℕ
  -- buildHTTPClient: whether the CA file is read and holds a certificate.
  pub ca_loads : Bool
  pub client : Client
  pub base64 : String → String
  pub yaml : TalosConfig → FileSystem

pub data RoundError : Type 0 where
  plain_http_refused no_http_client no_talosconfig : RoundError
  no_token : LoginError → RoundError
  exchange_failed : ExchangeError → RoundError
  not_set : PemError → RoundError
  not_saved : SaveError → RoundError

-- The round ends runLogin, or is followed by a sleep and another round.
pub data Step : Type 0 where
  stopped : Result RoundError (Unit {0}) → Step
  again : ℕ → Step

-- How long to wait for a certificate that is still valid: until five minutes before its expiry, but
-- one minute at most.
unfoldable pub wait_duration : ℕ → ℕ → ℕ
wait_duration now expiry =
    let until = expiry - (now + 5 * minute) in if ltb minute until then minute else until

-- The certificate of the context, if there is one whose expiry is known.
unfoldable pub current_expiry : RoundWorld → Flags → Option ℕ
current_expiry w flags = elim w.config_before [
  | none ↦ none
  | some cfg ↦ elim (cfg.contexts flags.context_name) [
    | none ↦ none
    | some context ↦ w.expiry_of context
  ]
]

-- The first part of a round: none where the certificate is to be renewed.
unfoldable pub check_certificate : RoundWorld → Flags → Option Step
check_certificate w flags = elim (current_expiry w flags) [
  | none ↦ none
  | some expiry ↦
      if is_certificate_expired w.checked_at (5 * minute) (some expiry)
      then none
      else if flags.watch
      then some (again (wait_duration w.waited_from expiry))
      else some (stopped (ok tt))
]

-- A failure of the login or of the exchange: a watch goes on a minute later.
unfoldable pub retry : Flags → RoundError → Step
retry flags e = if flags.watch then again minute else stopped (err e)

unfoldable pub http_client_builds : RoundWorld → Flags → Bool
http_client_builds w flags =
    if flags.insecure then true else if not (flags.server_ca == "") then w.ca_loads else true

-- Behind Save, and behind SetContextFromPEM.
unfoldable pub after_save : Flags → List Disk × Result SaveError (Unit {0}) → List Disk × Step
after_save flags (disks, err e) = (disks, stopped (err (not_saved e)))
after_save flags (disks, ok u) =
    (disks, if flags.watch then again (10 * second) else stopped (ok tt))

unfoldable pub after_set :
    RoundWorld → Flags → TalosConfig × Result PemError (Unit {0}) → Disk → List Disk × Step
after_set w flags (cfg, err e) disk = (disk ∷ [], stopped (err (not_set e)))
after_set w flags (cfg, ok u) disk = after_save flags (save (w.yaml cfg) disk)

-- The third part: the certificate goes to the file.
unfoldable pub write_config : RoundWorld → Flags → CertResponse → Disk → List Disk × Step
write_config w flags c disk = elim w.config_after [
  | none ↦ (disk ∷ [], stopped (err no_talosconfig))
  | some cfg ↦
      after_set w flags (set_context w.base64 flags.context_name c.endpoints c.ca c.cert c.key cfg)
        disk
]

unfoldable pub exchange_and_write : RoundWorld → Flags → String → Disk → List Disk × Step
exchange_and_write w flags id_token disk =
    if not (http_client_builds w flags)
    then (disk ∷ [], stopped (err no_http_client))
    else elim (exchange_token_for_cert w.client flags.server_url id_token) [
      | err e ↦ (disk ∷ [], retry flags (exchange_failed e))
      | ok c ↦ write_config w flags c disk
    ]

abbrev pub is_plain : String → Bool
is_plain url = is_some (cut_prefix "http://" url)

-- Behind obtainIDToken.
unfoldable pub after_obtain :
    RoundWorld → Flags → Disk → Stores × Result LoginError String → Stores × (List Disk × Step)
after_obtain w flags disk (s, err e) = (s, (disk ∷ [], retry flags (no_token e)))
after_obtain w flags disk (s, ok id_token) = (s, exchange_and_write w flags id_token disk)

-- The second part, behind the check; none where the login is not over.
unfoldable pub renew : RoundWorld → Flags → Stores → Disk → Option (Stores × (List Disk × Step))
renew w flags s disk =
    if is_plain flags.server_url && not flags.insecure
    then some (s, (disk ∷ [], stopped (err plain_http_refused)))
    else elim (obtain_id_token w.login flags s) [
      | none ↦ none
      | some r ↦ some (after_obtain w flags disk r)
    ]

-- A round of runLogin's loop: the stores, the states of the disk (the last first), and how it ends.
unfoldable pub login_round :
    RoundWorld → Flags → Stores → Disk → Option (Stores × (List Disk × Step))
login_round w flags s disk = elim (check_certificate w flags) [
  | some step ↦ some (s, (disk ∷ [], step))
  | none ↦ renew w flags s disk
]
