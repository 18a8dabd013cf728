-- ===== src/Audit.antt =====
-- pkg/audit/audit.go: the events, and the logger that writes each as a line and tells its
-- listeners. A listener is a step on the state that it keeps; json.Marshal is a parameter.
use talosctl_oidc.Base.{
  ℕ, ◌==◌, String, List, [], ◌∷◌, ◌++◌, Option, none, some, if◌then◌else◌, eqb, ◌||◌,
}

pub data EventType : Type 0 where
  cert_issued auth_failure auth_success cert_error : EventType

-- The time 0 is Go's zero time.
pub record Event : Type 0 where
  pub timestamp : ℕ
  pub type : EventType
  pub subject : String
  pub email : String
  pub issuer : String
  pub client_ip : String
  pub roles : List String
  pub cert_ttl : ℕ
  pub cert_expiry : Option ℕ
  pub cert_fingerprint : String
  pub error : String
  pub detail : String
  pub request_id : String
  pub event_category : String
  pub event_outcome : String
  pub event_action : String
  pub severity : String

unfoldable pub severity_for_event : EventType → String
severity_for_event cert_issued = "INFO"
severity_for_event auth_success = "INFO"
severity_for_event auth_failure = "WARN"
severity_for_event cert_error = "WARN"

pub data Destination : Type 0 where
  stdout : Destination
  file : String → Destination

-- The destination that NewLogger opens; opening a file may fail.
unfoldable pub destination : String → Destination
destination path = if path == "" || path == "-" then stdout else file path

-- The logger with the state `S` of its listeners: the lines written, oldest first.
pub record Logger (S : Type 0) : Type 0 where
  pub lines : List String
  pub listeners : List (Event → S → S)
  pub state : S

-- An event without a time gets the time of the call.
unfoldable pub stamped : ℕ → Event → Event
stamped now event = if eqb event.timestamp 0 then record event { timestamp = now } else event

module _ {S : Type 0} where
  unfoldable pub add_listener : (Event → S → S) → Logger S → Logger S
  add_listener fn l = record l { listeners = l.listeners ++ fn ∷ [] }

  -- Each listener in turn.
  unfoldable pub notify : List (Event → S → S) → Event → S → S
  notify [] event s = s
  notify (fn ∷ fns) event s = notify fns event (fn event s)

  unfoldable pub log : (Event → Option String) → ℕ → Event → Logger S → Logger S
  log marshal now event l =
      let e = stamped now event in
      elim (marshal e) [
        | none ↦ l
        | some line ↦ record l {
          lines = l.lines ++ line ∷ [];
          state = notify l.listeners e l.state;
        }
      ]
