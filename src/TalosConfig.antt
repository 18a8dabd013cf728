-- ===== src/TalosConfig.antt =====
-- pkg/talosconfig/talosconfig.go: the contexts of a Talos configuration, and the saving of its file.
-- base64 of trimmed bytes is a parameter, and a certificate's expiry what the parsing gives.
pub mod Current
pub mod Saving
pub mod Expiry
mod Examples
use talosctl_oidc.Base.{
  ℕ, zero, suc, ◌+◌, ◌==◌, String, Bool, true, false, not, List, [], ◌∷◌, Option, none, some, Map,
  no_entries, put, remove, Result, ok, err, if◌then◌else◌, is_some,
}
use talosctl_oidc.Clock.{after}

pub record Context : Type 0 where
  pub endpoints : List String
  pub nodes : List String
  pub ca : String
  pub crt : String
  pub key : String

pub record TalosConfig : Type 0 where
  pub context : String
  pub contexts : Map Context

pub data PemError : Type 0 where
  empty_ca empty_certificate empty_key : PemError

-- SetContextFromPEM; `encode` is base64 of the bytes without blanks around them.
unfoldable pub set_context :
    (String → String)
    → String
    → List String
    → String
    → String
    → String
    → TalosConfig
    → TalosConfig × Result PemError (Unit {0})
set_context encode name endpoints ca_pem cert_pem key_pem config =
    let context : Context = record {
      endpoints = endpoints;
      nodes = [];
      ca = encode ca_pem;
      crt = encode cert_pem;
      key = encode key_pem;
    } in
    if ca_pem == ""
    then (config, err empty_ca)
    else if cert_pem == ""
    then (config, err empty_certificate)
    else if key_pem == ""
    then (config, err empty_key)
    else (record { context = name; contexts = put name context config.contexts }, ok tt)

unfoldable pub remove_context : String → TalosConfig → TalosConfig
remove_context name config = record {
  context = if config.context == name then "" else config.context;
  contexts = remove name config.contexts;
}

unfoldable pub has_context : String → TalosConfig → Bool
has_context name config = is_some (config.contexts name)

-- IsCertificateExpired, with what GetCertificateExpiry gave.
unfoldable pub is_certificate_expired : ℕ → ℕ → Option ℕ → Bool
is_certificate_expired now threshold none = true
is_certificate_expired now threshold (some expiry) = after (now + threshold) expiry

-- The file and the temporary one beside it.
pub record Disk : Type 0 where
  pub target : Option String
  pub temporary : Option String

pub data SaveError : Type 0 where
  no_directory not_marshaled not_written not_replaced : SaveError

-- What the system answers: whether the directory is there, the YAML, what a failed write leaves in
-- the temporary file, and whether the file can be renamed and removed.
pub record FileSystem : Type 0 where
  pub makes_directory : Bool
  pub yaml : Option String
  pub failed_write : Option String
  pub renames : Bool
  pub removes : Bool

-- The states of the disk that Save goes through, the last first, and its result.
unfoldable pub save : FileSystem → Disk → List Disk × Result SaveError (Unit {0})
save fs d =
    if fs.makes_directory
    then (elim fs.yaml [
      | none ↦ (d ∷ [], err not_marshaled)
      | some text ↦ elim fs.failed_write [
        | some left ↦ (record d { temporary = some left } ∷ d ∷ [], err not_written)
        | none ↦
            let written : Disk = record d { temporary = some text } in
            if fs.renames
            then (record { target = some text; temporary = none } ∷ written ∷ d ∷ [], ok tt)
            else (
              (if fs.removes then record d { temporary = none } else written) ∷ written ∷ d ∷ [],
              err not_replaced,
            )
      ]
    ])
    else (d ∷ [], err no_directory)

-- What os.ReadFile finds.
pub data Content : Type 0 where
  absent unreadable : Content
  content : String → Content

pub data LoadError : Type 0 where
  not_read not_parsed : LoadError

-- Load: a file that is not there is an empty configuration; `unmarshal` is the YAML decoding, where
-- no `contexts` are no entries.
unfoldable pub load : (String → Option TalosConfig) → Content → Result LoadError TalosConfig
load unmarshal absent = ok (record { context = ""; contexts = no_entries })
load unmarshal unreadable = err not_read
load unmarshal (content text) = elim (unmarshal text) [ none ↦ err not_parsed | some cfg ↦ ok cfg ]

-- A PEM block, and what comes behind it.
pub record Block : Type 0 where
  pub type : String
  pub bytes : String

abbrev pub Pem : Type 0
Pem = String → Option (Block × String)

-- The loop of GetCertificateExpiry, on fuel: the block that it ends with, none where Decode finds none.
unfoldable pub last_block : Pem → ℕ → Option Block → String → Option Block
last_block decode zero block rest = block
last_block decode (suc fuel) block rest = elim (decode rest) [
  | none ↦ if rest == "" then block else none
  | some (b, more) ↦
      let later = last_block decode fuel (some b) more in
      if rest == "" then block else if b.type == "CERTIFICATE" then some b else later
]

-- GetCertificateExpiry; base64 and the parsing of a certificate are parameters.
unfoldable pub certificate_expiry :
    (String → Option String) → Pem → (String → Option ℕ) → ℕ → Context → Option ℕ
certificate_expiry base64 decode parse fuel context =
    if context.crt == "" then none else elim (base64 context.crt) [
      | none ↦ none
      | some text ↦ elim (last_block decode fuel none text) [
        | none ↦ none
        | some block ↦ if not (block.type == "CERTIFICATE") then none else parse block.bytes
      ]
    ]
