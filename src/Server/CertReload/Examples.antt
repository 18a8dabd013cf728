-- ===== src/Server/CertReload/Examples.antt =====
-- A rotation: the certificate file is replaced at the moment 10 and the key file at the moment 18, so
-- that a reload in between meets a pair that does not match.
use talosctl_oidc.Base.{
  ℕ, ◌*◌, ◌≤◌, ◌≡◌, refl, String, ◌==◌, none, some, ok, if◌then◌else◌, ltb, arith, subst,
}
use talosctl_oidc.Clock.{minute}
use talosctl_oidc.Server.CertReload.{
  File, Disk, CertReloader, stamp_of, fingerprint, load_x509_key_pair, load, new_cert_reloader,
  reload, refresh, get_certificate,
}
use talosctl_oidc.Server.CertReload.Matched.{Reached, get_certificate-Loaded}
use talosctl_oidc.Server.CertReload.Fresh.{Settled, KeepsTime, get_certificate-Settled}

abbrev old_cert : File
old_cert = record { size = 900; modified = 1; content = "old" }

abbrev old_key : File
old_key = record { size = 200; modified = 1; content = "old" }

abbrev new_cert : File
new_cert = record { size = 900; modified = 2; content = "new" }

abbrev new_key : File
new_key = record { size = 200; modified = 3; content = "new" }

abbrev disk : Disk String
disk = record {
  cert_file = λ t. some (if ltb t 10 then old_cert else new_cert);
  key_file = λ t. some (if ltb t 18 then old_key else new_key);
  keypair = λ cert key. if cert == key then some cert else none;
}

abbrev first : CertReloader String
first = record {
  interval = minute;
  cert = "old";
  stamp = stamp_of old_cert old_key;
  last_check = 0;
}

-- What a reload between the two writes leaves.
abbrev halfway : CertReloader String
halfway = record first { last_check = 2 * minute }

abbrev last : CertReloader String
last = record first { cert = "new"; stamp = stamp_of new_cert new_key; last_check = 3 * minute }

new_cert_reloader_test : new_cert_reloader disk minute 0 0 ≡ ok first
unfolding new_cert_reloader load fingerprint load_x509_key_pair
new_cert_reloader_test = refl

refresh_test : refresh disk 10 (2 * minute) first ≡ halfway
unfolding refresh reload load fingerprint load_x509_key_pair
refresh_test = refl

get_certificate_test :
    get_certificate disk 20 (3 * minute) (3 * minute) halfway halfway ≡ (last, "new")
unfolding get_certificate refresh reload load fingerprint load_x509_key_pair
get_certificate_test = refl

first-Reached : Reached disk 4 first
first-Reached = Reached.started minute 0 0 new_cert_reloader_test

halfway-Reached : Reached disk 16 halfway
halfway-Reached =
    subst (Reached disk 16) refresh_test
      (Reached.refreshed 10 (2 * minute) first-Reached (omega arith))

disk-Settled : Settled disk 20 new_cert new_key
disk-Settled = (λ j h. ground arith, λ j h. ground arith)

cert-KeepsTime : KeepsTime disk disk.cert_file new_cert
cert-KeepsTime i j f e size modified h = ground arith

key-KeepsTime : KeepsTime disk disk.key_file new_key
key-KeepsTime i j f e size modified h = ground arith

get_certificate-Loaded_example :
    (k : ℕ) × (k ≤ 26)
    × (load_x509_key_pair disk k
        ≡ ok (get_certificate disk 20 (3 * minute) (3 * minute) first halfway).1)
get_certificate-Loaded_example =
    get_certificate-Loaded disk 4 16 20 (3 * minute) (3 * minute) first halfway first-Reached
      halfway-Reached (omega arith) (omega arith)

get_certificate-Settled_example :
    (get_certificate disk 20 (3 * minute) (3 * minute) first halfway).1 ≡ "new"
get_certificate-Settled_example =
    get_certificate-Settled disk new_cert new_key "new" refl 16 20 (3 * minute) (3 * minute) first
      halfway halfway-Reached disk-Settled cert-KeepsTime key-KeepsTime (omega arith) (omega arith)
