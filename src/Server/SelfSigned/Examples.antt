-- ===== src/Server/SelfSigned/Examples.antt =====
-- A certificate that runs out, and the renewal of it.
use talosctl_oidc.Base.{◌*◌, ◌==◌, ◌≡◌, refl, String, none, some, ok, err, if◌then◌else◌, arith}
use talosctl_oidc.Clock.{hour}
use talosctl_oidc.Server.SelfSigned.{
  Material, Maker, cert_expired, not_a_pair, failed, load_persisted, check_files, check_leaf,
  load_x509_key_pair, load_or_generate, restart,
}
use talosctl_oidc.Server.SelfSigned.Restart.{
  all_done, kept, torn, load_or_generate-again, load_or_generate-stuck,
}

abbrev old : Material
old = record { ca_pem = "ca1"; ca_key_pem = "cakey1"; cert_pem = "1"; key_pem = "1" }

abbrev new : Material
new = record { ca_pem = "ca2"; ca_key_pem = "cakey2"; cert_pem = "2"; key_pem = "2" }

-- A pair matches where its two texts are the same.
abbrev maker : Maker String
maker = record {
  keypair = λ cert key. if cert == key then some cert else none;
  not_after = λ c. some (if c == "1" then 100 * hour else 1000 * hour);
  generated = some new;
}

stale : (load_persisted maker (90 * hour) (kept old)).1 ≡ err cert_expired
unfolding load_persisted check_files check_leaf load_x509_key_pair
stale = refl

load_or_generate-again_example :
    load_or_generate maker
      (800 * hour)
      all_done
      (restart (load_or_generate maker (90 * hour) all_done (kept old)).0)
    ≡ (kept new, ok "2")
load_or_generate-again_example =
    load_or_generate-again maker new "2" refl (90 * hour) (800 * hour) (1000 * hour) all_done
      (kept old) cert_expired refl stale refl refl (omega arith)

load_or_generate-stuck_example :
    (load_or_generate maker
        (90 * hour)
        (record all_done { server_key = failed (some "1") })
        (kept old)
      ≡ (torn new "1", ok "2"))
    × (load_or_generate maker (91 * hour) all_done (record (torn new "1") { ca_pem = "" })
        ≡ (torn new "1", err not_a_pair))
load_or_generate-stuck_example =
    load_or_generate-stuck maker new "2" refl (90 * hour) (91 * hour) all_done (kept old)
      cert_expired "1" "" refl stale refl refl
