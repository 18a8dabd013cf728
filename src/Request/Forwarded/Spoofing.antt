-- ===== src/Request/Forwarded/Spoofing.antt =====
-- A client cannot choose the address that it counts as by what it writes in X-Forwarded-For.
use Prim.Native.Char.{Char}
use text.Mathlib.TextLemmas.{nil-append, cons-append}
use mathlib.Core.List.{reverse-append}
use talosctl_oidc.Base.{
  ◌≡◌, ◌≢◌, ap, sym, ◌∙◌, String, false, List, [], ◌∷◌, ◌++◌, some, arith, reverse, eq_iff,
}
use talosctl_oidc.Text.{split}
use talosctl_oidc.Text.Laws.{◌+++◌, split-append}
use talosctl_oidc.Net.{Network}
use talosctl_oidc.Request.{Request, header}
use talosctl_oidc.Request.Forwarded.{is_trusted_proxy, first_untrusted, peer, extract_ip}

-- Where the direct peer is not a trusted proxy, the address is the peer's, whatever the request's
-- headers say.
pub extract_ip-untrusted :
    (trusted : List Network) (r : Request)
    → is_trusted_proxy trusted (peer r) ≡ false
    → extract_ip trusted r ≡ peer r
unfolding extract_ip peer
extract_ip-untrusted trusted r h = ground arith

first_untrusted-append :
    (trusted : List Network) (xs ys : List String) {ip : String}
    → first_untrusted trusted xs ≡ some ip
    → first_untrusted trusted (xs ++ ys) ≡ some ip
unfolding first_untrusted
first_untrusted-append trusted [] ys h = cc
first_untrusted-append trusted (x ∷ xs) ys {ip} h =
    ground (arith, first_untrusted-append trusted xs ys {ip = ip})

comma-cons : (t : String) → ("," +++ t) ≡ String.◌∷◌ "," t
comma-cons t = cons-append "," "" t ∙ ap (String.◌∷◌ ",") (nil-append t)

cons-ne-nil : (c : Char) (s t : String) → (s +++ String.◌∷◌ c t) ≢ ""
cons-ne-nil c String.[] t e = let h : String.◌∷◌ c t ≡ "" = sym (nil-append _) ∙ e in cc
cons-ne-nil c (String.◌∷◌ d s) t e =
    let h : String.◌∷◌ d (s +++ String.◌∷◌ c t) ≡ "" = sym (cons-append d s _) ∙ e in cc

first_untrusted-forged :
    (trusted : List Network) (client_part own : String) {ip : String}
    → first_untrusted trusted (reverse (split b',' own)) ≡ some ip
    → first_untrusted trusted (reverse (split b',' (client_part +++ String.◌∷◌ "," own))) ≡ some ip
first_untrusted-forged trusted client_part own found =
    rw (split-append "," client_part own, reverse-append (split b',' client_part) (split b',' own))
      (first_untrusted-append trusted (reverse (split b',' own)) _ found)

-- Where the part of the header that the proxies wrote is not empty and names an address that is
-- not a trusted proxy, what a client put in front of it, with a comma between, does not change
-- the address.
pub extract_ip-forged :
    (trusted : List Network) (honest forged : Request) (own client_part ip : String)
    → peer forged ≡ peer honest
    → header "X-Forwarded-For" honest ≡ own
    → own ≢ ""
    → header "X-Forwarded-For" forged ≡ client_part +++ ("," +++ own)
    → first_untrusted trusted (reverse (split b',' own)) ≡ some ip
    → extract_ip trusted forged ≡ extract_ip trusted honest
unfolding extract_ip
extract_ip-forged trusted honest forged own client_part ip same_peer h some_own f found =
    let f' : header "X-Forwarded-For" forged ≡ client_part +++ String.◌∷◌ "," own =
      f ∙ ap (λ s. client_part +++ s) (comma-cons own) in
    ground (
      arith,
      eq_iff own "",
      eq_iff (client_part +++ String.◌∷◌ "," own) "",
      cons-ne-nil "," client_part own,
      first_untrusted-forged trusted client_part own found,
    )
