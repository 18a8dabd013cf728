-- ===== src/Oidc/Auth/Calls.antt =====
-- pkg/oidc/auth.go: which callback a login in the browser takes its code from.
use mathlib.Core.List.{Memᴰ}
use talosctl_oidc.Base.{
  ◌==◌, ◌≡◌, ◌≢◌, ◌⊎◌, inl, inr, refl, sym, ◌∙◌, Bool, not, List, [], ◌∷◌, some, ok, ◌&&◌,
  if◌then◌else◌, is_empty, length, ltb, Bool-cases, List-cases, arith, eq_iff,
}
use talosctl_oidc.Oidc.Callback.{
  Query, AuthResult, CallbackError, Channels, Event, called, failed, refused, no_code, send_error,
  send_result, handle_callback, serve_failed, happen, Choice, take_result, take_error, take_cancel,
  first_result, first_error, wait_for_callback,
}

-- A callback with a code and no error, and the result that it hands on.
abbrev pub HasCode : Query → Type 0
HasCode q = (q.error ≡ "") × (q.code ≢ "")

abbrev pub result_of : Query → AuthResult
result_of q = record { code = q.code; state = q.state }

pub send_error-results :
    (e : CallbackError) (cs : Channels) → (send_error e cs).results ≡ cs.results
unfolding send_error
send_error-results e cs = elim (Bool-cases (ltb (length cs.errors) cs.error_room)) [
  | inl room ↦ rw room refl
  | inr full ↦ rw full refl
]

pub send_result-results :
    (r : AuthResult) (cs : Channels)
    → (send_result r cs).results ≡ (if is_empty cs.results then r ∷ [] else cs.results)
unfolding send_result
send_result-results r cs = elim (Bool-cases (is_empty cs.results)) [
  | inl room ↦ rw room refl
  | inr full ↦ rw full refl
]

pub handle_callback-results :
    (q : Query) (cs : Channels)
    → (handle_callback q cs).results ≡ (
        if q.error == "" && (not (q.code == "") && is_empty cs.results)
        then result_of q ∷ []
        else cs.results)
unfolding handle_callback
handle_callback-results q cs = ground (
  arith,
  send_error-results (refused q.error q.error_description) cs,
  send_error-results no_code cs,
  send_result-results (result_of q) cs,
)

handle_callback-cases :
    (q : Query) (cs : Channels)
    → ((handle_callback q cs).results ≡ cs.results)
      ⊎ (HasCode q × ((handle_callback q cs).results ≡ result_of q ∷ []))
handle_callback-cases q cs =
    let e = handle_callback-results q cs in
    elim (Bool-cases (q.error == "" && (not (q.code == "") && is_empty cs.results))) [
      | inr f ↦ inl (ground (arith, e))
      | inl f ↦
          inr (
            (ground (arith, eq_iff q.error ""), ground (arith, eq_iff q.code "")),
            ground (arith, e),
          )
    ]

-- A result that a callback among the events handed on.
abbrev pub From : List Event → AuthResult → Type 0
From events r = (q : Query) × Memᴰ (called q) events × HasCode q × (r ≡ result_of q)

From-later :
    (e : Event) (events : List Event) (r : AuthResult) → From events r → From (e ∷ events) r
From-later e events r (q, m, has_code, same) = (q, Memᴰ.tail m, has_code, same)

-- Where the first result of the channel comes from.
pub happen-result :
    (events : List Event) (cs : Channels) (r : AuthResult) (rs : List AuthResult)
    → (happen events cs).results ≡ r ∷ rs
    → (cs.results ≡ r ∷ rs) ⊎ From events r
unfolding happen
happen-result [] cs r rs h = inl h
happen-result (failed e ∷ events) cs r rs h =
    elim (happen-result events (send_error (serve_failed e) cs) r rs h) [
      | inl before ↦ inl (sym (send_error-results (serve_failed e) cs) ∙ before)
      | inr later ↦ inr (From-later (failed e) events r later)
    ]
happen-result (called q ∷ events) cs r rs h =
    elim (happen-result events (handle_callback q cs) r rs h) [
      | inr later ↦ inr (From-later (called q) events r later)
      | inl before ↦ elim (handle_callback-cases q cs) [
        | inl kept ↦ inl (sym kept ∙ before)
        | inr (has_code, e) ↦ inr (q, Memᴰ.head refl, has_code, cc)
      ]
    ]

first_result-ok :
    (cs : Channels) {r : AuthResult}
    → first_result cs ≡ some (ok r)
    → (rs : List AuthResult) × (cs.results ≡ r ∷ rs)
unfolding first_result
first_result-ok cs {r} h = elim (List-cases cs.results) [
  | inl e ↦ ground arith
  | inr (x, xs, e) ↦ (xs, ground arith)
]

first_error-ok : (cs : Channels) {r : AuthResult} → first_error cs ≢ some (ok r)
unfolding first_error
first_error-ok cs {r} h = elim (List-cases cs.errors) [
  | inl e ↦ ground arith
  | inr (x, xs, e) ↦ ground arith
]

pub wait_for_callback-ok :
    (choice : Choice) (is_cancelled : Bool) (cs : Channels) {r : AuthResult}
    → wait_for_callback choice is_cancelled cs ≡ some (ok r)
    → (rs : List AuthResult) × (cs.results ≡ r ∷ rs)
unfolding wait_for_callback
wait_for_callback-ok take_result c cs {r} h = first_result-ok cs {r = r} h
wait_for_callback-ok take_error c cs {r} h = elim (first_error-ok cs {r = r} h) [ ]
wait_for_callback-ok take_cancel c cs {r} h = ground arith
