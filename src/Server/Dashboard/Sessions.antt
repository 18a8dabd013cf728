-- ===== src/Server/Dashboard/Sessions.antt =====
-- How long a session lives.
use talosctl_oidc.Base.{
  ℕ, ◌≤◌, ◌≡◌, refl, String, Bool, false, ◌==◌, not, List, [], ◌∷◌, Option, none, some, no_entries,
  if◌then◌else◌, arith, eq_iff, Option-cases, inl, inr, ◌∙◌,
}
use talosctl_oidc.Clock.{past}
use talosctl_oidc.Server.Dashboard.{
  Sessions, session_timeout, create_session, validate_session, delete_session,
}

-- A login or a logout, with the session's token.
pub data Act : Type 0 where
  create : ℕ → String → Act
  drop : String → Act

unfoldable pub step : Sessions → Act → Sessions
step s (create now token) = create_session now token s
step s (drop token) = delete_session token s

unfoldable pub run : Sessions → List Act → Sessions
run s [] = s
run s (a ∷ acts) = run (step s a) acts

-- No login comes after `now`.
abbrev pub Before : ℕ → List Act → Type 0
Before now [] = Unit
Before now (create t token ∷ acts) = (t ≤ now) × Before now acts
Before now (drop token ∷ acts) = Before now acts

-- When the session of a token was last made, if it was not dropped since.
abbrev pub born : String → Option ℕ → List Act → Option ℕ
born token b [] = b
born token b (create t other ∷ acts) = born token (if other == token then some t else b) acts
born token b (drop other ∷ acts) = born token (if other == token then none else b) acts

-- Whether a creation time is still good.
abbrev pub is_live : ℕ → Option ℕ → Bool
is_live now none = false
is_live now (some t) = not (past now t session_timeout)

-- The store and the history agree on whether the session of a token lives.
abbrev Agree : ℕ → String → Sessions → Option ℕ → Type 0
Agree now token s b = is_live now (s token) ≡ is_live now b

create-Agree :
    (now t : ℕ) (token other : String) (s : Sessions) (b : Option ℕ)
    → t ≤ now
    → Agree now token s b
    → Agree now token (create_session t other s) (if other == token then some t else b)
unfolding create_session
create-Agree now t token other s b le h = elim (Option-cases (s token)) [
  | inl e ↦ ground (arith, eq_iff other token)
  | inr (born_at, e) ↦ ground (arith, eq_iff other token)
]

drop-Agree :
    (now : ℕ) (token other : String) (s : Sessions) (b : Option ℕ)
    → Agree now token s b
    → Agree now token (delete_session other s) (if other == token then none else b)
unfolding delete_session
drop-Agree now token other s b h = ground (arith, eq_iff other token)

run-Agree :
    (now : ℕ) (token : String) (s : Sessions) (b : Option ℕ) (acts : List Act)
    → Before now acts
    → Agree now token s b
    → Agree now token (run s acts) (born token b acts)
unfolding run step
run-Agree now token s b [] before h = h
run-Agree now token s b (create t other ∷ acts) before h =
    run-Agree now token (create_session t other s) (if other == token then some t else b) acts
      before.1 (create-Agree now t token other s b before.0 h)
run-Agree now token s b (drop other ∷ acts) before h =
    run-Agree now token (delete_session other s) (if other == token then none else b) acts before
      (drop-Agree now token other s b h)

validate-is_live :
    (now : ℕ) (token : String) (s : Sessions) → validate_session now token s ≡ is_live now (s token)
unfolding validate_session
validate-is_live now token s = ground arith

-- After any history of logins and logouts, none of them after `now`, a token is valid at `now`
-- exactly when its session was made in the last 24 hours and not dropped since. The removal of
-- expired sessions at each login makes no difference.
pub validate_session_lem :
    (now : ℕ) (token : String) (acts : List Act)
    → Before now acts
    → validate_session now token (run no_entries acts) ≡ is_live now (born token none acts)
validate_session_lem now token acts before =
    validate-is_live now token (run no_entries acts)
    ∙ run-Agree now token no_entries none acts before refl
