-- ===== src/Auth/Sessions.antt =====
-- internal/api/auth.go: the life of one login.
use cadenza.Prelude.{
  ℕ, ◌+◌, ◌≤◌, ◌<◌, ◌≡◌, ◌≢◌, String, Bool, true, false, ◌∷◌, none, some, find, without,
  find-without, eq_refl, eq_iff, arith,
}
use cadenza.Auth.{
  AuthManager, AuthSession, simple, session_ttl, session_key, exempt_path, middleware, handle_login,
  handle_logout, served, auth_required,
}

-- The login of the administrator with the right password.
module _ (matches : String → String → Bool) (now : ℕ) (password token : String) (m : AuthManager)
    (mode : m.mode ≡ simple) (name : m.username ≢ "") (given : password ≢ "")
    (right : matches m.hash password ≡ true) where
  abbrev pub login : AuthManager
  login =
      (handle_login matches now true (some (record { username = m.username; password = password }))
        (some token) m).1

  login-sessions :
      login.sessions
      ≡ record { token = token; username = m.username; expires_at = now + session_ttl }
        ∷ without session_key token m.sessions
  unfolding handle_login
  login-sessions = ground (arith, eq_iff m.username "", eq_iff password "", eq_refl m.username)

  abbrev issued : AuthSession
  issued = record { token = token; username = m.username; expires_at = now + session_ttl }

  find-login : find session_key token login.sessions ≡ some issued
  unfolding find
  find-login = rw login-sessions (ground (arith, eq_refl token))

  mode-login : login.mode ≡ simple
  unfolding handle_login
  mode-login = ground (arith, eq_iff m.username "", eq_iff password "", eq_refl m.username)

  -- Until its end, every path is served to the cookie of a login, whose token is not empty, as its
  -- user.
  pub login_serves :
      (later : ℕ) (path : String)
      → token ≢ ""
      → later ≤ now + session_ttl
      → middleware later path (some token) login ≡ (served (some m.username), login)
  unfolding middleware
  login_serves later path ne early = ground (arith, find-login, mode-login, eq_iff token "")

  -- After its end the cookie opens no protected path, and the session is removed.
  pub login_ends :
      (later : ℕ) (path : String)
      → exempt_path path ≡ false
      → token ≢ ""
      → now + session_ttl < later
      → ((middleware later path (some token) login).0 ≡ auth_required)
        × (find session_key token (middleware later path (some token) login).1.sessions ≡ none)
  unfolding middleware
  login_ends later path closed ne late = (
    ground (arith, find-login, mode-login, eq_iff token ""),
    ground (
      arith,
      find-login,
      mode-login,
      eq_iff token "",
      find-without session_key token token login.sessions,
      eq_refl token,
    ),
  )

  -- After the logout the cookie opens no protected path at any time.
  pub logout_ends :
      (later : ℕ) (path : String)
      → exempt_path path ≡ false
      → token ≢ ""
      → (middleware later path (some token) (handle_logout true (some token) login).1).0
        ≡ auth_required
  unfolding middleware handle_logout
  logout_ends later path closed ne = ground (
    arith,
    mode-login,
    eq_iff token "",
    find-without session_key token token login.sessions,
    eq_refl token,
  )
