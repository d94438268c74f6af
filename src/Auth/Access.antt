-- ===== src/Auth/Access.antt =====
-- internal/api/auth.go: who is let in.
use cadenza.Prelude.{
  ℕ, ◌≤◌, ◌≡◌, ◌⊎◌, refl, String, Bool, true, false, Option, none, some, find, str_eq, eq_iff,
  arith, not, ◌||◌, ◌&&◌, Option-cases, inl, inr, Bool-cases,
}
use cadenza.Auth.{
  AuthManager, AuthSession, simple, LoginRequest, LoginReply, logged_in, session_key, lookup,
  exempt_path, middleware, session_of, served, live_session, handle_login, enabled,
}

-- A session that lets a cookie in.
abbrev pub Admits : ℕ → Option String → AuthManager → Option String → Type 0
Admits now cookie m user =
    (token : String) × (s : AuthSession) × (cookie ≡ some token)
    × (find session_key token m.sessions ≡ some s)
    × (now ≤ s.expires_at)
    × (user ≡ some s.username)

live_session-some :
    (now : ℕ) (token : String) (o : Option AuthSession) (m : AuthManager) {s : AuthSession}
    → (live_session now token o m).0 ≡ some s
    → (o ≡ some s) × (now ≤ s.expires_at)
unfolding live_session
live_session-some now token none m h = cc
live_session-some now token (some s') m h = ground arith

session_of-some :
    (now : ℕ) (cookie : Option String) (m : AuthManager) {s : AuthSession}
    → (session_of now cookie m).0 ≡ some s
    → (token : String) × (cookie ≡ some token)
      × (find session_key token m.sessions ≡ some s)
      × (now ≤ s.expires_at)
unfolding lookup
session_of-some now none m h = cc
session_of-some now (some token) m {s} h = elim (Bool-cases (str_eq token "")) [
  | inl blank ↦ let no_session : ◌≡◌ {A = Option AuthSession} none (some s) = rw blank at h in cc
  | inr given ↦
      let found =
        live_session-some now token (find session_key token m.sessions) m (rw given at h) in
      (token, refl, found.0, found.1)
]

-- With the login switched on, a path that is not exempt is served only to the cookie of a session
-- that has not ended, and to the user of that session.
pub middleware-served :
    (now : ℕ) (path : String) (cookie : Option String) (m : AuthManager) {user : Option String}
    → m.mode ≡ simple
    → exempt_path path ≡ false
    → (middleware now path cookie m).0 ≡ served user
    → Admits now cookie m user
unfolding middleware
middleware-served now path cookie m mode closed h =
    elim (Option-cases (session_of now cookie m).0) [
      | inl gone ↦ ground (arith, gone)
      | inr (s, there) ↦
          let (token, cook, found, live) = session_of-some now cookie m there in
          (token, s, cook, found, live, ground (arith, there))
    ]

-- What a login that succeeds was given.
pub record IsLogin (matches : String → String → Bool) (body : Option LoginRequest)
    (token : Option String) (m : AuthManager) (r : LoginReply) : Type 0 where
  pub req : LoginRequest
  pub fresh : String
  pub sent : body ≡ some req
  pub drawn : token ≡ some fresh
  pub named : req.username ≡ m.username
  pub matched : matches m.hash req.password ≡ true
  pub answered : r ≡ logged_in m.username fresh

-- Only the administrator's name with a password that matches the hash logs in, under the token
-- that was drawn; any other request leaves the manager as it was.
pub handle_login-IsLogin :
    (matches : String → String → Bool) (now : ℕ) (post : Bool) (body : Option LoginRequest)
    (token : Option String) (m : AuthManager)
    → IsLogin matches body token m (handle_login matches now post body token m).0
      ⊎ ((handle_login matches now post body token m).1 ≡ m)
unfolding handle_login
handle_login-IsLogin matches now post none token m = inr (ground arith)
handle_login-IsLogin matches now post (some req) none m = inr (ground arith)
handle_login-IsLogin matches now post (some req) (some t) m =
    elim (Bool-cases (str_eq req.username m.username && matches m.hash req.password)) [
      | inl right ↦
          elim (Bool-cases
            (post && enabled m && not (str_eq req.username "" || str_eq req.password ""))) [
              | inl tried ↦ inl (record {
                req = req;
                fresh = t;
                sent = refl;
                drawn = refl;
                named = ground (arith, eq_iff req.username m.username);
                matched = ground arith;
                answered = ground (arith, eq_iff req.username m.username);
              })
              | inr untried ↦ inr (ground arith)
            ]
      | inr wrong ↦ inr (ground arith)
    ]
