-- ===== src/Examples/Logins.antt =====
-- internal/api/auth.go: a login and what its cookie opens.
use cadenza.Prelude.{ap, ◌≡◌, refl, String, Bool, true, false, some, [], str_eq, arith}
use cadenza.Auth.{
  AuthManager, LoginRequest, simple, exempt_path, middleware, handle_login, handle_logout, served,
  auth_required, Decision,
}
use cadenza.Auth.Sessions.{login_serves, logout_ends}
use cadenza.Auth.Access.{Admits, middleware-served}

abbrev matches : String → String → Bool
matches hash password = str_eq hash password

abbrev manager : AuthManager
manager = record { mode = simple; username = "admin"; hash = "pw"; sessions = [] }

abbrev logged : AuthManager
logged =
    (handle_login matches 5 true (some (record { username = "admin"; password = "pw" }))
      (some "tok") manager).1

closed_path : exempt_path "/api/v1/tasks" ≡ false
unfolding exempt_path
closed_path = refl

login_served : middleware 6 "/api/v1/tasks" (some "tok") logged ≡ (served (some "admin"), logged)
login_served =
    login_serves matches 5 "pw" "tok" manager refl (λ h. cc) (λ h. cc) refl 6 "/api/v1/tasks"
      (λ h. cc) (omega arith)

logout_ends_example :
    (middleware 6 "/api/v1/tasks" (some "tok") (handle_logout true (some "tok") logged).1).0
    ≡ auth_required
logout_ends_example =
    logout_ends matches 5 "pw" "tok" manager refl (λ h. cc) (λ h. cc) refl 6 "/api/v1/tasks"
      closed_path (λ h. cc)

served_once : (middleware 6 "/api/v1/tasks" (some "tok") logged).0 ≡ served (some "admin")
served_once = ap (λ (p : Decision × AuthManager). p.0) login_served

middleware-served_example : Admits 6 (some "tok") logged (some "admin")
unfolding handle_login
middleware-served_example =
    middleware-served 6 "/api/v1/tasks" (some "tok") logged refl closed_path served_once

abbrev right_body : LoginRequest
right_body = record { username = "admin"; password = "pw" }
