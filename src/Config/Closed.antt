-- ===== src/Config/Closed.antt =====
-- internal/config/config.go: with which settings the program starts.
use cadenza.Prelude.{
  ◌≡◌, refl, ◌⊎◌, inl, inr, Bool, true, false, [], Option, none, some, ok, err, Result,
  if◌then◌else◌, not, bytes, bytes_eq, is_one_of, ◌∷◌, ◌&&◌, trim_space, Bool-cases, subst, sym,
  arith,
}
use cadenza.Config.{
  WebConfig, Config, ConfigError, Environment, validate_web, validate_git_ops, validate, load,
  settings,
}

-- A login with a user and a hash is there, or nothing is served, or its lack was asked for.
pub IsGuarded : WebConfig → Type 0
IsGuarded w =
    (bytes_eq w.auth_mode (bytes "off") ≡ true)
    ⊎ (bytes_eq w.auth_mode (bytes "simple") ≡ true)
      × ((w.disable_web ≡ true)
          ⊎ (bytes_eq w.admin_user [] ≡ false) × (bytes_eq w.admin_password_hash [] ≡ false))

-- The source of configurations is known, and one in git says what to read.
pub IsSourced : Config → Type 0
IsSourced c =
    (bytes_eq c.config_source (bytes "builtin") ≡ true)
    ⊎ (bytes_eq c.config_source (bytes "git") ≡ true)
      × (bytes_eq (trim_space c.git_repo_dir) [] ≡ false)
      × (bytes_eq (trim_space c.git_config_pathspec) [] ≡ false)
      × (bytes_eq c.git_ref [] ≡ false)

validate_web-IsGuarded : (w : WebConfig) → validate_web w ≡ none → IsGuarded w
unfolding validate_web IsGuarded
validate_web-IsGuarded w h = elim (Bool-cases (bytes_eq w.auth_mode (bytes "simple"))) [
  | inl s ↦ elim (Bool-cases w.disable_web) [
    | inl d ↦ inr (s, inl d)
    | inr d ↦ inr (s, inr (ground arith))
  ]
  | inr s ↦ inl (ground arith)
]

-- The settings that come out of the checks, if they do.
Accepts : (Config → Type 0) → Result ConfigError Config → Type 0
Accepts P (err e) = Unit {0}
Accepts P (ok c) = P c

if-cases :
    (P : Result ConfigError Config → Type 0) (b : Bool) {x y : Result ConfigError Config}
    → (b ≡ true → P x)
    → (b ≡ false → P y)
    → P (if b then x else y)
if-cases P true t f = t refl
if-cases P false t f = f refl

-- What the checks of the source lead to: a known source, and the same console.
Sourced : Config → Result ConfigError Config → Type 0
Sourced c = Accepts (λ c'. IsSourced c' × (c'.web ≡ c.web))

validate_git_ops-IsSourced : (c : Config) → Sourced c (validate_git_ops c)
unfolding validate_git_ops IsSourced Accepts Sourced bytes_eq
validate_git_ops-IsSourced c =
    if-cases (Sourced c) (bytes_eq c.config_source []) (λ e. (inl refl, refl))
      (λ _.
        if-cases (Sourced c) (bytes_eq c.config_source (bytes "builtin"))
          (λ builtin. (inl builtin, refl))
          (λ _.
            if-cases (Sourced c) (not (bytes_eq c.config_source (bytes "git"))) (λ _. tt)
              (λ git.
                if-cases (Sourced c) (bytes_eq (trim_space c.git_repo_dir) []) (λ _. tt)
                  (λ dir.
                    if-cases (Sourced c) (bytes_eq (trim_space c.git_config_pathspec) []) (λ _. tt)
                      (λ spec.
                        if-cases (Sourced c) (bytes_eq c.git_ref [])
                          (λ _. (inr (ground arith, dir, spec, refl), refl))
                          (λ ref. (inr (ground arith, dir, spec, ref), refl)))))))

-- What the checks lead to.
Closed : Result ConfigError Config → Type 0
Closed = Accepts (λ c'. IsGuarded c'.web × IsSourced c')

of_web : (c : Config) → IsGuarded c.web → (r : Result ConfigError Config) → Sourced c r → Closed r
unfolding Sourced Closed Accepts
of_web c guarded (err e) _ = tt
of_web c guarded (ok c') (sourced, same) = (subst IsGuarded (sym same) guarded, sourced)

validate-IsClosed : (c : Config) → Closed (validate c)
unfolding validate Closed Accepts
validate-IsClosed c =
    if-cases Closed (not (is_one_of c.db_driver (bytes "mysql" ∷ bytes "sqlite" ∷ []))) (λ _. tt)
      (λ _.
        if-cases Closed (bytes_eq c.db_driver (bytes "mysql") && bytes_eq c.db_dsn []) (λ _. tt)
          (λ _.
            if-cases Closed (bytes_eq c.llm.api_key [] && bytes_eq c.llm.backup_api_key [])
              (λ _. tt)
              (λ _.
                if-cases Closed (bytes_eq c.llm.base_url []) (λ _. tt)
                  (λ _. checked (validate_web c.web) refl))))
  where
    checked :
        (o : Option ConfigError)
        → validate_web c.web ≡ o
        → Closed (elim o [ some e ↦ err e | none ↦ validate_git_ops c ])
    checked (some e) _ = tt
    checked none h =
        of_web c (validate_web-IsGuarded c.web h) (validate_git_ops c)
          (validate_git_ops-IsSourced c)

-- Settings that load have a login with a user and a hash, unless the console is switched off or the
-- login is, and configurations come from the program itself or from a directory, path and ref of
-- git that are there.
pub load-closed : (env : Environment) (c : Config) → load env ≡ ok c → IsGuarded c.web × IsSourced c
unfolding load Closed Accepts
load-closed env c h = subst Closed h (validate-IsClosed (settings env))
