-- ===== src/Api/Params.antt =====
-- internal/api/handlers.go and internal/api/sessions.go: the numbers in a query.
pub mod Printed
use cadenza.Prelude.{
  ℕ, ◌-◌, ◌^◌, Bool, true, false, List, [], Option, none, some, Result, ok, err, Bytes, bytes_eq,
  trim_space, number_in, if◌then◌else◌,
}

abbrev pub max_page_size : ℕ
max_page_size = 100

abbrev pub default_page_size : ℕ
default_page_size = 20

abbrev pub max_int : ℕ
max_int = 2 ^ 63 - 1

-- The first values of the two parameters; `none` for one that is not in the query.
pub record PageQuery : Type 0 where
  pub page : Option Bytes
  pub page_size : Option Bytes

-- A parameter that is missing or empty has its default; one that is no number in range is `none`.
abbrev pub param_or : ℕ → ℕ → Option Bytes → Option ℕ
param_or high default_value none = some default_value
param_or high default_value (some v) =
    if bytes_eq v [] then some default_value else number_in 1 high v

abbrev pub both : Option ℕ → Option ℕ → Result (Unit {0}) (Option (ℕ × ℕ))
both (some page) (some size) = ok (some (page, size))
both _ _ = err tt

-- Nothing where the query asks for no page, and an error where a number is not permitted.
unfoldable pub page_params : PageQuery → Result (Unit {0}) (Option (ℕ × ℕ))
page_params q = elim q.page [
  | none ↦ elim q.page_size [
    | none ↦ ok none
    | some size ↦ both (some 1) (param_or max_page_size default_page_size (some size))
  ]
  | some page ↦
      both (param_or max_int 1 (some page)) (param_or max_page_size default_page_size q.page_size)
]

unfoldable pub non_negative_int64 : Bytes → Option ℕ
non_negative_int64 v =
    let text = trim_space v in if bytes_eq text [] then some 0 else number_in 0 max_int text

unfoldable pub int_param_in_range : Bytes → ℕ → ℕ → Option ℕ
int_param_in_range v low high =
    let text = trim_space v in if bytes_eq text [] then some 0 else number_in low high text
