-- ===== src/Api/Params/Printed.antt =====
-- internal/api: numbers that a client sends as the server printed them.
use cadenza.Prelude.{
  ℕ, ◌^◌, ◌≤◌, ◌<◌, ◌≡◌, refl, false, [], some, ok, arith, bytes_eq, decimal, trim_space,
}
use cadenza.Prelude.Decimals.{decimal-cons, decimal-Digits, number_in-decimal, trim_space-Digits}
use cadenza.Api.Params.{
  max_page_size, max_int, param_or, page_params, non_negative_int64, int_param_in_range,
  default_page_size,
}

some_digits : (n : ℕ) → bytes_eq (decimal n) [] ≡ false
unfolding bytes_eq
some_digits n = let (d, s, e) = decimal-cons n in rw e refl

param_or-decimal :
    (high default_value n : ℕ)
    → 1 ≤ n
    → n ≤ high
    → n < 2 ^ 63
    → param_or high default_value (some (decimal n)) ≡ some n
param_or-decimal high default_value n above below small =
    rw (some_digits n) (number_in-decimal 1 high n above below small)

trimmed : (n : ℕ) → trim_space (decimal n) ≡ decimal n
trimmed n = trim_space-Digits (decimal n) (decimal-Digits n)

-- A page and a size that are permitted, and a cursor, are read as the numbers that were printed.
pub params-decimal :
    (page size cursor : ℕ)
    → 1 ≤ page
    → page < 2 ^ 63
    → 1 ≤ size
    → size ≤ 100
    → cursor < 2 ^ 63
    → (page_params (record { page = some (decimal page); page_size = some (decimal size) })
        ≡ ok (some (page, size)))
      × (non_negative_int64 (decimal cursor) ≡ some cursor)
      × (int_param_in_range (decimal size) 1 100 ≡ some size)
unfolding page_params non_negative_int64 int_param_in_range
params-decimal page size cursor some_page page_small some_size size_small cursor_small = (
  rw
      (
        param_or-decimal max_int 1 page some_page (omega arith) page_small,
        param_or-decimal max_page_size default_page_size size some_size size_small (omega arith),
      )
      refl,
  rw (trimmed cursor, some_digits cursor)
      (number_in-decimal 0 max_int cursor (omega arith) (omega arith) cursor_small),
  rw (trimmed size, some_digits size)
      (number_in-decimal 1 100 size some_size size_small (omega arith)),
)
