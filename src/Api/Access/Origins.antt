-- ===== src/Api/Access/Origins.antt =====
-- internal/api/router.go: the origins that may use the cookie of a user.
use cadenza.Prelude.{◌≡◌, Bool, true, false, not, List, [], ◌∷◌, some, keep, Bytes, bytes_eq, arith}
use cadenza.Api.Http.{Method}
use cadenza.Api.Access.{is_listed, star, cors_middleware}

is_listed-keep :
    (origin : Bytes) (p : Bytes → Bool) (allowed : List Bytes)
    → is_listed origin (keep p allowed) ≡ true
    → is_listed origin allowed ≡ true
unfolding is_listed
is_listed-keep origin p [] h = h
is_listed-keep origin p (o ∷ rest) h = ground (arith, is_listed-keep origin p rest)

-- An answer that lets a browser send the cookie names the origin that asked, which is in the list
-- of allowed origins and not empty, and the list does not have the wildcard.
pub cors_middleware-listed :
    (allowed : List Bytes) (method : Method) (origin : Bytes)
    → (cors_middleware allowed method origin).allow_credentials ≡ true
    → ((cors_middleware allowed method origin).allow_origin ≡ some origin)
      × (is_listed origin allowed ≡ true)
      × (bytes_eq origin [] ≡ false)
      × (is_listed star allowed ≡ false)
unfolding cors_middleware
cors_middleware-listed allowed method origin h =
    ground (arith, is_listed-keep origin (λ (o : Bytes). not (bytes_eq o star)) allowed)
