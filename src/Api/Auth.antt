-- ===== src/Api/Auth.antt =====
-- middlewares/auth.ts and utils/jwt.ts: the access token in a request's header. `verify` is the check of
-- the token library, with the payload, or none where it fails.
pub mod Agreement
use lilnouns_monorepo.Base.{
  ℕ, ◌==◌, str_eq, Bool, true, false, ◌&&◌, ◌||◌, Option, none, some, String, List, [], ◌∷◌,
  get_elem?, if◌then◌else◌,
}
use lilnouns_monorepo.Base.Chars.{Chars, codes, split, text_eq}
use lilnouns_monorepo.Api.Types.{User}

is_empty : Chars → Bool
is_empty [] = true
is_empty (c ∷ t) = false

-- What a request ends with: a response with a status and a message, or the next handler with the user.
pub data Reply : Type 0 where
  respond : ℕ → String → Reply
  next : User → Reply

pub record AuthScope : Type 0 where
  pub is_authorized : Bool
  pub user : Option User
  pub error : Option (ℕ × String)

module _ (verify : Chars → Option User) where
  validate : Option User → Reply
  validate none = respond 401 "Unauthorized: Failed to validate token"
  validate (some user) = next user

  check_token : Option Chars → Reply
  unfolding validate is_empty text_eq
  check_token none = respond 401 "Unauthorized: Access token is required"
  check_token (some token) =
      if is_empty token || text_eq token (codes "undefined")
      then respond 401 "Unauthorized: Access token is required"
      else validate (verify token)

  -- A missing header and an empty one are both falsy.
  unfoldable pub auth_middleware : Option Chars → Reply
  unfolding check_token
  auth_middleware none = respond 401 "Unauthorized: Auth Header missing"
  auth_middleware (some header) =
      if is_empty header
      then respond 401 "Unauthorized: Auth Header missing"
      else check_token (get_elem? (split header (codes " ")) 1)

  refuse : String → AuthScope
  refuse message = record { is_authorized = false; user = none; error = some (401, message) }

  admit : Option User → AuthScope
  unfolding refuse
  admit none = refuse "Unauthorized: Failed to validate token"
  admit (some user) = record { is_authorized = true; user = some user; error = none }

  scope_of_token : Option Chars → AuthScope
  unfolding admit is_empty text_eq
  scope_of_token none = refuse "Unauthorized: Access Token missing"
  scope_of_token (some token) =
      if is_empty token || text_eq token (codes "undefined")
      then refuse "Unauthorized: Access Token missing"
      else admit (verify token)

  unfoldable pub apollo_auth_scope : Option Chars → AuthScope
  unfolding scope_of_token
  apollo_auth_scope none = refuse "Unauthorized: Auth Header missing"
  apollo_auth_scope (some header) =
      if is_empty header
      then refuse "Unauthorized: Auth Header missing"
      else scope_of_token (get_elem? (split header (codes " ")) 1)
