-- ===== src/Api/Auth/Agreement.antt =====
-- The two checks of a header admit the same users.
use lilnouns_monorepo.Base.{
  ◌≡◌, refl, Bool, true, false, ◌||◌, Option, none, some, String, Bool-cases, inl, inr, get_elem?,
}
use lilnouns_monorepo.Base.Chars.{Chars, codes, text_eq, split}
use lilnouns_monorepo.Api.Types.{User}
use lilnouns_monorepo.Api.Auth.{
  is_empty, Reply, respond, next, AuthScope, validate, check_token, auth_middleware, refuse, admit,
  scope_of_token, apollo_auth_scope,
}

-- The user whom a reply lets pass.
abbrev pub passes : Reply → Option User
passes (respond status message) = none
passes (next user) = some user

abbrev has_user : Option User → Bool
has_user none = false
has_user (some u) = true

-- A scope admits a user, with no error, or tells an error with the status 401.
abbrev pub IsSound : AuthScope → Type 0
IsSound s = elim s.user [
  | none ↦ (s.is_authorized ≡ false) × (m : String) × (s.error ≡ some (401, m))
  | some u ↦ (s.is_authorized ≡ true) × (s.error ≡ none)
]

module _ (verify : Chars → Option User) where
  refuse-IsSound : (message : String) → IsSound (refuse verify message)
  unfolding refuse
  refuse-IsSound message = (refl, message, refl)

  admit_lem :
      (o : Option User)
      → ((admit verify o).user ≡ passes (validate verify o)) × IsSound (admit verify o)
  unfolding admit validate refuse
  admit_lem none = (refl, refuse-IsSound _)
  admit_lem (some u) = (refl, (refl, refl))

  scope_of_token_lem :
      (o : Option Chars)
      → ((scope_of_token verify o).user ≡ passes (check_token verify o))
        × IsSound (scope_of_token verify o)
  unfolding scope_of_token check_token refuse
  scope_of_token_lem none = (refl, refuse-IsSound _)
  scope_of_token_lem (some token) =
      elim (Bool-cases (is_empty token || text_eq token (codes "undefined"))) [
        | inl e ↦ rw e (refl, refuse-IsSound _)
        | inr e ↦ rw e (admit_lem (verify token))
      ]

  -- For every header, the scope of the GraphQL server has the user whom the middleware of the REST
  -- interface lets pass to the next handler, and none where it responds; it is authorized exactly where
  -- it has a user, and has an error with the status 401 exactly where it has none.
  pub apollo_auth_scope-auth_middleware :
      (header : Option Chars)
      → ((apollo_auth_scope verify header).user ≡ passes (auth_middleware verify header))
        × IsSound (apollo_auth_scope verify header)
  unfolding apollo_auth_scope auth_middleware refuse
  apollo_auth_scope-auth_middleware none = (refl, refuse-IsSound _)
  apollo_auth_scope-auth_middleware (some header) = elim (Bool-cases (is_empty header)) [
    | inl e ↦ rw e (refl, refuse-IsSound _)
    | inr e ↦ rw e (scope_of_token_lem (get_elem? (split header (codes " ")) 1))
  ]
