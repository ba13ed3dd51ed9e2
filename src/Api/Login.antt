-- ===== src/Api/Login.antt =====
-- controllers/auth.ts and utils/utils.ts: the responses around the login and the counts of tokens. The
-- data of a response is left out.
pub mod Admitted
use lilnouns_monorepo.Base.{
  ℕ, ltb, not, str_eq, Bool, true, ◌||◌, Option, none, some, String, if◌then◌else◌,
}
use lilnouns_monorepo.Base.Int.{pos}
use lilnouns_monorepo.Api.Types.{User}
use lilnouns_monorepo.Api.Prisma.{Prisma, Outcome, resolved, rejected}
use lilnouns_monorepo.Api.Users.{register, login, all, sync_user_token_counts}
use lilnouns_monorepo.Api.Controllers.{is_absent, Exchange, Step, reply, ◌>>◌, send, call, handled}

pub record LoginRequest : Type 0 where
  pub message : Option String
  pub signature : String
  pub nonce : Option String

pub record SiweFields : Type 0 where
  pub address : String
  pub nonce : String

pub record TransferRequest : Type 0 where
  pub to : Option String
  pub from : Option String

text_of : Option String → String
text_of none = ""
text_of (some s) = s

-- `req.body.nonce !== fields.nonce`
other_nonce : Option String → String → Bool
other_nonce none n = true
other_nonce (some m) n = not (str_eq m n)

-- `count` is the call of the contract; an error is logged, and there is no value then.
unfoldable pub noun_token_count : (String → Outcome ℕ) → String → Option ℕ
noun_token_count count account = elim (count account) [ resolved n ↦ some n | rejected e ↦ none ]

unfoldable pub nouns_total_supply : Outcome ℕ → Option ℕ
nouns_total_supply supply = elim supply [ resolved n ↦ some n | rejected e ↦ none ]

-- `!(lilnounCount > 0)`
has_none : Option ℕ → Bool
has_none none = true
has_none (some n) = not (ltb 0 n)

count_of : Option ℕ → ℕ
count_of none = 0
count_of (some n) = n

module _ {Db : Type 0} (prisma : Prisma Db) where
  throw : String → Step Db
  throw e s = (s, some e)

  unfoldable pub on_register : User → Exchange Db → Exchange Db
  on_register data_of_user =
      handled (call (register prisma data_of_user) >> send (reply 200 "User created successfully"))

  unfoldable pub on_nonce : Exchange Db → Exchange Db
  on_nonce = handled (send (reply 200 "Account login successful"))

  unfoldable pub on_all : Exchange Db → Exchange Db
  on_all = handled (call (all prisma) >> send (reply 200 "All users"))

  -- `sign` makes the access token, `siwe` reads and validates a signed message, and `count` asks the
  -- contract for the votes of an account.
  module _ (sign : User → String) (siwe : String → String → Outcome SiweFields)
      (count : String → Outcome ℕ) where
    enter_counted : String → Option ℕ → Step Db
    unfolding has_none count_of throw
    enter_counted address lilnoun_count =
        if has_none lilnoun_count
        then throw "User does not have a lil noun"
        else call (
            login prisma sign
              (record { wallet = address; lilnoun_count = pos (count_of lilnoun_count) }))
          >> send (reply 200 "Account login successful")

    check_nonce : Option String → SiweFields → Step Db
    unfolding other_nonce enter_counted noun_token_count
    check_nonce expected fields =
        if other_nonce expected fields.nonce
        then send (reply 422 "Invalid nonce.")
        else enter_counted fields.address (noun_token_count count fields.address)

    validated : Option String → Outcome SiweFields → Step Db
    unfolding check_nonce throw
    validated expected (rejected e) = throw e
    validated expected (resolved fields) = check_nonce expected fields

    unfoldable pub on_login : LoginRequest → Exchange Db → Exchange Db
    unfolding is_absent validated text_of
    on_login body = handled (
        if is_absent body.message
        then send (reply 422 "User does not have a lil noun")
        else validated body.nonce (siwe (text_of body.message) body.signature))

  unfoldable pub on_sync_user_token_counts : TransferRequest → Exchange Db → Exchange Db
  unfolding is_absent text_of throw
  on_sync_user_token_counts body = handled (
      if is_absent body.to || is_absent body.from
      then throw "No user data"
      else call (sync_user_token_counts prisma (text_of body.to) (text_of body.from))
        >> send (reply 200 "Update user token counts"))
