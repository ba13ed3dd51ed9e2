-- ===== src/Api/Users.antt =====
-- services/user.ts and services/auth.ts: users, and their counts of tokens.
pub mod Transfers
use lilnouns_monorepo.Base.{
  ℕ, ◌&&◌, Bool, true, false, Option, none, some, String, List, [], ◌∷◌, map,
}
use lilnouns_monorepo.Base.Int.{ℤ, pos, negsuc, ◌+ℤ◌}
use lilnouns_monorepo.Api.Types.{User, Idea, Comment, Where, submissions}
use lilnouns_monorepo.Api.Prisma.{
  Prisma, Outcome, resolved, rejected, M, ◌>>=◌, ◌>>◌, return, throw_if, reads, require, writes,
}
use lilnouns_monorepo.Api.Votes.{Counts, calculate_net_votes, FloorPercent}
use lilnouns_monorepo.Api.Ideas.{RatedIdea, rate}

abbrev pub LoggedIn : Type 0
LoggedIn = User × String

is_none : Option User → Bool
is_none none = true
is_none (some u) = false

module _ {Db : Type 0} (prisma : Prisma Db) where
  unfoldable pub register : User → M Db (Unit {0})
  register u = writes (prisma.create_user u)

  unfoldable pub update : User → M Db (Unit {0})
  update u = writes (prisma.update_user u)

  enter : User → Option User → M Db (Unit {0})
  unfolding register update
  enter u none = register u
  enter u (some old) = update u

  -- `sign` makes the access token.
  unfoldable pub login : (User → String) → User → M Db LoggedIn
  unfolding enter
  login sign u = do found ← reads (prisma.find_user u.wallet); enter u found; return (u, sign u)

  unfoldable pub all : M Db (List User)
  all = reads prisma.users

  -- Absent users are passed over.
  set_count : String → Option User → ℤ → M Db (Unit {0})
  unfolding update
  set_count wallet none change d = (resolved tt, d)
  set_count wallet (some u) change d =
      update (record { wallet = wallet; lilnoun_count = u.lilnoun_count +ℤ change }) d

  -- Both users are read before either is written.
  unfoldable pub sync_user_token_counts : String → String → M Db (Unit {0})
  unfolding set_count is_none
  sync_user_token_counts to from = do
    to_user ← reads (prisma.find_user to)
    from_user ← reads (prisma.find_user from)
    throw_if (is_none from_user && is_none to_user) "No users to update"
    set_count to to_user (pos 1)
    set_count from from_user (negsuc 0)

  unfoldable pub get_user : String → M Db User
  get_user wallet = do found ← reads (prisma.find_user wallet); require found "User not found"

  -- `ideas_of` is the query of a creator's ideas.
  unfoldable pub get_user_aggregations : (String → Db → List Idea) → String → M Db Counts
  get_user_aggregations ideas_of wallet d = (resolved (calculate_net_votes (ideas_of wallet d)), d)

-- `comment.idea.votes` is not included by the query, so it counts as empty.
rate_comment : FloorPercent → ℕ → Comment → Option RatedIdea
rate_comment floor_percent now comment = elim comment.idea [
  | none ↦ none
  | some idea ↦ some (rate floor_percent now (record idea { votes = [] }))
]

module _ {Db : Type 0} (prisma : Prisma Db) where
  -- The comments with their ideas, the latest first unless the oldest are asked for.
  unfoldable pub get_user_comments :
      FloorPercent → ℕ → Bool → String → M Db (List (Comment × Option RatedIdea))
  unfolding rate_comment
  get_user_comments floor_percent now latest wallet d = (
    resolved (
        map (λ (c : Comment). (c, rate_comment floor_percent now c))
          (prisma.comments_by wallet latest d)),
    d,
  )
