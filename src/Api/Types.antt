-- ===== src/Api/Types.antt =====
-- The records that the services read, as the database returns them with what the queries include.
use lilnouns_monorepo.Base.{ℕ, Bool, Option, String, List}
use lilnouns_monorepo.Base.Int.{ℤ}

pub record User : Type 0 where
  pub wallet : String
  pub lilnoun_count : ℤ

pub record Vote : Type 0 where
  pub direction : ℤ
  pub voter : User

-- Times are in milliseconds. `comments` is the `_count` of those that are not deleted.
pub record Idea : Type 0 where
  pub id : ℕ
  pub title : String
  pub creator_id : String
  pub created_at : ℕ
  pub deleted : Bool
  pub token_supply_on_create : Option ℕ
  pub tags : List String
  pub votes : List Vote
  pub comments : ℕ

pub record NewIdea : Type 0 where
  pub title : String
  pub tldr : String
  pub description : String
  pub creator_id : String
  pub votecount : ℕ
  pub token_supply_on_create : ℕ
  pub vote_direction : ℤ
  pub tags : List String

pub record Comment : Type 0 where
  pub id : ℕ
  pub body : String
  pub author_id : String
  pub idea_id : ℕ
  pub parent_id : Option ℕ
  pub deleted : Bool
  pub idea : Option Idea

-- The filters of a profile's tabs, and the `where` of a query of ideas: those that a wallet created or
-- commented on, or those of others that it voted on in a direction.
pub data ProfileFilter : Type 0 where
  submissions : String → ProfileFilter
  comments_of : String → ProfileFilter
  votes_of : String → ℤ → ProfileFilter
  any_profile : ProfileFilter

pub record Where : Type 0 where
  pub hide_deleted : Bool
  pub gte : ℕ
  pub lte : ℕ
  pub profile : ProfileFilter
