-- ===== src/Bots/Types.antt =====
-- types.ts and utils/constants.ts.
use lilnouns_monorepo.Base.{ℕ, Option, String, List}

pub record Bid : Type 0 where
  pub id : String
  pub amount : String
  pub bidder : String

-- The auction with its latest bid, if there is one.
pub record AuctionBids : Type 0 where
  pub id : ℕ
  pub end_time : ℕ
  pub bids : List Bid

pub data Status : Type 0 where
  active cancelled executed pending queued vetoed : Status

pub data VoteDirection : Type 0 where
  against for abstain : VoteDirection

pub record GovernanceVote : Type 0 where
  pub id : String
  pub voter : String
  pub votes : ℕ
  pub support_detailed : VoteDirection
  pub reason : Option String

pub record GovernanceProposal : Type 0 where
  pub id : ℕ
  pub proposer : String
  pub description : String
  pub status : Status
  pub quorum_votes : ℕ
  pub proposal_threshold : ℕ
  pub start_block : ℕ
  pub end_block : ℕ
  pub execution_eta : ℕ
  pub votes : List GovernanceVote
