-- ===== src/Subgraph/Events.antt =====
-- The contracts' events as the handlers read them: the parameters, and of the block and the
-- transaction the fields that are used.
use lilnouns_monorepo.Base.{ℕ, String, List}
use lilnouns_monorepo.Base.Int.{ℤ}
use lilnouns_monorepo.Base.Chars.{Chars}
use lilnouns_monorepo.Subgraph.Host.{Bytes}

-- `event.block` and `event.transaction`
pub record Context : Type 0 where
  pub number : ℤ
  pub timestamp : ℤ
  pub hash : Bytes
  pub index : ℤ

pub record AuctionCreated : Type 0 where
  pub at : Context
  pub noun_id : ℤ
  pub start_time : ℤ
  pub end_time : ℤ

pub record AuctionBid : Type 0 where
  pub at : Context
  pub noun_id : ℤ
  pub sender : Bytes
  pub value : ℤ

pub record AuctionExtended : Type 0 where
  pub at : Context
  pub noun_id : ℤ
  pub end_time : ℤ

pub record AuctionSettled : Type 0 where
  pub at : Context
  pub noun_id : ℤ

pub record SeedParams : Type 0 where
  pub background : ℤ
  pub body : ℤ
  pub accessory : ℤ
  pub head : ℤ
  pub glasses : ℤ

pub record NounCreated : Type 0 where
  pub at : Context
  pub token_id : ℤ
  pub seed : SeedParams

pub record DelegateChanged : Type 0 where
  pub at : Context
  pub delegator : Bytes
  pub from_delegate : Bytes
  pub to_delegate : Bytes

pub record DelegateVotesChanged : Type 0 where
  pub at : Context
  pub delegate : Bytes
  pub previous_balance : ℤ
  pub new_balance : ℤ

pub record Transfer : Type 0 where
  pub at : Context
  pub from : Bytes
  pub to : Bytes
  pub token_id : ℤ

pub record ProposalCreated : Type 0 where
  pub at : Context
  pub id : ℤ
  pub proposer : Bytes
  pub targets : List Bytes
  pub values : List ℤ
  pub signatures : List String
  pub calldatas : List Bytes
  pub start_block : ℤ
  pub end_block : ℤ
  pub proposal_threshold : ℤ
  pub quorum_votes : ℤ
  pub description : Chars

-- `ProposalCanceled`, `ProposalVetoed` and `ProposalExecuted`
pub record ProposalEvent : Type 0 where
  pub at : Context
  pub id : ℤ

pub record ProposalQueued : Type 0 where
  pub at : Context
  pub id : ℤ
  pub eta : ℤ

pub record VoteCast : Type 0 where
  pub at : Context
  pub voter : Bytes
  pub proposal_id : ℤ
  pub support : ℕ
  pub votes : ℤ
  pub reason : String

-- `MinQuorumVotesBPSSet`, `MaxQuorumVotesBPSSet` and `QuorumCoefficientSet`, by the new value
pub record QuorumSet : Type 0 where
  pub at : Context
  pub new_value : ℤ
