-- ===== src/Subgraph/Entities.antt =====
-- The entities of schema.graphql with the fields that the handlers set. A field that `new X(id)`
-- leaves unset, or that is nullable, is an `Option`.
use lilnouns_monorepo.Base.{ℕ, String, Bool, List, Option}
use lilnouns_monorepo.Base.Int.{ℤ}
use lilnouns_monorepo.Base.Chars.{Chars}
use lilnouns_monorepo.Subgraph.Host.{Bytes}

pub record Account : Type 0 where
  pub id : String
  pub delegate : Option String
  pub token_balance_raw : ℤ
  pub token_balance : ℤ
  pub total_tokens_held_raw : ℤ
  pub total_tokens_held : ℤ
  pub nouns : List String

pub record Delegate : Type 0 where
  pub id : String
  pub delegated_votes_raw : ℤ
  pub delegated_votes : ℤ
  pub token_holders_represented_amount : ℤ
  pub nouns_represented : List String

pub record Governance : Type 0 where
  pub proposals : ℤ
  pub total_token_holders : ℤ
  pub current_token_holders : ℤ
  pub current_delegates : ℤ
  pub total_delegates : ℤ
  pub delegated_votes_raw : ℤ
  pub delegated_votes : ℤ
  pub proposals_queued : ℤ

pub record DynamicQuorumParams : Type 0 where
  pub min_quorum_votes_bps : ℤ
  pub max_quorum_votes_bps : ℤ
  pub quorum_coefficient : ℤ
  pub dynamic_quorum_start_block : Option ℤ

pub record Seed : Type 0 where
  pub id : String
  pub background : ℤ
  pub body : ℤ
  pub accessory : ℤ
  pub head : ℤ
  pub glasses : ℤ

pub record Noun : Type 0 where
  pub id : String
  pub seed : Option String
  pub owner : Option String

pub record Auction : Type 0 where
  pub id : String
  pub noun : String
  pub amount : ℤ
  pub start_time : ℤ
  pub end_time : ℤ
  pub bidder : Option String
  pub settled : Bool

pub record Bid : Type 0 where
  pub id : String
  pub noun : String
  pub amount : ℤ
  pub bidder : String
  pub block_number : ℤ
  pub tx_index : ℤ
  pub auction : String
  pub block_timestamp : ℤ

pub record TransferEvent : Type 0 where
  pub id : String
  pub noun : String
  pub previous_holder : String
  pub new_holder : String
  pub block_number : ℤ
  pub block_timestamp : ℤ

pub record DelegationEvent : Type 0 where
  pub id : String
  pub noun : String
  pub previous_delegate : String
  pub new_delegate : String
  pub block_number : ℤ
  pub block_timestamp : ℤ

pub data ProposalStatus : Type 0 where
  pending cancelled vetoed executed queued active : ProposalStatus

pub record Proposal : Type 0 where
  pub id : String
  pub proposer : Option String
  pub targets : Option (List Bytes)
  pub values : Option (List ℤ)
  pub signatures : Option (List String)
  pub calldatas : Option (List Bytes)
  pub created_timestamp : Option ℤ
  pub created_block : Option ℤ
  pub created_transaction_hash : Option Bytes
  pub start_block : Option ℤ
  pub end_block : Option ℤ
  pub proposal_threshold : Option ℤ
  pub quorum_votes : Option ℤ
  pub for_votes : Option ℤ
  pub against_votes : Option ℤ
  pub abstain_votes : Option ℤ
  pub title : Option Chars
  pub description : Option Chars
  pub status : Option ProposalStatus
  pub execution_eta : Option ℤ
  pub total_supply : Option ℤ
  pub min_quorum_votes_bps : Option ℤ
  pub max_quorum_votes_bps : Option ℤ
  pub quorum_coefficient : Option ℤ

pub record Vote : Type 0 where
  pub id : String
  pub support : Option Bool
  pub support_detailed : Option ℕ
  pub votes_raw : Option ℤ
  pub votes : Option ℤ
  pub reason : Option String
  pub voter : Option String
  pub nouns : Option (List String)
  pub proposal : Option String
  pub block_number : Option ℤ
