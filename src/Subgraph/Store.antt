-- ===== src/Subgraph/Store.antt =====
-- The entity store that the handlers read and write, and the monad of a handler's run. `none` is a
-- trap (a null cast, an unset field that is read, a division by zero): the host then drops the run.
use lilnouns_monorepo.Base.{String, Option, none, some, List, [], ◌∷◌, ◌++◌}
use lilnouns_monorepo.Base.Table.{Table, save}
use lilnouns_monorepo.Subgraph.Entities.{
  Account, Delegate, Governance, DynamicQuorumParams, Seed, Noun, Auction, Bid, TransferEvent,
  DelegationEvent, Proposal, Vote,
}

-- One call of `log.error`: the message with its arguments.
pub record LogEntry : Type 0 where
  pub message : String
  pub args : List String

-- `Governance` and `DynamicQuorumParams` have the single ids 'GOVERNANCE' and 'LATEST'.
pub record Store : Type 0 where
  pub accounts : Table Account
  pub delegates : Table Delegate
  pub governance : Option Governance
  pub quorum_params : Option DynamicQuorumParams
  pub seeds : Table Seed
  pub nouns : Table Noun
  pub auctions : Table Auction
  pub bids : Table Bid
  pub transfer_events : Table TransferEvent
  pub delegation_events : Table DelegationEvent
  pub proposals : Table Proposal
  pub votes : Table Vote
  pub errors : List LogEntry

abbrev pub empty : Store
empty = record {
  accounts = [];
  delegates = [];
  governance = none;
  quorum_params = none;
  seeds = [];
  nouns = [];
  auctions = [];
  bids = [];
  transfer_events = [];
  delegation_events = [];
  proposals = [];
  votes = [];
  errors = [];
}

abbrev pub M : Type 0 → Type 0
M A = Store → Option (A × Store)

abbrev pub ⊤ : Type 0
⊤ = Unit

module _ {A : Type 0} where
  abbrev pub pure : A → M A
  pure a s = some (a, s)

  abbrev pub gets : (Store → A) → M A
  gets f s = some (f s, s)

  -- A cast from a nullable type, and the getter of a required field: null traps.
  abbrev pub required : Option A → M A
  required none s = none
  required (some a) s = some (a, s)

infixl 5 ◌>>=◌ ◌>>◌
abbrev pub ◌>>=◌ : {A B : Type 0} → M A → (A → M B) → M B
◌>>=◌ m f s = elim (m s) [ none ↦ none | some (a, s') ↦ f a s' ]

abbrev pub ◌>>◌ : {A B : Type 0} → M A → M B → M B
m >> k = m >>= λ _. k

abbrev pub modify : (Store → Store) → M ⊤
modify f s = some (tt, f s)

-- `log.error(message, args)`
abbrev pub log_error : String → List String → M ⊤
log_error message args =
    modify λ s. record s { errors = s.errors ++ (record { message = message; args = args }) ∷ [] }

-- The store after a run: a trapped run leaves it as it was.
abbrev pub exec : {A : Type 0} → M A → Store → Store
exec m s = elim (m s) [ none ↦ s | some (_, s') ↦ s' ]

abbrev pub save_account : Account → M ⊤
save_account a = modify λ s. record s { accounts = save a.id a s.accounts }

abbrev pub save_delegate : Delegate → M ⊤
save_delegate d = modify λ s. record s { delegates = save d.id d s.delegates }

abbrev pub save_governance : Governance → M ⊤
save_governance g = modify λ s. record s { governance = some g }

abbrev pub save_quorum_params : DynamicQuorumParams → M ⊤
save_quorum_params p = modify λ s. record s { quorum_params = some p }

abbrev pub save_seed : Seed → M ⊤
save_seed x = modify λ s. record s { seeds = save x.id x s.seeds }

abbrev pub save_noun : Noun → M ⊤
save_noun x = modify λ s. record s { nouns = save x.id x s.nouns }

abbrev pub save_auction : Auction → M ⊤
save_auction x = modify λ s. record s { auctions = save x.id x s.auctions }

abbrev pub save_bid : Bid → M ⊤
save_bid x = modify λ s. record s { bids = save x.id x s.bids }

abbrev pub save_transfer_event : TransferEvent → M ⊤
save_transfer_event x = modify λ s. record s { transfer_events = save x.id x s.transfer_events }

abbrev pub save_delegation_event : DelegationEvent → M ⊤
save_delegation_event x =
    modify λ s. record s { delegation_events = save x.id x s.delegation_events }

abbrev pub save_proposal : Proposal → M ⊤
save_proposal x = modify λ s. record s { proposals = save x.id x s.proposals }

abbrev pub save_vote : Vote → M ⊤
save_vote x = modify λ s. record s { votes = save x.id x s.votes }
