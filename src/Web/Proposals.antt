-- ===== src/Web/Proposals.antt =====
-- wrappers/nounsDao.ts: the state of a proposal as it is shown, from its stored status and the latest
-- block. `parseInt` of the subgraph's numbers is left out; times are in seconds.
pub mod Progress
use lilnouns_monorepo.Base.{
  ℕ, ◌+◌, ◌*◌, ◌==◌, ltb, leb, Bool, true, false, ◌&&◌, ◌||◌, Option, none, some, if◌then◌else◌,
}

pub data ProposalState : Type 0 where
  undetermined pending active cancelled defeated succeeded queued expired executed vetoed :
      ProposalState
  metagov_active metagov_closed metagov_pending : ProposalState

-- An execution time that is null is none.
pub record PartialProposal : Type 0 where
  pub status : ProposalState
  pub start_block : ℕ
  pub end_block : ℕ
  pub for_votes : ℕ
  pub against_votes : ℕ
  pub quorum_votes : ℕ
  pub execution_eta : Option ℕ

abbrev pub grace_period : ℕ
grace_period = 14 * 60 * 60 * 24

-- `!blockNumber`: the block 0 is falsy too.
pending_state : Option ℕ → PartialProposal → ProposalState
pending_state none p = undetermined
pending_state (some block) p =
    if block == 0 then undetermined else if leb block p.start_block then pending else active

is_none : Option ℕ → Bool
is_none none = true
is_none (some n) = false

ended_state : PartialProposal → ProposalState
unfolding is_none
ended_state p =
    if leb p.for_votes p.against_votes || ltb p.for_votes p.quorum_votes
    then defeated
    else if is_none p.execution_eta
    then succeeded
    else active

active_state : Option ℕ → PartialProposal → ProposalState
unfolding ended_state
active_state none p = undetermined
active_state (some block) p =
    if block == 0 then undetermined else if ltb p.end_block block then ended_state p else active

queued_state : Option ℕ → Option ℕ → ProposalState
queued_state none eta = undetermined
queued_state (some timestamp) none = undetermined
queued_state (some timestamp) (some eta) =
    if leb (eta + grace_period) timestamp then expired else queued

state_of : ProposalState → Option ℕ → Option ℕ → PartialProposal → ProposalState
unfolding pending_state active_state queued_state
state_of pending block timestamp p = pending_state block p
state_of active block timestamp p = active_state block p
state_of queued block timestamp p = queued_state timestamp p.execution_eta
state_of status block timestamp p = status

unfoldable pub get_proposal_state : Option ℕ → Option ℕ → PartialProposal → ProposalState
unfolding state_of
get_proposal_state block timestamp p = state_of p.status block timestamp p
